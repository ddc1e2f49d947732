-- ===== src/Cli/Trunk.antt =====
-- `vlan trunk allowed` with a range of VLANs, cli_intf_vlan_trunk_allowed of src/cli/vlan_vty.c.
-- `ids` are the VLAN IDs of the list that `cmd_get_range_value` makes of the argument.
use vland.Common.{
  ℕ, String, Bool, true, false, not, ◌&&◌, ◌||◌, Option, none, some, List, [], ◌∷◌, ◌++◌, ◌==◌, leb,
  contains, if◌then◌else◌,
}
use vland.Common.Int.{ℤ, pos, negsuc}
use vland.Cli.{
  PortRow, SystemRow, Tables, Vtysh, Session, Step, Message, transaction_failed, routing_enabled,
  vlan_not_found, already_allowed, internal_vlan, internal_range, cmd_ovsdb_failure,
  cmd_err_no_match, aborted, go, stop, ◌>>=◌, require, deref, finish, mode_is, write_port, is_vlan,
  add_trunk, set_mode,
}
use vland.Cli.Intf.{own_port}

-- `vlan_id >= min_vlan`, and `vlan_id <= max_vlan`.
abbrev pub from : ℤ → ℕ → Bool
from (pos n) vlan_id = leb n vlan_id
from (negsuc n) vlan_id = true

abbrev pub to : ℤ → ℕ → Bool
to (pos n) vlan_id = leb vlan_id n
to (negsuc n) vlan_id = false

-- `vlan_id >= min_vlan && vlan_id <= max_vlan`
abbrev pub is_internal : SystemRow → ℕ → Bool
is_internal sys vlan_id = from sys.min_internal_vlan vlan_id && to sys.max_internal_vlan vlan_id

-- What one turn of the loop leaves to the next: the tables, `vlan_port_row`, and what was printed.
pub record Progress : Type 0 where
  pub db : Tables
  pub vlan_port_row : Option PortRow
  pub said : List Message

module _ (X : Vtysh) (s : Session) (ifname : String) where
  open X use {mode_native_tagged, mode_native_untagged, check_iface_in_bridge, check_internal_vlan}

  -- One VLAN ID that is not in internal use.
  unfoldable pub allow_vlan : SystemRow → ℕ → Progress → Step Progress
  allow_vlan sys vlan_id p = do
    tt ← require (not (is_internal sys vlan_id)) (p.said ++ (internal_range ∷ []))
    (db, found) ← own_port X p.db ifname p.vlan_port_row
    tt ← require (check_iface_in_bridge db ifname) (p.said ++ (routing_enabled ∷ []))
    tt ← require (is_vlan vlan_id db.vlans) (p.said ++ (vlan_not_found ∷ []))
    row ← deref found
    is_tagged ← mode_is row.vlan_mode mode_native_tagged
    is_untagged ← mode_is row.vlan_mode mode_native_untagged
    let row' = if is_tagged || is_untagged then row else set_mode mode_native_untagged row
    tt ←
        (if contains vlan_id row'.vlan_trunks
          then finish s (p.said ++ (already_allowed ∷ [])) (write_port row' db)
          else go tt)
    let row'' = add_trunk X db vlan_id row'
    go (record { db = write_port row'' db; vlan_port_row = some row''; said = p.said })

  -- One turn of the loop.
  unfoldable pub allow_one : SystemRow → ℕ → Progress → Step Progress
  unfolding allow_vlan
  allow_one sys vlan_id p = do
    tt ← require s.has_txn (p.said ++ (transaction_failed ∷ []))
    (if check_internal_vlan p.db vlan_id == 0
        then go (record p { said = p.said ++ (internal_vlan ∷ []) })
        else allow_vlan sys vlan_id p)

  unfoldable pub allow_all : SystemRow → List ℕ → Progress → Step Unit
  unfolding allow_one
  allow_all sys [] p = finish s p.said p.db
  allow_all sys (vlan_id ∷ ids) p = allow_one sys vlan_id p >>= allow_all sys ids

  unfoldable pub cli_intf_vlan_trunk_allowed : Tables → List ℕ → Step Unit
  unfolding allow_all
  cli_intf_vlan_trunk_allowed db [] =
      stop (record { code = cmd_err_no_match; said = []; ending = aborted; enters = none })
  cli_intf_vlan_trunk_allowed db (vlan_id ∷ ids) = elim db.system [
    | none ↦ stop (record { code = cmd_ovsdb_failure; said = []; ending = aborted; enters = none })
    | some sys ↦ allow_all sys (vlan_id ∷ ids) (record { db = db; vlan_port_row = none; said = [] })
  ]
