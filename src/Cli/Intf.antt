-- ===== src/Cli/Intf.antt =====
-- The VLAN commands of an interface, cli_intf_* of src/cli/vlan_vty.c, but for the one that takes a
-- range of VLANs. `vty->index` is `ifname`; an optional VLAN ID is 0 where it is not given.
use vland.Common.{
  ℕ, String, Bool, true, false, not, ◌&&◌, ◌||◌, Option, none, some, List, [], ◌∷◌, ◌==◌, contains,
  str_eq, is_some, if◌then◌else◌,
}
use vland.Cli.{
  PortRow, InterfaceRow, Tables, Vtysh, Session, Step, Message, transaction_failed, routing_enabled,
  vlan_not_found, vlan_not_configured, not_the_access_vlan, not_the_native_vlan, internal_vlan,
  part_of_lag, not_in_access_mode, not_in_trunk_mode, not_in_native_mode, not_in_native_tagged_mode,
  in_access_mode, go, ◌>>=◌, abort, require, deref, finish, mode_eq, write_port, is_vlan, length,
  drop_trunk, is_set_to_other, is_other_than_trunk, is_found_other, has_tag, after_drop,
  settle_mode, set_access, set_native, without_native, set_mode, default_vlan,
}

-- The interface with a name.
unfoldable pub find_interface : String → List InterfaceRow → Option InterfaceRow
find_interface name [] = none
find_interface name (i ∷ is) = if str_eq i.name name then some i else find_interface name is

-- `port_row->interfaces[i] == intf_row` for some `i`.
abbrev pub refers : Option InterfaceRow → PortRow → Bool
refers none row = false
refers (some i) row = contains i.uuid row.interfaces

abbrev pub is_empty : {A : Type 0} → List A → Bool
is_empty [] = true
is_empty (x ∷ xs) = false

-- The loop over the ports that looks for the interface's own port, from `found` on. It aborts at a
-- port of another name that has the interface.
unfoldable pub select_port :
    Option InterfaceRow
    → String
    → (PortRow → List Message)
    → List PortRow
    → Option PortRow
    → Step (Option PortRow)
select_port intf ifname said [] found = go found
select_port intf ifname said (row ∷ rows) found =
    let rest = select_port intf ifname said rows (if refers intf row then some row else found) in
    if refers intf row && not (str_eq row.name ifname) then abort (said row) else rest

module _ (X : Vtysh) where
  open X use {
    mode_access, mode_trunk, mode_native_tagged, mode_native_untagged, check_iface_in_bridge,
    check_internal_vlan, port_check_and_add, ops_port_set_tag,
  }

  -- `vlan_port_row`, from `port_check_and_add` where there is none.
  abbrev pub or_add : Tables → String → Option PortRow → Tables × Option PortRow
  or_add db ifname (some row) = (db, some row)
  or_add db ifname none = port_check_and_add db ifname

  -- The search for the interface's port in all commands but one, from `found` on: the tables after
  -- it, and the port.
  unfoldable pub own_port : Tables → String → Option PortRow → Step (Tables × Option PortRow)
  unfolding select_port find_interface
  own_port db ifname found = elim db.ports [
    | [] ↦ let (db', row) = port_check_and_add db ifname in go (or_add db' ifname row)
    | row ∷ rows ↦
        select_port (find_interface ifname db.interfaces) ifname (λ r. part_of_lag r.name ∷ [])
          db.ports found
        >>= (λ found'. go (or_add db ifname found'))
  ]

  -- The check for internal use, made once for each interface.
  abbrev pub is_free : Tables → ℕ → Bool
  is_free db vlan_id = elim db.interfaces [
    | [] ↦ true
    | _ ∷ _ ↦ not (check_internal_vlan db vlan_id == 0)
  ]

  module _ (s : Session) (db : Tables) (ifname : String) where
    abbrev pub begin : Step Unit
    begin = require s.has_txn (transaction_failed ∷ [])

    -- The interface's port, once the interface is known to be in a bridge.
    abbrev pub bridged_port : Step (Tables × Option PortRow)
    bridged_port = do
      (db', found) ← own_port db ifname none
      tt ← require (check_iface_in_bridge db' ifname) (routing_enabled ∷ [])
      go (db', found)

    unfoldable pub cli_intf_vlan_access : ℕ → Step Unit
    cli_intf_vlan_access vlan_id = do
      tt ← begin
      tt ← require (is_free db vlan_id) (internal_vlan ∷ [])
      (db', found) ← bridged_port
      tt ← require (is_vlan vlan_id db'.vlans) (vlan_not_found ∷ [])
      row ← deref found
      finish s [] (write_port (set_access X db' vlan_id row) db')

    unfoldable pub cli_intf_no_vlan_access : ℕ → Step Unit
    cli_intf_no_vlan_access vlan_id = do
      tt ← begin
      tt ← require (not (is_empty db.vlans)) (vlan_not_found ∷ [])
      tt ← require (vlan_id == 0 || is_vlan vlan_id db.vlans) (vlan_not_configured ∷ [])
      (db', found) ← bridged_port
      row ← deref found
      tt ← require (mode_eq row.vlan_mode mode_access) (not_in_access_mode ∷ [])
      tagged ← has_tag X vlan_id (some row)
      tt ← require tagged (not_the_access_vlan ∷ [])
      finish s [] (write_port (ops_port_set_tag db' default_vlan (set_mode mode_access row)) db')

    unfoldable pub cli_intf_no_vlan_trunk_allowed : ℕ → Step Unit
    unfolding select_port find_interface
    cli_intf_no_vlan_trunk_allowed vlan_id = do
      tt ← begin
      found ← select_port (find_interface ifname db.interfaces) ifname (λ r. []) db.ports none
      tt ← require (is_some found) []
      row ← deref found
      tt ← require (check_iface_in_bridge db ifname) (routing_enabled ∷ [])
      tt ← require (not (is_other_than_trunk X row)) (not_in_trunk_mode ∷ [])
      kept ← drop_trunk vlan_id row.vlan_trunks
      let (row', trunk_count) = after_drop X db row kept
      tt ← require (is_some kept) []
      finish s []
          (write_port (settle_mode X db (mode_eq row'.vlan_mode mode_trunk) trunk_count row') db)

    unfoldable pub cli_intf_vlan_trunk_native : ℕ → Step Unit
    cli_intf_vlan_trunk_native vlan_id = do
      tt ← begin
      tt ← require (is_free db vlan_id) (internal_vlan ∷ [])
      (db', found) ← bridged_port
      tt ← require (is_vlan vlan_id db'.vlans) (vlan_not_found ∷ [])
      row ← deref found
      finish s [] (write_port (set_native X db' vlan_id row) db')

    unfoldable pub cli_intf_no_vlan_trunk_native : ℕ → Step Unit
    cli_intf_no_vlan_trunk_native vlan_id = do
      tt ← begin
      (db', found) ← bridged_port
      tt ← require (not (is_found_other X found)) (not_in_native_mode ∷ [])
      tagged ← has_tag X vlan_id found
      tt ← require tagged (not_the_native_vlan ∷ [])
      row ← deref found
      let trunk_count = length row.vlan_trunks
      finish s []
          (write_port (without_native X trunk_count (ops_port_set_tag db' default_vlan row)) db')

    unfoldable pub cli_intf_vlan_trunk_native_tag : Step Unit
    cli_intf_vlan_trunk_native_tag = do
      tt ← begin
      (db', found) ← bridged_port
      row ← deref found
      tt ← require (not (mode_eq row.vlan_mode mode_access)) (in_access_mode ∷ [])
      finish s [] (write_port (set_mode mode_native_tagged row) db')

    unfoldable pub cli_intf_no_vlan_trunk_native_tag : Step Unit
    cli_intf_no_vlan_trunk_native_tag = do
      tt ← begin
      (db', found) ← bridged_port
      row ← deref found
      tt ←
          require (not (is_set_to_other row.vlan_mode mode_native_tagged))
            (not_in_native_tagged_mode ∷ [])
      finish s [] (write_port (set_mode mode_native_untagged row) db')
