-- ===== src/Cli/Lag.antt =====
-- The VLAN commands of a LAG, cli_lag_* of src/cli/vlan_vty.c. `vty->index` is `lagname`.
use vland.Common.{ℕ, String, not, none, some, [], ◌∷◌, contains, if◌then◌else◌}
use vland.Cli.{
  PortRow, Tables, Vtysh, Session, Step, transaction_failed, routing_enabled, vlan_not_found,
  port_not_found, not_in_access_mode, not_in_trunk_mode, not_in_native_mode,
  not_in_native_tagged_mode, in_access_mode, already_allowed, go, ◌>>=◌, abort, require, deref,
  finish, mode_is, mode_eq, write_port, find_port, is_vlan, length, drop_trunk, is_set_to_other,
  is_other_than_trunk, is_other_than_native, after_drop, settle_mode, set_access, clear_access,
  into_mode, add_trunk, set_native, without_native, set_mode, default_vlan,
}

module _ (X : Vtysh) (s : Session) (db : Tables) (lagname : String) where
  open X use {
    mode_access, mode_trunk, mode_native_tagged, mode_native_untagged, check_port_in_bridge,
    ops_port_set_tag, ops_port_set_trunks,
  }

  -- The start of each command: the transaction, and the LAG's place in a bridge.
  abbrev pub begin : Step Unit
  begin = do
    tt ← require s.has_txn (transaction_failed ∷ [])
    require (check_port_in_bridge db lagname) (routing_enabled ∷ [])

  -- The search for the port, where the command looks at the result.
  abbrev pub existing_port : Step PortRow
  existing_port = elim (find_port lagname db.ports) [
    | none ↦ abort (port_not_found ∷ [])
    | some row ↦ go row
  ]

  unfoldable pub cli_lag_vlan_access : ℕ → Step Unit
  cli_lag_vlan_access vlan_id = do
    tt ← begin
    tt ← require (is_vlan vlan_id db.vlans) (vlan_not_found ∷ [])
    row ← deref (find_port lagname db.ports)
    finish s [] (write_port (set_access X db vlan_id row) db)

  unfoldable pub cli_lag_no_vlan_access : Step Unit
  cli_lag_no_vlan_access = do
    tt ← begin
    row ← existing_port
    tt ← require (not (is_set_to_other row.vlan_mode mode_access)) (not_in_access_mode ∷ [])
    finish s [] (write_port (clear_access X db row) db)

  unfoldable pub cli_lag_vlan_trunk_allowed : ℕ → Step Unit
  cli_lag_vlan_trunk_allowed vlan_id = do
    tt ← begin
    tt ← require (is_vlan vlan_id db.vlans) (vlan_not_found ∷ [])
    row ← deref (find_port lagname db.ports)
    let row' = into_mode X mode_trunk row
    (if contains vlan_id row'.vlan_trunks
        then finish s (already_allowed ∷ []) (write_port row' db)
        else finish s [] (write_port (add_trunk X db vlan_id row') db))

  unfoldable pub cli_lag_no_vlan_trunk_allowed : ℕ → Step Unit
  cli_lag_no_vlan_trunk_allowed vlan_id = do
    tt ← begin
    row ← existing_port
    tt ← require (not (is_other_than_trunk X row)) (not_in_trunk_mode ∷ [])
    kept ← drop_trunk vlan_id row.vlan_trunks
    let (row', trunk_count) = after_drop X db row kept
    is_trunk ← mode_is row'.vlan_mode mode_trunk
    finish s [] (write_port (settle_mode X db is_trunk trunk_count row') db)

  unfoldable pub cli_lag_vlan_trunk_native : ℕ → Step Unit
  cli_lag_vlan_trunk_native vlan_id = do
    tt ← begin
    tt ← require (is_vlan vlan_id db.vlans) (vlan_not_found ∷ [])
    row ← existing_port
    finish s [] (write_port (set_native X db vlan_id row) db)

  unfoldable pub cli_lag_no_vlan_trunk_native : Step Unit
  cli_lag_no_vlan_trunk_native = do
    tt ← begin
    row ← deref (find_port lagname db.ports)
    tt ← require (not (is_other_than_native X row)) (not_in_native_mode ∷ [])
    let row' = ops_port_set_tag db default_vlan row
    finish s [] (write_port (without_native X (length row'.vlan_trunks) row') db)

  unfoldable pub cli_lag_vlan_trunk_native_tag : Step Unit
  cli_lag_vlan_trunk_native_tag = do
    tt ← begin
    row ← existing_port
    tt ← require (not (mode_eq row.vlan_mode mode_access)) (in_access_mode ∷ [])
    finish s [] (write_port (set_mode mode_native_tagged row) db)

  unfoldable pub cli_lag_no_vlan_trunk_native_tag : Step Unit
  cli_lag_no_vlan_trunk_native_tag = do
    tt ← begin
    row ← existing_port
    tt ←
        require (not (is_set_to_other row.vlan_mode mode_native_tagged))
          (not_in_native_tagged_mode ∷ [])
    finish s [] (write_port (set_mode mode_native_untagged row) db)
