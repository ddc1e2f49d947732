-- ===== src/Cli/Create.antt =====
-- The commands that make and remove a VLAN and its interface: vtysh_vlan, vtysh_no_vlan,
-- vtysh_interface_vlan and no_vtysh_interface_vlan of src/cli/vlan_vty.c. `vlan_id` is the parsed
-- argument.
pub mod Bridge
pub mod RoundTrip
pub mod Forget
pub mod Removal
pub mod Daemon
mod Tests
use vland.Common.{
  ℕ, ◌+◌, String, Bool, true, false, not, ◌&&◌, ◌||◌, Option, none, some, is_some, List, [], ◌∷◌,
  ◌++◌, ◌==◌, contains, str_eq, if◌then◌else◌,
}
use vland.Idl.{BridgeRow, VlanRow}
use vland.External.{Strings}
use vland.Run.{is_done, find_bridge}
use vland.Cli.{
  PortRow, InterfaceRow, Tables, Vtysh, Session, Message, Step, Code, Context, Ending,
  internal_no_config, internal_no_deletion, vlan_has_interface, vlan_not_created, vlan_not_found,
  transaction_failed, cmd_success, cmd_ovsdb_failure, cmd_err_nothing_todo, aborted, finished,
  config_node, vlan_node, vlan_interface_node, go, stop, fault, ◌>>=◌, abort, require, deref,
  finish, is_vlan, length, without, drop_trunk, set_mode, default_vlan,
}
use vland.Cli.Intf.{find_interface}
use vland.Cli.Shutdown.{find_vlan_id}
use vland.Cli.Show.{has_tag}

-- What the commands call: `vlan_name` is "VLAN%s" of the argument, cut at eight bytes, `vlanif_name`
-- the macro VLANIF_NAME, `vtysh_ovsdb_port_match` is false where a port has the name, and the two
-- functions on interfaces return the tables, or `none` for CMD_OVSDB_FAILURE. `new_uuid` is the
-- reference to an inserted row.
pub record VlanCalls : Type 0 where
  pub vlan_name : ℕ → String
  pub vlanif_name : ℕ → String
  pub type_system : String
  pub check_if_internal_vlan : VlanRow → Bool
  pub verify_ifname : String → Bool
  pub vtysh_ovsdb_port_match : Tables → String → Bool
  pub create_vlan_interface : Tables → String → Option Tables
  pub delete_vlan_interface : Tables → String → Option Tables
  pub new_uuid : ℕ

-- `default_bridge_row`: the bridge of the default name, else the first one.
unfoldable pub chosen_bridge : String → List BridgeRow → Option BridgeRow
unfolding find_bridge
chosen_bridge name [] = none
chosen_bridge name (b ∷ bs) = elim (find_bridge name (b ∷ bs)) [
  | none ↦ some b
  | some named ↦ some named
]

-- `ovsrec_bridge_set_vlans` on one row.
unfoldable pub put_bridge : ℕ → List ℕ → List BridgeRow → List BridgeRow
put_bridge u vlans [] = []
put_bridge u vlans (b ∷ bs) =
    if u == b.uuid then record b { vlans = vlans } ∷ bs else b ∷ put_bridge u vlans bs

-- `ovsrec_vlan_delete`
unfoldable pub delete_vlan : ℕ → List VlanRow → List VlanRow
delete_vlan u [] = []
delete_vlan u (row ∷ rows) = if u == row.uuid then rows else row ∷ delete_vlan u rows

abbrev pub return : Code → List Message → Option Context → Step Unit
return code said enters =
    stop (record { code = code; said = said; ending = aborted; enters = enters })

module _ (X : Vtysh) (t : Strings) (C : VlanCalls) where
  open X use {mode_access, mode_trunk, ops_port_set_tag, ops_port_set_trunks}
  open C use {vlan_name, vlanif_name, check_if_internal_vlan, vtysh_ovsdb_port_match, new_uuid}

  unfoldable pub new_vlan_row : ℕ → VlanRow
  new_vlan_row vlan_id = record {
    uuid = new_uuid;
    name = vlan_name vlan_id;
    id = vlan_id;
    description = none;
    admin = some t.admin_down;
    l3port = none;
    hw_vlan_config = [];
    oper_state = some t.state_down;
    oper_state_reason = some t.reason_admin_down;
  }

  -- The port of the interface of the VLAN becomes a member of it.
  unfoldable pub join_interface : Tables → ℕ → List PortRow → List PortRow
  join_interface db vlan_id [] = []
  join_interface db vlan_id (row ∷ rows) =
      (if str_eq row.name (vlanif_name vlan_id)
        then record (ops_port_set_tag db vlan_id row) { vlan_mode = none }
        else row)
      ∷ join_interface db vlan_id rows

  -- The tables that `vtysh_vlan` hands in, with the new row in a bridge.
  unfoldable pub created : Tables → ℕ → BridgeRow → Tables
  unfolding put_bridge new_vlan_row join_interface
  created db vlan_id bridge =
      let db' = record db {
        vlans = db.vlans ++ (new_vlan_row vlan_id ∷ []);
        bridges = put_bridge bridge.uuid (bridge.vlans ++ (new_uuid ∷ [])) db.bridges;
      } in
      record db' { ports = join_interface db' vlan_id db'.ports }

  unfoldable pub vtysh_vlan : Session → Tables → ℕ → Step Unit
  unfolding find_vlan_id chosen_bridge created
  vtysh_vlan s db vlan_id = elim (find_vlan_id vlan_id db.vlans) [
    | some row ↦
        if check_if_internal_vlan row
        then abort (internal_no_config ∷ [])
        else return cmd_success [] (some (vlan_node vlan_id))
    | none ↦ do
      tt ← require s.has_txn (transaction_failed ∷ [])
      bridge ← deref (chosen_bridge t.default_bridge_name db.bridges)
      stop (record {
        code = cmd_success;
        said = if is_done s.status then [] else transaction_failed ∷ [];
        ending = finished (created db vlan_id bridge);
        enters = if is_done s.status then some (vlan_node vlan_id) else none;
      })
  ]

  -- A port that had the VLAN, once the VLAN has left its trunks: it then has `trunk_count` of them.
  unfoldable pub leave : Tables → ℕ → PortRow → PortRow
  leave db trunk_count row =
      let is_system = elim (find_interface row.name db.interfaces) as (λ _. Bool) [
        | none ↦ false
        | some ifrow ↦ str_eq ifrow.type C.type_system
      ] in
      if not (trunk_count == 0)
      then ops_port_set_tag db 0 (set_mode mode_trunk row)
      else if is_system
      then ops_port_set_tag db default_vlan (set_mode mode_access row)
      else row

  -- One turn of the loop over the ports in `vtysh_no_vlan`.
  unfoldable pub forget_vlan : Tables → ℕ → PortRow → Step PortRow
  unfolding leave drop_trunk
  forget_vlan db vlan_id row = do
    kept ← drop_trunk vlan_id row.vlan_trunks
    (elim kept [
      | none ↦ go (if has_tag vlan_id row then leave db (length row.vlan_trunks) row else row)
      | some trunks ↦ go (leave db (length trunks) (ops_port_set_trunks db trunks row))
    ])

  unfoldable pub forget_in_all : Tables → ℕ → List PortRow → Step (List PortRow)
  unfolding forget_vlan
  forget_in_all db vlan_id [] = go []
  forget_in_all db vlan_id (row ∷ rows) = do
    row' ← forget_vlan db vlan_id row
    rows' ← forget_in_all db vlan_id rows
    go (row' ∷ rows')

  -- The bridge's VLANs without one: the new array has one place less than the old.
  unfoldable pub unlink_vlan : ℕ → List ℕ → Step (List ℕ)
  unlink_vlan u vlans =
      if 1 + length (without u vlans) == length vlans then go (without u vlans) else fault

  unfoldable pub vtysh_no_vlan : Session → Tables → ℕ → Step Unit
  unfolding find_vlan_id chosen_bridge put_bridge delete_vlan unlink_vlan forget_in_all
  vtysh_no_vlan s db vlan_id = elim (find_vlan_id vlan_id db.vlans) [
    | none ↦ return cmd_success (vlan_not_found ∷ []) none
    | some row ↦ do
      tt ← require (not (check_if_internal_vlan row)) (internal_no_deletion ∷ [])
      tt ←
          (if vtysh_ovsdb_port_match db (vlanif_name vlan_id)
            then go tt
            else return cmd_err_nothing_todo (vlan_has_interface ∷ []) (some config_node))
      tt ← require s.has_txn (transaction_failed ∷ [])
      bridge ← deref (chosen_bridge t.default_bridge_name db.bridges)
      vlans ← unlink_vlan row.uuid bridge.vlans
      let db' = record db { bridges = put_bridge bridge.uuid vlans db.bridges }
      ports ← forget_in_all db' vlan_id db'.ports
      finish s [] (record db' { ports = ports; vlans = delete_vlan row.uuid db'.vlans })
  ]

  -- The interface's functions run transactions of their own: the tables after the command, and what
  -- it returns. `vty->index` counts in the node of the interface only.
  unfoldable pub vtysh_interface_vlan : Tables → ℕ → Tables × Code × List Message × Context
  vtysh_interface_vlan db vlan_id =
      let vlan_if = vlanif_name vlan_id in
      if not (C.verify_ifname vlan_if)
      then (db, cmd_err_nothing_todo, [], config_node)
      else if is_vlan vlan_id db.vlans
      then elim (C.create_vlan_interface db vlan_if) [
        | none ↦ (db, cmd_err_nothing_todo, [], config_node)
        | some db' ↦ (db', cmd_success, [], vlan_interface_node vlan_if)
      ]
      else (db, cmd_err_nothing_todo, vlan_not_created ∷ [], config_node)

  unfoldable pub no_vtysh_interface_vlan : Tables → ℕ → Tables × Code × List Message × Context
  no_vtysh_interface_vlan db vlan_id =
      let vlan_if = vlanif_name vlan_id in
      if not (C.verify_ifname vlan_if)
      then (db, cmd_ovsdb_failure, [], config_node)
      else elim (C.delete_vlan_interface db vlan_if) [
        | none ↦ (db, cmd_ovsdb_failure, [], config_node)
        | some db' ↦ (db', cmd_success, [], config_node)
      ]
