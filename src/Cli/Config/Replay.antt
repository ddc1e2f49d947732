-- ===== src/Cli/Config/Replay.antt =====
-- The printed commands of an interface's port, put in again: each is run by its function of
-- src/cli/vlan_vty.c, in a transaction of its own.
use vland.Common.{
  ℕ, String, ◌≡◌, ◌≢◌, true, false, Option, none, some, List, [], ◌∷◌, ◌++◌, ◌==◌, contains, str_eq,
  if◌then◌else◌, All,
}
use vland.Run.{is_done}
use vland.Cli.{
  PortRow, SystemRow, Tables, Vtysh, Session, Step, go, stop, fault, abort, aborted, finished,
  write_port, is_vlan, mode_eq, is_not_native,
}
use vland.Cli.Intf.{
  refers, find_interface, cli_intf_vlan_access, cli_intf_vlan_trunk_native,
  cli_intf_vlan_trunk_native_tag,
}
use vland.Cli.Trunk.{is_internal, cli_intf_vlan_trunk_allowed}
use vland.Cli.Own.{IsSole}
use vland.Cli.Config.{
  Line, vlan_access, vlan_trunk_native, vlan_trunk_native_tag, vlan_trunk_allowed,
}

-- The tables that a command leaves behind, where `cli_do_config_finish` commits what it is given.
unfoldable pub after : Session → Step Unit → Tables → Option Tables
after s (go _) db = some db
after s (stop o) db = elim o.ending [
  | aborted ↦ some db
  | finished db' ↦ some (if is_done s.status then db' else db)
]
after s fault db = none

-- `none` in the result is a command that reads through NULL.
module _ (X : Vtysh) (s : Session) (ifname : String) where
  -- A printed line as a command in the context of the interface.
  unfoldable pub run_line : Line → Tables → Step Unit
  run_line (vlan_access id) db = cli_intf_vlan_access X s db ifname id
  run_line (vlan_trunk_native id) db = cli_intf_vlan_trunk_native X s db ifname id
  run_line vlan_trunk_native_tag db = cli_intf_vlan_trunk_native_tag X s db ifname
  run_line (vlan_trunk_allowed id) db = cli_intf_vlan_trunk_allowed X s ifname db (id ∷ [])
  run_line _ db = abort []

  unfoldable pub replay : List Line → Tables → Option Tables
  unfolding run_line after
  replay [] db = some db
  replay (line ∷ lines) db = elim (after s (run_line line db) db) [
    | none ↦ none
    | some db' ↦ replay lines db'
  ]

module _ (X : Vtysh) where
  open X use {mode_access, mode_native_tagged, mode_native_untagged}

  abbrev pub native_mode : PortRow → Option String
  native_mode row = if is_not_native X row then some mode_native_untagged else row.vlan_mode

  -- What a command is to do to the row of the port.
  unfoldable pub apply_line : Line → PortRow → PortRow
  apply_line (vlan_access id) row = record row {
    vlan_mode = some mode_access;
    vlan_tag = some id;
    vlan_trunks = [];
  }
  apply_line (vlan_trunk_native id) row = record row {
    vlan_mode = native_mode row;
    vlan_tag = some id;
  }
  apply_line vlan_trunk_native_tag row = record row { vlan_mode = some mode_native_tagged }
  apply_line (vlan_trunk_allowed id) row = record row {
    vlan_mode = native_mode row;
    vlan_trunks =
        if contains id row.vlan_trunks then row.vlan_trunks else row.vlan_trunks ++ (id ∷ []);
  }
  apply_line _ row = row

  unfoldable pub apply_lines : List Line → PortRow → PortRow
  apply_lines [] row = row
  apply_lines (line ∷ lines) row = apply_lines lines (apply_line line row)

  -- The rows of one port: they differ in the VLAN columns only.
  pub record IsSamePort (row row' : PortRow) : Type 0 where
    pub same_uuid : row'.uuid ≡ row.uuid
    pub same_name : row'.name ≡ row.name
    pub same_interfaces : row'.interfaces ≡ row.interfaces

  -- Transactions go through, the port is the interface's only one, and it stays in the bridge while
  -- its VLAN columns change.
  pub record Ready (s : Session) (db : Tables) (ifname : String) (sys : SystemRow) (row : PortRow)
      : Type 0 where
    pub txn : s.has_txn ≡ true
    pub done : is_done s.status ≡ true
    pub system : db.system ≡ some sys
    pub has_interface : refers (find_interface ifname db.interfaces) row ≡ true
    pub named : str_eq row.name ifname ≡ true
    pub sole : IsSole (find_interface ifname db.interfaces) row db.ports
    pub bridged :
        (row' : PortRow)
        → IsSamePort row row'
        → X.check_iface_in_bridge (write_port row' db) ifname ≡ true

  -- A VLAN that is configured, and not for internal use.
  pub record IsUsable (db : Tables) (sys : SystemRow) (row : PortRow) (id : ℕ) : Type 0 where
    pub vlan : is_vlan id db.vlans ≡ true
    pub outside : is_internal sys id ≡ false
    pub free :
        (row' : PortRow)
        → IsSamePort row row'
        → (X.check_internal_vlan (write_port row' db) id == 0) ≡ false

  -- What a command checks in the row of the port and of its VLAN ID.
  abbrev pub Accepts : Tables → SystemRow → PortRow → Line → PortRow → Type 0
  Accepts db sys row (vlan_access id) r = IsUsable db sys row id
  Accepts db sys row (vlan_trunk_native id) r = IsUsable db sys row id
  Accepts db sys row vlan_trunk_native_tag r = mode_eq r.vlan_mode mode_access ≡ false
  Accepts db sys row (vlan_trunk_allowed id) r =
      IsUsable db sys row id
      × (r.vlan_mode ≢ none)
      × All (λ v. is_vlan v db.vlans ≡ true) r.vlan_trunks
  Accepts db sys row _ r = ⊥

  abbrev pub AcceptsAll : Tables → SystemRow → PortRow → List Line → PortRow → Type 0
  AcceptsAll db sys row [] r = Unit
  AcceptsAll db sys row (line ∷ lines) r =
      Accepts db sys row line r × AcceptsAll db sys row lines (apply_line line r)

  pub apply_line-IsSamePort :
      (line : Line) (row r : PortRow) → IsSamePort row r → IsSamePort row (apply_line line r)
  unfolding apply_line
  apply_line-IsSamePort (vlan_access id) row r h = record {
    same_uuid = h.same_uuid;
    same_name = h.same_name;
    same_interfaces = h.same_interfaces;
  }
  apply_line-IsSamePort (vlan_trunk_native id) row r h = record {
    same_uuid = h.same_uuid;
    same_name = h.same_name;
    same_interfaces = h.same_interfaces;
  }
  apply_line-IsSamePort vlan_trunk_native_tag row r h = record {
    same_uuid = h.same_uuid;
    same_name = h.same_name;
    same_interfaces = h.same_interfaces;
  }
  apply_line-IsSamePort (vlan_trunk_allowed id) row r h = record {
    same_uuid = h.same_uuid;
    same_name = h.same_name;
    same_interfaces = h.same_interfaces;
  }
  apply_line-IsSamePort _ row r h = h
