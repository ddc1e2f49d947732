-- ===== src/Vlan.antt =====
-- VLANs: the lookup, parsing, membership, operational state and configuration of a VLAN, and its
-- entry into and removal from the cache, in src/vland_ovsdb_if.c.
pub mod Membership
pub mod Names
pub mod Status
pub mod Config
pub mod Registry
mod Tests
use vland.Common.{
  ℕ, ◌+◌, String, ◌≡◌, Bool, true, false, ◌&&◌, ◌||◌, Option, none, some, List, [], ◌∷◌, ◌==◌,
  str_eq, is_some, if◌then◌else◌, Nodes, find, put, remove, contains,
}
use vland.Idl.{Admin, OperState, OperStateReason, Db, PortRow, VlanRow, find_vlan, put_vlan}
use vland.External.{Env}
use vland.State.{PortData, VlanData, State, ◌>>=◌}
use vland.Text.{vlan_oper_state_to_str, vlan_oper_state_reason_to_str}
use vland.Port.{check_port_in_bridge}

-- DEFAULT_VID
abbrev pub default_vid : ℕ
default_vid = 1

-- The first VLAN of the table with an ID, with the name of its node.
unfoldable pub vlan_lookup_by_vid : ℕ → Nodes VlanData → Option (String × VlanData)
vlan_lookup_by_vid vid [] = none
vlan_lookup_by_vid vid ((k, vlan) ∷ m) =
    if vlan.vid == vid then some (k, vlan) else vlan_lookup_by_vid vid m

unfoldable pub parse_vlan_data : VlanRow → VlanData
parse_vlan_data row = record {
  idl_cfg = row.uuid;
  name = row.name;
  vid = row.id;
  any_member_exists = false;
  admin = Admin.down;
  op_state = OperState.unknown;
  op_state_reason = OperStateReason.unknown;
}

-- `==` of the enumerations.
abbrev pub same_state : OperState → OperState → Bool
same_state OperState.unknown OperState.unknown = true
same_state OperState.up OperState.up = true
same_state OperState.down OperState.down = true
same_state _ _ = false

abbrev pub same_reason : OperStateReason → OperStateReason → Bool
same_reason OperStateReason.unknown OperStateReason.unknown = true
same_reason OperStateReason.admin_down OperStateReason.admin_down = true
same_reason OperStateReason.ok OperStateReason.ok = true
same_reason OperStateReason.no_member_port OperStateReason.no_member_port = true
same_reason _ _ = false

-- One turn of the port loop in `vland_default_vlan_member_port`: the tag decides where there is one,
-- and the trunks otherwise.
in_default_vlan : PortRow → Bool
in_default_vlan row = elim row.vlan_tag [
  | some tag ↦ tag == default_vid
  | none ↦ contains default_vid row.vlan_trunks
]

any_in_default_vlan : List PortRow → Bool
unfolding in_default_vlan
any_in_default_vlan [] = false
any_in_default_vlan (row ∷ rows) = in_default_vlan row || any_in_default_vlan rows

unfoldable pub has_vlan_id : ℕ → List VlanRow → Bool
has_vlan_id vid [] = false
has_vlan_id vid (row ∷ rows) = row.id == vid || has_vlan_id vid rows

unfoldable pub vland_default_vlan_member_port : Db → Bool
unfolding any_in_default_vlan has_vlan_id
vland_default_vlan_member_port db =
    if has_vlan_id default_vid db.vlans then any_in_default_vlan db.ports else false

-- The VLAN as the function leaves it, and the new state and reason.
unfoldable pub calc_vlan_op_state_n_reason : Db → VlanData → VlanData × OperState × OperStateReason
calc_vlan_op_state_n_reason db vlan =
    let is_default = vlan.vid == default_vid in
    let state = if is_default then OperState.up else OperState.down in
    let member =
      if is_default && vland_default_vlan_member_port db then true else vlan.any_member_exists in
    let new_vlan = record vlan { any_member_exists = member } in
    elim vlan.admin [
      | Admin.down ↦ (new_vlan, state, OperStateReason.admin_down)
      | Admin.up ↦
          if member
          then (new_vlan, OperState.up, OperStateReason.ok)
          else (new_vlan, state, OperStateReason.no_member_port)
    ]

module _ (E : Env) where
  open E use {strings, bitmaps, link}
  open bitmaps use {Bitmap, bitmap_set, bitmap_is_set}

  -- One turn of the loop of `update_vlan_membership`: the port, and whether it is a member.
  membership_port : Db → ℕ → PortData Bitmap → PortData Bitmap × Bool
  membership_port db vid port =
      if check_port_in_bridge db port.name
      then if port.trunk_all_vlans
        then (record port { vlans_bitmap = bitmap_set port.vlans_bitmap vid true }, true)
        else (port, bitmap_is_set port.vlans_bitmap vid)
      else (port, false)

  membership_loop : Db → ℕ → Nodes (PortData Bitmap) → Nodes (PortData Bitmap) × Bool
  unfolding membership_port
  membership_loop db vid [] = ([], false)
  membership_loop db vid ((k, port) ∷ ports) =
      let (port', member) = membership_port db vid port in
      let (ports', found) = membership_loop db vid ports in ((k, port') ∷ ports', member || found)

  unfoldable pub update_vlan_membership :
      Db → Nodes (PortData Bitmap) → VlanData → Nodes (PortData Bitmap) × VlanData
  unfolding membership_loop
  update_vlan_membership db all_ports vlan =
      let (ports, found) = membership_loop db vlan.vid all_ports in
      (ports, record vlan { any_member_exists = found })

  -- The column "hw_vlan_config" for a state.
  abbrev pub hw_config : OperState → List (String × String)
  hw_config OperState.up = ("enable", strings.hw_enable_true) ∷ []
  hw_config _ = []

  -- The three columns that are written for a new state and reason.
  abbrev pub write_status : OperState → OperStateReason → VlanRow → VlanRow
  write_status state reason row = record row {
    hw_vlan_config = hw_config state;
    oper_state = some (vlan_oper_state_to_str strings state);
    oper_state_reason = some (vlan_oper_state_reason_to_str strings reason);
  }

  -- What `handle_vlan_config` does with the new state and reason.
  settle :
      Option String
      → ℕ
      → VlanData
      → OperState
      → OperStateReason
      → Db
      → VlanData
      → Option (Db × VlanData × ℕ)
  settle (some l3port) row v state reason db vlan = some (db, vlan, 0)
  settle none row v state reason db vlan =
      if same_state state v.op_state && same_reason reason v.op_state_reason
      then some (db, v, 0)
      else some (
        record db { vlans = put_vlan row (write_status state reason) db.vlans },
        record v { op_state = state; op_state_reason = reason },
        1,
      )

  -- `none` if `row` dangles; else the database, the VLAN and the returned 0 or 1.
  unfoldable pub handle_vlan_config : Db → ℕ → VlanData → Option (Db × VlanData × ℕ)
  unfolding settle
  handle_vlan_config db row vlan = do
    r ← find_vlan row db.vlans
    let (v, state, reason) = calc_vlan_op_state_n_reason db vlan
    settle r.l3port row v state reason db vlan

  -- A VLAN of a name that is cached already is dropped with a warning.
  unfoldable pub add_new_vlan : VlanRow → State Bitmap → State Bitmap
  add_new_vlan row s = elim (find row.name s.all_vlans) [
    | some vlan ↦ s
    | none ↦
        let (ports, vlan) = update_vlan_membership s.idl s.all_ports (parse_vlan_data row) in
        record s {
          all_ports = ports;
          all_vlans = link row.name vlan s.all_vlans;
          all_vlans_bitmap = bitmap_set s.all_vlans_bitmap row.id true;
        }
  ]

  -- The port loop of `del_old_vlan`.
  pub clear_trunks : ℕ → Nodes (PortData Bitmap) → Nodes (PortData Bitmap)
  clear_trunks vid [] = []
  clear_trunks vid ((k, port) ∷ ports) =
      (
        k,
        if port.trunk_all_vlans
            then record port { vlans_bitmap = bitmap_set port.vlans_bitmap vid false }
            else port,
      )
      ∷ clear_trunks vid ports

  -- Removal of the node with the name, if there is one.
  unfoldable pub del_old_vlan : String → State Bitmap → State Bitmap
  unfolding clear_trunks
  del_old_vlan name s = elim (find name s.all_vlans) [
    | none ↦ s
    | some vlan ↦ record s {
      all_ports = clear_trunks vlan.vid s.all_ports;
      all_vlans = remove name s.all_vlans;
      all_vlans_bitmap = bitmap_set s.all_vlans_bitmap vlan.vid false;
    }
  ]
