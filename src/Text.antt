-- ===== src/Text.antt =====
-- The strings of the enumerations: vlan_mode_to_str and its siblings, and the reading of the
-- "vlan_mode" and "admin" columns, in src/vland_ovsdb_if.c.
pub mod RoundTrip
mod Tests
use vland.Common.{String, Bool, true, false, Option, none, some, str_eq, if◌then◌else◌, ℕ}
use vland.Idl.{VlanMode, Admin, OperState, OperStateReason, VlanRow, PortRow}
use vland.External.{Strings}

module _ (t : Strings) where
  pub vlan_mode_to_str : VlanMode → String
  vlan_mode_to_str VlanMode.trunk = t.mode_trunk
  vlan_mode_to_str VlanMode.native_tagged = t.mode_native_tagged
  vlan_mode_to_str VlanMode.native_untagged = t.mode_native_untagged
  vlan_mode_to_str VlanMode.access = t.mode_access

  pub vlan_admin_to_str : Admin → String
  vlan_admin_to_str Admin.up = t.admin_up
  vlan_admin_to_str Admin.down = t.admin_down

  unfoldable pub vlan_oper_state_to_str : OperState → String
  vlan_oper_state_to_str OperState.down = t.state_down
  vlan_oper_state_to_str OperState.up = t.state_up
  vlan_oper_state_to_str OperState.unknown = t.state_unknown

  unfoldable pub vlan_oper_state_reason_to_str : OperStateReason → String
  vlan_oper_state_reason_to_str OperStateReason.admin_down = t.reason_admin_down
  vlan_oper_state_reason_to_str OperStateReason.ok = t.reason_ok
  vlan_oper_state_reason_to_str OperStateReason.no_member_port = t.reason_no_member_port
  vlan_oper_state_reason_to_str OperStateReason.unknown = t.reason_unknown

  -- The ladder of string comparisons in `construct_vlan_bitmap`.
  mode_of_str : String → VlanMode
  mode_of_str s =
      if str_eq s t.mode_access
      then VlanMode.access
      else if str_eq s t.mode_trunk
      then VlanMode.trunk
      else if str_eq s t.mode_native_tagged
      then VlanMode.native_tagged
      else if str_eq s t.mode_native_untagged
      then VlanMode.native_untagged
      else VlanMode.trunk

  -- The mode of a row whose "vlan_mode" column is empty: an access port if it has a tag.
  default_mode : Option ℕ → VlanMode
  default_mode none = VlanMode.trunk
  default_mode (some tag) = VlanMode.access

  unfoldable pub vlan_mode_of : PortRow → VlanMode
  unfolding mode_of_str default_mode
  vlan_mode_of row = elim row.vlan_mode [
    | some s ↦ mode_of_str s
    | none ↦ default_mode row.vlan_tag
  ]

  -- The new `admin` in `update_vlan_cache`.
  unfoldable pub admin_of : VlanRow → Admin
  admin_of row = elim row.admin [
    | some s ↦ if str_eq t.admin_up s then Admin.up else Admin.down
    | none ↦ Admin.down
  ]
