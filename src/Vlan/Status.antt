-- ===== src/Vlan/Status.antt =====
-- The operational state and reason of a VLAN.
use vland.Common.{◌≡◌, ◌↔◌, ◌≢◌, ◌⊎◌, true, arith}
use vland.Idl.{Admin, OperState, OperStateReason, Db}
use vland.State.{VlanData}
use vland.Vlan.{default_vid, vland_default_vlan_member_port, calc_vlan_op_state_n_reason}

-- A VLAN has a member as far as its status goes: a port is known to be one, or it is the default
-- VLAN and a Port row names it.
abbrev pub HasMember : Db → VlanData → Type 0
HasMember db vlan =
    (vlan.any_member_exists ≡ true)
    ⊎ ((vlan.vid ≡ default_vid) × (vland_default_vlan_member_port db ≡ true))

-- The reasons follow the documented priority: admin_down exactly for a VLAN that is
-- administratively down, no_member_port exactly for one that is up and has no member, ok exactly for
-- one that is up and has a member. The state is up exactly for the default VLAN and where the reason
-- is ok, and down otherwise. Of the VLAN itself only `any_member_exists` may change, and it then
-- says whether there is a member.
pub calc_vlan_op_state_n_reason_lem :
    (db : Db) (vlan : VlanData)
    → let (v, state, reason) = calc_vlan_op_state_n_reason db vlan in
      ((reason ≡ OperStateReason.admin_down) ↔ (vlan.admin ≡ Admin.down))
      × ((reason ≡ OperStateReason.no_member_port)
          ↔ ((vlan.admin ≡ Admin.up) × ¬ HasMember db vlan))
      × ((reason ≡ OperStateReason.ok) ↔ ((vlan.admin ≡ Admin.up) × HasMember db vlan))
      × ((state ≡ OperState.up) ↔ ((vlan.vid ≡ default_vid) ⊎ (reason ≡ OperStateReason.ok)))
      × ((state ≡ OperState.down) ↔ ¬ (state ≡ OperState.up))
      × (v ≡ record vlan { any_member_exists = v.any_member_exists })
      × ((v.any_member_exists ≡ true) ↔ HasMember db vlan)
unfolding calc_vlan_op_state_n_reason
calc_vlan_op_state_n_reason_lem db vlan = ground arith

-- The default VLAN that is administratively down is reported up, with the reason admin_down: no
-- other VLAN that is administratively down is.
pub default_vlan_admin_down :
    (db : Db) (vlan : VlanData)
    → vlan.admin ≡ Admin.down
    → let (_, state, reason) = calc_vlan_op_state_n_reason db vlan in
      (reason ≡ OperStateReason.admin_down) × ((state ≡ OperState.up) ↔ (vlan.vid ≡ default_vid))
unfolding calc_vlan_op_state_n_reason
default_vlan_admin_down db vlan h = ground arith

-- Once more at its own result, nothing changes.
pub calc_vlan_op_state_n_reason_again :
    (db : Db) (vlan : VlanData) (state : OperState) (reason : OperStateReason)
    → let (v, s, r) = calc_vlan_op_state_n_reason db vlan in
      calc_vlan_op_state_n_reason db (record v { op_state = state; op_state_reason = reason })
      ≡ (record v { op_state = state; op_state_reason = reason }, s, r)
unfolding calc_vlan_op_state_n_reason
calc_vlan_op_state_n_reason_again db vlan state reason = ground arith

pub calc_vlan_op_state_n_reason-ne-unknown :
    (db : Db) (vlan : VlanData) → (calc_vlan_op_state_n_reason db vlan).1 ≢ OperState.unknown
unfolding calc_vlan_op_state_n_reason
calc_vlan_op_state_n_reason-ne-unknown db vlan = ground arith
