-- ===== src/Vlan/Tests.antt =====
-- VLANs at a concrete database.
use vland.Common.{ℕ, ◌≡◌, ◌↔◌, ◌⊎◌, Bool, true, none, some, [], ◌∷◌, arith, All₂, Nodes}
use vland.Idl.{Admin, OperState, OperStateReason, Db, VlanRow, find_vlan, put_vlan}
use vland.State.{VlanData, PortData}
use vland.Samples.{env, bitmaps-laws, db, vlan, access_port}
use vland.Vlan.{
  default_vid, calc_vlan_op_state_n_reason, update_vlan_membership, handle_vlan_config,
  write_status,
}
use vland.Vlan.Status.{HasMember, calc_vlan_op_state_n_reason_lem}
use vland.Vlan.Membership.{any_member, Updated, update_vlan_membership_lem}
use vland.Vlan.Config.{Handled, handle_vlan_config_lem}

calc_vlan_op_state_n_reason_lem_example :
    let (v, state, reason) = calc_vlan_op_state_n_reason db vlan in
    ((reason ≡ OperStateReason.admin_down) ↔ (vlan.admin ≡ Admin.down))
    × ((reason ≡ OperStateReason.no_member_port) ↔ ((vlan.admin ≡ Admin.up) × ¬ HasMember db vlan))
    × ((reason ≡ OperStateReason.ok) ↔ ((vlan.admin ≡ Admin.up) × HasMember db vlan))
    × ((state ≡ OperState.up) ↔ ((vlan.vid ≡ default_vid) ⊎ (reason ≡ OperStateReason.ok)))
    × ((state ≡ OperState.down) ↔ ¬ (state ≡ OperState.up))
    × (v ≡ record vlan { any_member_exists = v.any_member_exists })
    × ((v.any_member_exists ≡ true) ↔ HasMember db vlan)
calc_vlan_op_state_n_reason_lem_example = calc_vlan_op_state_n_reason_lem db vlan

abbrev ports : Nodes (PortData (ℕ → Bool))
ports = ("1", access_port) ∷ ("2", record access_port { name = "2"; trunk_all_vlans = true }) ∷ []

update_vlan_membership_lem_example :
    let (ports', v) = update_vlan_membership env db ports vlan in
    (v ≡ record vlan { any_member_exists = any_member env db 10 ports })
    × All₂ (Updated env db 10) ports ports'
update_vlan_membership_lem_example =
    update_vlan_membership_lem env bitmaps-laws db ports vlan (omega arith)

handle_vlan_config_lem_example :
    ((find_vlan 10 db.vlans ≡ none) × (handle_vlan_config env db 10 vlan ≡ none))
    ⊎ ((r : VlanRow) × (db' : Db) × (v : VlanData) × (n : ℕ) × (find_vlan 10 db.vlans ≡ some r)
        × (handle_vlan_config env db 10 vlan ≡ some (db', v, n))
        × Handled env db 10 r vlan db' v n)
handle_vlan_config_lem_example = handle_vlan_config_lem env db 10 vlan

-- The VLAN has no member yet, so it goes down.
abbrev downed : VlanData
downed = record vlan { op_state = OperState.down; op_state_reason = OperStateReason.no_member_port }

abbrev written : Db
written = record db {
  vlans = put_vlan 10 (write_status env OperState.down OperStateReason.no_member_port) db.vlans;
}
