-- ===== src/Vlan/Names.antt =====
-- Adding and deleting a VLAN leaves the names of the ports as they are.
use vland.Common.{
  ap, ℕ, String, ◌≡◌, refl, [], ◌∷◌, Nodes, find, names, Option-cases, inl, inr, arith,
}
use vland.Idl.{VlanRow}
use vland.External.{Env}
use vland.State.{PortData, State}
use vland.Vlan.{clear_trunks, parse_vlan_data, add_new_vlan, del_old_vlan}
use vland.Vlan.Membership.{names-update_vlan_membership}

module _ (E : Env) where
  open E use {bitmaps}
  open bitmaps use {Bitmap}

  names-clear_trunks :
      (vid : ℕ) (ports : Nodes (PortData Bitmap)) → names (clear_trunks E vid ports) ≡ names ports
  unfolding clear_trunks
  names-clear_trunks vid [] = refl
  names-clear_trunks vid ((k, port) ∷ ports) = ap (λ ns. k ∷ ns) (names-clear_trunks vid ports)

  pub names-del_old_vlan :
      (name : String) (s : State Bitmap)
      → names (del_old_vlan E name s).all_ports ≡ names s.all_ports
  unfolding del_old_vlan
  names-del_old_vlan name s = elim (Option-cases (find name s.all_vlans)) [
    | inl e ↦ ground (arith, e)
    | inr (vlan, e) ↦ ground (arith, e, names-clear_trunks vlan.vid s.all_ports)
  ]

  pub names-add_new_vlan :
      (row : VlanRow) (s : State Bitmap)
      → names (add_new_vlan E row s).all_ports ≡ names s.all_ports
  unfolding add_new_vlan
  names-add_new_vlan row s = elim (Option-cases (find row.name s.all_vlans)) [
    | inl e ↦
        ground (arith, e, names-update_vlan_membership E s.idl s.all_ports (parse_vlan_data row))
    | inr (vlan, e) ↦ ground (arith, e)
  ]
