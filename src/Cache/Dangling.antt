-- ===== src/Cache/Dangling.antt =====
-- Where removing a port reads a VLAN row that is gone.
use vland.Common.{ℕ, ◌≡◌, none, some, List, ◌∷◌, arith, find, remove, String}
use vland.Idl.{find_vlan}
use vland.External.{Env}
use vland.State.{PortData, VlanData, State}
use vland.State.Loop.{for_each_fault}
use vland.Vlan.{vlan_lookup_by_vid, update_vlan_membership, handle_vlan_config}
use vland.Cache.{leave_vlan, del_old_port}

module _ (E : Env) where
  open E use {bitmaps}
  open bitmaps use {Bitmap, ones}

  leave_vlan_fault :
      (vid : ℕ) (s : State Bitmap) (k : String) (vlan : VlanData)
      → vlan_lookup_by_vid vid s.all_vlans ≡ some (k, vlan)
      → find_vlan vlan.idl_cfg s.idl.vlans ≡ none
      → leave_vlan E vid s ≡ none
  unfolding leave_vlan handle_vlan_config update_vlan_membership
  leave_vlan_fault vid s k vlan f gone = ground arith

  -- If a port goes while the lowest VLAN of its bitmap is still cached, and the row that this VLAN
  -- was read from is gone already, then `del_old_port` reads through the dangling `idl_cfg`.
  pub del_old_port_dangling :
      (name : String) (s : State Bitmap) (port : PortData Bitmap) (vid : ℕ) (rest : List ℕ)
      (k : String) (vlan : VlanData)
      → find name s.all_ports ≡ some port
      → ones port.vlans_bitmap ≡ vid ∷ rest
      → vlan_lookup_by_vid vid s.all_vlans ≡ some (k, vlan)
      → find_vlan vlan.idl_cfg s.idl.vlans ≡ none
      → del_old_port E name s ≡ none
  unfolding del_old_port
  del_old_port_dangling name s port vid rest k vlan p o f gone =
      let s' = record s { all_ports = remove name s.all_ports } in
      ground
        (arith, for_each_fault (leave_vlan E) vid rest s' (leave_vlan_fault vid s' k vlan f gone))
