-- ===== src/Vlan/Membership.antt =====
-- Which ports are members of a VLAN.
use vland.Common.{
  ℕ, String, ◌<◌, ◌≡◌, refl, ap, sym, ◌∙◌, Bool, true, false, ◌&&◌, ◌||◌, [], ◌∷◌, arith, ◌==◌,
  Nodes, All₂, names,
}
use vland.Idl.{Db}
use vland.External.{Env, BitmapLaws}
use vland.State.{PortData, VlanData}
use vland.Port.{check_port_in_bridge}
use vland.Vlan.{membership_port, membership_loop, update_vlan_membership}

module _ (E : Env) where
  open E use {bitmaps}
  open bitmaps use {Bitmap, bitmap_is_set, size}

  -- A port of the bridge that trunks every VLAN, or has the VLAN in its bitmap.
  abbrev pub is_member : Db → ℕ → PortData Bitmap → Bool
  is_member db vid port =
      check_port_in_bridge db port.name
      && (port.trunk_all_vlans || bitmap_is_set port.vlans_bitmap vid)

  abbrev pub any_member : Db → ℕ → Nodes (PortData Bitmap) → Bool
  any_member db vid [] = false
  any_member db vid ((k, port) ∷ ports) = is_member db vid port || any_member db vid ports

  -- What a port's node is after the update: the same but for the VLAN's bit, which goes into the
  -- bitmap of a port of the bridge that trunks every VLAN.
  pub record Updated (db : Db) (vid : ℕ) (old new : String × PortData Bitmap) : Type 0 where
    pub key : new.0 ≡ old.0
    pub rest : new.1 ≡ record old.1 { vlans_bitmap = new.1.vlans_bitmap }
    pub bits :
        (j : ℕ)
        → j < size
        → bitmap_is_set new.1.vlans_bitmap j ≡ (
            bitmap_is_set old.1.vlans_bitmap j
            || j == vid && old.1.trunk_all_vlans && check_port_in_bridge db old.1.name)

  names-membership_loop :
      (db : Db) (vid : ℕ) (ports : Nodes (PortData Bitmap))
      → names (membership_loop E db vid ports).0 ≡ names ports
  unfolding membership_loop
  names-membership_loop db vid [] = refl
  names-membership_loop db vid ((k, port) ∷ ports) =
      ap (λ ns. k ∷ ns) (names-membership_loop db vid ports)

  -- The ports keep their names.
  pub names-update_vlan_membership :
      (db : Db) (ports : Nodes (PortData Bitmap)) (vlan : VlanData)
      → names (update_vlan_membership E db ports vlan).0 ≡ names ports
  unfolding update_vlan_membership
  names-update_vlan_membership db ports vlan = names-membership_loop db vlan.vid ports

  module _ (L : BitmapLaws bitmaps) where
    membership_port-bits :
        (db : Db) (vid : ℕ) (port : PortData Bitmap) (j : ℕ)
        → vid < size
        → j < size
        → bitmap_is_set (membership_port E db vid port).0.vlans_bitmap j ≡ (
            bitmap_is_set port.vlans_bitmap j
            || j == vid && port.trunk_all_vlans && check_port_in_bridge db port.name)
    unfolding membership_port
    membership_port-bits db vid port j h hj =
        ground (arith, L.is_set-set port.vlans_bitmap vid true j)

    membership_port-Updated :
        (db : Db) (vid : ℕ) (k : String) (port : PortData Bitmap)
        → vid < size
        → Updated db vid (k, port) (k, (membership_port E db vid port).0)
    membership_port-Updated db vid k port h = record {
      key = refl;
      rest = unfold membership_port in ground arith;
      bits = λ j hj. membership_port-bits db vid port j h hj;
    }

    membership_loop_lem :
        (db : Db) (vid : ℕ) (ports : Nodes (PortData Bitmap))
        → vid < size
        → ((membership_loop E db vid ports).1 ≡ any_member db vid ports)
          × All₂ (Updated db vid) ports (membership_loop E db vid ports).0
    unfolding membership_loop
    membership_loop_lem db vid [] h = (refl, tt)
    membership_loop_lem db vid ((k, port) ∷ ports) h = (
      ground (arith, (membership_loop_lem db vid ports h).0),
      (membership_port-Updated db vid k port h, (membership_loop_lem db vid ports h).1),
    )

    -- `update_vlan_membership` records whether any cached port is a member of the VLAN: a port of the
    -- bridge that trunks every VLAN or that has the VLAN in its bitmap. It puts the VLAN's bit into
    -- the bitmap of each port of the bridge that trunks every VLAN, and changes nothing else of the
    -- ports or of the VLAN. The VLAN's ID lies inside the bitmaps.
    pub update_vlan_membership_lem :
        (db : Db) (ports : Nodes (PortData Bitmap)) (vlan : VlanData)
        → vlan.vid < size
        → let (ports', v) = update_vlan_membership E db ports vlan in
          (v ≡ record vlan { any_member_exists = any_member db vlan.vid ports })
          × All₂ (Updated db vlan.vid) ports ports'
    unfolding update_vlan_membership
    update_vlan_membership_lem db ports vlan h =
        let facts = membership_loop_lem db vlan.vid ports h in
        (ap (λ b. record vlan { any_member_exists = b }) facts.0, facts.1)

    any_member-Updated :
        (db : Db) (vid : ℕ) (ports ports' : Nodes (PortData Bitmap))
        → vid < size
        → All₂ (Updated db vid) ports ports'
        → any_member db vid ports' ≡ any_member db vid ports
    any_member-Updated db vid [] [] h u = refl
    any_member-Updated db vid [] (y ∷ ys) h u = elim u [ ]
    any_member-Updated db vid (x ∷ xs) [] h u = elim u [ ]
    any_member-Updated db vid (x ∷ xs) (y ∷ ys) h u = ground (
      arith,
      any_member-Updated db vid xs ys h u.1,
      u.0.bits vid h,
      u.0.rest,
      ap (λ (p : PortData Bitmap). p.name) u.0.rest,
      ap (λ (p : PortData Bitmap). p.trunk_all_vlans) u.0.rest,
    )

    -- A second update right after the first records the same membership again.
    pub update_vlan_membership_again :
        (db : Db) (ports : Nodes (PortData Bitmap)) (vlan : VlanData)
        → vlan.vid < size
        → let (ports', v) = update_vlan_membership E db ports vlan in
          (update_vlan_membership E db ports' v).1 ≡ v
    unfolding update_vlan_membership
    update_vlan_membership_again db ports vlan h =
        let once = membership_loop_lem db vlan.vid ports h in
        let twice = membership_loop_lem db vlan.vid (membership_loop E db vlan.vid ports).0 h in
        ap (λ b. record vlan { any_member_exists = b })
          (twice.0 ∙ any_member-Updated db vlan.vid ports _ h once.1 ∙ sym once.0)
