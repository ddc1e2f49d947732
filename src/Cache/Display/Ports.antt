-- ===== src/Cache/Display/Ports.antt =====
-- `update_port_cache` keeps what the VLAN rows show.
use vland.Common.{ℕ, ◌≡◌, refl, some, arith, find, find-put, put, eq_iff, String}
use vland.External.{Env}
use vland.State.{VlanData, State}
use vland.State.Loop.{>>=-eq-some}
use vland.Vlan.{vlan_lookup_by_vid, update_vlan_membership, handle_vlan_config}
use vland.Cache.{configure, refresh, update_port_cache}
use vland.Cache.Steps.{PortRule, update_port_cache-rel}
use vland.Cache.Identity.{find-vlan_lookup_by_vid}
use vland.Cache.Display.{SameStatus, Displays, put-Displays, handle-Displays}

module _ (E : Env) where
  open E use {bitmaps}
  open bitmaps use {Bitmap}

  update-SameStatus :
      (s : State Bitmap) (vlan : VlanData)
      → SameStatus (update_vlan_membership E s.idl s.all_ports vlan).1 vlan
  unfolding update_vlan_membership
  update-SameStatus s vlan = (refl, refl, refl)

  refresh-Displays :
      (vid : ℕ) (k : String) (vlan : VlanData) (s : State Bitmap)
      → vlan_lookup_by_vid vid s.all_vlans ≡ some (k, vlan)
      → Displays E s
      → Displays E (refresh E k vlan s).0
  unfolding refresh
  refresh-Displays vid k vlan s f d =
      let g = find-vlan_lookup_by_vid vid k vlan s.all_vlans d.unique f in
      put-Displays E s _ k _ vlan g.0 (update-SameStatus s vlan) refl refl d

  configure-Displays :
      (k : String) (vlan : VlanData) (s t : State Bitmap) (n : ℕ)
      → find k s.all_vlans ≡ some vlan
      → configure E k vlan s ≡ some (t, n)
      → Displays E s
      → Displays E t
  unfolding configure
  configure-Displays k vlan s t n f e d =
      let ((db, v, m), e1, last) = >>=-eq-some (handle_vlan_config E s.idl vlan.idl_cfg vlan) _ e in
      let p : t ≡ record s { idl = db; all_vlans = put k v s.all_vlans } = ground (arith) in
      rw p (handle-Displays E s k vlan vlan v db m f (refl, refl, refl) e1 d)

  refreshed-Displays :
      (vid : ℕ) (k : String) (vlan : VlanData) (s t : State Bitmap) (n : ℕ)
      → vlan_lookup_by_vid vid s.all_vlans ≡ some (k, vlan)
      → configure E k (refresh E k vlan s).1 (refresh E k vlan s).0 ≡ some (t, n)
      → Displays E s
      → Displays E t
  unfolding refresh
  refreshed-Displays vid k vlan s t n f e d =
      let (g, _) = find-vlan_lookup_by_vid vid k vlan s.all_vlans d.unique f in
      let v = (update_vlan_membership E s.idl s.all_ports vlan).1 in
      configure-Displays k v _ t n (ground (arith, find-put k k v vlan s.all_vlans g, eq_iff k k)) e
        (refresh-Displays vid k vlan s f d)

  Displays-rule : PortRule E (λ s t n. Displays E s → Displays E t)
  Displays-rule = record {
    nothing = λ s d. d;
    chain = λ s t u m n f g d. g (f d);
    ports = λ s p d. record { unique = d.unique; each = d.each };
    refreshed = refresh-Displays;
    configured = refreshed-Displays;
    counted = λ s t n h. h;
  }

  pub update_port_cache-Displays :
      (s t : State Bitmap) (n : ℕ)
      → update_port_cache E s ≡ some (t, n)
      → Displays E s
      → Displays E t
  update_port_cache-Displays = update_port_cache-rel E Displays-rule
