-- ===== src/Cache/Identity/Steps.antt =====
-- The steps of the caches never change the reference to the row or the VLAN ID of a cached VLAN.
use vland.Common.{
  ℕ, ◌+◌, ◌≡◌, ◌∙◌, refl, ◌||◌, Option, some, List, arith, Nodes, find, put, Unique, Bool-cases,
  Option-cases, inl, inr, String,
}
use vland.Idl.{VlanRow}
use vland.External.{Env}
use vland.State.{VlanData, State, for_each}
use vland.State.Loop.{>>=-eq-some, for_each-rel}
use vland.Text.{admin_of}
use vland.Vlan.{vlan_lookup_by_vid, update_vlan_membership, handle_vlan_config}
use vland.Vlan.Config.{handle_vlan_config_lem}
use vland.Cache.{configure, refresh, update_port_cache, change_vlan}
use vland.Cache.Steps.{PortRule, update_port_cache-rel}
use vland.Cache.Identity.{
  idents, SameIdent, Unique-idents, idents-put, SameIdent-put, find-vlan_lookup_by_vid,
}

module _ (E : Env) where
  open E use {bitmaps}
  open bitmaps use {Bitmap}

  -- In caches with one node to a name, the cached VLANs stay, and so does the bitmap of all VLANs.
  abbrev pub SameIdents : State Bitmap → State Bitmap → ℕ → Type 0
  SameIdents s t n =
      (Unique s.all_vlans → idents t.all_vlans ≡ idents s.all_vlans)
      × (t.all_vlans_bitmap ≡ s.all_vlans_bitmap)

  SameIdents-refl : (s : State Bitmap) → SameIdents s s 0
  SameIdents-refl s = (λ u. refl, refl)

  SameIdents-then :
      (s t u : State Bitmap) (m n : ℕ)
      → SameIdents s t m
      → SameIdents t u n
      → SameIdents s u (m + n)
  SameIdents-then s t u m n f g =
      (λ h. g.0 (Unique-idents s.all_vlans t.all_vlans (f.0 h) h) ∙ f.0 h, g.1 ∙ f.1)

  SameIdents-loop :
      {A : Type 0} (f : A → State Bitmap → Option (State Bitmap × ℕ))
      → ((x : A) (s t : State Bitmap) (n : ℕ) → f x s ≡ some (t, n) → SameIdents s t n)
      → (xs : List A) (s t : State Bitmap) (n : ℕ) → for_each f xs s ≡ some (t, n)
      → SameIdents s t n
  SameIdents-loop f turn = for_each-rel SameIdents SameIdents-refl SameIdents-then f turn

  handle-SameIdent :
      (s : State Bitmap) (row : ℕ) (vlan v : VlanData) (db : _) (n : ℕ)
      → handle_vlan_config E s.idl row vlan ≡ some (db, v, n)
      → SameIdent v vlan
  handle-SameIdent s row vlan v db n e = elim (handle_vlan_config_lem E s.idl row vlan) [
    | inl (_, fault) ↦ ground (arith)
    | inr (r, db1, v1, n1, _, e1, h) ↦
        let p : v ≡ v1 = ground (arith) in rw p (ground (arith, h.same))
  ]

  configure-bitmap :
      (k : String) (vlan : VlanData) (s t : State Bitmap) (n : ℕ)
      → configure E k vlan s ≡ some (t, n)
      → t.all_vlans_bitmap ≡ s.all_vlans_bitmap
  unfolding configure
  configure-bitmap k vlan s t n e =
      let ((db, v, m), e1, last) = >>=-eq-some (handle_vlan_config E s.idl vlan.idl_cfg vlan) _ e in
      let p : t ≡ record s { idl = db; all_vlans = put k v s.all_vlans } = ground (arith) in
      rw p refl

  configure-SameIdents :
      (k : String) (vlan w : VlanData) (s t : State Bitmap) (n : ℕ)
      → find k s.all_vlans ≡ some w
      → SameIdent vlan w
      → configure E k vlan s ≡ some (t, n)
      → SameIdents s t n
  unfolding configure
  configure-SameIdents k vlan w s t n f same e =
      let ((db, v, m), e1, last) = >>=-eq-some (handle_vlan_config E s.idl vlan.idl_cfg vlan) _ e in
      let p : t ≡ record s { idl = db; all_vlans = put k v s.all_vlans } = ground (arith) in
      let same' = handle-SameIdent s vlan.idl_cfg vlan v db m e1 in
      rw p (λ u. idents-put k v w s.all_vlans f (ground (arith, same, same')), refl)

  update-SameIdent :
      (s : State Bitmap) (vlan : VlanData)
      → SameIdent (update_vlan_membership E s.idl s.all_ports vlan).1 vlan
  unfolding update_vlan_membership
  update-SameIdent s vlan = (refl, refl)

  refreshed :
      (vid : ℕ) (k : String) (vlan : VlanData) (s t : State Bitmap) (n : ℕ)
      → vlan_lookup_by_vid vid s.all_vlans ≡ some (k, vlan)
      → configure E k (refresh E k vlan s).1 (refresh E k vlan s).0 ≡ some (t, n)
      → SameIdents s t n
  unfolding refresh
  refreshed vid k vlan s t n f e =
      let v = (update_vlan_membership E s.idl s.all_ports vlan).1 in
      let s' = (refresh E k vlan s).0 in
      (
        λ u.
            let g = find-vlan_lookup_by_vid vid k vlan s.all_vlans u f in
            let (found, kept) = SameIdent-put k v vlan s.all_vlans g.0 (update-SameIdent s vlan) in
            (configure-SameIdents k v v s' t n found (refl, refl) e).0
              (Unique-idents s.all_vlans s'.all_vlans kept u)
            ∙ kept,
        configure-bitmap k v s' t n e,
      )

  refresh-SameIdents :
      (vid : ℕ) (k : String) (vlan : VlanData) (s : State Bitmap)
      → vlan_lookup_by_vid vid s.all_vlans ≡ some (k, vlan)
      → SameIdents s (refresh E k vlan s).0 0
  unfolding refresh
  refresh-SameIdents vid k vlan s f = (
    λ u.
        let g = find-vlan_lookup_by_vid vid k vlan s.all_vlans u f in
        idents-put k _ vlan s.all_vlans g.0 (update-SameIdent s vlan),
    refl,
  )

  pub SameIdents-rule : PortRule E SameIdents
  SameIdents-rule = record {
    nothing = SameIdents-refl;
    chain = SameIdents-then;
    ports = λ s p. (λ u. refl, refl);
    refreshed = refresh-SameIdents;
    configured = refreshed;
    counted = λ s t n h. h;
  }

  -- `update_port_cache` leaves the bitmap of all VLANs as it is, and each cached VLAN its row and ID.
  pub update_port_cache-SameIdents :
      (s t : State Bitmap) (n : ℕ) → update_port_cache E s ≡ some (t, n) → SameIdents s t n
  update_port_cache-SameIdents = update_port_cache-rel E SameIdents-rule

  pub change_vlan-SameIdents :
      (rows : Nodes VlanRow) (k : String) (s t : State Bitmap) (n : ℕ)
      → change_vlan E rows k s ≡ some (t, n)
      → SameIdents s t n
  unfolding change_vlan
  change_vlan-SameIdents rows k s t n e =
      let (row, f, e1) = >>=-eq-some (find k rows) _ e in
      let (vlan, g, e2) = >>=-eq-some (find k s.all_vlans) _ e1 in
      let v = record vlan { admin = admin_of E.strings row } in
      elim (Bool-cases (E.vlan_inserted row s.idl_seqno || E.vlan_modified row s.idl_seqno)) [
        | inr same ↦ let p : t ≡ s = ground arith in rw p (SameIdents-refl s)
        | inl changed ↦ elim (Option-cases (handle_vlan_config E s.idl row.uuid v)) [
          | inl gone ↦ ground (arith)
          | inr ((db, v', m), e3) ↦
              let p : t ≡ record s { idl = db; all_vlans = put k v' s.all_vlans } = ground arith in
              let same = handle-SameIdent s row.uuid v v' db m e3 in
              rw p (λ u. idents-put k v' vlan s.all_vlans g same, refl)
        ]
      ]

  -- The last loop of `update_vlan_cache` changes neither a VLAN's row nor its ID.
  pub change_vlans-SameIdents :
      (rows : Nodes VlanRow) (ks : List String) (s t : State Bitmap) (n : ℕ)
      → for_each (change_vlan E rows) ks s ≡ some (t, n)
      → SameIdents s t n
  change_vlans-SameIdents rows ks s t n e =
      SameIdents-loop (change_vlan E rows) (change_vlan-SameIdents rows) ks s t n e
