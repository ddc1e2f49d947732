-- ===== src/Cache/Ports/Live.antt =====
-- When the steps of the port cache read no VLAN row that is gone: the rows of the cached VLANs are in
-- the database, and no step takes one away.
use vland.Common.{
  ℕ, String, ◌≡◌, ◌≢◌, refl, Option, none, some, List, [], ◌∷◌, arith, find, put, Unique, All, All₂,
  Option-cases, inl, inr,
}
use vland.Idl.{VlanRow, find_vlan}
use vland.External.{Env}
use vland.State.{VlanData, State, for_each}
use vland.State.Loop.{for_each_total}
use vland.Vlan.{vlan_lookup_by_vid, update_vlan_membership}
use vland.Vlan.Config.{handle_vlan_config_lem}
use vland.Cache.{configure, refresh, leave_vlan}
use vland.Cache.Frame.{SameConfig, Kept}
use vland.Cache.Frame.Ports.{Kept-rule}
use vland.Cache.Steps.{PortRule, leave_vlan-rel}
use vland.Cache.Identity.{find-idents, Unique-idents, find-vlan_lookup_by_vid}
use vland.Cache.Identity.Steps.{SameIdents, SameIdents-rule}

rows_kept :
    (u : ℕ) (rows rows' : List VlanRow)
    → All₂ SameConfig rows rows'
    → find_vlan u rows' ≡ none
    → find_vlan u rows ≡ none
rows_kept u [] [] h e = refl
rows_kept u (r ∷ rows) (r' ∷ rows') h e = ground (arith, h.0, rows_kept u rows rows' h.1)
rows_kept u [] (r ∷ rows) h e = absurd h
rows_kept u (r ∷ rows) [] h e = absurd h

ids_kept :
    (C : ℕ → Type 0) (rows rows' : List VlanRow)
    → All₂ SameConfig rows rows'
    → All (λ r. C r.id) rows
    → All (λ r. C r.id) rows'
ids_kept C [] [] h p = tt
ids_kept C (r ∷ rows) (r' ∷ rows') h p =
    let same : r'.id ≡ r.id = ground (arith, h.0) in (rw same p.0, ids_kept C rows rows' h.1 p.1)
ids_kept C [] (r ∷ rows) h p = absurd h
ids_kept C (r ∷ rows) [] h p = absurd h

pub everywhere : {C : ℕ → Type 0} (vids : List ℕ) → ((vid : ℕ) → C vid) → All C vids
everywhere [] h = tt
everywhere (vid ∷ vids) h = (h vid, everywhere vids h)

pub any_vids : (vids : List ℕ) → All (λ (vid : ℕ). Unit {0}) vids
any_vids vids = everywhere vids (λ vid. tt)

module _ (E : Env) (C : ℕ → Type 0) where
  open E use {bitmaps}
  open bitmaps use {Bitmap}

  -- One node to a name; the rows' IDs are among those of `C`, and the row that a cached VLAN with such
  -- an ID was read from is in the database.
  pub record IsLive (s : State Bitmap) : Type 0 where
    pub unique : Unique s.all_vlans
    pub covers : All (λ r. C r.id) s.idl.vlans
    pub live :
        (k : String) (v : VlanData)
        → find k s.all_vlans ≡ some v
        → C v.vid
        → find_vlan v.idl_cfg s.idl.vlans ≢ none

  pub IsLive-Kept :
      (s t : State Bitmap) (n : ℕ) → Kept E s t n → SameIdents E s t n → IsLive s → IsLive t
  IsLive-Kept s t n kept (same, _) i =
      let e = same i.unique in
      let rows = kept.db.rows in
      record {
        unique = Unique-idents s.all_vlans t.all_vlans e i.unique;
        covers = ids_kept C s.idl.vlans t.idl.vlans rows i.covers;
        live = λ k v f c gone.
            let (w, g, (row, vid)) = find-idents k v s.all_vlans t.all_vlans e f in
            i.live k w g (rw vid c)
              (rows_kept w.idl_cfg s.idl.vlans t.idl.vlans rows (rw row gone));
      }

  pub IsLive-rule : PortRule E (λ s t n. IsLive s → IsLive t)
  IsLive-rule = record {
    nothing = λ s i. i;
    chain = λ s t u m n f g i. g (f i);
    ports = λ s p i. record { unique = i.unique; covers = i.covers; live = i.live };
    refreshed = λ vid k vlan s f.
        IsLive-Kept s (refresh E k vlan s).0 0 ((Kept-rule E).refreshed vid k vlan s f)
          ((SameIdents-rule E).refreshed vid k vlan s f);
    configured = λ vid k vlan s t n f e.
        IsLive-Kept s t n ((Kept-rule E).configured vid k vlan s t n f e)
          ((SameIdents-rule E).configured vid k vlan s t n f e);
    counted = λ s t n h. h;
  }

  abbrev pub Runs : (State Bitmap → Option (State Bitmap × ℕ)) → State Bitmap → Type 0
  Runs f s = (t : State Bitmap) × (n : ℕ) × (f s ≡ some (t, n))

  configure_total :
      (k : String) (vlan : VlanData) (s : State Bitmap)
      → find_vlan vlan.idl_cfg s.idl.vlans ≢ none
      → Runs (configure E k vlan) s
  unfolding configure
  configure_total k vlan s live = elim (handle_vlan_config_lem E s.idl vlan.idl_cfg vlan) [
    | inl (gone, _) ↦ absurd (live gone)
    | inr (r, db, v, n, _, e, _) ↦
        (record s { idl = db; all_vlans = put k v s.all_vlans }, n, ground (arith, e))
  ]

  pub refreshed_total :
      (vid : ℕ) (k : String) (vlan : VlanData) (s : State Bitmap)
      → IsLive s
      → C vid
      → vlan_lookup_by_vid vid s.all_vlans ≡ some (k, vlan)
      → Runs (λ x. configure E k (refresh E k vlan x).1 (refresh E k vlan x).0) s
  unfolding refresh update_vlan_membership
  refreshed_total vid k vlan s i c f =
      let (g, same) = find-vlan_lookup_by_vid vid k vlan s.all_vlans i.unique f in
      configure_total k _ _ (i.live k vlan g (rw same c))

  leave_vlan_total : (vid : ℕ) (s : State Bitmap) → C vid → IsLive s → Runs (leave_vlan E vid) s
  unfolding leave_vlan
  leave_vlan_total vid s c i = elim (Option-cases (vlan_lookup_by_vid vid s.all_vlans)) [
    | inl f ↦ (s, 0, ground (arith, f))
    | inr ((k, vlan), f) ↦
        let (t, n, e) = refreshed_total vid k vlan s i c f in (t, n, ground (arith, f, e))
  ]

  -- A loop of steps that keep the rows and do not fault does not fault.
  pub loop_total :
      {A : Type 0} (P : A → Type 0) (f : A → State Bitmap → Option (State Bitmap × ℕ))
      → ((x : A) (s : State Bitmap) → P x → IsLive s → Runs (f x) s)
      → ((x : A) (s t : State Bitmap) (n : ℕ) → f x s ≡ some (t, n) → IsLive s → IsLive t)
      → (xs : List A) (s : State Bitmap) → All P xs
      → IsLive s
      → (t : State Bitmap) × (n : ℕ) × (for_each f xs s ≡ some (t, n)) × IsLive t
  loop_total P f runs keeps =
      for_each_total P IsLive f
        (λ x s p i. let (t, n, e) = runs x s p i in (t, n, e, keeps x s t n e i))

  pub leave_vlans_total :
      (vids : List ℕ) (s : State Bitmap)
      → All C vids
      → IsLive s
      → (t : State Bitmap) × (n : ℕ) × (for_each (leave_vlan E) vids s ≡ some (t, n)) × IsLive t
  leave_vlans_total = loop_total C (leave_vlan E) leave_vlan_total (leave_vlan-rel E IsLive-rule)
