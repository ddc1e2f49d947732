-- ===== src/Cache/Stale.antt =====
-- A cached VLAN whose row is replaced by another one of its name.
use vland.Common.{
  sym, ℕ, String, ◌≡◌, ◌≢◌, ◌∙◌, refl, true, none, some, List, [], ◌∷◌, arith, Nodes, find, names,
  Unique, All₂, is_some, Bool-cases, Option-cases, inl, inr, eq_iff, find-remove_ne,
}
use vland.Idl.{VlanRow, find_vlan}
use vland.External.{Env, LinkLaws}
use vland.State.{VlanData, State}
use vland.Vlan.{add_new_vlan, del_old_vlan, update_vlan_membership, parse_vlan_data}
use vland.Cache.{collect_vlans, drop_vlans, add_vlans, update_vlan_cache}
use vland.Cache.Frame.{SameConfig}
use vland.Cache.Frame.Vlans.{update_vlan_cache-Kept}
use vland.Cache.Identity.{find-idents}
use vland.Cache.Identity.Steps.{change_vlans-SameIdents}
use vland.Cache.Mirror.{
  has_name, collect-Entry, present, collect_lem, drop_lem, add_lem, del_old_vlan_lem,
}

pub gone_kept :
    (u : ℕ) (rows rows' : List VlanRow)
    → All₂ SameConfig rows rows'
    → find_vlan u rows ≡ none
    → find_vlan u rows' ≡ none
gone_kept u [] [] h e = refl
gone_kept u (r ∷ rows) (r' ∷ rows') h e = ground (arith, h.0, gone_kept u rows rows' h.1)
gone_kept u [] (r ∷ rows) h e = absurd h
gone_kept u (r ∷ rows) [] h e = absurd h

module _ (E : Env) (L : LinkLaws E) where
  open E use {bitmaps}
  open bitmaps use {Bitmap}

  -- A VLAN whose name a row has is neither dropped nor added again.
  find-drop_vlans :
      (rows : Nodes VlanRow) (ks : List String) (k : String) (s : State Bitmap)
      → Unique s.all_vlans
      → is_some (find k rows) ≡ true
      → find k (drop_vlans E rows ks s).all_vlans ≡ find k s.all_vlans
  unfolding drop_vlans del_old_vlan
  find-drop_vlans rows [] k s u h = refl
  find-drop_vlans rows (j ∷ ks) k s u h = elim (Bool-cases (is_some (find j rows))) [
    | inl old ↦ ground (arith, old, find-drop_vlans rows ks k s u h)
    | inr gone ↦ elim (Option-cases (find j s.all_vlans)) [
      | inl f ↦ ground (arith, gone, f, find-drop_vlans rows ks k s u h)
      | inr (v, f) ↦
          let ne : k ≢ j = λ e. ground (arith, e, gone) in
          let (_, u', _) = del_old_vlan_lem E L j k s u in
          ground (
            arith,
            gone,
            f,
            find-drop_vlans rows ks k (del_old_vlan E j s) u' h,
            find-remove_ne j k s.all_vlans ne,
          )
    ]
  ]

  find-add_new_vlan :
      (row : VlanRow) (k : String) (v : VlanData) (s : State Bitmap)
      → find k s.all_vlans ≡ some v
      → find k (add_new_vlan E row s).all_vlans ≡ some v
  unfolding add_new_vlan
  find-add_new_vlan row k v s f = elim (Option-cases (find row.name s.all_vlans)) [
    | inr (w, e) ↦ ground (arith, e, f)
    | inl e ↦
        let new = (update_vlan_membership E s.idl s.all_ports (parse_vlan_data row)).1 in
        ground (arith, e, f, L.find-link row.name k new s.all_vlans e, eq_iff k row.name)
  ]

  find-add_vlans :
      (rows : Nodes VlanRow) (k : String) (v : VlanData) (s : State Bitmap)
      → find k s.all_vlans ≡ some v
      → find k (add_vlans E rows s).all_vlans ≡ some v
  unfolding add_vlans
  find-add_vlans [] k v s f = f
  find-add_vlans ((j, row) ∷ rows) k v s f =
      find-add_vlans rows k v _ (ground (arith, f, find-add_new_vlan row k v s f))

  -- A cached VLAN whose name a row has keeps its ID and the reference to the row that it was read from
  -- over `update_vlan_cache`: if that row is gone, and the name is another row's now, the cached VLAN
  -- refers to no row of the database. The cache has one node to a name, and the hash table keeps its
  -- documented behaviour.
  pub update_vlan_cache_stale :
      (s t : State Bitmap) (n : ℕ) (k : String) (v : VlanData)
      → Unique s.all_vlans
      → find k s.all_vlans ≡ some v
      → has_name k s.idl.vlans ≡ true
      → find_vlan v.idl_cfg s.idl.vlans ≡ none
      → update_vlan_cache E s ≡ some (t, n)
      → (w : VlanData) × (find k t.all_vlans ≡ some w)
        × (w.vid ≡ v.vid)
        × (w.idl_cfg ≡ v.idl_cfg)
        × (find_vlan w.idl_cfg t.idl.vlans ≡ none)
  unfolding update_vlan_cache
  update_vlan_cache_stale s t n k v u f named gone e =
      let rows = collect_vlans E s.idl.vlans [] in
      let ks = names s.all_vlans in
      let s1 = drop_vlans E rows ks s in
      let s2 = add_vlans E rows s1 in
      let listed : is_some (find k rows) ≡ true =
        ground (arith, collect_lem E L k s.idl.vlans [], named) in
      let f1 = find-drop_vlans rows ks k s u listed ∙ f in
      let f2 = find-add_vlans rows k v s1 f1 in
      let (_, u1, _) = drop_lem E L rows ks k s u in
      let entries =
        collect-Entry E L (λ row. find_vlan row.uuid s.idl.vlans ≢ none) s.idl.vlans []
          (present E L s.idl.vlans s.idl.vlans (λ w h. h)) tt in
      let (_, u2, _) = add_lem E L s.idl.vlans rows k s1 entries u1 in
      let (same, _) = change_vlans-SameIdents E rows (names s2.all_vlans) s2 t n e in
      let kept = update_vlan_cache-Kept E s t n e in
      let (w, g, (row, vid)) = find-idents k v t.all_vlans s2.all_vlans (sym (same u2)) f2 in
      (w, g, vid, row, rw row (gone_kept v.idl_cfg s.idl.vlans t.idl.vlans kept.db.rows gone))
