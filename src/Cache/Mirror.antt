-- ===== src/Cache/Mirror.antt =====
-- `update_vlan_cache` makes the cache mirror the VLAN table, and never reads a row that is gone.
use vland.Common.{
  some_of, zero, suc, ℕ, ◌≡◌, ◌≢◌, ◌∙◌, refl, Bool, true, false, ◌&&◌, ◌||◌, not, none, some, List,
  [], ◌∷◌, arith, Nodes, find, put, names, Unique, All, Bool-cases, Option-cases, inl, inr, is_some,
  String, str_eq, contains_name, eq_iff, is_some-find-put, is_some-find-remove, Unique-remove,
  Unique-put, contains_name-names, All-names, All-find,
}
use vland.Idl.{Db, VlanRow, find_vlan, put_vlan}
use vland.External.{Env, LinkLaws}
use vland.State.{VlanData, State}
use vland.State.Loop.{for_each_total}
use vland.Vlan.{add_new_vlan, del_old_vlan, update_vlan_membership, parse_vlan_data}
use vland.Text.{admin_of}
use vland.Vlan.{write_status}
use vland.Vlan.Config.{Handled, handle_vlan_config_lem}
use vland.Cache.{collect_vlans, drop_vlans, add_vlans, change_vlan, update_vlan_cache}

-- A VLAN row has the name.
abbrev pub has_name : String → List VlanRow → Bool
has_name k [] = false
has_name k (row ∷ rows) = str_eq k row.name || has_name k rows

module _ (E : Env) (L : LinkLaws E) where
  open E use {bitmaps, link}
  open bitmaps use {Bitmap}

  is_some-link :
      {V : Type 0} (k j : String) (v : V) (m : Nodes V)
      → find k m ≡ none
      → is_some (find j (link k v m)) ≡ (str_eq j k || is_some (find j m))
  is_some-link k j v m e = rw (L.find-link k j v m e) (ground arith)

  pub collect_lem :
      (k : String) (rows : List VlanRow) (m : Nodes VlanRow)
      → is_some (find k (collect_vlans E rows m)) ≡ (is_some (find k m) || has_name k rows)
  unfolding collect_vlans
  collect_lem k [] m = ground arith
  collect_lem k (row ∷ rows) m = elim (Option-cases (find row.name m)) [
    | inr (r, e) ↦ ground (arith, collect_lem k rows m, eq_iff k row.name)
    | inl e ↦
        ground (arith, collect_lem k rows (link row.name row m), is_some-link row.name k row m e)
  ]

  pub del_old_vlan_lem :
      (k j : String) (s : State Bitmap)
      → Unique s.all_vlans
      → (is_some (find j (del_old_vlan E k s).all_vlans)
          ≡ (is_some (find j s.all_vlans) && not (str_eq j k)))
        × Unique (del_old_vlan E k s).all_vlans
        × ((del_old_vlan E k s).idl ≡ s.idl)
  unfolding del_old_vlan
  del_old_vlan_lem k j s u =
      ground
        (arith, is_some-find-remove k j s.all_vlans u, Unique-remove k s.all_vlans u, eq_iff j k)

  pub drop_lem :
      (rows : Nodes VlanRow) (ks : List String) (j : String) (s : State Bitmap)
      → Unique s.all_vlans
      → (is_some (find j (drop_vlans E rows ks s).all_vlans)
          ≡ (is_some (find j s.all_vlans) && (is_some (find j rows) || not (contains_name j ks))))
        × Unique (drop_vlans E rows ks s).all_vlans
        × ((drop_vlans E rows ks s).idl ≡ s.idl)
  unfolding drop_vlans
  drop_lem rows [] j s u = ground arith
  drop_lem rows (k ∷ ks) j s u = elim (Bool-cases (is_some (find k rows))) [
    | inl old ↦ ground (arith, drop_lem rows ks j s u, eq_iff j k)
    | inr gone ↦
        let (a, b, c) = del_old_vlan_lem k j s u in
        ground (arith, drop_lem rows ks j (del_old_vlan E k s) b, a, c, eq_iff j k)
  ]

  add_new_vlan_lem :
      (row : VlanRow) (j : String) (s : State Bitmap)
      → Unique s.all_vlans
      → (is_some (find j (add_new_vlan E row s).all_vlans)
          ≡ (is_some (find j s.all_vlans) || str_eq j row.name))
        × Unique (add_new_vlan E row s).all_vlans
        × ((add_new_vlan E row s).idl ≡ s.idl)
  unfolding add_new_vlan
  add_new_vlan_lem row j s u = elim (Option-cases (find row.name s.all_vlans)) [
    | inr (v, e) ↦ ground (arith, eq_iff j row.name)
    | inl e ↦
        let v = (update_vlan_membership E s.idl s.all_ports (parse_vlan_data row)).1 in
        ground
          (arith, is_some-link row.name j v s.all_vlans e, L.Unique-link row.name v s.all_vlans e u)
  ]

  -- A node of `sh_idl_vlans` stands under its row's name, and its row has a property.
  abbrev pub Entry : (VlanRow → Type 0) → String × VlanRow → Type 0
  Entry P (k, row) = (k ≡ row.name) × P row

  pub collect-Entry :
      (P : VlanRow → Type 0) (rows : List VlanRow) (m : Nodes VlanRow)
      → All P rows
      → All (Entry P) m
      → All (Entry P) (collect_vlans E rows m)
  unfolding collect_vlans
  collect-Entry P [] m p h = h
  collect-Entry P (row ∷ rows) m p h = elim (Bool-cases (is_some (find row.name m))) [
    | inl old ↦ rw old (collect-Entry P rows m p.1 h)
    | inr new ↦ rw new (
        collect-Entry P rows (link row.name row m) p.1
          ((L.All-link (Entry P) row.name row m).1 ((refl, p.0), h)))
  ]

  -- Its row is in the database.
  abbrev pub IsEntry : List VlanRow → String × VlanRow → Type 0
  IsEntry rows = Entry (λ row. find_vlan row.uuid rows ≢ none)

  pub add_lem :
      (db : List VlanRow) (rows : Nodes VlanRow) (j : String) (s : State Bitmap)
      → All (IsEntry db) rows
      → Unique s.all_vlans
      → (is_some (find j (add_vlans E rows s).all_vlans)
          ≡ (is_some (find j s.all_vlans) || is_some (find j rows)))
        × Unique (add_vlans E rows s).all_vlans
        × ((add_vlans E rows s).idl ≡ s.idl)
  unfolding add_vlans
  add_lem db [] j s p u = ground arith
  add_lem db ((k, row) ∷ rows) j s p u = elim (Bool-cases (is_some (find k s.all_vlans))) [
    | inl old ↦ ground (arith, add_lem db rows j s p.1 u, eq_iff j k)
    | inr new ↦
        let (a, b, c) = add_new_vlan_lem row j s u in
        ground (arith, add_lem db rows j (add_new_vlan E row s) p.1 b, a, c, eq_iff j k, p.0.0)
  ]

  -- What the last loop keeps: the names of the cache, and every row of the database at its start.
  record Steady (s0 s : State Bitmap) : Type 0 where
    names_kept : (j : String) → is_some (find j s.all_vlans) ≡ is_some (find j s0.all_vlans)
    rows_kept : (u : ℕ) → find_vlan u s.idl.vlans ≡ none → find_vlan u s0.idl.vlans ≡ none
    unique : Unique s.all_vlans

  rows_kept-put :
      (u w : ℕ) (f : VlanRow → VlanRow) (rows : List VlanRow)
      → ((r : VlanRow) → (f r).uuid ≡ r.uuid)
      → find_vlan w (put_vlan u f rows) ≡ none
      → find_vlan w rows ≡ none
  rows_kept-put u w f [] k e = refl
  rows_kept-put u w f (r ∷ rows) k e = ground (arith, rows_kept-put u w f rows k, k r)

  Handled-rows :
      (db : Db) (row : ℕ) (r : VlanRow) (vlan : VlanData) (db' : Db) (v : VlanData) (n : ℕ) (w : ℕ)
      → Handled E db row r vlan db' v n
      → find_vlan w db'.vlans ≡ none
      → find_vlan w db.vlans ≡ none
  Handled-rows db row r vlan db' v zero w h e = ground (arith, h.unchanged refl)
  Handled-rows db row r vlan db' v (suc zero) w h e =
      rows_kept-put row w (write_status E v.op_state v.op_state_reason) db.vlans (λ x. refl)
        (ground (arith, (h.written refl).0))
  Handled-rows db row r vlan db' v (suc (suc n)) w h e = absurd (omega (arith, h.counted))

  change_total :
      (s0 s : State Bitmap) (rows : Nodes VlanRow) (k : String)
      → All (IsEntry s0.idl.vlans) rows
      → is_some (find k rows) ≡ true
      → is_some (find k s0.all_vlans) ≡ true
      → Steady s0 s
      → (t : State Bitmap) × (n : ℕ) × (change_vlan E rows k s ≡ some (t, n)) × Steady s0 t
  unfolding change_vlan
  change_total s0 s rows k p old cached st =
      let (row, f) = some_of (find k rows) old in
      let (vlan, g) = some_of (find k s.all_vlans) (st.names_kept k ∙ cached) in
      let v = record vlan { admin = admin_of E.strings row } in
      elim (Bool-cases (E.vlan_inserted row s.idl_seqno || E.vlan_modified row s.idl_seqno)) [
        | inr same ↦ (s, 0, ground arith, st)
        | inl changed ↦ elim (handle_vlan_config_lem E s.idl row.uuid v) [
          | inl (gone, _) ↦
              absurd
                ((All-find (IsEntry s0.idl.vlans) k row rows p f).1 (st.rows_kept row.uuid gone))
          | inr (r, db, v', n, _, h, hd) ↦ (
            record s { idl = db; all_vlans = put k v' s.all_vlans },
            n,
            ground arith,
            record {
              names_kept = λ j. is_some-find-put k j v' s.all_vlans ∙ st.names_kept j;
              rows_kept = λ u e. st.rows_kept u (Handled-rows s.idl row.uuid r v db v' n u hd e);
              unique = Unique-put k v' s.all_vlans st.unique;
            },
          )
        ]
      ]

  pub present :
      (all rows : List VlanRow)
      → ((u : ℕ) → find_vlan u all ≡ none → find_vlan u rows ≡ none)
      → All (λ row. find_vlan row.uuid all ≢ none) rows
  present all [] h = tt
  present all (r ∷ rows) h =
      (λ e. ground (arith, h r.uuid e), present all rows (λ u e. ground (arith, h u e)))

  -- For a cache with one node to a name, `update_vlan_cache` does not fault, and leaves such a cache;
  -- after it a name is cached exactly if a row of the VLAN table has it.
  pub update_vlan_cache_lem :
      (s : State Bitmap)
      → Unique s.all_vlans
      → (t : State Bitmap) × (n : ℕ) × (update_vlan_cache E s ≡ some (t, n))
        × Unique t.all_vlans
        × ((k : String) → is_some (find k t.all_vlans) ≡ has_name k s.idl.vlans)
  unfolding update_vlan_cache
  update_vlan_cache_lem s u =
      let rows = s.idl.vlans in
      let idl_vlans = collect_vlans E rows [] in
      let s1 = drop_vlans E idl_vlans (names s.all_vlans) s in
      let s2 = add_vlans E idl_vlans s1 in
      let entries =
        collect-Entry (λ row. find_vlan row.uuid rows ≢ none) rows [] (present rows rows (λ w e. e))
          tt in
      let dropped = λ (k : String). drop_lem idl_vlans (names s.all_vlans) k s u in
      let added = λ (k : String). add_lem rows idl_vlans k s1 entries (dropped k).1 in
      let same : s2.idl ≡ s.idl = (added "").2 ∙ (dropped "").2 in
      let listed : (k : String) → is_some (find k idl_vlans) ≡ has_name k rows =
        λ k. collect_lem k rows [] in
      let cached : (k : String) → is_some (find k s2.all_vlans) ≡ has_name k rows = λ k.
        ground (arith, (added k).0, (dropped k).0, listed k, contains_name-names k s.all_vlans) in
      let entries' : All (IsEntry s2.idl.vlans) idl_vlans = rw same entries in
      let (t, n, e, st) =
        for_each_total
          (λ k. (is_some (find k idl_vlans) ≡ true) × (is_some (find k s2.all_vlans) ≡ true))
          (Steady s2) (change_vlan E idl_vlans)
          (λ k x p st. change_total s2 x idl_vlans k entries' p.0 p.1 st) (names s2.all_vlans) s2
          (All-names _ s2.all_vlans (λ k h. (listed k ∙ ground (arith, cached k), h)))
          (record { names_kept = λ j. refl; rows_kept = λ w h. h; unique = (added "").1 }) in
      (t, n, e, st.unique, λ k. st.names_kept k ∙ cached k)
