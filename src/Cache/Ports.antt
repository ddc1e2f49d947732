-- ===== src/Cache/Ports.antt =====
-- `update_port_cache` makes the cache of ports mirror the Port table.
pub mod Names
pub mod Live
pub mod Total
use vland.Common.{
  ap, sym, ℕ, ◌+◌, ◌≡◌, ◌∙◌, refl, Bool, true, false, ◌&&◌, ◌||◌, not, Option, none, some, List, [],
  ◌∷◌, arith, ◌==◌, Nodes, find, put, remove, names, Unique, All, Bool-cases, Option-cases, inl,
  inr, is_some, String, str_eq, contains_name, eq_iff, is_some-find-put, is_some-find-remove,
  Unique-remove, contains_name-names,
}
use vland.Idl.{Db, PortRow, VlanRow}
use vland.External.{Env, LinkLaws}
use vland.State.{PortData, VlanData, State, for_each}
use vland.State.Loop.{>>=-eq-some, for_each-rel}
use vland.Port.{construct_vlan_bitmap, add_new_port, new_port_data}
use vland.Vlan.Membership.{names-update_vlan_membership}
use vland.Vlan.{vlan_lookup_by_vid, handle_vlan_config}
use vland.Cache.{
  configure, refresh, leave_vlan, del_old_port, drop_port, update_member, update_members,
  change_port, update_port_cache, once, collect_ports, add_ports,
}
use vland.Cache.Ports.Names.{
  is_some-find-names, Unique-names, SameNames, SameNames-loop, leave_vlan-SameNames,
  change_port-SameNames,
}

-- A row of the Port table has the name.
abbrev pub has_port : String → List PortRow → Bool
has_port k [] = false
has_port k (row ∷ rows) = str_eq k row.name || has_port k rows

module _ (E : Env) where
  open E use {bitmaps, link, strings}
  open bitmaps use {Bitmap}

  -- What the loop that deletes ports does to the names.
  pub record Dropped (gone : String → Bool) (s t : State Bitmap) : Type 0 where
    pub left :
        (j : String) → is_some (find j t.all_ports) ≡ (is_some (find j s.all_ports) && not (gone j))
    pub unique : Unique t.all_ports
    pub vlans : names t.all_vlans ≡ names s.all_vlans

  del_old_port-Dropped :
      (name : String) (s t : State Bitmap) (n : ℕ)
      → Unique s.all_ports
      → del_old_port E name s ≡ some (t, n)
      → Dropped (λ j. str_eq j name) s t
  unfolding del_old_port
  del_old_port-Dropped name s t n u e = elim (Option-cases (find name s.all_ports)) [
    | inl f ↦
        let p : t ≡ s = ground arith in
        rw p (record { left = λ j. ground (arith, f, eq_iff j name); unique = u; vlans = refl })
    | inr (port, f) ↦
        let s' = record s { all_ports = remove name s.all_ports } in
        let same : SameNames E s' t n =
          SameNames-loop E (leave_vlan E) (leave_vlan-SameNames E) (bitmaps.ones port.vlans_bitmap)
            s' t n (ground arith) in
        record {
          left = λ j.
              is_some-find-names j s'.all_ports t.all_ports same.0
              ∙ is_some-find-remove name j s.all_ports u;
          unique = Unique-names s'.all_ports t.all_ports same.0 (Unique-remove name s.all_ports u);
          vlans = same.1;
        }
  ]

  drop_port-Dropped :
      (rows : Nodes PortRow) (name : String) (s t : State Bitmap) (n : ℕ)
      → Unique s.all_ports
      → drop_port E rows name s ≡ some (t, n)
      → Dropped (λ j. str_eq j name && not (is_some (find name rows))) s t
  unfolding drop_port
  drop_port-Dropped rows name s t n u e = elim (Option-cases (find name rows)) [
    | inl f ↦ elim (Option-cases (del_old_port E name s)) [
      | inl g ↦ ground (arith)
      | inr ((w, m), g) ↦
          let p : t ≡ w = ground arith in
          let d = del_old_port-Dropped name s w m u g in
          rw p
            (record { left = λ j. ground (arith, d.left j, f); unique = d.unique; vlans = d.vlans })
    ]
    | inr (row, f) ↦
        let p : t ≡ s = ground arith in
        rw p (record { left = λ j. ground (arith, f); unique = u; vlans = refl })
  ]

  pub drop_loop :
      (rows : Nodes PortRow) (ks : List String) (s t : State Bitmap) (n : ℕ)
      → Unique s.all_ports
      → for_each (drop_port E rows) ks s ≡ some (t, n)
      → Dropped (λ j. contains_name j ks && not (is_some (find j rows))) s t
  unfolding for_each
  drop_loop rows [] s t n u e =
      let p : t ≡ s = ground arith in
      rw p (record { left = λ j. ground arith; unique = u; vlans = refl })
  drop_loop rows (k ∷ ks) s t n u e =
      let ((s', m), e1, rest) = >>=-eq-some (drop_port E rows k s) _ e in
      let ((w, i), e2, last) = >>=-eq-some (for_each (drop_port E rows) ks s') _ rest in
      let p : t ≡ w = ground arith in
      let d = drop_port-Dropped rows k s s' m u e1 in
      let ds = drop_loop rows ks s' w i d.unique e2 in
      rw p (record {
        left = λ j. ground (arith, ds.left j, d.left j, eq_iff j k);
        unique = ds.unique;
        vlans = ds.vlans ∙ d.vlans;
      })

  -- What `update_port_cache` does to the names of the caches.
  pub record PortsMirrored (s t : State Bitmap) : Type 0 where
    pub ports :
        (k : String)
        → is_some (find k t.all_ports) ≡ (
            has_port k s.idl.ports
            && (not (str_eq k strings.default_bridge_name) || is_some (find k s.all_ports)))
    pub unique_ports : Unique t.all_ports
    pub vlans : names t.all_vlans ≡ names s.all_vlans
    pub unique_vlans : Unique s.all_vlans → Unique t.all_vlans

  module _ (L : LinkLaws E) where
    is_some-link :
        {V : Type 0} (k j : String) (v : V) (m : Nodes V)
        → find k m ≡ none
        → is_some (find j (link k v m)) ≡ (str_eq j k || is_some (find j m))
    is_some-link k j v m e = rw (L.find-link k j v m e) (ground arith)

    pub collect_lem :
        (k : String) (rows : List PortRow) (m : Nodes PortRow)
        → is_some (find k (collect_ports E rows m)) ≡ (is_some (find k m) || has_port k rows)
    unfolding collect_ports
    collect_lem k [] m = ground arith
    collect_lem k (row ∷ rows) m = elim (Option-cases (find row.name m)) [
      | inr (r, e) ↦ ground (arith, collect_lem k rows m, eq_iff k row.name)
      | inl e ↦
          ground (arith, collect_lem k rows (link row.name row m), is_some-link row.name k row m e)
    ]

    abbrev pub IsEntry : String × PortRow → Type 0
    IsEntry (k, row) = k ≡ row.name

    pub collect-IsEntry :
        (rows : List PortRow) (m : Nodes PortRow)
        → All IsEntry m
        → All IsEntry (collect_ports E rows m)
    unfolding collect_ports
    collect-IsEntry [] m h = h
    collect-IsEntry (row ∷ rows) m h = elim (Bool-cases (is_some (find row.name m))) [
      | inl old ↦ rw old (collect-IsEntry rows m h)
      | inr new ↦ rw new (
          collect-IsEntry rows (link row.name row m)
            ((L.All-link IsEntry row.name row m).1 (refl, h)))
    ]

    add_new_port_lem :
        (row : PortRow) (j : String) (m : Nodes (PortData Bitmap))
        → Unique m
        → (is_some (find j (add_new_port E m row)) ≡ (is_some (find j m) || str_eq j row.name))
          × Unique (add_new_port E m row)
    unfolding add_new_port
    add_new_port_lem row j m u = elim (Option-cases (find row.name m)) [
      | inr (v, e) ↦ ground (arith, eq_iff j row.name)
      | inl e ↦
          let new = new_port_data E row in
          ground (arith, e, is_some-link row.name j new m e, L.Unique-link row.name new m e u)
    ]

    pub add_lem :
        (rows : Nodes PortRow) (j : String) (m : Nodes (PortData Bitmap))
        → All IsEntry rows
        → Unique m
        → (is_some (find j (add_ports E rows m)) ≡ (
            is_some (find j m)
            || (is_some (find j rows) && not (str_eq j strings.default_bridge_name))))
          × Unique (add_ports E rows m)
    unfolding add_ports
    add_lem [] j m p u = ground arith
    add_lem ((k, row) ∷ rows) j m p u =
        elim (Bool-cases (not (is_some (find k m)) && not (str_eq k strings.default_bridge_name))) [
          | inl new ↦
              let (a, b) = add_new_port_lem row j m u in
              ground (arith, add_lem rows j (add_new_port E m row) p.1 b, a, eq_iff j k, p.0)
          | inr old ↦ ground (arith, add_lem rows j m p.1 u, eq_iff j k)
        ]

    -- After `update_port_cache`, where it does not fault, a name is cached exactly if a row of the Port
    -- table has it, but for the default bridge's own port, which is not added. The caches keep one node
    -- to a name, and the VLANs their names. The cache has one node to a name before, and the hash table
    -- keeps its documented behaviour.
    pub update_port_cache_lem :
        (s t : State Bitmap) (n : ℕ)
        → Unique s.all_ports
        → update_port_cache E s ≡ some (t, n)
        → PortsMirrored s t
    unfolding update_port_cache
    update_port_cache_lem s t n u e =
        let rows = collect_ports E s.idl.ports [] in
        let ((s1, m), e1, rest) =
          >>=-eq-some (for_each (drop_port E rows) (names s.all_ports) s) _ e in
        let s2 = record s1 { all_ports = add_ports E rows s1.all_ports } in
        let ((s3, k), e2, last) =
          >>=-eq-some (for_each (change_port E rows) (names s2.all_ports) s2) _ rest in
        let p : t ≡ s3 = ground arith in
        let d = drop_loop rows (names s.all_ports) s s1 m u e1 in
        let entries = collect-IsEntry s.idl.ports [] tt in
        let added = λ (j : String). add_lem rows j s1.all_ports entries d.unique in
        let same : SameNames E s2 s3 k =
          SameNames-loop E (change_port E rows) (change_port-SameNames E rows) (names s2.all_ports)
            s2 s3 k e2 in
        let vlans : names s3.all_vlans ≡ names s.all_vlans = same.1 ∙ d.vlans in
        rw p (record {
          ports = λ j. ground (
            arith,
            is_some-find-names j s2.all_ports s3.all_ports same.0,
            (added j).0,
            d.left j,
            contains_name-names j s.all_ports,
            collect_lem j s.idl.ports [],
          );
          unique_ports = Unique-names s2.all_ports s3.all_ports same.0 (added "").1;
          vlans = vlans;
          unique_vlans = λ h. Unique-names s.all_vlans s3.all_vlans vlans h;
        })
