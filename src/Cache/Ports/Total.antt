-- ===== src/Cache/Ports/Total.antt =====
-- `update_port_cache` does not fault where the rows of the cached VLANs are in the database.
use vland.Common.{
  ℕ, String, ◌+◌, ◌≡◌, ◌∙◌, ◌⊎◌, ◌||◌, refl, true, some, [], ◌==◌, arith, Nodes, find, put, names,
  Unique, All-names, is_some, Bool-cases, Option-cases, inl, inr, remove, some_of,
  contains_name-names,
}
use mathlib.Core.Path.{subst}
use vland.Idl.{PortRow, VlanRow}
use vland.External.{Env, LinkLaws}
use vland.State.{State, for_each}
use vland.State.Loop.{for_each_total}
use vland.Port.{construct_vlan_bitmap}
use vland.Vlan.{vlan_lookup_by_vid}
use vland.Cache.{
  refresh, del_old_port, drop_port, update_member, update_members, change_port, once, collect_ports,
  add_ports, update_port_cache,
}
use vland.Cache.Steps.{drop_port-rel, update_member-rel, update_members-rel, change_port-rel}
use vland.Cache.Ports.{has_port, collect_lem, collect-IsEntry, add_lem, drop_loop}
use vland.Cache.Ports.Names.{is_some-find-names, change_port-SameNames}
use vland.Cache.Ports.Live.{
  everywhere, any_vids, IsLive, IsLive-rule, Runs, refreshed_total, loop_total, leave_vlans_total,
}

module _ (E : Env) (C : ℕ → Type 0) where
  open E use {bitmaps}
  open bitmaps use {Bitmap}

  -- A port that stays is left alone; one that is gone is safe to delete if every cached VLAN is live.
  abbrev pub IsDroppable : Nodes PortRow → String → Type 0
  IsDroppable rows name = (is_some (find name rows) ≡ true) ⊎ ((vid : ℕ) → C vid)

  drop_port_total :
      (rows : Nodes PortRow) (name : String) (s : State Bitmap)
      → IsDroppable rows name
      → IsLive E C s
      → Runs E C (drop_port E rows name) s
  unfolding drop_port del_old_port
  drop_port_total rows name s (inl stays) i = (s, 0, ground (arith, stays))
  drop_port_total rows name s (inr all) i = elim (Option-cases (find name rows)) [
    | inr (row, f) ↦ (s, 0, ground (arith, f))
    | inl f ↦ elim (Option-cases (find name s.all_ports)) [
      | inl g ↦ (s, 0, ground (arith, f, g))
      | inr (port, g) ↦
          let s' = record s { all_ports = remove name s.all_ports } in
          let vids = bitmaps.ones port.vlans_bitmap in
          let i' : IsLive E C s' = record { unique = i.unique; covers = i.covers; live = i.live } in
          let (t, n, e, _) = leave_vlans_total E C vids s' (everywhere vids all) i' in
          (t, once n, ground (arith, f, g, e))
    ]
  ]

  update_member_total :
      (vid : ℕ) (row : VlanRow) (s : State Bitmap)
      → C row.id
      → IsLive E C s
      → Runs E C (update_member E vid row) s
  unfolding update_member
  update_member_total vid row s c i = elim (Bool-cases (row.id == vid)) [
    | inr off ↦ (s, 0, ground (arith, off))
    | inl here ↦ elim (Option-cases (vlan_lookup_by_vid vid s.all_vlans)) [
      | inl f ↦ (s, 0, ground (arith, here, f))
      | inr ((k, vlan), f) ↦ elim (Bool-cases (is_some row.l3port)) [
        | inl internal ↦ ((refresh E k vlan s).0, 0, ground (arith, here, f, internal))
        | inr free ↦
            let at : row.id ≡ vid = ground (arith, here) in
            let (t, n, e) = refreshed_total E C vid k vlan s i (subst C at c) f in
            (t, n, ground (arith, here, f, free, e))
      ]
    ]
  ]

  update_members_total :
      (vid : ℕ) (s : State Bitmap) → IsLive E C s → Runs E C (update_members E vid) s
  unfolding update_members
  update_members_total vid s i =
      let (t, n, e, _) =
        loop_total E C (λ (r : VlanRow). C r.id) (update_member E vid) (update_member_total vid)
          (update_member-rel E (IsLive-rule E C) vid) s.idl.vlans s i.covers i in
      (t, n, e)

  change_port_total :
      (rows : Nodes PortRow) (name : String) (s : State Bitmap)
      → is_some (find name rows) ≡ true
      → is_some (find name s.all_ports) ≡ true
      → IsLive E C s
      → Runs E C (change_port E rows name) s
  unfolding change_port
  change_port_total rows name s listed cached i =
      let (row, f) = some_of (find name rows) listed in
      let (port, g) = some_of (find name s.all_ports) cached in
      let new = construct_vlan_bitmap E s.idl s.all_vlans_bitmap row port in
      let s' = record s { all_ports = put name new s.all_ports } in
      let vids = bitmaps.ones (bitmaps.bitmap_or port.vlans_bitmap new.vlans_bitmap) in
      let i' : IsLive E C s' = record { unique = i.unique; covers = i.covers; live = i.live } in
      elim (Bool-cases (E.port_inserted row s.idl_seqno || E.port_modified row s.idl_seqno)) [
        | inr same ↦ (s, 0, ground (arith, f, g, same))
        | inl changed ↦
            let (t, n, e, _) =
              loop_total E C (λ (vid : ℕ). Unit {0}) (update_members E)
                (λ vid x p live. update_members_total vid x live)
                (update_members-rel E (IsLive-rule E C)) vids s' (any_vids vids) i' in
            (t, n, ground (arith, f, g, changed, e))
      ]

  -- What the loop over the cached ports needs.
  abbrev Steady : State Bitmap → State Bitmap → Type 0
  Steady s0 s = IsLive E C s × (names s.all_ports ≡ names s0.all_ports)

  change_ports_total :
      (rows : Nodes PortRow) (s : State Bitmap)
      → IsLive E C s
      → ((k : String) → is_some (find k s.all_ports) ≡ true → is_some (find k rows) ≡ true)
      → (t : State Bitmap) × (n : ℕ) × (for_each (change_port E rows) (names s.all_ports) s
          ≡ some (t, n))
        × Steady s t
  change_ports_total rows s i listed =
      for_each_total (λ k. (is_some (find k rows) ≡ true) × (is_some (find k s.all_ports) ≡ true))
        (Steady s) (change_port E rows)
        (λ k x p st.
          let cached = is_some-find-names k s.all_ports x.all_ports st.1 ∙ p.1 in
          let (t, n, e) = change_port_total rows k x p.0 cached st.0 in
          (
            t,
            n,
            e,
            (
              change_port-rel E (IsLive-rule E C) rows k x t n e st.0,
              (change_port-SameNames E rows k x t n e).0 ∙ st.1,
            ),
          ))
        (names s.all_ports) s (All-names _ s.all_ports (λ k h. (listed k h, h))) (i, refl)

  -- `update_port_cache` does not fault if the rows of the cached VLANs whose IDs are among those of `C`
  -- are in the database, the IDs of all VLAN rows are among them, and so are all IDs if a cached port
  -- is gone.
  pub update_port_cache_total :
      (L : LinkLaws E) (s : State Bitmap)
      → Unique s.all_ports
      → IsLive E C s
      → ((k : String)
          → is_some (find k s.all_ports) ≡ true
          → (has_port k s.idl.ports ≡ true) ⊎ ((vid : ℕ) → C vid))
      → (t : State Bitmap) × (n : ℕ) × (update_port_cache E s ≡ some (t, n))
  unfolding update_port_cache
  update_port_cache_total L s u i safe =
      let rows = collect_ports E s.idl.ports [] in
      let listed = λ (k : String). collect_lem E L k s.idl.ports [] in
      let droppable : (k : String) → is_some (find k s.all_ports) ≡ true → IsDroppable rows k =
        λ k h. elim (safe k h) [ inl stays ↦ inl (ground (arith, listed k)) | inr all ↦ inr all ] in
      let (s1, m, e1, live) =
        loop_total E C (IsDroppable rows) (drop_port E rows) (drop_port_total rows)
          (drop_port-rel E (IsLive-rule E C) rows) (names s.all_ports) s
          (All-names _ s.all_ports droppable) i in
      let s2 = record s1 { all_ports = add_ports E rows s1.all_ports } in
      let d = drop_loop E rows (names s.all_ports) s s1 m u e1 in
      let entries = collect-IsEntry E L s.idl.ports [] tt in
      let live' : IsLive E C s2 = record {
        unique = live.unique;
        covers = live.covers;
        live = live.live;
      } in
      let (t, n, e2, _) = change_ports_total rows s2 live' (λ k h. ground (
        arith,
        (add_lem E L rows k s1.all_ports entries d.unique).0,
        d.left k,
        contains_name-names k s.all_ports,
      )) in
      (t, m + n, ground (arith, e1, e2))
