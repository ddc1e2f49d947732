-- ===== src/Cache/Display/Update.antt =====
-- `update_vlan_cache` as a whole keeps what the VLAN rows show.
use vland.Common.{
  ap, sym, ℕ, ◌≡◌, ◌∙◌, none, some, List, [], ◌∷◌, arith, Nodes, find, names, Unique, All, All₂,
  All-find, All-find_self, IsFound, Option-cases, inl, inr,
}
use mathlib.Core.Path.{subst}
use vland.Idl.{Db, VlanRow, find_vlan}
use vland.External.{Env, LinkLaws}
use vland.State.{VlanData, State}
use vland.State.Loop.{for_each-rel}
use vland.Cache.{collect_vlans, drop_vlans, add_vlans, change_vlan, update_vlan_cache}
use vland.Cache.Frame.{SameConfig}
use vland.Cache.Stale.{gone_kept}
use vland.Cache.Identity.{idents, find-idents}
use vland.Cache.Mirror.{Entry, collect-Entry}
use vland.Cache.Display.{Displays}
use vland.Cache.Display.Vlans.{
  Refers, Current, IsNode, drop_vlans-Current, add_vlans-Current, change_vlan-Current,
  idl-drop_vlans,
}

-- No two VLAN rows have one uuid.
abbrev pub HaveUuids : List VlanRow → Type 0
HaveUuids [] = Unit
HaveUuids (r ∷ rows) = (find_vlan r.uuid rows ≡ none) × HaveUuids rows

-- A cached VLAN of the row's name was read from this row.
abbrev pub IsSameRow : Nodes VlanData → VlanRow → Type 0
IsSameRow m r = (v : VlanData) → find r.name m ≡ some v → v.idl_cfg ≡ r.uuid

IsPresent : List VlanRow → VlanRow → Type 0
IsPresent all r = find_vlan r.uuid all ≡ some r

IsPresent-rows :
    (all rows : List VlanRow)
    → HaveUuids rows
    → ((u : ℕ) (r : VlanRow) → find_vlan u rows ≡ some r → find_vlan u all ≡ some r)
    → All (IsPresent all) rows
unfolding IsPresent
IsPresent-rows all [] d h = tt
IsPresent-rows all (r ∷ rows) d h = (
  h r.uuid r (ground (arith)),
  IsPresent-rows all rows d.1 (λ u x e. h u x (ground (arith, e, d.0))),
)

pub HaveUuids-SameConfig :
    (rows rows' : List VlanRow) → All₂ SameConfig rows rows' → HaveUuids rows → HaveUuids rows'
HaveUuids-SameConfig [] [] h d = tt
HaveUuids-SameConfig (r ∷ rows) (r' ∷ rows') h d =
    let same : r'.uuid ≡ r.uuid = ground (arith, h.0) in
    (rw same (gone_kept r.uuid rows rows' h.1 d.0), HaveUuids-SameConfig rows rows' h.1 d.1)
HaveUuids-SameConfig [] (r ∷ rows) h d = absurd h
HaveUuids-SameConfig (r ∷ rows) [] h d = absurd h

pub IsSameRow-kept :
    (m m' : Nodes VlanData) (rows rows' : List VlanRow)
    → idents m' ≡ idents m
    → All₂ SameConfig rows rows'
    → All (IsSameRow m) rows
    → All (IsSameRow m') rows'
IsSameRow-kept m m' [] [] e h p = tt
IsSameRow-kept m m' (r ∷ rows) (r' ∷ rows') e h p =
    let name : r'.name ≡ r.name = ground (arith, h.0) in
    let uuid : r'.uuid ≡ r.uuid = ground (arith, h.0) in
    (
      λ v f.
          let (w, g, (cfg, _)) =
            find-idents r.name v m m' e (subst (λ k. find k m' ≡ some v) name f) in
          sym cfg ∙ p.0 w g ∙ sym uuid,
      IsSameRow-kept m m' rows rows' e h.1 p.1,
    )
IsSameRow-kept m m' [] (r ∷ rows) e h p = absurd h
IsSameRow-kept m m' (r ∷ rows) [] e h p = absurd h

module _ (E : Env) (L : LinkLaws E) where
  open E use {bitmaps, link}
  open bitmaps use {Bitmap}

  Unique-collect_vlans :
      (rows : List VlanRow) (m : Nodes VlanRow) → Unique m → Unique (collect_vlans E rows m)
  unfolding collect_vlans
  Unique-collect_vlans [] m u = u
  Unique-collect_vlans (row ∷ rows) m u = elim (Option-cases (find row.name m)) [
    | inr (r, e) ↦ rw e (Unique-collect_vlans rows m u)
    | inl e ↦
        rw e (Unique-collect_vlans rows (link row.name row m) (L.Unique-link row.name row m e u))
  ]

  -- The nodes of `sh_idl_vlans`.
  nodes_of :
      (all m : Nodes VlanRow) (db : List VlanRow)
      → All (Entry E L (IsPresent db)) m
      → All (IsFound all) m
      → All (IsNode E L all db) m
  unfolding IsPresent
  nodes_of all [] db p q = tt
  nodes_of all ((k, row) ∷ m) db p q = ((p.0.0, q.0, p.0.1), nodes_of all m db p.1 q.1)

  -- `update_vlan_cache` keeps that the rows of the cached VLANs show their status.
  pub update_vlan_cache-Displays :
      (s t : State Bitmap) (n : ℕ)
      → HaveUuids s.idl.vlans
      → All (IsSameRow s.all_vlans) s.idl.vlans
      → Displays E s
      → update_vlan_cache E s ≡ some (t, n)
      → Displays E t
  unfolding update_vlan_cache
  update_vlan_cache-Displays s t n uuids same d e =
      let db = s.idl.vlans in
      let rows = collect_vlans E db [] in
      let entries = collect-Entry E L (IsSameRow s.all_vlans) db [] same tt in
      let refers : Refers rows s.all_vlans = λ k row v f g.
        let (named, prop) = All-find (Entry E L (IsSameRow s.all_vlans)) k row rows entries f in
        prop v (subst (λ j. find j s.all_vlans ≡ some v) named g) in
      let present =
        collect-Entry E L (IsPresent db) db [] (IsPresent-rows db db uuids (λ u r h. h)) tt in
      let nodes =
        nodes_of rows rows db present (All-find_self rows (Unique-collect_vlans db [] tt)) in
      let s1 = drop_vlans E rows (names s.all_vlans) s in
      let c1 =
        drop_vlans-Current E L rows (names s.all_vlans) s
          (record { displays = d; refers = refers }) in
      let s2 = add_vlans E rows s1 in
      let c2 =
        add_vlans-Current E L rows rows db s1 nodes
          (ap (λ (x : Db). x.vlans) (idl-drop_vlans E L rows (names s.all_vlans) s)) c1 in
      (for_each-rel (λ x y k. Current E L rows x → Current E L rows y) (λ x c. c)
        (λ x y z i j f g c. g (f c)) (change_vlan E rows) (change_vlan-Current E L rows)
        (names s2.all_vlans) s2 t n e c2).displays
