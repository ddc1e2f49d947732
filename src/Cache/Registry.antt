-- ===== src/Cache/Registry.antt =====
-- The bitmap of all VLANs against the table of VLANs, over whole updates of the caches.
use vland.Common.{
  ap, sym, ℕ, String, ◌<◌, ◌≡◌, ◌∙◌, Bool, true, false, if◌then◌else◌, some, List, [], ◌∷◌, arith,
  Nodes, find, names, All, is_some, Option-cases, inl, inr, eq_iff, find-remove,
}
use mathlib.Core.Path.{subst}
use vland.Idl.{VlanRow}
use vland.External.{Env, BitmapLaws, LinkLaws}
use vland.State.{VlanData, State}
use vland.Vlan.{parse_vlan_data, update_vlan_membership, add_new_vlan, del_old_vlan}
use vland.Vlan.Registry.{HasVid, Registered, add_new_vlan-Registered, del_old_vlan-Registered}
use vland.Cache.{collect_vlans, drop_vlans, add_vlans, update_port_cache, update_vlan_cache}
use vland.Cache.Mirror.{Entry, collect-Entry}
use vland.Cache.Identity.{idents, find-idents, Unique-idents}
use vland.Cache.Identity.Steps.{update_port_cache-SameIdents, change_vlans-SameIdents}

HasVid-idents : (j : ℕ) (m m' : Nodes VlanData) → idents m' ≡ idents m → HasVid m' j → HasVid m j
HasVid-idents j m m' e (k, v', f, p) =
    let (v, g, same) = find-idents k v' m m' e f in (k, v, g, same.1 ∙ p)

-- The names of the cached VLANs are those that their IDs have by `name_of`.
abbrev pub IsNamed : (ℕ → String) → Nodes VlanData → Type 0
IsNamed name_of m = (k : String) (v : VlanData) → find k m ≡ some v → k ≡ name_of v.vid

IsNamed-idents :
    (name_of : ℕ → String) (m m' : Nodes VlanData)
    → idents m' ≡ idents m
    → IsNamed name_of m
    → IsNamed name_of m'
IsNamed-idents name_of m m' e h k v' f =
    let (v, g, same) = find-idents k v' m m' e f in h k v g ∙ ap name_of same.1

module _ (E : Env) where
  open E use {bitmaps}
  open bitmaps use {Bitmap, size}

  Registered-idents :
      (s t : State Bitmap)
      → idents t.all_vlans ≡ idents s.all_vlans
      → t.all_vlans_bitmap ≡ s.all_vlans_bitmap
      → Registered E s
      → Registered E t
  Registered-idents s t e b r =
      let at = λ (k : String) (v : VlanData). find-idents k v s.all_vlans t.all_vlans e in
      record {
        unique = Unique-idents s.all_vlans t.all_vlans e r.unique;
        range =
            λ k v f. let (w, g, same) = at k v f in subst (λ i. i < size) same.1 (r.range k w g);
        distinct = λ k j v w f g p.
            let (v', f', a) = at k v f in
            let (w', g', b) = at j w g in r.distinct k j v' w' f' g' (a.1 ∙ p ∙ sym b.1);
        bits = λ j h. rw b (
          λ on. HasVid-idents j t.all_vlans s.all_vlans (sym e) ((r.bits j h).0 on),
          λ has. (r.bits j h).1 (HasVid-idents j s.all_vlans t.all_vlans e has),
        );
      }

  -- The registry with its names.
  abbrev pub IsNamedRegistry : (ℕ → String) → State Bitmap → Type 0
  IsNamedRegistry name_of s = Registered E s × IsNamed name_of s.all_vlans

  -- A row whose name is that of its ID, and whose ID lies inside the bitmaps.
  abbrev pub IsNamedRow : (ℕ → String) → VlanRow → Type 0
  IsNamedRow name_of row = (row.name ≡ name_of row.id) × (row.id < size)

  module _ (B : BitmapLaws bitmaps) (L : LinkLaws E) (name_of : ℕ → String) where
    if-lem :
        (b : Bool) (s t : State Bitmap)
        → IsNamedRegistry name_of s
        → IsNamedRegistry name_of t
        → IsNamedRegistry name_of (if b then s else t)
    if-lem true s t p q = p
    if-lem false s t p q = q

    del_lem :
        (k : String) (s : State Bitmap)
        → IsNamedRegistry name_of s
        → IsNamedRegistry name_of (del_old_vlan E k s)
    unfolding del_old_vlan
    del_lem k s (r, h) = (
      del_old_vlan-Registered E B k s r,
      λ j v f. ground (arith, find-remove k j s.all_vlans r.unique, h j v),
    )

    drop_vlans-Registry :
        (rows : Nodes VlanRow) (ks : List String) (s : State Bitmap)
        → IsNamedRegistry name_of s
        → IsNamedRegistry name_of (drop_vlans E rows ks s)
    unfolding drop_vlans
    drop_vlans-Registry rows [] s r = r
    drop_vlans-Registry rows (k ∷ ks) s r =
        drop_vlans-Registry rows ks _
          (if-lem (is_some (find k rows)) s (del_old_vlan E k s) r (del_lem k s r))

    add_new_lem :
        (row : VlanRow) (s : State Bitmap)
        → IsNamedRow name_of row
        → IsNamedRegistry name_of s
        → IsNamedRegistry name_of (add_new_vlan E row s)
    unfolding add_new_vlan update_vlan_membership parse_vlan_data
    add_new_lem row s (named, inside) (r, h) = (
      add_new_vlan-Registered E B L row s inside (λ k v f p. h k v f ∙ ap name_of p ∙ sym named) r,
      λ k v f. elim (Option-cases (find row.name s.all_vlans)) [
        | inr (vlan, e) ↦ ground (arith, h k v)
        | inl e ↦
            let new = (update_vlan_membership E s.idl s.all_ports (parse_vlan_data row)).1 in
            ground
              (arith, e, L.find-link row.name k new s.all_vlans e, h k v, eq_iff k row.name, named)
      ],
    )

    add_vlans-Registry :
        (rows : Nodes VlanRow) (s : State Bitmap)
        → All (Entry E L (IsNamedRow name_of)) rows
        → IsNamedRegistry name_of s
        → IsNamedRegistry name_of (add_vlans E rows s)
    unfolding add_vlans
    add_vlans-Registry [] s p r = r
    add_vlans-Registry ((k, row) ∷ rows) s p r = add_vlans-Registry rows _ p.1 (
        if-lem (is_some (find k s.all_vlans)) s (add_new_vlan E row s) r
          (add_new_lem row s p.0.1 r))

    pub update_vlan_cache-Registry :
        (s t : State Bitmap) (n : ℕ)
        → All (IsNamedRow name_of) s.idl.vlans
        → IsNamedRegistry name_of s
        → update_vlan_cache E s ≡ some (t, n)
        → IsNamedRegistry name_of t
    unfolding update_vlan_cache
    update_vlan_cache-Registry s t n rows r e =
        let idl_vlans = collect_vlans E s.idl.vlans [] in
        let s1 = drop_vlans E idl_vlans (names s.all_vlans) s in
        let s2 = add_vlans E idl_vlans s1 in
        let entries = collect-Entry E L (IsNamedRow name_of) s.idl.vlans [] rows tt in
        let (r2, h2) =
          add_vlans-Registry idl_vlans s1 entries
            (drop_vlans-Registry idl_vlans (names s.all_vlans) s r) in
        let (same, bitmap) = change_vlans-SameIdents E idl_vlans (names s2.all_vlans) s2 t n e in
        let kept = same r2.unique in
        (
          Registered-idents s2 t kept bitmap r2,
          IsNamed-idents name_of s2.all_vlans t.all_vlans kept h2,
        )

    pub update_port_cache-Registry :
        (s t : State Bitmap) (n : ℕ)
        → IsNamedRegistry name_of s
        → update_port_cache E s ≡ some (t, n)
        → IsNamedRegistry name_of t
    update_port_cache-Registry s t n (r, h) e =
        let (same, bitmap) = update_port_cache-SameIdents E s t n e in
        let kept = same r.unique in
        (Registered-idents s t kept bitmap r, IsNamed-idents name_of s.all_vlans t.all_vlans kept h)
