-- ===== src/Vlan/Registry.antt =====
-- The bitmap of all VLANs against the table of VLANs.
use vland.Common.{
  ℕ, String, ◌<◌, ◌≡◌, ◌≢◌, ◌↔◌, true, false, none, some, arith, ◌==◌, str_eq, eq_iff, Nodes,
  Unique, find, remove, find-remove, Unique-remove, Bool-cases, Option-cases, inl, inr,
}
use vland.Idl.{VlanRow}
use vland.External.{Env, BitmapLaws, LinkLaws}
use vland.State.{VlanData, State, PortData}
use vland.Vlan.{parse_vlan_data, update_vlan_membership, add_new_vlan, del_old_vlan}

-- A cached VLAN has the ID.
abbrev pub HasVid : Nodes VlanData → ℕ → Type 0
HasVid m j = (k : String) × (v : VlanData) × (find k m ≡ some v) × (v.vid ≡ j)

module _ (E : Env) where
  open E use {bitmaps}
  open bitmaps use {Bitmap, bitmap_is_set, bitmap_set, size}

  -- Names are unique, IDs are unique and inside the bitmap, and `all_vlans_bitmap` holds exactly the
  -- IDs of the cached VLANs.
  pub record Registered (s : State Bitmap) : Type 0 where
    pub unique : Unique s.all_vlans
    pub range : (k : String) (v : VlanData) → find k s.all_vlans ≡ some v → v.vid < size
    pub distinct :
        (k j : String) (v w : VlanData)
        → find k s.all_vlans ≡ some v
        → find j s.all_vlans ≡ some w
        → v.vid ≡ w.vid
        → k ≡ j
    pub bits :
        (j : ℕ) → j < size → (bitmap_is_set s.all_vlans_bitmap j ≡ true) ↔ HasVid s.all_vlans j

  module _ (B : BitmapLaws bitmaps) where
    remove-Registered :
        (name : String) (vlan : VlanData) (s : State Bitmap) (ports : Nodes (PortData Bitmap))
        → find name s.all_vlans ≡ some vlan
        → Registered s
        → Registered (record s {
          all_ports = ports;
          all_vlans = remove name s.all_vlans;
          all_vlans_bitmap = bitmap_set s.all_vlans_bitmap vlan.vid false;
        })
    remove-Registered name vlan s ports e r =
        let m = s.all_vlans in
        let at = λ (j : String). find-remove name j m r.unique in
        record {
          unique = Unique-remove name m r.unique;
          range = λ k v f. r.range k v (ground (arith, at k));
          distinct =
              λ k j v w f g h. r.distinct k j v w (ground (arith, at k)) (ground (arith, at j)) h;
          bits = λ j hj. (
            λ on.
                let set =
                  B.is_set-set s.all_vlans_bitmap vlan.vid false j (r.range name vlan e) hj in
                let (k, v, f, p) = (r.bits j hj).0 (ground (arith, set)) in
                let ne : k ≢ name = λ q. ground (arith, set, q) in
                (k, v, ground (arith, at k, eq_iff k name), p),
            λ c.
                let (k, v, f, p) = c in
                let set =
                  B.is_set-set s.all_vlans_bitmap vlan.vid false j (r.range name vlan e) hj in
                let old : find k m ≡ some v = ground (arith, at k) in
                let ne : k ≢ name = ground (arith, at k, eq_iff k name) in
                ground (arith, set, (r.bits j hj).1 (k, v, old, p), r.distinct k name v vlan old e),
          );
        }

    -- `del_old_vlan` keeps the bitmap of all VLANs equal to the set of cached VLAN IDs.
    pub del_old_vlan-Registered :
        (name : String) (s : State Bitmap) → Registered s → Registered (del_old_vlan E name s)
    unfolding del_old_vlan
    del_old_vlan-Registered name s r = elim (Option-cases (find name s.all_vlans)) [
      | inl none_such ↦ rw (none_such, del_old_vlan) r
      | inr (vlan, e) ↦ rw (e, del_old_vlan) (remove-Registered name vlan s _ e r)
    ]

    module _ (L : LinkLaws E) where
      link-Registered :
          (name : String) (vlan : VlanData) (s : State Bitmap) (ports : Nodes (PortData Bitmap))
          → vlan.vid < size
          → find name s.all_vlans ≡ none
          → ((k : String) (v : VlanData) → find k s.all_vlans ≡ some v → v.vid ≢ vlan.vid)
          → Registered s
          → Registered (record s {
            all_ports = ports;
            all_vlans = E.link name vlan s.all_vlans;
            all_vlans_bitmap = bitmap_set s.all_vlans_bitmap vlan.vid true;
          })
      link-Registered name vlan s ports h e fresh r =
          let m = s.all_vlans in
          let at = λ (j : String). L.find-link name j vlan m e in
          let set =
            λ (j : ℕ) (hj : j < size). B.is_set-set s.all_vlans_bitmap vlan.vid true j h hj in
          record {
            unique = L.Unique-link name vlan m e r.unique;
            range = λ k v f. ground (arith, at k, r.range k v);
            distinct = λ k j v w f g p. ground (
              arith,
              at k,
              at j,
              eq_iff k name,
              eq_iff j name,
              fresh k v,
              fresh j w,
              r.distinct k j v w,
            );
            bits = λ j hj. (
              λ on. elim (Bool-cases (j == vlan.vid)) [
                | inl here ↦ (name, vlan, ground (arith, at name, eq_iff name name), ground arith)
                | inr off ↦
                    let (k, v, f, p) = (r.bits j hj).0 (ground (arith, set j hj)) in
                    (k, v, ground (arith, at k, eq_iff k name), p)
              ],
              λ c.
                  let (k, v, f, p) = c in
                  elim (Bool-cases (str_eq k name)) [
                    | inl same ↦
                        let q : v ≡ vlan = ground (arith, at k) in
                        let i : j ≡ vlan.vid = ground (arith, q, p) in ground (arith, set j hj)
                    | inr other ↦
                        let old : find k m ≡ some v = ground (arith, at k) in
                        ground (arith, set j hj, (r.bits j hj).1 (k, v, old, p))
                  ],
            );
          }

      -- `add_new_vlan` keeps the bitmap of all VLANs equal to the set of cached VLAN IDs, for a row
      -- whose ID lies inside the bitmap and is cached under no other name.
      pub add_new_vlan-Registered :
          (row : VlanRow) (s : State Bitmap)
          → row.id < size
          → ((k : String) (v : VlanData)
              → find k s.all_vlans ≡ some v
              → v.vid ≡ row.id
              → k ≡ row.name)
          → Registered s
          → Registered (add_new_vlan E row s)
      unfolding add_new_vlan update_vlan_membership parse_vlan_data
      add_new_vlan-Registered row s h fresh r = elim (Option-cases (find row.name s.all_vlans)) [
        | inr (vlan, e) ↦ rw (e, add_new_vlan) r
        | inl new ↦
            rw (new, add_new_vlan)
              (link-Registered row.name _ s _ h new (λ k v f p. ground (arith, fresh k v f p)) r)
      ]
