-- ===== src/Run/Default.antt =====
-- The creation of the default VLAN.
use vland.Common.{
  ℕ, ◌≡◌, ◌≢◌, ◌↔◌, ◌⊎◌, refl, true, false, ◌||◌, none, List, [], ◌∷◌, ◌++◌, arith, Option-cases,
  inl, inr,
}
use vland.Idl.{Db, VlanRow}
use vland.External.{Env}
use vland.State.{State}
use vland.Vlan.{default_vid, has_vlan_id}
use vland.Run.{Turn, is_done, find_bridge, set_bridge_vlans, create_default_vlan, default_vlan_row}

has_vlan_id-append :
    (n : ℕ) (xs ys : List VlanRow)
    → has_vlan_id n (xs ++ ys) ≡ (has_vlan_id n xs || has_vlan_id n ys)
unfolding has_vlan_id
has_vlan_id-append n [] ys = refl
has_vlan_id-append n (x ∷ xs) ys = ground (arith, has_vlan_id-append n xs ys)

module _ (E : Env) where
  open E use {bitmaps, strings}
  open bitmaps use {Bitmap}

  -- `create_default_vlan` returns true exactly if no VLAN row has the default ID and the default
  -- bridge exists; otherwise the database is untouched. It sets the flag `default_vlan_created` where
  -- it found the VLAN or its transaction went through, and leaves the flag as it was where the bridge
  -- is missing or the transaction failed, so that it is tried again.
  pub create_default_vlan_lem :
      (t : Turn) (s : State Bitmap)
      → let (s', created) = create_default_vlan E t s in
        let found = has_vlan_id default_vid s.idl.vlans in
        let bridge = find_bridge strings.default_bridge_name s.idl.bridges in
        ((created ≡ true) ↔ ((found ≡ false) × (bridge ≢ none)))
        × (created ≡ false → s'.idl ≡ s.idl)
        × ((s'.default_vlan_created ≡ true) ↔ (
            (s.default_vlan_created ≡ true)
            ⊎ (found ≡ true)
            ⊎ ((created ≡ true) × (is_done t.commit_status ≡ true))))
  unfolding create_default_vlan
  create_default_vlan_lem t s = ground arith

  create_default_vlan_found :
      (t : Turn) (s : State Bitmap)
      → ((a b : Db) → t.after_commit a b ≡ b)
      → (create_default_vlan E t s).1 ≡ true
      → has_vlan_id default_vid (create_default_vlan E t s).0.idl.vlans ≡ true
  unfolding create_default_vlan
  create_default_vlan_found t s commits h =
      let db = s.idl in
      let rows = db.vlans ++ default_vlan_row E t.new_uuid ∷ [] in
      let last = has_vlan_id-append default_vid db.vlans (default_vlan_row E t.new_uuid ∷ []) in
      let has : has_vlan_id default_vid rows ≡ true = unfold has_vlan_id in ground (arith, last) in
      elim (Option-cases (find_bridge strings.default_bridge_name db.bridges)) [
        | inl missing ↦ ground arith
        | inr (b, e) ↦
            let written = record db {
              vlans = rows;
              bridges = set_bridge_vlans b.uuid (b.vlans ++ t.new_uuid ∷ []) db.bridges;
            } in
            ground (arith, commits db written, has)
      ]

  -- Where a committed transaction is what the replica shows next, a second call after one that
  -- created the VLAN finds it: it returns false, writes nothing and sets the flag.
  pub create_default_vlan_again :
      (t u : Turn) (s : State Bitmap)
      → ((a b : Db) → t.after_commit a b ≡ b)
      → (create_default_vlan E t s).1 ≡ true
      → create_default_vlan E u (create_default_vlan E t s).0
        ≡ (record (create_default_vlan E t s).0 { default_vlan_created = true }, false)
  create_default_vlan_again t u s commits h =
      let found = create_default_vlan_found t s commits h in
      unfold create_default_vlan in rw found refl
