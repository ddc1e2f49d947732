-- ===== src/Cache/Frame/Vlans.antt =====
-- What `update_vlan_cache` may write.
use vland.Common.{
  ℕ, ◌≡◌, some, List, [], ◌∷◌, arith, Nodes, find, put, names, Bool-cases, inl, inr, is_some, ◌||◌,
  String, Option-cases,
}
use vland.Idl.{VlanRow}
use vland.External.{Env}
use vland.State.{State}
use vland.State.Loop.{>>=-eq-some}
use vland.Vlan.{handle_vlan_config, add_new_vlan, del_old_vlan}
use vland.Text.{admin_of}
use vland.Cache.{drop_vlans, add_vlans, change_vlan, update_vlan_cache, collect_vlans}
use vland.Cache.Frame.{Kept, Kept-same, Kept-refl, Kept-then, Kept-stay, Kept-loop, handle-Kept}

module _ (E : Env) where
  open E use {bitmaps}
  open bitmaps use {Bitmap}

  del_old_vlan-Kept : (name : String) (s : State Bitmap) → Kept E s (del_old_vlan E name s) 0
  unfolding del_old_vlan
  del_old_vlan-Kept name s = elim (Option-cases (find name s.all_vlans)) [
    | inl f ↦ Kept-same E s _ (ground arith) (ground arith) (ground arith) (ground arith)
    | inr (v, f) ↦ Kept-same E s _ (ground arith) (ground arith) (ground arith) (ground arith)
  ]

  add_new_vlan-Kept : (row : VlanRow) (s : State Bitmap) → Kept E s (add_new_vlan E row s) 0
  unfolding add_new_vlan
  add_new_vlan-Kept row s = elim (Option-cases (find row.name s.all_vlans)) [
    | inl f ↦ Kept-same E s _ (ground arith) (ground arith) (ground arith) (ground arith)
    | inr (v, f) ↦ Kept-same E s _ (ground arith) (ground arith) (ground arith) (ground arith)
  ]

  drop_vlans-Kept :
      (rows : Nodes VlanRow) (ks : List String) (s : State Bitmap)
      → Kept E s (drop_vlans E rows ks s) 0
  unfolding drop_vlans
  drop_vlans-Kept rows [] s = Kept-refl E s
  drop_vlans-Kept rows (k ∷ ks) s = elim (Bool-cases (is_some (find k rows))) [
    | inl old ↦ rw old (drop_vlans-Kept rows ks s)
    | inr gone ↦ rw gone (
        Kept-then E s (del_old_vlan E k s) _ 0 (del_old_vlan-Kept k s)
          (drop_vlans-Kept rows ks (del_old_vlan E k s)))
  ]

  add_vlans-Kept : (rows : Nodes VlanRow) (s : State Bitmap) → Kept E s (add_vlans E rows s) 0
  unfolding add_vlans
  add_vlans-Kept [] s = Kept-refl E s
  add_vlans-Kept ((k, row) ∷ rows) s = elim (Bool-cases (is_some (find k s.all_vlans))) [
    | inl old ↦ rw old (add_vlans-Kept rows s)
    | inr fresh ↦ rw fresh (
        Kept-then E s (add_new_vlan E row s) _ 0 (add_new_vlan-Kept row s)
          (add_vlans-Kept rows (add_new_vlan E row s)))
  ]

  change_vlan-Kept :
      (rows : Nodes VlanRow) (name : String) (s t : State Bitmap) (n : ℕ)
      → change_vlan E rows name s ≡ some (t, n)
      → Kept E s t n
  unfolding change_vlan
  change_vlan-Kept rows name s t n e =
      let (row, f, e1) = >>=-eq-some (find name rows) _ e in
      let (vlan, g, e2) = >>=-eq-some (find name s.all_vlans) _ e1 in
      let v = record vlan { admin = admin_of E.strings row } in
      elim (Bool-cases (E.vlan_inserted row s.idl_seqno || E.vlan_modified row s.idl_seqno)) [
        | inl changed ↦ elim (Option-cases (handle_vlan_config E s.idl row.uuid v)) [
          | inl fault ↦ ground (arith)
          | inr ((db, v', m), h) ↦
              let p : t ≡ record s { idl = db; all_vlans = put name v' s.all_vlans } =
                ground arith in
              let q : n ≡ m = ground arith in
              rw (p, q) (handle-Kept E s row.uuid v db v' m (put name v' s.all_vlans) h)
        ]
        | inr same ↦ Kept-stay E s t n (ground arith)
      ]

  -- `update_vlan_cache` writes nothing to the database but the status columns of VLAN rows, writes
  -- nothing at all if it returns 0, and leaves the sequence number and the two flags alone.
  pub update_vlan_cache-Kept :
      (s t : State Bitmap) (n : ℕ) → update_vlan_cache E s ≡ some (t, n) → Kept E s t n
  unfolding update_vlan_cache
  update_vlan_cache-Kept s t n e =
      let idl_vlans = collect_vlans E s.idl.vlans [] in
      let s1 = drop_vlans E idl_vlans (names s.all_vlans) s in
      let s2 = add_vlans E idl_vlans s1 in
      Kept-then E s s1 t n (drop_vlans-Kept idl_vlans (names s.all_vlans) s) (
        Kept-then E s1 s2 t n (add_vlans-Kept idl_vlans s1) (
          Kept-loop E (change_vlan E idl_vlans) (change_vlan-Kept idl_vlans) (names s2.all_vlans) s2
            t n e))
