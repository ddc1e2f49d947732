-- ===== src/Cache/Vlans.antt =====
-- `update_vlan_cache` leaves the names of the ports as they are.
use vland.Common.{
  ◌∙◌, ℕ, String, ◌≡◌, refl, ◌||◌, some, List, [], ◌∷◌, arith, Nodes, find, put, names, is_some,
  Bool-cases, Option-cases, inl, inr,
}
use vland.Idl.{VlanRow}
use vland.External.{Env}
use vland.State.{State}
use vland.State.Loop.{>>=-eq-some, for_each-rel}
use vland.Text.{admin_of}
use vland.Vlan.{add_new_vlan, del_old_vlan, handle_vlan_config}
use vland.Vlan.Names.{names-del_old_vlan, names-add_new_vlan}
use vland.Cache.{drop_vlans, add_vlans, change_vlan, collect_vlans, update_vlan_cache}

module _ (E : Env) where
  open E use {bitmaps}
  open bitmaps use {Bitmap}

  names-drop_vlans :
      (rows : Nodes VlanRow) (ks : List String) (s : State Bitmap)
      → names (drop_vlans E rows ks s).all_ports ≡ names s.all_ports
  unfolding drop_vlans
  names-drop_vlans rows [] s = refl
  names-drop_vlans rows (k ∷ ks) s = elim (Bool-cases (is_some (find k rows))) [
    | inl old ↦ ground (arith, old, names-drop_vlans rows ks s)
    | inr gone ↦
        ground
          (arith, gone, names-drop_vlans rows ks (del_old_vlan E k s), names-del_old_vlan E k s)
  ]

  names-add_vlans :
      (rows : Nodes VlanRow) (s : State Bitmap)
      → names (add_vlans E rows s).all_ports ≡ names s.all_ports
  unfolding add_vlans
  names-add_vlans [] s = refl
  names-add_vlans ((k, row) ∷ rows) s = elim (Bool-cases (is_some (find k s.all_vlans))) [
    | inl old ↦ ground (arith, old, names-add_vlans rows s)
    | inr new ↦
        ground (arith, new, names-add_vlans rows (add_new_vlan E row s), names-add_new_vlan E row s)
  ]

  abbrev SamePorts : State Bitmap → State Bitmap → ℕ → Type 0
  SamePorts s t n = names t.all_ports ≡ names s.all_ports

  change_vlan-SamePorts :
      (rows : Nodes VlanRow) (k : String) (s t : State Bitmap) (n : ℕ)
      → change_vlan E rows k s ≡ some (t, n)
      → SamePorts s t n
  unfolding change_vlan
  change_vlan-SamePorts rows k s t n e =
      let (row, f, e1) = >>=-eq-some (find k rows) _ e in
      let (vlan, g, e2) = >>=-eq-some (find k s.all_vlans) _ e1 in
      let v = record vlan { admin = admin_of E.strings row } in
      elim (Bool-cases (E.vlan_inserted row s.idl_seqno || E.vlan_modified row s.idl_seqno)) [
        | inl changed ↦ elim (Option-cases (handle_vlan_config E s.idl row.uuid v)) [
          | inl gone ↦ ground (arith, changed, gone)
          | inr ((db, v', m), g') ↦
              let p : t ≡ record s { idl = db; all_vlans = put k v' s.all_vlans } = ground arith in
              rw p refl
        ]
        | inr same ↦ ground arith
      ]

  pub names-update_vlan_cache :
      (s t : State Bitmap) (n : ℕ)
      → update_vlan_cache E s ≡ some (t, n)
      → names t.all_ports ≡ names s.all_ports
  unfolding update_vlan_cache
  names-update_vlan_cache s t n e =
      let rows = collect_vlans E s.idl.vlans [] in
      let s1 = drop_vlans E rows (names s.all_vlans) s in
      let s2 = add_vlans E rows s1 in
      let looped : SamePorts s2 t n =
        for_each-rel SamePorts (λ x. refl) (λ x y z m k f g. g ∙ f) (change_vlan E rows)
          (change_vlan-SamePorts rows) (names s2.all_vlans) s2 t n e in
      looped ∙ names-add_vlans rows s1 ∙ names-drop_vlans rows (names s.all_vlans) s
