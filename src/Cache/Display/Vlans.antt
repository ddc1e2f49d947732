-- ===== src/Cache/Display/Vlans.antt =====
-- `update_vlan_cache` keeps what the VLAN rows show.
use vland.Common.{
  All, Bool, Bool-cases, List, Nodes, Option-cases, String, Unique-remove, [], ap, arith, eq_iff,
  false, find, find-remove, if◌then◌else◌, inl, inr, is_some, put, refl, some, str_eq, sym, true, ℕ,
  ◌||◌, ◌∙◌, ◌∷◌, ◌≡◌,
}
use mathlib.Core.Path.{subst}
use vland.Idl.{VlanRow, find_vlan}
use vland.External.{Env, LinkLaws}
use vland.State.{State, VlanData}
use vland.State.Loop.{>>=-eq-some}
use vland.Text.{admin_of}
use vland.Vlan.{
  add_new_vlan, del_old_vlan, handle_vlan_config, parse_vlan_data, update_vlan_membership,
}
use vland.Cache.{add_vlans, change_vlan, drop_vlans}
use vland.Cache.Identity.{find-idents}
use vland.Cache.Identity.Steps.{change_vlan-SameIdents}
use vland.Cache.Display.{Displays, handle-Displays}

-- The cached VLANs of the rows' names were read from these rows.
abbrev pub Refers : Nodes VlanRow → Nodes VlanData → Type 0
Refers rows m =
    (k : String) (row : VlanRow) (v : VlanData)
    → find k rows ≡ some row
    → find k m ≡ some v
    → v.idl_cfg ≡ row.uuid

module _ (E : Env) (L : LinkLaws E) where
  open E use {bitmaps}
  open bitmaps use {Bitmap}

  -- What the loops of `update_vlan_cache` keep, for the nodes of `sh_idl_vlans`.
  pub record Current (rows : Nodes VlanRow) (s : State Bitmap) : Type 0 where
    pub displays : Displays E s
    pub refers : Refers rows s.all_vlans

  del-Current :
      (rows : Nodes VlanRow) (k : String) (s : State Bitmap)
      → Current rows s
      → Current rows (del_old_vlan E k s)
  unfolding del_old_vlan
  del-Current rows k s c = elim (Option-cases (find k s.all_vlans)) [
    | inl e ↦ rw (e, del_old_vlan) c
    | inr (vlan, e) ↦
        let at = λ (j : String). find-remove k j s.all_vlans c.displays.unique in
        rw (e, del_old_vlan)
          (record {
            displays = record {
              unique = Unique-remove k s.all_vlans c.displays.unique;
              each = λ j v r f g. c.displays.each j v r (ground (arith, f, at j)) g;
            };
            refers = λ j row v f g. c.refers j row v f (ground (arith, g, at j));
          })
  ]

  if-Current :
      (rows : Nodes VlanRow) (b : Bool) (s t : State Bitmap)
      → Current rows s
      → Current rows t
      → Current rows (if b then s else t)
  if-Current rows true s t c d = c
  if-Current rows false s t c d = d

  pub drop_vlans-Current :
      (rows : Nodes VlanRow) (ks : List String) (s : State Bitmap)
      → Current rows s
      → Current rows (drop_vlans E rows ks s)
  unfolding drop_vlans
  drop_vlans-Current rows [] s c = c
  drop_vlans-Current rows (k ∷ ks) s c =
      drop_vlans-Current rows ks _
        (if-Current rows (is_some (find k rows)) s (del_old_vlan E k s) c (del-Current rows k s c))

  pub idl-drop_vlans :
      (rows : Nodes VlanRow) (ks : List String) (s : State Bitmap)
      → (drop_vlans E rows ks s).idl ≡ s.idl
  unfolding drop_vlans del_old_vlan
  idl-drop_vlans rows [] s = refl
  idl-drop_vlans rows (k ∷ ks) s =
      ground (arith, idl-drop_vlans rows ks s, idl-drop_vlans rows ks (del_old_vlan E k s))

  -- A new VLAN, from a row that the database has.
  add_new-Current :
      (rows : Nodes VlanRow) (row : VlanRow) (s : State Bitmap)
      → find row.name rows ≡ some row
      → find_vlan row.uuid s.idl.vlans ≡ some row
      → Current rows s
      → Current rows (add_new_vlan E row s)
  unfolding add_new_vlan update_vlan_membership parse_vlan_data
  add_new-Current rows row s listed present c = elim (Option-cases (find row.name s.all_vlans)) [
    | inr (w, e) ↦ rw (e, add_new_vlan) c
    | inl e ↦
        let new = (update_vlan_membership E s.idl s.all_ports (parse_vlan_data row)).1 in
        let at = λ (j : String). L.find-link row.name j new s.all_vlans e in
        rw (e, add_new_vlan)
          (record {
            displays = record {
              unique = L.Unique-link row.name new s.all_vlans e c.displays.unique;
              each = λ j v r f g. elim (Bool-cases (str_eq j row.name)) [
                | inr other ↦ c.displays.each j v r (ground (arith, f, at j, other)) g
                | inl here ↦
                    let q : v ≡ new = ground (arith, f, at j, here) in
                    let cfg : v.idl_cfg ≡ row.uuid = ap (λ (x : VlanData). x.idl_cfg) q in
                    let p : r ≡ row = ground (arith, g, cfg, present) in
                    (
                      ground (arith, p, here, eq_iff j row.name),
                      λ i. inr (ap (λ (x : VlanData). x.op_state) q),
                    )
              ];
            };
            refers = λ j r v f g. elim (Bool-cases (str_eq j row.name)) [
              | inr other ↦ c.refers j r v f (ground (arith, g, at j, other))
              | inl here ↦
                  let q : v ≡ new = ground (arith, g, at j, here) in
                  let cfg : v.idl_cfg ≡ row.uuid = ap (λ (x : VlanData). x.idl_cfg) q in
                  let p : r ≡ row = ground (arith, f, listed, here, eq_iff j row.name) in
                  cfg ∙ ap (λ (x : VlanRow). x.uuid) (sym p)
            ];
          })
  ]

  -- A node of `sh_idl_vlans` with its row, which the database has.
  abbrev pub IsNode : Nodes VlanRow → List VlanRow → String × VlanRow → Type 0
  IsNode rows db (k, row) =
      (k ≡ row.name) × (find k rows ≡ some row) × (find_vlan row.uuid db ≡ some row)

  idl-add_new_vlan : (row : VlanRow) (s : State Bitmap) → (add_new_vlan E row s).idl ≡ s.idl
  unfolding add_new_vlan
  idl-add_new_vlan row s = ground arith

  pub add_vlans-Current :
      (all rows : Nodes VlanRow) (db : List VlanRow) (s : State Bitmap)
      → All (IsNode all db) rows
      → s.idl.vlans ≡ db
      → Current all s
      → Current all (add_vlans E rows s)
  unfolding add_vlans
  add_vlans-Current all [] db s p e c = c
  add_vlans-Current all ((k, row) ∷ rows) db s p e c =
      let (named, listed, present) = p.0 in
      let new =
        add_new-Current all row s (ground (arith, named, listed)) (ground (arith, e, present)) c in
      add_vlans-Current all rows db _ p.1 (ground (arith, e, idl-add_new_vlan row s))
        (if-Current all (is_some (find k s.all_vlans)) s (add_new_vlan E row s) c new)

  pub change_vlan-Current :
      (rows : Nodes VlanRow) (k : String) (s t : State Bitmap) (n : ℕ)
      → change_vlan E rows k s ≡ some (t, n)
      → Current rows s
      → Current rows t
  unfolding change_vlan
  change_vlan-Current rows k s t n e c = record {
    displays =
        let (row, f, e1) = >>=-eq-some (find k rows) _ e in
        let (vlan, g, e2) = >>=-eq-some (find k s.all_vlans) _ e1 in
        let v = record vlan { admin = admin_of E.strings row } in
        elim (Bool-cases (E.vlan_inserted row s.idl_seqno || E.vlan_modified row s.idl_seqno)) [
          | inr same ↦ let p : t ≡ s = ground arith in rw p c.displays
          | inl changed ↦ elim (Option-cases (handle_vlan_config E s.idl row.uuid v)) [
            | inl gone ↦ ground (arith)
            | inr ((db, v', m), e3) ↦
                let p : t ≡ record s { idl = db; all_vlans = put k v' s.all_vlans } =
                  ground arith in
                let at = c.refers k row vlan f g in
                rw p (
                  handle-Displays E s k v vlan v' db m g (refl, refl, refl)
                    (subst (λ u. handle_vlan_config E s.idl u v ≡ some (db, v', m)) (sym at) e3)
                    c.displays)
          ]
        ];
    refers = λ j row v f g.
        let same = (change_vlan-SameIdents E rows k s t n e).0 c.displays.unique in
        let (w, old, (cfg, _)) = find-idents j v s.all_vlans t.all_vlans same g in
        sym cfg ∙ c.refers j row w f old;
  }
