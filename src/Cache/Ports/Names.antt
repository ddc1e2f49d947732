-- ===== src/Cache/Ports/Names.antt =====
-- Which steps of the port cache leave the names of the caches as they are.
use vland.Common.{
  ap, sym, ℕ, ◌+◌, ◌≡◌, ◌∙◌, refl, ◌||◌, Option, some, List, [], ◌∷◌, arith, ◌==◌, Nodes, find, put,
  names, Unique, Bool-cases, Option-cases, inl, inr, is_some, String, contains_name,
  contains_name-names,
}
use vland.Idl.{PortRow, VlanRow}
use vland.External.{Env}
use vland.State.{VlanData, State, for_each}
use vland.State.Loop.{>>=-eq-some, for_each-rel}
use vland.Port.{construct_vlan_bitmap}
use vland.Vlan.Membership.{names-update_vlan_membership}
use vland.Vlan.{vlan_lookup_by_vid, handle_vlan_config}
use vland.Cache.{configure, refresh, leave_vlan, update_member, update_members, change_port}

names-put : {V : Type 0} (k : String) (v : V) (m : Nodes V) → names (put k v m) ≡ names m
names-put k v [] = refl
names-put k v ((i, w) ∷ m) = ground (arith, names-put k v m)

-- Tables with the same names.
pub is_some-find-names :
    {V W : Type 0} (k : String) (m : Nodes V) (m' : Nodes W)
    → names m' ≡ names m
    → is_some (find k m') ≡ is_some (find k m)
is_some-find-names k m m' e =
    sym (contains_name-names k m') ∙ ap (contains_name k) e ∙ contains_name-names k m

pub Unique-names :
    {V W : Type 0} (m : Nodes V) (m' : Nodes W) → names m' ≡ names m → Unique m → Unique m'
Unique-names [] [] e u = tt
Unique-names [] ((i, w) ∷ m') e u = cc
Unique-names ((k, v) ∷ m) [] e u = tt
Unique-names ((k, v) ∷ m) ((i, w) ∷ m') e u =
    let rest : names m' ≡ names m = cc in
    let first : i ≡ k = cc in
    ground (arith, u.0, is_some-find-names i m m' rest, Unique-names m m' rest u.1)

module _ (E : Env) where
  open E use {bitmaps, link, strings}
  open bitmaps use {Bitmap}

  -- The caches have the names that they had.
  abbrev pub SameNames : State Bitmap → State Bitmap → ℕ → Type 0
  SameNames s t n =
      (names t.all_ports ≡ names s.all_ports) × (names t.all_vlans ≡ names s.all_vlans)

  SameNames-then :
      (s t u : State Bitmap) (m n : ℕ) → SameNames s t m → SameNames t u n → SameNames s u (m + n)
  SameNames-then s t u m n f g = (g.0 ∙ f.0, g.1 ∙ f.1)

  pub SameNames-loop :
      {A : Type 0} (f : A → State Bitmap → Option (State Bitmap × ℕ))
      → ((x : A) (s t : State Bitmap) (n : ℕ) → f x s ≡ some (t, n) → SameNames s t n)
      → (xs : List A) (s t : State Bitmap) (n : ℕ) → for_each f xs s ≡ some (t, n)
      → SameNames s t n
  SameNames-loop f turn = for_each-rel SameNames (λ s. (refl, refl)) SameNames-then f turn

  configure-SameNames :
      (k : String) (vlan : VlanData) (s t : State Bitmap) (n : ℕ)
      → configure E k vlan s ≡ some (t, n)
      → SameNames s t n
  unfolding configure
  configure-SameNames k vlan s t n e =
      let ((db, v, m), e1, last) = >>=-eq-some (handle_vlan_config E s.idl vlan.idl_cfg vlan) _ e in
      let p : t ≡ record s { idl = db; all_vlans = put k v s.all_vlans } = ground (arith) in
      rw p (refl, names-put k v s.all_vlans)

  refresh-SameNames :
      (k : String) (vlan : VlanData) (s : State Bitmap) → SameNames s (refresh E k vlan s).0 0
  unfolding refresh
  refresh-SameNames k vlan s =
      (names-update_vlan_membership E s.idl s.all_ports vlan, names-put k _ s.all_vlans)

  refreshed :
      (k : String) (vlan : VlanData) (s t : State Bitmap) (n : ℕ)
      → configure E k (refresh E k vlan s).1 (refresh E k vlan s).0 ≡ some (t, n)
      → SameNames s t n
  refreshed k vlan s t n e =
      SameNames-then s (refresh E k vlan s).0 t 0 n (refresh-SameNames k vlan s)
        (configure-SameNames k _ _ t n e)

  pub leave_vlan-SameNames :
      (vid : ℕ) (s t : State Bitmap) (n : ℕ) → leave_vlan E vid s ≡ some (t, n) → SameNames s t n
  unfolding leave_vlan
  leave_vlan-SameNames vid s t n e = elim (Option-cases (vlan_lookup_by_vid vid s.all_vlans)) [
    | inl f ↦ ground arith
    | inr ((k, vlan), f) ↦ refreshed k vlan s t n (ground arith)
  ]

  update_member-SameNames :
      (vid : ℕ) (row : VlanRow) (s t : State Bitmap) (n : ℕ)
      → update_member E vid row s ≡ some (t, n)
      → SameNames s t n
  unfolding update_member
  update_member-SameNames vid row s t n e = elim (Bool-cases (row.id == vid)) [
    | inr off ↦ ground arith
    | inl here ↦ elim (Option-cases (vlan_lookup_by_vid vid s.all_vlans)) [
      | inl f ↦ ground arith
      | inr ((k, vlan), f) ↦ elim (Bool-cases (is_some row.l3port)) [
        | inl internal ↦
            let p : t ≡ (refresh E k vlan s).0 = ground arith in rw p (refresh-SameNames k vlan s)
        | inr free ↦ refreshed k vlan s t n (ground arith)
      ]
    ]
  ]

  update_members-SameNames :
      (vid : ℕ) (s t : State Bitmap) (n : ℕ)
      → update_members E vid s ≡ some (t, n)
      → SameNames s t n
  unfolding update_members
  update_members-SameNames vid s t n e =
      SameNames-loop (update_member E vid) (update_member-SameNames vid) s.idl.vlans s t n e

  pub change_port-SameNames :
      (rows : Nodes PortRow) (name : String) (s t : State Bitmap) (n : ℕ)
      → change_port E rows name s ≡ some (t, n)
      → SameNames s t n
  unfolding change_port
  change_port-SameNames rows name s t n e =
      let (row, f, e1) = >>=-eq-some (find name rows) _ e in
      let (port, g, e2) = >>=-eq-some (find name s.all_ports) _ e1 in
      let new = construct_vlan_bitmap E s.idl s.all_vlans_bitmap row port in
      let s' = record s { all_ports = put name new s.all_ports } in
      elim (Bool-cases (E.port_inserted row s.idl_seqno || E.port_modified row s.idl_seqno)) [
        | inl changed ↦
            SameNames-then s s' t 0 n (names-put name new s.all_ports, refl)
              (SameNames-loop (update_members E) update_members-SameNames
                (bitmaps.ones (bitmaps.bitmap_or port.vlans_bitmap new.vlans_bitmap)) s' t n
                (ground arith))
        | inr same ↦ ground arith
      ]
