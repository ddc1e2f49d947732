-- ===== src/Cache/Steps.antt =====
-- The rule for the cache of ports: a relation between states that holds of its primitive steps, and
-- composes, holds of `update_port_cache`.
use vland.Common.{
  ℕ, ◌+◌, ◌≡◌, ◌||◌, Option, some, List, [], arith, ◌==◌, Nodes, find, put, names, Bool-cases,
  Option-cases, inl, inr, is_some, String, remove,
}
use mathlib.Core.Path.{subst}
use vland.Idl.{PortRow, VlanRow}
use vland.External.{Env}
use vland.State.{PortData, VlanData, State, for_each}
use vland.State.Loop.{>>=-eq-some, for_each-rel}
use vland.Port.{construct_vlan_bitmap}
use vland.Vlan.{vlan_lookup_by_vid}
use vland.Cache.{
  configure, refresh, leave_vlan, del_old_port, drop_port, update_member, update_members,
  change_port, update_port_cache, collect_ports, add_ports, once,
}

module _ (E : Env) where
  open E use {bitmaps}
  open bitmaps use {Bitmap}

  -- What `R` has to satisfy; its last argument is the count that a step returns.
  pub record PortRule (R : State Bitmap → State Bitmap → ℕ → Type 0) : Type 0 where
    pub nothing : (s : State Bitmap) → R s s 0
    pub chain : (s t u : State Bitmap) (m n : ℕ) → R s t m → R t u n → R s u (m + n)
    pub ports :
        (s : State Bitmap) (p : Nodes (PortData Bitmap)) → R s (record s { all_ports = p }) 0
    pub refreshed :
        (vid : ℕ) (k : String) (vlan : VlanData) (s : State Bitmap)
        → vlan_lookup_by_vid vid s.all_vlans ≡ some (k, vlan)
        → R s (refresh E k vlan s).0 0
    pub configured :
        (vid : ℕ) (k : String) (vlan : VlanData) (s t : State Bitmap) (n : ℕ)
        → vlan_lookup_by_vid vid s.all_vlans ≡ some (k, vlan)
        → configure E k (refresh E k vlan s).1 (refresh E k vlan s).0 ≡ some (t, n)
        → R s t n
    pub counted : (s t : State Bitmap) (n : ℕ) → R s t n → R s t (once n)

  module _ {R : State Bitmap → State Bitmap → ℕ → Type 0} (rule : PortRule R) where
    stay :
        (s t : State Bitmap) (n : ℕ)
        → ◌≡◌ {A = Option (State Bitmap × ℕ)} (some (s, 0)) (some (t, n))
        → R s t n
    stay s t n e =
        let p : t ≡ s = ground arith in let q : n ≡ 0 = ground arith in rw (p, q) (rule.nothing s)

    after : (s t u : State Bitmap) (n : ℕ) → R s t 0 → R t u n → R s u n
    after s t u n p q =
        let z : 0 + n ≡ n = omega arith in subst (R s u) z (rule.chain s t u 0 n p q)

    loop-rel :
        {A : Type 0} (f : A → State Bitmap → Option (State Bitmap × ℕ))
        → ((x : A) (s t : State Bitmap) (n : ℕ) → f x s ≡ some (t, n) → R s t n)
        → (xs : List A) (s t : State Bitmap) (n : ℕ) → for_each f xs s ≡ some (t, n)
        → R s t n
    loop-rel f turn = for_each-rel R rule.nothing rule.chain f turn

    pub leave_vlan-rel :
        (vid : ℕ) (s t : State Bitmap) (n : ℕ) → leave_vlan E vid s ≡ some (t, n) → R s t n
    unfolding leave_vlan
    leave_vlan-rel vid s t n e = elim (Option-cases (vlan_lookup_by_vid vid s.all_vlans)) [
      | inl f ↦ stay s t n (ground arith)
      | inr ((k, vlan), f) ↦ rule.configured vid k vlan s t n f (ground arith)
    ]

    del_old_port-rel :
        (name : String) (s t : State Bitmap) (n : ℕ) → del_old_port E name s ≡ some (t, n) → R s t n
    unfolding del_old_port
    del_old_port-rel name s t n e = elim (Option-cases (find name s.all_ports)) [
      | inl f ↦ stay s t n (ground arith)
      | inr (port, f) ↦
          let p = remove name s.all_ports in
          after s (record s { all_ports = p }) t n (rule.ports s p)
            (loop-rel (leave_vlan E) leave_vlan-rel (bitmaps.ones port.vlans_bitmap) _ t n
              (ground arith))
    ]

    pub drop_port-rel :
        (rows : Nodes PortRow) (name : String) (s t : State Bitmap) (n : ℕ)
        → drop_port E rows name s ≡ some (t, n)
        → R s t n
    unfolding drop_port
    drop_port-rel rows name s t n e = elim (Option-cases (find name rows)) [
      | inl f ↦ elim (Option-cases (del_old_port E name s)) [
        | inl g ↦ ground (arith)
        | inr ((u, m), g) ↦
            let p : t ≡ u = ground arith in
            let q : n ≡ once m = ground arith in
            rw (p, q) (rule.counted s u m (del_old_port-rel name s u m g))
      ]
      | inr (row, f) ↦ stay s t n (ground arith)
    ]

    pub update_member-rel :
        (vid : ℕ) (row : VlanRow) (s t : State Bitmap) (n : ℕ)
        → update_member E vid row s ≡ some (t, n)
        → R s t n
    unfolding update_member
    update_member-rel vid row s t n e = elim (Bool-cases (row.id == vid)) [
      | inr off ↦ stay s t n (ground arith)
      | inl here ↦ elim (Option-cases (vlan_lookup_by_vid vid s.all_vlans)) [
        | inl f ↦ stay s t n (ground arith)
        | inr ((k, vlan), f) ↦ elim (Bool-cases (is_some row.l3port)) [
          | inl internal ↦
              after s (refresh E k vlan s).0 t n (rule.refreshed vid k vlan s f)
                (stay (refresh E k vlan s).0 t n (ground arith))
          | inr free ↦ rule.configured vid k vlan s t n f (ground arith)
        ]
      ]
    ]

    pub update_members-rel :
        (vid : ℕ) (s t : State Bitmap) (n : ℕ) → update_members E vid s ≡ some (t, n) → R s t n
    unfolding update_members
    update_members-rel vid s t n e =
        loop-rel (update_member E vid) (update_member-rel vid) s.idl.vlans s t n e

    pub change_port-rel :
        (rows : Nodes PortRow) (name : String) (s t : State Bitmap) (n : ℕ)
        → change_port E rows name s ≡ some (t, n)
        → R s t n
    unfolding change_port
    change_port-rel rows name s t n e =
        let (row, f, e1) = >>=-eq-some (find name rows) _ e in
        let (port, g, e2) = >>=-eq-some (find name s.all_ports) _ e1 in
        let new = construct_vlan_bitmap E s.idl s.all_vlans_bitmap row port in
        let p = put name new s.all_ports in
        elim (Bool-cases (E.port_inserted row s.idl_seqno || E.port_modified row s.idl_seqno)) [
          | inl changed ↦
              after s (record s { all_ports = p }) t n (rule.ports s p)
                (loop-rel (update_members E) update_members-rel
                  (bitmaps.ones (bitmaps.bitmap_or port.vlans_bitmap new.vlans_bitmap)) _ t n
                  (ground arith))
          | inr same ↦ stay s t n (ground arith)
        ]

    pub update_port_cache-rel :
        (s t : State Bitmap) (n : ℕ) → update_port_cache E s ≡ some (t, n) → R s t n
    unfolding update_port_cache
    update_port_cache-rel s t n e =
        let rows = collect_ports E s.idl.ports [] in
        let ((s1, m), e1, rest) =
          >>=-eq-some (for_each (drop_port E rows) (names s.all_ports) s) _ e in
        let p = add_ports E rows s1.all_ports in
        let s2 = record s1 { all_ports = p } in
        let ((s3, k), e2, last) =
          >>=-eq-some (for_each (change_port E rows) (names s2.all_ports) s2) _ rest in
        let same : t ≡ s3 = ground arith in
        let count : n ≡ m + k = ground arith in
        let dropped =
          loop-rel (drop_port E rows) (drop_port-rel rows) (names s.all_ports) s s1 m e1 in
        let changed =
          loop-rel (change_port E rows) (change_port-rel rows) (names s2.all_ports) s2 s3 k e2 in
        rw (same, count)
          (rule.chain s s1 s3 m k dropped (after s1 s2 s3 k (rule.ports s1 p) changed))
