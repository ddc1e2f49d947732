-- ===== src/Cache/Display.antt =====
-- What the VLAN rows show of the cached VLANs, over the steps of the port cache.
pub mod Ports
pub mod Vlans
pub mod Update
use vland.Common.{
  ℕ, zero, suc, ◌≡◌, ◌≢◌, ◌∙◌, ◌⊎◌, refl, none, some, List, [], ◌∷◌, arith, ◌==◌, Nodes, find, put,
  Unique, Unique-put, find-put, Bool-cases, Option-cases, inl, inr, String, str_eq, eq_iff, sym,
}
use mathlib.Core.Path.{subst}
use vland.Idl.{OperState, Db, VlanRow, find_vlan, put_vlan, find_vlan-put_vlan}
use vland.External.{Env}
use vland.State.{VlanData, State}
use vland.State.Loop.{>>=-eq-some}
use vland.Vlan.{vlan_lookup_by_vid, update_vlan_membership, handle_vlan_config, write_status}
use vland.Vlan.Config.{Handled, Shows, handle_vlan_config_lem, handle_vlan_config-Shows}
use vland.Cache.{configure, refresh, update_port_cache}
use vland.Cache.Steps.{PortRule, update_port_cache-rel}
use vland.Cache.Identity.{find-vlan_lookup_by_vid}

-- Two versions of a cached VLAN, which may differ in its members and its admin state.
abbrev pub SameStatus : VlanData → VlanData → Type 0
SameStatus v w =
    (v.idl_cfg ≡ w.idl_cfg) × (v.op_state ≡ w.op_state) × (v.op_state_reason ≡ w.op_state_reason)

module _ (E : Env) where
  open E use {bitmaps}
  open bitmaps use {Bitmap}

  -- The row shows the VLAN's state and reason, or these are not computed yet.
  abbrev pub IsShown : VlanData → VlanRow → Type 0
  IsShown v r = Shows E v r ⊎ (v.op_state ≡ OperState.unknown)

  -- There is one node to a name; the row that a cached VLAN was read from, where the database has it,
  -- has the VLAN's name and shows its status, if it is not in internal use.
  pub record Displays (s : State Bitmap) : Type 0 where
    pub unique : Unique s.all_vlans
    pub each :
        (k : String) (v : VlanData) (r : VlanRow)
        → find k s.all_vlans ≡ some v
        → find_vlan v.idl_cfg s.idl.vlans ≡ some r
        → (r.name ≡ k) × (r.l3port ≡ none → IsShown v r)

  -- The rows after a call of `handle_vlan_config`.
  rows_after :
      (db : Db) (row : ℕ) (r : VlanRow) (vlan : VlanData) (db' : Db) (v : VlanData) (n : ℕ)
      → Handled E db row r vlan db' v n
      → find_vlan row db.vlans ≡ some r
      → (u : ℕ) (x' : VlanRow) → find_vlan u db'.vlans ≡ some x'
      → (x : VlanRow) × (find_vlan u db.vlans ≡ some x)
        × (x'.name ≡ x.name)
        × (x'.l3port ≡ x.l3port)
        × (u ≢ row → x' ≡ x)
  rows_after db row r vlan db' v zero h e u x' f =
      (x', ground (arith, f, h.unchanged refl), refl, refl, λ ne. refl)
  rows_after db row r vlan db' v (suc zero) h e u x' f =
      let put = write_status E v.op_state v.op_state_reason in
      let (p, _) = h.written refl in
      let at = find_vlan-put_vlan row u put r db.vlans (λ x. refl) e in
      elim (Bool-cases (u == row)) [
        | inl here ↦
            let q : x' ≡ put r = ground (arith, f, p, at, here) in
            let same : u ≡ row = ground (arith, here) in
            (
              r,
              ground (arith, same, e),
              ground (arith, q),
              ground (arith, q),
              λ ne. absurd (ne same),
            )
        | inr other ↦ (x', ground (arith, f, p, at, other), refl, refl, λ ne. refl)
      ]
  rows_after db row r vlan db' v (suc (suc n)) h e u x' f = absurd (omega (arith, h.counted))

  IsShown-SameStatus : (v w : VlanData) (r : VlanRow) → SameStatus v w → IsShown w r → IsShown v r
  IsShown-SameStatus v w r (_, state, reason) (inl s) = inl (record {
    hw = ground (arith, s.hw, state);
    state = ground (arith, s.state, state);
    reason = ground (arith, s.reason, reason);
  })
  IsShown-SameStatus v w r (_, state, _) (inr e) = inr (state ∙ e)

  -- A cached VLAN is replaced by another version of it.
  pub put-Displays :
      (s t : State Bitmap) (k : String) (v w : VlanData)
      → find k s.all_vlans ≡ some w
      → SameStatus v w
      → t.all_vlans ≡ put k v s.all_vlans
      → t.idl ≡ s.idl
      → Displays s
      → Displays t
  put-Displays s t k v w f same p q d = record {
    unique = rw p (Unique-put k v s.all_vlans d.unique);
    each = λ j x r g h. elim (Bool-cases (str_eq j k)) [
      | inl here ↦
          let e : x ≡ v = ground (arith, g, p, find-put k j v w s.all_vlans f, here) in
          let at : find_vlan w.idl_cfg s.idl.vlans ≡ some r = ground (arith, h, q, e, same.0) in
          let (named, shown) = d.each k w r f at in
          (
            ground (arith, named, here, eq_iff j k),
            λ i. subst (λ y. IsShown y r) (sym e) (IsShown-SameStatus v w r same (shown i)),
          )
      | inr other ↦
          d.each j x r (ground (arith, g, p, find-put k j v w s.all_vlans f, other))
            (ground (arith, h, q))
    ];
  }

  -- A cached VLAN has gone through `handle_vlan_config` with the row that it was read from.
  Handled-Displays :
      (s : State Bitmap) (k : String) (vlan w v : VlanData) (db : Db) (n : ℕ) (r : VlanRow)
      → find k s.all_vlans ≡ some w
      → SameStatus vlan w
      → find_vlan w.idl_cfg s.idl.vlans ≡ some r
      → handle_vlan_config E s.idl w.idl_cfg vlan ≡ some (db, v, n)
      → Handled E s.idl w.idl_cfg r vlan db v n
      → Displays s
      → Displays (record s { idl = db; all_vlans = put k v s.all_vlans })
  Handled-Displays s k vlan w v db n r f same found e h d = record {
    unique = Unique-put k v s.all_vlans d.unique;
    each = λ j x r' g at.
        let row : v.idl_cfg ≡ w.idl_cfg = ground (arith, h.same, same.0) in
        let back = rows_after s.idl w.idl_cfg r vlan db v n h found in
        elim (Bool-cases (str_eq j k)) [
          | inl here ↦
              let q : x ≡ v = ground (arith, g, find-put k j v w s.all_vlans f, here) in
              let at' : find_vlan w.idl_cfg db.vlans ≡ some r' = ground (arith, at, q, row) in
              let (y, old, named, l3, _) = back w.idl_cfg r' at' in
              let p : y ≡ r = ground (arith, old, found) in
              let (name, shown) = d.each k w r f found in
              (
                ground (arith, named, p, name, here, eq_iff j k),
                λ i.
                    let free : r.l3port ≡ none = ground (arith, l3, p, i) in
                    let before = IsShown-SameStatus vlan w r same (shown free) in
                    let ((z, now, sh), _) =
                      handle_vlan_config-Shows E s.idl w.idl_cfg r vlan db v n found free before
                        e in
                    let z' : z ≡ r' = ground (arith, now, at') in
                    subst (λ y. IsShown y r') (sym q) (inl (subst (Shows E v) z' sh)),
              )
          | inr other ↦
              let g' : find j s.all_vlans ≡ some x =
                ground (arith, g, find-put k j v w s.all_vlans f, other) in
              let (y, old, named, l3, away) = back x.idl_cfg r' at in
              let (name, shown) = d.each j x y g' old in
              let (name_k, _) = d.each k w r f found in
              let apart : x.idl_cfg ≢ w.idl_cfg =
                λ c. ground (arith, c, old, found, name, name_k, other, eq_iff j k) in
              let p : r' ≡ y = away apart in
              (named ∙ name, λ i. subst (IsShown x) (sym p) (shown (sym l3 ∙ i)))
        ];
  }

  pub handle-Displays :
      (s : State Bitmap) (k : String) (vlan w v : VlanData) (db : Db) (n : ℕ)
      → find k s.all_vlans ≡ some w
      → SameStatus vlan w
      → handle_vlan_config E s.idl w.idl_cfg vlan ≡ some (db, v, n)
      → Displays s
      → Displays (record s { idl = db; all_vlans = put k v s.all_vlans })
  handle-Displays s k vlan w v db n f same e d =
      elim (handle_vlan_config_lem E s.idl w.idl_cfg vlan) [
        | inl (_, fault) ↦ ground (arith)
        | inr (r, db1, v1, n1, found, e1, h1) ↦
            let a : db ≡ db1 = ground (arith) in
            let b : v ≡ v1 = ground (arith) in
            let c : n ≡ n1 = ground (arith) in
            let h : Handled E s.idl w.idl_cfg r vlan db v n = rw (a, b, c) h1 in
            Handled-Displays s k vlan w v db n r f same found e h d
      ]
