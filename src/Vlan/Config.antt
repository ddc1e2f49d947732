-- ===== src/Vlan/Config.antt =====
-- What `handle_vlan_config` does to the database and to the cached VLAN.
use vland.Common.{
  ℕ, zero, suc, ◌≤◌, ◌≡◌, ◌≢◌, refl, ◌⊎◌, inl, inr, true, String, Option, none, some, List, [], ◌∷◌,
  arith, Option-cases,
}
use vland.Idl.{OperState, OperStateReason, Db, VlanRow, find_vlan, put_vlan, find_vlan-put_vlan}
use vland.External.{Env}
use vland.State.{VlanData}
use vland.Vlan.{
  default_vid, has_vlan_id, vland_default_vlan_member_port, calc_vlan_op_state_n_reason, same_state,
  same_reason, settle, hw_config, write_status, handle_vlan_config,
}
use vland.Text.{vlan_oper_state_to_str, vlan_oper_state_reason_to_str}
use vland.Vlan.Status.{calc_vlan_op_state_n_reason-ne-unknown, calc_vlan_op_state_n_reason_again}

same_state_eq : (a b : OperState) → same_state a b ≡ true → a ≡ b
same_state_eq a b h = ground arith

same_reason_eq : (a b : OperStateReason) → same_reason a b ≡ true → a ≡ b
same_reason_eq a b h = ground arith

same_state_refl : (a : OperState) → same_state a a ≡ true
same_state_refl a = ground arith

same_reason_refl : (a : OperStateReason) → same_reason a a ≡ true
same_reason_refl a = ground arith

has_vlan_id-put_vlan :
    (n u : ℕ) (f : VlanRow → VlanRow) (rows : List VlanRow)
    → ((r : VlanRow) → (f r).id ≡ r.id)
    → has_vlan_id n (put_vlan u f rows) ≡ has_vlan_id n rows
unfolding has_vlan_id
has_vlan_id-put_vlan n u f [] k = refl
has_vlan_id-put_vlan n u f (r ∷ rows) k = ground (arith, k r, has_vlan_id-put_vlan n u f rows k)

member_port-put_vlan :
    (u : ℕ) (f : VlanRow → VlanRow) (db : Db)
    → ((r : VlanRow) → (f r).id ≡ r.id)
    → vland_default_vlan_member_port (record db { vlans = put_vlan u f db.vlans })
      ≡ vland_default_vlan_member_port db
unfolding vland_default_vlan_member_port
member_port-put_vlan u f db k = ground (arith, has_vlan_id-put_vlan default_vid u f db.vlans k)

-- A write of one VLAN's status does not change what other VLANs are computed from.
pub calc_vlan_op_state_n_reason-put_vlan :
    (u : ℕ) (f : VlanRow → VlanRow) (db : Db) (vlan : VlanData)
    → ((r : VlanRow) → (f r).id ≡ r.id)
    → calc_vlan_op_state_n_reason (record db { vlans = put_vlan u f db.vlans }) vlan
      ≡ calc_vlan_op_state_n_reason db vlan
unfolding calc_vlan_op_state_n_reason
calc_vlan_op_state_n_reason-put_vlan u f db vlan k = ground (arith, member_port-put_vlan u f db k)

module _ (E : Env) where
  -- What a call at the row `r` has done.
  pub record Handled (db : Db) (row : ℕ) (r : VlanRow) (vlan : VlanData) (db' : Db) (v : VlanData)
      (n : ℕ) : Type 0 where
    pub counted : n ≤ 1
    pub unchanged : n ≡ 0 → db' ≡ db
    pub kept : n ≡ 0 → (v.op_state ≡ vlan.op_state) × (v.op_state_reason ≡ vlan.op_state_reason)
    pub written :
        n ≡ 1
        → (db' ≡ record db {
          vlans = put_vlan row (write_status E v.op_state v.op_state_reason) db.vlans;
        })
          × (r.l3port ≡ none)
    pub internal : r.l3port ≢ none → (n ≡ 0) × (v ≡ vlan)
    pub current :
        r.l3port ≡ none
        → (v.op_state ≡ (calc_vlan_op_state_n_reason db vlan).1)
          × (v.op_state_reason ≡ (calc_vlan_op_state_n_reason db vlan).2)
    pub same : v ≡ record vlan {
      any_member_exists = v.any_member_exists;
      op_state = v.op_state;
      op_state_reason = v.op_state_reason;
    }

  settle_total :
      (row : ℕ) (l3port : Option String) (v : VlanData) (state : OperState)
      (reason : OperStateReason) (db : Db) (vlan : VlanData)
      → settle E l3port row v state reason db vlan ≢ none
  unfolding settle
  settle_total row (some l3port) v state reason db vlan = λ e. cc
  settle_total row none v state reason db vlan = ground arith

  handle_vlan_config-Handled :
      (db : Db) (row : ℕ) (r : VlanRow) (vlan : VlanData) (db' : Db) (v : VlanData) (n : ℕ)
      → find_vlan row db.vlans ≡ some r
      → handle_vlan_config E db row vlan ≡ some (db', v, n)
      → Handled db row r vlan db' v n
  unfolding handle_vlan_config calc_vlan_op_state_n_reason
  handle_vlan_config-Handled db row r vlan db' v n e h = record {
    counted = ground (arith);
    unchanged = ground (arith);
    kept = ground (arith);
    written = ground (arith);
    internal = ground (arith);
    current = ground (arith);
    same = ground (arith);
  }

  handle_total :
      (db : Db) (row : ℕ) (r : VlanRow) (vlan : VlanData)
      → find_vlan row db.vlans ≡ some r
      → handle_vlan_config E db row vlan ≢ none
  unfolding handle_vlan_config
  handle_total db row r vlan e = ground (arith)

  -- `handle_vlan_config` faults exactly if the row is gone, and otherwise returns 0 or 1. It returns
  -- 0 only where it left the database as it was, and 1 only for a row that is not in internal use,
  -- whose three status columns it then wrote, and nothing else; for a row in internal use it changes
  -- nothing. Otherwise the VLAN ends with the state and reason that are computed for it, and nothing
  -- but these and `any_member_exists` changes in it.
  pub handle_vlan_config_lem :
      (db : Db) (row : ℕ) (vlan : VlanData)
      → ((find_vlan row db.vlans ≡ none) × (handle_vlan_config E db row vlan ≡ none))
        ⊎ ((r : VlanRow) × (db' : Db) × (v : VlanData) × (n : ℕ) × (find_vlan row db.vlans ≡ some r)
            × (handle_vlan_config E db row vlan ≡ some (db', v, n))
            × Handled db row r vlan db' v n)
  handle_vlan_config_lem db row vlan = elim (Option-cases (find_vlan row db.vlans)) [
    | inl gone ↦ inl (gone, unfold handle_vlan_config in ground arith)
    | inr (r, e) ↦ elim (Option-cases (handle_vlan_config E db row vlan)) [
      | inl h ↦ absurd (handle_total db row r vlan e h)
      | inr ((db', v, n), h) ↦
          inr (r, db', v, n, e, h, handle_vlan_config-Handled db row r vlan db' v n e h)
    ]
  ]

  -- The row's status columns show the cached state and reason.
  pub record Shows (v : VlanData) (r : VlanRow) : Type 0 where
    pub hw : r.hw_vlan_config ≡ hw_config E v.op_state
    pub state : r.oper_state ≡ some (vlan_oper_state_to_str E.strings v.op_state)
    pub reason :
        r.oper_state_reason ≡ some (vlan_oper_state_reason_to_str E.strings v.op_state_reason)

  Shows-kept :
      (db : Db) (row : ℕ) (r : VlanRow) (vlan : VlanData) (db' : Db) (v : VlanData)
      → r.l3port ≡ none
      → Shows vlan r ⊎ (vlan.op_state ≡ OperState.unknown)
      → Handled db row r vlan db' v 0
      → Shows v r
  Shows-kept db row r vlan db' v i (inl s) hd =
      ground (arith, hd.kept refl, s.hw, s.state, s.reason)
  Shows-kept db row r vlan db' v i (inr u) hd =
      ground (arith, hd.kept refl, hd.current i, calc_vlan_op_state_n_reason-ne-unknown db vlan)

  Shows-after :
      (db : Db) (row : ℕ) (r : VlanRow) (vlan : VlanData) (db' : Db) (v : VlanData) (n : ℕ)
      → find_vlan row db.vlans ≡ some r
      → r.l3port ≡ none
      → Shows vlan r ⊎ (vlan.op_state ≡ OperState.unknown)
      → Handled db row r vlan db' v n
      → ((r' : VlanRow) × (find_vlan row db'.vlans ≡ some r') × Shows v r')
        × ((w : ℕ) → w ≢ row → find_vlan w db'.vlans ≡ find_vlan w db.vlans)
  Shows-after db row r vlan db' v zero e i s hd =
      rw (hd.unchanged refl) ((r, e, Shows-kept db row r vlan db' v i s hd), λ w ne. refl)
  Shows-after db row r vlan db' v (suc zero) e i s hd = rw (hd.written refl).0 (
    (
      write_status E v.op_state v.op_state_reason r,
      ground (
        arith,
        find_vlan-put_vlan row row (write_status E v.op_state v.op_state_reason) r db.vlans
            (λ x. refl) e,
      ),
      record { hw = refl; state = refl; reason = refl },
    ),
    λ w ne. ground (
      arith,
      find_vlan-put_vlan row w (write_status E v.op_state v.op_state_reason) r db.vlans (λ x. refl)
          e,
    ),
  )
  Shows-after db row r vlan db' v (suc (suc n)) e i s hd = absurd (omega (arith, hd.counted))

  -- After a call at a row that is not in internal use, the row shows the VLAN's state and reason, if
  -- it did before or if the VLAN's state was still unknown; every other row is what it was.
  pub handle_vlan_config-Shows :
      (db : Db) (row : ℕ) (r : VlanRow) (vlan : VlanData) (db' : Db) (v : VlanData) (n : ℕ)
      → find_vlan row db.vlans ≡ some r
      → r.l3port ≡ none
      → Shows vlan r ⊎ (vlan.op_state ≡ OperState.unknown)
      → handle_vlan_config E db row vlan ≡ some (db', v, n)
      → ((r' : VlanRow) × (find_vlan row db'.vlans ≡ some r') × Shows v r')
        × ((w : ℕ) → w ≢ row → find_vlan w db'.vlans ≡ find_vlan w db.vlans)
  handle_vlan_config-Shows db row r vlan db' v n e i s h =
      Shows-after db row r vlan db' v n e i s (handle_vlan_config-Handled db row r vlan db' v n e h)

  handle_again :
      (db : Db) (row : ℕ) (r : VlanRow) (vlan : VlanData) (db' : Db) (v : VlanData) (n : ℕ)
      → find_vlan row db.vlans ≡ some r
      → handle_vlan_config E db row vlan ≡ some (db', v, n)
      → handle_vlan_config E db' row v ≡ some (db', v, 0)
  unfolding handle_vlan_config
  handle_again db row r vlan db' v n e h =
      let (v1, state, reason) = calc_vlan_op_state_n_reason db vlan in
      let f = write_status E state reason in
      let seen = calc_vlan_op_state_n_reason_again db vlan in
      ground (
        arith,
        find_vlan-put_vlan row row f r db.vlans (λ x. refl) e,
        calc_vlan_op_state_n_reason-put_vlan row f db
            (record v1 { op_state = state; op_state_reason = reason }) (λ x. refl),
        seen state reason,
        seen vlan.op_state vlan.op_state_reason,
        same_state_refl state,
        same_reason_refl reason,
      )

  -- A second call right after the first changes nothing and returns 0.
  pub handle_vlan_config_again :
      (db : Db) (row : ℕ) (vlan : VlanData) (db' : Db) (v : VlanData) (n : ℕ)
      → handle_vlan_config E db row vlan ≡ some (db', v, n)
      → handle_vlan_config E db' row v ≡ some (db', v, 0)
  handle_vlan_config_again db row vlan db' v n h = elim (handle_vlan_config_lem db row vlan) [
    | inl (gone, fault) ↦ ground (arith)
    | inr (r, _, _, _, e, _, _) ↦ handle_again db row r vlan db' v n e h
  ]
