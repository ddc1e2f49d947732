-- ===== src/Cache/Frame.antt =====
-- What the cache updates may write: of the database, the three status columns of VLAN rows only, and
-- nothing at all where they report no write.
pub mod Ports
pub mod Vlans
use vland.Common.{
  ℕ, zero, suc, ◌+◌, ◌≡◌, refl, ap, Bool, true, false, Option, none, some, List, [], ◌∷◌, arith,
  ◌==◌, Nodes, find, put, names, All₂, Bool-cases, inl, inr, is_some, if◌then◌else◌, ◌||◌, String,
  Option-cases, remove,
}
use vland.Idl.{Db, PortRow, VlanRow, put_vlan}
use vland.External.{Env}
use vland.State.{VlanData, State, ◌>>=◌, for_each}
use vland.State.Loop.{>>=-eq-some, for_each-rel}
use mathlib.Core.Path.{subst}
use vland.Vlan.{vlan_lookup_by_vid, write_status, handle_vlan_config, add_new_vlan, del_old_vlan}
use vland.Text.{admin_of}
use vland.Port.{construct_vlan_bitmap}
use vland.Vlan.Config.{Handled, handle_vlan_config_lem}
use vland.Cache.{
  configure, refresh, leave_vlan, del_old_port, drop_port, update_member, update_members,
  change_port, update_port_cache, drop_vlans, add_vlans, change_vlan, update_vlan_cache, once,
  collect_vlans, collect_ports, add_ports,
}

-- The columns that the daemon does not write.
abbrev pub SameConfig : VlanRow → VlanRow → Type 0
SameConfig r r' = r' ≡ record r {
  hw_vlan_config = r'.hw_vlan_config;
  oper_state = r'.oper_state;
  oper_state_reason = r'.oper_state_reason;
}

-- The database may differ in the status columns of VLAN rows.
pub record StatusOnly (db db' : Db) : Type 0 where
  pub rest : db' ≡ record db { vlans = db'.vlans }
  pub rows : All₂ SameConfig db.vlans db'.vlans

rows_refl : (rows : List VlanRow) → All₂ SameConfig rows rows
rows_refl [] = tt
rows_refl (r ∷ rows) = (refl, rows_refl rows)

rows_trans :
    (xs ys zs : List VlanRow)
    → All₂ SameConfig xs ys
    → All₂ SameConfig ys zs
    → All₂ SameConfig xs zs
rows_trans [] [] [] p q = tt
rows_trans (x ∷ xs) (y ∷ ys) (z ∷ zs) p q = (ground (arith, p.0, q.0), rows_trans xs ys zs p.1 q.1)
rows_trans [] [] (z ∷ zs) p q = elim q [ ]
rows_trans [] (y ∷ ys) zs p q = elim p [ ]
rows_trans (x ∷ xs) [] zs p q = elim p [ ]
rows_trans (x ∷ xs) (y ∷ ys) [] p q = elim q [ ]

rows_put :
    (u : ℕ) (f : VlanRow → VlanRow) (rows : List VlanRow)
    → ((r : VlanRow) → SameConfig r (f r))
    → All₂ SameConfig rows (put_vlan u f rows)
rows_put u f [] k = tt
rows_put u f (r ∷ rows) k = elim (Bool-cases (u == r.uuid)) [
  | inl hit ↦ rw hit (k r, rows_refl rows)
  | inr miss ↦ rw miss (refl, rows_put u f rows k)
]

module _ (E : Env) where
  open E use {bitmaps}
  open bitmaps use {Bitmap}

  -- What a step with the count `n` has kept.
  pub record Kept (s t : State Bitmap) (n : ℕ) : Type 0 where
    pub db : StatusOnly s.idl t.idl
    pub quiet : n ≡ 0 → t.idl ≡ s.idl
    pub seqno : t.idl_seqno ≡ s.idl_seqno
    pub configured : t.system_configured ≡ s.system_configured
    pub created : t.default_vlan_created ≡ s.default_vlan_created

  pub Kept-same :
      (s t : State Bitmap)
      → t.idl ≡ s.idl
      → t.idl_seqno ≡ s.idl_seqno
      → t.system_configured ≡ s.system_configured
      → t.default_vlan_created ≡ s.default_vlan_created
      → Kept s t 0
  Kept-same s t e a b c = record {
    db = record { rest = ground (arith); rows = rw e (rows_refl s.idl.vlans) };
    quiet = λ _. e;
    seqno = a;
    configured = b;
    created = c;
  }

  pub Kept-refl : (s : State Bitmap) → Kept s s 0
  Kept-refl s = Kept-same s s refl refl refl refl

  pub Kept-trans : (s t u : State Bitmap) (m n : ℕ) → Kept s t m → Kept t u n → Kept s u (m + n)
  Kept-trans s t u m n p q = record {
    db = record {
      rest = ground (arith, p.db.rest, q.db.rest);
      rows = rows_trans s.idl.vlans t.idl.vlans u.idl.vlans p.db.rows q.db.rows;
    };
    quiet = λ e. ground (arith, p.quiet, q.quiet);
    seqno = ground (arith, p.seqno, q.seqno);
    configured = ground (arith, p.configured, q.configured);
    created = ground (arith, p.created, q.created);
  }

  pub Kept-then : (s t u : State Bitmap) (n : ℕ) → Kept s t 0 → Kept t u n → Kept s u n
  Kept-then s t u n p q =
      let z : 0 + n ≡ n = omega arith in subst (Kept s u) z (Kept-trans s t u 0 n p q)

  pub Kept-stay :
      (s t : State Bitmap) (n : ℕ)
      → ◌≡◌ {A = Option (State Bitmap × ℕ)} (some (s, 0)) (some (t, n))
      → Kept s t n
  Kept-stay s t n e =
      let p : t ≡ s = ground arith in let q : n ≡ 0 = ground arith in rw (p, q) (Kept-refl s)

  pub Kept-loop :
      {A : Type 0} (f : A → State Bitmap → Option (State Bitmap × ℕ))
      → ((x : A) (s t : State Bitmap) (n : ℕ) → f x s ≡ some (t, n) → Kept s t n)
      → (xs : List A) (s t : State Bitmap) (n : ℕ) → for_each f xs s ≡ some (t, n)
      → Kept s t n
  Kept-loop = for_each-rel Kept Kept-refl Kept-trans

  Handled-StatusOnly :
      (db : Db) (row : ℕ) (r : VlanRow) (vlan : VlanData) (db' : Db) (v : VlanData) (n : ℕ)
      → Handled E db row r vlan db' v n
      → StatusOnly db db'
  Handled-StatusOnly db row r vlan db' v zero h = record {
    rest = ground (arith, h.unchanged refl);
    rows = rw (h.unchanged refl) (rows_refl db.vlans);
  }
  Handled-StatusOnly db row r vlan db' v (suc zero) h = rw (h.written refl).0 (record {
    rest = refl;
    rows = rows_put row (write_status E v.op_state v.op_state_reason) db.vlans (λ x. refl);
  })
  Handled-StatusOnly db row r vlan db' v (suc (suc n)) h = absurd (omega (arith, h.counted))

  -- A step that ends in `handle_vlan_config`, from a state with the same database.
  pub handle-Kept :
      (s : State Bitmap) (row : ℕ) (vlan : VlanData) (db' : Db) (v : VlanData) (n : ℕ)
      (vlans : Nodes VlanData)
      → handle_vlan_config E s.idl row vlan ≡ some (db', v, n)
      → Kept s (record s { idl = db'; all_vlans = vlans }) n
  handle-Kept s row vlan db' v n vlans e = elim (handle_vlan_config_lem E s.idl row vlan) [
    | inl (_, fault) ↦ ground (arith)
    | inr (r, db1, v1, n1, _, e1, h) ↦
        let p : db' ≡ db1 = ground (arith) in
        let q : n ≡ n1 = ground (arith) in
        rw (p, q)
          (record {
            db = Handled-StatusOnly s.idl row r vlan db1 v1 n1 h;
            quiet = h.unchanged;
            seqno = refl;
            configured = refl;
            created = refl;
          })
  ]

  pub Kept-once : (s t : State Bitmap) (n : ℕ) → Kept s t n → Kept s t (once n)
  Kept-once s t n h = record {
    db = h.db;
    quiet = λ e. h.quiet (ground arith);
    seqno = h.seqno;
    configured = h.configured;
    created = h.created;
  }
