-- ===== src/Run/Committed.antt =====
-- What the VLAN rows show over whole turns, where each transaction of the daemon takes effect and no
-- one else writes the status columns.
mod Tests
use vland.Common.{
  sym, ℕ, String, ◌≡◌, ◌∙◌, refl, ◌||◌, not, some, List, [], All, arith, ◌==◌, if◌then◌else◌, find,
  Bool-cases, inl, inr,
}
use vland.Idl.{Db, VlanRow, find_vlan}
use vland.External.{Env, LinkLaws}
use vland.State.{VlanData, State}
use vland.State.Loop.{>>=-eq-some}
use vland.Vlan.Config.{Shows}
use vland.Cache.Display.{IsShown, Displays}
use vland.Cache.Display.Update.{HaveUuids, IsSameRow}
use vland.Run.{
  Turn, vland_reconfigure, vland_chk_for_system_configured, transact, locked_run, vland_run,
}
use vland.Run.Main.{vland_ovsdb_init}
use vland.Run.Mirror.{settled}
use vland.Run.Reconfigure.{vland_reconfigure_lem}
use vland.Run.Registry.{taken, settled-caches}
use vland.Run.Display.{vland_reconfigure-Displays}

-- Two versions of a row that differ at most in its ID, its description and its admin column.
pub record SameShown (r r' : VlanRow) : Type 0 where
  pub name : r'.name ≡ r.name
  pub l3port : r'.l3port ≡ r.l3port
  pub hw : r'.hw_vlan_config ≡ r.hw_vlan_config
  pub state : r'.oper_state ≡ r.oper_state
  pub reason : r'.oper_state_reason ≡ r.oper_state_reason

module _ (E : Env) where
  open E use {bitmaps}
  open bitmaps use {Bitmap}

  -- The rows of the cached VLANs are those of the state, and show the same.
  abbrev pub Continues : State Bitmap → List VlanRow → Type 0
  Continues s rows =
      (k : String) (v : VlanData) (r' : VlanRow)
      → find k s.all_vlans ≡ some v
      → find_vlan v.idl_cfg rows ≡ some r'
      → (r : VlanRow) × (find_vlan v.idl_cfg s.idl.vlans ≡ some r) × SameShown r r'

  -- A turn in which the daemon's writes take effect and no one else writes the status columns.
  pub record IsOwn (t : Turn) (s : State Bitmap) : Type 0 where
    pub received : Continues s t.received.vlans
    pub settled_rows : Continues s (taken E t s).vlans
    pub uuids : HaveUuids (taken E t s).vlans
    pub same : All (IsSameRow s.all_vlans) (taken E t s).vlans
    pub committed : (a b : Db) → (t.after_commit a b).vlans ≡ b.vlans

  -- The states after any number of such turns.
  pub data Committed (db : Db) : State Bitmap → Type 0 where
    start : Committed db (vland_ovsdb_init E db)
    next :
        {s s' : State Bitmap} (t : Turn)
        → Committed db s
        → IsOwn t s
        → vland_run E t s ≡ some s'
        → Committed db s'

  same-Displays :
      (s t : State Bitmap)
      → t.all_vlans ≡ s.all_vlans
      → t.idl.vlans ≡ s.idl.vlans
      → Displays E s
      → Displays E t
  same-Displays s t p q d = record {
    unique = rw p d.unique;
    each = λ k v r f g. d.each k v r (ground (arith, f, p)) (ground (arith, g, q));
  }

  IsShown-SameShown :
      (v : VlanData) (r r' : VlanRow) → SameShown r r' → IsShown E v r → IsShown E v r'
  IsShown-SameShown v r r' h (inl s) =
      inl (record { hw = h.hw ∙ s.hw; state = h.state ∙ s.state; reason = h.reason ∙ s.reason })
  IsShown-SameShown v r r' h (inr u) = inr u

  Continues-Displays :
      (s t : State Bitmap)
      → t.all_vlans ≡ s.all_vlans
      → Continues s t.idl.vlans
      → Displays E s
      → Displays E t
  Continues-Displays s t p c d = record {
    unique = rw p d.unique;
    each = λ k v r' f g.
        let f' : find k s.all_vlans ≡ some v = ground (arith, f, p) in
        let (r, old, same) = c k v r' f' g in
        let (named, shown) = d.each k v r f' old in
        (same.name ∙ named, λ i. IsShown-SameShown v r r' same (shown (sym same.l3port ∙ i)));
  }

  module _ (L : LinkLaws E) where
    transact-Displays :
        (t : Turn) (s s' : State Bitmap)
        → ((a b : Db) → (t.after_commit a b).vlans ≡ b.vlans)
        → HaveUuids s.idl.vlans
        → All (IsSameRow s.all_vlans) s.idl.vlans
        → Displays E s
        → transact E t s ≡ some s'
        → Displays E s'
    unfolding transact
    transact-Displays t s s' committed uuids same d e =
        let ((u, n), e1, last) = >>=-eq-some (vland_reconfigure E s) _ e in
        let p : s' ≡ record u { idl = if n == 0 then s.idl else t.after_commit s.idl u.idl } =
          ground arith in
        let quiet = (vland_reconfigure_lem E s u n e1).quiet in
        let rows : s'.idl.vlans ≡ u.idl.vlans = elim (Bool-cases (n == 0)) [
          | inl z ↦ ground (arith, p, z, quiet)
          | inr w ↦ ground (arith, p, w, committed s.idl u.idl)
        ] in
        same-Displays u s' (ground (arith, p)) rows
          (vland_reconfigure-Displays E L s u n uuids same d e1)

    -- A turn of the daemon keeps that the rows show the status of the cached VLANs.
    vland_run-Displays :
        (t : Turn) (s s' : State Bitmap)
        → IsOwn t s
        → Displays E s
        → vland_run E t s ≡ some s'
        → Displays E s'
    unfolding vland_run locked_run
    vland_run-Displays t s s' h d e =
        let s1 = record s { idl = t.received } in
        let d1 = Continues-Displays s s1 refl h.received d in
        let u = settled E t s1 in
        let c = (settled-caches E t s1).1 in
        let du = Continues-Displays s u c h.settled_rows d in
        let held = not (t.is_lock_contended || not t.has_lock) in
        elim (Bool-cases held) [
          | inr out ↦ let p : s' ≡ s1 = ground (arith, out) in rw p d1
          | inl in_hand ↦
              elim (Bool-cases (vland_chk_for_system_configured E s1).system_configured) [
                | inl ready ↦
                    transact-Displays t u s' h.committed h.uuids (rw c h.same) du
                      (ground (arith, in_hand, ready))
                | inr early ↦
                    let w = vland_chk_for_system_configured E s1 in
                    let p : s' ≡ w = ground (arith, in_hand, early) in
                    let same : (w.all_vlans ≡ s1.all_vlans) × (w.idl.vlans ≡ s1.idl.vlans) =
                      unfold vland_chk_for_system_configured in ground arith in
                    rw p (same-Displays s1 w same.0 same.1 d1)
              ]
        ]

    -- In every state that the daemon reaches by turns whose transactions take effect, the rows show the
    -- status of the cached VLANs: where the database has the row that a cached VLAN was read from, and
    -- the row is not in internal use, its status columns are those of the VLAN's state and reason,
    -- unless these are not computed yet; the row has the VLAN's name, and there is one node to a name.
    -- In each turn the replica after a transaction has the VLAN rows that the daemon wrote; the row of a
    -- cached VLAN, as received and with the default VLAN created, was there before and differs from
    -- that at most in its ID, description and admin column; no two VLAN rows have one uuid; and a row of
    -- a cached VLAN's name is the one that the VLAN was read from. The hash table keeps its documented
    -- behaviour.
    pub Committed-Displays : {db : Db} {s : State Bitmap} → Committed db s → Displays E s
    unfolding vland_ovsdb_init
    Committed-Displays start = record { unique = tt; each = λ k v r f g. cc }
    Committed-Displays (next {s} {s'} t r h e) =
        vland_run-Displays t s s' h (Committed-Displays r) e
