-- ===== src/Run/Retry.antt =====
-- Turns that follow one whose transaction may have failed, in src/vland_ovsdb_if.c.
use vland.Common.{
  ◌≡◌, ◌∙◌, ◌⊎◌, refl, true, false, some, List, [], ◌∷◌, ◌==◌, All, arith, sym, ap, if◌then◌else◌,
}
use vland.Idl.{Db}
use vland.External.{Env}
use vland.State.{State}
use vland.State.Loop.{>>=-eq-some}
use vland.Vlan.{default_vid, has_vlan_id}
use vland.Run.{
  Turn, is_configured, vland_reconfigure, vland_chk_for_system_configured, create_default_vlan,
  transact, locked_run, vland_run,
}
use vland.Run.Main.{Round}
use vland.Run.Mirror.{settled, settled-idl, chk-configured}
use vland.Run.Reach.{run_turns}
use vland.Run.Reconfigure.{vland_reconfigure_lem}
use vland.Run.Gate.{vland_run_idle}

-- What the last of some turns received.
abbrev pub last_received : List Round → Db → Db
last_received [] db = db
last_received (round ∷ rounds) db = last_received rounds round.turn.received

module _ (E : Env) where
  open E use {bitmaps}
  open bitmaps use {Bitmap}

  -- The state has taken over a database of the sequence number, in a configured system.
  record IsDone (db : Db) (s : State Bitmap) : Type 0 where
    configured : s.system_configured ≡ true
    created : s.default_vlan_created ≡ true
    seqno : s.idl_seqno ≡ db.seqno

  settled-flags :
      (t : Turn) (s : State Bitmap)
      → (s.system_configured ≡ true) ⊎ (is_configured s.idl.system ≡ true)
      → (s.default_vlan_created ≡ true) ⊎ (has_vlan_id default_vid s.idl.vlans ≡ true)
      → ((settled E t s).system_configured ≡ true) × ((settled E t s).default_vlan_created ≡ true)
  unfolding vland_chk_for_system_configured create_default_vlan
  settled-flags t s c d = ground arith

  transact-IsDone :
      (t : Turn) (s s' : State Bitmap)
      → s.system_configured ≡ true
      → s.default_vlan_created ≡ true
      → transact E t s ≡ some s'
      → IsDone s.idl s'
  unfolding transact
  transact-IsDone t s s' c d e =
      let ((u, n), e1, last) = >>=-eq-some (vland_reconfigure E s) _ e in
      let p : s' ≡ record u { idl = if n == 0 then s.idl else t.after_commit s.idl u.idl } =
        ground arith in
      let r = vland_reconfigure_lem E s u n e1 in
      record {
        configured = ground (arith, p, r.configured, c);
        created = ground (arith, p, r.created, d);
        seqno = ground (arith, p, r.seqno);
      }

  vland_run-IsDone :
      (t : Turn) (s s' : State Bitmap)
      → t.is_lock_contended ≡ false
      → t.has_lock ≡ true
      → (s.system_configured ≡ true) ⊎ (is_configured t.received.system ≡ true)
      → (s.default_vlan_created ≡ true) ⊎ (has_vlan_id default_vid t.received.vlans ≡ true)
      → vland_run E t s ≡ some s'
      → IsDone t.received s'
  unfolding vland_run locked_run
  vland_run-IsDone t s s' free held c d e =
      let s1 = record s { idl = t.received } in
      let s2 = settled E t s1 in
      let run : transact E t s2 ≡ some s' = ground (arith, chk-configured E s1 c) in
      let (f, g) = settled-flags t s1 c d in
      let h = transact-IsDone t s2 s' f g run in
      record {
        configured = h.configured;
        created = h.created;
        seqno = h.seqno ∙ ap (λ (x : Db). x.seqno) (settled-idl E t s1 d).0;
      }

  quiet_turns :
      (db : Db) (rounds : List Round) (s : State Bitmap)
      → IsDone db s
      → All (λ round. round.turn.received.seqno ≡ db.seqno) rounds
      → run_turns E rounds s ≡ some (record s { idl = last_received rounds s.idl })
  unfolding run_turns
  quiet_turns db [] s h q = refl
  quiet_turns db (round ∷ rounds) s h q =
      let s1 = record s { idl = round.turn.received } in
      let step = vland_run_idle E round.turn s h.configured h.created (q.0 ∙ sym h.seqno) in
      let done : IsDone db s1 = record {
        configured = h.configured;
        created = h.created;
        seqno = h.seqno;
      } in
      rw (run_turns, step) (quiet_turns db rounds s1 done q.1)

  -- After a turn that had the lock and did not fault, whatever became of its transaction, any number of
  -- turns that receive databases of the sequence number that it received, with the lock or without,
  -- run without a fault and change nothing but the replica, which is afterwards just what the last of
  -- them received: they write nothing, also not what that transaction lost. At the first turn the
  -- system is configured, and the default VLAN was seen before or is in the database.
  pub run_turns_idle :
      (t : Turn) (s s' : State Bitmap) (rounds : List Round)
      → t.is_lock_contended ≡ false
      → t.has_lock ≡ true
      → (s.system_configured ≡ true) ⊎ (is_configured t.received.system ≡ true)
      → (s.default_vlan_created ≡ true) ⊎ (has_vlan_id default_vid t.received.vlans ≡ true)
      → vland_run E t s ≡ some s'
      → All (λ round. round.turn.received.seqno ≡ t.received.seqno) rounds
      → run_turns E rounds s' ≡ some (record s' { idl = last_received rounds s'.idl })
  run_turns_idle t s s' rounds free held c d e q =
      quiet_turns t.received rounds s' (vland_run-IsDone t s s' free held c d e) q
