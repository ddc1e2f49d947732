-- ===== src/Run/Reach.antt =====
-- The states that the main loop reaches, and how it ends.
use vland.Common.{
  ◌≡◌, ◌≢◌, ◌⊎◌, ◌||◌, refl, Bool, true, false, Option, none, some, List, [], ◌∷◌, ◌++◌, All, arith,
  Option-cases, inl, inr,
}
use vland.Idl.{Db}
use vland.External.{Env, LinkLaws}
use vland.State.{State}
use vland.Vlan.{default_vid, has_vlan_id}
use vland.Run.{Turn, is_configured, vland_run}
use vland.Run.Main.{
  Command, exit, dump, Round, Loop, exited, polling, faulted, run_commands, vland_ovsdb_init,
  main_loop,
}
use vland.Run.Mirror.{IsTidy, Mirrors, vland_run-IsTidy, vland_run-Mirrors}

-- Whether a round has the command "exit".
abbrev pub asks_exit : List Command → Bool
asks_exit [] = false
asks_exit (exit ∷ commands) = true
asks_exit (dump ∷ commands) = asks_exit commands

run_commands-asks_exit :
    (commands : List Command) (exiting : Bool)
    → run_commands commands exiting ≡ (exiting || asks_exit commands)
unfolding run_commands
run_commands-asks_exit [] exiting = ground arith
run_commands-asks_exit (exit ∷ commands) exiting =
    ground (arith, run_commands-asks_exit commands true)
run_commands-asks_exit (dump ∷ commands) exiting = run_commands-asks_exit commands exiting

module _ (E : Env) where
  open E use {bitmaps}
  open bitmaps use {Bitmap}

  -- The states after any number of turns.
  pub data Reachable (db : Db) : State Bitmap → Type 0 where
    start : Reachable db (vland_ovsdb_init E db)
    next :
        {s s' : State Bitmap} (t : Turn)
        → Reachable db s
        → vland_run E t s ≡ some s'
        → Reachable db s'

  pub init-IsTidy : (db : Db) → IsTidy E (vland_ovsdb_init E db)
  unfolding vland_ovsdb_init
  init-IsTidy db = record { ports = tt; vlans = tt; no_bridge = refl }

  -- The turns of some rounds, one after the other.
  unfoldable pub run_turns : List Round → State Bitmap → Option (State Bitmap)
  run_turns [] s = some s
  run_turns (round ∷ rounds) s = elim (vland_run E round.turn s) [
    | none ↦ none
    | some s' ↦ run_turns rounds s'
  ]

  -- The loop that ends after its turns, and the loop that goes on.
  abbrev pub ends : Option (State Bitmap) → List Round → Loop (State Bitmap)
  ends none rest = faulted
  ends (some s) rest = exited s rest

  abbrev pub polls : Option (State Bitmap) → Loop (State Bitmap)
  polls none = faulted
  polls (some s) = polling s

  -- The main loop runs the turns of its rounds in order. Where no round has the command "exit" it
  -- polls after the last one. Otherwise it ends after the first round that has it, once the turn of
  -- that round has run, and runs no later one. It ends before only with a fault of a turn.
  pub main_loop-run_turns :
      (before rest : List Round) (last : Round) (s : State Bitmap)
      → All (λ round. asks_exit round.commands ≡ false) before
      → asks_exit last.commands ≡ true
      → (main_loop E before s false ≡ polls (run_turns before s))
        × (main_loop E (before ++ last ∷ rest) s false
            ≡ ends (run_turns (before ++ (last ∷ [])) s) rest)
  unfolding main_loop run_turns
  main_loop-run_turns [] rest last s quiet stop = elim (Option-cases (vland_run E last.turn s)) [
    | inl e ↦ ground (arith, e)
    | inr (s', e) ↦ ground (arith, e, run_commands-asks_exit last.commands false)
  ]
  main_loop-run_turns (round ∷ before) rest last s quiet stop =
      elim (Option-cases (vland_run E round.turn s)) [
        | inl e ↦ ground (arith, e)
        | inr (s', e) ↦ ground (
          arith,
          e,
          quiet.0,
          run_commands-asks_exit round.commands false,
          main_loop-run_turns before rest last s' quiet.1 stop,
        )
      ]

  Reachable-run_turns :
      (db : Db) (rounds : List Round) (s s' : State Bitmap)
      → Reachable db s
      → run_turns rounds s ≡ some s'
      → Reachable db s'
  unfolding run_turns
  Reachable-run_turns db [] s s' r e = let p : s' ≡ s = ground arith in rw p r
  Reachable-run_turns db (round ∷ rounds) s s' r e =
      elim (Option-cases (vland_run E round.turn s)) [
        | inl f ↦ ground (arith, f)
        | inr (u, f) ↦ Reachable-run_turns db rounds u s' (next round.turn r f) (ground (arith, f))
      ]

  module _ (L : LinkLaws E) where
    -- In every state that the daemon reaches, the caches have one node to a name, and no node for the
    -- default bridge's own port. The hash table keeps its documented behaviour.
    pub Reachable-IsTidy : {db : Db} {s : State Bitmap} → Reachable db s → IsTidy E s
    Reachable-IsTidy {db} start = init-IsTidy db
    Reachable-IsTidy (next {s} {s'} t r e) = vland_run-IsTidy E L t s s' (Reachable-IsTidy r) e

    -- In every state that the daemon reaches, a turn that has the lock takes over a database that has
    -- changed, if it does not fault: after it the names of the cached VLANs are those of the VLAN
    -- table, the names of the cached ports those of the Port table but for the default bridge's own
    -- port, and the sequence number is that of the database. The system is configured, and the default
    -- VLAN was seen before or is in the database. The hash table keeps its documented behaviour.
    pub Reachable-Mirrors :
        (db : Db) (s s' : State Bitmap) (t : Turn)
        → Reachable db s
        → t.is_lock_contended ≡ false
        → t.has_lock ≡ true
        → (s.system_configured ≡ true) ⊎ (is_configured t.received.system ≡ true)
        → (s.default_vlan_created ≡ true) ⊎ (has_vlan_id default_vid t.received.vlans ≡ true)
        → t.received.seqno ≢ s.idl_seqno
        → vland_run E t s ≡ some s'
        → Mirrors E t.received s' × (s'.idl_seqno ≡ t.received.seqno)
    Reachable-Mirrors db s s' t r free held c d ne e =
        vland_run-Mirrors E L t s s' (Reachable-IsTidy r) free held c d ne e
