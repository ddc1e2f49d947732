-- ===== src/Run/Tests.antt =====
-- Turns of the daemon on concrete databases.
use vland.Common.{
  ℕ, String, ◌≡◌, ◌≢◌, ◌↔◌, ◌⊎◌, refl, inr, Bool, true, false, Option, none, some, List, [], ◌∷◌,
  map, arith,
}
use vland.Idl.{Db, VlanRow}
use vland.Run.Samples.{full_db, full_turn, early_db, first}
use vland.Samples.{env, env-laws, turn, start, running, reconfigured, db, daemon_code}
use vland.State.{State}
use vland.Vlan.{default_vid, has_vlan_id}
use vland.Run.{Turn, TxnStatus, is_done, find_bridge, create_default_vlan, vland_run}
use vland.Run.Retry.{run_turns_idle}
use vland.Run.Reconfigure.{Reconfigured, vland_reconfigure_lem}
use vland.Run.Main.{exit, dump, Round, vland_ovsdb_init, main_loop}
use vland.Run.Mirror.{Mirrors}
use vland.Run.Reach.{Reachable, run_turns, ends, polls, main_loop-run_turns, Reachable-Mirrors}
use vland.Run.Default.{create_default_vlan_lem}

abbrev statuses : Option (State (ℕ → Bool)) → Option (List (Option String × Option String))
statuses none = none
statuses (some s) = some (map (λ (r : VlanRow). (r.oper_state, r.oper_state_reason)) s.idl.vlans)

-- The first turn writes the state of VLAN 10, which has two member ports.
first_turn : statuses (vland_run env turn start) ≡ some ((some "up", some "ok") ∷ [])
unfolding daemon_code
first_turn = refl

-- A batch that takes the port and its VLAN away together: the turn reads a row that is gone.
abbrev emptied : Turn
emptied = record turn { received = record db { ports = []; vlans = []; seqno = 8 } }

deleted_together : vland_run env emptied running ≡ none
unfolding daemon_code
deleted_together = refl

abbrev empty_db : Db
empty_db = record db { vlans = [] }

-- The transaction of the turn fails, and the same database is received again, without and with the lock.
abbrev failing : Turn
failing = record full_turn { commit_status = TxnStatus.other; after_commit = λ a b. a }

abbrev failed : State (ℕ → Bool)
unfolding daemon_code vland_ovsdb_init
failed = elim (vland_run env failing (vland_ovsdb_init env early_db)) [ none ↦ start | some s ↦ s ]

abbrev again : List Round
again =
    (record { turn = record full_turn { has_lock = false }; commands = [] })
    ∷ (record { turn = full_turn; commands = [] })
    ∷ []

run_turns_idle_example : run_turns env again failed ≡ some (record failed { idl = full_db })
unfolding daemon_code vland_ovsdb_init
run_turns_idle_example =
    run_turns_idle env failing (vland_ovsdb_init env early_db) failed again refl refl (inr refl)
      (inr refl) refl (refl, (refl, tt))

vland_reconfigure_lem_example : Reconfigured env start reconfigured 1
unfolding daemon_code
vland_reconfigure_lem_example = vland_reconfigure_lem env start reconfigured 1 refl

create_default_vlan_lem_example :
    let (s', created) = create_default_vlan env turn start in
    let found = has_vlan_id default_vid db.vlans in
    let bridge = find_bridge "bridge_normal" db.bridges in
    ((created ≡ true) ↔ ((found ≡ false) × (bridge ≢ none)))
    × (created ≡ false → s'.idl ≡ db)
    × ((s'.default_vlan_created ≡ true) ↔ (
        (start.default_vlan_created ≡ true)
        ⊎ (found ≡ true)
        ⊎ ((created ≡ true) × (is_done TxnStatus.success ≡ true))))
create_default_vlan_lem_example = create_default_vlan_lem env turn start

Reachable-Mirrors_example : Mirrors env full_db first × (first.idl_seqno ≡ 7)
unfolding daemon_code vland_ovsdb_init
Reachable-Mirrors_example =
    Reachable-Mirrors env env-laws early_db (vland_ovsdb_init env early_db) first full_turn
      Reachable.start refl refl (inr refl) (inr refl) (ground arith) refl

abbrev quiet_round : Round
quiet_round = record { turn = turn; commands = dump ∷ [] }

abbrev last_round : Round
last_round = record { turn = turn; commands = dump ∷ exit ∷ dump ∷ [] }

main_loop-run_turns_example :
    (main_loop env (quiet_round ∷ []) start false
      ≡ polls env (run_turns env (quiet_round ∷ []) start))
    × (main_loop env (quiet_round ∷ last_round ∷ quiet_round ∷ []) start false
        ≡ ends env (run_turns env (quiet_round ∷ last_round ∷ []) start) (quiet_round ∷ []))
main_loop-run_turns_example =
    main_loop-run_turns env (quiet_round ∷ []) (quiet_round ∷ []) last_round start (refl, tt) refl
