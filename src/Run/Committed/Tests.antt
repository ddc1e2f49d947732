-- ===== src/Run/Committed/Tests.antt =====
-- Turns whose transactions take effect, on concrete inputs.
use vland.Common.{
  ℕ, String, ◌≡◌, refl, Bool, true, is_some, Option, none, some, List, [], ◌∷◌, map, arith,
}
use vland.Idl.{VlanRow}
use vland.Run.Samples.{full_turn, early_db, first}
use vland.Samples.{env, env-laws, turn, start, daemon_code}
use vland.State.{State}
use vland.Cache.Display.{Displays}
use vland.Run.{Turn, vland_run}
use vland.Run.Main.{vland_ovsdb_init}
use vland.Run.Committed.{SameShown, IsOwn, Committed, Committed-Displays}

-- After the first turn its writes come back, and the ports are gone.
abbrev next_turn : Turn
next_turn = record turn { received = record first.idl { seqno = 8; ports = [] } }

abbrev second : State (ℕ → Bool)
unfolding daemon_code vland_ovsdb_init
second = elim (vland_run env next_turn first) [ none ↦ start | some s ↦ s ]

abbrev states : State (ℕ → Bool) → List (Option String)
states s = map (λ (r : VlanRow). r.oper_state) s.idl.vlans

both_states :
    (states first ≡ some "up" ∷ some "up" ∷ []) × (states second ≡ some "down" ∷ some "up" ∷ [])
unfolding daemon_code vland_ovsdb_init
both_states = (refl, refl)

full_turn-IsOwn : IsOwn env full_turn (vland_ovsdb_init env early_db)
unfolding daemon_code vland_ovsdb_init
full_turn-IsOwn = record {
  received = λ k v r f g. cc;
  settled_rows = λ k v r f g. cc;
  uuids = (refl, (refl, tt));
  same = ((λ v e. cc), ((λ v e. cc), tt));
  committed = λ a b. refl;
}

same_row : (r : VlanRow) → SameShown r r
same_row r = record { name = refl; l3port = refl; hw = refl; state = refl; reason = refl }

next_turn-IsOwn : IsOwn env next_turn first
unfolding daemon_code vland_ovsdb_init
next_turn-IsOwn = record {
  received = λ k v r f g. (r, g, same_row r);
  settled_rows = λ k v r f g. (r, g, same_row r);
  uuids = (refl, (refl, tt));
  same = ((λ v e. ground (arith, e)), ((λ v e. ground (arith, e)), tt));
  committed = λ a b. refl;
}

first-Committed : Committed env early_db first
unfolding daemon_code vland_ovsdb_init
first-Committed = Committed.next full_turn Committed.start full_turn-IsOwn refl

-- A run that gives a state gives the one that is taken out of it.
ran :
    (o : Option (State (ℕ → Bool))) (d : State (ℕ → Bool))
    → is_some o ≡ true
    → o ≡ some (elim o [ none ↦ d | some s ↦ s ])
ran none d e = cc
ran (some s) d e = refl

runs : is_some (vland_run env next_turn first) ≡ true
unfolding daemon_code vland_ovsdb_init
runs = refl

next_run : vland_run env next_turn first ≡ some second
unfolding second vland_run
next_run = ran (vland_run env next_turn first) start runs

second-Committed : Committed env early_db second
second-Committed = Committed.next next_turn first-Committed next_turn-IsOwn next_run

Committed-Displays_example : Displays env second
Committed-Displays_example = Committed-Displays env env-laws second-Committed
