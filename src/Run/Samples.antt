-- ===== src/Run/Samples.antt =====
-- The daemon's first turn on a database with the default VLAN.
use vland.Common.{ℕ, Bool, none, some, [], ◌∷◌}
use vland.Idl.{Db}
use vland.Samples.{vlan_row, env, turn, start, db, daemon_code}
use vland.State.{State}
use vland.Run.{Turn, vland_run}
use vland.Run.Main.{vland_ovsdb_init}

-- The database with its default VLAN, and the daemon's first turn on it.
abbrev pub full_db : Db
full_db = record db {
  vlans = vlan_row ∷ record vlan_row { uuid = 1; name = "DEFAULT_VLAN_1"; id = 1 } ∷ [];
}

abbrev pub full_turn : Turn
full_turn = record turn { received = full_db }

abbrev pub early_db : Db
early_db = record db { seqno = 3; vlans = []; ports = [] }

abbrev pub first : State (ℕ → Bool)
unfolding daemon_code vland_ovsdb_init
first = elim (vland_run env full_turn (vland_ovsdb_init env early_db)) [ none ↦ start | some s ↦ s ]
