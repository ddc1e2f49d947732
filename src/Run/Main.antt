-- ===== src/Run/Main.antt =====
-- The main loop of src/vland.c, from the start of the daemon on, with the commands of ovs-appctl.
use vland.Common.{Bool, true, false, none, some, List, [], ◌∷◌}
use vland.Idl.{Db}
use vland.External.{Env}
use vland.State.{State}
use vland.Run.{Turn, vland_run}

-- The commands that the daemon registers.
pub data Command : Type 0 where
  exit dump : Command

-- One round of the loop: what the IDL does in it, and the commands that `unixctl_server_run` finds.
pub record Round : Type 0 where
  pub turn : Turn
  pub commands : List Command

-- The loop after some rounds: it has ended, with the rounds that it did not run, it blocks in
-- `poll_block`, or it has faulted.
pub data Loop (S : Type 0) : Type 0 where
  exited : S → List Round → Loop S
  polling : S → Loop S
  faulted : Loop S

-- `exiting` after the commands of a round.
unfoldable pub run_commands : List Command → Bool → Bool
run_commands [] exiting = exiting
run_commands (exit ∷ commands) exiting = run_commands commands true
run_commands (dump ∷ commands) exiting = run_commands commands exiting

module _ (E : Env) where
  open E use {bitmaps}
  open bitmaps use {Bitmap, bitmap_allocate}

  -- The state after `vland_ovsdb_init`, with the replica of a new connection.
  unfoldable pub vland_ovsdb_init : Db → State Bitmap
  vland_ovsdb_init db = record {
    idl = db;
    idl_seqno = db.seqno;
    system_configured = false;
    default_vlan_created = false;
    all_ports = [];
    all_vlans = [];
    all_vlans_bitmap = bitmap_allocate;
  }

  -- `while (!exiting)`
  unfoldable pub main_loop : List Round → State Bitmap → Bool → Loop (State Bitmap)
  unfolding run_commands
  main_loop rounds s true = exited s rounds
  main_loop [] s false = polling s
  main_loop (round ∷ rounds) s false = elim (vland_run E round.turn s) [
    | none ↦ faulted
    | some s' ↦ main_loop rounds s' (run_commands round.commands false)
  ]

  unfoldable pub main : Db → List Round → Loop (State Bitmap)
  unfolding vland_ovsdb_init main_loop
  main db rounds = main_loop rounds (vland_ovsdb_init db) false
