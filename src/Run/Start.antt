-- ===== src/Run/Start.antt =====
-- The start of the daemon in src/vland.c: parse_options, the commands that main and vland_init
-- register with their handlers, and main up to its end.
use vland.Common.{
  ◌≡◌, refl, String, Bool, true, Option, none, some, List, [], ◌∷◌, arith, if◌then◌else◌,
}
use vland.Idl.{Db}
use vland.External.{Env}
use vland.State.{State}
use vland.Run.Dump.{DumpLine, vland_debug_dump}
use vland.Run.Main as Main
use vland.Run.Main.{Command, exit, dump, Round, Loop, run_commands}

-- What `getopt_long` returns. `platform` is an option of the daemon or the logging library, which
-- their macros handle; `unknown` is '?', and `other` anything that no case names.
pub data Opt : Type 0 where
  help platform unknown other : Opt
  unixctl : String → Opt

-- The ends of the process: `exit (EXIT_SUCCESS)`, `exit (EXIT_FAILURE)`, `abort ()`, `VLOG_FATAL`.
pub data Ending : Type 0 where
  success failure aborted fatal : Ending

-- The socket of the database, and the path for ovs-appctl.
pub data Parsed : Type 0 where
  ends : Ending → Parsed
  parsed : String → Option String → Parsed

-- The arguments that are no options.
parse_rest : String → List String → Option String → Parsed
parse_rest default_sock [] path = parsed default_sock path
parse_rest default_sock (sock ∷ []) path = parsed sock path
parse_rest default_sock (_ ∷ _ ∷ _) path = ends fatal

unfoldable pub parse_options : String → List Opt → List String → Option String → Parsed
unfolding parse_rest
parse_options default_sock [] args path = parse_rest default_sock args path
parse_options default_sock (help ∷ opts) args path = ends success
parse_options default_sock (unixctl p ∷ opts) args path =
    parse_options default_sock opts args (some p)
parse_options default_sock (platform ∷ opts) args path = parse_options default_sock opts args path
parse_options default_sock (unknown ∷ opts) args path = ends failure
parse_options default_sock (other ∷ opts) args path = ends aborted

-- The platform: the default socket, whether `unixctl_server_create` returns 0, and the replica of a new
-- connection.
pub record Platform : Type 0 where
  pub default_sock : String
  pub server_created : Option String → Bool
  pub connect : String → Db

-- The process: it has ended before its loop, or has come to it; after the loop `main` returns 0.
pub data Process (S : Type 0) : Type 0 where
  ended : Ending → Process S
  looped : Loop S → Process S

-- The first option that ends the process, and the path of the last "--unixctl".
abbrev pub first_end : List Opt → Option Ending
first_end [] = none
first_end (help ∷ opts) = some success
first_end (unknown ∷ opts) = some failure
first_end (other ∷ opts) = some aborted
first_end (platform ∷ opts) = first_end opts
first_end (unixctl p ∷ opts) = first_end opts

abbrev pub last_path : Option String → List Opt → Option String
last_path path [] = path
last_path path (unixctl p ∷ opts) = last_path (some p) opts
last_path path (help ∷ opts) = last_path path opts
last_path path (unknown ∷ opts) = last_path path opts
last_path path (other ∷ opts) = last_path path opts
last_path path (platform ∷ opts) = last_path path opts

parse_options_lem :
    (default_sock : String) (opts : List Opt) (args : List String) (path : Option String)
    → parse_options default_sock opts args path ≡ elim (first_end opts) [
      | some e ↦ ends e
      | none ↦ parse_rest default_sock args (last_path path opts)
    ]
unfolding parse_options
parse_options_lem d [] args path = refl
parse_options_lem d (help ∷ opts) args path = refl
parse_options_lem d (unknown ∷ opts) args path = refl
parse_options_lem d (other ∷ opts) args path = refl
parse_options_lem d (platform ∷ opts) args path = parse_options_lem d opts args path
parse_options_lem d (unixctl p ∷ opts) args path = parse_options_lem d opts args (some p)

module _ (E : Env) where
  open E use {bitmaps}
  open bitmaps use {Bitmap}

  -- The handlers: whether the daemon exits now, and the reply.
  vland_unixctl_exit : Bool → Bool × Option (List DumpLine)
  vland_unixctl_exit exiting = (true, none)

  vland_unixctl_dump : State Bitmap → Bool → Bool × Option (List DumpLine)
  vland_unixctl_dump s exiting = (exiting, some (vland_debug_dump E s))

  handle : Command → State Bitmap → Bool → Bool × Option (List DumpLine)
  unfolding vland_unixctl_exit vland_unixctl_dump
  handle exit s exiting = vland_unixctl_exit exiting
  handle dump s exiting = vland_unixctl_dump s exiting

  -- The commands that `unixctl_server_run` finds, one after the other: `exiting`, and the replies.
  unfoldable pub serve : List Command → State Bitmap → Bool → Bool × List (Option (List DumpLine))
  unfolding handle
  serve [] s exiting = (exiting, [])
  serve (command ∷ commands) s exiting =
      let (exiting', reply) = handle command s exiting in
      let (last, replies) = serve commands s exiting' in (last, reply ∷ replies)

  -- The handlers set `exiting` as the main loop of `Main` has it.
  pub serve-run_commands :
      (commands : List Command) (s : State Bitmap) (exiting : Bool)
      → (serve commands s exiting).0 ≡ run_commands commands exiting
  unfolding serve run_commands
  serve-run_commands [] s exiting = refl
  serve-run_commands (exit ∷ commands) s exiting = serve-run_commands commands s true
  serve-run_commands (dump ∷ commands) s exiting = serve-run_commands commands s exiting

  -- `main` with the database socket and the path that `parse_options` has found.
  launch : Platform → List Round → Parsed → Process (State Bitmap)
  launch P rounds (ends e) = ended e
  launch P rounds (parsed sock path) =
      if P.server_created path then looped (Main.main E (P.connect sock) rounds) else ended failure

  unfoldable pub vland_main :
      Platform → List Opt → List String → List Round → Process (State Bitmap)
  unfolding launch
  vland_main P opts args rounds = launch P rounds (parse_options P.default_sock opts args none)

  -- The process that runs the main loop on the database at a socket, if the server for ovs-appctl can
  -- be created.
  abbrev pub runs_at : Platform → List Round → Option String → String → Process (State Bitmap)
  runs_at P rounds path sock =
      if P.server_created path then looped (Main.main E (P.connect sock) rounds) else ended failure

  -- The first option that asks for help, is unknown or is named by no case ends the process: with
  -- success, with a failure, or by abort. Without one, two or more further arguments are a fatal
  -- error; one is the socket of the database, and none stands for the default socket. The process
  -- then fails if the server for ovs-appctl cannot be created at the path of the last "--unixctl",
  -- and otherwise runs the main loop on that database.
  pub vland_main_lem :
      (P : Platform) (opts : List Opt) (args : List String) (rounds : List Round)
      → vland_main P opts args rounds ≡ elim (first_end opts) [
        | some e ↦ ended e
        | none ↦ elim args [
          | [] ↦ runs_at P rounds (last_path none opts) P.default_sock
          | sock ∷ rest ↦ elim rest [
            | [] ↦ runs_at P rounds (last_path none opts) sock
            | _ ∷ _ ↦ ended fatal
          ]
        ]
      ]
  unfolding vland_main parse_rest
  vland_main_lem P opts [] rounds = ground (arith, parse_options_lem P.default_sock opts [] none)
  vland_main_lem P opts (sock ∷ []) rounds =
      ground (arith, parse_options_lem P.default_sock opts (sock ∷ []) none)
  vland_main_lem P opts (sock ∷ more ∷ rest) rounds =
      ground (arith, parse_options_lem P.default_sock opts (sock ∷ more ∷ rest) none)
