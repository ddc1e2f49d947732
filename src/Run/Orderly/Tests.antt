-- ===== src/Run/Orderly/Tests.antt =====
-- Orderly turns, the daemon's own writes, and the start of the daemon, on concrete inputs.
use vland.Common.{
  ap, sym, ◌∙◌, ℕ, String, ◌≡◌, refl, inr, Bool, true, Option, none, some, List, [], ◌∷◌, arith,
  ◌==◌, if◌then◌else◌,
}
use vland.Run.Samples.{full_db, full_turn, early_db, first}
use vland.Samples.{env, env-laws, bitmaps-laws, turn, start, reconfigured, daemon_code}
use vland.State.{VlanData, State}
use vland.Cache.Registry.{IsNamedRegistry}
use vland.Run.{Turn, vland_run}
use vland.Run.Main as Main
use vland.Run.Main.{Loop, vland_ovsdb_init}
use vland.Run.Mirror.{Mirrors}
use vland.Run.Reach.{Reachable, Reachable-Mirrors}
use vland.Run.Columns.{vland_run-own_writes}
use vland.Run.Orderly.{Orderly, Orderly-Registered}
use vland.Run.Orderly.Total.{vland_run_total}
use vland.Run.Start.{Opt, Platform, looped, vland_main, vland_main_lem}

abbrev name_of : ℕ → String
name_of id = if id == 10 then "VLAN10" else "DEFAULT_VLAN_1"

first-Orderly : Orderly env name_of early_db first
unfolding daemon_code vland_ovsdb_init
first-Orderly =
    Orderly.next full_turn Orderly.start
      (((refl, ground arith), (λ v e. cc)), (((refl, ground arith), (λ v e. cc)), tt)) refl

Orderly-Registered_example : IsNamedRegistry env name_of first
Orderly-Registered_example = Orderly-Registered env name_of bitmaps-laws env-laws first-Orderly

abbrev row_of : Option VlanData → ℕ
row_of none = 0
row_of (some v) = v.idl_cfg

first-Mirrors : Mirrors env full_db first
unfolding daemon_code vland_ovsdb_init
first-Mirrors =
    (Reachable-Mirrors env env-laws early_db (vland_ovsdb_init env early_db) first full_turn
      Reachable.start refl refl (inr refl) (inr refl) (omega arith) refl).0

-- Both ports go, and no VLAN does.
abbrev portless_turn : Turn
portless_turn = record turn { received = record full_db { seqno = 8; ports = [] } }

vland_run_total_example : (s' : State (ℕ → Bool)) × (vland_run env portless_turn first ≡ some s')
unfolding daemon_code vland_ovsdb_init
vland_run_total_example =
    vland_run_total env name_of bitmaps-laws env-laws early_db first portless_turn first-Orderly
      (
        ((refl, omega arith), λ v e. sym (ap row_of e)),
        (((refl, omega arith), λ v e. sym (ap row_of e)), tt),
      )
      (inr (λ k h. sym (first-Mirrors.vlans k) ∙ h))

-- The database that the first call has written comes back.
abbrev echo : Turn
unfolding daemon_code
echo = record turn { received = reconfigured.idl }

vland_run-own_writes_example :
    vland_run env echo reconfigured ≡ some (record reconfigured { idl = echo.received })
unfolding daemon_code
vland_run-own_writes_example =
    vland_run-own_writes env start reconfigured 1 echo refl refl (λ same. refl) refl refl refl refl

-- "--unixctl" twice, the logging options, and one argument.
abbrev platform : Platform
platform = record {
  default_sock = "unix:db.sock";
  server_created = λ path. true;
  connect = λ sock. early_db;
}

abbrev options : List Opt
options = Opt.unixctl "a" ∷ Opt.platform ∷ Opt.unixctl "b" ∷ []

vland_main_lem_example :
    vland_main env platform options ("unix:x" ∷ []) [] ≡ looped (Main.main env early_db [])
vland_main_lem_example = vland_main_lem env platform options ("unix:x" ∷ []) []
