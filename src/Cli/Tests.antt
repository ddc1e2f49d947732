-- ===== src/Cli/Tests.antt =====
-- The commands on concrete tables.
use vland.Common.{ℕ, String, ◌≡◌, refl, true, false, Option, none, some, List, [], ◌∷◌, All}
use vland.Run.{TxnStatus}
use vland.Idl.{Admin}
use vland.Samples.{vlan_row, strings}
use vland.Cli.{
  has_tag, InterfaceRow, SystemRow, aborted, finished, cmd_success, part_of_lag, Step, stop,
  is_vlan, without, find_port, drop_trunk, after_drop, settle_mode, set_access, into_mode,
  add_trunk, set_native, without_native, clear_access,
}
use vland.Cli.Lag.{
  cli_lag_vlan_access, cli_lag_no_vlan_access, cli_lag_vlan_trunk_allowed,
  cli_lag_no_vlan_trunk_allowed, cli_lag_vlan_trunk_native, cli_lag_no_vlan_trunk_native,
  cli_lag_vlan_trunk_native_tag, cli_lag_no_vlan_trunk_native_tag,
}
use vland.Cli.Intf.{
  find_interface, select_port, own_port, cli_intf_vlan_access, cli_intf_vlan_trunk_native,
  cli_intf_no_vlan_trunk_native,
}
use vland.Cli.Trunk.{cli_intf_vlan_trunk_allowed, allow_all, allow_one, allow_vlan}
use vland.Cli.Hoare.{Writes, is_fault}
use vland.Cli.Edit.{IsAccessClean}
use vland.Cli.LagInvariant.{
  access, trunk_allowed, no_trunk_allowed, no_trunk_native, run_lag, run_lag-Edits, run_lag-clean,
  Edits,
}
use vland.Cli.IntfFaults.{run_intf-fault}
use vland.Cli.IntfInvariant.{IntfCommand, EditsOwn, run_intf, run_intf-EditsOwn}
use vland.Cli.LagFaults.{run_lag-fault}
use vland.Cli.LagTrunks.{
  Turns, Allows, Disallows, cli_lag_vlan_trunk_allowed_lem, cli_lag_no_vlan_trunk_allowed_lem,
}
use vland.Cli.Internal.{RangeMacros, shown_range}
use vland.Cli.Internal.RoundTrip.{shown_range_lem}
use vland.Cli.Shutdown.{Sets, find_vlan_id, cli_no_vlan_admin, cli_no_vlan_admin_lem}
use vland.Cli.Samples.{vtysh, vtysh-laws, intf_row, no_range, tables, session}

abbrev some_two : Option InterfaceRow
some_two = some (record { uuid = 2; name = "2"; type = "system" })

-- The commands' code, for the tests that run it.
unfoldable cli_code : Unit {0}
unfolding run_lag cli_lag_vlan_access cli_lag_no_vlan_access cli_lag_vlan_trunk_allowed
    cli_lag_no_vlan_trunk_allowed cli_lag_vlan_trunk_native cli_lag_no_vlan_trunk_native
    cli_lag_vlan_trunk_native_tag cli_lag_no_vlan_trunk_native_tag is_vlan without find_port
    find_vlan_id drop_trunk after_drop settle_mode set_access clear_access into_mode add_trunk
    set_native without_native find_interface select_port own_port cli_intf_vlan_trunk_allowed
    allow_all allow_one allow_vlan cli_intf_vlan_access cli_intf_vlan_trunk_native
cli_code = tt

abbrev lag_of : Step Unit → Option (Option String × Option ℕ × List ℕ)
lag_of (stop o) = elim o.ending [
  | aborted ↦ none
  | finished db ↦ elim db.ports [
    | [] ↦ none
    | p ∷ ps ↦ some (p.vlan_mode, p.vlan_tag, p.vlan_trunks)
  ]
]
lag_of _ = none

-- The LAG loses its only trunk VLAN.
last_trunk :
    lag_of (run_lag vtysh session tables "lag1" (no_trunk_allowed 10))
    ≡ some (some "access", some 1, [])
unfolding cli_code
last_trunk = refl

one_more_trunk :
    lag_of (run_lag vtysh session tables "lag1" (trunk_allowed 20))
    ≡ some (some "trunk", none, 10 ∷ 20 ∷ [])
unfolding cli_code
one_more_trunk = refl

-- Interface 2 belongs to the LAG.
member_of_lag :
    cli_intf_vlan_access vtysh session tables "2" 10
    ≡ stop (record {
      code = cmd_success;
      said = part_of_lag "lag1" ∷ [];
      ending = aborted;
      enters = none;
    })
unfolding cli_code
member_of_lag = refl

no_lag : is_fault (run_lag vtysh session tables "lag2" (access 10)) ≡ true
unfolding cli_code
no_lag = refl

run_lag-Edits_example :
    Writes (Edits vtysh tables "lag1") (run_lag vtysh session tables "lag1" (no_trunk_allowed 10))
run_lag-Edits_example = run_lag-Edits vtysh vtysh-laws session tables "lag1" (no_trunk_allowed 10)

run_lag-clean_example :
    Writes
      (λ db'. All (IsAccessClean vtysh) db'.ports)
      (run_lag vtysh session tables "lag1" (no_trunk_allowed 10))
run_lag-clean_example =
    run_lag-clean vtysh vtysh-laws session tables "lag1" (no_trunk_allowed 10) (refl, (refl, tt))

run_lag-fault_example : is_fault (run_lag vtysh session tables "lag2" no_trunk_native) ≡ true
unfolding cli_code
run_lag-fault_example = run_lag-fault vtysh vtysh-laws session tables "lag2" no_trunk_native

cli_lag_vlan_trunk_allowed_lem_example :
    Writes
      (Turns tables "lag1" (Allows vtysh 20))
      (cli_lag_vlan_trunk_allowed vtysh session tables "lag1" 20)
unfolding cli_code
cli_lag_vlan_trunk_allowed_lem_example =
    cli_lag_vlan_trunk_allowed_lem vtysh vtysh-laws session tables "lag1" 20
      ((refl, tt), ((refl, tt), tt))

cli_lag_no_vlan_trunk_allowed_lem_example :
    Writes
      (Turns tables "lag1" (Disallows vtysh tables 10))
      (cli_lag_no_vlan_trunk_allowed vtysh session tables "lag1" 10)
unfolding cli_code
cli_lag_no_vlan_trunk_allowed_lem_example =
    cli_lag_no_vlan_trunk_allowed_lem vtysh vtysh-laws session tables "lag1" 10
      ((refl, tt), ((refl, tt), tt)) refl

abbrev macros : RangeMacros
macros = record {
  default_min = 1024;
  default_max = 4094;
  ascending = "ascending";
  descending = "descending";
  status_value =
      λ t. elim t [ TxnStatus.success ↦ 4 | TxnStatus.unchanged ↦ 1 | TxnStatus.other ↦ 6 ];
}

-- A row with a policy and without bounds.
abbrev no_bounds : SystemRow
no_bounds = record no_range { internal_vlan_policy = some "descending" }

shown_range_lem_example : shown_range macros (some no_bounds) ≡ some (65535, 65535, "descending")
shown_range_lem_example = shown_range_lem macros no_bounds

cli_no_vlan_admin_lem_example :
    Writes
      (Sets strings session tables Admin.up vlan_row)
      (cli_no_vlan_admin strings session tables 10)
    × (is_fault (cli_no_vlan_admin strings session tables 10) ≡ false)
unfolding cli_code
cli_no_vlan_admin_lem_example = cli_no_vlan_admin_lem strings session tables 10 vlan_row refl refl

run_intf-EditsOwn_example :
    Writes
      (EditsOwn vtysh tables "1")
      (run_intf vtysh session tables "1" (IntfCommand.no_trunk_allowed 10))
run_intf-EditsOwn_example =
    run_intf-EditsOwn vtysh vtysh-laws session tables "1" (IntfCommand.no_trunk_allowed 10)

-- No port has the interface, none is added, and there is no tag to read.
run_intf-fault_example :
    is_fault
      (run_intf vtysh session (record tables { ports = [] }) "1" (IntfCommand.no_trunk_native 10))
    ≡ true
unfolding cli_code
run_intf-fault_example =
    run_intf-fault vtysh (record tables { ports = [] }) "1" session (IntfCommand.no_trunk_native 10)

-- A port without a tag is there, and a VLAN ID is given.
untagged_port :
    is_fault (
      run_intf vtysh session
        (record tables { ports = record intf_row { vlan_tag = none } ∷ [] })
        "1"
        (IntfCommand.no_trunk_native 10))
    ≡ true
unfolding cli_code cli_intf_no_vlan_trunk_native has_tag run_intf
untagged_port = refl
