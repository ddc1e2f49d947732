-- ===== src/Cli/Create/Tests.antt =====
-- Making and removing VLANs on concrete tables.
use vland.Common.{
  ℕ, Bool, find, inr, arith, none, ◌≡◌, refl, true, false, not, ◌&&◌, some, is_some, [], ◌∷◌,
}
use vland.State.{State}
use vland.Run.{Turn, vland_run}
use vland.Run.Main.{vland_ovsdb_init}
use vland.Run.Reach.{Reachable}
use vland.Cli.Create.Daemon.{vtysh_vlan-vland_run, vtysh_no_vlan-vland_run}
use vland.Samples.{strings, vlan_row, bridge_row, env, env-laws, db, turn, daemon_code}
use vland.Cli.{Step, aborted, finished, Tables, is_vlan, without, drop_trunk}
use vland.Cli.Hoare.{Writes, is_fault}
use vland.Cli.Intf.{find_interface, is_empty}
use vland.Cli.Shutdown.{find_vlan_id}
use vland.Cli.Samples.{vtysh, vtysh-laws, intf_row, tables, session}
use vland.Cli.Create.{
  VlanCalls, chosen_bridge, put_bridge, delete_vlan, new_vlan_row, join_interface, created,
  vtysh_vlan, leave, forget_vlan, forget_in_all, unlink_vlan, vtysh_no_vlan,
}
use vland.Cli.Create.RoundTrip.{HandsIn, IsNew, IsCreated, vtysh_vlan_lem, vtysh_no_vlan-vtysh_vlan}
use vland.Cli.Create.Removal.{IsRemoved, vtysh_no_vlan_lem}

abbrev calls : VlanCalls
calls = record {
  vlan_name = λ id. "VLAN";
  vlanif_name = λ id. "vlan";
  type_system = "system";
  check_if_internal_vlan = λ row. false;
  verify_ifname = λ name. true;
  vtysh_ovsdb_port_match = λ db name. true;
  create_vlan_interface = λ db name. some db;
  delete_vlan_interface = λ db name. some db;
  new_uuid = 77;
}

abbrev bridged : Tables
bridged = record tables { bridges = bridge_row ∷ [] }

-- The commands' code, for the tests that run it.
unfoldable create_code : Unit {0}
unfolding vtysh_vlan vtysh_no_vlan chosen_bridge put_bridge delete_vlan new_vlan_row join_interface
    created forget_vlan forget_in_all unlink_vlan find_vlan_id find_interface is_vlan without
    drop_trunk leave
create_code = tt

-- A port that has VLAN 1 as its native VLAN and allows VLAN 10, when VLAN 20 goes, and when VLAN 1 goes.
other_vlan : forget_vlan vtysh strings calls tables 20 intf_row ≡ Step.go intf_row
unfolding create_code
other_vlan = refl

native_vlan :
    forget_vlan vtysh strings calls tables 1 intf_row
    ≡ Step.go (record intf_row { vlan_mode = some "trunk"; vlan_tag = some 0 })
unfolding create_code
native_vlan = refl

-- The same port, when the VLAN that it allows goes: it is left as an access port.
only_trunk :
    forget_vlan vtysh strings calls tables 10 intf_row
    ≡ Step.go (record intf_row { vlan_mode = some "access"; vlan_trunks = [] })
unfolding create_code
only_trunk = refl

vtysh_vlan_lem_example :
    Writes
      (IsCreated vtysh strings calls session bridged 30)
      (vtysh_vlan vtysh strings calls session bridged 30)
    × (is_fault (vtysh_vlan vtysh strings calls session bridged 30) ≡ (
        not (is_some (find_vlan_id 30 bridged.vlans))
        && session.has_txn
        && is_empty bridged.bridges))
vtysh_vlan_lem_example = vtysh_vlan_lem vtysh strings calls session bridged 30

is_new : IsNew vtysh strings calls session bridged 30 bridge_row
unfolding find_vlan_id
is_new = record {
  no_row = refl;
  vlan_uuids = (refl, (refl, (refl, tt)));
  unlisted = refl;
  unused = (refl, (refl, tt));
  unnamed = (refl, (refl, tt));
}

vtysh_no_vlan-vtysh_vlan_example :
    (db' : Tables) × HandsIn db' (vtysh_vlan vtysh strings calls session bridged 30)
    × HandsIn bridged (vtysh_no_vlan vtysh strings calls session db' 30)
unfolding create_code
vtysh_no_vlan-vtysh_vlan_example =
    vtysh_no_vlan-vtysh_vlan vtysh strings calls session bridged 30 bridge_row refl refl (tt, tt)
      is_new refl refl

-- VLAN 10 is the only trunk of both ports.
vtysh_no_vlan_lem_example :
    Writes
      (IsRemoved vtysh strings calls vtysh-laws 10 bridged)
      (vtysh_no_vlan vtysh strings calls session bridged 10)
unfolding is_vlan
vtysh_no_vlan_lem_example =
    vtysh_no_vlan_lem vtysh strings calls vtysh-laws 10 session bridged
      ((refl, tt), ((refl, tt), tt))

-- The tables that `vlan 30` hands in, and the daemon's first turn on them.
abbrev made : Tables
unfolding create_code
made = created vtysh strings calls bridged 30 bridge_row

abbrev next_turn : Turn
next_turn = record turn { received = record db { vlans = made.vlans } }

abbrev first : State (ℕ → Bool)
first = vland_ovsdb_init env (record db { seqno = 3 })

abbrev second : State (ℕ → Bool)
unfolding daemon_code vland_ovsdb_init
second = elim (vland_run env next_turn first) [ none ↦ first | some s ↦ s ]

vtysh_vlan-vland_run_example : is_some (find "VLAN" second.all_vlans) ≡ true
unfolding daemon_code create_code vland_ovsdb_init
vtysh_vlan-vland_run_example =
    vtysh_vlan-vland_run env env-laws vtysh calls session bridged made 30 (record db { seqno = 3 })
      first second next_turn refl refl Reachable.start refl refl (inr refl) (inr refl)
      (ground arith) refl "VLAN"

-- `no vlan 10` on tables with the default VLAN, and the daemon's first turn after it.
abbrev two_vlans : Tables
two_vlans = record bridged {
  vlans = record vlan_row { uuid = 1; id = 1; name = "DEFAULT_VLAN_1" } ∷ vlan_row ∷ [];
}

abbrev tables_of : Step Unit → Tables
tables_of (Step.stop o) = elim o.ending [ aborted ↦ two_vlans | finished db ↦ db ]
tables_of _ = two_vlans

abbrev cleared : Tables
unfolding create_code
cleared = tables_of (vtysh_no_vlan vtysh strings calls session two_vlans 10)

abbrev last_turn : Turn
unfolding create_code
last_turn = record turn { received = record db { vlans = cleared.vlans } }

abbrev third : State (ℕ → Bool)
unfolding daemon_code create_code vland_ovsdb_init
third = elim (vland_run env last_turn first) [ none ↦ first | some s ↦ s ]

vtysh_no_vlan-vland_run_example : is_some (find "VLAN10" third.all_vlans) ≡ false
unfolding daemon_code create_code vland_ovsdb_init
vtysh_no_vlan-vland_run_example =
    vtysh_no_vlan-vland_run env env-laws vtysh calls vtysh-laws session two_vlans cleared 10
      vlan_row (record db { seqno = 3 }) first third last_turn ((refl, tt), ((refl, tt), tt))
      (refl, refl, (refl, refl, tt)) refl refl refl Reachable.start refl refl (inr refl) (inr refl)
      (ground arith) refl "VLAN10"
