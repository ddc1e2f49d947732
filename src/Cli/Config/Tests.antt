-- ===== src/Cli/Config/Tests.antt =====
-- The printed commands of concrete ports, and what comes back of them.
use vland.Common.{ℕ, ◌≡◌, ◌≢◌, refl, inl, inr, true, some, [], ◌∷◌, arith}
use vland.Cli.{PortRow, Tables, write_port, is_vlan}
use vland.Cli.Intf.{find_interface}
use vland.Cli.Samples.{vtysh, vtysh-laws, lag_row, intf_row, no_range, tables, session}
use vland.Cli.Config.{vlan_trunk_native, vlan_trunk_native_tag, vlan_trunk_allowed, port_lines}
use vland.Cli.Trunk.{cli_intf_vlan_trunk_allowed}
use vland.Cli.Config.Range.{cli_intf_vlan_trunk_allowed-replay}
use vland.Cli.Config.Replay.{after, Ready, IsUsable, replay}
use vland.Cli.Config.RoundTrip.{replay-port_lines, replay-port_lines-trunk}

-- Interface 1 as an access port, which takes the commands.
abbrev fresh : PortRow
fresh = record intf_row { vlan_mode = some "access"; vlan_tag = some 20; vlan_trunks = [] }

abbrev fresh_tables : Tables
fresh_tables = record tables { ports = lag_row ∷ fresh ∷ [] }

-- The ports whose commands are printed.
abbrev tagged_port : PortRow
tagged_port = record intf_row { vlan_mode = some "native-tagged"; vlan_trunks = 20 ∷ 10 ∷ [] }

abbrev trunk_port : PortRow
trunk_port = record intf_row { vlan_mode = some "trunk"; vlan_trunks = 20 ∷ 10 ∷ [] }

printed :
    port_lines vtysh tagged_port
    ≡ vlan_trunk_native 1
      ∷ vlan_trunk_native_tag
      ∷ vlan_trunk_allowed 20
      ∷ vlan_trunk_allowed 10
      ∷ []
unfolding port_lines
printed = refl

ready : Ready vtysh session fresh_tables "1" no_range fresh
unfolding find_interface
ready = record {
  txn = refl;
  done = refl;
  system = refl;
  has_interface = refl;
  named = refl;
  sole = inr (refl, refl, inl (refl, tt));
  bridged = λ r h. refl;
}

is_usable :
    (id : ℕ) → is_vlan id tables.vlans ≡ true → IsUsable vtysh fresh_tables no_range fresh id
is_usable id e = record { vlan = e; outside = refl; free = λ r h. refl }

replay-port_lines_example :
    replay vtysh session "1" (port_lines vtysh tagged_port) fresh_tables
    ≡ some (write_port tagged_port fresh_tables)
unfolding is_vlan
replay-port_lines_example =
    replay-port_lines vtysh fresh_tables no_range fresh vtysh-laws session "1" ready tagged_port 1
      (inr (inr refl)) refl (refl, (refl, tt)) (is_usable 1 refl)
      (is_usable 20 refl, (is_usable 10 refl, tt)) refl refl

replay-port_lines-trunk_example :
    (replay vtysh session "1" (port_lines vtysh trunk_port) fresh_tables
      ≡ some (
          write_port
            (record trunk_port { vlan_mode = some "native-untagged"; vlan_tag = some 20 })
            fresh_tables))
    × (vtysh.mode_native_untagged ≢ vtysh.mode_trunk)
unfolding is_vlan
replay-port_lines-trunk_example =
    replay-port_lines-trunk vtysh fresh_tables no_range fresh vtysh-laws session "1" ready
      trunk_port refl (ground arith) (refl, (refl, tt)) (is_usable 20 refl, (is_usable 10 refl, tt))
      refl (ground arith) refl

cli_intf_vlan_trunk_allowed-replay_example :
    (after session
        (cli_intf_vlan_trunk_allowed vtysh session "1" fresh_tables (20 ∷ 10 ∷ []))
        fresh_tables
      ≡ replay vtysh session "1" (vlan_trunk_allowed 20 ∷ vlan_trunk_allowed 10 ∷ []) fresh_tables)
    × (after session
          (cli_intf_vlan_trunk_allowed vtysh session "1" fresh_tables (20 ∷ 10 ∷ []))
          fresh_tables
        ≡ some (
            write_port
              (record fresh { vlan_mode = some "native-untagged"; vlan_trunks = 20 ∷ 10 ∷ [] })
              fresh_tables))
unfolding is_vlan
cli_intf_vlan_trunk_allowed-replay_example =
    cli_intf_vlan_trunk_allowed-replay vtysh vtysh-laws session "1" fresh_tables no_range fresh
      ready (20 ∷ 10 ∷ []) (ground arith) (is_usable 20 refl, (is_usable 10 refl, tt))
      (refl, (refl, tt)) (refl, (refl, tt)) (ground arith) tt
