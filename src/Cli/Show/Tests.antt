-- ===== src/Cli/Show/Tests.antt =====
-- The displays on concrete tables.
use vland.Common.{Bool, ◌≤◌, ◌≡◌, refl, [], ◌∷◌, ◌++◌, map, some, arith}
use vland.Idl.{VlanRow}
use vland.Cli.{PortRow}
use vland.Cli.Samples.{intf_row, tables}
use vland.Cli.Sort.{IsAscending, sort_vlan_id, sort_vlan_id_lem}
use vland.Cli.Show.{port_count, port_nodes, trunk_names, names_by_id}
use vland.Cli.Show.Sorting.{sorter, sorter-laws}
use vland.Cli.Show.Members.{
  count_ports, trunk_names_all, port_nodes-port_count, names_by_id-port_nodes, names_by_id-omits,
}
use mathlib.Core.List.{Perm}

-- A port that has VLAN 10 twice, and one that has it as its access VLAN.
abbrev twice : PortRow
twice = record intf_row { vlan_tag = some 10 }

abbrev access_port : PortRow
access_port = record intf_row {
  uuid = 103;
  name = "3";
  vlan_mode = some "access";
  vlan_tag = some 10;
  vlan_trunks = [];
}

-- The display of VLAN 10 leaves the access port out.
omitted : names_by_id 10 (Bool.false) (twice ∷ access_port ∷ []) ≡ "1" ∷ []
unfolding names_by_id trunk_names
omitted = refl

listed : map (λ (r : PortRow). r.name) (port_nodes 10 (twice ∷ access_port ∷ [])) ≡ "1" ∷ "3" ∷ []
unfolding port_nodes
listed = refl

sort_vlan_id_lem_example :
    Perm (sort_vlan_id sorter (λ (r : VlanRow). r.id) tables.vlans) tables.vlans
    × IsAscending (λ r. r.id) (sort_vlan_id sorter (λ (r : VlanRow). r.id) tables.vlans)
sort_vlan_id_lem_example = sort_vlan_id_lem sorter sorter-laws (λ (r : VlanRow). r.id) tables.vlans

port_nodes-port_count_example : count_ports (port_nodes 10 tables.ports) ≤ port_count tables.ports
port_nodes-port_count_example = port_nodes-port_count 10 tables.ports

names_by_id-port_nodes_example :
    names_by_id 10 (Bool.false) tables.ports
    ≡ map (λ (r : PortRow). r.name) (port_nodes 10 tables.ports)
names_by_id-port_nodes_example =
    names_by_id-port_nodes 10 tables.ports ((refl, omega arith), ((refl, omega arith), tt))

names_by_id-omits_example :
    names_by_id 10 (Bool.false) (twice ∷ access_port ∷ [])
    ≡ trunk_names 10 "1" (10 ∷ []) ++ trunk_names_all 10 (access_port ∷ [])
names_by_id-omits_example = names_by_id-omits 10 twice (access_port ∷ []) (Bool.false) refl refl
