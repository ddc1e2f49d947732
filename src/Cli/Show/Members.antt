-- ===== src/Cli/Show/Members.antt =====
-- The interfaces that the two displays of a VLAN list.
use vland.Common.{
  ℕ, ◌+◌, ◌≤◌, String, ◌≡◌, refl, Bool, true, false, ◌&&◌, List, [], ◌∷◌, ◌++◌, ◌==◌, contains, map,
  if◌then◌else◌, All, arith,
}
use vland.Cli.{PortRow, length}
use vland.Cli.Show.{has_tag, port_count, port_nodes, trunk_names, names_by_id}

abbrev pub count_ports : List PortRow → ℕ
count_ports [] = 0
count_ports (row ∷ rows) = 1 + count_ports rows

contains-nonempty : (id : ℕ) (vs : List ℕ) → contains id vs ≡ true → (length vs == 0) ≡ false
contains-nonempty id [] e = ground arith
contains-nonempty id (v ∷ vs) e = ground arith

-- The array for the ports of a VLAN is never too short: for every VLAN there are at most as many
-- ports to store as it has places.
pub port_nodes-port_count :
    (id : ℕ) (rows : List PortRow) → count_ports (port_nodes id rows) ≤ port_count rows
unfolding port_nodes port_count
port_nodes-port_count id [] = omega arith
port_nodes-port_count id (row ∷ rows) =
    ground (arith, port_nodes-port_count id rows, contains-nonempty id row.vlan_trunks)

-- How often a VLAN occurs in trunks.
abbrev pub occurrences : ℕ → List ℕ → ℕ
occurrences id [] = 0
occurrences id (v ∷ vs) = (if v == id then 1 else 0) + occurrences id vs

-- The port has the VLAN in one way: not both as its tag and in its trunks, nor twice in these.
abbrev pub HasOnce : ℕ → PortRow → Type 0
HasOnce id row =
    ((contains id row.vlan_trunks && has_tag id row) ≡ false) × (occurrences id row.vlan_trunks ≤ 1)

trunk_names-absent :
    (id : ℕ) (name : String) (vs : List ℕ)
    → occurrences id vs ≤ 0
    → (trunk_names id name vs ≡ []) × (contains id vs ≡ false)
unfolding trunk_names
trunk_names-absent id name [] h = (refl, refl)
trunk_names-absent id name (v ∷ vs) h = ground (arith, trunk_names-absent id name vs)

trunk_names-once :
    (id : ℕ) (name : String) (vs : List ℕ)
    → occurrences id vs ≤ 1
    → trunk_names id name vs ≡ (if contains id vs then name ∷ [] else [])
unfolding trunk_names
trunk_names-once id name [] h = refl
trunk_names-once id name (v ∷ vs) h =
    ground (arith, trunk_names-once id name vs, trunk_names-absent id name vs)

-- `show vlan <id>` lists the interfaces that `show vlan` sorts for the VLAN, if every port has it in
-- one way at most.
pub names_by_id-port_nodes :
    (id : ℕ) (rows : List PortRow)
    → All (HasOnce id) rows
    → names_by_id id false rows ≡ map (λ (r : PortRow). r.name) (port_nodes id rows)
unfolding names_by_id port_nodes
names_by_id-port_nodes id [] h = refl
names_by_id-port_nodes id (row ∷ rows) h =
    ground (
      arith,
      names_by_id-port_nodes id rows h.1,
      trunk_names-once id row.name row.vlan_trunks h.0.1,
    )

-- The names that are printed for the trunks of the ports.
abbrev pub trunk_names_all : ℕ → List PortRow → List String
trunk_names_all id [] = []
trunk_names_all id (row ∷ rows) = trunk_names id row.name row.vlan_trunks ++ trunk_names_all id rows

names_by_id-tagged :
    (id : ℕ) (rows : List PortRow) → names_by_id id true rows ≡ trunk_names_all id rows
unfolding names_by_id
names_by_id-tagged id [] = refl
names_by_id-tagged id (row ∷ rows) = ground (arith, names_by_id-tagged id rows)

-- Behind a port that has the VLAN both as its tag and in its trunks, `show vlan <id>` lists no port
-- that has it as its tag only: it prints the names of ports that trunk it, and no others.
pub names_by_id-omits :
    (id : ℕ) (row : PortRow) (rows : List PortRow) (print_tag : Bool)
    → contains id row.vlan_trunks ≡ true
    → has_tag id row ≡ true
    → names_by_id id print_tag (row ∷ rows)
      ≡ trunk_names id row.name row.vlan_trunks ++ trunk_names_all id rows
unfolding names_by_id
names_by_id-omits id row rows print_tag c t = ground (arith, names_by_id-tagged id rows)
