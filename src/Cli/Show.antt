-- ===== src/Cli/Show.antt =====
-- The displays of src/cli/vlan_vty.c: cli_show_vlan_summary, cli_show_vlan, cli_show_vlan_id, and the
-- interfaces of show_vlan_int_range.
pub mod Members
mod Sorting
mod Tests
use vland.Common.{
  ℕ, ◌+◌, String, Bool, true, false, not, ◌&&◌, ◌||◌, Option, none, some, is_some, List, [], ◌∷◌,
  ◌++◌, ◌==◌, contains, map, if◌then◌else◌,
}
use vland.Idl.{VlanRow}
use vland.Cli.{PortRow, Tables, length}
use vland.Cli.Shutdown.{find_vlan_id}
use vland.Cli.Sort.{Qsort, sort_vlan_id}

-- Whether the map "internal_usage" of a VLAN has a key, the value of the key of the internal VLAN ID
-- in a port's "hw_config", the number that `sscanf` reads in a text, and `sort_interface`, on
-- the names of interfaces.
pub record ShowCalls : Type 0 where
  pub has_internal_usage : VlanRow → Bool
  pub internal_vlan_id : PortRow → Option String
  pub read_number : String → ℕ
  pub sort_interface : List String → List String

-- One printed line of a VLAN, with the names of its interfaces.
pub record VlanLine : Type 0 where
  pub id : ℕ
  pub name : String
  pub oper_state : Option String
  pub oper_state_reason : Option String
  pub is_reserved : Bool
  pub l3port : Option String
  pub interfaces : List String

count_vlans : List VlanRow → ℕ
count_vlans [] = 0
count_vlans (row ∷ rows) = 1 + count_vlans rows

-- "Number of existing VLANs"
unfoldable pub cli_show_vlan_summary : Tables → ℕ
unfolding count_vlans
cli_show_vlan_summary db = count_vlans db.vlans

-- `port_row->vlan_tag != NULL && ops_port_get_tag (port_row) == id`
abbrev pub has_tag : ℕ → PortRow → Bool
has_tag id row = elim row.vlan_tag [ none ↦ false | some tag ↦ tag == id ]

-- `port_count`: the size of the array of a VLAN's ports.
unfoldable pub port_count : List PortRow → ℕ
port_count [] = 0
port_count (row ∷ rows) =
    port_count rows + (if is_some row.vlan_tag || not (length row.vlan_trunks == 0) then 1 else 0)

-- `port_nodes`: the ports that `show vlan` lists for a VLAN.
unfoldable pub port_nodes : ℕ → List PortRow → List PortRow
port_nodes id [] = []
port_nodes id (row ∷ rows) =
    let rest = port_nodes id rows in
    if contains id row.vlan_trunks || has_tag id row then row ∷ rest else rest

-- The loop over the trunks of one port in `show vlan <id>`: its name for each time that the VLAN
-- occurs.
unfoldable pub trunk_names : ℕ → String → List ℕ → List String
trunk_names id name [] = []
trunk_names id name (v ∷ vs) =
    let rest = trunk_names id name vs in if v == id then name ∷ rest else rest

-- The names that `show vlan <id>` prints, from a value of `print_tag` on.
unfoldable pub names_by_id : ℕ → Bool → List PortRow → List String
unfolding trunk_names
names_by_id id print_tag [] = []
names_by_id id print_tag (row ∷ rows) =
    let print_tag' = print_tag || (contains id row.vlan_trunks && has_tag id row) in
    trunk_names id row.name row.vlan_trunks
    ++ ((if not print_tag' && has_tag id row then row.name ∷ [] else [])
        ++ names_by_id id print_tag' rows)

module _ (C : ShowCalls) where
  open C use {has_internal_usage, internal_vlan_id, read_number, sort_interface}

  abbrev pub vlan_line : VlanRow → List String → VlanLine
  vlan_line row names = record {
    id = row.id;
    name = row.name;
    oper_state = row.oper_state;
    oper_state_reason = row.oper_state_reason;
    is_reserved = has_internal_usage row;
    l3port = row.l3port;
    interfaces = names;
  }

  -- "No vlan is configured" is the empty list.
  unfoldable pub cli_show_vlan : Qsort → Tables → List VlanLine
  unfolding port_nodes
  cli_show_vlan Q db =
      map
        (λ row.
          vlan_line row
            (sort_interface (map (λ (r : PortRow). r.name) (port_nodes row.id db.ports))))
        (sort_vlan_id Q (λ row. row.id) db.vlans)

  -- `none` says that the VLAN has not been configured. Without a port nothing is printed of the
  -- layer-3 port.
  unfoldable pub cli_show_vlan_id : Tables → ℕ → Option VlanLine
  unfolding names_by_id find_vlan_id
  cli_show_vlan_id db vlan_id = elim (find_vlan_id vlan_id db.vlans) [
    | none ↦ none
    | some row ↦ some (elim db.ports [
      | [] ↦ record (vlan_line row []) { l3port = none }
      | p ∷ ps ↦ vlan_line row (names_by_id row.id false db.ports)
    ])
  ]

  -- The ports with an internal VLAN, with its ID, as `show vlan internal` lists them.
  assigned : List PortRow → List (String × String)
  assigned [] = []
  assigned (row ∷ rows) = elim (internal_vlan_id row) [
    | none ↦ assigned rows
    | some id ↦ (id, row.name) ∷ assigned rows
  ]

  unfoldable pub shown_interfaces : Qsort → Tables → List (String × String)
  unfolding assigned
  shown_interfaces Q db = sort_vlan_id Q (λ r. read_number r.0) (assigned db.ports)
