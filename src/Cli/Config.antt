-- ===== src/Cli/Config.antt =====
-- What `show running-config` prints of VLANs: the callbacks of src/cli/vtysh_ovsdb_vlan_context.c.
-- A printed line is the command that it holds; `none` is a read through NULL.
pub mod Replay
pub mod Steps
pub mod Lines
pub mod Allowed
pub mod RoundTrip
pub mod Range
pub mod Stops
mod Tests
use vland.Common.{
  ℕ, String, Bool, true, false, not, ◌&&◌, ◌||◌, Option, none, some, List, [], ◌∷◌, ◌++◌, ◌==◌, map,
  str_eq, if◌then◌else◌,
}
use vland.Common.Int.{ℤ}
use vland.Idl.{VlanRow}
use vland.Cli.{PortRow, InterfaceRow, SystemRow, Tables, Vtysh, find_port, mode_eq}
use vland.Cli.Internal.{RangeMacros, to_uint16}
use vland.Cli.Sort.{Qsort, sort_vlan_id}

pub data Line : Type 0 where
  vlan : ℕ → Line
  no_shutdown : Line
  description : String → Line
  interface : String → Line
  no_routing : Line
  vlan_access vlan_trunk_native vlan_trunk_allowed : ℕ → Line
  vlan_trunk_native_tag : Line
  vlan_internal_range : ℕ → ℕ → String → Line

-- The functions of vtysh that the callbacks call, and the string of the state up.
pub record Lookups : Type 0 where
  pub admin_up : String
  pub check_if_internal_vlan : VlanRow → Bool
  pub port_lookup : String → Tables → Option PortRow
  pub check_iface_in_vrf : Tables → String → Bool

-- The rows in the order in which the callback below sees them.
pub vtysh_vlan_context_init : Qsort → Tables → List VlanRow
vtysh_vlan_context_init Q db = sort_vlan_id Q (λ row. row.id) db.vlans

module _ (F : Lookups) where
  open F use {check_if_internal_vlan, port_lookup, check_iface_in_vrf}

  unfoldable pub vtysh_vlan_context_clientcallback : VlanRow → Option (List Line)
  vtysh_vlan_context_clientcallback row =
      let described : List Line = elim row.description [
        | none ↦ []
        | some text ↦ description text ∷ []
      ] in
      if check_if_internal_vlan row then some [] else elim row.admin [
        | none ↦ none
        | some admin ↦
            some (
              vlan row.id
              ∷ (if str_eq admin F.admin_up then no_shutdown ∷ described else described))
      ]

module _ (X : Vtysh) where
  open X use {mode_access, mode_trunk, mode_native_tagged, mode_native_untagged}

  abbrev pub tag_line : (ℕ → Line) → Option ℕ → List Line
  tag_line line none = []
  tag_line line (some tag) = line tag ∷ []

  -- The lines of a port that was found.
  unfoldable pub port_lines : PortRow → List Line
  port_lines row =
      let allowed = map vlan_trunk_allowed row.vlan_trunks in
      let native = tag_line vlan_trunk_native row.vlan_tag in
      if mode_eq row.vlan_mode mode_access
      then tag_line vlan_access row.vlan_tag
      else if mode_eq row.vlan_mode mode_trunk
      then allowed
      else if mode_eq row.vlan_mode mode_native_untagged
      then native ++ allowed
      else if mode_eq row.vlan_mode mode_native_tagged
      then native ++ vlan_trunk_native_tag ∷ allowed
      else []

  unfoldable pub vtysh_ovsdb_intftable_parse_vlan : Lookups → Tables → String → List Line
  unfolding port_lines
  vtysh_ovsdb_intftable_parse_vlan F db if_name = elim (F.port_lookup if_name db) [
    | none ↦ []
    | some row ↦ port_lines row
  ]

  -- `has_header` is `disp_header_cfg`; the result is its new value, and the lines.
  unfoldable pub vtysh_intf_context_vlan_clientcallback :
      Lookups → Tables → Bool → InterfaceRow → Bool × List Line
  unfolding vtysh_ovsdb_intftable_parse_vlan
  vtysh_intf_context_vlan_clientcallback F db has_header ifrow =
      elim (F.port_lookup ifrow.name db) [
        | none ↦ (has_header, [])
        | some row ↦ if F.check_iface_in_vrf db ifrow.name then (has_header, []) else (
          true,
          (if has_header then [] else interface ifrow.name ∷ [])
              ++ (no_routing ∷ vtysh_ovsdb_intftable_parse_vlan F db ifrow.name),
        )
      ]

-- DEFAULT_INTERNAL_VLAN_MIN_VID_VALUE and DEFAULT_INTERNAL_VLAN_MAX_VID_VALUE
abbrev pub default_internal_vlan_min : ℕ
default_internal_vlan_min = 1024

abbrev pub default_internal_vlan_max : ℕ
default_internal_vlan_max = 4094

-- The internal range, where it is not the default one. The policies differ within the length that
-- `strncmp` reads.
unfoldable pub vtysh_vlan_global_context_clientcallback : RangeMacros → Tables → List Line
vtysh_vlan_global_context_clientcallback D db = elim db.system [
  | none ↦ []
  | some sys ↦ elim sys.internal_vlan_policy [
    | none ↦ []
    | some policy ↦
        let min_vlan = to_uint16 sys.min_internal_vlan in
        let max_vlan = to_uint16 sys.max_internal_vlan in
        if not (min_vlan == default_internal_vlan_min)
          || (not (max_vlan == default_internal_vlan_max) || not (str_eq policy D.ascending))
        then vlan_internal_range min_vlan max_vlan policy ∷ []
        else []
  ]
]
