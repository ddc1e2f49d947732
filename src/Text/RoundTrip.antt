-- ===== src/Text/RoundTrip.antt =====
-- Reading a mode's string back.
use vland.Common.{◌≡◌, eq_iff, some, arith}
use vland.Idl.{VlanMode, PortRow}
use vland.External.{Strings, IsDistinct}
use vland.Text.{vlan_mode_to_str, vlan_mode_of}

module _ (t : Strings) where
  -- A row whose "vlan_mode" column holds the string of a mode is read as that mode, whatever its
  -- other columns, given that the schema's four mode strings differ.
  pub vlan_mode_of-vlan_mode_to_str :
      IsDistinct t
      → (m : VlanMode) (row : PortRow) → row.vlan_mode ≡ some (vlan_mode_to_str t m)
      → vlan_mode_of t row ≡ m
  unfolding vlan_mode_of vlan_mode_to_str
  vlan_mode_of-vlan_mode_to_str d VlanMode.access row e =
      ground (arith, eq_iff t.mode_access t.mode_access)
  vlan_mode_of-vlan_mode_to_str d VlanMode.trunk row e =
      ground (arith, eq_iff t.mode_trunk t.mode_access, eq_iff t.mode_trunk t.mode_trunk)
  vlan_mode_of-vlan_mode_to_str d VlanMode.native_tagged row e = ground (
    arith,
    eq_iff t.mode_native_tagged t.mode_access,
    eq_iff t.mode_native_tagged t.mode_trunk,
    eq_iff t.mode_native_tagged t.mode_native_tagged,
  )
  vlan_mode_of-vlan_mode_to_str d VlanMode.native_untagged row e = ground (
    arith,
    eq_iff t.mode_native_untagged t.mode_access,
    eq_iff t.mode_native_untagged t.mode_trunk,
    eq_iff t.mode_native_untagged t.mode_native_tagged,
    eq_iff t.mode_native_untagged t.mode_native_untagged,
  )
