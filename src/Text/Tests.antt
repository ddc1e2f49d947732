-- ===== src/Text/Tests.antt =====
-- The reading of a mode's string at a concrete row.
use vland.Common.{◌≡◌, refl}
use vland.Idl.{VlanMode}
use vland.Samples.{strings, strings-IsDistinct, access_row}
use vland.Text.{vlan_mode_to_str, vlan_mode_of}
use vland.Text.RoundTrip.{vlan_mode_of-vlan_mode_to_str}

access_mode : vlan_mode_of strings access_row ≡ VlanMode.access
unfolding vlan_mode_to_str
access_mode =
    vlan_mode_of-vlan_mode_to_str strings strings-IsDistinct VlanMode.access access_row refl
