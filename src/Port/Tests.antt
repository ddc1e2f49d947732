-- ===== src/Port/Tests.antt =====
-- Bitmaps of concrete ports.
use vland.Common.{ℕ, ◌<◌, ◌≡◌, ◌≢◌, ◌↔◌, Bool, true, ◌||◌, [], arith, ◌==◌}
use vland.Idl.{VlanMode}
use vland.Samples.{env, strings, bitmaps, bitmaps-laws, db, trunk_row, access_port}
use vland.Text.{vlan_mode_of}
use vland.Port.{check_port_in_bridge, construct_vlan_bitmap}
use vland.Port.Bitmap.{is_native, is_trunked, construct_vlan_bitmap_lem}

-- The trunk port of the sample database, with VLANs 10 and 20 defined.
abbrev defined : ℕ → Bool
defined i = bitmaps.bitmap_set (λ j. j == 20) 10 true i

construct_vlan_bitmap_lem_example :
    let new = construct_vlan_bitmap env db defined trunk_row access_port in
    let mode = vlan_mode_of strings trunk_row in
    ((i : ℕ)
      → i < 4096
      → new.vlans_bitmap i
        ≡ (is_native mode trunk_row i || is_trunked env defined mode trunk_row i))
    × ((new.trunk_all_vlans ≡ true) ↔ (
        (check_port_in_bridge db "2" ≡ true)
        × (mode ≢ VlanMode.access)
        × (trunk_row.vlan_trunks ≡ [])))
    × (new.vlan_mode ≡ mode)
    × (new.name ≡ "1")
construct_vlan_bitmap_lem_example =
    construct_vlan_bitmap_lem env bitmaps-laws (omega arith) db defined trunk_row access_port tt
