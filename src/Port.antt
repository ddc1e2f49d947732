-- ===== src/Port.antt =====
-- Ports: check_port_in_bridge, construct_vlan_bitmap and add_new_port of src/vland_ovsdb_if.c.
pub mod Bitmap
mod Tests
use vland.Common.{
  ℕ, String, ◌≡◌, Bool, true, false, ◌&&◌, ◌||◌, not, Option, none, some, List, [], ◌∷◌, ◌==◌, ltb,
  str_eq, is_some, if◌then◌else◌, Nodes, find, contains_name,
}
use vland.Common.Int.{ℤ, pos, negsuc}
use vland.Idl.{VlanMode, Db, BridgeRow, PortRow}
use vland.External.{Env}
use vland.State.{PortData}
use vland.Text.{vlan_mode_of}

-- The "ports" of a Bridge row. The database keeps references resolved; one that is not names no port.
unfoldable pub bridge_ports : List BridgeRow → ℕ → List String
bridge_ports [] u = []
bridge_ports (b ∷ bs) u = if u == b.uuid then b.ports else bridge_ports bs u

-- The two loops of `check_port_in_bridge`.
in_bridges : List BridgeRow → String → List ℕ → Bool
in_bridges table name [] = false
in_bridges table name (u ∷ us) =
    contains_name name (bridge_ports table u) || in_bridges table name us

unfoldable pub check_port_in_bridge : Db → String → Bool
unfolding in_bridges bridge_ports
check_port_in_bridge db name = elim db.system [
  | none ↦ false
  | some sys ↦ in_bridges db.bridges name sys.bridges
]

-- VALID_VID
abbrev pub valid_vid : ℤ → Bool
valid_vid (pos x) = ltb 0 x && ltb x 4095
valid_vid (negsuc x) = false

-- `vlan_mode == PORT_VLAN_MODE_…`
abbrev pub is_access : VlanMode → Bool
is_access VlanMode.access = true
is_access _ = false

abbrev pub is_trunk : VlanMode → Bool
is_trunk VlanMode.trunk = true
is_trunk _ = false

-- `native_vid`: the tag, unless the mode is TRUNK; -1 where there is none.
unfoldable pub native_vid_of : VlanMode → PortRow → ℤ
native_vid_of VlanMode.trunk row = negsuc 0
native_vid_of _ row = elim row.vlan_tag [ none ↦ negsuc 0 | some tag ↦ pos tag ]

module _ (E : Env) where
  open E use {strings, bitmaps, link}
  open bitmaps use {Bitmap, bitmap_allocate, bitmap_set, vlan_bitmap_clone, vlan_bitmap_from_array}

  -- The VLAN membership before the native VLAN goes in, and `trunk_all_vlans`.
  trunk_bitmap : Db → Bitmap → VlanMode → PortRow → Bitmap × Bool
  trunk_bitmap db all_vlans_bitmap mode row = elim row.vlan_trunks [
    | v ∷ vs ↦
        if is_access mode
        then (bitmap_allocate, false)
        else (vlan_bitmap_from_array (v ∷ vs), false)
    | [] ↦
        if is_access mode
        then (bitmap_allocate, false)
        else (vlan_bitmap_clone all_vlans_bitmap, check_port_in_bridge db row.name)
  ]

  -- `bitmap_set (vbmp, native_vid, true)` under its guard VALID_VID.
  add_native : ℤ → Bitmap → Bitmap
  add_native (pos x) vbmp = if valid_vid (pos x) then bitmap_set vbmp x true else vbmp
  add_native (negsuc x) vbmp = vbmp

  unfoldable pub construct_vlan_bitmap : Db → Bitmap → PortRow → PortData Bitmap → PortData Bitmap
  unfolding native_vid_of trunk_bitmap add_native
  construct_vlan_bitmap db all_vlans_bitmap row port =
      let mode = vlan_mode_of strings row in
      let native_vid = native_vid_of mode row in
      let (vbmp, trunk_all) = trunk_bitmap db all_vlans_bitmap mode row in
      record port {
        vlan_mode = mode;
        native_vid = native_vid;
        trunk_all_vlans = trunk_all;
        vlans_bitmap = add_native native_vid vbmp;
      }

  -- A second port of one name is dropped with a warning.
  -- The data of a port that is new to the cache.
  abbrev pub new_port_data : PortRow → PortData Bitmap
  new_port_data row = record {
    name = row.name;
    vlan_mode = VlanMode.access;
    native_vid = negsuc 0;
    trunk_all_vlans = false;
    vlans_bitmap = bitmap_allocate;
  }

  unfoldable pub add_new_port : Nodes (PortData Bitmap) → PortRow → Nodes (PortData Bitmap)
  add_new_port all_ports row = elim (find row.name all_ports) [
    | some port ↦ all_ports
    | none ↦ link row.name (new_port_data row) all_ports
  ]
