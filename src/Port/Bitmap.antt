-- ===== src/Port/Bitmap.antt =====
-- The VLAN bitmap that `construct_vlan_bitmap` builds from a Port row.
use vland.Common.{
  ℕ, ◌<◌, ◌≤◌, ◌≡◌, ◌≢◌, ◌↔◌, refl, not, Bool, true, false, ◌&&◌, ◌||◌, none, some, List, [], ◌∷◌,
  arith, ◌==◌, ltb, contains, All, if◌then◌else◌, Option-cases, inl, inr,
}
use vland.Idl.{VlanMode, Db, PortRow}
use vland.External.{Env, BitmapLaws}
use vland.State.{PortData}
use vland.Text.{vlan_mode_of}
use vland.Port.{
  check_port_in_bridge, is_access, is_trunk, native_vid_of, trunk_bitmap, add_native,
  construct_vlan_bitmap,
}

-- The VLAN that is the port's native one: its tag, if the mode is not TRUNK and the ID is valid.
abbrev pub is_native : VlanMode → PortRow → ℕ → Bool
is_native mode row i = elim row.vlan_tag [
  | none ↦ false
  | some tag ↦ not (is_trunk mode) && i == tag && ltb 0 tag && ltb tag 4095
]

module _ (E : Env) where
  open E use {strings, bitmaps}
  open bitmaps use {Bitmap, bitmap_is_set, size}

  -- The VLANs that the port carries besides: none of them in access mode, those of "trunks", or
  -- every VLAN of the system where that column is empty.
  abbrev pub is_trunked : Bitmap → VlanMode → PortRow → ℕ → Bool
  is_trunked all_vlans_bitmap mode row i = if is_access mode then false else elim row.vlan_trunks [
    | [] ↦ bitmap_is_set all_vlans_bitmap i
    | v ∷ vs ↦ contains i (v ∷ vs)
  ]

  -- A port's row names VLANs inside the bitmaps only.
  abbrev pub HasRange : PortRow → Type 0
  HasRange row = All (λ v. v < size) row.vlan_trunks

  module _ (L : BitmapLaws bitmaps) (room : 4095 ≤ size) where
    trunk_bitmap-trunks :
        (db : Db) (all : Bitmap) (mode : VlanMode) (row : PortRow) (i : ℕ) (ts : List ℕ)
        → row.vlan_trunks ≡ ts
        → HasRange row
        → i < size
        → bitmap_is_set (trunk_bitmap E db all mode row).0 i ≡ is_trunked all mode row i
    unfolding trunk_bitmap
    trunk_bitmap-trunks db all mode row i [] e h hi =
        ground (arith, L.set-allocate i, L.is_set-clone all i)
    trunk_bitmap-trunks db all mode row i (v ∷ vs) e h hi =
        let range : All (λ x. x < size) (v ∷ vs) = rw e at h in
        ground (arith, L.set-allocate i, L.is_set-from_array v vs i range.0 range.1 hi)

    add_native_lem :
        (mode : VlanMode) (row : PortRow) (b : Bitmap) (i : ℕ)
        → i < size
        → bitmap_is_set (add_native E (native_vid_of mode row) b) i
          ≡ (is_native mode row i || bitmap_is_set b i)
    unfolding add_native native_vid_of
    add_native_lem VlanMode.trunk row b i hi = ground arith
    add_native_lem mode row b i hi = elim (Option-cases row.vlan_tag) [
      | inl e ↦ ground arith
      | inr (tag, e) ↦ ground (arith, L.is_set-set b tag true i)
    ]

    -- A VLAN is in the bitmap of the new port data exactly if it is the port's native VLAN or is
    -- trunked by it, at every position of the bitmap. The port trunks all VLANs implicitly exactly
    -- if it is in the bridge, is not in access mode and its "trunks" column is empty. Its name stays.
    -- The VLANs of "trunks" lie inside the bitmap, which has room for every valid VLAN ID.
    pub construct_vlan_bitmap_lem :
        (db : Db) (all : Bitmap) (row : PortRow) (port : PortData Bitmap)
        → HasRange row
        → let new = construct_vlan_bitmap E db all row port in
          let mode = vlan_mode_of strings row in
          ((i : ℕ)
            → i < size
            → bitmap_is_set new.vlans_bitmap i
              ≡ (is_native mode row i || is_trunked all mode row i))
          × ((new.trunk_all_vlans ≡ true) ↔ (
              (check_port_in_bridge db row.name ≡ true)
              × (mode ≢ VlanMode.access)
              × (row.vlan_trunks ≡ [])))
          × (new.vlan_mode ≡ mode)
          × (new.name ≡ port.name)
    unfolding construct_vlan_bitmap
    construct_vlan_bitmap_lem db all row port h =
        let mode = vlan_mode_of strings row in
        (
          λ i hi. ground (
            arith,
            trunk_bitmap-trunks db all mode row i row.vlan_trunks refl h hi,
            add_native_lem mode row (trunk_bitmap E db all mode row).0 i hi,
          ),
          ground arith,
          refl,
          refl,
        )
