-- ===== src/Cli/Config/Lines.antt =====
-- What is printed for a port in each of the modes.
use vland.Common.{ℕ, ◌≡◌, some, [], ◌∷◌, map, arith, eq_iff}
use vland.Cli.{PortRow, Vtysh}
use vland.Cli.Laws.{VtyshLaws}
use vland.Cli.Config.{
  vlan_access, vlan_trunk_native, vlan_trunk_native_tag, vlan_trunk_allowed, port_lines,
}

module _ (X : Vtysh) where
  pub lines-access :
      (kept : PortRow) (v : ℕ)
      → kept.vlan_mode ≡ some X.mode_access
      → kept.vlan_tag ≡ some v
      → port_lines X kept ≡ vlan_access v ∷ []
  unfolding port_lines
  lines-access kept v m t = ground (arith, eq_iff X.mode_access X.mode_access)

  module _ (L : VtyshLaws X) where
    pub lines-untagged :
        (kept : PortRow) (v : ℕ)
        → kept.vlan_mode ≡ some X.mode_native_untagged
        → kept.vlan_tag ≡ some v
        → port_lines X kept ≡ vlan_trunk_native v ∷ map vlan_trunk_allowed kept.vlan_trunks
    unfolding port_lines
    lines-untagged kept v m t = ground (
      arith,
      eq_iff X.mode_native_untagged X.mode_native_untagged,
      eq_iff X.mode_native_untagged X.mode_access,
      eq_iff X.mode_native_untagged X.mode_trunk,
      L.access_untagged,
      L.trunk_untagged,
    )

    pub lines-tagged :
        (kept : PortRow) (v : ℕ)
        → kept.vlan_mode ≡ some X.mode_native_tagged
        → kept.vlan_tag ≡ some v
        → port_lines X kept
          ≡ vlan_trunk_native v ∷ vlan_trunk_native_tag ∷ map vlan_trunk_allowed kept.vlan_trunks
    unfolding port_lines
    lines-tagged kept v m t = ground (
      arith,
      eq_iff X.mode_native_tagged X.mode_native_tagged,
      eq_iff X.mode_native_tagged X.mode_access,
      eq_iff X.mode_native_tagged X.mode_trunk,
      eq_iff X.mode_native_tagged X.mode_native_untagged,
      L.access_tagged,
      L.trunk_tagged,
      L.tagged_untagged,
    )

    pub lines-trunk :
        (kept : PortRow)
        → kept.vlan_mode ≡ some X.mode_trunk
        → port_lines X kept ≡ map vlan_trunk_allowed kept.vlan_trunks
    unfolding port_lines
    lines-trunk kept m =
        ground (
          arith,
          eq_iff X.mode_trunk X.mode_trunk,
          eq_iff X.mode_trunk X.mode_access,
          L.access_trunk,
        )
