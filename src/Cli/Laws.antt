-- ===== src/Cli/Laws.antt =====
-- What the commands of src/cli/vlan_vty.c rely on in the functions that they call.
use vland.Common.{ℕ, ◌≡◌, ◌≢◌, true, Option, some, List, All}
use vland.Cli.{PortRow, Tables, Vtysh, is_vlan}

-- The four modes have different strings. Each setter changes its own column of the port and no other,
-- and stores the references that it finds: all of them where every ID has a VLAN row.
pub record VtyshLaws (X : Vtysh) : Type 0 where
  pub access_trunk : X.mode_access ≢ X.mode_trunk
  pub access_tagged : X.mode_access ≢ X.mode_native_tagged
  pub access_untagged : X.mode_access ≢ X.mode_native_untagged
  pub trunk_tagged : X.mode_trunk ≢ X.mode_native_tagged
  pub trunk_untagged : X.mode_trunk ≢ X.mode_native_untagged
  pub tagged_untagged : X.mode_native_tagged ≢ X.mode_native_untagged
  pub stored_tag : Tables → ℕ → Option ℕ
  pub stored_trunks : Tables → List ℕ → List ℕ
  pub set_tag :
      (db : Tables) (id : ℕ) (row : PortRow)
      → X.ops_port_set_tag db id row ≡ record row { vlan_tag = stored_tag db id }
  pub set_trunks :
      (db : Tables) (ids : List ℕ) (row : PortRow)
      → X.ops_port_set_trunks db ids row ≡ record row { vlan_trunks = stored_trunks db ids }
  pub stored_tag-is_vlan :
      (db : Tables) (id : ℕ) → is_vlan id db.vlans ≡ true → stored_tag db id ≡ some id
  pub stored_trunks-is_vlan :
      (db : Tables) (ids : List ℕ)
      → All (λ id. is_vlan id db.vlans ≡ true) ids
      → stored_trunks db ids ≡ ids
