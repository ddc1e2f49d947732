-- ===== src/Cli/Samples.antt =====
-- Concrete tables for the tests: a LAG and an interface, with VLANs 1, 10 and 20.
use vland.Common.{refl, true, none, some, [], ◌∷◌, arith, eq_iff}
use vland.Common.Int.{pos, negsuc}
use vland.Run.{TxnStatus}
use vland.Samples.{vlan_row}
use vland.Cli.{PortRow, SystemRow, Tables, Vtysh, Session}
use vland.Cli.Laws.{VtyshLaws}

-- Setters that store what they are given, and no VLAN in internal use.
abbrev pub vtysh : Vtysh
vtysh = record {
  mode_access = "access";
  mode_trunk = "trunk";
  mode_native_tagged = "native-tagged";
  mode_native_untagged = "native-untagged";
  check_port_in_bridge = λ db name. true;
  check_iface_in_bridge = λ db name. true;
  check_internal_vlan = λ db id. 1;
  port_check_and_add = λ db name. (db, none);
  ops_port_get_tag = λ found. elim found [
    | none ↦ none
    | some row ↦ elim row.vlan_tag [ none ↦ none | some v ↦ some (pos v) ]
  ];
  ops_port_set_tag = λ db id row. record row { vlan_tag = some id };
  ops_port_set_trunks = λ db ids row. record row { vlan_trunks = ids };
}

pub vtysh-laws : VtyshLaws vtysh
vtysh-laws = record {
  access_trunk = ground (arith, eq_iff "access" "trunk");
  access_tagged = ground (arith, eq_iff "access" "native-tagged");
  access_untagged = ground (arith, eq_iff "access" "native-untagged");
  trunk_tagged = ground (arith, eq_iff "trunk" "native-tagged");
  trunk_untagged = ground (arith, eq_iff "trunk" "native-untagged");
  tagged_untagged = ground (arith, eq_iff "native-tagged" "native-untagged");
  stored_tag = λ db id. some id;
  stored_trunks = λ db ids. ids;
  set_tag = λ db id row. refl;
  set_trunks = λ db ids row. refl;
  stored_tag-is_vlan = λ db id h. refl;
  stored_trunks-is_vlan = λ db ids h. refl;
}

abbrev pub lag_row : PortRow
lag_row = record {
  uuid = 101;
  name = "lag1";
  interfaces = 2 ∷ [];
  vlan_mode = some "trunk";
  vlan_tag = none;
  vlan_trunks = 10 ∷ [];
}

abbrev pub intf_row : PortRow
intf_row = record {
  uuid = 102;
  name = "1";
  interfaces = 1 ∷ [];
  vlan_mode = some "native-untagged";
  vlan_tag = some 1;
  vlan_trunks = 10 ∷ [];
}

abbrev pub no_range : SystemRow
no_range = record {
  min_internal_vlan = negsuc 0;
  max_internal_vlan = negsuc 0;
  internal_vlan_policy = none;
}

abbrev pub tables : Tables
tables = record {
  system = some no_range;
  interfaces =
      (record { uuid = 1; name = "1"; type = "system" })
      ∷ (record { uuid = 2; name = "2"; type = "system" })
      ∷ [];
  ports = lag_row ∷ intf_row ∷ [];
  vlans =
      record vlan_row { uuid = 1; id = 1 } ∷ vlan_row ∷ record vlan_row { uuid = 20; id = 20 } ∷ [];
  bridges = [];
}

abbrev pub session : Session
session = record { has_txn = true; status = TxnStatus.success }
