-- ===== src/Idl/Rows.antt =====
-- Rows of the tables, and the enumerations of their string columns.
use vland.Common.{ℕ, String, Option, List}
use vland.Common.Int.{ℤ}

-- enum ovsrec_port_vlan_mode_e
pub data VlanMode : Type 0 where
  access trunk native_tagged native_untagged : VlanMode

-- enum ovsrec_vlan_admin_e
pub data Admin : Type 0 where
  up down : Admin

-- enum ovsrec_vlan_oper_state_e
pub data OperState : Type 0 where
  unknown up down : OperState

-- enum ovsrec_vlan_oper_state_reason_e
pub data OperStateReason : Type 0 where
  unknown admin_down ok no_member_port : OperStateReason

pub record SystemRow : Type 0 where
  pub cur_cfg : ℤ
  -- references to Bridge rows, by uuid
  pub bridges : List ℕ

pub record BridgeRow : Type 0 where
  pub uuid : ℕ
  pub name : String
  -- the names of the Port rows that it refers to
  pub ports : List String
  -- references to VLAN rows, by uuid
  pub vlans : List ℕ

-- `vlan_tag` is `none` for NULL, and otherwise the VLAN ID that `ops_port_get_tag` reads through it;
-- `vlan_trunks` holds what `ops_port_get_trunks` reads at each index below `n_vlan_trunks`.
pub record PortRow : Type 0 where
  pub name : String
  pub vlan_mode : Option String
  pub vlan_tag : Option ℕ
  pub vlan_trunks : List ℕ

-- `description` is read by the command line only. `l3port` is the value of the key `l3port` of "internal_usage".
pub record VlanRow : Type 0 where
  pub uuid : ℕ
  pub name : String
  pub id : ℕ
  pub description : Option String
  pub admin : Option String
  pub l3port : Option String
  pub hw_vlan_config : List (String × String)
  pub oper_state : Option String
  pub oper_state_reason : Option String

pub record Db : Type 0 where
  pub seqno : ℕ
  pub system : Option SystemRow
  pub bridges : List BridgeRow
  pub ports : List PortRow
  pub vlans : List VlanRow
