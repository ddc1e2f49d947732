-- ===== src/State.antt =====
-- The daemon's own data: struct port_data, struct vlan_data and the file-level variables of
-- src/vland_ovsdb_if.c. A table of names holds its nodes in the order in which loops visit them.
pub mod Loop
use vland.Common.{ℕ, String, Bool, Nodes, Option, none, some, List, [], ◌∷◌, ◌+◌}
use vland.Common.Int.{ℤ}
use vland.Idl.{VlanMode, Admin, OperState, OperStateReason, Db}

pub record PortData (Bitmap : Type 0) : Type 0 where
  pub name : String
  pub vlan_mode : VlanMode
  pub native_vid : ℤ
  pub trunk_all_vlans : Bool
  pub vlans_bitmap : Bitmap

-- `idl_cfg` is a reference to a VLAN row, by uuid.
pub record VlanData : Type 0 where
  pub idl_cfg : ℕ
  pub name : String
  pub vid : ℕ
  pub any_member_exists : Bool
  pub admin : Admin
  pub op_state : OperState
  pub op_state_reason : OperStateReason

-- The variables `idl` (with the writes of the open transaction), `idl_seqno`, and so on.
pub record State (Bitmap : Type 0) : Type 0 where
  pub idl : Db
  pub idl_seqno : ℕ
  pub system_configured : Bool
  pub default_vlan_created : Bool
  pub all_ports : Nodes (PortData Bitmap)
  pub all_vlans : Nodes VlanData
  pub all_vlans_bitmap : Bitmap

-- A step is `none` where the code reads through a NULL or dangling pointer.
infixl 5 ◌>>=◌
abbrev pub ◌>>=◌ {ℓ κ} : {A : Type ℓ} {B : Type κ} → Option A → (A → Option B) → Option B
none >>= f = none
some a >>= f = f a

-- A loop that counts what its body reports, as `rc` does.
unfoldable pub for_each : {A S : Type 0} → (A → S → Option (S × ℕ)) → List A → S → Option (S × ℕ)
for_each f [] s = some (s, 0)
for_each f (x ∷ xs) s = do (s', n) ← f x s; (t, m) ← for_each f xs s'; some (t, n + m)
