-- ===== src/Cli.antt =====
-- The command line of src/cli/vlan_vty.c: the tables it edits, the calls it makes, and, in the child
-- modules, its commands.
pub mod Lag
pub mod Intf
pub mod Trunk
pub mod Laws
pub mod Vids
pub mod Hoare
pub mod Edit
pub mod LagFaults
pub mod LagTrunks
pub mod Search
pub mod Install
pub mod Internal
pub mod Shutdown
pub mod Sort
pub mod Own
pub mod Config
pub mod Show
pub mod Create
pub mod Samples
mod Tests
pub mod LagInvariant
pub mod IntfInvariant
pub mod IntfFaults
use vland.Common.{
  ℕ, String, ◌≡◌, Bool, true, false, not, ◌&&◌, ◌||◌, Option, none, some, List, [], ◌∷◌, ◌++◌, ◌+◌,
  ◌==◌, contains, str_eq, if◌then◌else◌, All,
}
use vland.Common.Int.{ℤ, pos, negsuc}
use vland.Idl.{BridgeRow, VlanRow}
use vland.Run.{TxnStatus, is_done}

pub record InterfaceRow : Type 0 where
  pub uuid : ℕ
  pub name : String
  pub type : String

-- `vlan_tag` is `none` for NULL, and otherwise the VLAN ID that `ops_port_get_tag` reads through it;
-- `vlan_trunks` holds what `ops_port_get_trunks` reads at each index below `n_vlan_trunks`.
pub record PortRow : Type 0 where
  pub uuid : ℕ
  pub name : String
  -- references to Interface rows, by uuid
  pub interfaces : List ℕ
  pub vlan_mode : Option String
  pub vlan_tag : Option ℕ
  pub vlan_trunks : List ℕ

-- The internal VLAN range as `smap_get_int` reads it from the System row, -1 where a key is missing.
pub record SystemRow : Type 0 where
  pub min_internal_vlan : ℤ
  pub max_internal_vlan : ℤ
  pub internal_vlan_policy : Option String

-- The tables that the commands read and write, with the writes of the open transaction.
pub record Tables : Type 0 where
  pub system : Option SystemRow
  pub interfaces : List InterfaceRow
  pub ports : List PortRow
  pub vlans : List VlanRow
  pub bridges : List BridgeRow

-- The strings of the column vlan_mode, and the functions of vtysh and of the IDL's utilities.
-- `check_internal_vlan` returns 0 for a VLAN ID in internal use. `port_check_and_add` returns the
-- tables after the call, and the row or NULL. `ops_port_get_tag` may be called with
-- NULL, or with a row whose `vlan_tag` is NULL; it is `none` where it faults, and otherwise what it
-- returns. The setters return the port's row after the call.
pub record Vtysh : Type 0 where
  pub mode_access : String
  pub mode_trunk : String
  pub mode_native_tagged : String
  pub mode_native_untagged : String
  pub check_port_in_bridge : Tables → String → Bool
  pub check_iface_in_bridge : Tables → String → Bool
  pub check_internal_vlan : Tables → ℕ → ℕ
  pub port_check_and_add : Tables → String → Tables × Option PortRow
  pub ops_port_get_tag : Option PortRow → Option ℤ
  pub ops_port_set_tag : Tables → ℕ → PortRow → PortRow
  pub ops_port_set_trunks : Tables → List ℕ → PortRow → PortRow

-- DEFAULT_VLAN
abbrev pub default_vlan : ℕ
default_vlan = 1

-- Whether a loop over the VLAN rows finds an ID.
unfoldable pub is_vlan : ℕ → List VlanRow → Bool
is_vlan id [] = false
is_vlan id (row ∷ rows) = row.id == id || is_vlan id rows

-- What a command prints.
pub data Message : Type 0 where
  transaction_failed routing_enabled vlan_not_found port_not_found not_in_access_mode : Message
  not_in_trunk_mode not_in_native_mode not_in_native_tagged_mode in_access_mode already_allowed :
      Message
  not_the_native_vlan vlan_not_configured not_the_access_vlan internal_vlan internal_range : Message
  part_of_lag : String → Message
  invalid_vlan_range shutdown_not_permitted : Message
  internal_no_config internal_no_deletion vlan_has_interface vlan_not_created : Message
  invalid_internal_range : ℕ → ℕ → Message

-- How a command leaves its transaction: aborted or never begun, or handed to `cli_do_config_finish` with the tables
-- as written.
pub data Ending : Type 0 where
  aborted : Ending
  finished : Tables → Ending

-- The value that a command returns.
pub data Code : Type 0 where
  cmd_success cmd_ovsdb_failure cmd_err_no_match cmd_err_nothing_todo : Code

-- The values that a command may give `vty->node`, with `vty->index`.
pub data Context : Type 0 where
  config_node : Context
  vlan_node : ℕ → Context
  vlan_interface_node : String → Context

-- `enters` is `none` where `vty->node` stays.
pub record Outcome : Type 0 where
  pub code : Code
  pub said : List Message
  pub ending : Ending
  pub enters : Option Context

-- The rest of a command may still run, the command may have returned, or it may have read through a
-- NULL pointer or past what it wrote.
pub data Step (A : Type 0) : Type 0 where
  go : A → Step A
  stop : Outcome → Step A
  fault : Step A

infixl 5 ◌>>=◌
abbrev pub ◌>>=◌ : {A B : Type 0} → Step A → (A → Step B) → Step B
go a >>= f = f a
stop o >>= f = stop o
fault >>= f = fault

-- The transaction: whether `cli_do_config_start` gave one, and what `cli_do_config_finish` returns.
pub record Session : Type 0 where
  pub has_txn : Bool
  pub status : TxnStatus

abbrev pub abort : {A : Type 0} → List Message → Step A
abort said = stop (record { code = cmd_success; said = said; ending = aborted; enters = none })

-- A guard that aborts the transaction with a message.
abbrev pub require : Bool → List Message → Step Unit
require true said = go tt
require false said = abort said

abbrev pub deref : {A : Type 0} → Option A → Step A
deref none = fault
deref (some a) = go a

abbrev pub finish : Session → List Message → Tables → Step Unit
finish s said db = stop (record {
  code = cmd_success;
  said = if is_done s.status then said else said ++ (transaction_failed ∷ []);
  ending = finished db;
  enters = none;
})

-- `strcmp (mode, name) == 0` where `mode` may be NULL: then there is no answer.
abbrev pub mode_is : Option String → String → Step Bool
mode_is none name = fault
mode_is (some mode) name = go (str_eq mode name)

-- `mode != NULL && strcmp (mode, name) == 0`
abbrev pub mode_eq : Option String → String → Bool
mode_eq none name = false
mode_eq (some mode) name = str_eq mode name

-- A write to one row of the Port table.
abbrev pub put_port : PortRow → List PortRow → List PortRow
put_port row [] = []
put_port row (p ∷ ps) = if p.uuid == row.uuid then row ∷ ps else p ∷ put_port row ps

abbrev pub write_port : PortRow → Tables → Tables
write_port row db = record db { ports = put_port row db.ports }

-- The first port with a name.
unfoldable pub find_port : String → List PortRow → Option PortRow
find_port name [] = none
find_port name (p ∷ ps) = if str_eq p.name name then some p else find_port name ps

-- The VLANs other than one.
unfoldable pub without : ℕ → List ℕ → List ℕ
without id [] = []
without id (v ∷ vs) = let rest = without id vs in if v == id then rest else v ∷ rest

abbrev pub length : List ℕ → ℕ
length [] = 0
length (v ∷ vs) = 1 + length vs

-- Removing a VLAN from the trunks, `none` if it is not there: the new array has one place less than
-- the old, and they are all written only if the VLAN occurs once.
unfoldable pub drop_trunk : ℕ → List ℕ → Step (Option (List ℕ))
unfolding without
drop_trunk id trunks =
    if contains id trunks
    then (if 1 + length (without id trunks) == length trunks
        then go (some (without id trunks))
        else fault)
    else go none

-- `mode != NULL && strcmp (mode, name) != 0`
abbrev pub is_set_to_other : Option String → String → Bool
is_set_to_other none name = false
is_set_to_other (some mode) name = not (str_eq mode name)

-- `ovsrec_port_set_vlan_mode`
abbrev pub set_mode : String → PortRow → PortRow
set_mode mode row = record row { vlan_mode = some mode }

module _ (X : Vtysh) where
  open X use {
    mode_access, mode_trunk, mode_native_tagged, mode_native_untagged, ops_port_get_tag,
    ops_port_set_tag, ops_port_set_trunks,
  }

  -- `vlan_id == 0 || ops_port_get_tag (row) == vlan_id`, where the call is made only for a VLAN ID.
  unfoldable pub has_tag : ℕ → Option PortRow → Step Bool
  has_tag vlan_id found = if vlan_id == 0 then go true else elim (ops_port_get_tag found) [
    | none ↦ fault
    | some tag ↦ go (elim tag [ pos n ↦ n == vlan_id | negsuc n ↦ false ])
  ]

  -- `vlan_mode` is neither of the two native modes.
  abbrev pub is_not_native : PortRow → Bool
  is_not_native row =
      not (mode_eq row.vlan_mode mode_native_tagged)
      && not (mode_eq row.vlan_mode mode_native_untagged)

  -- `vlan_mode` is set, and to none of the three trunk modes; to neither of the native ones.
  abbrev pub is_other_than_trunk : PortRow → Bool
  is_other_than_trunk row = is_set_to_other row.vlan_mode mode_trunk && is_not_native row

  abbrev pub is_other_than_native : PortRow → Bool
  is_other_than_native row =
      is_set_to_other row.vlan_mode mode_native_tagged
      && is_set_to_other row.vlan_mode mode_native_untagged

  -- The same of a port that may be NULL: then it is not.
  abbrev pub is_found_other : Option PortRow → Bool
  is_found_other none = false
  is_found_other (some row) = is_other_than_native row

  -- The port and `trunk_count` after the loop that removes a VLAN.
  unfoldable pub after_drop : Tables → PortRow → Option (List ℕ) → PortRow × ℕ
  after_drop db row none = (row, length row.vlan_trunks)
  after_drop db row (some kept) = (ops_port_set_trunks db kept row, length kept)

  -- A trunk port that has lost its last VLAN becomes an access port of the default VLAN.
  unfoldable pub settle_mode : Tables → Bool → ℕ → PortRow → PortRow
  settle_mode db is_trunk trunk_count row =
      if is_trunk && (trunk_count == 0)
      then ops_port_set_tag db default_vlan (set_mode mode_access row)
      else row

  -- An access port of one VLAN.
  unfoldable pub set_access : Tables → ℕ → PortRow → PortRow
  set_access db vlan_id row =
      ops_port_set_trunks db [] (ops_port_set_tag db vlan_id (set_mode mode_access row))

  -- A LAG that gives up its access VLAN.
  unfoldable pub clear_access : Tables → PortRow → PortRow
  clear_access db row = ops_port_set_tag db default_vlan (record row { vlan_mode = none })

  -- A mode for a port that is in neither of the native ones.
  unfoldable pub into_mode : String → PortRow → PortRow
  into_mode mode row = if is_not_native row then set_mode mode row else row

  unfoldable pub add_trunk : Tables → ℕ → PortRow → PortRow
  add_trunk db vlan_id row = ops_port_set_trunks db (row.vlan_trunks ++ (vlan_id ∷ [])) row

  unfoldable pub set_native : Tables → ℕ → PortRow → PortRow
  unfolding into_mode
  set_native db vlan_id row = ops_port_set_tag db vlan_id (into_mode mode_native_untagged row)

  -- The mode of a port that has given up its native VLAN and has so many trunks.
  unfoldable pub without_native : ℕ → PortRow → PortRow
  without_native trunk_count row =
      set_mode (if trunk_count == 0 then mode_access else mode_trunk) row
