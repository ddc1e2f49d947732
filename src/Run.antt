-- ===== src/Run.antt =====
-- The daemon's turn on the database: vland_chk_for_system_configured, create_default_vlan,
-- vland_reconfigure and vland_run of src/vland_ovsdb_if.c, and the main loop of src/vland.c.
pub mod Gate
pub mod Retry
pub mod Reconfigure
pub mod Default
pub mod Main
pub mod Mirror
pub mod Reach
pub mod Registry
pub mod Columns
pub mod Display
pub mod Committed
pub mod Orderly
pub mod Samples
pub mod Dump
pub mod Start
mod Tests
use vland.Common.{
  ℕ, ◌+◌, String, ◌≡◌, Bool, true, false, not, Option, none, some, List, [], ◌∷◌, ◌++◌, ◌==◌, ltb,
  str_eq, if◌then◌else◌,
}
use vland.Common.Int.{ℤ, pos, negsuc}
use vland.Idl.{Admin, OperState, OperStateReason, Db, SystemRow, BridgeRow, VlanRow}
use vland.External.{Env}
use vland.State.{State, ◌>>=◌}
use vland.Text.{vlan_oper_state_to_str}
use vland.Vlan.{default_vid, has_vlan_id}
use vland.Cache.{once, update_port_cache, update_vlan_cache}

-- enum ovsdb_idl_txn_status, as far as the code tells its values apart.
pub data TxnStatus : Type 0 where
  success unchanged other : TxnStatus

-- What the IDL does in one turn. `received` is the replica after `ovsdb_idl_run`; `after_commit a b`
-- is the replica after a transaction that began at `a`, wrote `b`, and was committed and destroyed.
pub record Turn : Type 0 where
  pub received : Db
  pub is_lock_contended : Bool
  pub has_lock : Bool
  pub new_uuid : ℕ
  pub commit_status : TxnStatus
  pub after_commit : Db → Db → Db

-- `status == TXN_SUCCESS || status == TXN_UNCHANGED`
abbrev pub is_done : TxnStatus → Bool
is_done TxnStatus.success = true
is_done TxnStatus.unchanged = true
is_done TxnStatus.other = false

unfoldable pub find_bridge : String → List BridgeRow → Option BridgeRow
find_bridge name [] = none
find_bridge name (b ∷ bs) = if str_eq b.name name then some b else find_bridge name bs

-- `ovsrec_bridge_set_vlans` on one row.
set_bridge_vlans : ℕ → List ℕ → List BridgeRow → List BridgeRow
set_bridge_vlans u vlans [] = []
set_bridge_vlans u vlans (b ∷ bs) =
    if u == b.uuid then record b { vlans = vlans } ∷ bs else b ∷ set_bridge_vlans u vlans bs

-- `sys->cur_cfg > 0`
abbrev pub is_configured : Option SystemRow → Bool
is_configured none = false
is_configured (some sys) = elim sys.cur_cfg [ pos n ↦ ltb 0 n | negsuc n ↦ false ]

module _ (E : Env) where
  open E use {strings, bitmaps}
  open bitmaps use {Bitmap}

  unfoldable pub vland_chk_for_system_configured : State Bitmap → State Bitmap
  vland_chk_for_system_configured s =
      if s.system_configured
      then s
      else if is_configured s.idl.system
      then record s { system_configured = true }
      else s

  -- The row of the default VLAN.
  abbrev pub default_vlan_row : ℕ → VlanRow
  default_vlan_row uuid = record {
    uuid = uuid;
    name = "DEFAULT_VLAN_1";
    id = default_vid;
    description = none;
    admin = some strings.admin_up;
    l3port = none;
    hw_vlan_config = [];
    oper_state = some strings.state_down;
    oper_state_reason = some strings.reason_admin_down;
  }

  -- The state, and the returned value.
  unfoldable pub create_default_vlan : Turn → State Bitmap → State Bitmap × Bool
  unfolding find_bridge set_bridge_vlans
  create_default_vlan t s =
      if has_vlan_id default_vid s.idl.vlans
      then (record s { default_vlan_created = true }, false)
      else elim (find_bridge strings.default_bridge_name s.idl.bridges) [
        | none ↦ (s, false)
        | some bridge ↦
            let db = s.idl in
            let written = record db {
              vlans = db.vlans ++ default_vlan_row t.new_uuid ∷ [];
              bridges = set_bridge_vlans bridge.uuid (bridge.vlans ++ t.new_uuid ∷ []) db.bridges;
            } in
            (
              record s {
                idl = t.after_commit db written;
                default_vlan_created =
                    if is_done t.commit_status then true else s.default_vlan_created;
              },
              true,
            )
      ]

  -- The two cache updates, and the new sequence number.
  pub update_caches : ℕ → State Bitmap → Option (State Bitmap × ℕ)
  update_caches new_idl_seqno s = do
    (s1, ports) ← update_port_cache E s
    (s2, vlans) ← update_vlan_cache E s1
    some (record s2 { idl_seqno = new_idl_seqno }, once ports + once vlans)

  unfoldable pub vland_reconfigure : State Bitmap → Option (State Bitmap × ℕ)
  unfolding update_caches
  vland_reconfigure s =
      if s.idl.seqno == s.idl_seqno then some (s, 0) else update_caches s.idl.seqno s

  -- The transaction of `vland_run`: it is committed only if something was written.
  pub transact : Turn → State Bitmap → Option (State Bitmap)
  transact t s = do
    (s', n) ← vland_reconfigure s
    some (record s' { idl = if n == 0 then s.idl else t.after_commit s.idl s'.idl })

  -- The part of `vland_run` that holds the lock.
  pub locked_run : Turn → State Bitmap → Option (State Bitmap)
  unfolding transact
  locked_run t s =
      let s1 = vland_chk_for_system_configured s in
      let s2 = if s1.default_vlan_created then s1 else (create_default_vlan t s1).0 in
      if s1.system_configured then transact t s2 else some s1

  unfoldable pub vland_run : Turn → State Bitmap → Option (State Bitmap)
  unfolding locked_run
  vland_run t s =
      let s1 = record s { idl = t.received } in
      if t.is_lock_contended then some s1 else if not t.has_lock then some s1 else locked_run t s1
