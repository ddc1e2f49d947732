-- ===== src/Samples.antt =====
-- A concrete environment for the tests: bitmaps as functions, tables that grow at the front, and the
-- schema's strings.
use vland.Common.{
  ℕ, zero, suc, ◌+◌, ◌≤◌, leb, ◌<◌, ◌≡◌, refl, Bool, true, false, ◌&&◌, ◌||◌, List, [], ◌∷◌, arith,
  ◌==◌, ltb, eq_iff, if◌then◌else◌, contains, All, none,
}
use vland.Common.{some}
use vland.Common.Int.{pos}
use vland.Idl.{VlanMode, Admin, OperState, OperStateReason, Db, BridgeRow, PortRow, VlanRow}
use vland.State.{PortData, VlanData, State}
use vland.State.{for_each}
use vland.Text.{vlan_mode_of, admin_of, vlan_oper_state_to_str, vlan_oper_state_reason_to_str}
use vland.Port.{check_port_in_bridge, native_vid_of, construct_vlan_bitmap, add_new_port}
use vland.Vlan.{
  vlan_lookup_by_vid, parse_vlan_data, has_vlan_id, vland_default_vlan_member_port,
  calc_vlan_op_state_n_reason, update_vlan_membership, handle_vlan_config, add_new_vlan,
  del_old_vlan,
}
use vland.Cache.{del_old_port, update_port_cache, update_vlan_cache}
use vland.Run.{
  Turn, TxnStatus, find_bridge, create_default_vlan, vland_chk_for_system_configured,
  vland_reconfigure, vland_run,
}
use vland.External.{Strings, IsDistinct, Bitmaps, BitmapLaws, Env, LinkLaws}

abbrev pub strings : Strings
strings = record {
  mode_access = "access";
  mode_trunk = "trunk";
  mode_native_tagged = "native-tagged";
  mode_native_untagged = "native-untagged";
  admin_up = "up";
  admin_down = "down";
  state_unknown = "unknown";
  state_up = "up";
  state_down = "down";
  reason_unknown = "unknown";
  reason_admin_down = "admin_down";
  reason_ok = "ok";
  reason_no_member_port = "no_member_port";
  default_bridge_name = "bridge_normal";
  hw_enable_true = "true";
}

pub strings-IsDistinct : IsDistinct strings
strings-IsDistinct = record {
  access_trunk = ground (arith, eq_iff "access" "trunk");
  access_tagged = ground (arith, eq_iff "access" "native-tagged");
  access_untagged = ground (arith, eq_iff "access" "native-untagged");
  trunk_tagged = ground (arith, eq_iff "trunk" "native-tagged");
  trunk_untagged = ground (arith, eq_iff "trunk" "native-untagged");
  tagged_untagged = ground (arith, eq_iff "native-tagged" "native-untagged");
}

-- The positions below `n`, from `i` on, that a set has.
unfoldable pub ones_from : ℕ → ℕ → (ℕ → Bool) → List ℕ
ones_from zero i b = []
ones_from (suc n) i b = let rest = ones_from n (suc i) b in if b i then i ∷ rest else rest

abbrev pub bitmaps : Bitmaps
bitmaps = record {
  Bitmap = ℕ → Bool;
  size = 4096;
  bitmap_allocate = λ i. false;
  bitmap_set = λ b i v j. if j == i then v else b j;
  bitmap_is_set = λ b i. b i;
  bitmap_or = λ a b i. a i || b i;
  vlan_bitmap_clone = λ b. b;
  vlan_bitmap_from_array = λ vs i. contains i vs;
  ones = ones_from 4096 0;
}

contains-ones_from :
    (n i : ℕ) (b : ℕ → Bool) (j : ℕ)
    → contains j (ones_from n i b) ≡ (b j && (ltb j (i + n) && leb i j))
unfolding ones_from
contains-ones_from zero i b j = ground arith
contains-ones_from (suc n) i b j = ground (arith, contains-ones_from n (suc i) b j)

ones_from-lt : (n i m : ℕ) (b : ℕ → Bool) → i + n ≤ m → All (λ j. j < m) (ones_from n i b)
unfolding ones_from
ones_from-lt zero i m b h = tt
ones_from-lt (suc n) i m b h = ground (arith, ones_from-lt n (suc i) m b)

pub bitmaps-laws : BitmapLaws bitmaps
bitmaps-laws = record {
  set-allocate = λ i h. refl;
  is_set-set = λ b i v j h k. refl;
  is_set-or = λ a b i h. refl;
  is_set-clone = λ b i h. refl;
  is_set-from_array = λ v vs i h hs k. refl;
  contains-ones = λ b i h. ground (arith, contains-ones_from 4096 0 b i);
  ones-lt = λ b. ones_from-lt 4096 0 4096 b (omega arith);
}

abbrev pub env : Env
env = record {
  strings = strings;
  bitmaps = bitmaps;
  link = λ k v m. (k, v) ∷ m;
  port_inserted = λ r n. true;
  port_modified = λ r n. false;
  vlan_inserted = λ r n. true;
  vlan_modified = λ r n. false;
}

pub env-laws : LinkLaws env
env-laws = record {
  find-link = λ k j v m e. refl;
  Unique-link = λ k v m e u. (e, u);
  All-link = λ P k v m. (λ h. h, λ h. h);
}

-- VLAN 10, in admin state up, with no status yet.
abbrev pub vlan_row : VlanRow
vlan_row = record {
  uuid = 10;
  name = "VLAN10";
  id = 10;
  description = none;
  admin = some "up";
  l3port = none;
  hw_vlan_config = [];
  oper_state = none;
  oper_state_reason = none;
}

-- Port 1 is an access port of VLAN 10; port 2 trunks every VLAN.
abbrev pub access_row : PortRow
access_row = record { name = "1"; vlan_mode = some "access"; vlan_tag = some 10; vlan_trunks = [] }

abbrev pub trunk_row : PortRow
trunk_row = record { name = "2"; vlan_mode = some "trunk"; vlan_tag = none; vlan_trunks = [] }

abbrev pub bridge_row : BridgeRow
bridge_row = record { uuid = 1; name = "bridge_normal"; ports = "1" ∷ "2" ∷ []; vlans = 10 ∷ [] }

abbrev pub db : Db
db = record {
  seqno = 7;
  system = some (record { cur_cfg = pos 1; bridges = 1 ∷ [] });
  bridges = bridge_row ∷ [];
  ports = access_row ∷ trunk_row ∷ [];
  vlans = vlan_row ∷ [];
}

-- The daemon before its first turn, in a system whose default VLAN was created.
abbrev pub start : State (ℕ → Bool)
start = record {
  idl = db;
  idl_seqno = 0;
  system_configured = true;
  default_vlan_created = true;
  all_ports = [];
  all_vlans = [];
  all_vlans_bitmap = λ i. false;
}

abbrev pub vlan : VlanData
vlan = record {
  idl_cfg = 10;
  name = "VLAN10";
  vid = 10;
  any_member_exists = false;
  admin = Admin.up;
  op_state = OperState.unknown;
  op_state_reason = OperStateReason.unknown;
}

abbrev pub access_port : PortData (ℕ → Bool)
access_port = record {
  name = "1";
  vlan_mode = VlanMode.access;
  native_vid = pos 10;
  trunk_all_vlans = false;
  vlans_bitmap = λ i. i == 10;
}

-- The daemon with VLAN 10 and its access port in the caches.
abbrev pub running : State (ℕ → Bool)
running = record start {
  all_ports = ("1", access_port) ∷ [];
  all_vlans = ("VLAN10", vlan) ∷ [];
  all_vlans_bitmap = λ i. i == 10;
}

-- A turn with the lock and with transactions that go through.
abbrev pub turn : Turn
turn = record {
  received = db;
  is_lock_contended = false;
  has_lock = true;
  new_uuid = 99;
  commit_status = TxnStatus.success;
  after_commit = λ a b. b;
}

-- The daemon's code, for the tests that run it.
unfoldable pub daemon_code : Unit {0}
unfolding vland_run vland_chk_for_system_configured vland_reconfigure create_default_vlan
    find_bridge update_port_cache update_vlan_cache del_old_port for_each construct_vlan_bitmap
    vlan_mode_of add_new_port check_port_in_bridge vlan_lookup_by_vid update_vlan_membership
    handle_vlan_config calc_vlan_op_state_n_reason vlan_oper_state_to_str
    vlan_oper_state_reason_to_str admin_of parse_vlan_data add_new_vlan del_old_vlan ones_from
    vland_default_vlan_member_port has_vlan_id native_vid_of
daemon_code = tt

-- What the first turn's `vland_reconfigure` leaves, and what it returns.
abbrev pub reconfigured : State (ℕ → Bool)
unfolding daemon_code
reconfigured = elim (vland_reconfigure env start) [ none ↦ start | some (s, n) ↦ s ]
