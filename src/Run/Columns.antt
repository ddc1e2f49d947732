-- ===== src/Run/Columns.antt =====
-- The columns that vland_ovsdb_init of src/vland_ovsdb_if.c has the IDL keep, and those of which it
-- wants no alert: the daemon's own writes do not wake it.
use vland.Common.{
  ap, sym, ℕ, ◌==◌, ◌≡◌, ◌∙◌, refl, Bool, true, false, ◌&&◌, ◌||◌, not, Option, none, some, List,
  [], ◌∷◌, map, arith, All₂, if◌then◌else◌,
}
use vland.Common.Int.{pos}
use vland.Idl.{Db, SystemRow, BridgeRow, PortRow, VlanRow}
use vland.External.{Env}
use vland.State.{State}
use vland.Cache.Frame.{SameConfig, StatusOnly}
use vland.Run.{Turn, vland_reconfigure, vland_run}
use vland.Run.Gate.{vland_run_idle}
use vland.Run.Reconfigure.{vland_reconfigure_lem}

pub data Table : Type 0 where
  system port vlan bridge : Table

pub data Column : Type 0 where
  system_cur_cfg system_bridges : Column
  port_name port_vlan_mode port_vlan_tag port_vlan_trunks : Column
  vlan_name vlan_id vlan_description vlan_admin vlan_internal_usage : Column
  vlan_hw_vlan_config vlan_oper_state vlan_oper_state_reason : Column
  vlan_external_ids vlan_other_config : Column
  bridge_name bridge_ports bridge_vlans : Column

pub data IdlCall : Type 0 where
  add_table : Table → IdlCall
  add_column omit_alert : Column → IdlCall

-- The calls of `vland_ovsdb_init` on the new IDL, in their order.
unfoldable pub idl_calls : List IdlCall
idl_calls =
    add_table system
    ∷ add_column system_cur_cfg
    ∷ add_column system_bridges
    ∷ add_table port
    ∷ add_column port_name
    ∷ add_column port_vlan_mode
    ∷ add_column port_vlan_tag
    ∷ add_column port_vlan_trunks
    ∷ add_table vlan
    ∷ add_column vlan_internal_usage
    ∷ add_column vlan_admin
    ∷ add_column vlan_name
    ∷ add_column vlan_id
    ∷ add_column vlan_hw_vlan_config
    ∷ omit_alert vlan_hw_vlan_config
    ∷ add_column vlan_oper_state
    ∷ omit_alert vlan_oper_state
    ∷ add_column vlan_oper_state_reason
    ∷ omit_alert vlan_oper_state_reason
    ∷ add_table bridge
    ∷ add_column bridge_name
    ∷ add_column bridge_ports
    ∷ add_column bridge_vlans
    ∷ omit_alert bridge_vlans
    ∷ []

abbrev pub code : Column → ℕ
code system_cur_cfg = 0
code system_bridges = 1
code port_name = 2
code port_vlan_mode = 3
code port_vlan_tag = 4
code port_vlan_trunks = 5
code vlan_name = 6
code vlan_id = 7
code vlan_description = 8
code vlan_admin = 9
code vlan_internal_usage = 10
code vlan_hw_vlan_config = 11
code vlan_oper_state = 12
code vlan_oper_state_reason = 13
code bridge_name = 14
code bridge_ports = 15
code bridge_vlans = 16
code vlan_external_ids = 17
code vlan_other_config = 18

-- Whether the calls add a column, and whether they omit its alerts.
abbrev pub is_added : Column → List IdlCall → Bool
is_added c [] = false
is_added c (add_column d ∷ calls) = code c == code d || is_added c calls
is_added c (_ ∷ calls) = is_added c calls

abbrev pub is_omitted : Column → List IdlCall → Bool
is_omitted c [] = false
is_omitted c (omit_alert d ∷ calls) = code c == code d || is_omitted c calls
is_omitted c (_ ∷ calls) = is_omitted c calls

-- The IDL alerts on a change in a column that was added, and whose alerts are not omitted.
abbrev pub alerts : List IdlCall → Column → Bool
alerts calls c = is_added c calls && not (is_omitted c calls)

abbrev pub shown {ℓ} : {A : Type ℓ} → (Column → Bool) → Column → A → A → A
shown a c x y = if a c then x else y

-- A database with the columns that do not alert blanked.
module _ (a : Column → Bool) where
  system_view : SystemRow → SystemRow
  system_view r = record {
    cur_cfg = shown a system_cur_cfg r.cur_cfg (pos 0);
    bridges = shown a system_bridges r.bridges [];
  }

  opt_view : Option SystemRow → Option SystemRow
  opt_view none = none
  opt_view (some r) = some (system_view r)

  bridge_view : BridgeRow → BridgeRow
  bridge_view r = record {
    uuid = r.uuid;
    name = shown a bridge_name r.name "";
    ports = shown a bridge_ports r.ports [];
    vlans = shown a bridge_vlans r.vlans [];
  }

  port_view : PortRow → PortRow
  port_view r = record {
    name = shown a port_name r.name "";
    vlan_mode = shown a port_vlan_mode r.vlan_mode none;
    vlan_tag = shown a port_vlan_tag r.vlan_tag none;
    vlan_trunks = shown a port_vlan_trunks r.vlan_trunks [];
  }

  unfoldable pub vlan_view : VlanRow → VlanRow
  vlan_view r = record {
    uuid = r.uuid;
    name = shown a vlan_name r.name "";
    id = shown a vlan_id r.id 0;
    description = shown a vlan_description r.description none;
    admin = shown a vlan_admin r.admin none;
    l3port = shown a vlan_internal_usage r.l3port none;
    hw_vlan_config = shown a vlan_hw_vlan_config r.hw_vlan_config [];
    oper_state = shown a vlan_oper_state r.oper_state none;
    oper_state_reason = shown a vlan_oper_state_reason r.oper_state_reason none;
  }

  unfoldable pub alert_view : Db → Db
  unfolding system_view opt_view bridge_view port_view vlan_view
  alert_view db = record {
    seqno = 0;
    system = opt_view db.system;
    bridges = map bridge_view db.bridges;
    ports = map port_view db.ports;
    vlans = map vlan_view db.vlans;
  }

-- The sequence number of the replica changes only with a column that alerts.
abbrev pub AlertsOnly : Db → Db → Type 0
AlertsOnly a b =
    alert_view (alerts idl_calls) a ≡ alert_view (alerts idl_calls) b → a.seqno ≡ b.seqno

-- What the daemon's replica of a VLAN row has: all but the description.
vlan_view-idl_calls :
    (r : VlanRow) → vlan_view (λ c. is_added c idl_calls) r ≡ record r { description = none }
unfolding vlan_view idl_calls
vlan_view-idl_calls r = refl

vlan_view-SameConfig :
    (r r' : VlanRow)
    → SameConfig r r'
    → vlan_view (alerts idl_calls) r' ≡ vlan_view (alerts idl_calls) r
unfolding vlan_view idl_calls
vlan_view-SameConfig r r' h = ground (arith, h)

views-SameConfig :
    (rows rows' : List VlanRow)
    → All₂ SameConfig rows rows'
    → map (vlan_view (alerts idl_calls)) rows' ≡ map (vlan_view (alerts idl_calls)) rows
views-SameConfig [] [] h = refl
views-SameConfig (r ∷ rows) (r' ∷ rows') h =
    ground (arith, vlan_view-SameConfig r r' h.0, views-SameConfig rows rows' h.1)
views-SameConfig [] (r ∷ rows) h = absurd h
views-SameConfig (r ∷ rows) [] h = absurd h

alert_view-StatusOnly :
    (db db' : Db)
    → StatusOnly db db'
    → alert_view (alerts idl_calls) db' ≡ alert_view (alerts idl_calls) db
unfolding alert_view
alert_view-StatusOnly db db' h = ground (arith, h.rest, views-SameConfig db.vlans db'.vlans h.rows)

view-seqno :
    (db : Db) (n : ℕ)
    → alert_view (alerts idl_calls) (record db { seqno = n }) ≡ alert_view (alerts idl_calls) db
unfolding alert_view
view-seqno db n = refl

module _ (E : Env) where
  open E use {bitmaps}
  open bitmaps use {Bitmap}

  -- The daemon's own writes do not wake it: after `vland_reconfigure`, a turn with the lock that
  -- receives the database that it has written takes it over and changes nothing else. The system is
  -- configured and has its default VLAN. The IDL's sequence number changes only with a column that
  -- alerts.
  pub vland_run-own_writes :
      (s u : State Bitmap) (n : ℕ) (t : Turn)
      → vland_reconfigure E s ≡ some (u, n)
      → t.received ≡ record u.idl { seqno = t.received.seqno }
      → AlertsOnly t.received s.idl
      → t.is_lock_contended ≡ false
      → t.has_lock ≡ true
      → u.system_configured ≡ true
      → u.default_vlan_created ≡ true
      → vland_run E t u ≡ some (record u { idl = t.received })
  vland_run-own_writes s u n t e same quiet free held c d =
      let r = vland_reconfigure_lem E s u n e in
      let seen = ap (alert_view (alerts idl_calls)) same ∙ view-seqno u.idl t.received.seqno in
      let q = quiet (seen ∙ alert_view-StatusOnly s.idl u.idl r.db) in
      vland_run_idle E t u c d (q ∙ sym r.seqno)
