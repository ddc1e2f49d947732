-- ===== src/Cache.antt =====
-- The caches of ports and VLANs against the database: del_old_port, update_port_cache and
-- update_vlan_cache of src/vland_ovsdb_if.c. A loop over a table that only changes the data of its
-- nodes is a loop over the names; a loop that unlinks nodes runs over the names at its start.
pub mod Frame
pub mod Identity
pub mod Mirror
pub mod Ports
pub mod Registry
pub mod Vlans
pub mod Dangling
pub mod Stale
pub mod Display
pub mod Steps
mod Tests
use vland.Common.{
  ℕ, String, ◌≡◌, Bool, true, false, ◌&&◌, ◌||◌, not, Option, none, some, List, [], ◌∷◌, ◌+◌, ◌==◌,
  str_eq, is_some, if◌then◌else◌, Nodes, find, put, remove, names,
}
use vland.Idl.{Admin, Db, PortRow, VlanRow}
use vland.External.{Env}
use vland.State.{PortData, VlanData, State, ◌>>=◌, for_each}
use vland.Text.{admin_of}
use vland.Port.{construct_vlan_bitmap, add_new_port}
use vland.Vlan.{
  vlan_lookup_by_vid, update_vlan_membership, handle_vlan_config, add_new_vlan, del_old_vlan,
}

-- `if (f ()) rc++;`
abbrev pub once : ℕ → ℕ
once n = if n == 0 then 0 else 1

module _ (E : Env) where
  open E use {strings, bitmaps, link, port_inserted, port_modified, vlan_inserted, vlan_modified}
  open bitmaps use {Bitmap, bitmap_or, ones}

  abbrev pub Step : Type 0
  Step = State Bitmap → Option (State Bitmap × ℕ)

  -- `handle_vlan_config (vlan->idl_cfg, vlan)` for the cached VLAN at node `k`, after its membership
  -- was updated.
  pub configure : String → VlanData → Step
  configure k vlan s = do
    (db, v, n) ← handle_vlan_config E s.idl vlan.idl_cfg vlan
    some (record s { idl = db; all_vlans = put k v s.all_vlans }, n)

  -- `update_vlan_membership` for the cached VLAN at node `k`: the state, and the VLAN.
  pub refresh : String → VlanData → State Bitmap → State Bitmap × VlanData
  refresh k vlan s =
      let (ports, v) = update_vlan_membership E s.idl s.all_ports vlan in
      (record s { all_ports = ports; all_vlans = put k v s.all_vlans }, v)

  -- One turn of the loop of `del_old_port`.
  pub leave_vlan : ℕ → Step
  unfolding configure refresh
  leave_vlan vid s = elim (vlan_lookup_by_vid vid s.all_vlans) [
    | none ↦ some (s, 0)
    | some (k, vlan) ↦ let (s', v) = refresh k vlan s in configure k v s'
  ]

  unfoldable pub del_old_port : String → Step
  unfolding leave_vlan
  del_old_port name s = elim (find name s.all_ports) [
    | none ↦ some (s, 0)
    | some port ↦
        for_each leave_vlan (ones port.vlans_bitmap)
          (record s { all_ports = remove name s.all_ports })
  ]

  -- `sh_idl_ports`, of the rows so far; of two rows with one name the first stays.
  pub collect_ports : List PortRow → Nodes PortRow → Nodes PortRow
  collect_ports [] m = m
  collect_ports (row ∷ rows) m =
      collect_ports rows (if is_some (find row.name m) then m else link row.name row m)

  -- One turn of "Delete old ports".
  pub drop_port : Nodes PortRow → String → Step
  unfolding del_old_port
  drop_port idl_ports name s = elim (find name idl_ports) [
    | some row ↦ some (s, 0)
    | none ↦ do (s', n) ← del_old_port name s; some (s', once n)
  ]

  -- "Add new ports."
  pub add_ports : Nodes PortRow → Nodes (PortData Bitmap) → Nodes (PortData Bitmap)
  add_ports [] all_ports = all_ports
  add_ports ((name, row) ∷ rows) all_ports = add_ports rows (
      if not (is_some (find name all_ports)) && not (str_eq name strings.default_bridge_name)
      then add_new_port E all_ports row
      else all_ports)

  -- The body of OVSREC_VLAN_FOR_EACH for one VLAN ID of the old and new bitmaps.
  pub update_member : ℕ → VlanRow → Step
  unfolding configure refresh
  update_member vid vlanrow s =
      if vlanrow.id == vid
      then elim (vlan_lookup_by_vid vid s.all_vlans) [
        | none ↦ some (s, 0)
        | some (k, vlan) ↦
            let (s', v) = refresh k vlan s in
            if is_some vlanrow.l3port then some (s', 0) else configure k v s'
      ]
      else some (s, 0)

  pub update_members : ℕ → Step
  unfolding update_member
  update_members vid s = for_each (update_member vid) s.idl.vlans s

  -- One turn of "Check for changes in the port row entries".
  pub change_port : Nodes PortRow → String → Step
  unfolding update_members
  change_port idl_ports name s = do
    row ← find name idl_ports
    port ← find name s.all_ports
    let new = construct_vlan_bitmap E s.idl s.all_vlans_bitmap row port
    let modified_vlans = bitmap_or port.vlans_bitmap new.vlans_bitmap
    let s' = record s { all_ports = put name new s.all_ports }
    let run = for_each update_members (ones modified_vlans) s'
    (if port_inserted row s.idl_seqno || port_modified row s.idl_seqno then run else some (s, 0))

  unfoldable pub update_port_cache : Step
  unfolding collect_ports drop_port add_ports change_port
  update_port_cache s = do
    let idl_ports = collect_ports s.idl.ports []
    (s1, deleted) ← for_each (drop_port idl_ports) (names s.all_ports) s
    let s2 = record s1 { all_ports = add_ports idl_ports s1.all_ports }
    (s3, changed) ← for_each (change_port idl_ports) (names s2.all_ports) s2
    some (s3, deleted + changed)

  -- `sh_idl_vlans`, of the rows so far.
  pub collect_vlans : List VlanRow → Nodes VlanRow → Nodes VlanRow
  collect_vlans [] m = m
  collect_vlans (row ∷ rows) m =
      collect_vlans rows (if is_some (find row.name m) then m else link row.name row m)

  -- "Delete old VLANs", over the names at its start.
  pub drop_vlans : Nodes VlanRow → List String → State Bitmap → State Bitmap
  drop_vlans idl_vlans [] s = s
  drop_vlans idl_vlans (name ∷ rest) s =
      drop_vlans idl_vlans rest (if is_some (find name idl_vlans) then s else del_old_vlan E name s)

  -- "Add new VLANs."
  pub add_vlans : Nodes VlanRow → State Bitmap → State Bitmap
  add_vlans [] s = s
  add_vlans ((name, row) ∷ rows) s =
      add_vlans rows (if is_some (find name s.all_vlans) then s else add_new_vlan E row s)

  -- One turn of "Check for changes in the VLAN row entries".
  pub change_vlan : Nodes VlanRow → String → Step
  change_vlan idl_vlans name s = do
    row ← find name idl_vlans
    vlan ← find name s.all_vlans
    let v = record vlan { admin = admin_of strings row }
    let run = do
      (db, v', n) ← handle_vlan_config E s.idl row.uuid v
      some (record s { idl = db; all_vlans = put name v' s.all_vlans }, n)
    (if vlan_inserted row s.idl_seqno || vlan_modified row s.idl_seqno then run else some (s, 0))

  unfoldable pub update_vlan_cache : Step
  unfolding collect_vlans drop_vlans add_vlans change_vlan
  update_vlan_cache s = do
    let idl_vlans = collect_vlans s.idl.vlans []
    let s1 = drop_vlans idl_vlans (names s.all_vlans) s
    let s2 = add_vlans idl_vlans s1
    for_each (change_vlan idl_vlans) (names s2.all_vlans) s2
