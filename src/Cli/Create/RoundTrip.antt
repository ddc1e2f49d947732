-- ===== src/Cli/Create/RoundTrip.antt =====
-- `vlan <id>`, and what `no vlan <id>` leaves of it.
use mathlib.Core.Path.{subst}
use vland.Common.{
  ap, ◌∙◌, ℕ, ◌≡◌, refl, true, false, not, ◌&&◌, ◌||◌, none, some, is_some, List, [], ◌∷◌, ◌++◌,
  ◌==◌, contains, str_eq, All, arith, Option-cases, inl, inr,
}
use vland.Idl.{BridgeRow, VlanRow}
use vland.External.{Strings}
use vland.Cli.{PortRow, Tables, Vtysh, Session, Step, finished, go, stop, is_vlan, drop_trunk}
use vland.Cli.Hoare.{Writes, is_fault}
use vland.Cli.Intf.{is_empty}
use vland.Cli.Shutdown.{find_vlan_id}
use vland.Cli.Show.{has_tag}
use vland.Cli.Create.{
  VlanCalls, chosen_bridge, put_bridge, delete_vlan, new_vlan_row, join_interface, created,
  vtysh_vlan, forget_vlan, forget_in_all, unlink_vlan, vtysh_no_vlan,
}
use vland.Cli.Create.Bridge.{
  is_vlan-append, find_vlan_id-append, delete_vlan-append, without-append, length-append, HasUuids,
  put_bridge-same, put_bridge-put_bridge, chosen_bridge-put_bridge, chosen_bridge-Holds,
  is_some-chosen_bridge,
}

-- The command hands in its transaction with these tables.
abbrev pub HandsIn : Tables → Step Unit → Type 0
HandsIn db (stop o) = o.ending ≡ finished db
HandsIn db _ = ⊥

module _ (X : Vtysh) (t : Strings) (C : VlanCalls) (s : Session) (db : Tables) (vlan_id : ℕ) where
  open C use {vlanif_name, new_uuid, check_if_internal_vlan, vtysh_ovsdb_port_match}

  -- The VLAN is new, and so is the reference to its row: no row of a VLAN has either, the bridge does
  -- not list the reference, and no port has the VLAN or the name of its interface.
  pub record IsNew (bridge : BridgeRow) : Type 0 where
    pub no_row : find_vlan_id vlan_id db.vlans ≡ none
    pub vlan_uuids : All (λ (r : VlanRow). (new_uuid == r.uuid) ≡ false) db.vlans
    pub unlisted : contains new_uuid bridge.vlans ≡ false
    pub unused :
        All
          (λ (p : PortRow). (contains vlan_id p.vlan_trunks || has_tag vlan_id p) ≡ false)
          db.ports
    pub unnamed : All (λ (p : PortRow). str_eq p.name (vlanif_name vlan_id) ≡ false) db.ports

  join_interface-none :
      (db' : Tables) (ports : List PortRow)
      → All (λ (p : PortRow). str_eq p.name (vlanif_name vlan_id) ≡ false) ports
      → join_interface X t C db' vlan_id ports ≡ ports
  unfolding join_interface
  join_interface-none db' [] h = refl
  join_interface-none db' (p ∷ ps) h = ground (arith, h.0, join_interface-none db' ps h.1)

  forget_in_all-none :
      (db' : Tables) (ports : List PortRow)
      → All (λ (p : PortRow). (contains vlan_id p.vlan_trunks || has_tag vlan_id p) ≡ false) ports
      → forget_in_all X t C db' vlan_id ports ≡ go ports
  unfolding forget_in_all forget_vlan drop_trunk
  forget_in_all-none db' [] h = refl
  forget_in_all-none db' (p ∷ ps) h = ground (arith, h.0, forget_in_all-none db' ps h.1)

  -- What `vlan <id>` has done where it hands in its transaction: one VLAN more, with the new row, and
  -- the row stands last in the list of the bridge.
  pub record IsCreated (db' : Tables) : Type 0 where
    pub absent : is_vlan vlan_id db.vlans ≡ false
    pub members : (v : ℕ) → is_vlan v db'.vlans ≡ (v == vlan_id || is_vlan v db.vlans)
    pub found : find_vlan_id vlan_id db'.vlans ≡ some (new_vlan_row X t C vlan_id)
    pub system : db'.system ≡ db.system
    pub interfaces : db'.interfaces ≡ db.interfaces

  find_vlan_id-none :
      (id : ℕ) (rows : List VlanRow) → find_vlan_id id rows ≡ none → is_vlan id rows ≡ false
  unfolding find_vlan_id is_vlan
  find_vlan_id-none id [] e = refl
  find_vlan_id-none id (r ∷ rows) e = ground (arith, find_vlan_id-none id rows)

  created-IsCreated :
      (bridge : BridgeRow)
      → find_vlan_id vlan_id db.vlans ≡ none
      → IsCreated (created X t C db vlan_id bridge)
  unfolding created new_vlan_row
  created-IsCreated bridge e = record {
    absent = find_vlan_id-none vlan_id db.vlans e;
    members = λ v. ground (arith, is_vlan-append v (new_vlan_row X t C vlan_id) db.vlans);
    found = find_vlan_id-append (new_vlan_row X t C vlan_id) db.vlans e;
    system = refl;
    interfaces = refl;
  }

  -- `vlan <id>` reads through NULL exactly if the VLAN has no row, there is a transaction, and there is
  -- no bridge at all. Where it hands in its transaction the VLAN had no row; the tables then have the
  -- VLANs that they had and this one, which is found with its new row, in state down for the reason
  -- that it is administratively down; system and interfaces stay.
  pub vtysh_vlan_lem :
      Writes IsCreated (vtysh_vlan X t C s db vlan_id)
      × (is_fault (vtysh_vlan X t C s db vlan_id)
          ≡ (not (is_some (find_vlan_id vlan_id db.vlans)) && s.has_txn && is_empty db.bridges))
  unfolding vtysh_vlan
  vtysh_vlan_lem = elim (Option-cases (find_vlan_id vlan_id db.vlans)) [
    | inr (row, e) ↦ ground (arith, e)
    | inl e ↦ elim (Option-cases (chosen_bridge t.default_bridge_name db.bridges)) [
      | inl f ↦ ground (arith, e, f, is_some-chosen_bridge t.default_bridge_name db.bridges)
      | inr (b, f) ↦ ground (
        arith,
        e,
        f,
        is_some-chosen_bridge t.default_bridge_name db.bridges,
        created-IsCreated b e,
      )
    ]
  ]

  -- The tables after `vlan <id>`, for a new VLAN.
  created-IsNew :
      (bridge : BridgeRow)
      → IsNew bridge
      → created X t C db vlan_id bridge ≡ record db {
        vlans = db.vlans ++ (new_vlan_row X t C vlan_id ∷ []);
        bridges = put_bridge bridge.uuid (bridge.vlans ++ (new_uuid ∷ [])) db.bridges;
      }
  unfolding created
  created-IsNew bridge h =
      let db' = record db {
        vlans = db.vlans ++ (new_vlan_row X t C vlan_id ∷ []);
        bridges = put_bridge bridge.uuid (bridge.vlans ++ (new_uuid ∷ [])) db.bridges;
      } in
      ap (λ ps. record db' { ports = ps }) (join_interface-none db' db.ports h.unnamed)

  unlink_vlan-new :
      (us : List ℕ)
      → contains new_uuid us ≡ false
      → unlink_vlan X t C new_uuid (us ++ (new_uuid ∷ [])) ≡ go us
  unfolding unlink_vlan
  unlink_vlan-new us h = ground (arith, without-append new_uuid us h, length-append new_uuid us)

  -- The command's steps, where none of them stops it.
  no_vlan_hands :
      (db1 : Tables) (row : VlanRow) (b : BridgeRow) (vs : List ℕ) (ports : List PortRow)
      → s.has_txn ≡ true
      → find_vlan_id vlan_id db1.vlans ≡ some row
      → check_if_internal_vlan row ≡ false
      → vtysh_ovsdb_port_match db1 (vlanif_name vlan_id) ≡ true
      → chosen_bridge t.default_bridge_name db1.bridges ≡ some b
      → unlink_vlan X t C row.uuid b.vlans ≡ go vs
      → forget_in_all X t C
          (record db1 { bridges = put_bridge b.uuid vs db1.bridges })
          vlan_id
          db1.ports
        ≡ go ports
      → HandsIn
          (record db1 {
            bridges = put_bridge b.uuid vs db1.bridges;
            ports = ports;
            vlans = delete_vlan row.uuid db1.vlans;
          })
          (vtysh_no_vlan X t C s db1 vlan_id)
  unfolding vtysh_no_vlan
  no_vlan_hands db1 row b vs ports txn found external free chosen unlinked forgot = ground arith

  -- `no vlan <id>` right after `vlan <id>` hands in exactly the tables that there were before, and
  -- neither command stops before it hands in its transaction. There is a transaction and a bridge, and
  -- no two bridges have one uuid; the VLAN is new, and so is the reference to its row; the VLAN is not
  -- for internal use, and no port has it or the name of its interface.
  pub vtysh_no_vlan-vtysh_vlan :
      (bridge : BridgeRow)
      → s.has_txn ≡ true
      → chosen_bridge t.default_bridge_name db.bridges ≡ some bridge
      → HasUuids db.bridges
      → IsNew bridge
      → check_if_internal_vlan (new_vlan_row X t C vlan_id) ≡ false
      → vtysh_ovsdb_port_match (created X t C db vlan_id bridge) (vlanif_name vlan_id) ≡ true
      → (db' : Tables) × HandsIn db' (vtysh_vlan X t C s db vlan_id)
        × HandsIn db (vtysh_no_vlan X t C s db' vlan_id)
  unfolding vtysh_vlan
  vtysh_no_vlan-vtysh_vlan bridge txn chosen uuids new external free =
      let row = new_vlan_row X t C vlan_id in
      let us = bridge.vlans ++ (new_uuid ∷ []) in
      let db' = created X t C db vlan_id bridge in
      let db1 = record db {
        vlans = db.vlans ++ (row ∷ []);
        bridges = put_bridge bridge.uuid us db.bridges;
      } in
      let b = record bridge { vlans = us } in
      let e : db' ≡ db1 = created-IsNew bridge new in
      let found : find_vlan_id vlan_id db1.vlans ≡ some row =
        unfold new_vlan_row in find_vlan_id-append row db.vlans new.no_row in
      let hands =
        no_vlan_hands db1 row b bridge.vlans db.ports txn found external
          (subst (λ x. vtysh_ovsdb_port_match x (vlanif_name vlan_id) ≡ true) e free)
          (chosen_bridge-put_bridge t.default_bridge_name bridge us db.bridges uuids chosen)
          (unfold new_vlan_row in unlink_vlan-new bridge.vlans new.unlisted)
          (forget_in_all-none _ db.ports new.unused) in
      let bridges : put_bridge bridge.uuid bridge.vlans (put_bridge bridge.uuid us db.bridges)
          ≡ db.bridges =
        put_bridge-put_bridge bridge.uuid us bridge.vlans db.bridges
        ∙ put_bridge-same bridge db.bridges uuids
            (chosen_bridge-Holds t.default_bridge_name bridge db.bridges chosen) in
      let vlans : delete_vlan row.uuid (db.vlans ++ (row ∷ [])) ≡ db.vlans =
        delete_vlan-append row db.vlans (unfold new_vlan_row in new.vlan_uuids) in
      let restored : record db {
        vlans = delete_vlan row.uuid (db.vlans ++ (row ∷ []));
        bridges = put_bridge bridge.uuid bridge.vlans (put_bridge bridge.uuid us db.bridges);
      }
          ≡ db =
        ground (arith, vlans, bridges) in
      let first : HandsIn db1 (vtysh_vlan X t C s db vlan_id) =
        ground (arith, new.no_row, txn, chosen, e) in
      (db1, first, subst (λ x. HandsIn x (vtysh_no_vlan X t C s db1 vlan_id)) restored hands)
