-- ===== src/Cli/Create/Removal.antt =====
-- `no vlan <id>` as a whole.
use vland.Common.{
  ℕ, ◌≡◌, ◌⊎◌, refl, true, some, List, [], ◌∷◌, All, All₂, arith, Option-cases, inl, inr,
}
use vland.Idl.{BridgeRow, VlanRow}
use vland.External.{Strings}
use vland.Cli.{PortRow, Tables, Vtysh, Session, Step, Outcome, go, stop, fault, is_vlan}
use vland.Cli.Hoare.{Writes}
use vland.Cli.Laws.{VtyshLaws}
use vland.Cli.LagTrunks.{IsLinked}
use vland.Cli.Shutdown.{find_vlan_id}
use vland.Cli.Create.{
  VlanCalls, chosen_bridge, put_bridge, delete_vlan, unlink_vlan, forget_vlan, forget_in_all,
  vtysh_no_vlan,
}
use vland.Cli.Create.Forget.{Yields, Forgets, forget_vlan_lem}

Step-cases :
    {A : Type 0} (m : Step A)
    → ((a : A) × (m ≡ go a)) ⊎ (((o : Outcome) × (m ≡ stop o)) ⊎ (m ≡ fault))
Step-cases (go a) = inl (a, refl)
Step-cases (stop o) = inr (inl (o, refl))
Step-cases fault = inr (inr refl)

module _ (X : Vtysh) (t : Strings) (C : VlanCalls) (L : VtyshLaws X) (vlan_id : ℕ) where
  -- The same for all ports.
  forget_in_all_lem :
      (db : Tables) (rows : List PortRow)
      → All (λ p. All (λ v. is_vlan v db.vlans ≡ true) p.vlan_trunks) rows
      → Yields
          (λ rows'. All₂ (Forgets X t C L db vlan_id) rows rows')
          (forget_in_all X t C db vlan_id rows)
  unfolding forget_in_all
  forget_in_all_lem db [] h = tt
  forget_in_all_lem db (row ∷ rows) h =
      let first = forget_vlan_lem X t C L db vlan_id row h.0 in
      let rest = forget_in_all_lem db rows h.1 in
      elim (Step-cases (forget_vlan X t C db vlan_id row)) [
        | inl (r, e) ↦ elim (Step-cases (forget_in_all X t C db vlan_id rows)) [
          | inl (rs, f) ↦ ground (arith, e, f, first, rest)
          | inr (inl (o, f)) ↦ ground (arith, e, f, first, rest)
          | inr (inr f) ↦ ground (arith, e, f, first, rest)
        ]
        | inr (inl (o, e)) ↦ ground (arith, e, first)
        | inr (inr e) ↦ ground (arith, e, first)
      ]

  -- What `no vlan <id>` has done where it hands in its transaction: the VLAN's row is gone, every port
  -- has forgotten the VLAN, and system and interfaces stay.
  pub record IsRemoved (db db' : Tables) : Type 0 where
    pub row : VlanRow
    pub found : find_vlan_id vlan_id db.vlans ≡ some row
    pub vlans : db'.vlans ≡ delete_vlan row.uuid db.vlans
    pub ports :
        All₂ (Forgets X t C L (record db { bridges = db'.bridges }) vlan_id) db.ports db'.ports
    pub system : db'.system ≡ db.system
    pub interfaces : db'.interfaces ≡ db.interfaces

  removed :
      (db : Tables) (row : VlanRow) (bridges : List BridgeRow) (ports : List PortRow)
      → IsLinked db
      → find_vlan_id vlan_id db.vlans ≡ some row
      → forget_in_all X t C (record db { bridges = bridges }) vlan_id db.ports ≡ go ports
      → IsRemoved db
          (record db { bridges = bridges; ports = ports; vlans = delete_vlan row.uuid db.vlans })
  removed db row bridges ports linked e f = record {
    row = row;
    found = e;
    vlans = refl;
    ports = ground (arith, f, forget_in_all_lem (record db { bridges = bridges }) db.ports linked);
    system = refl;
    interfaces = refl;
  }

  -- `no vlan <id>`, where it hands in its transaction, has deleted the row that it finds for the VLAN,
  -- and each port has forgotten the VLAN: a port that had it neither in its trunks nor as its tag stays
  -- as it was. Otherwise its trunks lose the VLAN and no other; where trunks are left, the port is in
  -- trunk mode and its tag is set to the VLAN ID 0, be it the removed VLAN or another; where none is
  -- left, an interface of type "system" becomes an access port of the default VLAN, and any other port
  -- keeps its mode and its tag. System and interfaces stay. The trunk VLANs of all ports refer to VLAN
  -- rows, and the functions that the command calls keep their documented behaviour.
  pub vtysh_no_vlan_lem :
      (s : Session) (db : Tables)
      → IsLinked db
      → Writes (IsRemoved db) (vtysh_no_vlan X t C s db vlan_id)
  unfolding vtysh_no_vlan
  vtysh_no_vlan_lem s db linked = elim (Option-cases (find_vlan_id vlan_id db.vlans)) [
    | inl e ↦ ground (arith, e)
    | inr (row, e) ↦ elim (Option-cases (chosen_bridge t.default_bridge_name db.bridges)) [
      | inl f ↦ ground (arith, e, f)
      | inr (b, f) ↦ elim (Step-cases (unlink_vlan X t C row.uuid b.vlans)) [
        | inr (inl (o, g)) ↦ absurd (unfold unlink_vlan in ground (arith, g))
        | inr (inr g) ↦ ground (arith, e, f, g)
        | inl (vs, g) ↦
            let bridges = put_bridge b.uuid vs db.bridges in
            let all = forget_in_all_lem (record db { bridges = bridges }) db.ports linked in
            elim (Step-cases
              (forget_in_all X t C (record db { bridges = bridges }) vlan_id db.ports)) [
                | inl (ports, h) ↦
                    ground (arith, e, f, g, h, removed db row bridges ports linked e h)
                | inr (inl (o, h)) ↦ ground (arith, e, f, g, h, all)
                | inr (inr h) ↦ ground (arith, e, f, g, h)
              ]
      ]
    ]
  ]
