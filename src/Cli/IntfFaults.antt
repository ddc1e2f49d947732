-- ===== src/Cli/IntfFaults.antt =====
-- Which interface commands of src/cli/vlan_vty.c read through NULL or past what they wrote, and when.
use vland.Common.{
  ℕ, ◌+◌, String, ◌≡◌, Bool, true, false, not, ◌&&◌, ◌||◌, ◌⊎◌, Option, none, some, List, [], ◌==◌,
  contains, arith, is_some, Option-cases, inl, inr,
}
use vland.Common.Int.{pos, negsuc}
use vland.Cli.{
  PortRow, Tables, Vtysh, Session, Message, go, abort, is_other_than_trunk, is_other_than_native,
  is_vlan, length, without, drop_trunk, mode_eq, has_tag,
}
use vland.Cli.Hoare.{is_fault}
use vland.Cli.Intf.{
  find_interface, own_port, is_free, is_empty, cli_intf_vlan_access, cli_intf_no_vlan_access,
  cli_intf_no_vlan_trunk_allowed, cli_intf_vlan_trunk_native, cli_intf_no_vlan_trunk_native,
  cli_intf_vlan_trunk_native_tag, cli_intf_no_vlan_trunk_native_tag,
}
use vland.Cli.IntfInvariant.{
  IntfCommand, access, no_access, no_trunk_allowed, trunk_native, no_trunk_native, trunk_native_tag,
  no_trunk_native_tag, run_intf,
}
use vland.Cli.Search.{last_port, is_in_lag, port_for, select_port_lem, own_port_lem}

module _ (X : Vtysh) (db : Tables) (ifname : String) where
  -- There is no port, and the interface is in a bridge of tables that pass a test.
  abbrev pub lacks : Tables × Option PortRow → (Tables → Bool) → Bool
  lacks (db', none) test = X.check_iface_in_bridge db' ifname && test db'
  lacks (db', some row) test = false

  -- There is a port that passes a test, and the interface is in a bridge.
  abbrev pub owns : Tables × Option PortRow → (PortRow → Bool) → Bool
  owns (db', none) test = false
  owns (db', some row) test = X.check_iface_in_bridge db' ifname && test row

  -- A VLAN ID is given, and `ops_port_get_tag` faults, or returns another value.
  abbrev pub tag_faults : ℕ → Option PortRow → Bool
  tag_faults id found = not (id == 0) && not (is_some (X.ops_port_get_tag found))

  abbrev pub tag_differs : ℕ → Option PortRow → Bool
  tag_differs id found = not (id == 0) && elim (X.ops_port_get_tag found) [
    | none ↦ false
    | some tag ↦ not (elim tag [ pos n ↦ n == id | negsuc n ↦ false ])
  ]

  -- The VLAN is in the trunks, and not just once.
  abbrev pub repeats : ℕ → List ℕ → Bool
  repeats id trunks = contains id trunks && not (1 + length (without id trunks) == length trunks)

  -- The cases in which a command faults, where the search has ended with these tables and this port or
  -- NULL.
  abbrev pub careless_with : Tables × Option PortRow → IntfCommand → Bool
  careless_with r (access id) = is_free X db id && lacks r (λ db'. is_vlan id db'.vlans)
  careless_with r (trunk_native id) = is_free X db id && lacks r (λ db'. is_vlan id db'.vlans)
  careless_with r (no_access id) =
      not (is_empty db.vlans)
      && ((id == 0 || is_vlan id db.vlans)
          && (lacks r (λ _. true)
              || owns r (λ row. mode_eq row.vlan_mode X.mode_access && tag_faults id (some row))))
  careless_with r (no_trunk_native id) =
      lacks r (λ _. not (tag_differs id none))
      || owns r (λ row. not (is_other_than_native X row) && tag_faults id (some row))
  careless_with r (no_trunk_allowed id) =
      X.check_iface_in_bridge db ifname
      && elim (last_port (find_interface ifname db.interfaces) db.ports none) [
        | none ↦ false
        | some row ↦ not (is_other_than_trunk X row) && repeats id row.vlan_trunks
      ]
  careless_with r _ = lacks r (λ _. true)

  abbrev pub is_careless : IntfCommand → Bool
  is_careless c = not (is_in_lag X db ifname) && careless_with (port_for X db ifname) c

  -- How the search can end.
  abbrev Ends : Bool → Tables × Option PortRow → Type 0
  Ends off r =
      ((off ≡ true) × (m : List Message) × (own_port X db ifname none ≡ abort m))
      ⊎ ((off ≡ false) × (own_port X db ifname none ≡ go r))

  own_port-Ends : Ends (is_in_lag X db ifname) (port_for X db ifname)
  own_port-Ends = elim (own_port_lem X db ifname) [
    | inl (off, row, e) ↦ inl (off, _, e)
    | inr (off, e) ↦ inr (off, e)
  ]

  module _ (s : Session) where
    access_fault :
        (id : ℕ) (off : Bool) (r : Tables × Option PortRow)
        → Ends off r
        → is_fault (cli_intf_vlan_access X s db ifname id)
          ≡ (s.has_txn && (not off && careless_with r (access id)))
    unfolding cli_intf_vlan_access
    access_fault id off r (inl (o, m, e)) = ground (arith, o, e)
    access_fault id off (db', none) (inr (o, e)) = ground (arith, o, e)
    access_fault id off (db', some row) (inr (o, e)) = ground (arith, o, e)

    no_access_fault :
        (id : ℕ) (off : Bool) (r : Tables × Option PortRow)
        → Ends off r
        → is_fault (cli_intf_no_vlan_access X s db ifname id)
          ≡ (s.has_txn && (not off && careless_with r (no_access id)))
    unfolding cli_intf_no_vlan_access has_tag
    no_access_fault id off r (inl (o, m, e)) = ground (arith, o, e)
    no_access_fault id off (db', none) (inr (o, e)) = ground (arith, o, e)
    no_access_fault id off (db', some row) (inr (o, e)) = ground (arith, o, e)

    native_fault :
        (id : ℕ) (off : Bool) (r : Tables × Option PortRow)
        → Ends off r
        → is_fault (cli_intf_vlan_trunk_native X s db ifname id)
          ≡ (s.has_txn && (not off && careless_with r (trunk_native id)))
    unfolding cli_intf_vlan_trunk_native
    native_fault id off r (inl (o, m, e)) = ground (arith, o, e)
    native_fault id off (db', none) (inr (o, e)) = ground (arith, o, e)
    native_fault id off (db', some row) (inr (o, e)) = ground (arith, o, e)

    no_native_fault :
        (id : ℕ) (off : Bool) (r : Tables × Option PortRow)
        → Ends off r
        → is_fault (cli_intf_no_vlan_trunk_native X s db ifname id)
          ≡ (s.has_txn && (not off && careless_with r (no_trunk_native id)))
    unfolding cli_intf_no_vlan_trunk_native has_tag
    no_native_fault id off r (inl (o, m, e)) = ground (arith, o, e)
    no_native_fault id off (db', none) (inr (o, e)) = ground (arith, o, e)
    no_native_fault id off (db', some row) (inr (o, e)) = ground (arith, o, e)

    native_tag_fault :
        (off : Bool) (r : Tables × Option PortRow)
        → Ends off r
        → is_fault (cli_intf_vlan_trunk_native_tag X s db ifname)
          ≡ (s.has_txn && (not off && careless_with r trunk_native_tag))
    unfolding cli_intf_vlan_trunk_native_tag
    native_tag_fault off r (inl (o, m, e)) = ground (arith, o, e)
    native_tag_fault off (db', none) (inr (o, e)) = ground (arith, o, e)
    native_tag_fault off (db', some row) (inr (o, e)) = ground (arith, o, e)

    no_native_tag_fault :
        (off : Bool) (r : Tables × Option PortRow)
        → Ends off r
        → is_fault (cli_intf_no_vlan_trunk_native_tag X s db ifname)
          ≡ (s.has_txn && (not off && careless_with r no_trunk_native_tag))
    unfolding cli_intf_no_vlan_trunk_native_tag
    no_native_tag_fault off r (inl (o, m, e)) = ground (arith, o, e)
    no_native_tag_fault off (db', none) (inr (o, e)) = ground (arith, o, e)
    no_native_tag_fault off (db', some row) (inr (o, e)) = ground (arith, o, e)

    no_trunk_allowed_fault :
        (id : ℕ)
        → is_fault (cli_intf_no_vlan_trunk_allowed X s db ifname id)
          ≡ (s.has_txn && is_careless (no_trunk_allowed id))
    unfolding cli_intf_no_vlan_trunk_allowed drop_trunk
    no_trunk_allowed_fault id =
        let intf = find_interface ifname db.interfaces in
        elim (select_port_lem intf ifname (λ r. []) db.ports none) [
          | inl (o, row, _, _, e) ↦ ground (arith, o, e)
          | inr (o, e) ↦ elim (Option-cases (last_port intf db.ports none)) [
            | inl f ↦ ground (arith, o, e, f)
            | inr (row, f) ↦ ground (arith, o, e, f)
          ]
        ]

    -- A command of an interface, other than the one with a range of VLANs, faults exactly if it has a
    -- transaction, no port of another name has the interface, and one of these holds. Either the command
    -- has no port: no port has the interface and `port_check_and_add` returned NULL, in both of two
    -- calls where there is no port at all; the interface is in a bridge; and the checks of VLANs passed.
    -- The removal of a native VLAN then faults only if its VLAN ID is not given, or `ops_port_get_tag`
    -- faults at NULL or returns this ID. Or there is a port, for the removal of an access or native VLAN
    -- whose ID is given: the interface is in a bridge, the checks of VLANs and of the port's mode passed,
    -- and `ops_port_get_tag` faults at the port. The removal of a trunk VLAN adds no port and stops where
    -- no port has the interface; it faults exactly if the trunks hold the VLAN twice or more, the
    -- interface is in a bridge, and the port's mode is not set to another than the three trunk modes.
    pub run_intf-fault :
        (c : IntfCommand) → is_fault (run_intf X s db ifname c) ≡ (s.has_txn && is_careless c)
    unfolding run_intf
    run_intf-fault (access id) = access_fault id _ _ own_port-Ends
    run_intf-fault (no_access id) = no_access_fault id _ _ own_port-Ends
    run_intf-fault (no_trunk_allowed id) = no_trunk_allowed_fault id
    run_intf-fault (trunk_native id) = native_fault id _ _ own_port-Ends
    run_intf-fault (no_trunk_native id) = no_native_fault id _ _ own_port-Ends
    run_intf-fault trunk_native_tag = native_tag_fault _ _ own_port-Ends
    run_intf-fault no_trunk_native_tag = no_native_tag_fault _ _ own_port-Ends
