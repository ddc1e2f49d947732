-- ===== src/Cli/LagFaults.antt =====
-- Which LAG commands of src/cli/vlan_vty.c read through NULL or past what they wrote, and when.
use vland.Common.{
  ℕ, ◌+◌, String, ◌≡◌, refl, Bool, false, Option, none, some, is_some, List, ◌==◌, contains, arith,
  Option-cases, inl, inr, not, ◌&&◌, ◌||◌,
}
use vland.Cli.{
  PortRow, Tables, Vtysh, Session, find_port, after_drop, drop_trunk, without, is_other_than_trunk,
  length, is_vlan,
}
use vland.Cli.Lag.{
  cli_lag_vlan_access, cli_lag_no_vlan_access, cli_lag_vlan_trunk_allowed,
  cli_lag_no_vlan_trunk_allowed, cli_lag_vlan_trunk_native, cli_lag_no_vlan_trunk_native,
  cli_lag_vlan_trunk_native_tag, cli_lag_no_vlan_trunk_native_tag,
}
use vland.Cli.Hoare.{is_fault}
use vland.Cli.Laws.{VtyshLaws}
use vland.Cli.LagInvariant.{
  LagCommand, access, trunk_allowed, no_trunk_allowed, trunk_native, no_access, no_trunk_native,
  trunk_native_tag, no_trunk_native_tag, run_lag,
}

module _ (X : Vtysh) where
  -- `no vlan trunk allowed` at the LAG's port: it has a mode that it compares, and the VLAN at most
  -- once.
  abbrev pub drops_badly : ℕ → Option PortRow → Bool
  drops_badly id none = false
  drops_badly id (some row) =
      not (is_other_than_trunk X row)
      && (not (is_some row.vlan_mode)
          || contains id row.vlan_trunks
            && not (1 + length (without id row.vlan_trunks) == length row.vlan_trunks))

  -- The cases in which a command does not look whether the LAG has a port, or that its mode is set.
  abbrev pub is_unchecked : Tables → String → LagCommand → Bool
  is_unchecked db lagname (access id) =
      is_vlan id db.vlans && not (is_some (find_port lagname db.ports))
  is_unchecked db lagname (trunk_allowed id) =
      is_vlan id db.vlans && not (is_some (find_port lagname db.ports))
  is_unchecked db lagname no_trunk_native = not (is_some (find_port lagname db.ports))
  is_unchecked db lagname (no_trunk_allowed id) = drops_badly id (find_port lagname db.ports)
  is_unchecked db lagname _ = false

  module _ (L : VtyshLaws X) (s : Session) (db : Tables) (lagname : String) where
    trunk_allowed_fault :
        (id : ℕ)
        → is_fault (cli_lag_vlan_trunk_allowed X s db lagname id) ≡ (
            s.has_txn
            && X.check_port_in_bridge db lagname
            && is_unchecked db lagname (trunk_allowed id))
    unfolding cli_lag_vlan_trunk_allowed
    trunk_allowed_fault id = elim (Option-cases (find_port lagname db.ports)) [
      | inl e ↦ rw e (ground (arith, e))
      | inr (row, e) ↦ rw e (ground (arith, e))
    ]

    mode-after_drop :
        (row : PortRow) (kept : Option (List ℕ))
        → (after_drop X db row kept).0.vlan_mode ≡ row.vlan_mode
    unfolding after_drop
    mode-after_drop row none = refl
    mode-after_drop row (some kept) = rw (L.set_trunks db kept row) refl

    no_trunk_allowed_fault :
        (id : ℕ)
        → is_fault (cli_lag_no_vlan_trunk_allowed X s db lagname id) ≡ (
            s.has_txn
            && X.check_port_in_bridge db lagname
            && is_unchecked db lagname (no_trunk_allowed id))
    unfolding cli_lag_no_vlan_trunk_allowed drop_trunk
    no_trunk_allowed_fault id = elim (Option-cases (find_port lagname db.ports)) [
      | inl e ↦ rw e (ground (arith, e))
      | inr (row, e) ↦ rw e (
          ground (
            arith,
            e,
            mode-after_drop row none,
            mode-after_drop row (some (without id row.vlan_trunks)),
          ))
    ]

    -- A LAG command reads through NULL exactly if it has a transaction, the LAG is in a bridge, and one
    -- of these holds: it sets the access VLAN or allows a trunk VLAN, the VLAN is configured, and no
    -- port has the LAG's name; it removes the native VLAN and no port has the LAG's name; it removes a
    -- trunk VLAN from a port whose mode is not set. The one other fault is to remove a VLAN that the
    -- trunks hold twice. The functions that the commands call keep their documented behaviour.
    pub run_lag-fault :
        (c : LagCommand)
        → is_fault (run_lag X s db lagname c)
          ≡ (s.has_txn && X.check_port_in_bridge db lagname && is_unchecked db lagname c)
    unfolding run_lag cli_lag_vlan_access cli_lag_no_vlan_access cli_lag_vlan_trunk_native
        cli_lag_no_vlan_trunk_native cli_lag_vlan_trunk_native_tag cli_lag_no_vlan_trunk_native_tag
    run_lag-fault (access id) = ground arith
    run_lag-fault (trunk_allowed id) = trunk_allowed_fault id
    run_lag-fault (no_trunk_allowed id) = no_trunk_allowed_fault id
    run_lag-fault (trunk_native id) = ground arith
    run_lag-fault no_access = ground arith
    run_lag-fault no_trunk_native = ground arith
    run_lag-fault trunk_native_tag = ground arith
    run_lag-fault no_trunk_native_tag = ground arith
