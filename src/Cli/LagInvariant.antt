-- ===== src/Cli/LagInvariant.antt =====
-- The commands of a LAG as one type, and what all of them keep.
use mathlib.Core.Path.{subst}
use vland.Common.{
  str_eq, ℕ, String, ◌≡◌, refl, sym, Bool, false, Option, none, some, List, [], All, arith,
  Option-cases, inl, inr,
}
use vland.Cli.{
  without, mode_is, finish, ◌>>=◌, PortRow, Tables, Vtysh, Session, Step, write_port, find_port,
  set_access, clear_access, after_drop, settle_mode, drop_trunk, is_other_than_trunk, default_vlan,
}
use vland.Cli.Lag.{
  cli_lag_vlan_access, cli_lag_no_vlan_access, cli_lag_vlan_trunk_allowed,
  cli_lag_no_vlan_trunk_allowed, cli_lag_vlan_trunk_native, cli_lag_no_vlan_trunk_native,
  cli_lag_vlan_trunk_native_tag, cli_lag_no_vlan_trunk_native_tag,
}
use vland.Cli.Laws.{VtyshLaws}
use vland.Cli.Hoare.{Writes, Writes-mono, All-find_port, All-put_port}
use vland.Cli.Edit.{
  IsAccessClean, IsEdit, IsEdit-then, set_access-IsEdit, clear_access-IsEdit, set_mode-IsEdit,
  into_mode-IsEdit, set_tag-IsEdit, set_native-IsEdit, without_native-IsEdit, allow-IsEdit,
  dropped-IsEdit,
}

-- The LAG commands with their arguments.
pub data LagCommand : Type 0 where
  access trunk_allowed no_trunk_allowed trunk_native : ℕ → LagCommand
  no_access no_trunk_native trunk_native_tag no_trunk_native_tag : LagCommand

module _ (X : Vtysh) where
  unfoldable pub run_lag : Session → Tables → String → LagCommand → Step Unit
  run_lag s db lagname (access id) = cli_lag_vlan_access X s db lagname id
  run_lag s db lagname (trunk_allowed id) = cli_lag_vlan_trunk_allowed X s db lagname id
  run_lag s db lagname (no_trunk_allowed id) = cli_lag_no_vlan_trunk_allowed X s db lagname id
  run_lag s db lagname (trunk_native id) = cli_lag_vlan_trunk_native X s db lagname id
  run_lag s db lagname no_access = cli_lag_no_vlan_access X s db lagname
  run_lag s db lagname no_trunk_native = cli_lag_no_vlan_trunk_native X s db lagname
  run_lag s db lagname trunk_native_tag = cli_lag_vlan_trunk_native_tag X s db lagname
  run_lag s db lagname no_trunk_native_tag = cli_lag_no_vlan_trunk_native_tag X s db lagname

  -- The one row that a command writes: the port with a name, edited.
  abbrev pub Edits : Tables → String → Tables → Type 0
  Edits db name db' =
      (row : PortRow) × (row' : PortRow) × (find_port name db.ports ≡ some row)
      × (db' ≡ write_port row' db)
      × IsEdit X row row'

  module _ (L : VtyshLaws X) (s : Session) (db : Tables) (lagname : String) where
    edits :
        (row row' : PortRow)
        → find_port lagname db.ports ≡ some row
        → IsEdit X row row'
        → Edits db lagname (write_port row' db)
    edits row row' found e = (row, row', found, refl, e)

    access_edit : (id : ℕ) → Writes (Edits db lagname) (cli_lag_vlan_access X s db lagname id)
    unfolding cli_lag_vlan_access
    access_edit id = elim (Option-cases (find_port lagname db.ports)) [
      | inl e ↦ ground (arith, e)
      | inr (row, e) ↦
          ground (arith, e, edits row (set_access X db id row) e (set_access-IsEdit X L db id row))
    ]

    no_access_edit : Writes (Edits db lagname) (cli_lag_no_vlan_access X s db lagname)
    unfolding cli_lag_no_vlan_access
    no_access_edit = elim (Option-cases (find_port lagname db.ports)) [
      | inl e ↦ ground (arith, e)
      | inr (row, e) ↦
          ground (arith, e, edits row (clear_access X db row) e (clear_access-IsEdit X L db row))
    ]

    trunk_allowed_edit :
        (id : ℕ) → Writes (Edits db lagname) (cli_lag_vlan_trunk_allowed X s db lagname id)
    unfolding cli_lag_vlan_trunk_allowed
    trunk_allowed_edit id = elim (Option-cases (find_port lagname db.ports)) [
      | inl e ↦ ground (arith, e)
      | inr (row, e) ↦ ground (
        arith,
        e,
        edits row _ e (into_mode-IsEdit X L db X.mode_trunk row L.access_trunk),
        edits row _ e (allow-IsEdit X L db X.mode_trunk id row L.access_trunk),
      )
    ]

    trunk_native_edit :
        (id : ℕ) → Writes (Edits db lagname) (cli_lag_vlan_trunk_native X s db lagname id)
    unfolding cli_lag_vlan_trunk_native
    trunk_native_edit id = elim (Option-cases (find_port lagname db.ports)) [
      | inl e ↦ ground (arith, e)
      | inr (row, e) ↦ ground (arith, e, edits row _ e (set_native-IsEdit X L db id row))
    ]

    trunk_native_tag_edit : Writes (Edits db lagname) (cli_lag_vlan_trunk_native_tag X s db lagname)
    unfolding cli_lag_vlan_trunk_native_tag
    trunk_native_tag_edit = elim (Option-cases (find_port lagname db.ports)) [
      | inl e ↦ ground (arith, e)
      | inr (row, e) ↦ ground (
        arith,
        e,
        edits row _ e (set_mode-IsEdit X L db X.mode_native_tagged row L.access_tagged),
      )
    ]

    no_trunk_native_tag_edit :
        Writes (Edits db lagname) (cli_lag_no_vlan_trunk_native_tag X s db lagname)
    unfolding cli_lag_no_vlan_trunk_native_tag
    no_trunk_native_tag_edit = elim (Option-cases (find_port lagname db.ports)) [
      | inl e ↦ ground (arith, e)
      | inr (row, e) ↦ ground (
        arith,
        e,
        edits row _ e (set_mode-IsEdit X L db X.mode_native_untagged row L.access_untagged),
      )
    ]

    no_trunk_native_edit : Writes (Edits db lagname) (cli_lag_no_vlan_trunk_native X s db lagname)
    unfolding cli_lag_no_vlan_trunk_native
    no_trunk_native_edit = elim (Option-cases (find_port lagname db.ports)) [
      | inl e ↦ ground (arith, e)
      | inr (row, e) ↦
          let row' = X.ops_port_set_tag db default_vlan row in
          let edit =
            IsEdit-then X L db row row' _ (set_tag-IsEdit X L db default_vlan row)
              (without_native-IsEdit X L db row') in
          ground (arith, e, edits row _ e edit)
    ]

    dropped :
        (row : PortRow)
        → find_port lagname db.ports ≡ some row
        → (kept : Option (List ℕ)) (is_trunk : Bool) → is_other_than_trunk X row ≡ false
        → Edits db lagname (
            write_port
              (settle_mode X db is_trunk (after_drop X db row kept).1 (after_drop X db row kept).0)
              db)
    dropped row found kept is_trunk e =
        edits row _ found (dropped-IsEdit X L db row kept is_trunk e)

    settled :
        (row : PortRow)
        → find_port lagname db.ports ≡ some row
        → (kept : Option (List ℕ)) (mode : Option String) → is_other_than_trunk X row ≡ false
        → Writes (Edits db lagname) (
            mode_is mode X.mode_trunk >>= (λ t. finish s [] (
              write_port
                (settle_mode X db t (after_drop X db row kept).1 (after_drop X db row kept).0)
                db)))
    settled row found kept none e = tt
    settled row found kept (some m) e = dropped row found kept (str_eq m X.mode_trunk) e

    removed :
        (row : PortRow)
        → find_port lagname db.ports ≡ some row
        → (id : ℕ) → is_other_than_trunk X row ≡ false
        → Writes (Edits db lagname) (
            drop_trunk id row.vlan_trunks >>= (λ kept.
              mode_is (after_drop X db row kept).0.vlan_mode X.mode_trunk >>= (λ t. finish s [] (
                write_port
                  (settle_mode X db t (after_drop X db row kept).1 (after_drop X db row kept).0)
                  db))))
    unfolding drop_trunk
    removed row found id e = ground (
      arith,
      settled row found none (after_drop X db row none).0.vlan_mode e,
      settled row found (some (without id row.vlan_trunks))
          (after_drop X db row (some (without id row.vlan_trunks))).0.vlan_mode e,
    )

    no_trunk_allowed_edit :
        (id : ℕ) → Writes (Edits db lagname) (cli_lag_no_vlan_trunk_allowed X s db lagname id)
    unfolding cli_lag_no_vlan_trunk_allowed
    no_trunk_allowed_edit id = elim (Option-cases (find_port lagname db.ports)) [
      | inl e ↦ ground (arith, e)
      | inr (row, e) ↦ ground (arith, e, removed row e id)
    ]

    -- A LAG command that hands in its transaction has written one row of the Port table, the first one
    -- of the LAG's name, and of this row nothing but the three VLAN columns; other tables stay. The
    -- functions that the commands call keep their documented behaviour.
    pub run_lag-Edits : (c : LagCommand) → Writes (Edits db lagname) (run_lag s db lagname c)
    unfolding run_lag
    run_lag-Edits (access id) = access_edit id
    run_lag-Edits (trunk_allowed id) = trunk_allowed_edit id
    run_lag-Edits (no_trunk_allowed id) = no_trunk_allowed_edit id
    run_lag-Edits (trunk_native id) = trunk_native_edit id
    run_lag-Edits no_access = no_access_edit
    run_lag-Edits no_trunk_native = no_trunk_native_edit
    run_lag-Edits trunk_native_tag = trunk_native_tag_edit
    run_lag-Edits no_trunk_native_tag = no_trunk_native_tag_edit

    Edits-clean :
        (db' : Tables)
        → All (IsAccessClean X) db.ports
        → Edits db lagname db'
        → All (IsAccessClean X) db'.ports
    Edits-clean db' clean (row, row', found, e, edit) =
        let c = All-find_port (IsAccessClean X) lagname row db.ports clean found in
        let all = All-put_port (IsAccessClean X) row' db.ports clean (edit.stays_clean c) in
        subst (λ t. All (IsAccessClean X) t.ports) (sym e) all

    -- Every LAG command keeps the invariant that a port in access mode has no trunks: if all ports have
    -- it before, all ports of the tables that the command hands in have it. The functions that the
    -- commands call keep their documented behaviour.
    pub run_lag-clean :
        (c : LagCommand)
        → All (IsAccessClean X) db.ports
        → Writes (λ db'. All (IsAccessClean X) db'.ports) (run_lag s db lagname c)
    run_lag-clean c clean =
        Writes-mono (Edits db lagname) (λ db'. All (IsAccessClean X) db'.ports)
          (run_lag s db lagname c) (λ db'. Edits-clean db' clean) (run_lag-Edits c)
