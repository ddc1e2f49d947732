-- ===== src/Cli/IntfInvariant.antt =====
-- The commands of an interface as one type, and what all of them keep.
use vland.Common.{
  ℕ, String, ◌≡◌, ◌⊎◌, refl, Bool, false, not, ◌&&◌, Option, none, some, List, [], ◌∷◌, arith,
  str_eq, Option-cases, Bool-cases, inl, inr, if◌then◌else◌,
}
use vland.Cli.{
  PortRow, InterfaceRow, Tables, Vtysh, Session, Step, Message, go, abort, part_of_lag, write_port,
  mode_eq, drop_trunk, after_drop, settle_mode, set_access, set_mode, set_native, without_native,
  is_other_than_trunk, default_vlan, length, without, has_tag,
}
use vland.Cli.Laws.{VtyshLaws}
use vland.Cli.Hoare.{Writes}
use vland.Cli.Edit.{
  IsEdit, set_access-IsEdit, set_mode-IsEdit, set_native-IsEdit, dropped-IsEdit, no_access-IsEdit,
  no_native-IsEdit,
}
use vland.Cli.Intf.{
  find_interface, refers, select_port, own_port, or_add, cli_intf_vlan_access,
  cli_intf_no_vlan_access, cli_intf_no_vlan_trunk_allowed, cli_intf_vlan_trunk_native,
  cli_intf_no_vlan_trunk_native, cli_intf_vlan_trunk_native_tag, cli_intf_no_vlan_trunk_native_tag,
}

-- The commands with their arguments; 0 is a VLAN ID that is not given.
pub data IntfCommand : Type 0 where
  access no_access no_trunk_allowed trunk_native no_trunk_native : ℕ → IntfCommand
  trunk_native_tag no_trunk_native_tag : IntfCommand

-- The search goes on, or it aborts the command.
pub select_port-cases :
    (intf : Option InterfaceRow) (ifname : String) (said : PortRow → List Message)
    (ps : List PortRow) (found : Option PortRow)
    → ((row : Option PortRow) × (select_port intf ifname said ps found ≡ go row))
      ⊎ ((m : List Message) × (select_port intf ifname said ps found ≡ abort m))
unfolding select_port
select_port-cases intf ifname said [] found = inl (found, refl)
select_port-cases intf ifname said (p ∷ ps) found =
    elim (Bool-cases (refers intf p && not (str_eq p.name ifname))) [
      | inl e ↦ inr (said p, ground (arith, e))
      | inr e ↦
          elim (select_port-cases intf ifname said ps (if refers intf p then some p else found)) [
            | inl (row, f) ↦ inl (row, ground (arith, e, f))
            | inr (m, f) ↦ inr (m, ground (arith, e, f))
          ]
    ]

ports-cases :
    (ps : List PortRow) → (ps ≡ []) ⊎ ((p : PortRow) × (qs : List PortRow) × (ps ≡ p ∷ qs))
ports-cases [] = inl refl
ports-cases (p ∷ ps) = inr (p, ps, refl)

module _ (X : Vtysh) where
  unfoldable pub run_intf : Session → Tables → String → IntfCommand → Step Unit
  run_intf s db ifname (access id) = cli_intf_vlan_access X s db ifname id
  run_intf s db ifname (no_access id) = cli_intf_no_vlan_access X s db ifname id
  run_intf s db ifname (no_trunk_allowed id) = cli_intf_no_vlan_trunk_allowed X s db ifname id
  run_intf s db ifname (trunk_native id) = cli_intf_vlan_trunk_native X s db ifname id
  run_intf s db ifname (no_trunk_native id) = cli_intf_no_vlan_trunk_native X s db ifname id
  run_intf s db ifname trunk_native_tag = cli_intf_vlan_trunk_native_tag X s db ifname
  run_intf s db ifname no_trunk_native_tag = cli_intf_no_vlan_trunk_native_tag X s db ifname

  own_port-go :
      (db : Tables) (ifname : String)
      → ((r : Tables × Option PortRow) × (own_port X db ifname none ≡ go r))
        ⊎ ((m : List Message) × (own_port X db ifname none ≡ abort m))
  unfolding own_port
  own_port-go db ifname = elim (ports-cases db.ports) [
    | inl e ↦
        let (db', row) = X.port_check_and_add db ifname in
        inl (or_add X db' ifname row, ground (arith, e))
    | inr (p, ps, e) ↦
        elim (select_port-cases (find_interface ifname db.interfaces) ifname
          (λ r. part_of_lag r.name ∷ []) db.ports none) [
            | inl (row, f) ↦ inl (or_add X db ifname row, ground (arith, e, f))
            | inr (m, f) ↦ inr (m, ground (arith, e, f))
          ]
  ]

  pub own_port-cases :
      (db : Tables) (ifname : String)
      → ((db' : Tables) × (row : PortRow) × (own_port X db ifname none ≡ go (db', some row)))
        ⊎ (((db' : Tables) × (own_port X db ifname none ≡ go (db', none)))
            ⊎ ((m : List Message) × (own_port X db ifname none ≡ abort m)))
  own_port-cases db ifname = elim (own_port-go db ifname) [
    | inr (m, e) ↦ inr (inr (m, e))
    | inl ((db', found), e) ↦ elim (Option-cases found) [
      | inl f ↦ inr (inl (db', ground (arith, e, f)))
      | inr (row, f) ↦ inl (db', row, ground (arith, e, f))
    ]
  ]

  -- The one row that a command writes: the port that the search found, edited.
  abbrev pub EditsOwn : Tables → String → Tables → Type 0
  EditsOwn db ifname db'' =
      (db' : Tables) × (row : PortRow) × (row' : PortRow) × ((own_port X db ifname none
          ≡ go (db', some row))
        ⊎ ((db' ≡ db)
            × (select_port (find_interface ifname db.interfaces) ifname (λ r. []) db.ports none
                ≡ go (some row))))
      × (db'' ≡ write_port row' db')
      × IsEdit X row row'

  module _ (L : VtyshLaws X) (s : Session) (db : Tables) (ifname : String) where
    -- A row of the port that the search found.
    edits :
        (db' : Tables) (row row' : PortRow)
        → own_port X db ifname none ≡ go (db', some row)
        → IsEdit X row row'
        → EditsOwn db ifname (write_port row' db')
    edits db' row row' found e = (db', row, row', inl found, refl, e)

    access_edit : (id : ℕ) → Writes (EditsOwn db ifname) (cli_intf_vlan_access X s db ifname id)
    unfolding cli_intf_vlan_access
    access_edit id = elim (own_port-cases db ifname) [
      | inl (db', row, e) ↦
          ground
            (arith, e, edits db' row (set_access X db' id row) e (set_access-IsEdit X L db' id row))
      | inr (inl (db', e)) ↦ ground (arith, e)
      | inr (inr (m, e)) ↦ ground (arith, e)
    ]

    no_access_edit :
        (id : ℕ) → Writes (EditsOwn db ifname) (cli_intf_no_vlan_access X s db ifname id)
    unfolding cli_intf_no_vlan_access has_tag
    no_access_edit id = elim (own_port-cases db ifname) [
      | inl (db', row, e) ↦ ground (
        arith,
        e,
        edits db' row (X.ops_port_set_tag db' default_vlan (set_mode X.mode_access row)) e,
        no_access-IsEdit X L db' row,
      )
      | inr (inl (db', e)) ↦ ground (arith, e)
      | inr (inr (m, e)) ↦ ground (arith, e)
    ]

    native_edit :
        (id : ℕ) → Writes (EditsOwn db ifname) (cli_intf_vlan_trunk_native X s db ifname id)
    unfolding cli_intf_vlan_trunk_native
    native_edit id = elim (own_port-cases db ifname) [
      | inl (db', row, e) ↦
          ground
            (arith, e, edits db' row (set_native X db' id row) e (set_native-IsEdit X L db' id row))
      | inr (inl (db', e)) ↦ ground (arith, e)
      | inr (inr (m, e)) ↦ ground (arith, e)
    ]

    no_native_edit :
        (id : ℕ) → Writes (EditsOwn db ifname) (cli_intf_no_vlan_trunk_native X s db ifname id)
    unfolding cli_intf_no_vlan_trunk_native has_tag
    no_native_edit id = elim (own_port-cases db ifname) [
      | inl (db', row, e) ↦ ground (
        arith,
        e,
        edits db' row
            (without_native X (length row.vlan_trunks) (X.ops_port_set_tag db' default_vlan row)) e
            (no_native-IsEdit X L db' row),
      )
      | inr (inl (db', e)) ↦ ground (arith, e)
      | inr (inr (m, e)) ↦ ground (arith, e)
    ]

    native_tag_edit : Writes (EditsOwn db ifname) (cli_intf_vlan_trunk_native_tag X s db ifname)
    unfolding cli_intf_vlan_trunk_native_tag
    native_tag_edit = elim (own_port-cases db ifname) [
      | inl (db', row, e) ↦ ground (
        arith,
        e,
        edits db' row (set_mode X.mode_native_tagged row) e
            (set_mode-IsEdit X L db' X.mode_native_tagged row L.access_tagged),
      )
      | inr (inl (db', e)) ↦ ground (arith, e)
      | inr (inr (m, e)) ↦ ground (arith, e)
    ]

    no_native_tag_edit :
        Writes (EditsOwn db ifname) (cli_intf_no_vlan_trunk_native_tag X s db ifname)
    unfolding cli_intf_no_vlan_trunk_native_tag
    no_native_tag_edit = elim (own_port-cases db ifname) [
      | inl (db', row, e) ↦ ground (
        arith,
        e,
        edits db' row (set_mode X.mode_native_untagged row) e
            (set_mode-IsEdit X L db' X.mode_native_untagged row L.access_untagged),
      )
      | inr (inl (db', e)) ↦ ground (arith, e)
      | inr (inr (m, e)) ↦ ground (arith, e)
    ]

    -- The first tables, where the command looks the port up itself.
    edits_own :
        (row row' : PortRow)
        → select_port (find_interface ifname db.interfaces) ifname (λ r. []) db.ports none
          ≡ go (some row)
        → IsEdit X row row'
        → EditsOwn db ifname (write_port row' db)
    edits_own row row' found e = (db, row, row', inr (refl, found), refl, e)

    dropped :
        (row : PortRow)
        → select_port (find_interface ifname db.interfaces) ifname (λ r. []) db.ports none
          ≡ go (some row)
        → is_other_than_trunk X row ≡ false
        → (kept : Option (List ℕ)) (is_trunk : Bool)
        → EditsOwn db ifname (
            write_port
              (settle_mode X db is_trunk (after_drop X db row kept).1 (after_drop X db row kept).0)
              db)
    dropped row found e kept is_trunk =
        edits_own row _ found (dropped-IsEdit X L db row kept is_trunk e)

    no_trunk_allowed_edit :
        (id : ℕ) → Writes (EditsOwn db ifname) (cli_intf_no_vlan_trunk_allowed X s db ifname id)
    unfolding cli_intf_no_vlan_trunk_allowed drop_trunk
    no_trunk_allowed_edit id =
        elim (select_port-cases (find_interface ifname db.interfaces) ifname (λ r. []) db.ports
          none) [
            | inr (m, e) ↦ ground (arith, e)
            | inl (found, e) ↦ elim (Option-cases found) [
              | inl f ↦ ground (arith, e, f)
              | inr (row, f) ↦
                  let q : select_port (find_interface ifname db.interfaces) ifname (λ r. [])
                        db.ports none
                      ≡ go (some row) =
                    ground (arith, e, f) in
                  let some_kept = some (without id row.vlan_trunks) in
                  ground (
                    arith,
                    q,
                    dropped row q _ some_kept
                        (mode_eq (after_drop X db row some_kept).0.vlan_mode X.mode_trunk),
                  )
            ]
          ]

    -- A command of an interface, other than the one with a range of VLANs, that hands in its transaction
    -- has written one row of the Port table: the row that the search for the interface's port has
    -- found, or that `port_check_and_add` has added. Of this row it has written nothing but the three
    -- VLAN columns, and a port that had no trunks in access mode has none there afterwards. All else is
    -- as that search has left it. The functions that the commands call keep their documented behaviour.
    pub run_intf-EditsOwn : (c : IntfCommand) → Writes (EditsOwn db ifname) (run_intf s db ifname c)
    unfolding run_intf
    run_intf-EditsOwn (access id) = access_edit id
    run_intf-EditsOwn (no_access id) = no_access_edit id
    run_intf-EditsOwn (no_trunk_allowed id) = no_trunk_allowed_edit id
    run_intf-EditsOwn (trunk_native id) = native_edit id
    run_intf-EditsOwn (no_trunk_native id) = no_native_edit id
    run_intf-EditsOwn trunk_native_tag = native_tag_edit
    run_intf-EditsOwn no_trunk_native_tag = no_native_tag_edit
