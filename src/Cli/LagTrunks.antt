-- ===== src/Cli/LagTrunks.antt =====
-- What the commands on allowed VLANs of a LAG do to its port.
use vland.Common.{
  ap, ◌∙◌, ℕ, String, ◌≡◌, refl, sym, Bool, true, false, Option, none, some, List, [], ◌∷◌, ◌++◌,
  ◌==◌, contains, if◌then◌else◌, All, arith, Bool-cases, Option-cases, inl, inr, not, ◌&&◌, ◌||◌,
}
use vland.Cli.{
  mode_is, PortRow, Tables, Vtysh, Session, ◌>>=◌, finish, write_port, find_port, into_mode,
  add_trunk, set_mode, after_drop, settle_mode, drop_trunk, without, is_not_native, length,
  default_vlan, is_vlan, mode_eq,
}
use vland.Cli.Vids.{
  contains-append, contains-without, without-absent, All-append, All-without, contains-same,
}
use vland.Cli.Lag.{cli_lag_vlan_trunk_allowed, cli_lag_no_vlan_trunk_allowed}
use vland.Cli.Laws.{VtyshLaws}
use vland.Cli.Hoare.{Writes, All-find_port}

-- A mode that is NULL is a fault, and any other is compared.
at_mode :
    (s : Session) (P : Tables → Type 0) (name : String) (mode : Option String) (f : Bool → Tables)
    → P (f (mode_eq mode name))
    → Writes P (mode_is mode name >>= (λ t. finish s [] (f t)))
at_mode s P name none f p = tt
at_mode s P name (some m) f p = p

-- Every trunk VLAN of every port refers to a VLAN row.
abbrev pub IsLinked : Tables → Type 0
IsLinked db = All (λ p. All (λ v. is_vlan v db.vlans ≡ true) p.vlan_trunks) db.ports

-- One row is written, the first port of a name, and it goes from one row to the other.
abbrev pub Turns : Tables → String → (PortRow → PortRow → Type 0) → Tables → Type 0
Turns db name R db' =
    (row : PortRow) × (row' : PortRow) × (find_port name db.ports ≡ some row)
    × (db' ≡ write_port row' db)
    × R row row'

module _ (X : Vtysh) where
  -- A port in trunk mode with no other trunk VLAN than one.
  abbrev pub becomes_access : ℕ → PortRow → Bool
  becomes_access id row =
      mode_eq row.vlan_mode X.mode_trunk && (length (without id row.vlan_trunks) == 0)

  -- The port allows one VLAN more, in a trunk mode.
  pub record Allows (id : ℕ) (row row' : PortRow) : Type 0 where
    pub members : (v : ℕ) → contains v row'.vlan_trunks ≡ (v == id || contains v row.vlan_trunks)
    pub mode : row'.vlan_mode ≡ (if is_not_native X row then some X.mode_trunk else row.vlan_mode)
    pub same_tag : row'.vlan_tag ≡ row.vlan_tag

  -- The port allows one VLAN less. In trunk mode without trunks it becomes an access port of the
  -- default VLAN.
  pub record Disallows (db : Tables) (id : ℕ) (row row' : PortRow) : Type 0 where
    pub members :
        (v : ℕ) → contains v row'.vlan_trunks ≡ (contains v row.vlan_trunks && not (v == id))
    pub mode :
        row'.vlan_mode ≡ (if becomes_access id row then some X.mode_access else row.vlan_mode)
    pub tag : row'.vlan_tag ≡ (if becomes_access id row then some default_vlan else row.vlan_tag)

  into_mode-trunks :
      (mode : String) (row : PortRow) → (into_mode X mode row).vlan_trunks ≡ row.vlan_trunks
  unfolding into_mode
  into_mode-trunks mode row = ground arith

  into_mode-tag : (mode : String) (row : PortRow) → (into_mode X mode row).vlan_tag ≡ row.vlan_tag
  unfolding into_mode
  into_mode-tag mode row = ground arith

  into_mode-mode :
      (mode : String) (row : PortRow)
      → (into_mode X mode row).vlan_mode
        ≡ (if is_not_native X row then some mode else row.vlan_mode)
  unfolding into_mode
  into_mode-mode mode row = ground arith

  Allows-old :
      (id : ℕ) (row : PortRow)
      → contains id (into_mode X X.mode_trunk row).vlan_trunks ≡ true
      → Allows id row (into_mode X X.mode_trunk row)
  Allows-old id row e =
      let h : contains id row.vlan_trunks ≡ true = rw (sym (into_mode-trunks X.mode_trunk row)) e in
      record {
        members =
            λ v. rw (into_mode-trunks X.mode_trunk row) (contains-same v id row.vlan_trunks h);
        mode = into_mode-mode X.mode_trunk row;
        same_tag = into_mode-tag X.mode_trunk row;
      }

  module _ (L : VtyshLaws X) (s : Session) (db : Tables) (lagname : String) where
    Allows-new :
        (id : ℕ) (row : PortRow)
        → All (λ v. is_vlan v db.vlans ≡ true) row.vlan_trunks
        → is_vlan id db.vlans ≡ true
        → Allows id row (add_trunk X db id (into_mode X X.mode_trunk row))
    unfolding add_trunk
    Allows-new id row linked vlan =
        let row' = into_mode X X.mode_trunk row in
        let all = All-append (λ v. is_vlan v db.vlans ≡ true) id row.vlan_trunks linked vlan in
        rw
          (
            L.set_trunks db (row'.vlan_trunks ++ (id ∷ [])) row',
            into_mode-trunks X.mode_trunk row,
            L.stored_trunks-is_vlan db (row.vlan_trunks ++ (id ∷ [])) all,
          )
          (record {
            members = λ v. contains-append v id row.vlan_trunks;
            mode = into_mode-mode X.mode_trunk row;
            same_tag = into_mode-tag X.mode_trunk row;
          })

    allowed :
        (id : ℕ) (row : PortRow)
        → find_port lagname db.ports ≡ some row
        → All (λ v. is_vlan v db.vlans ≡ true) row.vlan_trunks
        → is_vlan id db.vlans ≡ true
        → Turns db lagname
            (Allows id)
            (write_port (add_trunk X db id (into_mode X X.mode_trunk row)) db)
    allowed id row found linked vlan = (row, _, found, refl, Allows-new id row linked vlan)

    allowed_before :
        (id : ℕ) (row : PortRow)
        → find_port lagname db.ports ≡ some row
        → contains id (into_mode X X.mode_trunk row).vlan_trunks ≡ true
        → Turns db lagname (Allows id) (write_port (into_mode X X.mode_trunk row) db)
    allowed_before id row found e = (row, _, found, refl, Allows-old id row e)

    -- `vlan trunk allowed` on a LAG, where it hands in its transaction, adds the VLAN to those that the
    -- LAG's port allows and removes none; it leaves the port in a native mode, and puts it into trunk
    -- mode from any other; the tag stays, and so does all else. The functions that the command calls
    -- keep their documented behaviour, and the trunk VLANs of all ports refer to VLAN rows.
    pub cli_lag_vlan_trunk_allowed_lem :
        (id : ℕ)
        → IsLinked db
        → Writes (Turns db lagname (Allows id)) (cli_lag_vlan_trunk_allowed X s db lagname id)
    unfolding cli_lag_vlan_trunk_allowed
    cli_lag_vlan_trunk_allowed_lem id linked = elim (Option-cases (find_port lagname db.ports)) [
      | inl e ↦ ground (arith, e)
      | inr (row, e) ↦
          let own =
            All-find_port (λ p. All (λ v. is_vlan v db.vlans ≡ true) p.vlan_trunks) lagname row
              db.ports linked e in
          ground (arith, e, allowed id row e own, allowed_before id row e)
    ]

    settle-Disallows :
        (id n : ℕ) (row row' : PortRow)
        → row'.vlan_mode ≡ row.vlan_mode
        → row'.vlan_tag ≡ row.vlan_tag
        → row'.vlan_trunks ≡ without id row.vlan_trunks
        → n ≡ length (without id row.vlan_trunks)
        → is_vlan default_vlan db.vlans ≡ true
        → Disallows db id row (settle_mode X db (mode_eq row.vlan_mode X.mode_trunk) n row')
    unfolding settle_mode
    settle-Disallows id n row row' mode tag trunks e vlan =
        elim (Bool-cases (becomes_access id row)) [
          | inl b ↦
              rw (e, b, L.set_tag db default_vlan (set_mode X.mode_access row'))
                (record {
                  members = λ v. rw trunks (contains-without v id row.vlan_trunks);
                  mode = rw b refl;
                  tag = rw b (L.stored_tag-is_vlan db default_vlan vlan);
                })
          | inr b ↦
              rw (e, b)
                (record {
                  members = λ v. rw trunks (contains-without v id row.vlan_trunks);
                  mode = rw b mode;
                  tag = rw b tag;
                })
        ]

    -- What is left of the command from the removal on.
    disallowed :
        (id : ℕ) (row : PortRow) (kept : Option (List ℕ))
        → find_port lagname db.ports ≡ some row
        → is_vlan default_vlan db.vlans ≡ true
        → (after_drop X db row kept).0.vlan_mode ≡ row.vlan_mode
        → (after_drop X db row kept).0.vlan_tag ≡ row.vlan_tag
        → (after_drop X db row kept).0.vlan_trunks ≡ without id row.vlan_trunks
        → (after_drop X db row kept).1 ≡ length (without id row.vlan_trunks)
        → Writes (Turns db lagname (Disallows db id)) (
            mode_is (after_drop X db row kept).0.vlan_mode X.mode_trunk >>= (λ t. finish s [] (
              write_port
                (settle_mode X db t (after_drop X db row kept).1 (after_drop X db row kept).0)
                db)))
    disallowed id row kept found vlan mode tag trunks n =
        let turn = settle-Disallows id _ row (after_drop X db row kept).0 mode tag trunks n vlan in
        let whole : Turns db lagname (Disallows db id) (
            write_port
              (settle_mode X db (mode_eq row.vlan_mode X.mode_trunk) (after_drop X db row kept).1
                (after_drop X db row kept).0)
              db) =
          (row, _, found, refl, turn) in
        rw mode (
          at_mode s (Turns db lagname (Disallows db id)) X.mode_trunk row.vlan_mode
            (λ t.
              write_port
                (settle_mode X db t (after_drop X db row kept).1 (after_drop X db row kept).0) db)
            whole)

    abbrev Rest : ℕ → PortRow → Option (List ℕ) → Type 0
    Rest id row kept = Writes (Turns db lagname (Disallows db id)) (
        mode_is (after_drop X db row kept).0.vlan_mode X.mode_trunk >>= (λ t. finish s [] (
          write_port (settle_mode X db t (after_drop X db row kept).1 (after_drop X db row kept).0)
            db)))

    kept_none :
        (id : ℕ) (row : PortRow)
        → find_port lagname db.ports ≡ some row
        → is_vlan default_vlan db.vlans ≡ true
        → contains id row.vlan_trunks ≡ false
        → Rest id row none
    unfolding after_drop
    kept_none id row found vlan e =
        let same = without-absent id row.vlan_trunks e in
        disallowed id row none found vlan refl refl (sym same) (ap length (sym same))

    kept_some :
        (id : ℕ) (row : PortRow)
        → find_port lagname db.ports ≡ some row
        → is_vlan default_vlan db.vlans ≡ true
        → All (λ v. is_vlan v db.vlans ≡ true) (without id row.vlan_trunks)
        → Rest id row (some (without id row.vlan_trunks))
    unfolding after_drop
    kept_some id row found vlan all =
        let kept = without id row.vlan_trunks in
        let law = L.set_trunks db kept row in
        disallowed id row (some kept) found vlan (ap (λ r. r.vlan_mode) law)
          (ap (λ r. r.vlan_tag) law)
          (ap (λ r. r.vlan_trunks) law ∙ L.stored_trunks-is_vlan db kept all) refl

    -- The removal and what follows it.
    dropped :
        (id : ℕ) (row : PortRow)
        → find_port lagname db.ports ≡ some row
        → All (λ v. is_vlan v db.vlans ≡ true) row.vlan_trunks
        → is_vlan default_vlan db.vlans ≡ true
        → Writes (Turns db lagname (Disallows db id)) (
            drop_trunk id row.vlan_trunks >>= (λ kept.
              mode_is (after_drop X db row kept).0.vlan_mode X.mode_trunk >>= (λ t. finish s [] (
                write_port
                  (settle_mode X db t (after_drop X db row kept).1 (after_drop X db row kept).0)
                  db))))
    unfolding drop_trunk
    dropped id row found own vlan =
        let all = All-without (λ v. is_vlan v db.vlans ≡ true) id row.vlan_trunks own in
        elim (Bool-cases (contains id row.vlan_trunks)) [
          | inl e ↦ ground (arith, e, kept_some id row found vlan all)
          | inr e ↦ ground (arith, e, kept_none id row found vlan e)
        ]

    -- `no vlan trunk allowed` on a LAG, where it hands in its transaction, takes the VLAN from those
    -- that the LAG's port allows and leaves the others; a port in trunk mode that has no VLAN left
    -- becomes an access port of the default VLAN, and otherwise mode and tag stay, and so does all
    -- else. The functions that the command calls keep their documented behaviour, the trunk VLANs of
    -- all ports refer to VLAN rows, and the default VLAN has one.
    pub cli_lag_no_vlan_trunk_allowed_lem :
        (id : ℕ)
        → IsLinked db
        → is_vlan default_vlan db.vlans ≡ true
        → Writes
            (Turns db lagname (Disallows db id))
            (cli_lag_no_vlan_trunk_allowed X s db lagname id)
    unfolding cli_lag_no_vlan_trunk_allowed
    cli_lag_no_vlan_trunk_allowed_lem id linked vlan =
        elim (Option-cases (find_port lagname db.ports)) [
          | inl e ↦ ground (arith, e)
          | inr (row, e) ↦
              let own =
                All-find_port (λ p. All (λ v. is_vlan v db.vlans ≡ true) p.vlan_trunks) lagname row
                  db.ports linked e in
              ground (arith, e, dropped id row e own vlan)
        ]
