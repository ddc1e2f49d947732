-- ===== src/Cli/Edit.antt =====
-- What the commands of src/cli/vlan_vty.c do to the row of a port.
use vland.Common.{
  not, ◌&&◌, ◌∙◌, ℕ, String, ◌≡◌, refl, ◌≢◌, Bool, true, false, Option, none, some, List, [], ◌∷◌,
  ◌==◌, if◌then◌else◌, arith, eq_iff, Bool-cases, Option-cases, inl, inr,
}
use vland.Cli.{
  after_drop, settle_mode, is_other_than_trunk, is_set_to_other, length, set_access, clear_access,
  into_mode, add_trunk, set_native, without_native, set_mode, default_vlan, is_not_native, PortRow,
  Tables, Vtysh, mode_eq,
}
use vland.Cli.Laws.{VtyshLaws}

module _ (X : Vtysh) where
  -- A port in access mode has no trunks.
  abbrev pub IsAccessClean : PortRow → Type 0
  IsAccessClean row = (if mode_eq row.vlan_mode X.mode_access then row.vlan_trunks else []) ≡ []

  -- From one row of a port to the next: the columns that VLAN commands leave alone stay, and so does
  -- the invariant.
  pub record IsEdit (row row' : PortRow) : Type 0 where
    pub same_uuid : row'.uuid ≡ row.uuid
    pub same_name : row'.name ≡ row.name
    pub same_interfaces : row'.interfaces ≡ row.interfaces
    pub stays_clean : IsAccessClean row → IsAccessClean row'

  -- A row whose new mode is not access mode, or that has no trunks left.
  IsEdit-mode :
      (row : PortRow) (mode : Option String) (tag : Option ℕ) (trunks : List ℕ)
      → (IsAccessClean row
          → IsAccessClean (record row { vlan_mode = mode; vlan_tag = tag; vlan_trunks = trunks }))
      → IsEdit row (record row { vlan_mode = mode; vlan_tag = tag; vlan_trunks = trunks })
  IsEdit-mode row mode tag trunks h = record {
    same_uuid = refl;
    same_name = refl;
    same_interfaces = refl;
    stays_clean = h;
  }

  module _ (L : VtyshLaws X) (db : Tables) where
    pub set_access-eq :
        (id : ℕ) (row : PortRow)
        → set_access X db id row ≡ record row {
          vlan_mode = some X.mode_access;
          vlan_tag = L.stored_tag db id;
          vlan_trunks = [];
        }
    unfolding set_access
    set_access-eq id row =
        rw
          (
            set_access,
            L.set_tag db id (set_mode X.mode_access row),
            L.set_trunks db []
                (record row { vlan_mode = some X.mode_access; vlan_tag = L.stored_tag db id }),
            L.stored_trunks-is_vlan db [] tt,
          )
          refl

    pub set_access-IsEdit : (id : ℕ) (row : PortRow) → IsEdit row (set_access X db id row)
    set_access-IsEdit id row = rw (set_access-eq id row) (IsEdit-mode row _ _ _ (λ c. ground arith))

    pub clear_access-IsEdit : (row : PortRow) → IsEdit row (clear_access X db row)
    unfolding clear_access
    clear_access-IsEdit row =
        rw (L.set_tag db default_vlan (record row { vlan_mode = none }))
          (IsEdit-mode row none _ _ (λ c. refl))

    pub set_mode-IsEdit :
        (mode : String) (row : PortRow) → X.mode_access ≢ mode → IsEdit row (set_mode mode row)
    set_mode-IsEdit mode row ne =
        IsEdit-mode row (some mode) row.vlan_tag row.vlan_trunks
          (λ c. ground (arith, eq_iff mode X.mode_access))

    pub into_mode-IsEdit :
        (mode : String) (row : PortRow) → X.mode_access ≢ mode → IsEdit row (into_mode X mode row)
    unfolding into_mode
    into_mode-IsEdit mode row ne = elim (Bool-cases (is_not_native X row)) [
      | inl e ↦ rw e (set_mode-IsEdit mode row ne)
      | inr e ↦ rw e (IsEdit-mode row row.vlan_mode row.vlan_tag row.vlan_trunks (λ c. c))
    ]

    pub set_tag-IsEdit : (id : ℕ) (row : PortRow) → IsEdit row (X.ops_port_set_tag db id row)
    set_tag-IsEdit id row = rw (L.set_tag db id row) (IsEdit-mode row _ _ _ (λ c. c))

    pub IsEdit-then : (a b c : PortRow) → IsEdit a b → IsEdit b c → IsEdit a c
    IsEdit-then a b c f g = record {
      same_uuid = g.same_uuid ∙ f.same_uuid;
      same_name = g.same_name ∙ f.same_name;
      same_interfaces = g.same_interfaces ∙ f.same_interfaces;
      stays_clean = λ h. g.stays_clean (f.stays_clean h);
    }

    pub set_native-IsEdit : (id : ℕ) (row : PortRow) → IsEdit row (set_native X db id row)
    unfolding set_native
    set_native-IsEdit id row =
        let row' = into_mode X X.mode_native_untagged row in
        IsEdit-then row row' _ (into_mode-IsEdit X.mode_native_untagged row L.access_untagged)
          (set_tag-IsEdit id row')

    length-eq_nil : (vs : List ℕ) → length vs ≡ 0 → vs ≡ []
    length-eq_nil [] e = refl
    length-eq_nil (v ∷ vs) e = ground arith

    pub without_native-IsEdit :
        (row : PortRow) → IsEdit row (without_native X (length row.vlan_trunks) row)
    unfolding without_native
    without_native-IsEdit row = IsEdit-mode row _ row.vlan_tag row.vlan_trunks (λ c.
        ground
          (arith, length-eq_nil row.vlan_trunks, eq_iff X.mode_trunk X.mode_access, L.access_trunk))

    into_mode-not_access :
        (mode : String) (row : PortRow)
        → X.mode_access ≢ mode
        → mode_eq (into_mode X mode row).vlan_mode X.mode_access ≡ false
    unfolding into_mode
    into_mode-not_access mode row ne = elim (Option-cases row.vlan_mode) [
      | inl e ↦ rw e (ground (arith, eq_iff mode X.mode_access))
      | inr (m, e) ↦ rw e (
          ground (
            arith,
            eq_iff mode X.mode_access,
            eq_iff m X.mode_access,
            eq_iff m X.mode_native_tagged,
            eq_iff m X.mode_native_untagged,
            L.access_tagged,
            L.access_untagged,
          ))
    ]

    pub set_trunks-IsEdit :
        (ids : List ℕ) (row : PortRow)
        → mode_eq row.vlan_mode X.mode_access ≡ false
        → IsEdit row (X.ops_port_set_trunks db ids row)
    set_trunks-IsEdit ids row e =
        rw (L.set_trunks db ids row) (IsEdit-mode row row.vlan_mode row.vlan_tag _ (λ c. rw e refl))

    pub allow-IsEdit :
        (mode : String) (id : ℕ) (row : PortRow)
        → X.mode_access ≢ mode
        → IsEdit row (add_trunk X db id (into_mode X mode row))
    unfolding add_trunk
    allow-IsEdit mode id row ne =
        let row' = into_mode X mode row in
        IsEdit-then row row' _ (into_mode-IsEdit mode row ne)
          (set_trunks-IsEdit _ row' (into_mode-not_access mode row ne))

    trunk_mode-not_access :
        (mode : Option String)
        → (is_set_to_other mode X.mode_trunk
            && (not (mode_eq mode X.mode_native_tagged)
                && not (mode_eq mode X.mode_native_untagged)))
          ≡ false
        → mode_eq mode X.mode_access ≡ false
    trunk_mode-not_access none e = refl
    trunk_mode-not_access (some m) e = ground (
      arith,
      eq_iff m X.mode_access,
      eq_iff m X.mode_trunk,
      eq_iff m X.mode_native_tagged,
      eq_iff m X.mode_native_untagged,
      L.access_trunk,
      L.access_tagged,
      L.access_untagged,
    )

    pub after_drop-IsEdit :
        (row : PortRow) (kept : Option (List ℕ))
        → is_other_than_trunk X row ≡ false
        → IsEdit row (after_drop X db row kept).0
    unfolding after_drop
    after_drop-IsEdit row none e =
        IsEdit-mode row row.vlan_mode row.vlan_tag row.vlan_trunks (λ c. c)
    after_drop-IsEdit row (some kept) e =
        set_trunks-IsEdit kept row (trunk_mode-not_access row.vlan_mode e)

    pub after_drop-no_trunks :
        (row : PortRow) (kept : Option (List ℕ))
        → (after_drop X db row kept).1 ≡ 0
        → (after_drop X db row kept).0.vlan_trunks ≡ []
    unfolding after_drop
    after_drop-no_trunks row none e = length-eq_nil row.vlan_trunks e
    after_drop-no_trunks row (some kept) e =
        rw (L.set_trunks db kept row, length-eq_nil kept e) (L.stored_trunks-is_vlan db [] tt)

    pub settle_mode-IsEdit :
        (is_trunk : Bool) (n : ℕ) (row : PortRow)
        → (n ≡ 0 → row.vlan_trunks ≡ [])
        → IsEdit row (settle_mode X db is_trunk n row)
    unfolding settle_mode
    settle_mode-IsEdit is_trunk n row h = elim (Bool-cases (is_trunk && (n == 0))) [
      | inl e ↦
          rw (e, L.set_tag db default_vlan (set_mode X.mode_access row))
            (IsEdit-mode row _ _ row.vlan_trunks (λ c. ground (arith, h)))
      | inr e ↦ rw e (IsEdit-mode row row.vlan_mode row.vlan_tag row.vlan_trunks (λ c. c))
    ]

    -- The part of `no vlan trunk allowed` from the removal on.
    pub dropped-IsEdit :
        (row : PortRow) (kept : Option (List ℕ)) (is_trunk : Bool)
        → is_other_than_trunk X row ≡ false
        → IsEdit row
            (settle_mode X db is_trunk (after_drop X db row kept).1 (after_drop X db row kept).0)
    dropped-IsEdit row kept is_trunk e =
        IsEdit-then row (after_drop X db row kept).0 _ (after_drop-IsEdit row kept e)
          (settle_mode-IsEdit is_trunk _ _ (after_drop-no_trunks row kept))

    -- What an access port becomes that gives up its VLAN, and a port that gives up its native VLAN.
    pub no_access-IsEdit :
        (row : PortRow)
        → mode_eq row.vlan_mode X.mode_access ≡ true
        → IsEdit row (X.ops_port_set_tag db default_vlan (set_mode X.mode_access row))
    no_access-IsEdit row e =
        rw (L.set_tag db default_vlan (set_mode X.mode_access row))
          (IsEdit-mode row (some X.mode_access) _ row.vlan_trunks (λ c. ground arith))

    pub no_native-IsEdit :
        (row : PortRow)
        → IsEdit row
            (without_native X (length row.vlan_trunks) (X.ops_port_set_tag db default_vlan row))
    no_native-IsEdit row =
        let r = record row { vlan_tag = L.stored_tag db default_vlan } in
        rw (L.set_tag db default_vlan row) (
          IsEdit-then row r _ (IsEdit-mode row row.vlan_mode _ row.vlan_trunks (λ c. c))
            (without_native-IsEdit r))
