-- ===== src/Cli/Create/Forget.antt =====
-- What `no vlan <id>` does to one port.
use vland.Common.{
  ℕ, ◌≡◌, refl, Bool, true, false, not, ◌&&◌, ◌||◌, none, some, ◌==◌, contains, str_eq,
  if◌then◌else◌, All, arith, Bool-cases, inl, inr,
}
use vland.External.{Strings}
use vland.Cli.{
  PortRow, Tables, Vtysh, Step, go, stop, fault, is_vlan, length, without, drop_trunk, default_vlan,
  set_mode,
}
use vland.Cli.Laws.{VtyshLaws}
use vland.Cli.Vids.{contains-without, All-without, without-absent}
use vland.Cli.Intf.{find_interface}
use vland.Cli.Show.{has_tag}
use vland.Cli.Create.{VlanCalls, leave, forget_vlan}

-- A step that goes on does so with such a value, and it never returns.
abbrev pub Yields : {A : Type 0} → (A → Type 0) → Step A → Type 0
Yields P (go a) = P a
Yields P (stop o) = ⊥
Yields P fault = Unit

module _ (X : Vtysh) (t : Strings) (C : VlanCalls) (L : VtyshLaws X) (db : Tables)
    (vlan_id : ℕ) where
  -- The port's name is that of an interface of the type "system".
  abbrev pub has_system : PortRow → Bool
  has_system row = elim (find_interface row.name db.interfaces) as (λ _. Bool) [
    | none ↦ false
    | some ifrow ↦ str_eq ifrow.type C.type_system
  ]

  -- The port had the VLAN, in its trunks or as its tag.
  abbrev pub had : PortRow → Bool
  had row = contains vlan_id row.vlan_trunks || has_tag vlan_id row

  pub record Forgets (row row' : PortRow) : Type 0 where
    pub unused : had row ≡ false → row' ≡ row
    pub members :
        (v : ℕ) → contains v row'.vlan_trunks ≡ (contains v row.vlan_trunks && not (v == vlan_id))
    pub mode :
        had row ≡ true
        → row'.vlan_mode ≡ (
            if not (length (without vlan_id row.vlan_trunks) == 0)
            then some X.mode_trunk
            else if has_system row
            then some X.mode_access
            else row.vlan_mode)
    pub tag :
        had row ≡ true
        → row'.vlan_tag ≡ (
            if not (length (without vlan_id row.vlan_trunks) == 0)
            then L.stored_tag db 0
            else if has_system row
            then L.stored_tag db default_vlan
            else row.vlan_tag)

  leave-eq :
      (n : ℕ) (row : PortRow)
      → leave X t C db n row ≡ record row {
        vlan_mode =
            if not (n == 0)
            then some X.mode_trunk
            else if has_system row
            then some X.mode_access
            else row.vlan_mode;
        vlan_tag =
            if not (n == 0)
            then L.stored_tag db 0
            else if has_system row
            then L.stored_tag db default_vlan
            else row.vlan_tag;
      }
  unfolding leave
  leave-eq n row = ground (
    arith,
    L.set_tag db 0 (set_mode X.mode_trunk row),
    L.set_tag db default_vlan (set_mode X.mode_access row),
  )

  -- A port whose trunks do not have the VLAN, or no longer.
  kept_none :
      (row : PortRow)
      → contains vlan_id row.vlan_trunks ≡ false
      → Forgets row
          (if has_tag vlan_id row then leave X t C db (length row.vlan_trunks) row else row)
  kept_none row e =
      let same = without-absent vlan_id row.vlan_trunks e in
      let left = leave-eq (length row.vlan_trunks) row in
      let members = λ (v : ℕ). contains-without v vlan_id row.vlan_trunks in
      elim (Bool-cases (has_tag vlan_id row)) [
        | inl tagged ↦
            rw (tagged, left)
              (record {
                unused = λ h. absurd (ground (arith, tagged, h));
                members = λ v. ground (arith, members v, same);
                mode = λ h. ground (arith, same);
                tag = λ h. ground (arith, same);
              })
        | inr untagged ↦ rw untagged (record {
          unused = λ h. refl;
          members = λ v. ground (arith, members v, same);
          mode = λ h. absurd (ground (arith, untagged, e, h));
          tag = λ h. absurd (ground (arith, untagged, e, h));
        })
      ]

  kept_some :
      (row : PortRow)
      → contains vlan_id row.vlan_trunks ≡ true
      → All (λ v. is_vlan v db.vlans ≡ true) row.vlan_trunks
      → let trunks = without vlan_id row.vlan_trunks in
        Forgets row (leave X t C db (length trunks) (X.ops_port_set_trunks db trunks row))
  kept_some row e linked =
      let trunks = without vlan_id row.vlan_trunks in
      let law = L.set_trunks db trunks row in
      let stored =
        L.stored_trunks-is_vlan db trunks
          (All-without (λ v. is_vlan v db.vlans ≡ true) vlan_id row.vlan_trunks linked) in
      rw (law, stored, leave-eq (length trunks) (record row { vlan_trunks = trunks }))
        (record {
          unused = λ h. absurd (ground (arith, e, h));
          members = λ v. contains-without v vlan_id row.vlan_trunks;
          mode = λ h. refl;
          tag = λ h. refl;
        })

  -- What `no vlan <id>` does to a port, where it does not fault. A port that has the VLAN neither in its
  -- trunks nor as its tag stays as it was. Otherwise its trunks lose the VLAN and no other. Where trunks
  -- are left, the port goes into trunk mode and its tag is set to the VLAN ID 0, be it the removed VLAN
  -- or another; where none is left, an interface of type "system" becomes an access port of the default
  -- VLAN, and any other port keeps its mode and its tag. The command does not return at the port. The
  -- trunk VLANs of the port refer to VLAN rows, and the functions that the command calls keep their
  -- documented behaviour.
  pub forget_vlan_lem :
      (row : PortRow)
      → All (λ v. is_vlan v db.vlans ≡ true) row.vlan_trunks
      → Yields (Forgets row) (forget_vlan X t C db vlan_id row)
  unfolding forget_vlan drop_trunk
  forget_vlan_lem row linked = elim (Bool-cases (contains vlan_id row.vlan_trunks)) [
    | inl e ↦ ground (arith, e, kept_some row e linked)
    | inr e ↦ ground (arith, e, kept_none row e)
  ]
