-- ===== src/Cli/Config/Allowed.antt =====
-- VLANs allowed one after the other at a port, as rows of the Port table.
use vland.Common.{
  ap, ◌∙◌, ℕ, ◌≡◌, ◌≢◌, refl, true, false, none, List, [], ◌∷◌, ◌++◌, ◌==◌, contains, map, All,
  arith, Bool-cases, inl, inr,
}
use vland.Cli.{PortRow, SystemRow, Tables, Vtysh, is_vlan, is_not_native}
use vland.Cli.Vids.{All-append}
use vland.Cli.Config.{vlan_trunk_allowed}
use vland.Cli.Config.Replay.{IsUsable, AcceptsAll, apply_line, apply_lines, native_mode}

-- No VLAN stands in the trunks twice.
abbrev pub HasNoRepeat : List ℕ → Type 0
HasNoRepeat [] = Unit
HasNoRepeat (v ∷ vs) = (contains v vs ≡ false) × HasNoRepeat vs

-- No VLAN of the second list is in the first.
abbrev pub AreApart : List ℕ → List ℕ → Type 0
AreApart ws vs = All (λ v. contains v ws ≡ false) vs

pub append_assoc : (ws : List ℕ) (v : ℕ) (vs : List ℕ) → (ws ++ (v ∷ [])) ++ vs ≡ ws ++ v ∷ vs
append_assoc [] v vs = refl
append_assoc (w ∷ ws) v vs = ground (arith, append_assoc ws v vs)

pub append-nil : (ws : List ℕ) → ws ++ [] ≡ ws
append-nil [] = refl
append-nil (w ∷ ws) = ground (arith, append-nil ws)

contains-append_other :
    (x v : ℕ) (ws : List ℕ)
    → contains x ws ≡ false
    → (x == v) ≡ false
    → contains x (ws ++ (v ∷ [])) ≡ false
contains-append_other x v [] h ne = ground arith
contains-append_other x v (w ∷ ws) h ne = ground (arith, contains-append_other x v ws)

pub AreApart-append :
    (ws : List ℕ) (v : ℕ) (vs : List ℕ)
    → AreApart ws vs
    → contains v vs ≡ false
    → AreApart (ws ++ (v ∷ [])) vs
AreApart-append ws v [] a c = tt
AreApart-append ws v (x ∷ xs) a c =
    (contains-append_other x v ws a.0 (ground arith), AreApart-append ws v xs a.1 (ground arith))

pub AreApart-nil : (vs : List ℕ) → AreApart [] vs
AreApart-nil [] = tt
AreApart-nil (v ∷ vs) = (refl, AreApart-nil vs)

module _ (X : Vtysh) (db : Tables) (sys : SystemRow) (row : PortRow) where
  apply_line-new :
      (v : ℕ) (r : PortRow)
      → is_not_native X r ≡ false
      → contains v r.vlan_trunks ≡ false
      → apply_line X (vlan_trunk_allowed v) r ≡ record r { vlan_trunks = r.vlan_trunks ++ (v ∷ []) }
  unfolding apply_line
  apply_line-new v r n c = rw (n, c) refl

  -- Allowing VLANs one after the other, at a port in a native mode.
  pub apply_lines-allowed :
      (vs ws : List ℕ) (r : PortRow)
      → is_not_native X r ≡ false
      → r.vlan_trunks ≡ ws
      → AreApart ws vs
      → HasNoRepeat vs
      → apply_lines X (map vlan_trunk_allowed vs) r ≡ record r { vlan_trunks = ws ++ vs }
  unfolding apply_lines
  apply_lines-allowed [] ws r n e a u = ground (arith, append-nil ws, e)
  apply_lines-allowed (v ∷ vs) ws r n e a u =
      let step = apply_line-new v r n (ground (arith, e, a.0)) in
      let r' = record r { vlan_trunks = r.vlan_trunks ++ (v ∷ []) } in
      let rest =
        apply_lines-allowed vs (ws ++ (v ∷ [])) r' n (ground (arith, e))
          (AreApart-append ws v vs a.1 u.0) u.1 in
      ap (apply_lines X (map vlan_trunk_allowed vs)) step
      ∙ rest
      ∙ ap (λ x. record r { vlan_trunks = x }) (append_assoc ws v vs)

  abbrev IsLinkedRow : PortRow → Type 0
  IsLinkedRow r = All (λ v. is_vlan v db.vlans ≡ true) r.vlan_trunks

  pub native_mode-set : (r : PortRow) → r.vlan_mode ≢ none → native_mode X r ≢ none
  native_mode-set r set = ground arith

  apply_line-IsLinkedRow :
      (v : ℕ) (r : PortRow)
      → is_vlan v db.vlans ≡ true
      → IsLinkedRow r
      → IsLinkedRow (apply_line X (vlan_trunk_allowed v) r)
  unfolding apply_line
  apply_line-IsLinkedRow v r h linked = elim (Bool-cases (contains v r.vlan_trunks)) [
    | inl c ↦ rw c linked
    | inr c ↦ rw c (All-append (λ w. is_vlan w db.vlans ≡ true) v r.vlan_trunks linked h)
  ]

  pub AcceptsAll-allowed :
      (vs : List ℕ) (r : PortRow)
      → All (IsUsable X db sys row) vs
      → r.vlan_mode ≢ none
      → IsLinkedRow r
      → AcceptsAll X db sys row (map vlan_trunk_allowed vs) r
  AcceptsAll-allowed [] r us set linked = tt
  AcceptsAll-allowed (v ∷ vs) r us set linked = (
    (us.0, set, linked),
    AcceptsAll-allowed vs (apply_line X (vlan_trunk_allowed v) r) us.1
        (unfold apply_line in native_mode-set r set) (apply_line-IsLinkedRow v r us.0.vlan linked),
  )
