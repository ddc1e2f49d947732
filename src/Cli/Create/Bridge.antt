-- ===== src/Cli/Create/Bridge.antt =====
-- The rows of VLANs and bridges under the writes of `vlan <id>` and `no vlan <id>`.
use mathlib.Core.Path.{subst}
use vland.Common.{
  ap, ◌∙◌, ℕ, ◌+◌, String, ◌≡◌, refl, false, not, ◌||◌, none, some, List, [], ◌∷◌, ◌++◌, ◌==◌,
  is_some, ◌⊎◌, contains, str_eq, All, arith, Bool-cases, Option-cases, inl, inr,
}
use vland.Idl.{BridgeRow, VlanRow}
use vland.Run.{find_bridge}
use vland.Cli.{is_vlan, length, without}
use vland.Cli.Intf.{is_empty}
use vland.Cli.Shutdown.{find_vlan_id}
use vland.Cli.Create.{chosen_bridge, put_bridge, delete_vlan}

pub is_vlan-append :
    (v : ℕ) (row : VlanRow) (rows : List VlanRow)
    → is_vlan v (rows ++ (row ∷ [])) ≡ (row.id == v || is_vlan v rows)
unfolding is_vlan
is_vlan-append v row [] = ground arith
is_vlan-append v row (r ∷ rows) = ground (arith, is_vlan-append v row rows)

pub find_vlan_id-append :
    (row : VlanRow) (rows : List VlanRow)
    → find_vlan_id row.id rows ≡ none
    → find_vlan_id row.id (rows ++ (row ∷ [])) ≡ some row
unfolding find_vlan_id
find_vlan_id-append row [] e = ground arith
find_vlan_id-append row (r ∷ rows) e = ground (arith, find_vlan_id-append row rows)

pub delete_vlan-append :
    (row : VlanRow) (rows : List VlanRow)
    → All (λ r. (row.uuid == r.uuid) ≡ false) rows
    → delete_vlan row.uuid (rows ++ (row ∷ [])) ≡ rows
unfolding delete_vlan
delete_vlan-append row [] h = ground arith
delete_vlan-append row (r ∷ rows) h = ground (arith, delete_vlan-append row rows h.1)

pub without-append : (u : ℕ) (us : List ℕ) → contains u us ≡ false → without u (us ++ (u ∷ [])) ≡ us
unfolding without
without-append u [] h = ground arith
without-append u (w ∷ us) h = ground (arith, without-append u us)

pub length-append : (u : ℕ) (us : List ℕ) → length (us ++ (u ∷ [])) ≡ 1 + length us
length-append u [] = refl
length-append u (w ∷ us) = ground (arith, length-append u us)

-- No two bridges have one uuid.
abbrev pub HasUuids : List BridgeRow → Type 0
HasUuids [] = Unit
HasUuids (b ∷ bs) = All (λ c. (b.uuid == c.uuid) ≡ false) bs × HasUuids bs

-- The bridge is in the list.
abbrev pub Holds : BridgeRow → List BridgeRow → Type 0
Holds b [] = ⊥
Holds b (c ∷ cs) = (c ≡ b) ⊎ Holds b cs

find_bridge-Holds :
    (name : String) (b : BridgeRow) (bs : List BridgeRow)
    → find_bridge name bs ≡ some b
    → Holds b bs
unfolding find_bridge
find_bridge-Holds name b [] e = cc
find_bridge-Holds name b (c ∷ cs) e = elim (Bool-cases (str_eq c.name name)) [
  | inl here ↦ inl (ground arith)
  | inr later ↦ inr (find_bridge-Holds name b cs (ground arith))
]

pub chosen_bridge-Holds :
    (name : String) (b : BridgeRow) (bs : List BridgeRow)
    → chosen_bridge name bs ≡ some b
    → Holds b bs
unfolding chosen_bridge
chosen_bridge-Holds name b [] e = cc
chosen_bridge-Holds name b (c ∷ cs) e = elim (Option-cases (find_bridge name (c ∷ cs))) [
  | inl f ↦ inl (ground arith)
  | inr (named, f) ↦ find_bridge-Holds name b (c ∷ cs) (ground arith)
]

absent :
    (b : BridgeRow) (u : ℕ) (bs : List BridgeRow)
    → All (λ c. (u == c.uuid) ≡ false) bs
    → Holds b bs
    → (u == b.uuid) ≡ false
absent b u [] h i = absurd i
absent b u (c ∷ cs) h (inl e) = ground (arith, e, h.0)
absent b u (c ∷ cs) h (inr i) = absent b u cs h.1 i

-- Writing what is there.
pub put_bridge-same :
    (b : BridgeRow) (bs : List BridgeRow)
    → HasUuids bs
    → Holds b bs
    → put_bridge b.uuid b.vlans bs ≡ bs
unfolding put_bridge
put_bridge-same b [] u h = absurd h
put_bridge-same b (c ∷ cs) u (inl e) = ground (arith, e)
put_bridge-same b (c ∷ cs) u (inr i) =
    ground (arith, absent b c.uuid cs u.0 i, put_bridge-same b cs u.1 i)

pub put_bridge-put_bridge :
    (u : ℕ) (vs ws : List ℕ) (bs : List BridgeRow)
    → put_bridge u ws (put_bridge u vs bs) ≡ put_bridge u ws bs
unfolding put_bridge
put_bridge-put_bridge u vs ws [] = refl
put_bridge-put_bridge u vs ws (c ∷ cs) = ground (arith, put_bridge-put_bridge u vs ws cs)

find_bridge-put_bridge :
    (name : String) (b : BridgeRow) (vs : List ℕ) (bs : List BridgeRow)
    → HasUuids bs
    → find_bridge name bs ≡ some b
    → find_bridge name (put_bridge b.uuid vs bs) ≡ some (record b { vlans = vs })
unfolding find_bridge put_bridge
find_bridge-put_bridge name b vs [] u e = cc
find_bridge-put_bridge name b vs (c ∷ cs) u e = elim (Bool-cases (str_eq c.name name)) [
  | inl here ↦ let p : c ≡ b = ground arith in ground (arith, p, here)
  | inr later ↦
      let f : find_bridge name cs ≡ some b = ground arith in
      let other = absent b c.uuid cs u.0 (find_bridge-Holds name b cs f) in
      ground (arith, later, other, find_bridge-put_bridge name b vs cs u.1 f)
]

find_bridge-put_bridge-none :
    (name : String) (u : ℕ) (vs : List ℕ) (bs : List BridgeRow)
    → find_bridge name bs ≡ none
    → find_bridge name (put_bridge u vs bs) ≡ none
unfolding find_bridge put_bridge
find_bridge-put_bridge-none name u vs [] e = refl
find_bridge-put_bridge-none name u vs (c ∷ cs) e =
    ground (arith, find_bridge-put_bridge-none name u vs cs)

chosen_found :
    (name : String) (b : BridgeRow) (bs : List BridgeRow)
    → find_bridge name bs ≡ some b
    → chosen_bridge name bs ≡ some b
unfolding chosen_bridge find_bridge
chosen_found name b [] e = cc
chosen_found name b (c ∷ cs) e = ground (arith, e)

-- The bridge that was chosen is chosen again after a write to it.
pub chosen_bridge-put_bridge :
    (name : String) (b : BridgeRow) (vs : List ℕ) (bs : List BridgeRow)
    → HasUuids bs
    → chosen_bridge name bs ≡ some b
    → chosen_bridge name (put_bridge b.uuid vs bs) ≡ some (record b { vlans = vs })
chosen_bridge-put_bridge name b vs [] u e = unfold chosen_bridge in cc
chosen_bridge-put_bridge name b vs (c ∷ cs) u e = elim (Option-cases (find_bridge name (c ∷ cs))) [
  | inr (named, f) ↦
      let p : named ≡ b = unfold chosen_bridge in ground (arith, e, f) in
      chosen_found name (record b { vlans = vs }) (put_bridge b.uuid vs (c ∷ cs))
        (find_bridge-put_bridge name b vs (c ∷ cs) u (f ∙ ap some p))
  | inl f ↦
      let p : c ≡ b = unfold chosen_bridge in ground (arith, e, f) in
      let q : put_bridge b.uuid vs (c ∷ cs) ≡ record b { vlans = vs } ∷ cs =
        unfold put_bridge in ground (arith, p) in
      let g : find_bridge name (record b { vlans = vs } ∷ cs) ≡ none =
        subst (λ x. find_bridge name x ≡ none) q
          (find_bridge-put_bridge-none name b.uuid vs (c ∷ cs) f) in
      rw q (unfold chosen_bridge in ground (arith, g))
]

-- A bridge is chosen where there is one.
pub is_some-chosen_bridge :
    (name : String) (bs : List BridgeRow) → is_some (chosen_bridge name bs) ≡ not (is_empty bs)
unfolding chosen_bridge
is_some-chosen_bridge name [] = refl
is_some-chosen_bridge name (b ∷ bs) = ground arith
