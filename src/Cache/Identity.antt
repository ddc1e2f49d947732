-- ===== src/Cache/Identity.antt =====
-- Which VLAN a node of the cache stands for: its name, the reference to its row, and its VLAN ID.
pub mod Steps
use vland.Common.{
  ℕ, ◌≡◌, refl, some, List, [], ◌∷◌, arith, ◌==◌, Nodes, find, put, names, Unique, Bool-cases, inl,
  inr, String, str_eq, eq_iff, find-put,
}
use vland.State.{VlanData}
use vland.Vlan.{vlan_lookup_by_vid}
use vland.Cache.Ports.Names.{Unique-names}

-- Name, row and ID of each cached VLAN.
abbrev pub idents : Nodes VlanData → List (String × ℕ × ℕ)
idents [] = []
idents ((k, v) ∷ m) = (k, v.idl_cfg, v.vid) ∷ idents m

abbrev pub SameIdent : VlanData → VlanData → Type 0
SameIdent v w = (v.idl_cfg ≡ w.idl_cfg) × (v.vid ≡ w.vid)

names-idents : (m m' : Nodes VlanData) → idents m' ≡ idents m → names m' ≡ names m
names-idents [] [] e = refl
names-idents [] ((j, w) ∷ m') e = cc
names-idents ((k, v) ∷ m) [] e = cc
names-idents ((k, v) ∷ m) ((j, w) ∷ m') e =
    let rest : idents m' ≡ idents m = cc in ground (arith, names-idents m m' rest)

pub Unique-idents : (m m' : Nodes VlanData) → idents m' ≡ idents m → Unique m → Unique m'
Unique-idents m m' e u = Unique-names m m' (names-idents m m' e) u

-- Tables with the same names, rows and IDs.
pub find-idents :
    (k : String) (v' : VlanData) (m m' : Nodes VlanData)
    → idents m' ≡ idents m
    → find k m' ≡ some v'
    → (v : VlanData) × (find k m ≡ some v) × SameIdent v v'
find-idents k v' [] [] e f = cc
find-idents k v' [] ((j, w) ∷ m') e f = cc
find-idents k v' ((i, v) ∷ m) [] e f = cc
find-idents k v' ((i, v) ∷ m) ((j, w) ∷ m') e f =
    let rest : idents m' ≡ idents m = cc in
    let here : i ≡ j = cc in
    let row : v.idl_cfg ≡ w.idl_cfg = cc in
    let vid : v.vid ≡ w.vid = cc in
    elim (Bool-cases (str_eq k j)) [
      | inl hit ↦ (v, ground (arith), ground (arith))
      | inr miss ↦
          let (x, g, same) = find-idents k v' m m' rest (ground (arith)) in
          (x, ground (arith), same)
    ]

idents-put :
    (k : String) (v w : VlanData) (m : Nodes VlanData)
    → find k m ≡ some w
    → SameIdent v w
    → idents (put k v m) ≡ idents m
idents-put k v w [] f same = refl
idents-put k v w ((j, u) ∷ m) f same = ground (arith, idents-put k v w m)

pub find-vlan_lookup_by_vid :
    (vid : ℕ) (k : String) (v : VlanData) (m : Nodes VlanData)
    → Unique m
    → vlan_lookup_by_vid vid m ≡ some (k, v)
    → (find k m ≡ some v) × (v.vid ≡ vid)
unfolding vlan_lookup_by_vid
find-vlan_lookup_by_vid vid k v [] u e = cc
find-vlan_lookup_by_vid vid k v ((j, w) ∷ m) u e = elim (Bool-cases (w.vid == vid)) [
  | inl here ↦ ground (arith, eq_iff k j)
  | inr later ↦ ground (arith, find-vlan_lookup_by_vid vid k v m u.1, eq_iff k j)
]

SameIdent-put :
    (k : String) (v w : VlanData) (m : Nodes VlanData)
    → find k m ≡ some w
    → SameIdent v w
    → (find k (put k v m) ≡ some v) × (idents (put k v m) ≡ idents m)
SameIdent-put k v w m f same =
    (ground (arith, find-put k k v w m f, eq_iff k k), idents-put k v w m f same)
