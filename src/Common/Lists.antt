-- ===== src/Common/Lists.antt =====
-- Lists and association lists: `All`, membership tests, and the nodes of a table of names.
use Prim.Native.Nat.{ℕ}
use Prim.Native.String.{String}
use mathlib.Core.Path.{◌≡◌, refl}
use mathlib.Core.Logic.{◌≢◌}
use mathlib.Core.Bool.{Bool, true, false, ◌||◌}
use mathlib.Core.Option.{Option, none, some}
use mathlib.Core.List.{List, [], ◌∷◌}
use native.Mathlib.Omega.{arith}
use text.Mathlib.TextEquality.{eq_iff}
use mathlib.Core.Logic.{inl, inr}
use mathlib.Core.Bool.{not, ◌&&◌}
use vland.Common.Tests.{is_some, Bool-cases, ◌==◌, str_eq, if◌then◌else◌}

abbrev pub All {ℓ κ} : {A : Type ℓ} → (A → Type κ) → List A → Type κ
All P [] = Unit
All P (x ∷ xs) = P x × All P xs

pub All-map {ℓ κ ι} :
    {A : Type ℓ} {P : A → Type κ} {Q : A → Type ι} (f : (a : A) → P a → Q a) (xs : List A)
    → All P xs
    → All Q xs
All-map f [] h = tt
All-map f (x ∷ xs) h = (f x h.0, All-map f xs h.1)

abbrev pub contains : ℕ → List ℕ → Bool
contains n [] = false
contains n (x ∷ xs) = n == x || contains n xs

abbrev pub contains_name : String → List String → Bool
contains_name n [] = false
contains_name n (x ∷ xs) = str_eq n x || contains_name n xs

-- A table of names as the list of its nodes, in the order in which a loop over it visits them.
abbrev pub Nodes : Type 0 → Type 0
Nodes V = List (String × V)

abbrev pub names : {V : Type 0} → Nodes V → List String
names [] = []
names ((k, v) ∷ m) = k ∷ names m

-- The data of the node with a name, of the first if there were two.
abbrev pub find : {V : Type 0} → String → Nodes V → Option V
find k [] = none
find k ((j, v) ∷ m) = if str_eq k j then some v else find k m

-- Writing through the data pointer of the node with a name.
abbrev pub put : {V : Type 0} → String → V → Nodes V → Nodes V
put k v [] = []
put k v ((j, w) ∷ m) = if str_eq k j then (j, v) ∷ m else (j, w) ∷ put k v m

-- Unlinking the node with a name.
abbrev pub remove : {V : Type 0} → String → Nodes V → Nodes V
remove k [] = []
remove k ((j, w) ∷ m) = if str_eq k j then m else (j, w) ∷ remove k m

-- No two nodes have one name.
abbrev pub Unique : {V : Type 0} → Nodes V → Type 0
Unique [] = Unit
Unique ((k, v) ∷ m) = (find k m ≡ none) × Unique m

module _ {V : Type 0} where
  pub find-put :
      (k j : String) (v w : V) (m : Nodes V)
      → find k m ≡ some w
      → find j (put k v m) ≡ (if str_eq j k then some v else find j m)
  find-put k j v w [] h = ground arith
  find-put k j v w ((i, u) ∷ m) h =
      ground (arith, find-put k j v w m, eq_iff k i, eq_iff j i, eq_iff j k)

  pub names-put : (k : String) (v : V) (m : Nodes V) → names (put k v m) ≡ names m
  names-put k v [] = refl
  names-put k v ((i, u) ∷ m) = ground (arith, names-put k v m)

  pub find-remove_ne : (k j : String) (m : Nodes V) → j ≢ k → find j (remove k m) ≡ find j m
  find-remove_ne k j [] h = refl
  find-remove_ne k j ((i, u) ∷ m) h = ground (arith, find-remove_ne k j m h, eq_iff k i, eq_iff j i)

  pub find-remove_self : (k : String) (m : Nodes V) → Unique m → find k (remove k m) ≡ none
  find-remove_self k [] u = refl
  find-remove_self k ((i, v) ∷ m) u = ground (arith, find-remove_self k m u.1, eq_iff k i)

  pub find-remove :
      (k j : String) (m : Nodes V)
      → Unique m
      → find j (remove k m) ≡ (if str_eq j k then none else find j m)
  find-remove k j m u = elim (Bool-cases (str_eq j k)) [
    | inl same ↦ let p : j ≡ k = ground (arith, eq_iff j k) in rw (same, p) (find-remove_self k m u)
    | inr other ↦ rw other (find-remove_ne k j m (ground (arith, eq_iff j k)))
  ]

  pub is_some-find-remove :
      (k j : String) (m : Nodes V)
      → Unique m
      → is_some (find j (remove k m)) ≡ (is_some (find j m) && not (str_eq j k))
  is_some-find-remove k j m u = elim (Bool-cases (str_eq j k)) [
    | inl same ↦
        let p : j ≡ k = ground (arith, eq_iff j k) in
        rw (same, p, find-remove_self k m u) (ground (arith))
    | inr other ↦
        let ne : j ≢ k = ground (arith, eq_iff j k) in
        rw (other, find-remove_ne k j m ne) (ground (arith))
  ]

  pub Unique-remove : (k : String) (m : Nodes V) → Unique m → Unique (remove k m)
  Unique-remove k [] u = tt
  Unique-remove k ((i, v) ∷ m) u =
      ground (arith, Unique-remove k m u.1, find-remove_ne k i m, eq_iff k i)

  pub is_some-find-put :
      (k j : String) (v : V) (m : Nodes V) → is_some (find j (put k v m)) ≡ is_some (find j m)
  is_some-find-put k j v [] = refl
  is_some-find-put k j v ((i, w) ∷ m) = ground (arith, is_some-find-put k j v m, eq_iff k i)

  find-put-none : (k j : String) (v : V) (m : Nodes V) → find j m ≡ none → find j (put k v m) ≡ none
  find-put-none k j v [] e = refl
  find-put-none k j v ((i, w) ∷ m) e = ground (arith, find-put-none k j v m, eq_iff k i)

  pub Unique-put : (k : String) (v : V) (m : Nodes V) → Unique m → Unique (put k v m)
  Unique-put k v [] u = tt
  Unique-put k v ((i, w) ∷ m) u =
      ground (arith, Unique-put k v m u.1, find-put-none k i v m, eq_iff k i)

  pub contains_name-names :
      (k : String) (m : Nodes V) → contains_name k (names m) ≡ is_some (find k m)
  contains_name-names k [] = refl
  contains_name-names k ((i, v) ∷ m) = ground (arith, contains_name-names k m)

  pub All-names :
      (P : String → Type 0) (m : Nodes V)
      → ((k : String) → is_some (find k m) ≡ true → P k)
      → All P (names m)
  All-names P [] h = tt
  All-names P ((i, v) ∷ m) h =
      (h i (ground (arith, eq_iff i i)), All-names P m (λ k e. h k (ground arith)))

  pub All-put {κ} :
      (P : String × V → Type κ) (k : String) (v : V) (m : Nodes V)
      → All P m
      → ((j : String) → P (j, v))
      → All P (put k v m)
  All-put P k v [] h p = tt
  All-put P k v ((i, u) ∷ m) h p = ground (arith, All-put P k v m h.1 p, p i)

  pub All-remove {κ} :
      (P : String × V → Type κ) (k : String) (m : Nodes V) → All P m → All P (remove k m)
  All-remove P k [] h = tt
  All-remove P k ((i, u) ∷ m) h = ground (arith, All-remove P k m h.1)

  pub All-find {κ} :
      (P : String × V → Type κ) (k : String) (v : V) (m : Nodes V)
      → All P m
      → find k m ≡ some v
      → P (k, v)
  All-find P k v [] h e = cc
  All-find P k v ((i, u) ∷ m) h e = ground (arith, All-find P k v m h.1, eq_iff k i)

-- Two lists of one length, related place by place.
abbrev pub All₂ {ℓ κ} : {A : Type ℓ} {B : Type κ} → (A → B → Type 0) → List A → List B → Type 0
All₂ R [] [] = Unit
All₂ R [] (y ∷ ys) = ⊥
All₂ R (x ∷ xs) [] = ⊥
All₂ R (x ∷ xs) (y ∷ ys) = R x y × All₂ R xs ys

abbrev pub IsFound : {V : Type 0} → Nodes V → String × V → Type 0
IsFound m (k, v) = find k m ≡ some v

every_node :
    {V : Type 0} (all m : Nodes V)
    → Unique m
    → ((k : String) (v : V) → find k m ≡ some v → find k all ≡ some v)
    → All (IsFound all) m
every_node all [] u h = tt
every_node all ((k, v) ∷ m) u h = (
  h k v (ground (arith, eq_iff k k)),
  every_node all m u.1 (λ j w e. h j w (ground (arith, e, u.0, eq_iff j k))),
)

-- Every node of a table with one node to a name is the one that its name finds.
pub All-find_self : {V : Type 0} (m : Nodes V) → Unique m → All (IsFound m) m
All-find_self m u = every_node m m u (λ k v e. e)
