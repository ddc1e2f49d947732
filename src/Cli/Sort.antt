-- ===== src/Cli/Sort.antt =====
-- The order by VLAN ID: compare_nodes_by_vlan_id_in_numerical and sort_vlan_id of
-- src/cli/vlan_vty.c.
use vland.Common.{
  ℕ, ◌≡◌, Bool, true, false, List, [], ◌∷◌, ◌==◌, ltb, ◌≤◌, if◌then◌else◌, All, arith,
}
use vland.Common.Int.{ℤ, pos, negsuc}
use mathlib.Core.List.{Perm}
use mathlib.Core.List.Perm

-- `qsort` by a comparison, of the nodes of a hash table.
pub record Qsort : Type 1 where
  pub qsort : {A : Type 0} → (A → A → ℤ) → List A → List A

abbrev pub at_most_zero : ℤ → Bool
at_most_zero (pos n) = n == 0
at_most_zero (negsuc n) = true

-- Each item compares as at most equal to each one behind it.
abbrev pub IsSortedBy : {A : Type 0} → (A → A → ℤ) → List A → Type 0
IsSortedBy cmp [] = Unit
IsSortedBy cmp (x ∷ xs) = All (λ y. at_most_zero (cmp x y) ≡ true) xs × IsSortedBy cmp xs

-- A comparison is total, and its order transitive.
pub record IsOrder {A : Type 0} (cmp : A → A → ℤ) : Type 0 where
  pub total : (a b : A) → at_most_zero (cmp a b) ≡ false → at_most_zero (cmp b a) ≡ true
  pub trans :
      (a b c : A)
      → at_most_zero (cmp a b) ≡ true
      → at_most_zero (cmp b c) ≡ true
      → at_most_zero (cmp a c) ≡ true

-- The documented behaviour of `qsort`.
pub record QsortLaws (Q : Qsort) : Type 1 where
  pub qsort-perm : {A : Type 0} (cmp : A → A → ℤ) (xs : List A) → Perm (Q.qsort cmp xs) xs
  pub qsort-IsSortedBy :
      {A : Type 0} (cmp : A → A → ℤ) (xs : List A) → IsOrder cmp → IsSortedBy cmp (Q.qsort cmp xs)

-- On the numbers that `sscanf` reads from the nodes' names.
unfoldable pub compare_nodes_by_vlan_id_in_numerical : ℕ → ℕ → ℤ
compare_nodes_by_vlan_id_in_numerical i1 i2 =
    if i1 == i2 then pos 0 else if ltb i1 i2 then negsuc 0 else pos 1

-- `id` reads a node's name; the result for an empty table is NULL, which the callers do not visit.
unfoldable pub sort_vlan_id : {A : Type 0} → Qsort → (A → ℕ) → List A → List A
unfolding compare_nodes_by_vlan_id_in_numerical
sort_vlan_id Q id [] = []
sort_vlan_id Q id (x ∷ xs) =
    Q.qsort (λ a b. compare_nodes_by_vlan_id_in_numerical (id a) (id b)) (x ∷ xs)

-- Each item's ID is at most those behind it.
abbrev pub IsAscending : {A : Type 0} → (A → ℕ) → List A → Type 0
IsAscending id [] = Unit
IsAscending id (x ∷ xs) = All (λ y. id x ≤ id y) xs × IsAscending id xs

compare-IsOrder :
    {A : Type 0} (id : A → ℕ)
    → IsOrder (λ (a b : A). compare_nodes_by_vlan_id_in_numerical (id a) (id b))
unfolding compare_nodes_by_vlan_id_in_numerical
compare-IsOrder id = record { total = λ a b h. ground arith; trans = λ a b c h k. ground arith }

compare-le : (i j : ℕ) → at_most_zero (compare_nodes_by_vlan_id_in_numerical i j) ≡ true → i ≤ j
unfolding compare_nodes_by_vlan_id_in_numerical
compare-le i j h = ground arith

All-le :
    {A : Type 0} (id : A → ℕ) (x : A) (xs : List A)
    → All (λ y. at_most_zero (compare_nodes_by_vlan_id_in_numerical (id x) (id y)) ≡ true) xs
    → All (λ y. id x ≤ id y) xs
All-le id x [] h = tt
All-le id x (y ∷ ys) h = (compare-le (id x) (id y) h.0, All-le id x ys h.1)

IsSortedBy-IsAscending :
    {A : Type 0} (id : A → ℕ) (xs : List A)
    → IsSortedBy (λ a b. compare_nodes_by_vlan_id_in_numerical (id a) (id b)) xs
    → IsAscending id xs
IsSortedBy-IsAscending id [] h = tt
IsSortedBy-IsAscending id (x ∷ xs) h = (All-le id x xs h.0, IsSortedBy-IsAscending id xs h.1)

-- `sort_vlan_id` yields the same items, by ascending ID.
pub sort_vlan_id_lem :
    {A : Type 0} (Q : Qsort)
    → QsortLaws Q
    → (id : A → ℕ) (xs : List A)
    → Perm (sort_vlan_id Q id xs) xs × IsAscending id (sort_vlan_id Q id xs)
unfolding sort_vlan_id
sort_vlan_id_lem {A} Q L id [] = (Perm.refl [], tt)
sort_vlan_id_lem {A} Q L id (x ∷ xs) =
    let cmp = λ (a b : A). compare_nodes_by_vlan_id_in_numerical (id a) (id b) in
    (
      L.qsort-perm cmp (x ∷ xs),
      IsSortedBy-IsAscending id _ (L.qsort-IsSortedBy cmp (x ∷ xs) (compare-IsOrder id)),
    )
