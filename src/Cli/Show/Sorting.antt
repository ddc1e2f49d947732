-- ===== src/Cli/Show/Sorting.antt =====
-- A sort for the tests: insertion, with its laws.
use vland.Common.{◌≡◌, true, List, [], ◌∷◌, All, if◌then◌else◌, Bool-cases, inl, inr, All-map}
use vland.Common.Int.{ℤ}
use mathlib.Core.List.{Perm}
use mathlib.Core.List.Perm
use vland.Cli.Sort.{Qsort, QsortLaws, IsOrder, IsSortedBy, at_most_zero}

module _ {A : Type 0} (cmp : A → A → ℤ) where
  abbrev insert : A → List A → List A
  insert x [] = x ∷ []
  insert x (y ∷ ys) =
      let rest = insert x ys in if at_most_zero (cmp x y) then x ∷ y ∷ ys else y ∷ rest

  abbrev pub insertion_sort : List A → List A
  insertion_sort [] = []
  insertion_sort (x ∷ xs) = insert x (insertion_sort xs)

  insert-Perm : (x : A) (ys : List A) → Perm (insert x ys) (x ∷ ys)
  insert-Perm x [] = Perm.refl (x ∷ [])
  insert-Perm x (y ∷ ys) = elim (Bool-cases (at_most_zero (cmp x y))) [
    | inl e ↦ rw e (Perm.refl (x ∷ y ∷ ys))
    | inr e ↦ rw e (Perm.trans (Perm.cons y (insert-Perm x ys)) (Perm.swap x y ys))
  ]

  pub insertion_sort-Perm : (xs : List A) → Perm (insertion_sort xs) xs
  insertion_sort-Perm [] = Perm.refl []
  insertion_sort-Perm (x ∷ xs) =
      Perm.trans (insert-Perm x (insertion_sort xs)) (Perm.cons x (insertion_sort-Perm xs))

  insert-All : (P : A → Type 0) (x : A) (ys : List A) → P x → All P ys → All P (insert x ys)
  insert-All P x [] p h = (p, tt)
  insert-All P x (y ∷ ys) p h = elim (Bool-cases (at_most_zero (cmp x y))) [
    | inl e ↦ rw e (p, h)
    | inr e ↦ rw e (h.0, insert-All P x ys p h.1)
  ]

  module _ (O : IsOrder cmp) where
    insert-IsSortedBy : (x : A) (ys : List A) → IsSortedBy cmp ys → IsSortedBy cmp (insert x ys)
    insert-IsSortedBy x [] s = (tt, tt)
    insert-IsSortedBy x (y ∷ ys) s = elim (Bool-cases (at_most_zero (cmp x y))) [
      | inl e ↦ rw e ((e, All-map (λ z h. O.trans x y z e h) ys s.0), s)
      | inr e ↦ rw e (
        insert-All (λ z. at_most_zero (cmp y z) ≡ true) x ys (O.total x y e) s.0,
        insert-IsSortedBy x ys s.1,
      )
    ]

    pub insertion_sort-IsSortedBy : (xs : List A) → IsSortedBy cmp (insertion_sort xs)
    insertion_sort-IsSortedBy [] = tt
    insertion_sort-IsSortedBy (x ∷ xs) =
        insert-IsSortedBy x (insertion_sort xs) (insertion_sort-IsSortedBy xs)

abbrev pub sorter : Qsort
sorter = record { qsort = λ cmp xs. insertion_sort cmp xs }

pub sorter-laws : QsortLaws sorter
sorter-laws = record {
  qsort-perm = λ cmp xs. insertion_sort-Perm cmp xs;
  qsort-IsSortedBy = λ cmp xs o. insertion_sort-IsSortedBy cmp o xs;
}
