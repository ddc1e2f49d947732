-- ===== src/State/Loop.antt =====
-- The rule for a loop: what each turn does to the state, the loop does.
use vland.Common.{ℕ, ◌+◌, ◌≡◌, refl, Option, none, some, List, [], ◌∷◌, arith, All}
use vland.State.{◌>>=◌, for_each}

-- Inversion of a successful step in a chain.
pub >>=-eq-some {ℓ κ} :
    {A : Type ℓ} {B : Type κ} (m : Option A) (f : A → Option B) {b : B}
    → (m >>= f) ≡ some b
    → (a : A) × (m ≡ some a) × (f a ≡ some b)
>>=-eq-some none f h = cc
>>=-eq-some (some a) f h = (a, refl, h)

module _ {A S : Type 0} (R : S → S → ℕ → Type 0) (nothing : (s : S) → R s s 0)
    (chain : (s t u : S) (m n : ℕ) → R s t m → R t u n → R s u (m + n)) where
  -- A relation between the states before and after that composes, and counts, holds of the loop if
  -- it holds of each turn.
  pub for_each-rel :
      (f : A → S → Option (S × ℕ))
      → ((x : A) (s t : S) (n : ℕ) → f x s ≡ some (t, n) → R s t n)
      → (xs : List A) (s t : S) (n : ℕ) → for_each f xs s ≡ some (t, n)
      → R s t n
  unfolding for_each
  for_each-rel f turn [] s t n e =
      let p : t ≡ s = ground arith in let q : n ≡ 0 = ground arith in rw (p, q) (nothing s)
  for_each-rel f turn (x ∷ xs) s t n e =
      let ((s', k), e1, rest) = >>=-eq-some (f x s) _ e in
      let ((u, m), e2, last) = >>=-eq-some (for_each f xs s') _ rest in
      let p : t ≡ u = ground arith in
      let q : n ≡ k + m = ground arith in
      rw (p, q) (chain s s' u k m (turn x s s' k e1) (for_each-rel f turn xs s' u m e2))

module _ {A S : Type 0} (P : A → Type 0) (I : S → Type 0) (f : A → S → Option (S × ℕ)) where
  -- A loop does not fault if no turn does and each turn keeps what the others need.
  pub for_each_total :
      ((x : A) (s : S) → P x → I s → (t : S) × (n : ℕ) × (f x s ≡ some (t, n)) × I t)
      → (xs : List A) (s : S) → All P xs
      → I s
      → (t : S) × (n : ℕ) × (for_each f xs s ≡ some (t, n)) × I t
  unfolding for_each
  for_each_total turn [] s p i = (s, 0, refl, i)
  for_each_total turn (x ∷ xs) s p i =
      let (t, n, e, j) = turn x s p.0 i in
      let (u, m, e', k) = for_each_total turn xs t p.1 j in (u, n + m, ground arith, k)

-- A fault in the first turn is a fault of the loop.
pub for_each_fault :
    {A S : Type 0} (f : A → S → Option (S × ℕ)) (x : A) (xs : List A) (s : S)
    → f x s ≡ none
    → for_each f (x ∷ xs) s ≡ none
unfolding for_each
for_each_fault f x xs s e = ground arith
