-- ===== src/Cli/Vids.antt =====
-- Lists of VLAN IDs, as trunks hold them.
use vland.Common.{
  ℕ, ◌≡◌, refl, true, false, List, [], ◌∷◌, ◌++◌, ◌==◌, contains, All, arith, Bool-cases, inl, inr,
  not, ◌&&◌, ◌||◌,
}
use vland.Cli.{without}

pub contains-append :
    (v id : ℕ) (vs : List ℕ) → contains v (vs ++ (id ∷ [])) ≡ (v == id || contains v vs)
contains-append v id [] = ground arith
contains-append v id (w ∷ ws) = ground (arith, contains-append v id ws)

pub contains-without :
    (v id : ℕ) (vs : List ℕ) → contains v (without id vs) ≡ (contains v vs && not (v == id))
unfolding without
contains-without v id [] = refl
contains-without v id (w ∷ ws) = ground (arith, contains-without v id ws)

pub without-absent : (id : ℕ) (vs : List ℕ) → contains id vs ≡ false → without id vs ≡ vs
unfolding without
without-absent id [] e = refl
without-absent id (v ∷ vs) e = ground (arith, without-absent id vs)

pub All-append : (P : ℕ → Type 0) (id : ℕ) (vs : List ℕ) → All P vs → P id → All P (vs ++ (id ∷ []))
All-append P id [] h p = (p, tt)
All-append P id (v ∷ vs) h p = (h.0, All-append P id vs h.1 p)

pub All-without : (P : ℕ → Type 0) (id : ℕ) (vs : List ℕ) → All P vs → All P (without id vs)
unfolding without
All-without P id [] h = tt
All-without P id (v ∷ vs) h = ground (arith, All-without P id vs h.1)

pub contains-same :
    (v id : ℕ) (vs : List ℕ) → contains id vs ≡ true → contains v vs ≡ (v == id || contains v vs)
contains-same v id vs e = elim (Bool-cases (v == id)) [
  | inl same ↦ let p : v ≡ id = ground arith in rw (same, p) e
  | inr other ↦ rw other refl
]
