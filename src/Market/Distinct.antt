-- ===== src/Market/Distinct.antt =====
-- Lists of timestamps in which none is repeated.
use agentic_trading_platform.Prelude.{
  ℕ, suc, ◌≤◌, ◌≡◌, refl, true, false, ◌||◌, ◌==◌, inl, inr, List, [], ◌∷◌, ◌++◌, length, arith,
  Bool-cases, if◌then◌else◌,
}
use agentic_trading_platform.Market.Csv.{was_seen}

abbrev pub Distinct : List ℕ → Type 0
Distinct [] = Unit
Distinct (t ∷ rest) = (was_seen t rest ≡ false) × Distinct rest

pub was_seen-append :
    (t : ℕ) (xs ys : List ℕ) → was_seen t (xs ++ ys) ≡ (was_seen t xs || was_seen t ys)
was_seen-append t [] ys = refl
was_seen-append t (x ∷ xs) ys = ground (arith, was_seen-append t xs ys)

pub Distinct-append :
    (xs : List ℕ) (t : ℕ) → Distinct xs → was_seen t xs ≡ false → Distinct (xs ++ (t ∷ []))
Distinct-append [] t d h = (refl, tt)
Distinct-append (x ∷ xs) t (n, d) h =
    (ground (arith, was_seen-append x xs (t ∷ [])), Distinct-append xs t d (ground arith))

-- Both parts of a list without repetition are without repetition, and have nothing in common.
pub Distinct-parts : (xs ys : List ℕ) → Distinct (xs ++ ys) → Distinct xs × Distinct ys
Distinct-parts [] ys d = (tt, d)
Distinct-parts (x ∷ xs) ys (n, d) =
    let parts = Distinct-parts xs ys d in
    ((ground (arith, was_seen-append x xs ys), parts.0), parts.1)

-- Everything in `xs` is in `ys`.
abbrev pub Within : List ℕ → List ℕ → Type 0
Within xs ys = (t : ℕ) → was_seen t xs ≡ true → was_seen t ys ≡ true

unfoldable without : ℕ → List ℕ → List ℕ
without t [] = []
without t (x ∷ xs) = let rest = without t xs in if t == x then xs else x ∷ rest

length-without :
    (t : ℕ) (xs : List ℕ) → was_seen t xs ≡ true → length xs ≡ suc (length (without t xs))
unfolding without
length-without t [] h = cc
length-without t (x ∷ xs) h = ground (arith, length-without t xs)

was_seen-without :
    (t u : ℕ) (xs : List ℕ)
    → was_seen u xs ≡ true
    → (u == t) ≡ false
    → was_seen u (without t xs) ≡ true
unfolding without
was_seen-without t u [] h k = cc
was_seen-without t u (x ∷ xs) h k = ground (arith, was_seen-without t u xs)

pub differs :
    (t x : ℕ) (xs : List ℕ) → was_seen t xs ≡ true → was_seen x xs ≡ false → (t == x) ≡ false
differs t x xs h n = elim (Bool-cases (t == x)) [
  | inl p ↦ (let e : t ≡ x = ground arith in absurd (cc (e, h, n)))
  | inr q ↦ q
]

-- A list without repetition is no longer than one that has everything in it.
pub length-Within : (xs ys : List ℕ) → Distinct xs → Within xs ys → length xs ≤ length ys
length-Within [] ys d w = omega arith
length-Within (x ∷ xs) ys (n, d) w =
    let smaller =
      length-Within xs (without x ys) d
        (λ t h. was_seen-without x t ys (w t (ground arith)) (differs t x xs h n)) in
    omega (arith, smaller, length-without x ys (w x (ground arith)))
