-- ===== src/Market/Batches.antt =====
-- The batches of an import are its rows, cut up.
use native.Mathlib.Nat.{zero-add, suc-add}
use agentic_trading_platform.Prelude.{
  ℕ, zero, suc, ◌+◌, ◌≤◌, ◌<◌, ◌≡◌, refl, sym, ap, ◌∙◌, inl, inr, List, [], ◌∷◌, ◌++◌, length, take,
  drop, All, ltb, arith, Bool-cases, length-drop,
}
use agentic_trading_platform.Market.Import.{batched_from, batched}

module _ {ℓ} {A : Type ℓ} where
  abbrev pub concat : List (List A) → List A
  concat [] = []
  concat (xs ∷ rest) = xs ++ concat rest

  take-append-drop : (n : ℕ) (xs : List A) → take n xs ++ drop n xs ≡ xs
  take-append-drop zero xs = refl
  take-append-drop (suc n) [] = refl
  take-append-drop (suc n) (x ∷ xs) = ap (λ l. x ∷ l) (take-append-drop n xs)

  drop-nil : (n : ℕ) → drop {A = A} n [] ≡ []
  drop-nil zero = refl
  drop-nil (suc n) = refl

  drop-drop : (m n : ℕ) (xs : List A) → drop n (drop m xs) ≡ drop (m + n) xs
  drop-drop zero n xs = rw zero-add refl
  drop-drop (suc m) n [] = drop-nil n ∙ sym (drop-nil (suc m + n))
  drop-drop (suc m) n (x ∷ xs) = rw suc-add (drop-drop m n xs)

  drop-all : (n : ℕ) (xs : List A) → length xs ≤ n → drop n xs ≡ []
  drop-all zero [] h = refl
  drop-all (suc n) [] h = refl
  drop-all zero (x ∷ xs) h = absurd (omega (arith, h))
  drop-all (suc n) (x ∷ xs) h = drop-all n xs (omega (arith, h))

  length-take_le : (n : ℕ) (xs : List A) → length (take n xs) ≤ n
  length-take_le zero xs = omega arith
  length-take_le (suc n) [] = omega arith
  length-take_le (suc n) (x ∷ xs) = omega (arith, length-take_le n xs)

  length-take_pos : (n : ℕ) (xs : List A) → 0 < n → 0 < length xs → 0 < length (take n xs)
  length-take_pos zero xs h k = absurd (omega (arith, h))
  length-take_pos (suc n) [] h k = absurd (omega (arith, k))
  length-take_pos (suc n) (x ∷ xs) h k = omega arith

  -- A batch that is worth a statement.
  abbrev pub IsBatch : ℕ → List A → Type 0
  IsBatch size batch = (0 < length batch) × (length batch ≤ size)

  abbrev Cuts : ℕ → List A → List (List A) → Type ℓ
  Cuts size rows batches = (concat batches ≡ rows) × All (IsBatch size) batches

  batched_from-Cuts :
      (fuel start : ℕ) (rows : List A) (size : ℕ)
      → 0 < size
      → length rows ≤ start + fuel
      → Cuts size (drop start rows) (batched_from fuel start rows size)
  unfolding batched_from
  batched_from-Cuts zero start rows size h k = (sym (drop-all start rows (omega (arith, k))), tt)
  batched_from-Cuts (suc fuel) start rows size h k =
      let rest = batched_from-Cuts fuel (start + size) rows size h (omega (arith, h, k)) in
      elim (Bool-cases (ltb start (length rows))) [
        | inl p ↦
            let less : start < length rows = ground arith in
            let left : 0 < length (drop start rows) = omega (arith, length-drop start rows, less) in
            rw p (
              ap (λ l. take size (drop start rows) ++ l) (rest.0 ∙ sym (drop-drop start size rows))
                  ∙ take-append-drop size (drop start rows),
              (
                (
                  length-take_pos size (drop start rows) h left,
                  length-take_le size (drop start rows),
                ),
                rest.1,
              ),
            )
        | inr p ↦ rw p (sym (drop-all start rows (ground arith)), tt)
      ]

  -- With a positive batch size the batches, one after the other, are the rows, and each has at least
  -- one row and at most as many as a batch may have.
  pub batched-Cuts :
      (rows : List A) (size : ℕ)
      → 0 < size
      → (concat (batched rows size) ≡ rows) × All (IsBatch size) (batched rows size)
  unfolding batched
  batched-Cuts rows size h = batched_from-Cuts (length rows) 0 rows size h (omega arith)
