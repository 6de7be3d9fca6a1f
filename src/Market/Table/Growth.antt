-- ===== src/Market/Table/Growth.antt =====
-- By how many rows an import makes the table grow.
use text.Mathlib.TextPositions.{eq_refl}
use agentic_trading_platform.Prelude.{
  ℕ, suc, ◌+◌, ◌≤◌, ◌≡◌, refl, ap, true, ◌&&◌, ◌||◌, ◌==◌, inl, inr, List, [], ◌∷◌, length, String,
  arith, Bool-cases, if◌then◌else◌,
}
use agentic_trading_platform.Market.Model.{MarketData, MarketDataRow}
use agentic_trading_platform.Market.Columns.{Columns, stored_as}
use agentic_trading_platform.Market.Csv.{was_seen}
use agentic_trading_platform.Market.Table.{
  to_set, among, stored_timestamps, upsert, upsert_all, timestamps_of,
}
use agentic_trading_platform.Market.Distinct.{Distinct, differs, length-Within}

was_seen-to_set : (t : ℕ) (xs : List ℕ) → was_seen t (to_set xs) ≡ was_seen t xs
unfolding to_set
was_seen-to_set t [] = refl
was_seen-to_set t (x ∷ xs) =
    ground (arith, was_seen-to_set t xs, Bool-cases (was_seen x (to_set xs)))

to_set-Distinct : (xs : List ℕ) → Distinct (to_set xs)
unfolding to_set
to_set-Distinct [] = tt
to_set-Distinct (x ∷ xs) = elim (Bool-cases (was_seen x (to_set xs))) [
  | inl p ↦ rw p (to_set-Distinct xs)
  | inr p ↦ rw p (p, to_set-Distinct xs)
]

was_seen-among :
    (t : ℕ) (ts xs : List ℕ) → was_seen t (among ts xs) ≡ (was_seen t xs && was_seen t ts)
unfolding among
was_seen-among t ts [] = refl
was_seen-among t ts (x ∷ xs) = elim (Bool-cases (t == x)) [
  | inl p ↦
      (let e : t ≡ x = ground arith in
        let same = ap (λ u. was_seen u ts) e in
        ground (arith, same, was_seen-among t ts xs, Bool-cases (was_seen x ts)))
  | inr p ↦ ground (arith, was_seen-among t ts xs, Bool-cases (was_seen x ts))
]

among-Distinct : (ts xs : List ℕ) → Distinct xs → Distinct (among ts xs)
unfolding among
among-Distinct ts [] d = tt
among-Distinct ts (x ∷ xs) (n, d) = elim (Bool-cases (was_seen x ts)) [
  | inl p ↦ rw p (ground (arith, was_seen-among x ts xs), among-Distinct ts xs d)
  | inr p ↦ rw p (among-Distinct ts xs d)
]

-- The existing timestamps are as many as the days of the batch that are stored.
pub length-existing :
    (batch stored : List ℕ)
    → Distinct batch
    → length (to_set (among batch stored)) ≡ length (among stored batch)
length-existing batch stored d =
    let below =
      length-Within (to_set (among batch stored)) (among stored batch)
        (to_set-Distinct (among batch stored))
        (λ t h. ground (
          arith,
          was_seen-to_set t (among batch stored),
          was_seen-among t batch stored,
          was_seen-among t stored batch,
        )) in
    let above =
      length-Within (among stored batch) (to_set (among batch stored))
        (among-Distinct stored batch d)
        (λ t h. ground (
          arith,
          was_seen-to_set t (among batch stored),
          was_seen-among t batch stored,
          was_seen-among t stored batch,
        )) in
    omega (arith, below, above)

pub length-among_le : (ts xs : List ℕ) → length (among ts xs) ≤ length xs
unfolding among
length-among_le ts [] = omega arith
length-among_le ts (x ∷ xs) = ground (arith, length-among_le ts xs, Bool-cases (was_seen x ts))

-- Only the days of the list matter.
among-eq :
    (ts us xs : List ℕ)
    → ((t : ℕ) → was_seen t xs ≡ true → was_seen t ts ≡ was_seen t us)
    → among ts xs ≡ among us xs
unfolding among
among-eq ts us [] h = refl
among-eq ts us (x ∷ xs) h =
    let here = h x (ground arith) in
    let rest = among-eq ts us xs (λ t k. h t (ground arith)) in rw (here, rest) refl

module _ {D : Type 0} ⦃k : Columns D⦄ where
  stored-upsert :
      (symbol interval : String) (t : ℕ) (row : MarketDataRow D) (table : List (MarketData D))
      → was_seen t
          (stored_timestamps symbol interval (upsert (stored_as row symbol interval) table))
        ≡ ((t == row.timestamp) || was_seen t (stored_timestamps symbol interval table))
  unfolding stored_timestamps upsert
  stored-upsert symbol interval t row [] = ground (arith, eq_refl symbol, eq_refl interval)
  stored-upsert symbol interval t row (stored ∷ rest) =
      ground (arith, eq_refl symbol, eq_refl interval, stored-upsert symbol interval t row rest)

  length-upsert :
      (symbol interval : String) (row : MarketDataRow D) (table : List (MarketData D))
      → length (upsert (stored_as row symbol interval) table) ≡ (
          if was_seen row.timestamp (stored_timestamps symbol interval table)
          then length table
          else suc (length table))
  unfolding stored_timestamps upsert
  length-upsert symbol interval row [] = refl
  length-upsert symbol interval row (stored ∷ rest) =
      ground (arith, length-upsert symbol interval row rest)

  -- The rows of days that are stored replace others; the rest makes the table grow.
  pub length-upsert_all :
      (symbol interval : String) (rows : List (MarketDataRow D)) (table : List (MarketData D))
      → Distinct (timestamps_of rows)
      → length (upsert_all symbol interval rows table)
          + length (among (stored_timestamps symbol interval table) (timestamps_of rows))
        ≡ length table + length rows
  unfolding upsert_all among
  length-upsert_all symbol interval [] table d = refl
  length-upsert_all symbol interval (row ∷ rest) table (n, d) =
      let next = upsert (stored_as row symbol interval) table in
      let stored = stored_timestamps symbol interval table in
      let same : among (stored_timestamps symbol interval next) (timestamps_of rest)
          ≡ among stored (timestamps_of rest) =
        among-eq (stored_timestamps symbol interval next) stored (timestamps_of rest) λ t h.
          ground (
            arith,
            stored-upsert symbol interval t row table,
            differs t row.timestamp (timestamps_of rest) h n,
          ) in
      let others = length-upsert_all symbol interval rest next d in
      ground (
        arith,
        ap (λ l. length l) same,
        others,
        length-upsert symbol interval row table,
        Bool-cases (was_seen row.timestamp stored),
      )
