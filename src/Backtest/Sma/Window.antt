-- ===== src/Backtest/Sma/Window.antt =====
-- The running total of `simple_moving_averages` against the closes of the window.
use native.Mathlib.Nat.{suc-add, add-suc, add-zero, zero-add, sub-zero, zero-sub}
use agentic_trading_platform.Prelude.{
  ℕ, zero, suc, ◌+◌, ◌-◌, ◌≤◌, ◌<◌, ◌≡◌, refl, sym, ap, ◌∙◌, Option, none, some, List, [], ◌∷◌,
  length, get_elem?, ok, arith, leb, if◌then◌else◌, Bool-cases, inl, inr,
}
use agentic_trading_platform.Prelude.Int.{ℤ, pos, ◌+ℤ◌, ◌-ℤ◌, int_laws, pos_part, neg_part}
use agentic_trading_platform.Decimal.{Decimal, IsExact}
use agentic_trading_platform.Backtest.Models.{MarketBar}
use agentic_trading_platform.Backtest.Sma.{close_at, roll, sma_from, simple_moving_averages, item}

slide : (t b first rest : ℤ) → t +ℤ b ≡ first +ℤ rest → t +ℤ b -ℤ first ≡ rest
slide t b first rest h = omega (int_laws, ap pos_part h, ap neg_part h)

module _ {D : Type 0} ⦃d : Decimal D⦄ (exact : IsExact d) where
  open exact use {units, units-add, units-sub, units-nought}

  -- The sum of `count` closes from `start` on, in units.
  abbrev pub closes_sum : List (MarketBar D) → ℕ → ℕ → ℤ
  closes_sum bars start zero = pos 0
  closes_sum bars start (suc count) =
      closes_sum bars start count +ℤ units (close_at bars (start + count))

  closes_sum-first :
      (bars : List (MarketBar D)) (start count : ℕ)
      → closes_sum bars start (suc count)
        ≡ units (close_at bars start) +ℤ closes_sum bars (suc start) count
  closes_sum-first bars start zero = rw add-zero (omega int_laws)
  closes_sum-first bars start (suc count) =
      rw (closes_sum-first bars start count, suc-add start count, add-suc start count)
        (omega int_laws)

  -- The total before the round of `index`: the closes of the window, or of all bars before it.
  abbrev IsTotal : List (MarketBar D) → ℕ → ℕ → D → Type 0
  IsTotal bars window index total =
      units total ≡ closes_sum bars (index - window) (index - (index - window))

  close_at-eq :
      (bars : List (MarketBar D)) (index : ℕ) (bar : MarketBar D)
      → get_elem? bars index ≡ some bar
      → close_at bars index ≡ bar.close_price
  close_at-eq bars index bar e = ground arith

  roll-IsTotal :
      (bars : List (MarketBar D)) (window index : ℕ) (total : D) (bar : MarketBar D)
      → get_elem? bars index ≡ some bar
      → IsTotal bars window index total
      → IsTotal bars window (suc index) (roll bars window index total bar)
  unfolding roll
  roll-IsTotal bars window index total bar e t = elim (Bool-cases (leb window index)) [
    | inl full ↦
        let s = index - window in
        let a : suc index - window ≡ suc s = ground arith in
        let b : suc index - suc s ≡ window = ground arith in
        let c : index - s ≡ window = ground arith in
        let f : s + window ≡ index = ground arith in
        let t' : units total ≡ closes_sum bars s window = rw c at t in
        let last : closes_sum bars s (suc window) ≡ units total +ℤ units bar.close_price =
          rw (f, close_at-eq bars index bar e, t') refl in
        rw (full, a, b, units-sub, units-add)
          (slide _ _ _ _ (sym last ∙ closes_sum-first bars s window))
    | inr short ↦
        let a : suc index - window ≡ 0 = ground arith in
        let b : index - window ≡ 0 = ground arith in
        let t' : units total ≡ closes_sum bars 0 index = rw (b, sub-zero) at t in
        rw (short, a, sub-zero, units-add, t', zero-add, close_at-eq bars index bar e) refl
  ]

  -- What the average at `index` is: nothing until the window is full, and then a quotient by the
  -- window of a total that is, in units, the sum of the closes of the window.
  abbrev pub IsMean : List (MarketBar D) → ℕ → ℕ → Option D → Type 0
  IsMean bars window index average =
      (suc index < window → average ≡ none)
      × (window ≤ suc index
          → (total : D) × (average ≡ some (d.div total (d.of_int (pos window))))
            × (units total ≡ closes_sum bars (suc index - window) window))

  average-IsMean :
      (bars : List (MarketBar D)) (window index : ℕ) (total : D)
      → IsTotal bars window (suc index) total
      → IsMean bars window index
          (if leb window (suc index) then some (d.div total (d.of_int (pos window))) else none)
  average-IsMean bars window index total t = (
    λ h. ground arith,
    λ h.
        let a : suc index - (suc index - window) ≡ window = omega arith in
        (total, ground arith, rw a at t),
  )

  sma_from-IsMean :
      (bars : List (MarketBar D)) (window index : ℕ) (total : D) (rest : List (MarketBar D))
      → ((j : ℕ) → get_elem? bars (index + j) ≡ get_elem? rest j)
      → IsTotal bars window index total
      → (j : ℕ) → j < length rest
      → IsMean bars window (index + j) (item (sma_from bars window index total rest) j)
  unfolding sma_from
  sma_from-IsMean bars window index total [] s t j h = absurd (omega arith)
  sma_from-IsMean bars window index total (bar ∷ rest) s t zero h =
      let at : get_elem? bars index ≡ some bar = rw add-zero at (s 0) in
      rw add-zero (
        average-IsMean bars window index (roll bars window index total bar)
          (roll-IsTotal bars window index total bar at t))
  sma_from-IsMean bars window index total (bar ∷ rest) s t (suc j) h =
      let at : get_elem? bars index ≡ some bar = rw add-zero at (s 0) in
      let up = roll-IsTotal bars window index total bar at t in
      let later : (k : ℕ) → get_elem? bars (suc index + k) ≡ get_elem? rest k =
        λ k. rw (suc-add index k, ← add-suc index k) (s (suc k)) in
      rw (add-suc index j, ← suc-add index j)
        (sma_from-IsMean bars window (suc index) (roll bars window index total bar) rest later up j
          (omega arith))

  -- With exact arithmetic, where `simple_moving_averages` returns, it gives at every bar nothing
  -- before the window is full, and from then on the quotient by the window of the exact sum of the
  -- last `window` closes: the running total does not drift.
  pub simple_moving_averages-IsMean :
      (bars : List (MarketBar D)) (window : ℕ) {averages : List (Option D)}
      → simple_moving_averages bars (pos window) ≡ ok averages
      → (index : ℕ) → index < length bars
      → IsMean bars window index (item averages index)
  unfolding simple_moving_averages
  simple_moving_averages-IsMean bars window {averages} e index h =
      let start : IsTotal bars window 0 d.nought = rw (zero-sub window) units-nought in
      let run : averages ≡ sma_from bars window 0 d.nought bars = ground arith in
      rw run (
        rw zero-add at
          (sma_from-IsMean bars window 0 d.nought bars (λ j. rw zero-add refl) start index h))
