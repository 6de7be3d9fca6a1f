-- ===== src/Backtest/Metrics/Drawdown.antt =====
-- The maximum drawdown is the least of nought and the falls from the greatest equity so far.
use agentic_trading_platform.Prelude.{
  ◌≡◌, refl, false, inl, inr, List, [], ◌∷◌, ◌++◌, All, All-append, All-map, Some, at_head, further,
  Some-append_left, Some-append_right, Elem, ok, Returns, returned, Returns-map, Returns-ok,
  Bool-cases, arith,
}
use agentic_trading_platform.Prelude.Int.{pos, ◌≤ℤ◌, ◌<ℤ◌}
use agentic_trading_platform.Decimal.{Decimal, IsExact}
use agentic_trading_platform.Backtest.Models.{EquityPoint}
use agentic_trading_platform.Backtest.Metrics.{
  max_of, min_of, gain_percentage, drawdown_from, calculate_maximum_drawdown, hundred,
}

module _ {D : Type 0} ⦃d : Decimal D⦄ (exact : IsExact d) where
  open exact use {units, units-nought, le-eq, lt-eq, is_zero→eq}

  -- The greatest equity of some points.
  pub record IsPeak (points : List (EquityPoint D)) (peak : D) : Type 0 where
    pub reached : Some (λ point. point.equity ≡ peak) points
    pub highest : All (λ point. units point.equity ≤ℤ units peak) points

  -- The percentage of the fall at a point from the greatest equity up to it.
  pub record IsFall (before : List (EquityPoint D)) (point : EquityPoint D) (fall : D)
      : Type 0 where
    pub peak : D
    pub is_peak : IsPeak (before ++ (point ∷ [])) peak
    pub falls : gain_percentage point.equity peak ≡ ok fall

  -- The falls at the points behind `before`, one for each, in order.
  abbrev pub AreFalls : List (EquityPoint D) → List (EquityPoint D) → List D → Type 0
  AreFalls before [] [] = Unit
  AreFalls before (point ∷ points) (fall ∷ falls) =
      IsFall before point fall × AreFalls (before ++ (point ∷ [])) points falls
  AreFalls before _ _ = ⊥

  -- The value is one of the list, and the least of it.
  pub record IsLeast (values : List D) (value : D) : Type 0 where
    pub one : Elem value values
    pub least : All (λ other. units value ≤ℤ units other) values

  max_of-IsPeak :
      (before : List (EquityPoint D)) (point : EquityPoint D) (peak : D)
      → Some (λ q. q.equity ≡ peak) (before ++ (point ∷ []))
      → All (λ q. units q.equity ≤ℤ units peak) before
      → IsPeak (before ++ (point ∷ [])) (max_of peak point.equity)
  max_of-IsPeak before point peak s a = elim (Bool-cases (d.lt peak point.equity)) [
    | inl b ↦ rw b (record {
      reached = Some-append_right before (at_head refl);
      highest =
          All-append (λ q. units q.equity ≤ℤ units point.equity) before (point ∷ [])
            (All-map (λ q. units q.equity ≤ℤ units peak) (λ q. units q.equity ≤ℤ units point.equity)
              before (λ q h. ground (arith, lt-eq peak point.equity)) a)
            (omega arith, tt);
    })
    | inr b ↦ rw b (record {
      reached = s;
      highest =
          All-append (λ q. units q.equity ≤ℤ units peak) before (point ∷ []) a
            (ground (arith, lt-eq peak point.equity), tt);
    })
  ]

  gain_percentage-ok : (a b : D) → pos 0 <ℤ units b → (x : D) × (gain_percentage a b ≡ ok x)
  unfolding gain_percentage
  gain_percentage-ok a b h =
      let solid : d.is_zero b ≡ false = ground (arith, is_zero→eq b) in
      (d.mul (d.sub (d.div a b) (d.of_int (pos 1))) hundred, rw solid refl)

  min_of-IsLeast :
      (maximum fall value : D) (falls : List D)
      → IsLeast (min_of maximum fall ∷ falls) value
      → IsLeast (maximum ∷ fall ∷ falls) value
  min_of-IsLeast maximum fall value falls l = elim (Bool-cases (d.lt fall maximum)) [
    | inl b ↦
        let k : IsLeast (fall ∷ falls) value = rw b at l in
        record {
          one = further k.one;
          least = (ground (arith, lt-eq fall maximum, k.least.0), k.least);
        }
    | inr b ↦
        let k : IsLeast (maximum ∷ falls) value = rw b at l in
        record {
          one = behind k.one;
          least = (k.least.0, (ground (arith, lt-eq fall maximum, k.least.0), k.least.1));
        }
  ]
    where
      behind : Elem value (maximum ∷ falls) → Elem value (maximum ∷ fall ∷ falls)
      behind (at_head e) = at_head e
      behind (further e) = further (further e)

  abbrev pub IsDrawdown : List (EquityPoint D) → List (EquityPoint D) → D → D → Type 0
  IsDrawdown before points start value =
      (falls : List D) × AreFalls before points falls × IsLeast (start ∷ falls) value

  -- The loop goes on from the new peak.
  step-IsDrawdown :
      (before rest : List (EquityPoint D)) (point : EquityPoint D) (peak start : D)
      → pos 0 <ℤ units peak
      → Some (λ q. q.equity ≡ peak) (before ++ (point ∷ []))
      → All (λ q. units q.equity ≤ℤ units peak) before
      → ((new least : D)
          → pos 0 <ℤ units new
          → IsPeak (before ++ (point ∷ [])) new
          → Returns (IsDrawdown (before ++ (point ∷ [])) rest least) (drawdown_from new least rest))
      → Returns (IsDrawdown before (point ∷ rest) start) (drawdown_from peak start (point ∷ rest))
  unfolding drawdown_from
  step-IsDrawdown before rest point peak start h s a next =
      let new = max_of peak point.equity in
      let p = max_of-IsPeak before point peak s a in
      let positive : pos 0 <ℤ units new = ground (arith, lt-eq peak point.equity) in
      let (fall, e) = gain_percentage-ok point.equity new positive in
      rw e (
        Returns-map
          (λ value (falls, f, l). (
            fall ∷ falls,
            (record { peak = new; is_peak = p; falls = e }, f),
            min_of-IsLeast start fall value falls l,
          ))
          (next new (min_of start fall) positive p))

  drawdown_from-IsDrawdown :
      (before rest : List (EquityPoint D)) (point : EquityPoint D) (peak start : D)
      → pos 0 <ℤ units peak
      → Some (λ q. q.equity ≡ peak) (before ++ (point ∷ []))
      → All (λ q. units q.equity ≤ℤ units peak) before
      → Returns (IsDrawdown before (point ∷ rest) start) (drawdown_from peak start (point ∷ rest))
  unfolding drawdown_from
  drawdown_from-IsDrawdown before [] point peak start h s a =
      step-IsDrawdown before [] point peak start h s a finished
    where
      finished :
          (new least : D)
          → pos 0 <ℤ units new
          → IsPeak (before ++ (point ∷ [])) new
          → Returns (IsDrawdown (before ++ (point ∷ [])) [] least) (drawdown_from new least [])
      finished new least _ _ =
          returned ([], tt, record { one = at_head refl; least = (omega arith, tt) })
  drawdown_from-IsDrawdown before (next ∷ rest) point peak start h s a =
      step-IsDrawdown before (next ∷ rest) point peak start h s a (λ new least h p.
        drawdown_from-IsDrawdown (before ++ (point ∷ [])) rest next new least h
          (Some-append_left (next ∷ []) p.reached) p.highest)

  -- With exact amounts and a first equity that is positive, `calculate_maximum_drawdown` does not
  -- raise. Its value is the least of nought and the falls, one for each point of the curve: the
  -- percentage by which the equity of the point is below the greatest equity up to that point.
  pub calculate_maximum_drawdown-IsDrawdown :
      (first : EquityPoint D) (rest : List (EquityPoint D))
      → pos 0 <ℤ units first.equity
      → (value : D) × (calculate_maximum_drawdown first rest ≡ ok value)
        × IsDrawdown [] (first ∷ rest) d.nought value
  unfolding calculate_maximum_drawdown
  calculate_maximum_drawdown-IsDrawdown first rest h =
      Returns-ok (drawdown_from-IsDrawdown [] rest first first.equity d.nought h (at_head refl) tt)
