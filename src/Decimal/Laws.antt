-- ===== src/Decimal/Laws.antt =====
-- What theorems assume of the arithmetic.
use agentic_trading_platform.Prelude.{◌≡◌, ◌⊎◌, true, not, arith}
use agentic_trading_platform.Prelude.Int.{ℤ, pos, leb_ℤ, ltb_ℤ, ◌+ℤ◌, ◌-ℤ◌, ◌*ℤ◌, ◌≤ℤ◌, ◌<ℤ◌}
use agentic_trading_platform.Decimal.Interface.{Decimal}

-- The numbers are in a linear order, and `<` is its strict part.
pub record IsOrdered {D : Type 0} (d : Decimal D) : Type 0 where
  pub le_trans : (a b c : D) → d.le a b ≡ true → d.le b c ≡ true → d.le a c ≡ true
  pub le_total : (a b : D) → (d.le a b ≡ true) ⊎ (d.le b a ≡ true)
  pub lt-eq-not-le : (a b : D) → d.lt a b ≡ not (d.le b a)

-- Amounts are whole numbers of one smallest unit, and the listed operations are exact on them.
pub record IsExact {D : Type 0} (d : Decimal D) : Type 0 where
  pub units : D → ℤ
  pub units-nought : units d.nought ≡ pos 0
  pub units-add : (a b : D) → units (d.add a b) ≡ units a +ℤ units b
  pub units-sub : (a b : D) → units (d.sub a b) ≡ units a -ℤ units b
  -- A whole multiple, `Decimal(n) * a`.
  pub units-mul : (n : ℤ) (a : D) → units (d.mul (d.of_int n) a) ≡ n *ℤ units a
  pub le-eq : (a b : D) → d.le a b ≡ leb_ℤ (units a) (units b)
  pub lt-eq : (a b : D) → d.lt a b ≡ ltb_ℤ (units a) (units b)
  pub is_zero→eq : (a : D) → d.is_zero a ≡ true → units a ≡ pos 0
  -- The quotient of an amount that is not negative by a positive one is the whole part.
  pub floor_div-nonneg :
      (a b : D)
      → pos 0 ≤ℤ units a
      → pos 0 <ℤ units b
      → (pos 0 ≤ℤ d.floor_div a b) × (d.floor_div a b *ℤ units b ≤ℤ units a)

module _ {D : Type 0} {d : Decimal D} (exact : IsExact d) where
  open exact use {units, le-eq, lt-eq}

  pub IsExact-IsOrdered : IsOrdered d
  IsExact-IsOrdered = record {
    le_trans = λ a b c p q. ground (arith, le-eq a b, le-eq b c, le-eq a c);
    le_total = λ a b. ground (arith, le-eq a b, le-eq b a);
    lt-eq-not-le = λ a b. ground (arith, lt-eq a b, le-eq b a);
  }
