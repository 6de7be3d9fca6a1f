-- ===== src/Decimal/Fixed.antt =====
-- An arithmetic that meets the laws: numbers with four decimal places, quotients and products cut
-- off. Tests and examples run in it.
use Prim.Native.Nat.{◌/◌}
use agentic_trading_platform.Prelude.{ℕ, suc, ◌-◌, ◌+◌, ◌*◌, ◌≡◌, Bool, true, arith, refl}
use agentic_trading_platform.Prelude.Int.{
  ℤ, pos, negsuc, pos_part, neg_part, sub_ℕ, leb_ℤ, ltb_ℤ, ◌+ℤ◌, ◌-ℤ◌, ◌*ℤ◌, ◌≤ℤ◌, ◌<ℤ◌,
}
use agentic_trading_platform.Decimal.Interface.{Decimal}
use agentic_trading_platform.Decimal.Laws.{IsExact}

-- The number 1, in units of a ten-thousandth.
abbrev pub scale : ℕ
scale = 10_000

-- A product over the parts of two numbers, each divided by `k`.
abbrev mul_over : ℕ → ℤ → ℤ → ℤ
mul_over k a b =
    sub_ℕ ((pos_part a * pos_part b + neg_part a * neg_part b) / k)
      ((pos_part a * neg_part b + neg_part a * pos_part b) / k)

-- A quotient cut off towards zero, the dividend multiplied by `k`.
abbrev div_over : ℕ → ℤ → ℤ → ℤ
div_over k a b =
    sub_ℕ (pos_part a * k / pos_part b + neg_part a * k / neg_part b)
      (pos_part a * k / neg_part b + neg_part a * k / pos_part b)

abbrev is_nought : ℤ → Bool
is_nought a = leb_ℤ a (pos 0)

abbrev whole : ℤ → ℤ
whole (pos n) = pos (n * scale)
whole (negsuc n) = negsuc (suc n * scale - 1)

instance abbrev pub fixed : Decimal ℤ
fixed = record {
  nought = pos 0;
  of_int = whole;
  add = ◌+ℤ◌;
  sub = ◌-ℤ◌;
  mul = mul_over scale;
  div = div_over scale;
  floor_div = div_over 1;
  le = leb_ℤ;
  lt = ltb_ℤ;
  is_zero = λ a. elim (leb_ℤ a (pos 0)) [ true ↦ leb_ℤ (pos 0) a | b ↦ b ];
  is_finite = λ _. true;
}

whole_parts :
    (n : ℤ) → (pos_part (whole n) ≡ pos_part n * scale) × (neg_part (whole n) ≡ neg_part n * scale)
whole_parts (pos n) = omega arith
whole_parts (negsuc n) = omega arith

cut_scale : (a b c d : ℕ) → (a * scale * b + c * scale * d) / scale ≡ a * b + c * d
cut_scale a b c d = omega arith

-- A whole multiple is exact.
pub whole_multiple : (n a : ℤ) → fixed.mul (fixed.of_int n) a ≡ n *ℤ a
unfolding ◌*ℤ◌
whole_multiple n a =
    let (p, q) = whole_parts n in
    rw
      (
        p,
        q,
        cut_scale (pos_part n) (pos_part a) (neg_part n) (neg_part a),
        cut_scale (pos_part n) (neg_part a) (neg_part n) (pos_part a),
      )
      refl

pub quotient_lem :
    (a b : ℤ)
    → pos 0 ≤ℤ a
    → pos 0 <ℤ b
    → (pos 0 ≤ℤ fixed.floor_div a b) × (fixed.floor_div a b *ℤ b ≤ℤ a)
unfolding ◌*ℤ◌
quotient_lem (pos a) (pos b) h k = ground arith
quotient_lem (negsuc a) b h k = absurd (omega arith)
quotient_lem (pos a) (negsuc b) h k = absurd (omega arith)

pub is_zero_lem : (a : ℤ) → fixed.is_zero a ≡ true → a ≡ pos 0
is_zero_lem a h = ground arith

abbrev pub fixed-IsExact : IsExact fixed
fixed-IsExact = record {
  units = λ a. a;
  units-nought = refl;
  units-add = λ a b. refl;
  units-sub = λ a b. refl;
  units-mul = whole_multiple;
  le-eq = λ a b. refl;
  lt-eq = λ a b. refl;
  is_zero→eq = is_zero_lem;
  floor_div-nonneg = quotient_lem;
}
