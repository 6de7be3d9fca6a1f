-- ===== src/Backtest/Engine/Sound/Exits.antt =====
-- The accounts of an order, and the trade of an exit.
use agentic_trading_platform.Prelude.{
  ℕ, ◌≡◌, refl, ◌⊎◌, inl, inr, false, Option, ap, arith, sym, ◌∙◌, Returns, returned, Bool-cases,
}
use agentic_trading_platform.Prelude.Int.{
  ℤ, pos, pos_part, neg_part, ◌+ℤ◌, ◌-ℤ◌, ◌*ℤ◌, ◌≤ℤ◌, ◌<ℤ◌, int_laws, *ℤ_pos, leb_ℤ,
}
use agentic_trading_platform.Decimal.{Decimal, IsExact}
use agentic_trading_platform.Backtest.Models.{MarketBar, CompletedTrade, ExitReason}
use agentic_trading_platform.Backtest.Engine.Portfolio.{Portfolio, completed_trade}
use agentic_trading_platform.Backtest.Engine.Sound.{IsFlat, IsHeld}

-- The account before and behind an exit with the proceeds `x`.
pub exit_accounts :
    (cash cost x profit start profits : ℤ)
    → cash +ℤ cost ≡ start +ℤ profits
    → profit ≡ x -ℤ cost
    → cash +ℤ x +ℤ pos 0 ≡ start +ℤ (profits +ℤ profit)
exit_accounts cash cost x profit start profits h k =
    omega (int_laws, ap pos_part h, ap neg_part h, ap pos_part k, ap neg_part k)

pub buy_accounts : (cash cost total : ℤ) → cash +ℤ pos 0 ≡ total → cash -ℤ cost +ℤ cost ≡ total
buy_accounts cash cost total h = omega (int_laws, ap pos_part h, ap neg_part h)

pub sum_nonneg : (a b : ℤ) → pos 0 ≤ℤ a → pos 0 ≤ℤ b → pos 0 ≤ℤ a +ℤ b
sum_nonneg a b h k = omega int_laws

pub sub_nonneg : (a b : ℤ) → b ≤ℤ a → pos 0 ≤ℤ a -ℤ b
sub_nonneg a b h = omega int_laws

pub not_le_zero : (q : ℤ) → pos 0 <ℤ q → leb_ℤ q (pos 0) ≡ false
not_le_zero q h = ground arith

module _ {D : Type 0} ⦃d : Decimal D⦄ (exact : IsExact d) where
  open exact use {
    units, units-nought, units-add, units-sub, units-mul, le-eq, lt-eq, is_zero→eq,
    floor_div-nonneg,
  }

  -- The trade that an exit of held shares makes.
  pub record IsExit (bar : MarketBar D) (exit_price : D) (quantity : ℤ) (price : D)
      (r : D × CompletedTrade D) : Type 0 where
    pub proceeds_eq : units r.0 ≡ quantity *ℤ units exit_price
    pub profit_is : units r.1.profit_loss ≡ quantity *ℤ units exit_price -ℤ quantity *ℤ units price
    pub quantity_is : r.1.quantity ≡ quantity
    pub entry_is : r.1.entry_price ≡ price
    pub exit_is : r.1.exit_price ≡ exit_price
    pub time_is : r.1.exit_timestamp ≡ bar.timestamp

  cost_not_zero :
      (quantity : ℤ) (price : D)
      → pos 0 <ℤ quantity
      → pos 0 <ℤ units price
      → d.is_zero (d.mul (d.of_int quantity) price) ≡ false
  cost_not_zero quantity price h k =
      elim (Bool-cases (d.is_zero (d.mul (d.of_int quantity) price))) [
        | inl zero_cost ↦
            let e = sym (units-mul quantity price) ∙ is_zero→eq _ zero_cost in
            absurd (omega (arith, *ℤ_pos quantity (units price) h k, ap pos_part e, ap neg_part e))
        | inr e ↦ e
      ]

  pub completed_trade-IsExit :
      (bar : MarketBar D) (quantity : ℤ) (price exit_price : D) (bought signalled : ℕ)
      (exit_signal : Option ℕ) (reason : ExitReason)
      → pos 0 <ℤ quantity
      → pos 0 <ℤ units price
      → Returns (IsExit bar exit_price quantity price) (
          completed_trade quantity price bought signalled exit_signal bar.timestamp exit_price
            reason)
  unfolding completed_trade
  completed_trade-IsExit bar quantity price exit_price bought signalled exit_signal reason h k =
      rw (cost_not_zero quantity price h k) (
        returned (record {
          proceeds_eq = units-mul quantity exit_price;
          profit_is = rw (units-sub, units-mul, units-mul) refl;
          quantity_is = refl;
          entry_is = refl;
          exit_is = refl;
          time_is = refl;
        }))

  pub position-same :
      (limit : ℕ) (p q : Portfolio D)
      → q.quantity ≡ p.quantity
      → q.entry_price ≡ p.entry_price
      → q.entry_timestamp ≡ p.entry_timestamp
      → q.entry_signal_timestamp ≡ p.entry_signal_timestamp
      → q.entry_bar_index ≡ p.entry_bar_index
      → IsFlat exact p ⊎ IsHeld exact limit p
      → IsFlat exact q ⊎ IsHeld exact limit q
  position-same limit p q n e t g i (inl f) =
      inl (record {
        no_shares = n ∙ f.no_shares;
        no_price = e ∙ f.no_price;
        no_index = i ∙ f.no_index;
      })
  position-same limit p q n e t g i (inr f) = inr (record {
    shares_before = f.shares_before;
    price = f.price;
    bought_at = f.bought_at;
    signalled_at = f.signalled_at;
    index = f.index;
    shares_eq = n ∙ f.shares_eq;
    price_eq = e ∙ f.price_eq;
    bought_eq = t ∙ f.bought_eq;
    signalled_eq = g ∙ f.signalled_eq;
    index_eq = i ∙ f.index_eq;
    index_lt = f.index_lt;
    price_pos = f.price_pos;
  })
