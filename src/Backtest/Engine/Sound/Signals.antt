-- ===== src/Backtest/Engine/Sound/Signals.antt =====
-- Pending signals, and the phases of a round, keep the invariant and do not raise.
use agentic_trading_platform.Prelude.{
  ℕ, zero, suc, ◌≡◌, refl, inl, inr, Bool, true, false, Option, none, some, List, [], ◌∷◌, ◌++◌,
  Elem, ap, arith, Result, ok, ◌>>=◌, Returns, >>=_assoc, returned, Returns->>=, Bool-cases,
}
use agentic_trading_platform.Prelude.Int.{
  ℤ, pos, negsuc, pos_part, neg_part, ◌*ℤ◌, ◌≤ℤ◌, ◌<ℤ◌, is_zero_ℤ,
}
use agentic_trading_platform.Decimal.{Decimal, IsExact}
use agentic_trading_platform.Backtest.Models.{
  MarketBar, Signal, SignalType, buy, sell, CompletedTrade, EquityPoint, strategy_exit,
}
use agentic_trading_platform.Backtest.Engine.Portfolio.{
  Portfolio, execute_buy, execute_sell, completed_trade, ignore, cleared_position,
}
use agentic_trading_platform.Backtest.Engine.Risk.{evaluate_opening_risk_exit}
use agentic_trading_platform.Backtest.Engine.Run.{process_signal, process_signals, open_risk}
use agentic_trading_platform.Backtest.Engine.Sound.{IsValidBar, IsFlat, IsSound}
use agentic_trading_platform.Backtest.Engine.Sound.Exits.{
  completed_trade-IsExit, buy_accounts, sub_nonneg,
}
use agentic_trading_platform.Backtest.Engine.Sound.Orders.{exited, IsSound-same}

true≢false : ¬ (◌≡◌ {A = Bool} true false)
true≢false e = cc

not_zero : (q : ℤ) → pos 0 <ℤ q → is_zero_ℤ q ≡ false
not_zero q h = ground arith

module _ {D : Type 0} ⦃d : Decimal D⦄ (exact : IsExact d) where
  open exact use {
    units, units-nought, units-add, units-sub, units-mul, is_zero→eq, floor_div-nonneg,
  }

  module _ (bars : List (MarketBar D)) (start : ℤ) (curve : List (EquityPoint D)) (index : ℕ)
      (bar : MarketBar D) (valid : IsValidBar exact bar) (member : Elem bar bars)
      (stop_loss_percent take_profit_percent : Option D) where
    -- Within the round of `index`: while no position was closed at the open, no risk level was
    -- reached there.
    pub record IsMid (state : Portfolio D × Bool) : Type 0 where
      pub sound : IsSound exact bars start (suc index) curve state.0
      pub quiet : state.1 ≡ false → evaluate_opening_risk_exit bar index state.0 ≡ none

    ignored :
        (signal : Signal) (p : Portfolio D) (closed : Bool)
        → IsMid (p, closed)
        → IsMid (ignore signal p, closed)
    unfolding evaluate_opening_risk_exit
    ignored signal p closed m = record {
      sound =
          IsSound-same exact bars start curve (suc index) p (ignore signal p) m.sound refl refl refl
            refl refl refl refl refl;
      quiet = m.quiet;
    }

    abbrev bought : Signal → ℤ → Portfolio D → Portfolio D
    bought signal shares p = record p {
      cash = d.sub p.cash (d.mul (d.of_int shares) bar.open_price);
      quantity = shares;
      entry_price = some bar.open_price;
      entry_timestamp = some bar.timestamp;
      entry_signal_timestamp = some signal.timestamp;
    }

    opened :
        (signal : Signal) (n : ℕ) (p : Portfolio D) (closed : Bool)
        → IsFlat exact p
        → pos (suc n) *ℤ units bar.open_price ≤ℤ units p.cash
        → IsMid (p, closed)
        → IsMid (
          open_risk index stop_loss_percent take_profit_percent (bought signal (pos (suc n)) p),
          closed,
        )
    unfolding open_risk evaluate_opening_risk_exit
    opened signal n p closed f cover m =
        let s = m.sound in
        record {
          sound = record {
            cash_nonneg = rw (units-sub, units-mul) (sub_nonneg _ _ cover);
            accounts = rw (units-sub, units-mul) (buy_accounts _ _ _ (rw f.no_price at s.accounts));
            booked = s.booked;
            curve_kept = s.curve_kept;
            position = inr (record {
              shares_before = n;
              price = bar.open_price;
              bought_at = bar.timestamp;
              signalled_at = signal.timestamp;
              index = index;
              shares_eq = refl;
              price_eq = refl;
              bought_eq = refl;
              signalled_eq = refl;
              index_eq = refl;
              index_lt = omega arith;
              price_pos = omega (arith, valid.low_pos, valid.low-le-open);
            });
          };
          quiet = λ _. ground arith;
        }

    abbrev step : Signal → SignalType → Portfolio D × Bool → Result (Portfolio D × Bool)
    step = process_signal stop_loss_percent take_profit_percent index bar

    open_not_zero : d.is_zero bar.open_price ≡ false
    open_not_zero = elim (Bool-cases (d.is_zero bar.open_price)) [
      | inl e ↦
          let z = is_zero→eq bar.open_price e in
          absurd (omega (arith, valid.low_pos, valid.low-le-open, ap pos_part z, ap neg_part z))
      | inr e ↦ e
    ]

    -- What a buy signal does in a flat portfolio, by the number of shares that cash pays for.
    buy_shares :
        (signal : Signal) (p : Portfolio D) (closed : Bool) (shares : ℤ)
        → IsFlat exact p
        → IsMid (p, closed)
        → d.floor_div p.cash bar.open_price ≡ shares
        → pos 0 ≤ℤ shares
        → shares *ℤ units bar.open_price ≤ℤ units p.cash
        → Returns IsMid (step signal buy (p, closed))
    unfolding process_signal execute_buy
    buy_shares signal p closed (pos zero) f m e h k =
        let does : step signal buy (p, closed) ≡ ok (ignore signal p, closed) =
          ground (arith, f.no_shares, open_not_zero) in
        rw does (returned (ignored signal p closed m))
    buy_shares signal p closed (pos (suc n)) f m e h k =
        let does : step signal buy (p, closed)
            ≡ ok (
              open_risk index stop_loss_percent take_profit_percent (bought signal (pos (suc n)) p),
              closed,
            ) =
          ground (arith, f.no_shares, open_not_zero) in
        rw does (returned (opened signal n p closed f k m))
    buy_shares signal p closed (negsuc n) f m e h k = absurd (omega arith)

    buy-IsMid :
        (signal : Signal) (p : Portfolio D) (closed : Bool)
        → IsMid (p, closed)
        → Returns IsMid (step signal buy (p, closed))
    unfolding process_signal execute_buy
    buy-IsMid signal p closed m = elim m.sound.position [
      | inl f ↦
          let open_pos : pos 0 <ℤ units bar.open_price =
            omega (arith, valid.low_pos, valid.low-le-open) in
          let (h, k) = floor_div-nonneg p.cash bar.open_price m.sound.cash_nonneg open_pos in
          buy_shares signal p closed _ f m refl h k
      | inr f ↦
          let does : step signal buy (p, closed) ≡ ok (ignore signal p, closed) =
            ground (arith, f.shares_eq) in
          rw does (returned (ignored signal p closed m))
    ]

    abbrev sold : Portfolio D → D × CompletedTrade D → Portfolio D
    sold p r = cleared_position (record p {
      cash = d.add p.cash r.0;
      quantity = pos 0;
      completed_trades = p.completed_trades ++ (r.1 ∷ []);
    })

    sell-IsMid :
        (signal : Signal) (p : Portfolio D) (closed : Bool)
        → IsMid (p, closed)
        → Returns IsMid (step signal sell (p, closed))
    unfolding process_signal execute_sell
    sell-IsMid signal p closed m = elim m.sound.position [
      | inl f ↦
          let does : step signal sell (p, closed) ≡ ok (ignore signal p, closed) =
            ground (arith, f.no_shares) in
          rw does (returned (ignored signal p closed m))
      | inr f ↦
          let open_pos : pos 0 <ℤ units bar.open_price =
            omega (arith, valid.low_pos, valid.low-le-open) in
          let some_shares : pos 0 <ℤ p.quantity = rw f.shares_eq (omega arith) in
          let does : step signal sell (p, closed) ≡ (
              completed_trade p.quantity f.price f.bought_at f.signalled_at (some signal.timestamp)
                bar.timestamp bar.open_price strategy_exit
              >>= λ r. ok (sold p r, true)) =
            rw (not_zero p.quantity some_shares, f.price_eq, f.bought_eq, f.signalled_eq)
              (>>=_assoc
                (completed_trade p.quantity f.price f.bought_at f.signalled_at
                  (some signal.timestamp) bar.timestamp bar.open_price strategy_exit)
                _ _) in
          rw does (
            Returns->>= _
              (λ r x. returned (record {
                sound =
                    exited exact bars start curve (suc index) bar bar.open_price p (sold p r) r f
                      member valid.low-le-open valid.open-le-high open_pos m.sound x refl refl refl
                      refl refl refl;
                quiet = λ e. absurd (true≢false e);
              }))
              (completed_trade-IsExit exact bar p.quantity f.price bar.open_price f.bought_at
                f.signalled_at (some signal.timestamp) strategy_exit some_shares f.price_pos))
    ]

    signal-IsMid :
        (signal : Signal) (kind : SignalType) (state : Portfolio D × Bool)
        → IsMid state
        → Returns IsMid (step signal kind state)
    signal-IsMid signal buy (p, closed) m = buy-IsMid signal p closed m
    signal-IsMid signal sell (p, closed) m = sell-IsMid signal p closed m

    pub process_signals-IsMid :
        (signals : List Signal) (state : Portfolio D × Bool)
        → IsMid state
        → Returns IsMid
            (process_signals stop_loss_percent take_profit_percent index bar signals state)
    unfolding process_signals
    process_signals-IsMid [] state m = returned m
    process_signals-IsMid (signal ∷ signals) state m =
        Returns->>= _ (λ state' m'. process_signals-IsMid signals state' m')
          (signal-IsMid signal signal.signal_type state m)
