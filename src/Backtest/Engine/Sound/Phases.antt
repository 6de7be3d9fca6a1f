-- ===== src/Backtest/Engine/Sound/Phases.antt =====
-- The phases of a round, and a round, keep the invariant and do not raise.
use agentic_trading_platform.Prelude.{
  ℕ, suc, ◌≡◌, refl, inl, inr, Bool, true, false, Option, none, some, List, [], ◌∷◌, ◌++◌, Elem, ap,
  arith, Result, ok, ◌>>=◌, Returns, returned, Returns->>=, Returns-map, Option-cases,
}
use agentic_trading_platform.Prelude.Int.{ℤ, pos, ◌≤ℤ◌, ◌<ℤ◌}
use agentic_trading_platform.Decimal.{Decimal, IsExact}
use agentic_trading_platform.Backtest.Models.{MarketBar, Signal, EquityPoint, ExitReason}
use agentic_trading_platform.Backtest.Engine.Portfolio.{Portfolio, exit_position}
use agentic_trading_platform.Backtest.Engine.Risk.{
  evaluate_opening_risk_exit, evaluate_intraday_risk_exit,
}
use agentic_trading_platform.Backtest.Engine.Run.{
  signals_at_timestamp, process_signals, open_phase, intraday_phase, mark, equity_point, run_bar,
}
use agentic_trading_platform.Backtest.Engine.Sound.{IsValidBar, IsFlat, IsSound}
use agentic_trading_platform.Backtest.Engine.Sound.Exits.{position-same}
use agentic_trading_platform.Backtest.Engine.Sound.Orders.{
  exit_position-IsSound, IsSound-same, IsSound-later,
}
use agentic_trading_platform.Backtest.Engine.Sound.Signals.{IsMid, process_signals-IsMid}

module _ {D : Type 0} ⦃d : Decimal D⦄ (exact : IsExact d) where
  open exact use {units, le-eq}

  -- An exit at the open is at the opening price.
  opening_price :
      (bar : MarketBar D) (index : ℕ) (p : Portfolio D) (exit : D × ExitReason)
      → evaluate_opening_risk_exit bar index p ≡ some exit
      → exit.0 ≡ bar.open_price
  unfolding evaluate_opening_risk_exit
  opening_price bar index p exit e = ground arith

  flat_opening :
      (bar : MarketBar D) (index : ℕ) (p : Portfolio D)
      → IsFlat exact p
      → evaluate_opening_risk_exit bar index p ≡ none
  unfolding evaluate_opening_risk_exit
  flat_opening bar index p f = ground (arith, f.no_index)

  flat_intraday :
      (bar : MarketBar D) (index : ℕ) (p : Portfolio D)
      → IsFlat exact p
      → evaluate_intraday_risk_exit bar index p ≡ none
  unfolding evaluate_intraday_risk_exit
  flat_intraday bar index p f = ground (arith, f.no_index)

  -- If no level was reached at the open, one that is reached later in the bar lies in its range.
  intraday_price :
      (bar : MarketBar D) (index : ℕ) (p : Portfolio D) (exit : D × ExitReason)
      → IsValidBar exact bar
      → evaluate_opening_risk_exit bar index p ≡ none
      → evaluate_intraday_risk_exit bar index p ≡ some exit
      → (units bar.low_price ≤ℤ units exit.0) × (units exit.0 ≤ℤ units bar.high_price)
  unfolding evaluate_opening_risk_exit evaluate_intraday_risk_exit
  intraday_price bar index p exit v quiet e = ground (
    arith,
    v,
    le-eq bar.open_price exit.0,
    le-eq exit.0 bar.open_price,
    le-eq bar.low_price exit.0,
    le-eq exit.0 bar.high_price,
  )

  module _ (bars : List (MarketBar D)) (start : ℤ) (curve : List (EquityPoint D)) (index : ℕ)
      (bar : MarketBar D) (valid : IsValidBar exact bar) (member : Elem bar bars)
      (stop_loss_percent take_profit_percent : Option D) where
    abbrev Mid : Portfolio D × Bool → Type 0
    Mid = IsMid exact bars start curve index bar valid member stop_loss_percent take_profit_percent

    abbrev Sound : Portfolio D → Type 0
    Sound = IsSound exact bars start (suc index) curve

    abbrev opening : List Signal → Portfolio D → Result (Portfolio D × Bool)
    opening = open_phase stop_loss_percent take_profit_percent index bar

    abbrev intraday : Portfolio D × Bool → Result (Portfolio D)
    intraday = intraday_phase stop_loss_percent take_profit_percent index bar

    open_exit-IsMid :
        (pending : List Signal) (p : Portfolio D) (exit : D × ExitReason)
        → Sound p
        → evaluate_opening_risk_exit bar index p ≡ some exit
        → Returns Mid (
            exit_position bar exit.0 exit.1 p >>= λ p'.
            ok (record p' { ignored_signals = p.ignored_signals ++ pending }, true))
    open_exit-IsMid pending p exit s e = elim s.position [
      | inl f ↦ absurd (cc (flat_opening bar index p f))
      | inr f ↦
          let at_open = opening_price bar index p exit e in
          let open_pos : pos 0 <ℤ units bar.open_price =
            omega (arith, valid.low_pos, valid.low-le-open) in
          Returns->>= _
            (λ p' (s', _). returned (record {
              sound =
                  IsSound-same exact bars start curve (suc index) p' _ s' refl refl refl refl refl
                    refl refl refl;
              quiet = λ never. absurd (cc never);
            }))
            (exit_position-IsSound exact bars start curve (suc index) bar exit.0 exit.1 p f member
              (rw at_open valid.low-le-open) (rw at_open valid.open-le-high) (rw at_open open_pos)
              s)
    ]

    open_phase-IsMid :
        (pending : List Signal) (p : Portfolio D) → Sound p → Returns Mid (opening pending p)
    unfolding open_phase
    open_phase-IsMid pending p s = elim (Option-cases (evaluate_opening_risk_exit bar index p)) [
      | inl e ↦
          let does : opening pending p
              ≡ process_signals stop_loss_percent take_profit_percent index bar pending (p, false) =
            ground arith in
          rw does (
            process_signals-IsMid exact bars start curve index bar valid member stop_loss_percent
              take_profit_percent pending (p, false) (record { sound = s; quiet = λ _. e }))
      | inr (exit, e) ↦
          let does : opening pending p ≡ (
              exit_position bar exit.0 exit.1 p >>= λ p'.
              ok (record p' { ignored_signals = p.ignored_signals ++ pending }, true)) =
            rw (e, open_phase) refl in
          rw does (open_exit-IsMid pending p exit s e)
    ]

    intraday_exit-IsSound :
        (p : Portfolio D) (exit : D × ExitReason)
        → Sound p
        → evaluate_opening_risk_exit bar index p ≡ none
        → evaluate_intraday_risk_exit bar index p ≡ some exit
        → Returns Sound (exit_position bar exit.0 exit.1 p)
    intraday_exit-IsSound p exit s quiet e = elim s.position [
      | inl f ↦ absurd (cc (flat_intraday bar index p f))
      | inr f ↦
          let (low, high) = intraday_price bar index p exit valid quiet e in
          let exit_pos : pos 0 <ℤ units exit.0 = omega (arith, valid.low_pos, low) in
          Returns-map (λ q (s', _). s')
            (exit_position-IsSound exact bars start curve (suc index) bar exit.0 exit.1 p f member
              low high exit_pos s)
    ]

    intraday_phase-IsSound :
        (p : Portfolio D) (closed : Bool) → Mid (p, closed) → Returns Sound (intraday (p, closed))
    unfolding intraday_phase
    intraday_phase-IsSound p true m =
        let e : intraday (p, true) ≡ ok p = ground arith in rw e (returned m.sound)
    intraday_phase-IsSound p false m =
        elim (Option-cases (evaluate_intraday_risk_exit bar index p)) [
          | inl e ↦
              let does : intraday (p, false) ≡ ok p = ground arith in rw does (returned m.sound)
          | inr (exit, e) ↦ elim m.sound.position [
            | inl f ↦
                let does : intraday (p, false) ≡ ok p = ground (arith, f.no_shares) in
                rw does (returned m.sound)
            | inr f ↦
                let does : intraday (p, false) ≡ exit_position bar exit.0 exit.1 p =
                  ground (arith, f.shares_eq) in
                rw does (intraday_exit-IsSound p exit m.sound (m.quiet refl) e)
          ]
        ]

    -- Behind a round the portfolio is sound, and the last point of its curve is its value at the
    -- close of the bar.
    abbrev pub RoundEnd : Portfolio D → Type 0
    RoundEnd q = IsSound exact bars start (suc index) (curve ++ (equity_point bar q ∷ [])) q

    mark-RoundEnd : (p : Portfolio D) → Sound p → RoundEnd (mark bar p)
    mark-RoundEnd p s = record {
      cash_nonneg = s.cash_nonneg;
      accounts = s.accounts;
      booked = s.booked;
      curve_kept = ap (λ c. c ++ (equity_point bar p ∷ [])) s.curve_kept;
      position = position-same exact (suc index) p (mark bar p) refl refl refl refl refl s.position;
    }

    opening_state :
        (signals : List Signal) (previous : Option ℕ) (p : Portfolio D)
        → IsSound exact bars start index curve p
        → (previous ≡ none → IsFlat exact p)
        → Returns Mid (elim previous [
          | none ↦ ok (p, false)
          | some timestamp ↦ opening (signals_at_timestamp timestamp signals) p
        ])
    opening_state signals none p s first = returned (record {
      sound = IsSound-later exact bars start curve index (suc index) p (omega arith) s;
      quiet = λ _. flat_opening bar index p (first refl);
    })
    opening_state signals (some timestamp) p s first =
        open_phase-IsMid (signals_at_timestamp timestamp signals) p
          (IsSound-later exact bars start curve index (suc index) p (omega arith) s)

    -- A round does not raise, and keeps the invariant.
    pub run_bar-RoundEnd :
        (signals : List Signal) (previous : Option ℕ) (p : Portfolio D)
        → IsSound exact bars start index curve p
        → (previous ≡ none → IsFlat exact p)
        → Returns RoundEnd
            (run_bar stop_loss_percent take_profit_percent signals index previous bar p)
    unfolding run_bar
    run_bar-RoundEnd signals previous p s first =
        Returns->>= _
          (λ (q, closed) m.
            Returns->>= _ (λ r h. returned (mark-RoundEnd r h)) (intraday_phase-IsSound q closed m))
          (opening_state signals previous p s first)
