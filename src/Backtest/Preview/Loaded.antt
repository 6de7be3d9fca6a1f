-- ===== src/Backtest/Preview/Loaded.antt =====
-- Bars that are loaded from a table that imports have filled can be traded on.
use text.Mathlib.TextEquality.{eq_iff}
use agentic_trading_platform.Prelude.{
  ◌<◌, ◌≡◌, ◌≢◌, refl, inl, inr, Option, none, some, List, [], ◌∷◌, All, All-map, String, str_eq,
  leb, ok, Bool-cases, if_any, arith, ◌&&◌, >>-eq-ok,
}
use agentic_trading_platform.Prelude.Int.{pos, ◌<ℤ◌}
use agentic_trading_platform.Decimal.{Decimal, IsExact}
use agentic_trading_platform.Strategy.Spec.{StrategySpecification}
use agentic_trading_platform.Strategy.Semantics.{validate_strategy_semantics}
use agentic_trading_platform.Strategy.Semantics.Supported.{
  IsSupportedPercent, validate_strategy_semantics_iff,
}
use agentic_trading_platform.Backtest.Models.{MarketBar, Signal, ExecutionResult}
use agentic_trading_platform.Backtest.Compiler.{
  CompiledStrategy, compile_strategy, generate_signals,
}
use agentic_trading_platform.Backtest.Compiler.Total.{compile_strategy-generate_signals_total}
use agentic_trading_platform.Backtest.Engine.Risk.{validate_risk_control}
use agentic_trading_platform.Backtest.Engine.Run.{execute_long_only_signals}
use agentic_trading_platform.Backtest.Engine.Sound.{IsValidBar}
use agentic_trading_platform.Backtest.Engine.Sound.Settled.{
  IsSettled, execute_long_only_signals-IsSettled,
}
use agentic_trading_platform.Market.Model.{MarketData}
use agentic_trading_platform.Market.Stored.{Differs, AreUnique, AreStored}
use agentic_trading_platform.Backtest.Preview.{insert_bar, load_market_bars, starting_cash}

module _ {D : Type 0} where
  -- Strictly ascending timestamps.
  abbrev pub AreRising : List (MarketBar D) → Type 0
  AreRising [] = Unit
  AreRising (bar ∷ bars) = All (λ other. bar.timestamp < other.timestamp) bars × AreRising bars

  insert_bar-All :
      (P : MarketBar D → Type 0) (bar : MarketBar D) (bars : List (MarketBar D))
      → P bar
      → All P bars
      → All P (insert_bar bar bars)
  unfolding insert_bar
  insert_bar-All P bar [] p _ = (p, tt)
  insert_bar-All P bar (other ∷ bars) p (q, qs) =
      if_any (All P) (leb bar.timestamp other.timestamp) (p, (q, qs))
        (q, insert_bar-All P bar bars p qs)

  insert_bar-AreRising :
      (bar : MarketBar D) (bars : List (MarketBar D))
      → All (λ other. bar.timestamp ≢ other.timestamp) bars
      → AreRising bars
      → AreRising (insert_bar bar bars)
  unfolding insert_bar
  insert_bar-AreRising bar [] _ _ = (tt, tt)
  insert_bar-AreRising bar (other ∷ bars) (apart, all_apart) (above, r) =
      elim (Bool-cases (leb bar.timestamp other.timestamp)) [
        | inl b ↦
            let first : bar.timestamp < other.timestamp = ground (arith, apart) in
            rw b (
              (
                first,
                All-map (λ o. other.timestamp < o.timestamp) (λ o. bar.timestamp < o.timestamp) bars
                    (λ o h. omega (arith, first, h)) above,
              ),
              (above, r),
            )
        | inr b ↦ rw b (
          insert_bar-All (λ o. other.timestamp < o.timestamp) bar bars (ground arith) above,
          insert_bar-AreRising bar bars all_apart r,
        )
      ]

  load_market_bars-All :
      (P : MarketBar D → Type 0) (rows : List (MarketData D)) (symbol interval : String)
      → All (λ row. (row.symbol ≡ symbol) → (row.interval ≡ interval) → P row.bar) rows
      → All P (load_market_bars rows symbol interval)
  unfolding load_market_bars
  load_market_bars-All P [] symbol interval _ = tt
  load_market_bars-All P (row ∷ rows) symbol interval (p, ps) =
      elim (Bool-cases (str_eq row.symbol symbol && str_eq row.interval interval)) [
        | inl b ↦ rw b (
            insert_bar-All P row.bar (load_market_bars rows symbol interval)
              (p (ground (arith, eq_iff row.symbol symbol))
                (ground (arith, eq_iff row.interval interval)))
              (load_market_bars-All P rows symbol interval ps))
        | inr b ↦ rw b (load_market_bars-All P rows symbol interval ps)
      ]

  apart :
      (a b : MarketData D) (symbol interval : String)
      → a.symbol ≡ symbol
      → a.interval ≡ interval
      → Differs a b
      → b.symbol ≡ symbol
      → b.interval ≡ interval
      → a.bar.timestamp ≢ b.bar.timestamp
  apart a b symbol interval p q h s t e =
      ground (arith, eq_iff b.symbol a.symbol, eq_iff b.interval a.interval, h, p, q, s, t, e)

  load_market_bars-AreRising :
      (rows : List (MarketData D)) (symbol interval : String)
      → AreUnique rows
      → AreRising (load_market_bars rows symbol interval)
  unfolding load_market_bars
  load_market_bars-AreRising [] symbol interval _ = tt
  load_market_bars-AreRising (row ∷ rows) symbol interval (differ, u) =
      elim (Bool-cases (str_eq row.symbol symbol && str_eq row.interval interval)) [
        | inl b ↦
            let s : row.symbol ≡ symbol = ground (arith, eq_iff row.symbol symbol) in
            let i : row.interval ≡ interval = ground (arith, eq_iff row.interval interval) in
            rw b (
              insert_bar-AreRising row.bar (load_market_bars rows symbol interval)
                (load_market_bars-All (λ o. row.bar.timestamp ≢ o.timestamp) rows symbol interval
                  (All-map (Differs row) _ rows (λ other h. apart row other symbol interval s i h)
                    differ))
                (load_market_bars-AreRising rows symbol interval u))
        | inr b ↦ rw b (load_market_bars-AreRising rows symbol interval u)
      ]

module _ {D : Type 0} ⦃d : Decimal D⦄ where
  validate_risk_control-ok :
      (percent : Option D) (field_name : String)
      → IsSupportedPercent percent
      → validate_risk_control percent field_name ≡ ok tt
  unfolding validate_risk_control
  validate_risk_control-ok none field_name _ = refl
  validate_risk_control-ok (some value) field_name h = ground (arith, h.0, h.1)

module _ {D : Type 0} ⦃d : Decimal D⦄ (exact : IsExact d) where
  open exact use {units}

  -- What a compiled strategy makes of some bars.
  pub record IsTraded (specification : StrategySpecification D) (compiled : CompiledStrategy D)
      (bars : List (MarketBar D)) : Type 0 where
    pub rising : AreRising bars
    pub signals : List Signal
    pub generated : generate_signals compiled bars ≡ ok signals
    pub result : ExecutionResult D
    pub executed :
        execute_long_only_signals bars signals starting_cash specification.stop_loss_percent
          specification.take_profit_percent
        ≡ ok result
    pub settled : IsSettled exact bars starting_cash result

  -- A strategy that compiles can be run on every table that imports have filled: the bars of its symbol
  -- and interval come in strictly ascending order of time, and if there is one, then with exact
  -- arithmetic and positive starting cash neither the signals nor the execution of a preview raise,
  -- and the result accounts for all the money.
  pub load_market_bars-IsTraded :
      (table : List (MarketData D)) (specification : StrategySpecification D)
      (compiled : CompiledStrategy D)
      → AreStored exact table
      → compile_strategy specification ≡ ok compiled
      → pos 0 <ℤ units starting_cash
      → load_market_bars table specification.symbol specification.interval ≢ []
      → IsTraded specification compiled
          (load_market_bars table specification.symbol specification.interval)
  unfolding compile_strategy
  load_market_bars-IsTraded table specification compiled stored h cash some_bar =
      let bars = load_market_bars table specification.symbol specification.interval in
      let (valid, _) = >>-eq-ok (validate_strategy_semantics specification) _ h in
      let good = (validate_strategy_semantics_iff specification).0 valid in
      let (signals, generated) =
        compile_strategy-generate_signals_total specification compiled bars h in
      let all_valid : All (IsValidBar exact) bars =
        load_market_bars-All (IsValidBar exact) table specification.symbol specification.interval
          (All-map (λ row. IsValidBar exact row.bar) _ table (λ row v _ _. v) stored.valid) in
      let (result, executed, settled) =
        execute_long_only_signals-IsSettled exact bars signals starting_cash
          specification.stop_loss_percent specification.take_profit_percent some_bar all_valid cash
          (validate_risk_control-ok specification.stop_loss_percent _ good.stop_supported)
          (validate_risk_control-ok specification.take_profit_percent _ good.take_supported) in
      record {
        rising =
            load_market_bars-AreRising table specification.symbol specification.interval
              stored.unique;
        signals = signals;
        generated = generated;
        result = result;
        executed = executed;
        settled = settled;
      }
