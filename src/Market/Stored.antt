-- ===== src/Market/Stored.antt =====
-- What holds of every table that imports have filled: each row is a valid bar, and no two rows have
-- the symbol, the interval and the day in common.
use text.Mathlib.TextEquality.{eq_iff}
use agentic_trading_platform.Prelude.{
  ℕ, ◌≡◌, sym, subst, Bool, true, false, inl, inr, List, [], ◌∷◌, All, All-map, String, Result, ok,
  err, Bool-cases, if_any, arith,
}
use agentic_trading_platform.Decimal.{Decimal, IsExact}
use agentic_trading_platform.Strategy.Reading.{Reading, Numerals}
use agentic_trading_platform.Backtest.Engine.Sound.{IsValidBar}
use agentic_trading_platform.Market.Model.{MarketData, MarketDataRow}
use agentic_trading_platform.Market.Row.{CsvReading}
use agentic_trading_platform.Market.Columns.{Columns, stored_as, are_checked, are_storable}
use agentic_trading_platform.Market.Csv.{CsvFile, ImportSummary}
use agentic_trading_platform.Market.Table.{same_key, upsert, upsert_all}
use agentic_trading_platform.Market.Import.{Database, Arguments, import_market_csv}
use agentic_trading_platform.Market.Import.Outcome.{Imported}
use agentic_trading_platform.Market.Import.Refinement.{import_market_csv-IsRun}

module _ {D : Type 0} where
  -- Not of one key.
  abbrev pub Differs : MarketData D → MarketData D → Type 0
  Differs a b = same_key a b ≡ false

  -- The primary key of the table.
  abbrev pub AreUnique : List (MarketData D) → Type 0
  AreUnique [] = Unit
  AreUnique (stored ∷ rest) = All (Differs stored) rest × AreUnique rest

  Differs-sym : (a b : MarketData D) → Differs a b → Differs b a
  Differs-sym a b h = ground (
    arith,
    h,
    eq_iff a.symbol b.symbol,
    eq_iff b.symbol a.symbol,
    eq_iff a.interval b.interval,
    eq_iff b.interval a.interval,
  )

  Differs-same : (a b c : MarketData D) → same_key a b ≡ true → Differs b c → Differs a c
  Differs-same a b c h k = ground (
    arith,
    h,
    k,
    eq_iff b.symbol a.symbol,
    eq_iff b.interval a.interval,
    eq_iff c.symbol b.symbol,
    eq_iff c.interval b.interval,
    eq_iff c.symbol a.symbol,
    eq_iff c.interval a.interval,
  )

  upsert-All :
      (P : MarketData D → Type 0) (values : MarketData D) (table : List (MarketData D))
      → P values
      → All P table
      → All P (upsert values table)
  unfolding upsert
  upsert-All P values [] p _ = (p, tt)
  upsert-All P values (stored ∷ rest) p (q, qs) =
      if_any (All P) (same_key values stored) (p, qs) (q, upsert-All P values rest p qs)

  upsert-AreUnique :
      (values : MarketData D) (table : List (MarketData D))
      → AreUnique table
      → AreUnique (upsert values table)
  unfolding upsert
  upsert-AreUnique values [] _ = (tt, tt)
  upsert-AreUnique values (stored ∷ rest) (differ, u) = elim (Bool-cases (same_key values stored)) [
    | inl same ↦ rw same (
      All-map (Differs stored) (Differs values) rest
          (λ other h. Differs-same values stored other same h) differ,
      u,
    )
    | inr not_same ↦ rw not_same (
      upsert-All (Differs stored) values rest (Differs-sym values stored not_same) differ,
      upsert-AreUnique values rest u,
    )
  ]

module _ {D : Type 0} {d : Decimal D} (exact : IsExact d) where
  pub record AreStored (table : List (MarketData D)) : Type 0 where
    pub valid : All (λ stored. IsValidBar exact stored.bar) table
    pub unique : AreUnique table

  -- What the session sees and what is committed.
  abbrev pub AreKept : Database D → Type 0
  AreKept db = AreStored db.table × AreStored db.committed

module _ {D : Type 0} ⦃d : Decimal D⦄ ⦃k : Columns D⦄ (exact : IsExact d) where
  open exact use {units-nought, lt-eq, le-eq}

  -- The checks of the table make a bar valid.
  are_checked-IsValidBar :
      (stored : MarketData D) → are_checked stored ≡ true → IsValidBar exact stored.bar
  unfolding are_checked
  are_checked-IsValidBar stored h = record {
    low_pos = ground (arith, h, lt-eq d.nought stored.bar.low_price, units-nought);
    low-le-open = ground (arith, h, le-eq stored.bar.low_price stored.bar.open_price);
    low-le-close = ground (arith, h, le-eq stored.bar.low_price stored.bar.close_price);
    open-le-high = ground (arith, h, le-eq stored.bar.open_price stored.bar.high_price);
    close-le-high = ground (arith, h, le-eq stored.bar.close_price stored.bar.high_price);
  }

  upsert_all-AreStored :
      (symbol interval : String) (rows : List (MarketDataRow D)) (table : List (MarketData D))
      → are_storable symbol interval rows ≡ true
      → AreStored exact table
      → AreStored exact (upsert_all symbol interval rows table)
  unfolding upsert_all are_storable
  upsert_all-AreStored symbol interval [] table _ s = s
  upsert_all-AreStored symbol interval (row ∷ rest) table h s =
      let stored = stored_as row symbol interval in
      upsert_all-AreStored symbol interval rest (upsert stored table) (ground (arith, h)) (record {
        valid =
            upsert-All (λ other. IsValidBar exact other.bar) stored table
              (are_checked-IsValidBar stored (ground (arith, h))) s.valid;
        unique = upsert-AreUnique stored table s.unique;
      })

module _ {D : Type 0} ⦃d : Decimal D⦄ ⦃r : Reading⦄ ⦃n : Numerals D⦄ ⦃c : CsvReading⦄
    ⦃k : Columns D⦄ (exact : IsExact d) (fails : ℕ → Bool) where
  Imported-AreKept :
      (a : Arguments) (rows : List (MarketDataRow D)) (first : ImportSummary) (db : Database D)
      (o : Database D × Result ImportSummary)
      → AreKept exact db
      → Imported a rows db first o
      → AreKept exact o.0
  Imported-AreKept a rows first db (after, ok last) (t, c) (w, kept, _) =
      let written : AreStored exact after.table =
        subst (AreStored exact) (sym w.table_eq)
          (upsert_all-AreStored exact a.symbol a.interval rows db.table w.storable t) in
      (
        written,
        subst (AreStored exact) (sym kept) (if_any (AreStored exact) a.in_transaction c written),
      )
  Imported-AreKept a rows first db (after, err e) (t, c) (back, whole) =
      let committed : AreStored exact after.committed = elim whole [
        | inl none ↦ subst (AreStored exact) (sym none) c
        | inr all ↦
            subst (AreStored exact) (sym all.0)
              (upsert_all-AreStored exact a.symbol a.interval rows db.table all.1 t)
      ] in
      (subst (AreStored exact) (sym back) committed, committed)

  -- Whatever the file, the arguments and the failures of the database, an import keeps the invariant of
  -- the table, in the session and as committed: if all stored rows are valid bars and no two have
  -- symbol, interval and timestamp in common, then so it is behind the import.
  pub import_market_csv-AreKept :
      (a : Arguments) (file : CsvFile) (db : Database D)
      → AreKept exact db
      → AreKept exact (import_market_csv fails a file db).0
  import_market_csv-AreKept a file db kept = elim (import_market_csv-IsRun exact fails a file db) [
    | inl (e, q) ↦ rw q kept
    | inr (parsed, q, i) ↦
        Imported-AreKept a parsed.0 parsed.1 db (import_market_csv fails a file db) kept i
  ]
