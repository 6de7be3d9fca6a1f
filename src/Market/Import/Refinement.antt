-- ===== src/Market/Import/Refinement.antt =====
-- The import of a file as a whole: one change of the table as a map, made fully or not at all.
use agentic_trading_platform.Prelude.{
  ℕ, ◌+◌, ◌<◌, ◌≡◌, refl, ap, ◌∙◌, subst, Bool, ◌⊎◌, inl, inr, Option, List, length, String, Error,
  Result, ok, err, arith,
}
use agentic_trading_platform.Prelude.Int.{pos_part}
use agentic_trading_platform.Decimal.{Decimal, IsExact}
use agentic_trading_platform.Strategy.Reading.{Reading, Numerals}
use agentic_trading_platform.Market.Model.{MarketData, MarketDataRow}
use agentic_trading_platform.Market.Row.{CsvReading}
use agentic_trading_platform.Market.Columns.{Columns}
use agentic_trading_platform.Market.Csv.{CsvFile, ImportSummary, skipped_count, parse_market_csv}
use agentic_trading_platform.Market.Accepted.{parse_market_csv_ok-AreRead}
use agentic_trading_platform.Market.Table.View.{lookup, overwritten, lookup-upsert_all}
use agentic_trading_platform.Market.Import.{Database, Arguments, check_arguments, import_market_csv}
use agentic_trading_platform.Market.Import.Outcome.{IsSummary, Imported, import_rows-Imported}

-- The table that a session sees, as a map.
abbrev pub view : {D : Type 0} → Database D → String → String → ℕ → Option (MarketData D)
view db s i t = lookup s i t db.table

check_arguments-size :
    ⦃c : CsvReading⦄ (a : Arguments) → check_arguments a ≡ ok tt → 0 < pos_part a.batch_size
unfolding check_arguments
check_arguments-size a h = ground arith

module _ {D : Type 0} ⦃d : Decimal D⦄ ⦃r : Reading⦄ ⦃n : Numerals D⦄ ⦃c : CsvReading⦄
    ⦃k : Columns D⦄ (exact : IsExact d) (fails : ℕ → Bool) where
  -- The arguments or the file were refused, and the database was not touched, or the rows of the file
  -- were imported from it.
  abbrev pub IsRun : Arguments → CsvFile → Database D → Database D × Result ImportSummary → Type 0
  IsRun a file db o =
      ((e : Error) × (o ≡ (db, err e)))
      ⊎ ((parsed : List (MarketDataRow D) × ImportSummary) × (parse_market_csv file ≡ ok parsed)
          × Imported a parsed.0 db parsed.1 o)

  run :
      (a : Arguments) (file : CsvFile) (db : Database D) (check : Result (Unit {0}))
      (read : Result (List (MarketDataRow D) × ImportSummary))
      → check_arguments a ≡ check
      → parse_market_csv file ≡ read
      → IsRun a file db (import_market_csv fails a file db)
  unfolding import_market_csv
  run a file db (err e) read p q = inl (e, rw p refl)
  run a file db (ok tt) (err e) p q = inl (e, rw (p, q) refl)
  run a file db (ok tt) (ok parsed) p q = inr (
    parsed,
    q,
    rw (p, q)
        (import_rows-Imported fails a parsed.0 parsed.1 db (check_arguments-size a p)
          (parse_market_csv_ok-AreRead exact file parsed q).distinct),
  )

  -- Whichever statements of the database fail, an import either is refused and leaves the database
  -- as it was, or it reads the file and its one transaction is whole: without an exception all rows are
  -- written, and committed unless the caller's transaction goes on; with one the session is back at
  -- what is committed, which has all of the rows or none.
  pub import_market_csv-IsRun :
      (a : Arguments) (file : CsvFile) (db : Database D)
      → IsRun a file db (import_market_csv fails a file db)
  import_market_csv-IsRun a file db =
      run a file db (check_arguments a) (parse_market_csv file) refl refl

  -- An import that returned.
  returned_from :
      (a : Arguments) (file : CsvFile) (db after : Database D) (summary : ImportSummary)
      → import_market_csv fails a file db ≡ (after, ok summary)
      → (parsed : List (MarketDataRow D) × ImportSummary) × (parse_market_csv file ≡ ok parsed)
        × Imported a parsed.0 db parsed.1 (after, ok summary)
  returned_from a file db after summary h = elim (import_market_csv-IsRun a file db) [
    | inl (e, q) ↦ absurd (cc (h, q))
    | inr (parsed, q, i) ↦ (parsed, q, subst (Imported a parsed.0 db parsed.1) h i)
  ]

  -- The import refines one change of a map: at every key, what an import that returned has stored is
  -- the row of that day in the file as its columns hold it, which is with each price as PostgreSQL
  -- converts it to `Numeric(18, 8)`, if there is such a row and the symbol and the interval are those
  -- of the import, and what was there before otherwise.
  pub import_market_csv-overwritten :
      (a : Arguments) (file : CsvFile) (db after : Database D) (summary : ImportSummary)
      → import_market_csv fails a file db ≡ (after, ok summary)
      → (parsed : List (MarketDataRow D) × ImportSummary) × (parse_market_csv file ≡ ok parsed)
        × ((s i : String) (t : ℕ)
            → view after s i t ≡ overwritten a.symbol a.interval parsed.0 (view db) s i t)
  import_market_csv-overwritten a file db after summary h =
      let (parsed, q, i) = returned_from a file db after summary h in
      let w = i.0 in
      (
        parsed,
        q,
        λ s i t.
            ap (lookup s i t) w.table_eq
            ∙ lookup-upsert_all s i t a.symbol a.interval parsed.0 db.table,
      )

  pub record AreCounted (a : Arguments) (file : CsvFile) (db after : Database D)
      (summary : ImportSummary) : Type 0 where
    pub lines : summary.total_csv_rows ≡ length file.rows
    pub each_counted :
        summary.inserted_rows + summary.updated_rows + skipped_count summary ≡ length file.rows
    pub growth : length after.table ≡ length db.table + summary.inserted_rows
    pub stored : IsSummary a.symbol a.interval after.table summary

  -- The summary of an import that returned: each line of the file is inserted, updated or skipped, the
  -- table has grown by the inserted ones, and the last three figures are those of the stored rows.
  pub import_market_csv-AreCounted :
      (a : Arguments) (file : CsvFile) (db after : Database D) (summary : ImportSummary)
      → import_market_csv fails a file db ≡ (after, ok summary)
      → AreCounted a file db after summary
  import_market_csv-AreCounted a file db after summary h =
      let (parsed, q, i) = returned_from a file db after summary h in
      let w = i.0 in
      let read = parse_market_csv_ok-AreRead exact file parsed q in
      let skipped = ap (λ l. length l) w.rest_eq.1 in
      record {
        lines = w.rest_eq.0 ∙ read.total;
        each_counted = omega (
          arith, w.both_counted, read.all_counted, read.unimported.0, read.unimported.1, skipped,
        );
        growth = omega (arith, w.growth, read.unimported.0);
        stored = i.2;
      }
