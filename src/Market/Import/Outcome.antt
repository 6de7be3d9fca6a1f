-- ===== src/Market/Import/Outcome.antt =====
-- What an import has done to the database, whatever statement fails.
use agentic_trading_platform.Prelude.{
  ℕ, ◌<◌, ◌≡◌, refl, sym, ap, ◌∙◌, subst, Bool, true, ◌⊎◌, inl, inr, Option, List, length, String,
  Result, ok, err, Bool-cases, if_any, if◌then◌else◌,
}
use agentic_trading_platform.Prelude.Int.{pos_part}
use agentic_trading_platform.Market.Model.{MarketData, MarketDataRow}
use agentic_trading_platform.Decimal.{Decimal}
use agentic_trading_platform.Market.Columns.{Columns, are_storable}
use agentic_trading_platform.Market.Csv.{ImportSummary}
use agentic_trading_platform.Market.Table.{
  minimum, maximum, stored_timestamps, upsert_all, timestamps_of,
}
use agentic_trading_platform.Market.Distinct.{Distinct}
use agentic_trading_platform.Market.Batches.{batched-Cuts}
use agentic_trading_platform.Market.Import.{
  Database, Arguments, pass, ◌>>=◌, lift, rescued, rolled_back, counted, broken, select, batched,
  import_batches, finish, within_transaction, with_stored, summarize, import_rows,
}
use agentic_trading_platform.Market.Import.Steps.{IsWritten, Ends, select-any, import_batches-Ends}

module _ {D : Type 0} ⦃d : Decimal D⦄ ⦃k : Columns D⦄ where
  -- The summary tells what is stored of the symbol and the interval.
  pub record IsSummary (symbol interval : String) (table : List (MarketData D))
      (summary : ImportSummary) : Type 0 where
    pub earliest :
        summary.earliest_stored_timestamp ≡ minimum (stored_timestamps symbol interval table)
    pub latest : summary.latest_stored_timestamp ≡ maximum (stored_timestamps symbol interval table)
    pub total : summary.total_symbol_rows ≡ length (stored_timestamps symbol interval table)

  module _ (a : Arguments) (rows : List (MarketDataRow D)) (before : Database D)
      (first : ImportSummary) where
    abbrev IsKept : Database D → Type 0
    IsKept after = after.committed ≡ (if a.in_transaction then before.committed else after.table)

    -- Nothing of the rows is committed, or all.
    abbrev IsWhole : Database D → Type 0
    IsWhole after =
        (after.committed ≡ before.committed)
        ⊎ ((after.committed ≡ upsert_all a.symbol a.interval rows before.table)
            × (are_storable a.symbol a.interval rows ≡ true))

    abbrev Finished : Database D × Result ImportSummary → Type 0
    Finished (after, ok last) =
        IsWritten a.symbol a.interval rows before.table after.table first last × IsKept after
    Finished (after, err e) = after.committed ≡ before.committed

    abbrev Summarized : Database D × Result ImportSummary → Type 0
    Summarized (after, ok last) =
        IsWritten a.symbol a.interval rows before.table after.table first last
        × IsKept after
        × IsSummary a.symbol a.interval after.table last
    Summarized (after, err e) = IsWhole after

    -- The outcome of an import: its rows are written and counted, or the session is back at what is
    -- committed, and that is with all of the rows or without any.
    abbrev pub Imported : Database D × Result ImportSummary → Type 0
    Imported (after, ok last) =
        IsWritten a.symbol a.interval rows before.table after.table first last
        × IsKept after
        × IsSummary a.symbol a.interval after.table last
    Imported (after, err e) = (after.table ≡ after.committed) × IsWhole after

    rescued-Imported : (o : Database D × Result ImportSummary) → Summarized o → Imported (rescued o)
    rescued-Imported (after, ok last) w = w
    rescued-Imported (after, err e) w = (refl, w)

    IsKept-IsWhole :
        (after : Database D)
        → after.table ≡ upsert_all a.symbol a.interval rows before.table
        → are_storable a.symbol a.interval rows ≡ true
        → IsKept after
        → IsWhole after
    IsKept-IsWhole after t storable k = elim (Bool-cases a.in_transaction) [
      | inl p ↦ inl (k ∙ ap (λ b. if b then before.committed else after.table) p)
      | inr p ↦ inr (k ∙ ap (λ b. if b then before.committed else after.table) p ∙ t, storable)
    ]

    module _ (fails : ℕ → Bool) where
      finish-Finished :
          (o : Database D × Result ImportSummary)
          → Ends a.symbol a.interval rows before first o
          → Finished (finish fails a.in_transaction before.table o)
      unfolding finish
      finish-Finished (after, err e) w = w
      finish-Finished (after, ok last) (w, c) =
          if_any Finished (fails after.statements)
            {x = (rolled_back before.table (counted after), err broken)} c
            (elim (Bool-cases a.in_transaction) [ inl p ↦ rw p (w, c) | inr p ↦ rw p (w, refl) ])

      summarize-Summarized :
          (o : Database D × Result ImportSummary)
          → Finished o
          → Summarized (pass (summarize fails a.symbol a.interval) o)
      unfolding summarize
      summarize-Summarized (after, err e) w = inl w
      summarize-Summarized (after, ok last) (w, k) =
          let whole = IsKept-IsWhole after w.table_eq w.storable k in
          let stored = stored_timestamps {D = D} a.symbol a.interval in
          let one = counted after in
          let two = counted one in
          let count = λ (earliest latest : Option ℕ).
            select fails (λ table. length (stored table)) >>= λ total.
            lift (ok (with_stored earliest latest total last)) in
          let last_two = λ (earliest : Option ℕ).
            select fails (λ table. maximum (stored table)) >>= λ latest. count earliest latest in
          let first_two = minimum (stored after.table) in
          let next = maximum (stored after.table) in
          select-any fails Summarized (λ table. minimum (stored table)) last_two after whole
            (select-any fails Summarized (λ table. maximum (stored table)) (count first_two) one
              whole
              (select-any fails Summarized (λ table. length (stored table))
                (λ total. lift (ok (with_stored first_two next total last))) two whole
                (
                  record {
                    table_eq = w.table_eq;
                    storable = w.storable;
                    both_counted = w.both_counted;
                    growth = w.growth;
                    rest_eq = w.rest_eq;
                  },
                  k,
                  record { earliest = refl; latest = refl; total = refl },
                )))

  pub import_rows-Imported :
      (fails : ℕ → Bool) (a : Arguments) (rows : List (MarketDataRow D)) (first : ImportSummary)
      (db : Database D)
      → 0 < pos_part a.batch_size
      → Distinct (timestamps_of rows)
      → Imported a rows db first (import_rows fails a rows first db)
  unfolding import_rows within_transaction
  import_rows-Imported fails a rows first db h d =
      let size = pos_part a.batch_size in
      let same = (batched-Cuts rows size h).0 in
      let batches = import_batches fails a.symbol a.interval (batched rows size) first db in
      let done =
        subst (λ l. Ends a.symbol a.interval l db first batches) same
          (import_batches-Ends fails a.symbol a.interval (batched rows size) first db
            (subst (λ l. Distinct (timestamps_of l)) (sym same) d)) in
      rescued-Imported a rows db first _ (
        summarize-Summarized a rows db first fails (finish fails a.in_transaction db.table batches)
          (finish-Finished a rows db first fails batches done))
