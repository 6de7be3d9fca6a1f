-- ===== src/Market/Import/Steps.antt =====
-- What the batches of an import that is not broken off do, one after the other.
use mathlib.Core.List.{map-append}
use agentic_trading_platform.Prelude.{
  ℕ, suc, ◌+◌, ◌≤◌, ◌≡◌, refl, sym, ap, ◌∙◌, subst, Bool, true, inl, inr, Bool-cases, List, [], ◌∷◌,
  ◌++◌, length, length-append, String, Result, ok, err, arith, if_any,
}
use agentic_trading_platform.Market.Model.{MarketData, MarketDataRow}
use agentic_trading_platform.Market.Columns.{Columns, stored_as, are_storable}
use agentic_trading_platform.Decimal.{Decimal}
use agentic_trading_platform.Market.Csv.{ImportSummary}
use agentic_trading_platform.Market.Table.{
  to_set, stored_timestamps, existing_timestamp_query, upsert, upsert_all, timestamps_of,
  has_repeated,
}
use agentic_trading_platform.Market.Table.Growth.{
  length-existing, length-among_le, length-upsert_all,
}
use agentic_trading_platform.Market.Distinct.{Distinct, Distinct-parts}
use agentic_trading_platform.Market.Batches.{concat}
use agentic_trading_platform.Market.Import.{
  Database, Query, pass, ◌>>◌, counted, broken, select, execute_upsert, add_counts, import_batches,
}

module _ {D : Type 0} ⦃d : Decimal D⦄ ⦃k : Columns D⦄ where
  upsert_all-nil :
      (symbol interval : String) (table : List (MarketData D))
      → table ≡ upsert_all symbol interval [] table
  unfolding upsert_all
  upsert_all-nil symbol interval table = refl

  pub upsert_all-append :
      (symbol interval : String) (xs ys : List (MarketDataRow D)) (table : List (MarketData D))
      → upsert_all symbol interval (xs ++ ys) table
        ≡ upsert_all symbol interval ys (upsert_all symbol interval xs table)
  unfolding upsert_all
  upsert_all-append symbol interval [] ys table = refl
  upsert_all-append symbol interval (x ∷ xs) ys table =
      upsert_all-append symbol interval xs ys (upsert (stored_as x symbol interval) table)

  are_storable-append :
      (symbol interval : String) (xs ys : List (MarketDataRow D))
      → are_storable symbol interval xs ≡ true
      → are_storable symbol interval ys ≡ true
      → are_storable symbol interval (xs ++ ys) ≡ true
  unfolding are_storable
  are_storable-append symbol interval [] ys h k = k
  are_storable-append symbol interval (x ∷ xs) ys h k =
      ground (arith, h, are_storable-append symbol interval xs ys (ground (arith, h)) k)

  -- From one state to another the rows were written, and counted in the summary.
  pub record IsWritten (symbol interval : String) (rows : List (MarketDataRow D))
      (before after : List (MarketData D)) (first last : ImportSummary) : Type 0 where
    pub table_eq : after ≡ upsert_all symbol interval rows before
    pub storable : are_storable symbol interval rows ≡ true
    pub both_counted :
        last.inserted_rows + last.updated_rows
        ≡ first.inserted_rows + first.updated_rows + length rows
    pub growth : length after + first.inserted_rows ≡ length before + last.inserted_rows
    pub rest_eq :
        (last.total_csv_rows ≡ first.total_csv_rows) × (last.skipped_rows ≡ first.skipped_rows)

  -- What an outcome of the batches is: with an exception nothing is committed.
  abbrev pub Ends :
      String
      → String
      → List (MarketDataRow D)
      → Database D
      → ImportSummary
      → Database D × Result ImportSummary
      → Type 0
  Ends symbol interval rows before first (after, ok last) =
      IsWritten symbol interval rows before.table after.table first last
      × (after.committed ≡ before.committed)
  Ends symbol interval rows before first (after, err e) = after.committed ≡ before.committed

  length-timestamps_of : (rows : List (MarketDataRow D)) → length (timestamps_of rows) ≡ length rows
  length-timestamps_of [] = refl
  length-timestamps_of (row ∷ rest) = ap suc (length-timestamps_of rest)

  -- How many days of a batch the query finds.
  abbrev existing_in : String → String → List (MarketDataRow D) → List (MarketData D) → ℕ
  existing_in symbol interval batch table =
      length (to_set (existing_timestamp_query symbol interval (timestamps_of batch) table))

  existing_in_exact :
      (symbol interval : String) (batch : List (MarketDataRow D)) (table : List (MarketData D))
      → Distinct (timestamps_of batch)
      → (existing_in symbol interval batch table ≤ length batch)
        × (length (upsert_all symbol interval batch table) + existing_in symbol interval batch table
            ≡ length table + length batch)
  unfolding existing_timestamp_query
  existing_in_exact symbol interval batch table d =
      let stored = stored_timestamps symbol interval table in
      let same = length-existing (timestamps_of batch) stored d in
      let growth = length-upsert_all symbol interval batch table d in
      let bound = length-among_le stored (timestamps_of batch) in
      let size = length-timestamps_of batch in
      (omega (arith, same, bound, size), omega (arith, same, growth))

  abbrev upserted : String → String → List (MarketDataRow D) → Database D → Database D
  upserted symbol interval batch db = record (counted (counted db)) {
    table = upsert_all symbol interval batch db.table;
  }

  -- The batch in front of others.
  Ends-batch :
      (symbol interval : String) (batch rest : List (MarketDataRow D)) (db : Database D)
      (summary : ImportSummary) (o : Database D × Result ImportSummary)
      → Distinct (timestamps_of batch)
      → are_storable symbol interval batch ≡ true
      → Ends symbol interval rest
          (upserted symbol interval batch db)
          (add_counts (existing_in symbol interval batch db.table) (length batch) summary)
          o
      → Ends symbol interval (batch ++ rest) db summary o
  Ends-batch symbol interval batch rest db summary (after, err e) d b w = w
  Ends-batch symbol interval batch rest db summary (after, ok last) d b (w, c) =
      let (bound, growth) = existing_in_exact symbol interval batch db.table d in
      (
        record {
          table_eq = w.table_eq ∙ sym (upsert_all-append symbol interval batch rest db.table);
          storable = are_storable-append symbol interval batch rest b w.storable;
          both_counted = omega (arith, w.both_counted, bound, length-append batch rest);
          growth = omega (arith, w.growth, bound, growth);
          rest_eq = w.rest_eq;
        },
        c,
      )

  module _ (fails : ℕ → Bool) where
    -- A statement fails, or the rest of the block goes on from it.
    pub select-any :
        {A B : Type 0}
        → (P : Database D × Result B → Type 0) (read : List (MarketData D) → A)
          (rest : A → Query D B) (db : Database D)
        → P (counted db, err broken)
        → P (rest (read db.table) (counted db))
        → P (pass rest (select fails read db))
    unfolding select
    select-any {A} P read rest db p q =
        if_any {A = Database D × Result A} (λ o. P (pass rest o)) (fails db.statements)
          {x = (counted db, err broken)} {y = (counted db, ok (read db.table))} p q

    pub upsert-any :
        {B : Type 0}
        → (P : Database D × Result B → Type 0) (symbol interval : String)
          (batch : List (MarketDataRow D)) (rest : Unit {0} → Query D B) (db : Database D)
        → P (counted db, err broken)
        → (are_storable symbol interval batch ≡ true
            → P (
                rest tt
                  (record (counted db) { table = upsert_all symbol interval batch db.table })))
        → P (pass rest (execute_upsert fails symbol interval batch db))
    unfolding execute_upsert
    upsert-any P symbol interval batch rest db p q =
        if_any {A = Database D × Result (Unit {0})} (λ o. P (pass rest o)) (fails db.statements)
          {x = (counted db, err broken)} p
          (if_any {A = Database D × Result (Unit {0})} (λ o. P (pass rest o))
            (has_repeated (timestamps_of batch)) {x = (counted db, err broken)} p
            (elim (Bool-cases (are_storable symbol interval batch)) [
              | inl b ↦ rw b (q b)
              | inr b ↦ rw b p
            ]))

    pub import_batches-Ends :
        (symbol interval : String) (batches : List (List (MarketDataRow D)))
        (summary : ImportSummary) (db : Database D)
        → Distinct (timestamps_of (concat batches))
        → Ends symbol interval
            (concat batches)
            db
            summary
            (import_batches fails symbol interval batches summary db)
    unfolding import_batches are_storable
    import_batches-Ends symbol interval [] summary db d = (
      record {
        table_eq = upsert_all-nil symbol interval db.table;
        storable = refl;
        both_counted = omega arith;
        growth = refl;
        rest_eq = (refl, refl);
      },
      refl,
    )
    import_batches-Ends symbol interval (batch ∷ rest) summary db d =
        let days : timestamps_of (batch ++ concat rest)
            ≡ timestamps_of batch ++ timestamps_of (concat rest) =
          map-append _ batch (concat rest) in
        let parts =
          Distinct-parts (timestamps_of batch) (timestamps_of (concat rest))
            (subst Distinct days d) in
        let next = add_counts (existing_in symbol interval batch db.table) (length batch) summary in
        select-any (Ends symbol interval (batch ++ concat rest) db summary) _
          (λ existing.
            execute_upsert fails symbol interval batch
            >> import_batches fails symbol interval rest
                (add_counts (length existing) (length batch) summary))
          db refl
          (upsert-any (Ends symbol interval (batch ++ concat rest) db summary) symbol interval batch
            (λ _. import_batches fails symbol interval rest next) (counted db) refl
            (λ b.
              Ends-batch symbol interval batch (concat rest) db summary
                (import_batches fails symbol interval rest next (upserted symbol interval batch db))
                parts.0 b
                (import_batches-Ends symbol interval rest next (upserted symbol interval batch db)
                  parts.1)))
