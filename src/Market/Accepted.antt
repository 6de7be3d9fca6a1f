-- ===== src/Market/Accepted.antt =====
-- Which rows of a file are imported.
use mathlib.Core.List.{map-append}
use agentic_trading_platform.Prelude.{
  ℕ, suc, ◌+◌, ◌≤◌, ◌≡◌, refl, sym, ap, ◌∙◌, false, inl, inr, List, [], ◌∷◌, ◌++◌, length,
  length-append, All, All-append, arith, String, Bool-cases, subst, Result, ok, err, Checked,
  passes, refuses, Returns, returned, Returns->>=, Returns-ok, >>-eq-ok,
}
use agentic_trading_platform.Decimal.{Decimal, IsExact}
use agentic_trading_platform.Strategy.Reading.{Reading, Numerals}
use agentic_trading_platform.Backtest.Engine.Sound.{IsValidBar}
use agentic_trading_platform.Market.Model.{MarketDataRow, bar_of}
use agentic_trading_platform.Market.Row.{CsvReading, RawRow, parse_market_row}
use agentic_trading_platform.Market.Csv.{
  CsvFile, SkippedRow, ImportSummary, skipped_count, Reader, counted_line, skip_row, add_row,
  was_seen, take_row, take_rows, missing_columns, check_columns, headers_of, required_columns,
  parse_market_csv,
}
use agentic_trading_platform.Market.Table.{timestamps_of}
use agentic_trading_platform.Market.Distinct.{Distinct, Distinct-append, was_seen-append}
use agentic_trading_platform.Market.Valid.{parse_market_row-Checked}

-- The numbers of skipped rows are ascending, from `low` and below `high`.
abbrev pub Ascends : ℕ → List SkippedRow → ℕ → Type 0
Ascends low [] high = low ≤ high
Ascends low (row ∷ rest) high = (low ≤ row.row_number) × Ascends (suc row.row_number) rest high

Ascends-later :
    (low : ℕ) (rows : List SkippedRow) (high : ℕ)
    → Ascends low rows high
    → Ascends low rows (suc high)
Ascends-later low [] high h = omega (arith, h)
Ascends-later low (row ∷ rest) high (p, h) = (p, Ascends-later (suc row.row_number) rest high h)

Ascends-append :
    (low : ℕ) (rows : List SkippedRow) (row : SkippedRow)
    → Ascends low rows row.row_number
    → Ascends low (rows ++ (row ∷ [])) (suc row.row_number)
Ascends-append low [] row h = (h, omega arith)
Ascends-append low (other ∷ rest) row (p, h) = (p, Ascends-append (suc other.row_number) rest row h)

module _ {D : Type 0} ⦃d : Decimal D⦄ (exact : IsExact d) where
  abbrev pub IsBar : MarketDataRow D → Type 0
  IsBar row = IsValidBar exact (bar_of row)

  -- What holds of the variables of the loop behind `done` rows.
  record Invariant (done : ℕ) (reader : Reader D) : Type 0 where
    pub total_eq : reader.summary.total_csv_rows ≡ done
    pub sum_eq : length reader.rows + length reader.summary.skipped_rows ≡ done
    pub valid : All IsBar reader.rows
    pub distinct : Distinct (timestamps_of reader.rows)
    pub seen : (t : ℕ) → was_seen t reader.seen_timestamps ≡ was_seen t (timestamps_of reader.rows)
    pub numbers : Ascends 2 reader.summary.skipped_rows (suc (suc done))
    pub unimported : (reader.summary.inserted_rows ≡ 0) × (reader.summary.updated_rows ≡ 0)

  skip_row-Invariant :
      (done : ℕ) (reason : String) (reader : Reader D)
      → Invariant done reader
      → Invariant (suc done) (skip_row (suc (suc done)) reason (counted_line reader))
  skip_row-Invariant done reason reader i = record {
    total_eq = ap suc i.total_eq;
    sum_eq = omega (arith, length-append reader.summary.skipped_rows (_ ∷ []), i.sum_eq);
    valid = i.valid;
    distinct = i.distinct;
    seen = i.seen;
    numbers = Ascends-append 2 reader.summary.skipped_rows _ i.numbers;
    unimported = i.unimported;
  }

  add_row-Invariant :
      (done : ℕ) (row : MarketDataRow D) (reader : Reader D)
      → IsBar row
      → was_seen row.timestamp reader.seen_timestamps ≡ false
      → Invariant done reader
      → Invariant (suc done) (add_row row (counted_line reader))
  add_row-Invariant done row reader v fresh i =
      let times : timestamps_of (reader.rows ++ (row ∷ []))
          ≡ timestamps_of reader.rows ++ (row.timestamp ∷ []) =
        map-append _ reader.rows (row ∷ []) in
      record {
        total_eq = ap suc i.total_eq;
        sum_eq = omega (arith, length-append reader.rows (row ∷ []), i.sum_eq);
        valid = All-append IsBar reader.rows (row ∷ []) i.valid (v, tt);
        distinct = subst Distinct (sym times) (
            Distinct-append (timestamps_of reader.rows) row.timestamp i.distinct
              (sym (i.seen row.timestamp) ∙ fresh));
        seen = λ t. rw times (
            ground (
              arith,
              i.seen t,
              was_seen-append t (timestamps_of reader.rows) (row.timestamp ∷ []),
            ));
        numbers = Ascends-later 2 reader.summary.skipped_rows (suc (suc done)) i.numbers;
        unimported = i.unimported;
      }

  take_row-Invariant :
      (done : ℕ) (m : Result (MarketDataRow D)) (reader : Reader D)
      → Checked IsBar m
      → Invariant done reader
      → Returns (Invariant (suc done)) (take_row (suc (suc done)) m (counted_line reader))
  unfolding take_row
  take_row-Invariant done (ok row) reader (passes v) i =
      elim (Bool-cases (was_seen row.timestamp reader.seen_timestamps)) [
        | inl p ↦ rw p (returned (skip_row-Invariant done _ reader i))
        | inr p ↦ rw p (returned (add_row-Invariant done row reader v p i))
      ]
  take_row-Invariant done (err e) reader (refuses {message}) i =
      returned (skip_row-Invariant done message reader i)

module _ {D : Type 0} ⦃d : Decimal D⦄ ⦃r : Reading⦄ ⦃n : Numerals D⦄ ⦃c : CsvReading⦄
    (exact : IsExact d) where
  take_rows-Invariant :
      (done : ℕ) (raw_rows : List RawRow) (reader : Reader D)
      → Invariant exact done reader
      → Returns
          (Invariant exact (done + length raw_rows))
          (take_rows (suc (suc done)) raw_rows reader)
  unfolding take_rows
  take_rows-Invariant done [] reader i =
      returned (subst (λ k. Invariant exact k reader) (omega arith) i)
  take_rows-Invariant done (raw_row ∷ rest) reader i =
      subst (λ k. Returns (Invariant exact k) (take_rows (suc (suc done)) (raw_row ∷ rest) reader))
        (omega arith)
        (Returns->>= {P = Invariant exact (suc done)} {Q = Invariant exact (suc done + length rest)}
          _ (λ next j. take_rows-Invariant (suc done) rest next j)
          (take_row-Invariant exact done (parse_market_row raw_row) reader
            (parse_market_row-Checked exact raw_row) i))

  -- The rows that are read and the summary of a file of `size` lines below the header.
  pub record AreRead (size : ℕ) (parsed : List (MarketDataRow D) × ImportSummary) : Type 0 where
    pub valid : All (IsBar exact) parsed.0
    pub distinct : Distinct (timestamps_of parsed.0)
    pub total : (parsed.1).total_csv_rows ≡ size
    pub all_counted : length parsed.0 + skipped_count parsed.1 ≡ size
    pub skipped_lines : Ascends 2 (parsed.1).skipped_rows (suc (suc size))
    pub unimported : ((parsed.1).inserted_rows ≡ 0) × ((parsed.1).updated_rows ≡ 0)

  -- A file with the required columns is read without an exception. The rows that it gives are valid
  -- bars, no two of one day. Each line is counted, and it gives a row or is among the skipped ones,
  -- whose line numbers ascend from 2.
  pub parse_market_csv-AreRead :
      (file : CsvFile)
      → missing_columns (headers_of file.fieldnames) required_columns ≡ []
      → Returns (AreRead (length file.rows)) (parse_market_csv file)
  unfolding parse_market_csv check_columns
  parse_market_csv-AreRead file h = rw h (
      Returns->>= {P = Invariant exact (0 + length file.rows)} _
        (λ reader i. returned (record {
          valid = i.valid;
          distinct = i.distinct;
          total = i.total_eq ∙ (omega arith);
          all_counted = i.sum_eq ∙ (omega arith);
          skipped_lines =
              subst (λ k. Ascends 2 reader.summary.skipped_rows (suc (suc k))) (omega arith)
                i.numbers;
          unimported = i.unimported;
        }))
        (take_rows-Invariant 0 file.rows _ (record {
          total_eq = refl;
          sum_eq = omega arith;
          valid = tt;
          distinct = tt;
          seen = λ t. refl;
          numbers = omega arith;
          unimported = (refl, refl);
        })))

  check_columns-nil : (missing : List String) → check_columns missing ≡ ok tt → missing ≡ []
  unfolding check_columns
  check_columns-nil [] h = refl
  check_columns-nil (column ∷ rest) h = absurd (cc)

  pub parse_market_csv_ok-AreRead :
      (file : CsvFile) (parsed : List (MarketDataRow D) × ImportSummary)
      → parse_market_csv file ≡ ok parsed
      → AreRead (length file.rows) parsed
  unfolding parse_market_csv
  parse_market_csv_ok-AreRead file parsed h =
      let missing = missing_columns (headers_of file.fieldnames) required_columns in
      let (c, k) = >>-eq-ok (check_columns missing) _ h in
      let (other, e, read) =
        Returns-ok (parse_market_csv-AreRead file (check_columns-nil missing c)) in
      subst (AreRead (length file.rows)) (cc (e, h)) read
