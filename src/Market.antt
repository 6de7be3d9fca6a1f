-- ===== src/Market.antt =====
-- The import of market data from CSV files: backend/app/scripts/import_market_csv.py.
pub mod Model
pub mod Row
pub mod Columns
pub mod Csv
pub mod Table
pub mod Import
pub mod Accepted
pub mod Distinct
pub mod Valid
pub mod Batches
pub mod Stored
