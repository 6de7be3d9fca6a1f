-- ===== src/Strategy/Reading.antt =====
-- The methods of Python's `str`, `re`, `int` and `Decimal` that the checks of a text call, as two
-- interfaces. Patterns are the texts of the regular expressions. A substring test is computed.
use text.Mathlib.Text.{find?}
use agentic_trading_platform.Prelude.{Bool, Option, List, String, is_some}
use agentic_trading_platform.Prelude.Int.{ℤ}

pub record Reading : Type 0 where
  pub strip : String → String
  pub lower : String → String
  -- `re.search(pattern, text)` as a truth value, and ignoring case
  pub search : String → String → Bool
  pub search_ignoring_case : String → String → Bool
  -- the two groups of `re.search(pattern, text)`
  pub search_groups : String → String → Option (String × String)
  -- `match.group("value")` of each match of `pattern.finditer(text)`
  pub find_values : String → String → List String
  -- `int(text)` of digits, and `f"{number}"`
  pub to_int : String → ℤ
  pub show_int : ℤ → String

pub record Numerals (D : Type 0) : Type 0 where
  -- `Decimal(text)`, none if it raises `InvalidOperation`, and `f"{value}"`
  pub to_decimal : String → Option D
  pub show_decimal : D → String
  -- `f"{value:g}"`
  pub show_general : D → String

-- `phrase in text`
abbrev pub contains : String → String → Bool
contains text phrase = is_some (find? text phrase)
