-- ===== src/Tests/Api.antt =====
-- The theorems about the routes at two users, of whom one creates and changes a strategy.
use agentic_trading_platform.Prelude.{ℕ, ◌+◌, ◌≡◌, ◌≢◌, ◌<◌, none, List, [], ◌∷◌, All, arith}
use agentic_trading_platform.Prelude.Int.{ℤ}
use agentic_trading_platform.Decimal.{fixed}
use agentic_trading_platform.Api.Model.{Strategy, IsWellFormed}
use agentic_trading_platform.Api.Session.{Environment, Session, works}
use agentic_trading_platform.Api.Requests.{value, unset}
use agentic_trading_platform.Api.Handlers.{
  Request, post_strategy, patch, delete, get_all, handle, handle_all,
}
use agentic_trading_platform.Api.Ownership.{IsOwned, Keeps}
use agentic_trading_platform.Api.Isolation.{handle-Keeps}
use agentic_trading_platform.Api.Traces.{owned, handle_all-owned}
use agentic_trading_platform.Tests.Market.{reading, numerals}

abbrev pub environment : Environment
environment = record {
  answer = λ n. works;
  new_id = λ n. n + 100;
  now = λ n. n;
  updated = λ n old. n;
}

abbrev saved : Strategy ℤ
saved = record {
  id = 1;
  user_id = 7;
  name = "golden cross";
  source_text = "buy on a golden cross";
  strategy_json = none;
  created_at = 0;
  updated_at = 0;
}

abbrev pub session : Session ℤ
session = record { strategies = saved ∷ []; statements = 0 }

abbrev creation : Request ℤ
creation = post_strategy (record { name = "mine"; source_text = "buy low"; strategy_json = none })

abbrev change : Request ℤ
change = patch 1 (record { name = value "taken"; source_text = unset; strategy_json = unset })

abbrev requests : List (ℕ × Request ℤ)
requests = (8, creation) ∷ (8, change) ∷ (9, delete 1) ∷ (8, get_all) ∷ []

handle-Keeps_example :
    Keeps 8 (All (IsOwned 8)) session.strategies (handle environment 8 change session)
handle-Keeps_example = handle-Keeps environment 8 change session

differs : (n : ℕ) → 7 < n → n ≢ 7
differs n h = λ e. omega (arith, h, e)

handle_all-owned_example :
    (owned 7 (handle_all environment requests session).strategies ≡ owned 7 session.strategies)
    × (All IsWellFormed session.strategies
        → All IsWellFormed (handle_all environment requests session).strategies)
handle_all-owned_example = handle_all-owned environment 7 requests session (
  differs 8 (omega arith),
  (differs 8 (omega arith), (differs 9 (omega arith), (differs 8 (omega arith), tt))),
)
