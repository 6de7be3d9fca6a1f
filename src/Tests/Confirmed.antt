-- ===== src/Tests/Confirmed.antt =====
-- The theorem about a confirmed strategy at the parser's result for a crossover with a stop-loss.
use agentic_trading_platform.Prelude.{◌≡◌, refl, [], ◌∷◌, String}
use agentic_trading_platform.Prelude.Int.{ℤ}
use agentic_trading_platform.Decimal.{fixed}
use agentic_trading_platform.Api.Model.{Strategy}
use agentic_trading_platform.Api.Session.{returns}
use agentic_trading_platform.Api.Handlers.{post_confirmed, get_one, handle}
use agentic_trading_platform.Api.Confirmed.{
  confirmation, stripped, saved_as, session_with, handle-confirmation,
}
use agentic_trading_platform.Tests.Parser.{reading, numerals, request, draft, parsed}
use agentic_trading_platform.Tests.Api.{environment, session}

abbrev name : String
name = "crossover"

abbrev saved : Strategy ℤ
saved = saved_as environment 8 (stripped (confirmation name parsed.0)) session.statements

handle-confirmation_example :
    (handle environment 8 (post_confirmed (confirmation name parsed.0)) session
      ≡ (session_with saved session, returns (saved ∷ [])))
    × ((handle environment 8 (get_one saved.id) (session_with saved session)).1
        ≡ returns (saved ∷ []))
handle-confirmation_example =
    handle-confirmation environment 8 draft request name parsed.0 session parsed.1 refl refl
      (λ k. refl)
