-- ===== src/Tests/Polling.antt =====
-- The theorems about polls at the owner of two jobs, of whom one is run.
use agentic_trading_platform.Prelude.{true, none, some, String, Option, str_eq, if◌then◌else◌}
use agentic_trading_platform.Api.Authentication.{AuthenticatedUser, Response, SupabaseAuthClient}
use agentic_trading_platform.Api.Polling.{poll}
use agentic_trading_platform.Api.Presented.{Polls, poll-Polls}
use agentic_trading_platform.Tests.Jobs.{env, world}

abbrev pub user : AuthenticatedUser
user = record { id = 7; email = none; role = "authenticated" }

abbrev response : Response
response = record { status_code = 200; is_success = true; user = some user }

abbrev pub client : SupabaseAuthClient
client = record {
  http_get = λ url key token. if str_eq token "Bearer secret" then some response else none;
  user_url = "https://example.org/auth/v1/user";
  api_key = "key";
}

abbrev preview_of : String → Option String
preview_of text = some text

poll-Polls_example :
    Polls preview_of client
      (some "secret")
      2
      world
      (poll preview_of env client (some "secret") 2 world)
poll-Polls_example = poll-Polls preview_of env client 2 (some "secret") world
