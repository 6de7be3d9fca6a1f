-- ===== src/Api/Delivered.antt =====
-- The workflow of the program: a job whose text is parsed and previewed is completed, and its user
-- is shown the preview.
use agentic_trading_platform.Prelude.{
  ℕ, ◌≡◌, refl, ap, ◌∙◌, Bool, true, ◌⊎◌, inr, Option, none, some, List, [], ◌∷◌, map, drop, String,
  Result, ok, arith, ◌==◌,
}
use agentic_trading_platform.Decimal.{Decimal}
use agentic_trading_platform.Strategy.Draft.{StrategyParseDraft, ParsedStrategyResult}
use agentic_trading_platform.Strategy.Reading.{Reading, Numerals}
use agentic_trading_platform.Strategy.Parser.Provider.{OpenAiStrategyParser, parse}
use agentic_trading_platform.Backtest.Models.{EquityPoint}
use agentic_trading_platform.Backtest.Preview.{StrategyPreview, create_specification_preview}
use agentic_trading_platform.Backtest.Preview.Comparison.{create_specification_preview-LinesUp}
use agentic_trading_platform.Market.Model.{MarketData}
use agentic_trading_platform.Jobs.Model.{PreviewJob, completed}
use agentic_trading_platform.Jobs.World.{Environment, World, JobError, returns, next}
use agentic_trading_platform.Jobs.Rows.{find_job}
use agentic_trading_platform.Jobs.Store.{is_eligible, get_job}
use agentic_trading_platform.Jobs.Service.{run_preview_job}
use agentic_trading_platform.Jobs.Program.{
  CurvePoint, PreviewResult, classified, zip_strict, result_of, serialize_preview, previewed,
  program,
}
use agentic_trading_platform.Jobs.Lifecycle.Completion.{Continues, run_preview_job-IsCompleted}
use agentic_trading_platform.Api.Authentication.{
  AuthenticatedUser, SupabaseAuthClient, get_user, get_current_user,
}
use agentic_trading_platform.Api.Polling.{present, present_validated, get_preview_job, poll}

module _ {D : Type 0} ⦃d : Decimal D⦄ ⦃r : Reading⦄ ⦃n : Numerals D⦄ (isoformat : ℕ → String) where
  zip_strict-ok :
      (points others : List (EquityPoint D))
      → map (λ point. point.timestamp) points ≡ map (λ point. point.timestamp) others
      → (curve : List CurvePoint) × (zip_strict isoformat points others ≡ ok curve)
  unfolding zip_strict
  zip_strict-ok [] [] h = ([], refl)
  zip_strict-ok [] (other ∷ others) h = absurd (cc)
  zip_strict-ok (point ∷ points) [] h = absurd (cc)
  zip_strict-ok (point ∷ points) (other ∷ others) h =
      let (curve, e) = zip_strict-ok points others (cc) in
      let first : CurvePoint = record {
        timestamp = isoformat point.timestamp;
        strategy_value = n.show_decimal point.equity;
        buy_and_hold_value = n.show_decimal other.equity;
      } in
      (first ∷ curve, rw e refl)

  -- A preview that was created is serialized without an exception.
  serialize_preview-ok :
      (power : D → D → D) (rows : List (MarketData D)) (parsed : ParsedStrategyResult D)
      (preview : StrategyPreview D)
      → create_specification_preview power rows parsed.specification ≡ ok preview
      → (result : PreviewResult D) × (serialize_preview isoformat parsed preview ≡ ok result)
  unfolding serialize_preview
  serialize_preview-ok power rows parsed preview h =
      let (curve, e) =
        zip_strict-ok (drop preview.comparison_start_index preview.execution.equity_curve)
          preview.buy_and_hold_equity_curve
          (create_specification_preview-LinesUp power rows parsed.specification h) in
      (result_of isoformat parsed preview curve, rw e refl)

module _ {R S : Type 0} (model_validate : R → Option S) where
  present-completed :
      (row : PreviewJob R) (result : R)
      → row.status ≡ completed
      → row.preview_result ≡ some result
      → present model_validate (some row) ≡ present_validated row (model_validate result)
  present-completed row result s p = rw (s, p) refl

  poll-present :
      (env : Environment) (auth_client : SupabaseAuthClient) (access_token : String)
      (user : AuthenticatedUser) (id : ℕ) (w : World R) (row : PreviewJob R)
      → ((k : ℕ) → env.database k ≡ none)
      → get_user auth_client access_token ≡ inr user
      → find_job id w.jobs ≡ some row
      → row.user_id ≡ user.id
      → poll model_validate env auth_client (some access_token) id w
        ≡ returns (present model_validate (some row)) (next w)
  unfolding poll get_current_user get_preview_job get_job
  poll-present env auth_client access_token user id w row healthy verified f u =
      let same : (row.user_id == user.id) ≡ true = ground arith in
      rw (verified, healthy w.step, f, same) refl

module _ {D S : Type 0} ⦃d : Decimal D⦄ ⦃r : Reading⦄ ⦃n : Numerals D⦄ (isoformat : ℕ → String)
    (model_validate : PreviewResult D → Option S) (env : Environment)
    (auth_client : SupabaseAuthClient) (access_token : String) (id : ℕ)
    (start : PreviewJob (PreviewResult D)) where
  -- The job is completed with the serialized preview of its strategy, and a poll shows the row with
  -- what the schema of a preview makes of that result, or answers 410 where it makes nothing of it.
  pub record IsDelivered (parsed : ParsedStrategyResult D) (preview : StrategyPreview D)
      (w : World (PreviewResult D)) : Type 0 where
    pub row : PreviewJob (PreviewResult D)
    pub result : PreviewResult D
    pub serialized : serialize_preview isoformat parsed preview ≡ ok result
    pub stored : find_job id w.jobs ≡ some row
    pub is_completed : row.status ≡ completed
    pub continues : Continues start row
    pub has_result : row.preview_result ≡ some result
    pub polled :
        poll model_validate env auth_client (some access_token) id w
        ≡ returns (present_validated row (model_validate result)) (next w)

  module _ (self : OpenAiStrategyParser) (power : D → D → D)
      (provider : ℕ → String → String → String → Result (StrategyParseDraft D))
      (stored : ℕ → JobError ⊎ List (MarketData D)) where
    -- Whoever submitted a job that may be claimed sees its preview once it has run: if the database
    -- does not raise, the program's parser returns a strategy for the text of the job, the same
    -- whenever it is asked, and `create_preview` a preview of it from the stored rows, which stay the
    -- same, then the serialization does not raise and `run_preview_job` returns true. The job is then completed with that preview, and a poll with a
    -- token that is verified as the job's user returns the completed row with the preview, or 410
    -- where the schema refuses the stored result.
    pub poll-run_preview_job :
        (user : AuthenticatedUser) (allow : Bool) (rows : List (MarketData D))
        (parsed : ParsedStrategyResult D) (preview : StrategyPreview D)
        (w : World (PreviewResult D))
        → ((k : ℕ) → env.database k ≡ none)
        → ((k : ℕ) → parse self (provider k) start.strategy_text ≡ ok parsed)
        → ((k : ℕ) → stored k ≡ inr rows)
        → create_specification_preview power rows parsed.specification ≡ ok preview
        → find_job id w.jobs ≡ some start
        → is_eligible env allow start ≡ true
        → get_user auth_client access_token ≡ inr user
        → start.user_id ≡ user.id
        → (w' : World (PreviewResult D)) × (run_preview_job env
              (program isoformat self power provider stored)
              id
              allow
              w
            ≡ returns true w')
          × IsDelivered parsed preview w'
    poll-run_preview_job user allow rows parsed preview w healthy parses loads previews f good
          verified u =
        let (result, e) = serialize_preview-ok isoformat power rows parsed preview previews in
        let workflow = program isoformat self power provider stored in
        let (w', ran, done) =
          run_preview_job-IsCompleted env healthy id start workflow allow parsed preview result
            (λ k. ap classified (parses k))
            (λ k.
              ap (previewed isoformat self power provider stored parsed) (loads k)
              ∙ ap classified previews)
            (ap classified e) w f good in
        let (row, here, s, c, p) = done in
        (
          w',
          ran,
          record {
            row = row;
            result = result;
            serialized = e;
            stored = here;
            is_completed = s;
            continues = c;
            has_result = p;
            polled =
                poll-present model_validate env auth_client access_token user id w' row healthy
                  verified here (c.1 ∙ u)
                ∙ ap (λ reply. returns reply (next w'))
                    (present-completed model_validate row result s p);
          },
        )
