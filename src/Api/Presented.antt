-- ===== src/Api/Presented.antt =====
-- A poll answers from the row of the user that was verified, and changes nothing.
use agentic_trading_platform.Prelude.{
  ℕ, ◌≡◌, ◌≢◌, refl, ap, Option, none, some, List, String, ◌⊎◌, inl, inr, Bool-cases, arith, ◌==◌,
  if◌then◌else◌,
}
use agentic_trading_platform.Jobs.Model.{PreviewJob, JobStatus, queued, running, completed, failed}
use agentic_trading_platform.Jobs.World.{
  Environment, World, Outcome, JobError, returns, raises, next,
}
use agentic_trading_platform.Jobs.Rows.{find_job}
use agentic_trading_platform.Jobs.Store.{get_job}
use agentic_trading_platform.Api.Session.{Reply}
use agentic_trading_platform.Api.Authentication.{
  AuthenticatedUser, SupabaseAuthClient, AuthError, get_user, get_current_user, current,
  invalid_access_token, auth_service_unavailable,
}
use agentic_trading_platform.Api.Polling.{
  PreviewJobResponse, response_of, present_validated, present_result, present, not_found, gone,
  get_preview_job, poll_as, poll,
}

module _ {R : Type 0} where
  pub record IsUnchanged (before after : World R) : Type 0 where
    pub jobs_eq : after.jobs ≡ before.jobs
    pub held_eq : after.held ≡ before.held
    pub payloads_eq : after.payloads ≡ before.payloads

  IsUnchanged-refl : (w : World R) → IsUnchanged w w
  IsUnchanged-refl w = record { jobs_eq = refl; held_eq = refl; payloads_eq = refl }

  asked-IsUnchanged : (w : World R) → IsUnchanged w (next w)
  asked-IsUnchanged w = record { jobs_eq = refl; held_eq = refl; payloads_eq = refl }

module _ {R V : Type 0} (model_validate : R → Option V) where
  -- What a poll shows as the result of a job.
  pub data IsResult : PreviewJob R → Option V → Type 0 where
    unfinished : {job : PreviewJob R} → job.status ≢ completed → IsResult job none
    empty : {job : PreviewJob R} → job.preview_result ≡ none → IsResult job none
    finished :
        {job : PreviewJob R} (result : R) (preview : V)
        → job.status ≡ completed
        → job.preview_result ≡ some result
        → model_validate result ≡ some preview
        → IsResult job (some preview)

  -- The row of the identifier, if the user owns it.
  abbrev pub IsOwnedBy : ℕ → List (PreviewJob R) → AuthenticatedUser → PreviewJob R → Type 0
  IsOwnedBy job_id jobs user job = (find_job job_id jobs ≡ some job) × (job.user_id ≡ user.id)

  -- The replies to a verified user, each with its reason.
  pub data IsAnswer (job_id : ℕ) (jobs : List (PreviewJob R)) (user : AuthenticatedUser)
      : Reply (PreviewJobResponse V) → Type 0 where
    missing :
        ((job : PreviewJob R) → find_job job_id jobs ≡ some job → job.user_id ≢ user.id)
        → IsAnswer job_id jobs user not_found
    expired :
        (job : PreviewJob R) (result : R)
        → IsOwnedBy job_id jobs user job
        → job.status ≡ completed
        → job.preview_result ≡ some result
        → model_validate result ≡ none
        → IsAnswer job_id jobs user gone
    shown :
        (job : PreviewJob R) (preview : Option V)
        → IsOwnedBy job_id jobs user job
        → IsResult job preview
        → IsAnswer job_id jobs user (Reply.returns (response_of job preview))

  -- The replies to a request with its credentials.
  pub data IsReply (auth_client : SupabaseAuthClient) (credentials : Option String) (job_id : ℕ)
      (jobs : List (PreviewJob R)) : Reply (PreviewJobResponse V) → Type 0 where
    unverified :
        {status : ℕ} {detail : String}
        → get_current_user credentials auth_client ≡ Reply.raises status detail
        → IsReply auth_client credentials job_id jobs (Reply.raises status detail)
    verified :
        {reply : Reply (PreviewJobResponse V)} (access_token : String) (user : AuthenticatedUser)
        → credentials ≡ some access_token
        → get_user auth_client access_token ≡ inr user
        → IsAnswer job_id jobs user reply
        → IsReply auth_client credentials job_id jobs reply

  abbrev pub Polls :
      SupabaseAuthClient
      → Option String
      → ℕ
      → World R
      → Outcome R (Reply (PreviewJobResponse V))
      → Type 0
  Polls auth_client credentials job_id w (returns reply after) =
      IsReply auth_client credentials job_id w.jobs reply × IsUnchanged w after
  Polls auth_client credentials job_id w (raises e after) = IsUnchanged w after

  present_result-IsAnswer :
      (job_id : ℕ) (jobs : List (PreviewJob R)) (user : AuthenticatedUser) (job : PreviewJob R)
      (status : JobStatus) (result : Option R)
      → IsOwnedBy job_id jobs user job
      → job.status ≡ status
      → job.preview_result ≡ result
      → IsAnswer job_id jobs user (present_result model_validate status result job)
  present_result-IsAnswer job_id jobs user job completed none o s r = shown job none o (empty r)
  present_result-IsAnswer job_id jobs user job completed (some result) o s r =
      validated (model_validate result) refl
    where
      validated :
          (preview : Option V)
          → model_validate result ≡ preview
          → IsAnswer job_id jobs user (present_validated job preview)
      validated none e = expired job result o s r e
      validated (some preview) e = shown job (some preview) o (finished result preview s r e)
  present_result-IsAnswer job_id jobs user job queued result o s r =
      shown job none o (unfinished (ground arith))
  present_result-IsAnswer job_id jobs user job running result o s r =
      shown job none o (unfinished (ground arith))
  present_result-IsAnswer job_id jobs user job failed result o s r =
      shown job none o (unfinished (ground arith))

  owned-IsAnswer :
      (job_id : ℕ) (jobs : List (PreviewJob R)) (user : AuthenticatedUser)
      (found : Option (PreviewJob R))
      → find_job job_id jobs ≡ found
      → IsAnswer job_id jobs user (
          present model_validate (elim found [
            | some job ↦ if job.user_id == user.id then some job else none
            | none ↦ none
          ]))
  owned-IsAnswer job_id jobs user none f = missing (λ job g u. cc (f, g))
  owned-IsAnswer job_id jobs user (some job) f = elim (Bool-cases (job.user_id == user.id)) [
    | inl p ↦ rw p (
        present_result-IsAnswer job_id jobs user job job.status job.preview_result (f, ground arith)
          refl refl)
    | inr p ↦ rw p (
        missing (λ other g u.
          let same : job ≡ other = cc (f, g) in
          let owner = ap (λ j. j.user_id) same in ground arith))
  ]

  module _ (env : Environment) (auth_client : SupabaseAuthClient) (job_id : ℕ) where
    get_preview_job-Polls :
        (credentials : Option String) (user : AuthenticatedUser) (w : World R)
        (fault : Option JobError)
        → env.database w.step ≡ fault
        → ((reply : Reply (PreviewJobResponse V))
            → IsAnswer job_id w.jobs user reply
            → IsReply auth_client credentials job_id w.jobs reply)
        → Polls auth_client credentials job_id w (get_preview_job model_validate env job_id user w)
    unfolding get_preview_job get_job
    get_preview_job-Polls credentials user w none e reply = rw e (
      reply _ (owned-IsAnswer job_id w.jobs user (find_job job_id w.jobs) refl),
      asked-IsUnchanged w,
    )
    get_preview_job-Polls credentials user w (some fault) e reply = rw e (asked-IsUnchanged w)

    -- Whatever the authentication service and the database answer, a poll changes no job, lock or
    -- payload. Its reply is the refusal of the credentials if no user is verified. For the user whom
    -- the service names for the token it is 404 exactly where no job of the identifier is that
    -- user's, 410 where the result of the completed job no longer validates, and otherwise the job
    -- as it is stored, with the validated result if it is completed and has one.
    pub poll-Polls :
        (credentials : Option String) (w : World R)
        → Polls auth_client credentials job_id w
            (poll model_validate env auth_client credentials job_id w)
    unfolding poll get_current_user
    poll-Polls none w = (unverified refl, IsUnchanged-refl w)
    poll-Polls (some token) w = by_user (get_user auth_client token) refl
      where
        by_user :
            (user : AuthError ⊎ AuthenticatedUser)
            → get_user auth_client token ≡ user
            → Polls auth_client
                (some token)
                job_id
                w
                (poll_as model_validate env job_id (current user) w)
        by_user (inr user) e =
            get_preview_job-Polls (some token) user w (env.database w.step) refl
              (λ reply a. verified token user refl e a)
        by_user (inl invalid_access_token) e = (unverified (rw e refl), IsUnchanged-refl w)
        by_user (inl auth_service_unavailable) e = (unverified (rw e refl), IsUnchanged-refl w)
