-- ===== src/Jobs/Lifecycle/Locks.antt =====
-- The locks that a session holds while it waits for one and releases it.
use agentic_trading_platform.Prelude.{
  ℕ, zero, suc, ◌≡◌, refl, Bool, true, false, Option, some, none, List, [], ◌∷◌, arith,
  if◌then◌else◌,
}
use agentic_trading_platform.Jobs.Model.{PreviewJob}
use agentic_trading_platform.Jobs.World.{
  Environment, World, JobError, returns, pure, statement, ◌>>◌, invalidate, Action,
}
use agentic_trading_platform.Jobs.Ends.{
  Ends, ended, Ends-continue, Ends-branch, if-Ends, On, statement_then-Ends,
}
use agentic_trading_platform.Jobs.Store.{
  try_acquire_preview_job_lock, answer_lock, acquire_until, acquire_preview_job_lock,
  release_preview_job_lock, sleep, remove_first,
}
use agentic_trading_platform.Jobs.Service.{release_or_invalidate}
use agentic_trading_platform.Jobs.Lifecycle.{Evolution}
use agentic_trading_platform.Jobs.Lifecycle.Saves.{Reached}

module _ {R : Type 0} (env : Environment) (id : ℕ) (start : List (PreviewJob R)) where
  -- The locks held behind an answer of the database, from none.
  abbrev pub taken : Bool → List ℕ
  taken false = []
  taken true = if env.postgresql then id ∷ [] else []

  abbrev pub Locked : Bool → List (PreviewJob R) → List ℕ → Type 0
  Locked acquired jobs held = (jobs ≡ start) × (held ≡ taken acquired)

  pub answer_lock-Ends :
      (answer : Bool) (w : World R)
      → env.postgresql ≡ true
      → On (Locked false) w
      → Ends
          (λ acquired. On (Locked acquired))
          (λ _. On (Locked false))
          (answer_lock env id answer w)
  answer_lock-Ends true w p (e, l) = ended (e, rw (l, p) refl)
  answer_lock-Ends false w p h = ended h

  pub try_acquire-Ends :
      (w : World R)
      → On (Locked false) w
      → Ends
          (λ acquired. On (Locked acquired))
          (λ _. On (Locked false))
          (try_acquire_preview_job_lock env id w)
  unfolding try_acquire_preview_job_lock
  try_acquire-Ends w h =
      if-Ends env.postgresql
        (statement env >> (λ w. answer_lock env id (env.lock_free w.step id) w)) (pure true) w
        (λ p.
          Ends-continue _ (statement_then-Ends (Locked false) (Locked false) env w h h)
            (λ _ w h. answer_lock-Ends _ w p h))
        (λ p. ended (h.0, rw (p, h.1) refl))

  abbrev pub answered_lock : Option Bool → Bool
  answered_lock (some acquired) = acquired
  answered_lock none = false

  pub again-Ends :
      (acquired late : Bool) (pause : ℕ) (again : Action R (Option Bool)) (w : World R)
      → On (Locked acquired) w
      → ((w : World R)
          → On (Locked false) w
          → Ends (λ answer. On (Locked (answered_lock answer))) (λ _. On (Locked false)) (again w))
      → Ends
          (λ answer. On (Locked (answered_lock answer)))
          (λ _. On (Locked false))
          (if acquired
            then pure (some true) w
            else if late
            then pure (some false) w
            else (sleep env pause >> again) w)
  again-Ends true late pause again w h rest = ended h
  again-Ends false true pause again w h rest = ended h
  again-Ends false false pause again w h rest = rest _ h

  pub acquire_until-Ends :
      (deadline poll rounds : ℕ) (w : World R)
      → On (Locked false) w
      → Ends
          (λ answer. On (Locked (answered_lock answer)))
          (λ _. On (Locked false))
          (acquire_until env id deadline poll rounds w)
  unfolding acquire_until
  acquire_until-Ends deadline poll zero w h = ended h
  acquire_until-Ends deadline poll (suc rounds) w h =
      Ends-continue _ (try_acquire-Ends w h) (λ acquired w h.
        again-Ends acquired _ _ _ w h (λ w h. acquire_until-Ends deadline poll rounds w h))

  pub acquire-Ends :
      (timeout poll : ℕ) (w : World R)
      → On (Locked false) w
      → Ends
          (λ acquired. On (Locked acquired))
          (λ _. On (Locked false))
          (acquire_preview_job_lock env id timeout poll w)
  unfolding acquire_preview_job_lock
  acquire-Ends timeout poll w h =
      Ends-continue _ (acquire_until-Ends _ poll _ w h) (λ _ w h. ended h)

  pub removed : {locks : List ℕ} → locks ≡ id ∷ [] → remove_first id locks ≡ []
  removed h = rw h (ground arith)

  pub release_lock-Ends :
      (w : World R)
      → On (Reached env id start (taken true)) w
      → Ends
          (λ _. On (Reached env id start []))
          (λ _ w. Evolution id start w.jobs)
          (release_preview_job_lock env id w)
  unfolding release_preview_job_lock
  release_lock-Ends w (e, l) =
      if-Ends env.postgresql
        (statement env >> (λ w. returns tt (record w { held = remove_first id w.held }))) (pure tt)
        w
        (λ p.
          Ends-continue _
            (statement_then-Ends (λ jobs _. Evolution id start jobs)
              (λ jobs held. Evolution id start jobs × (held ≡ id ∷ [])) env w e (e, rw p at l))
            (λ _ w q. ended (q.0, removed q.1)))
        (λ p. ended (e, rw p at l))

  -- After the release the session holds no lock, even when the release raises.
  pub release-Ends :
      {F : JobError → World R → Type 0} (w : World R)
      → On (Reached env id start (taken true)) w
      → Ends (λ _. On (Reached env id start [])) F (release_or_invalidate env id w)
  release-Ends w h =
      Ends-branch (λ _. invalidate) pure (release_lock-Ends w h) (λ _ w e. ended (e, refl))
        (λ _ w q. ended q)
