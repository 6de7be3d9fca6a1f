-- ===== src/Jobs/Store/Candidates.antt =====
-- The rows that a reconciliation looks at are the oldest that are not finished.
use mathlib.Core.List.{Perm}
use mathlib.Core.List.Perm
use agentic_trading_platform.Prelude.{
  ◌<◌, ◌⊎◌, ◌∙◌, ltb, ℕ, zero, suc, ◌≤◌, ◌≡◌, ◌≢◌, refl, ap, true, false, inl, inr, Option, none,
  some, List, [], ◌∷◌, ◌++◌, All, All-map, length, take, drop, Bool-cases, arith,
}
use agentic_trading_platform.Jobs.Model.{
  PreviewJob, JobStatus, queued, running, completed, failed, is_nonterminal,
}
use agentic_trading_platform.Jobs.World.{Environment, World, Outcome, JobError, returns, raises}
use agentic_trading_platform.Jobs.Store.{
  comes_before, insert_job, nonterminal_jobs, list_reconciliation_candidates,
}

module _ {ℓ} {A : Type ℓ} where
  take-drop : (n : ℕ) (xs : List A) → take n xs ++ drop n xs ≡ xs
  take-drop zero xs = refl
  take-drop (suc n) [] = refl
  take-drop (suc n) (x ∷ xs) = ap (λ l. x ∷ l) (take-drop n xs)

  length-take_le : (n : ℕ) (xs : List A) → length (take n xs) ≤ n
  length-take_le zero xs = omega arith
  length-take_le (suc n) [] = omega arith
  length-take_le (suc n) (x ∷ xs) = omega (arith, length-take_le n xs)

  length-take_full : (n : ℕ) (xs : List A) → drop n xs ≢ [] → length (take n xs) ≡ n
  length-take_full zero xs h = refl
  length-take_full (suc n) [] h = absurd (h refl)
  length-take_full (suc n) (x ∷ xs) h = ap suc (length-take_full n xs h)

module _ {R : Type 0} where
  -- Created earlier, or at the same time with an identifier that is not greater.
  abbrev pub Precedes : PreviewJob R → PreviewJob R → Type 0
  Precedes a b = (a.created_at < b.created_at) ⊎ ((a.created_at ≡ b.created_at) × (a.id ≤ b.id))

  abbrev pub AreOrdered : List (PreviewJob R) → Type 0
  AreOrdered [] = Unit
  AreOrdered (job ∷ jobs) = All (Precedes job) jobs × AreOrdered jobs

  abbrev pub IsUnfinished : PreviewJob R → Type 0
  IsUnfinished job = (job.status ≡ queued) ⊎ (job.status ≡ running)

  abbrev pub IsFinished : PreviewJob R → Type 0
  IsFinished job = (job.status ≡ completed) ⊎ (job.status ≡ failed)

  -- The second list has the queued and running rows of the first one.
  pub data Picks : List (PreviewJob R) → List (PreviewJob R) → Type 0 where
    nothing : Picks [] []
    takes :
        {job : PreviewJob R} {jobs picked : List (PreviewJob R)}
        → IsUnfinished job
        → Picks jobs picked
        → Picks (job ∷ jobs) (job ∷ picked)
    leaves :
        {job : PreviewJob R} {jobs picked : List (PreviewJob R)}
        → IsFinished job
        → Picks jobs picked
        → Picks (job ∷ jobs) picked

  -- With the `others`, the candidates are the unfinished rows in their order, of which they are
  -- the first `limit`, or all.
  pub record AreOldest (limit : ℕ) (jobs candidates : List (PreviewJob R)) : Type 0 where
    pub unfinished : List (PreviewJob R)
    pub are_picked : Picks jobs unfinished
    pub others : List (PreviewJob R)
    pub whole : Perm (candidates ++ others) unfinished
    pub ordered : AreOrdered (candidates ++ others)
    pub bounded : length candidates ≤ limit
    pub full : others ≢ [] → length candidates ≡ limit

  comes_before-Precedes : (a b : PreviewJob R) → comes_before a b ≡ true → Precedes a b
  comes_before-Precedes a b h = elim (Bool-cases (ltb a.created_at b.created_at)) [
    | inl p ↦ inl (ground arith)
    | inr p ↦ inr (ground (arith, h), ground (arith, h))
  ]

  finished : (job : PreviewJob R) → is_nonterminal job.status ≡ false → IsFinished job
  finished job h = by_status job.status refl h
    where
      by_status :
          (status : JobStatus)
          → job.status ≡ status
          → is_nonterminal status ≡ false
          → IsFinished job
      by_status queued e k = absurd (cc)
      by_status running e k = absurd (cc)
      by_status completed e k = inl e
      by_status failed e k = inr e

  is_nonterminal-IsUnfinished :
      (job : PreviewJob R) → is_nonterminal job.status ≡ true → IsUnfinished job
  is_nonterminal-IsUnfinished job h = by_status job.status refl h
    where
      by_status :
          (status : JobStatus)
          → job.status ≡ status
          → is_nonterminal status ≡ true
          → IsUnfinished job
      by_status queued e k = inl e
      by_status running e k = inr e
      by_status completed e k = absurd (cc)
      by_status failed e k = absurd (cc)

  Precedes-trans : (a b c : PreviewJob R) → Precedes a b → Precedes b c → Precedes a c
  Precedes-trans a b c (inl p) (inl q) = inl (omega (arith, p, q))
  Precedes-trans a b c (inl p) (inr q) = inl (omega (arith, p, q.0))
  Precedes-trans a b c (inr p) (inl q) = inl (omega (arith, p.0, q))
  Precedes-trans a b c (inr p) (inr q) = inr (p.0 ∙ q.0, omega (arith, p.1, q.1))

  Precedes-total : (a b : PreviewJob R) → comes_before a b ≡ false → Precedes b a
  Precedes-total a b p = elim (Bool-cases (ltb b.created_at a.created_at)) [
    | inl q ↦ inl (ground arith)
    | inr q ↦ inr (ground (arith, p), ground (arith, p))
  ]

  insert_job-All :
      (P : PreviewJob R → Type 0) (job : PreviewJob R) (jobs : List (PreviewJob R))
      → P job
      → All P jobs
      → All P (insert_job job jobs)
  unfolding insert_job
  insert_job-All P job [] p _ = (p, tt)
  insert_job-All P job (other ∷ jobs) p (q, qs) = elim (Bool-cases (comes_before job other)) [
    | inl b ↦ rw b (p, (q, qs))
    | inr b ↦ rw b (q, insert_job-All P job jobs p qs)
  ]

  insert_job-AreOrdered :
      (job : PreviewJob R) (jobs : List (PreviewJob R))
      → AreOrdered jobs
      → AreOrdered (insert_job job jobs)
  unfolding insert_job
  insert_job-AreOrdered job [] _ = (tt, tt)
  insert_job-AreOrdered job (other ∷ jobs) (below, o) = elim (Bool-cases (comes_before job other)) [
    | inl b ↦ rw b (
      (
        comes_before-Precedes job other b,
        All-map (Precedes other) (Precedes job) jobs
            (λ c q. Precedes-trans job other c (comes_before-Precedes job other b) q) below,
      ),
      (below, o),
    )
    | inr b ↦ rw b (
      insert_job-All (Precedes other) job jobs (Precedes-total job other b) below,
      insert_job-AreOrdered job jobs o,
    )
  ]

  insert_job-perm :
      (job : PreviewJob R) (jobs : List (PreviewJob R)) → Perm (insert_job job jobs) (job ∷ jobs)
  unfolding insert_job
  insert_job-perm job [] = Perm.rfl
  insert_job-perm job (other ∷ jobs) = elim (Bool-cases (comes_before job other)) [
    | inl b ↦ rw b Perm.rfl
    | inr b ↦
        rw b (Perm.trans (Perm.cons other (insert_job-perm job jobs)) (Perm.swap job other jobs))
  ]

  nonterminal_jobs-AreOrdered : (jobs : List (PreviewJob R)) → AreOrdered (nonterminal_jobs jobs)
  unfolding nonterminal_jobs
  nonterminal_jobs-AreOrdered [] = tt
  nonterminal_jobs-AreOrdered (job ∷ jobs) = elim (Bool-cases (is_nonterminal job.status)) [
    | inl b ↦
        rw b (insert_job-AreOrdered job (nonterminal_jobs jobs) (nonterminal_jobs-AreOrdered jobs))
    | inr b ↦ rw b (nonterminal_jobs-AreOrdered jobs)
  ]

  -- The unfinished rows, and that the sorted ones are a permutation of them.
  nonterminal_jobs-Picks :
      (jobs : List (PreviewJob R))
      → (unfinished : List (PreviewJob R)) × Picks jobs unfinished
        × Perm (nonterminal_jobs jobs) unfinished
  unfolding nonterminal_jobs
  nonterminal_jobs-Picks [] = ([], nothing, Perm.rfl)
  nonterminal_jobs-Picks (job ∷ jobs) =
      let (unfinished, picks, perm) = nonterminal_jobs-Picks jobs in
      elim (Bool-cases (is_nonterminal job.status)) [
        | inl b ↦ (
          job ∷ unfinished,
          takes (is_nonterminal-IsUnfinished job b) picks,
          rw b (Perm.trans (insert_job-perm job (nonterminal_jobs jobs)) (Perm.cons job perm)),
        )
        | inr b ↦ (unfinished, leaves (finished job b) picks, rw b perm)
      ]

  nonterminal_jobs-AreOldest :
      (limit : ℕ) (jobs : List (PreviewJob R))
      → AreOldest limit jobs (take limit (nonterminal_jobs jobs))
  nonterminal_jobs-AreOldest limit jobs =
      let sorted = nonterminal_jobs jobs in
      let (unfinished, picks, perm) = nonterminal_jobs-Picks jobs in
      record {
        unfinished = unfinished;
        are_picked = picks;
        others = drop limit sorted;
        whole = rw (take-drop limit sorted) perm;
        ordered = rw (take-drop limit sorted) (nonterminal_jobs-AreOrdered jobs);
        bounded = length-take_le limit sorted;
        full = length-take_full limit sorted;
      }

  abbrev pub AreCandidates : Environment → ℕ → World R → Outcome R (List (PreviewJob R)) → Type 0
  AreCandidates env limit w (returns candidates after) =
      AreOldest limit w.jobs candidates × (after.jobs ≡ w.jobs)
  AreCandidates env limit w (raises e after) =
      (env.database w.step ≡ some e) × (after.jobs ≡ w.jobs)

  -- The candidates of a reconciliation are at most `limit` of the queued and running rows, each as
  -- often as it is stored, by their creation and then by their identifier, and as long as there are
  -- fewer than `limit` none of those rows is left out: what is left out comes after all that is
  -- returned. Only the database's exception is raised, and no row is changed.
  pub list_reconciliation_candidates-AreCandidates :
      (env : Environment) (limit : ℕ) (w : World R)
      → AreCandidates env limit w (list_reconciliation_candidates env limit w)
  unfolding list_reconciliation_candidates
  list_reconciliation_candidates-AreCandidates env limit w = by_fault (env.database w.step) refl
    where
      by_fault :
          (fault : Option JobError)
          → env.database w.step ≡ fault
          → AreCandidates env limit w (list_reconciliation_candidates env limit w)
      by_fault none e = rw e (nonterminal_jobs-AreOldest limit w.jobs, refl)
      by_fault (some fault) e = rw e (e, refl)
