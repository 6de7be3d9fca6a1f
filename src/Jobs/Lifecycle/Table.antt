-- ===== src/Jobs/Lifecycle/Table.antt =====
-- The row of an identifier in a table in which another row, or that one, is replaced.
use agentic_trading_platform.Prelude.{
  ℕ, ◌≡◌, ◌≢◌, refl, Bool, true, false, ◌==◌, Option, some, List, [], ◌∷◌, All, arith, Bool-cases,
  inl, inr, subst, if◌then◌else◌,
}
use agentic_trading_platform.Jobs.Model.{PreviewJob}
use agentic_trading_platform.Jobs.Rows.{find_job, replace_job}

module _ {R : Type 0} where
  pub find_job-id :
      (id : ℕ) (jobs : List (PreviewJob R)) {job : PreviewJob R}
      → find_job id jobs ≡ some job
      → job.id ≡ id
  unfolding find_job
  find_job-id id [] h = absurd (cc)
  find_job-id id (row ∷ jobs) {job} h = ground (arith, find_job-id id jobs {job = job})

  pub find_job-replace_job :
      (id : ℕ) (jobs : List (PreviewJob R)) (new : PreviewJob R) {job : PreviewJob R}
      → find_job id jobs ≡ some job
      → new.id ≡ job.id
      → find_job id (replace_job id new jobs) ≡ some new
  unfolding find_job replace_job
  find_job-replace_job id [] new h e = absurd (cc)
  find_job-replace_job id (row ∷ jobs) new {job} h e =
      ground (arith, find_job-replace_job id jobs new {job = job})

  pub find_job-replace_job_other :
      (id other : ℕ) (jobs : List (PreviewJob R)) (new : PreviewJob R) {job : PreviewJob R}
      → other ≢ id
      → find_job id jobs ≡ some job
      → new.id ≡ job.id
      → find_job other (replace_job id new jobs) ≡ find_job other jobs
  unfolding find_job replace_job
  find_job-replace_job_other id other [] new d h e = refl
  find_job-replace_job_other id other (row ∷ jobs) new {job} d h e =
      ground (arith, find_job-replace_job_other id other jobs new {job = job} d)

  found :
      {same : Bool} {row job : PreviewJob R} (rest : Option (PreviewJob R))
      → same ≡ true
      → (if same then some row else rest) ≡ some job
      → row ≡ job
  found rest h e = ground arith

  pub All-find_job :
      (P : PreviewJob R → Type 0) (id : ℕ) (jobs : List (PreviewJob R)) {job : PreviewJob R}
      → All P jobs
      → find_job id jobs ≡ some job
      → P job
  unfolding find_job
  All-find_job P id [] h f = absurd (cc)
  All-find_job P id (row ∷ jobs) (p, ps) f = elim (Bool-cases (row.id == id)) [
    | inl same ↦ subst P (found (find_job id jobs) same f) p
    | inr differ ↦ All-find_job P id jobs ps (rw differ at f)
  ]

  pub All-if :
      (P : PreviewJob R → Type 0) (test : Bool) (xs ys : List (PreviewJob R))
      → All P xs
      → All P ys
      → All P (if test then xs else ys)
  All-if P true xs ys p q = p
  All-if P false xs ys p q = q

  pub All-replace_job :
      (P : PreviewJob R → Type 0) (id : ℕ) (jobs : List (PreviewJob R)) (new : PreviewJob R)
      → All P jobs
      → P new
      → All P (replace_job id new jobs)
  unfolding replace_job
  All-replace_job P id [] new h q = tt
  All-replace_job P id (row ∷ jobs) new (p, ps) q =
      All-if P (row.id == id) (new ∷ jobs) (row ∷ replace_job id new jobs) (q, ps)
        (p, All-replace_job P id jobs new ps q)
