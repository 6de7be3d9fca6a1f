-- ===== src/Jobs/Reconciliation/Tally.antt =====
-- What a round of the reconciliation adds to its summary.
use agentic_trading_platform.Prelude.{
  ℕ, suc, ◌+◌, ◌≡◌, refl, Bool, true, false, ◌≤◌, if◌then◌else◌, some, List, arith,
}
use agentic_trading_platform.Jobs.Model.{PreviewJob, is_nonterminal}
use agentic_trading_platform.Jobs.Rows.{find_job}
use agentic_trading_platform.Jobs.Reconciliation.{
  ReconciliationSummary, Pass, count_active, count_recovered, count_failed, count_locked,
  count_not_stale, count_state_changed,
}

-- The candidates that the summary accounts for.
abbrev pub counted : ReconciliationSummary → ℕ
counted s = s.active + s.recovered + s.failed + s.locked + s.not_stale + s.state_changed

module _ {R : Type 0} (elsewhere : ℕ → List (PreviewJob R) → List (PreviewJob R)) where
  -- What the other processes do takes no queued and no running job away.
  abbrev pub KeepsOpen : Type 0
  KeepsOpen =
      (n : ℕ) (jobs : List (PreviewJob R)) (id : ℕ) (job : PreviewJob R)
      → find_job id jobs ≡ some job
      → is_nonterminal job.status ≡ true
      → (row : PreviewJob R) × (find_job id (elsewhere n jobs) ≡ some row)
        × (is_nonterminal row.status ≡ true)

  -- The other processes have finished every job.
  abbrev pub Finishes : Type 0
  Finishes =
      (n : ℕ) (jobs : List (PreviewJob R)) (id : ℕ) (row : PreviewJob R)
      → find_job id (elsewhere n jobs) ≡ some row
      → is_nonterminal row.status ≡ false

  -- At most one more candidate is counted.
  pub record Adds (s t : ReconciliationSummary) : Type 0 where
    pub scanned_same : t.scanned ≡ s.scanned
    pub once : counted t ≤ suc (counted s)
    pub counts : KeepsOpen → counted t ≡ suc (counted s)
    pub unfailed : Finishes → t.failed ≡ s.failed

  abbrev pub Counts : Pass → Pass → Type 0
  Counts p q = Adds p.summary q.summary

  pub active-Counts : (p : Pass) → Counts p (count_active p)
  active-Counts p = record {
    scanned_same = refl;
    once = omega arith;
    counts = λ _. omega arith;
    unfailed = λ _. refl;
  }

  pub recovered-Counts :
      (p : Pass) (ids : List ℕ) → Counts p (count_recovered (record p { active_ids = ids }))
  recovered-Counts p ids = record {
    scanned_same = refl;
    once = omega arith;
    counts = λ _. omega arith;
    unfailed = λ _. refl;
  }

  pub locked-Counts : (p : Pass) → Counts p (count_locked p)
  locked-Counts p = record {
    scanned_same = refl;
    once = omega arith;
    counts = λ _. omega arith;
    unfailed = λ _. refl;
  }

  pub not_stale-Counts : (p : Pass) → Counts p (count_not_stale p)
  not_stale-Counts p = record {
    scanned_same = refl;
    once = omega arith;
    counts = λ _. omega arith;
    unfailed = λ _. refl;
  }

  pub state_changed-Counts : (p : Pass) → Counts p (count_state_changed p)
  state_changed-Counts p = record {
    scanned_same = refl;
    once = omega arith;
    counts = λ _. omega arith;
    unfailed = λ _. refl;
  }

  -- A failure is counted if its UPDATE has changed the row.
  abbrev pub IsTold : Bool → Type 0
  IsTold changed = (KeepsOpen → changed ≡ true) × (Finishes → changed ≡ false)

  pub failed-Counts :
      (changed : Bool) (p : Pass)
      → IsTold changed
      → Counts p (if changed then count_failed p else p)
  failed-Counts true p told = record {
    scanned_same = refl;
    once = omega arith;
    counts = λ _. omega arith;
    unfailed = λ c. absurd (ground (arith, told.1 c));
  }
  failed-Counts false p told = record {
    scanned_same = refl;
    once = omega arith;
    counts = λ k. absurd (ground (arith, told.0 k));
    unfailed = λ _. refl;
  }
