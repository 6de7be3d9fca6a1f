-- ===== src/Jobs/Store/Waiting.antt =====
-- The wait for a lock is bounded, and its keys.
use Prim.Native.Nat.{◌/◌, ◌%◌}
use agentic_trading_platform.Prelude.{
  ℕ, zero, suc, ◌+◌, ◌-◌, ◌<◌, ◌≡◌, refl, sym, ◌∙◌, ap, Bool, true, false, Option, some, none,
  is_some, arith, leb, if◌then◌else◌,
}
use agentic_trading_platform.Prelude.Int.{ℤ, pos, negsuc, ◌≤ℤ◌, ◌<ℤ◌, ◌-ℤ◌}
use agentic_trading_platform.Jobs.World.{
  Environment, World, Action, JobError, next, raise_fault, statement, pure, ◌>>◌,
}
use agentic_trading_platform.Jobs.Ends.{Ends, ended, failed_with, Ends-continue, if-Ends}
use agentic_trading_platform.Jobs.Store.{
  acquire_until, try_acquire_preview_job_lock, answer_lock, smaller, sleep, advisory_lock_keys,
  signed,
}

-- A sleep brings the deadline nearer.
shorter :
    (deadline poll rounds time overrun : ℕ)
    → 0 < poll
    → leb deadline time ≡ false
    → deadline - time < suc rounds
    → deadline - (time + smaller poll (deadline - time) + overrun) < rounds
shorter deadline poll rounds time overrun h early k = ground arith

module _ {R : Type 0} (env : Environment) (job_id : ℕ) where
  raise_fault_keeps :
      (fault : Option JobError) (w : World R)
      → Ends (λ _ w'. w'.monotonic ≡ w.monotonic) (λ _ _. Unit {0}) (raise_fault fault w)
  raise_fault_keeps none w = ended refl
  raise_fault_keeps (some e) w = failed_with tt

  answer_lock_keeps :
      (answer : Bool) (w : World R) {time : ℕ}
      → w.monotonic ≡ time
      → Ends (λ _ w'. w'.monotonic ≡ time) (λ _ _. Unit {0}) (answer_lock env job_id answer w)
  answer_lock_keeps true w h = ended h
  answer_lock_keeps false w h = ended h

  try_acquire_keeps :
      (w : World R)
      → Ends
          (λ _ w'. w'.monotonic ≡ w.monotonic)
          (λ _ _. Unit {0})
          (try_acquire_preview_job_lock env job_id w)
  unfolding try_acquire_preview_job_lock
  try_acquire_keeps w =
      if-Ends env.postgresql
        (statement env >> (λ w. answer_lock env job_id (env.lock_free w.step job_id) w)) (pure true)
        w
        (λ _.
          Ends-continue _ (raise_fault_keeps (env.database w.step) w)
            (λ _ w h. answer_lock_keeps _ w h))
        (λ _. ended refl)

  again_answers :
      (acquired late : Bool) (pause : ℕ) (again : Action R (Option Bool)) (w : World R)
      → (late ≡ false
          → Ends
              (λ answer _. is_some answer ≡ true)
              (λ _ _. Unit {0})
              ((sleep env pause >> again) w))
      → Ends
          (λ answer _. is_some answer ≡ true)
          (λ _ _. Unit {0})
          (if acquired
            then pure (some true) w
            else if late
            then pure (some false) w
            else (sleep env pause >> again) w)
  again_answers true late pause again w rest = ended refl
  again_answers false true pause again w rest = ended refl
  again_answers false false pause again w rest = rest refl

  -- The loop of `acquire_preview_job_lock` ends: with a positive poll interval, it is left with an
  -- answer, or by an exception, within as many rounds as there are milliseconds up to the deadline
  -- and one more, whatever the database answers and however long the sleeps overrun.
  pub acquire_until_answers :
      (deadline poll rounds : ℕ) (w : World R)
      → 0 < poll
      → deadline - w.monotonic < rounds
      → Ends
          (λ answer _. is_some answer ≡ true)
          (λ _ _. Unit {0})
          (acquire_until env job_id deadline poll rounds w)
  unfolding acquire_until
  acquire_until_answers deadline poll zero w h k = absurd (omega arith)
  acquire_until_answers deadline poll (suc rounds) w h k =
      Ends-continue _ (try_acquire_keeps w) (λ acquired w' same.
        let pause = smaller poll (deadline - w'.monotonic) in
        again_answers acquired (leb deadline w'.monotonic) pause
          (acquire_until env job_id deadline poll rounds) w'
          (λ early.
            acquire_until_answers deadline poll rounds
              (record (next w') { monotonic = w'.monotonic + pause + env.overrun w'.step }) h
              (shorter deadline poll rounds w'.monotonic (env.overrun w'.step) h early
                (rw (← same) at k))))

-- What a key stands for, as an unsigned number of 32 bits.
abbrev unsigned : ℤ → ℕ
unsigned (pos n) = n
unsigned (negsuc n) = 4_294_967_296 - suc n

abbrev IsInt32 : ℤ → Type 0
IsInt32 key = (negsuc 2_147_483_647 ≤ℤ key) × (key <ℤ pos 2_147_483_648)

signed-IsInt32 : (value : ℕ) → value < 4_294_967_296 → IsInt32 (signed value)
unfolding ◌-ℤ◌
signed-IsInt32 value h = ground arith

unsigned-signed : (value : ℕ) → value < 4_294_967_296 → unsigned (signed value) ≡ value
unfolding ◌-ℤ◌
unsigned-signed value h = ground arith

-- The two keys of a job's lock are signed 32-bit integers, and identifiers with the same keys agree
-- in their 64 low bits.
pub advisory_lock_keys_bounded :
    (id other : ℕ)
    → (negsuc 2_147_483_647 ≤ℤ (advisory_lock_keys id).0)
      × ((advisory_lock_keys id).0 <ℤ pos 2_147_483_648)
      × (negsuc 2_147_483_647 ≤ℤ (advisory_lock_keys id).1)
      × ((advisory_lock_keys id).1 <ℤ pos 2_147_483_648)
      × (advisory_lock_keys id ≡ advisory_lock_keys other
          → id % 18_446_744_073_709_551_616 ≡ other % 18_446_744_073_709_551_616)
unfolding advisory_lock_keys
advisory_lock_keys_bounded id other =
    let (a, b) = signed-IsInt32 (id / 4_294_967_296 % 4_294_967_296) (omega arith) in
    let (c, e) = signed-IsInt32 (id % 4_294_967_296) (omega arith) in
    (
      a,
      b,
      c,
      e,
      λ same.
          let high =
            sym (unsigned-signed (id / 4_294_967_296 % 4_294_967_296) (omega arith))
            ∙ ap (λ keys. unsigned keys.0) same
            ∙ unsigned-signed (other / 4_294_967_296 % 4_294_967_296) (omega arith) in
          let low =
            sym (unsigned-signed (id % 4_294_967_296) (omega arith))
            ∙ ap (λ keys. unsigned keys.1) same
            ∙ unsigned-signed (other % 4_294_967_296) (omega arith) in
          omega (arith, high, low),
    )
