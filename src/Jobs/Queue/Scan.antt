-- ===== src/Jobs/Queue/Scan.antt =====
-- The scan of the queue and its registries is complete, or raises.
use agentic_trading_platform.Prelude.{
  ℕ, zero, suc, ◌+◌, ◌-◌, ◌≤◌, ◌<◌, ◌≡◌, refl, ap, subst, ◌∙◌, sym, Bool, true, false, Option, some,
  none, List, [], ◌∷◌, ◌++◌, String, length, length-append, take, arith, ok, >>-eq-ok, >>=-eq-ok,
  raise_if, runtime_error, ltb, at_head, further, Elem,
}
use agentic_trading_platform.Jobs.Queue.{
  RqJob, scan, scan_registries, preview_ids, preview_of, active_preview_job_ids, too_long, add,
}

take_all : {A : Type 0} (n : ℕ) (xs : List A) → length (take n xs) < n → take n xs ≡ xs
take_all zero xs h = absurd (omega arith)
take_all (suc n) [] h = refl
take_all (suc n) (x ∷ xs) h = ap (λ l. x ∷ l) (take_all n xs (omega arith))

take_short : {A : Type 0} (n : ℕ) (xs : List A) → length xs ≤ n → take n xs ≡ xs
take_short zero [] h = refl
take_short zero (x ∷ xs) h = absurd (omega arith)
take_short (suc n) [] h = refl
take_short (suc n) (x ∷ xs) h = ap (λ l. x ∷ l) (take_short n xs (omega arith))

-- The identifiers of the queue and of all registries.
abbrev pub all_ids : List String → List (List String) → List String
all_ids queue [] = queue
all_ids queue (registry ∷ registries) = all_ids (queue ++ registry) registries

raise_if-eq-ok :
    (bad : Bool) (message : String) → raise_if bad (runtime_error message) ≡ ok tt → bad ≡ false
raise_if-eq-ok true message h = absurd (cc)
raise_if-eq-ok false message h = refl

scan_registries_complete :
    (limit : ℕ) (found : List String) (registries : List (List String)) {ids : List String}
    → length found ≤ limit
    → scan_registries limit found registries ≡ ok ids
    → (ids ≡ all_ids found registries) × (length ids ≤ limit)
unfolding scan_registries
scan_registries_complete limit found [] h e = (cc, ground arith)
scan_registries_complete limit found (registry ∷ registries) {ids} h e =
    let (_, e) = >>-eq-ok (raise_if (ltb limit (length found)) (runtime_error too_long)) _ e in
    let part = take (limit - length found + 1) registry in
    let (fits, e) =
      >>-eq-ok (raise_if (ltb limit (length (found ++ part))) (runtime_error too_long)) _ e in
    let small = raise_if-eq-ok _ too_long fits in
    let whole : part ≡ registry = take_all _ registry (ground (arith, length-append found part)) in
    let (same, bound) =
      scan_registries_complete limit (found ++ part) registries (ground arith) e in
    (subst (λ l. ids ≡ all_ids (found ++ l) registries) whole same, bound)

Elem-add :
    (uuid : String → Option ℕ) (new : Option ℕ) {id : ℕ} {rest : List ℕ}
    → Elem id rest
    → Elem id (add uuid new rest)
Elem-add uuid none s = s
Elem-add uuid (some x) s = further s

Elem-preview_ids :
    (uuid : String → Option ℕ) (fetch_job : String → Option RqJob) (ids : List String)
    {rq_job_id : String} {id : ℕ}
    → Elem rq_job_id ids
    → preview_of uuid (fetch_job rq_job_id) ≡ some id
    → Elem id (preview_ids uuid fetch_job ids)
unfolding preview_ids
Elem-preview_ids uuid fetch_job [] s h = elim s [ ]
Elem-preview_ids uuid fetch_job (x ∷ ids) (at_head e) h = rw (← e, h) (at_head refl)
Elem-preview_ids uuid fetch_job (x ∷ ids) (further s) h =
    Elem-add uuid (preview_of uuid (fetch_job x)) (Elem-preview_ids uuid fetch_job ids s h)

-- A scan that returns is complete: the queue and its registries together hold at most `scan_limit`
-- jobs, and the identifier of each preview that one of these jobs runs is in the result.
pub active_preview_job_ids_complete :
    (uuid : String → Option ℕ) (fetch_job : String → Option RqJob) (queue : List String)
    (registries : List (List String)) (scan_limit : ℕ) {ids : List ℕ}
    → active_preview_job_ids uuid fetch_job queue registries scan_limit ≡ ok ids
    → (length (all_ids queue registries) ≤ scan_limit)
      × ((rq_job_id : String) (id : ℕ)
          → Elem rq_job_id (all_ids queue registries)
          → preview_of uuid (fetch_job rq_job_id) ≡ some id
          → Elem id ids)
unfolding active_preview_job_ids scan
active_preview_job_ids_complete uuid fetch_job queue registries scan_limit {ids} e =
    let (found, scanned, is_ids) = >>=-eq-ok (scan scan_limit queue registries) _ e in
    let part = take (scan_limit + 1) queue in
    let (fits, scanned) = >>-eq-ok (raise_if (ltb scan_limit (length part)) _) _ scanned in
    let small = raise_if-eq-ok _ _ fits in
    let whole : part ≡ queue = take_all _ queue (ground arith) in
    let (same, bound) =
      scan_registries_complete scan_limit part registries (ground arith) scanned in
    let all_found = same ∙ ap (λ l. all_ids l registries) whole in
    let result : preview_ids uuid fetch_job found ≡ ids = cc in
    (
      subst (λ l. length l ≤ scan_limit) all_found bound,
      λ rq_job_id id member runs. subst (Elem id) result (
          Elem-preview_ids uuid fetch_job found (subst (Elem rq_job_id) (sym all_found) member)
            runs),
    )
