-- ===== src/Analyze/Errors/Retries.antt =====
-- Which errors of an analysis make its task come again.
use golangci_api.Base.{
  subst, sym, ℕ, String, ◌≡◌, ◌≢◌, ◌↔◌, refl, true, false, none, some, Bool-cases, inl, inr,
}
use golangci_api.Analyze.Errors.{
  WorkError, error, no_branch_or_repo, no_commit, nothing_to_analyze, unrecoverable, executor_fail,
  pr_not_found, unauthorized, user_is_blocked, commit_is_not_part_of_pull, internal, bad_input,
  ignored, other, wrapped, cause, says_no_go_files, transform_with, transform_error,
  error_to_status, pull_error_to_status, is_recoverable_error, is_recoverable_cause, returned,
  wrap_consuming, cause_to_status, pull_cause_status,
}

-- The causes that may go away by themselves.
pub data Passing : WorkError → Type 0 where
  executor : Passing executor_fail
  internal_error :
      (public_desc private_desc std_err : String)
      → says_no_go_files std_err ≡ false
      → Passing (internal public_desc private_desc std_err false)
  unknown : (text : String) → Passing (other text)

abbrev pub Transient : WorkError → Type 0
Transient e = Passing (cause e)

not_wrapped : (e x : WorkError) → cause e ≢ wrapped x
not_wrapped (wrapped e) x h = not_wrapped e x h
not_wrapped no_branch_or_repo x h = cc
not_wrapped no_commit x h = cc
not_wrapped nothing_to_analyze x h = cc
not_wrapped unrecoverable x h = cc
not_wrapped executor_fail x h = cc
not_wrapped pr_not_found x h = cc
not_wrapped unauthorized x h = cc
not_wrapped user_is_blocked x h = cc
not_wrapped commit_is_not_part_of_pull x h = cc
not_wrapped (internal a b c d) x h = cc
not_wrapped (bad_input a) x h = cc
not_wrapped (ignored a b) x h = cc
not_wrapped (other a) x h = cc

-- An error that is passed on as it is, by its cause.
passed_on :
    (e c : WorkError) → cause e ≡ c → is_recoverable_error e ≡ true → is_recoverable_cause c ≡ true
passed_on e c q h = subst (λ x. is_recoverable_cause x ≡ true) q h

sound :
    (e c : WorkError) → cause e ≡ c → is_recoverable_error (transform_with e c) ≡ true → Passing c
sound e (wrapped x) q h = absurd (not_wrapped e x q)
sound e executor_fail q h = executor
sound e (other text) q h = unknown text
sound e (internal a b s true) q h = elim (Bool-cases (says_no_go_files s)) [
  | inl t ↦ let wrong : false ≡ true = rw t at h in cc
  | inr f ↦ let wrong : false ≡ true = rw f at h in cc
]
sound e (internal a b s false) q h = elim (Bool-cases (says_no_go_files s)) [
  | inl t ↦ let wrong : false ≡ true = rw t at h in cc
  | inr f ↦ internal_error a b s f
]
sound e pr_not_found q h = let wrong = passed_on e pr_not_found q h in cc
sound e unauthorized q h = let wrong = passed_on e unauthorized q h in cc
sound e user_is_blocked q h = let wrong = passed_on e user_is_blocked q h in cc
sound e commit_is_not_part_of_pull q h =
    let wrong = passed_on e commit_is_not_part_of_pull q h in cc
sound e unrecoverable q h = let wrong = passed_on e unrecoverable q h in cc
sound e no_branch_or_repo q h = cc
sound e no_commit q h = cc
sound e nothing_to_analyze q h = cc
sound e (bad_input a) q h = cc
sound e (ignored a b) q h = cc

complete :
    (e c : WorkError) → cause e ≡ c → Passing c → is_recoverable_error (transform_with e c) ≡ true
complete e _ q executor = subst (λ x. is_recoverable_cause x ≡ true) (sym q) refl
complete e _ q (unknown text) = subst (λ x. is_recoverable_cause x ≡ true) (sym q) refl
complete e _ q (internal_error a b s f) = rw f refl

-- A task whose analysis has failed comes again exactly if the cause of its error is a failed
-- executor, an internal error that is neither permanent nor says that there are no Go files, or an
-- error that the worker does not know.
pub wrap_consuming_iff :
    (e : WorkError) → (wrap_consuming (returned (transform_error (some e))) ≢ none) ↔ Transient e
wrap_consuming_iff e = elim (Bool-cases (is_recoverable_error (transform_with e (cause e)))) [
  | inl t ↦ (λ n. sound e (cause e) refl t, λ p. rw t (λ no_error. cc))
  | inr f ↦ (λ n. absurd (n (rw f refl)), λ p. let t = complete e (cause e) refl p in cc)
]

Passing-status :
    (c : WorkError) → Passing c → (cause_to_status c ≡ "error") × (pull_cause_status c ≡ error)
Passing-status _ executor = (refl, refl)
Passing-status _ (unknown text) = (refl, refl)
Passing-status _ (internal_error a b s f) = (rw f refl, rw f refl)

-- A task comes again only if its analysis is shown with the status "error", and so is its pull
-- request: what is shown as processed, as not found or as a success stays so.
pub retried_status :
    (e : WorkError) (issues : ℕ)
    → wrap_consuming (returned (transform_error (some e))) ≢ none
    → (error_to_status (some e) ≡ "error") × (pull_error_to_status (some e) issues ≡ error)
retried_status e issues n = Passing-status (cause e) ((wrap_consuming_iff e).0 n)
