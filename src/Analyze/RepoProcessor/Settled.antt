-- ===== src/Analyze/RepoProcessor/Settled.antt =====
-- What a delivery of a task leaves behind.
use mathlib.Core.Option.{some-injective}
use golangci_api.Base.{
  ◌≡◌, ◌≢◌, refl, sym, subst, ap, ◌⊎◌, inl, inr, String, Bool, true, false, List, [], ◌∷◌, ◌++◌,
  Option, none, some, if_cases, str_eq, eq_iff,
}
use golangci_api.Analyze.Errors.{
  WorkError, executor_fail, cause, transform_error, error_to_status, build_public_error, returned,
  wrap_consuming, is_recoverable_error, is_recoverable_cause,
}
use golangci_api.Analyze.Errors.Retries.{retried_status}
use golangci_api.Analyze.RepoProcessor.{
  Update, processing, final, Env, store, update_status_to_processing, is_executor_fail, steps,
  recovered, submitted, process,
}

executor_fail-only : (c : WorkError) → is_executor_fail c ≡ true → c ≡ executor_fail
executor_fail-only executor_fail h = refl
executor_fail-only _ h = cc

abbrev pub succeeded : Option WorkError → Bool
succeeded none = true
succeeded (some e) = false

-- What an update leaves: it is stored once, or nothing is if the API does not take it.
abbrev pub Submitted : Env → Update → List Update → List Update → Type 0
Submitted v x u u' =
    (v.update_state u x ≡ true → u' ≡ u ++ x ∷ []) × (v.update_state u x ≡ false → u' ≡ u)

store-Submitted : (v : Env) (x : Update) (u : List Update) → Submitted v x u (store v x u)
store-Submitted v x u = (λ t. rw t refl, λ f. rw f refl)

-- What a task whose steps ended with `e` has left if it does not come again, and if it does.
abbrev pub SettledAfter :
    Env → Option WorkError → List Update → Option WorkError × List Update → Type 0
SettledAfter v e u (r, u') =
    (wrap_consuming (returned r) ≡ none
      → Submitted v (final (error_to_status e) (build_public_error e) (succeeded e)) u u')
    × (wrap_consuming (returned r) ≢ none
        → (u' ≡ u) ⊎ ((text : String) × Submitted v (final "error" text false) u u'))

module _ (v : Env) where
  executor-Settled :
      (e : WorkError) (u : List Update)
      → is_executor_fail (cause e) ≡ true
      → SettledAfter v (some e) u (some e, u)
  executor-Settled e u h =
      let again : is_recoverable_error e ≡ true =
        subst (λ c. is_recoverable_cause c ≡ true) (sym (executor_fail-only (cause e) h)) refl in
      rw again (λ n. cc, λ n. inl refl)

  failed-Settled :
      (e : WorkError) (u : List Update)
      → SettledAfter v (some e) u (
        transform_error (some e),
        store v (final (error_to_status (some e)) (build_public_error (some e)) false) u,
      )
  failed-Settled e u = (
    λ n. store-Submitted v (final (error_to_status (some e)) (build_public_error (some e)) false) u,
    λ n. inr (
      build_public_error (some e),
      subst
          (λ s.
            Submitted v (final s (build_public_error (some e)) false) u
              (store v (final (error_to_status (some e)) (build_public_error (some e)) false) u))
          (retried_status e 0 n).0
          (store-Submitted v (final (error_to_status (some e)) (build_public_error (some e)) false)
            u),
    ),
  )

  submitted-Settled :
      (e : Option WorkError) (u : List Update) → SettledAfter v e u (submitted v (e, u))
  submitted-Settled none u = (λ n. store-Submitted v _ u, λ n. absurd (n refl))
  submitted-Settled (some e) u =
      if_cases (SettledAfter v (some e) u) (is_executor_fail (cause e)) _ _ (executor-Settled e u)
        (λ f. failed-Settled e u)

  -- The update to "processing" that the task begins with, if the analysis waits in the queue.
  abbrev pub Begun : Option String → List Update → List Update → Type 0
  Begun status u u₁ =
      (status ≡ some "sent_to_queue" → Submitted v processing u u₁)
      × (status ≢ some "sent_to_queue" → u₁ ≡ u)

  update_status_to_processing-Begun :
      (status : Option String) (u : List Update)
      → Begun status u (update_status_to_processing v status u)
  update_status_to_processing-Begun none u = (λ e. cc, λ n. refl)
  update_status_to_processing-Begun (some status) u =
      if_cases (Begun (some status) u) (str_eq status "sent_to_queue") _ _
        (λ t. (
          λ e. store-Submitted v processing u,
          λ n. absurd (n (ap some ((eq_iff status "sent_to_queue").0 t))),
        ))
        (λ f.
          (λ e. let t = (eq_iff status "sent_to_queue").1 (some-injective _ _ e) in cc, λ n. refl))

  -- What a task leaves behind.
  abbrev pub Settled : List Update → Option WorkError × List Update → Type 0
  Settled u p =
      (u₁ : List Update) × Begun v.get_state u u₁ × SettledAfter v (recovered (steps v)) u₁ p

  -- A task first submits the state "processing", exactly if the analysis waits in the queue. If the
  -- task does not come again it has then submitted one final state, with the status and the text of
  -- the error that its steps ended with, if any, and with a result of the linters exactly if there
  -- was none. If the task comes again it has submitted no final state, or one with the status
  -- "error". A state that is submitted is stored once if the API takes the update, and otherwise
  -- nothing is stored, also for a task that does not come again. So it is whatever the steps
  -- return, and also if one of them panics.
  pub process-Settled : (u : List Update) → Settled u (process v u)
  unfolding process
  process-Settled u =
      let u₁ = update_status_to_processing v v.get_state u in
      (
        u₁,
        update_status_to_processing-Begun v.get_state u,
        submitted-Settled (recovered (steps v)) u₁,
      )
