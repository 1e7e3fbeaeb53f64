-- ===== src/Analyze/PullProcessor/Shown.antt =====
-- What the analysis of a pull request has shown when it ends.
use golangci_api.Base.{
  ◌≡◌, refl, ◌⊎◌, inl, inr, true, false, List, Option, none, some, if_cases, if◌then◌else◌, ◌==◌,
}
use golangci_api.Analyze.Errors.{
  Status, error, success, failure, WorkError, wrapped, cause, pull_error_to_status, Ended, returned,
  panicked,
}
use golangci_api.Analyze.RepoProcessor.{is_executor_fail, run_new_group, wrap_ended}
use golangci_api.Analyze.PullProcessor.{
  Pull, Call, Env, Part, update_status_to_processing, show, is_wip, analyze, guaranteed, after,
  with_workspace, with_executor, process_pull, unless_wip, finished, with_pull, process,
}

-- The status of an analysis without an error.
abbrev pub verdict : Env → Status
verdict v = if v.issues == 0 then success else failure

module _ (v : Env) where
  -- A part without an error has shown the verdict; any other has shown one status, or none.
  abbrev PartShown : List Call → Part → Type 0
  PartShown u (panicked text, u') = u' ≡ u
  PartShown u (returned none, u') = u' ≡ show (verdict v) u
  PartShown u (returned (some e), u') = (u' ≡ u) ⊎ ((s : Status) × (u' ≡ show s u))

  guaranteed-Shown : (e : Ended) (u : List Call) → PartShown u (guaranteed v e u)
  guaranteed-Shown (panicked text) u = refl
  guaranteed-Shown (returned none) u = refl
  guaranteed-Shown (returned (some e)) u =
      if_cases (PartShown u) (is_executor_fail (cause e)) _ _ (λ t. inl refl)
        (λ f. inr (pull_error_to_status (some e) v.issues, refl))

  after-Shown : (e : Ended) (pull : Pull) (u : List Call) → PartShown u (after v e pull u)
  after-Shown (panicked text) pull u = refl
  after-Shown (returned (some e)) pull u = inl refl
  after-Shown (returned none) pull u = guaranteed-Shown (analyze v pull) u

  workspace-Shown :
      (e : Ended) (pull : Pull) (u : List Call) → PartShown u (with_workspace v e pull u)
  workspace-Shown (panicked text) pull u = refl
  workspace-Shown (returned (some e)) pull u =
      if_cases (PartShown u) (is_executor_fail (cause e)) _ _ (λ t. inl refl)
        (λ f. inr (error, refl))
  workspace-Shown (returned none) pull u = after-Shown (run_new_group (wrap_ended v.patch)) pull u

  executor-Shown :
      (e : Ended) (pull : Pull) (u : List Call) → PartShown u (with_executor v e pull u)
  executor-Shown (panicked text) pull u = refl
  executor-Shown (returned (some e)) pull u = inl refl
  executor-Shown (returned none) pull u = workspace-Shown v.setup_workspace pull u

  -- What the whole has shown after the pull request was marked as being reviewed.
  abbrev pub PullShown : Pull → List Call → Option WorkError × List Call → Type 0
  PullShown pull u (none, u') =
      (u' ≡ show (verdict v) u)
      ⊎ ((is_wip v pull ≡ true) × ((u' ≡ u) ⊎ ((s : Status) × (u' ≡ show s u))))
  PullShown pull u (some e, u') =
      (is_wip v pull ≡ false) × ((u' ≡ u) ⊎ ((s : Status) × (u' ≡ show s u)))

  dropped-Shown :
      (pull : Pull) (e : WorkError) (u u' : List Call)
      → (u' ≡ u) ⊎ ((s : Status) × (u' ≡ show s u))
      → PullShown pull u (unless_wip v pull (some e), u')
  dropped-Shown pull e u u' h =
      if_cases (λ r. PullShown pull u (r, u')) (is_wip v pull) _ _ (λ t. inr (t, h)) (λ f. (f, h))

  finished-Shown :
      (pull : Pull) (u : List Call) (p : Part)
      → PartShown u p
      → PullShown pull u (finished v pull p)
  finished-Shown pull u (panicked text, u') h = dropped-Shown pull _ u u' (inl h)
  finished-Shown pull u (returned none, u') h = inl h
  finished-Shown pull u (returned (some e), u') h = dropped-Shown pull e u u' h

  -- By whether GitHub tells of the pull request.
  abbrev pub Shown : List Call → Option WorkError × List Call → Type 0
  Shown u p =
      ((e : WorkError) × (v.get_pull_request ≡ inl e) × (p ≡ (some (wrapped (wrapped e)), u)))
      ⊎ ((pull : Pull) × (v.get_pull_request ≡ inr pull)
          × PullShown pull (update_status_to_processing v.get_state u) p)

  with_pull-Shown :
      (x : WorkError ⊎ Pull) (u : List Call) → v.get_pull_request ≡ x → Shown u (with_pull v x u)
  with_pull-Shown (inl e) u q = inl (e, q, refl)
  with_pull-Shown (inr pull) u q = inr (
    pull,
    q,
    finished-Shown pull (update_status_to_processing v.get_state u) (process_pull v pull u) (
        executor-Shown (run_new_group (wrap_ended v.setup_executor)) pull
          (update_status_to_processing v.get_state u)),
  )

  -- An analysis of a pull request asks to store nothing if GitHub does not tell of the pull request,
  -- and returns that error. Otherwise it first asks to set the commit to pending and, if it was
  -- waiting in the queue, the state to "processing"; after that it asks for nothing or for exactly
  -- one status, in the final state and then on the commit. It returns no error only if that status
  -- is the verdict on the number of issues, or if the pull request is work in progress, whose
  -- errors are dropped whatever was asked for. So it is also if a step panics. That one of these
  -- calls fails is only logged.
  pub process-Shown : (u : List Call) → Shown u (process v u)
  unfolding process
  process-Shown u = with_pull-Shown v.get_pull_request u refl
