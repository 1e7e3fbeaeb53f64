-- ===== src/Analyze/RepoProcessor.antt =====
-- pkg/worker/analyze/processors/repo_processor.go: the analysis of a repository. The state is the
-- list of updates that the API has stored, oldest first; an update that it does not store is only
-- logged. The steps of the executor, the workspace and the linters are parameters, each of which
-- may return an error or panic.
pub mod Settled
mod Examples
use golangci_api.Base.{
  String, Bool, true, false, List, [], ◌∷◌, ◌++◌, Option, none, some, str_eq, if◌then◌else◌,
}
use golangci_api.Analyze.Errors.{
  WorkError, executor_fail, internal, wrapped, cause, transform_error, error_to_status,
  build_public_error, Ended, returned, panicked, wrap_consuming,
}

-- What an update stores: "processing" in the state as it was read, or the final state with its
-- status, its public error, and whether it has a result of the linters.
pub data Update : Type 0 where
  processing : Update
  final : String → String → Bool → Update

-- The status that the API answers (none if it does not), whether State.UpdateState stores an update
-- after those that were stored before, Exec.Setup, Wi.Setup and Runner.Run.
pub record Env : Type 0 where
  pub get_state : Option String
  pub update_state : List Update → Update → Bool
  pub setup_executor : Ended
  pub setup_workspace : Ended
  pub run_linters : Ended

-- `return errors.Wrap(err, …)`
abbrev pub wrap_ended : Ended → Ended
wrap_ended (panicked text) = panicked text
wrap_ended (returned none) = returned none
wrap_ended (returned (some e)) = returned (some (wrapped e))

-- RunNewGroup of pkg/goenvbuild/result/run.go
abbrev pub run_new_group : Ended → Ended
run_new_group e = wrap_ended e

abbrev pub and_then : Ended → Ended → Ended
and_then (panicked text) rest = panicked text
and_then (returned (some e)) rest = returned (some e)
and_then (returned none) rest = rest

abbrev pub is_executor_fail : WorkError → Bool
is_executor_fail executor_fail = true
is_executor_fail _ = false

-- the deferred function of processPanicSafe
abbrev pub recovered : Ended → Option WorkError
recovered (returned e) = e
recovered (panicked text) = some (internal "internal error" text "" false)

module _ (v : Env) where
  -- State.UpdateState, whose error is only logged
  abbrev pub store : Update → List Update → List Update
  store x u = if v.update_state u x then u ++ x ∷ [] else u

  -- updateStatusToProcessing
  abbrev pub update_status_to_processing : Option String → List Update → List Update
  update_status_to_processing none u = u
  update_status_to_processing (some status) u =
      if str_eq status "sent_to_queue" then store processing u else u

  abbrev pub prepare : Ended
  prepare = wrap_ended v.setup_workspace

  abbrev pub steps : Ended
  steps =
      and_then (run_new_group (wrap_ended v.setup_executor))
        (and_then (wrap_ended prepare) (wrap_ended (run_new_group v.run_linters)))

  -- processPanicSafe
  abbrev pub process_panic_safe : List Update → Option WorkError × List Update
  process_panic_safe u = (recovered steps, update_status_to_processing v.get_state u)

  -- submitResult
  abbrev pub submit_result : Option WorkError → Bool → List Update → List Update
  submit_result e has_result u =
      store (final (error_to_status e) (build_public_error e) has_result) u

  abbrev pub submitted : Option WorkError × List Update → Option WorkError × List Update
  submitted (none, u) = (none, submit_result none true u)
  submitted (some e, u) =
      if is_executor_fail (cause e)
      then (some e, u)
      else (transform_error (some e), submit_result (some e) false u)

  -- Process
  unfoldable pub process : List Update → Option WorkError × List Update
  process u = submitted (process_panic_safe u)

  -- the task of the queue, whose error makes it come again
  abbrev pub consumed : List Update → Option WorkError
  consumed u = wrap_consuming (returned (process u).0)
