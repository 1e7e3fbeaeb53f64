-- ===== src/Analyze/PullProcessor.antt =====
-- pkg/worker/analyze/processors/basic_pull_processor.go: the analysis of a pull request. The state
-- is the list of what the processor asks the API and GitHub to store, oldest first; that one of
-- these calls fails is only logged. The steps are parameters, each of which may return an error or
-- panic. The texts of the errors that the processor makes are shortened.
pub mod Shown
mod Examples
use text.Mathlib.Text.{starts_with}
use golangci_api.Base.{
  ℕ, String, Bool, true, false, ◌||◌, List, [], ◌∷◌, ◌++◌, Option, none, some, str_eq, ◌⊎◌, inl,
  inr, if◌then◌else◌,
}
use golangci_api.Analyze.Errors.{
  Status, pending, error, success, WorkError, internal, ignored, wrapped, cause, user_is_blocked,
  commit_is_not_part_of_pull, transform_error, pull_error_to_status, Ended, returned, panicked,
}
use golangci_api.Analyze.RepoProcessor.{
  and_then, wrap_ended, run_new_group, is_executor_fail, recovered,
}

pub record Pull : Type 0 where
  pub title : String
  pub state : String

-- The final state has the status "processed/" and the name of that status.
pub data Call : Type 0 where
  state_processing : Call
  state_final : Status → Call
  commit_status : Status → Call

-- The pull request, the status that the API answers (none if it does not), Exec.Setup, Wi.Setup,
-- the fetching and copying of the patch, Runner.Run with the number of its issues, the lock, and
-- Reporter.Report.
pub record Env : Type 0 where
  pub get_pull_request : WorkError ⊎ Pull
  pub get_state : Option String
  pub setup_executor : Ended
  pub setup_workspace : Ended
  pub patch : Ended
  pub run_linters : Ended
  pub issues : ℕ
  pub lock : Ended
  pub report : Ended
  pub to_lower : String → String
  pub to_upper : String → String

-- How a part has ended, and the calls up to then.
abbrev pub Part : Type 0
Part = Ended × List Call

-- updateStatusToProcessing, without the commit status at its start
abbrev pub state_to_processing : Option String → List Call → List Call
state_to_processing none u = u
state_to_processing (some status) u =
    if str_eq status "sent_to_queue" then u ++ state_processing ∷ [] else u

abbrev pub update_status_to_processing : Option String → List Call → List Call
update_status_to_processing status u = state_to_processing status (u ++ commit_status pending ∷ [])

-- updateAnalysisState, then setCommitStatus: both calls are made, whether or not the first one or
-- the second one fails, and neither error goes further than the log.
abbrev pub show : Status → List Call → List Call
show status u = u ++ state_final status ∷ commit_status status ∷ []

abbrev pub report_cause : WorkError → WorkError
report_cause user_is_blocked = internal "blocked in the organization" "" "" true
report_cause commit_is_not_part_of_pull = internal "commit is not part of the pull" "" "" true
report_cause e = internal "can't send pull request comments to github" "" "" false

abbrev pub report_ended : Ended → Ended
report_ended (panicked text) = panicked text
report_ended (returned none) = returned none
report_ended (returned (some e)) = returned (some (report_cause (cause e)))

module _ (v : Env) where
  abbrev pub is_wip : Pull → Bool
  is_wip pull =
      starts_with (v.to_lower pull.title) "wip " || starts_with (v.to_lower pull.title) "wip:"

  abbrev pub check_pull : Pull → Ended
  check_pull pull =
      if str_eq (v.to_upper pull.state) "MERGED" || str_eq (v.to_upper pull.state) "CLOSED"
      then returned (some (ignored success "Pull Request is already merged or closed"))
      else returned none

  abbrev pub analyze : Pull → Ended
  analyze pull =
      and_then (run_new_group (check_pull pull))
        (and_then v.run_linters (and_then (wrap_ended v.lock) (report_ended v.report)))

  abbrev pub guaranteed : Ended → List Call → Part
  guaranteed (panicked text) u = (panicked text, u)
  guaranteed (returned none) u = (returned none, show (pull_error_to_status none v.issues) u)
  guaranteed (returned (some e)) u =
      if is_executor_fail (cause e)
      then (returned (some e), u)
      else (returned (transform_error (some e)), show (pull_error_to_status (some e) v.issues) u)

  abbrev pub process_with_guaranteed_github_status : Pull → List Call → Part
  process_with_guaranteed_github_status pull u = guaranteed (analyze pull) u

  abbrev pub after : Ended → Pull → List Call → Part
  after (panicked text) pull u = (panicked text, u)
  after (returned (some e)) pull u = (returned (some e), u)
  after (returned none) pull u = process_with_guaranteed_github_status pull u

  -- preparePatch, and what follows it
  abbrev pub prepare_patch : Pull → List Call → Part
  prepare_patch pull u = after (run_new_group (wrap_ended v.patch)) pull u

  -- setupWorkspace, and what follows it
  abbrev pub with_workspace : Ended → Pull → List Call → Part
  with_workspace (panicked text) pull u = (panicked text, u)
  with_workspace (returned (some e)) pull u =
      if is_executor_fail (cause e)
      then (returned (some e), u)
      else (returned (some (wrapped e)), show error u)
  with_workspace (returned none) pull u = prepare_patch pull u

  abbrev pub with_executor : Ended → Pull → List Call → Part
  with_executor (panicked text) pull u = (panicked text, u)
  with_executor (returned (some e)) pull u = (returned (some e), u)
  with_executor (returned none) pull u = with_workspace v.setup_workspace pull u

  abbrev pub process_pull : Pull → List Call → Part
  process_pull pull u =
      with_executor (run_new_group (wrap_ended v.setup_executor)) pull
        (update_status_to_processing v.get_state u)

  -- An error of a pull request that is work in progress is dropped.
  abbrev pub unless_wip : Pull → Option WorkError → Option WorkError
  unless_wip pull none = none
  unless_wip pull (some e) = if is_wip pull then none else some e

  abbrev pub finished : Pull → Part → Option WorkError × List Call
  finished pull (r, u) = (unless_wip pull (recovered r), u)

  abbrev pub with_pull : WorkError ⊎ Pull → List Call → Option WorkError × List Call
  with_pull (inl e) u = (some (wrapped (wrapped e)), u)
  with_pull (inr pull) u = finished pull (process_pull pull u)

  -- Process
  unfoldable pub process : List Call → Option WorkError × List Call
  process u = with_pull v.get_pull_request u
