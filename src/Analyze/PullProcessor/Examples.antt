-- ===== src/Analyze/PullProcessor/Examples.antt =====
-- A pull request with two issues, and one in progress whose executor fails.
use golangci_api.Base.{String, ◌≡◌, refl, [], ◌∷◌, none, some, inr}
use golangci_api.Analyze.Errors.{pending, failure, executor_fail, Ended, returned}
use golangci_api.Analyze.PullProcessor.{state_processing, state_final, commit_status, Env, process}
use golangci_api.Analyze.PullProcessor.Shown.{Shown, process-Shown}

abbrev env : String → Ended → Env
env title setup = record {
  get_pull_request = inr (record { title = title; state = "open" });
  get_state = some "sent_to_queue";
  setup_executor = setup;
  setup_workspace = returned none;
  patch = returned none;
  run_linters = returned none;
  issues = 2;
  lock = returned none;
  report = returned none;
  to_lower = λ s. s;
  to_upper = λ s. s;
}

abbrev reviewed : Env
reviewed = env "fix tests" (returned none)

shows_failure : process reviewed [] ≡ (
  none,
  commit_status pending ∷ state_processing ∷ state_final failure ∷ commit_status failure ∷ [],
)
unfolding process
shows_failure = refl

stays_pending :
    process (env "wip: fix tests" (returned (some executor_fail))) []
    ≡ (none, commit_status pending ∷ state_processing ∷ [])
unfolding process
stays_pending = refl

process-Shown_example : Shown reviewed [] (process reviewed [])
process-Shown_example = process-Shown reviewed []
