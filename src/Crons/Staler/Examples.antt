-- ===== src/Crons/Staler/Examples.antt =====
-- A staler that finds one analysis that is too old.
use golangci_api.Base.{ℕ, ◌≡◌, refl, [], ◌∷◌, false}
use golangci_api.Errors.{ok}
use golangci_api.Sql.{reliable}
use golangci_api.Sql.Select.Reliable.{reliable_select}
use golangci_api.Models.PullRequestAnalysis.{PullRequestAnalysis}
use golangci_api.PrAnalyses.Examples.{api, analysis}
use golangci_api.Crons.Staler.{Env, set_stale, run_iteration}
use golangci_api.Crons.Staler.Iteration.{Moved, run_iteration-Moved}

abbrev env : Env
env = record {
  repo_db = reliable;
  repos = api ∷ [];
  analysis_db = reliable;
  analysis_select = reliable_select;
  exclude_repos = [];
  equal_fold = λ x y. false;
  build_for_user = λ u. ok tt;
  get_pull_request = λ r n. ok "aa";
  set_commit_status = λ r sha. ok tt;
}

abbrev running : ℕ → PullRequestAnalysis
running i = record (analysis i "aa") { status = "processing" }

gives_up :
    run_iteration env 100 50 (running 10 ∷ running 90 ∷ [])
    ≡ (ok 1, set_stale (running 10) ∷ running 90 ∷ [])
unfolding run_iteration reliable reliable_select
gives_up = refl

run_iteration-Moved_example :
    Moved env 100 50
      (running 10 ∷ running 90 ∷ [])
      (run_iteration env 100 50 (running 10 ∷ running 90 ∷ [])).1
run_iteration-Moved_example =
    run_iteration-Moved env 100 50 (running 10 ∷ running 90 ∷ []) (refl, (refl, tt))
