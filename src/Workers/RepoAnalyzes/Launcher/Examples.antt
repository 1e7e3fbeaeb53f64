-- ===== src/Workers/RepoAnalyzes/Launcher/Examples.antt =====
-- A launch and its redelivery at concrete inputs.
use golangci_api.Base.{◌≡◌, ◌≢◌, refl, inl, [], ◌∷◌, ◌++◌, none, false, true}
use golangci_api.Errors.{ok}
use golangci_api.Sql.{reliable, count_where}
use golangci_api.Models.Repo.{RepoAnalysisStatus}
use golangci_api.Workers.Repos.Creator.Examples.{fresh}
use golangci_api.Workers.RepoAnalyzes.Launcher.{
  Env, World, LaunchMessage, with_analysis_guid, new_analysis, pending_copy, set_launched,
  set_pending, run_message, run,
}
use golangci_api.Workers.RepoAnalyzes.Launcher.Launched.{Launched, run-Launched}
use golangci_api.Workers.RepoAnalyzes.Launcher.Redelivery.{count_guid, run_creates_analysis_once}

abbrev env : Env
env = record {
  connect = ok tt;
  start_tx = ok tt;
  commit = ok tt;
  rollback = ok tt;
  status_db = reliable;
  repo_db = reliable;
  repos = fresh ∷ [];
  auth_db = reliable;
  auths = [];
  count_analyses = λ p t. ok (count_where p t);
  create_analysis = λ a t. ok (t ++ a ∷ []);
  put_run = λ r. ok tt;
  new_guid = "g0";
  now = 70;
  count_law = λ p t. inl refl;
  create_law = λ a t. inl refl;
}

abbrev branch : RepoAnalysisStatus
branch = record {
  id = 2;
  deleted_at = none;
  repo_id = 4;
  last_analyzed_at = none;
  last_analyzed_linters_version = "";
  has_pending_changes = false;
  pending_commit_sha = "";
  version = 5;
  default_branch = "master";
  is_empty = false;
  active = true;
}

abbrev pushed : LaunchMessage
pushed = record { repo_id = 4; commit_sha = "abc"; analysis_guid = "g1" }

abbrev before : World
before = record { statuses = branch ∷ []; analyses = []; sent = [] }

abbrev after : World
after = record {
  statuses = set_launched 70 7 (set_pending pushed 6 branch) ∷ [];
  analyses = new_analysis (pending_copy pushed branch) pushed ∷ [];
  sent = run_message fresh pushed branch "" ∷ [];
}

launches : run env pushed before ≡ (ok tt, after)
unfolding run reliable
launches = refl

run-Launched_example : Launched env (with_analysis_guid env pushed) before (run env pushed before)
run-Launched_example = run-Launched env pushed before (refl, tt)

run_creates_analysis_once_example :
    (count_guid "g1" after ≢ 0) × ((run env pushed after).1.analyses ≡ after.analyses)
run_creates_analysis_once_example =
    run_creates_analysis_once env env pushed before (λ e. cc) launches
