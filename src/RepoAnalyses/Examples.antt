-- ===== src/RepoAnalyses/Examples.antt =====
-- The report of a private repository: the newest analysis is running, the one before is complete.
use golangci_api.Base.{ℕ, String, ◌≡◌, refl, [], ◌∷◌, none, false}
use golangci_api.Errors.{ok}
use golangci_api.Sql.{reliable}
use golangci_api.Sql.Select.Reliable.{reliable_select}
use golangci_api.Models.Repo.{RepoAnalysisStatus}
use golangci_api.Models.RepoAnalysis.{RepoAnalysis}
use golangci_api.Policy.RepoRead.Examples.{server, shows, repo}
use golangci_api.PrAnalyses.Examples.{api, session}
use golangci_api.RepoAnalyses.{Env, Tables, rendered, get_status, update_by_analysis_guid}
use golangci_api.RepoAnalyses.Access.{Reported, get_status-Reported}

abbrev env : Env
env = record {
  repo_db = reliable;
  status_db = reliable;
  analysis_db = reliable;
  analysis_select = reliable_select;
  authorizer = record { auth_db = reliable; user_db = reliable };
  cache = server;
  answers = shows;
  admin_login = "admin";
  universal = λ r. repo;
}

abbrev status : RepoAnalysisStatus
status = record {
  id = 3;
  deleted_at = none;
  repo_id = 1;
  last_analyzed_at = none;
  last_analyzed_linters_version = "";
  has_pending_changes = false;
  pending_commit_sha = "";
  version = 0;
  default_branch = "master";
  is_empty = false;
  active = false;
}

abbrev analysis : ℕ → String → RepoAnalysis
analysis i st = record {
  id = i;
  deleted_at = none;
  repo_analysis_status_id = 3;
  analysis_guid = "g";
  status = st;
  commit_sha = "aa";
  result_json = "{}";
}

abbrev tables : Tables
tables = record {
  repos = api ∷ [];
  statuses = status ∷ [];
  analyses = analysis 1 "processed" ∷ analysis 2 "processing" ∷ [];
}

report_of_api :
    (get_status env session "Acme/api" "acme/api" "" tables []).0
    ≡ ok (rendered (analysis 1 "processed") "processing" "acme/api")
unfolding get_status reliable reliable_select
report_of_api = refl

update_of_api :
    (update_by_analysis_guid env "g" tables "error" none).1.analyses
    ≡ analysis 1 "error" ∷ analysis 2 "processing" ∷ []
unfolding update_by_analysis_guid reliable
update_of_api = refl

get_status-Reported_example :
    Reported env session "Acme/api" "acme/api" "" tables []
      (get_status env session "Acme/api" "acme/api" "" tables [])
get_status-Reported_example = get_status-Reported env session "Acme/api" "acme/api" "" tables []
