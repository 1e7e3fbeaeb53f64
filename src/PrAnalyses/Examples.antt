-- ===== src/PrAnalyses/Examples.antt =====
-- The analyses of pull request 5 of a private repository.
use golangci_api.Base.{ℕ, String, ◌≡◌, refl, [], ◌∷◌, none, some, true}
use golangci_api.Base.Int.{pos}
use golangci_api.Errors.{ok}
use golangci_api.Sql.{reliable}
use golangci_api.Sql.Select.Reliable.{reliable_select}
use golangci_api.Models.Repo.{Repo, create_done}
use golangci_api.Models.PullRequestAnalysis.{PullRequestAnalysis}
use golangci_api.Authorizer.{Session}
use golangci_api.Policy.RepoRead.Examples.{server, shows, repo, ann, ann_user}
use golangci_api.PrAnalyses.{
  Env, Tables, RepoPullRequest, State, get_analysis_state_by_pr_number,
  update_analysis_state_by_analysis_guid,
}
use golangci_api.PrAnalyses.Shown.{Shown}
use golangci_api.PrAnalyses.Requests.{Updated, update_analysis_state_by_analysis_guid-Updated}

abbrev env : Env
env = record {
  repo_db = reliable;
  repo_select = reliable_select;
  analysis_db = reliable;
  analysis_select = reliable_select;
  authorizer = record { auth_db = reliable; user_db = reliable };
  cache = server;
  answers = shows;
  admin_login = "admin";
  service_access_token = λ p. "t";
  build_for_token = λ p k. ok tt;
  provider_repo_id = λ o n. ok 40;
  universal = λ r. repo;
  repo_created_at = λ r. 0;
}

abbrev pub api : Repo
api = record {
  id = 1;
  deleted_at = none;
  user_id = 7;
  full_name = "acme/api";
  display_full_name = "acme/api";
  hook_id = "h";
  provider = "github.com";
  provider_hook_id = 2;
  provider_id = 40;
  commit_state = create_done;
  is_private = true;
  create_fail_reason = "";
  stargazers_count = pos 0;
}

abbrev pub analysis : ℕ → String → PullRequestAnalysis
analysis i sha = record {
  id = i;
  created_at = i;
  deleted_at = none;
  repo_id = 1;
  pull_request_number = 5;
  github_delivery_guid = sha;
  commit_sha = sha;
  status = "processed/success";
  reported_issues_count = 0;
  result_json = "{}";
}

abbrev tables : Tables
tables = record {
  repos = api ∷ [];
  analyses = analysis 1 "aa" ∷ analysis 2 "aa" ∷ analysis 3 "bb" ∷ [];
}

abbrev pub session : Session
session = record { auths = ann ∷ []; users = ann_user ∷ []; user_id = ok (some 7) }

abbrev request : RepoPullRequest
request = record {
  provider = "github.com";
  owner = "acme";
  name = "api";
  full_name = "acme/api";
  pull_request_number = 5;
  commit_sha = "";
}

shown :
    (s : State) × ((get_analysis_state_by_pr_number env session request tables []).0 ≡ ok s)
    × (s.commit_sha ≡ "bb")
unfolding get_analysis_state_by_pr_number reliable reliable_select
shown = (_, refl, refl)

update_analysis_state_by_analysis_guid-Updated_example :
    Updated env "bb" tables "error" 3 none
      (update_analysis_state_by_analysis_guid env "bb" tables "error" 3 none)
update_analysis_state_by_analysis_guid-Updated_example =
    update_analysis_state_by_analysis_guid-Updated env "bb" tables "error" 3 none
