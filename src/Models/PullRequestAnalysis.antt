-- ===== src/Models/PullRequestAnalysis.antt =====
-- pkg/api/models/pull_request_analysis.go: the analysis of a commit of a pull request.
use golangci_api.Base.{ℕ, String, Bool, true, false, ◌&&◌, Option, none, some, ◌==◌, str_eq}

pub record PullRequestAnalysis : Type 0 where
  pub id : ℕ
  pub created_at : ℕ
  pub deleted_at : Option ℕ
  pub repo_id : ℕ
  pub pull_request_number : ℕ
  pub github_delivery_guid : String
  pub commit_sha : String
  pub status : String
  pub reported_issues_count : ℕ
  pub result_json : String

abbrev pub is_live : PullRequestAnalysis → Bool
is_live a = elim a.deleted_at [ none ↦ true | some t ↦ false ]

abbrev pub key : PullRequestAnalysis → ℕ
key a = a.id

abbrev pub with_id : ℕ → PullRequestAnalysis → Bool
with_id i a = a.id == i && is_live a

abbrev pub with_guid : String → PullRequestAnalysis → Bool
with_guid guid a = str_eq a.github_delivery_guid guid && is_live a
