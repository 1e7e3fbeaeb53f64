-- ===== src/Models/RepoAnalysis.antt =====
-- pkg/api/models/repo_analysis.go: an analysis of the default branch, as it is read.
use golangci_api.Base.{ℕ, String, Bool, true, false, ◌&&◌, Option, none, some, ◌==◌, str_eq}

pub record RepoAnalysis : Type 0 where
  pub id : ℕ
  pub deleted_at : Option ℕ
  pub repo_analysis_status_id : ℕ
  pub analysis_guid : String
  pub status : String
  pub commit_sha : String
  pub result_json : String

abbrev pub is_live : RepoAnalysis → Bool
is_live a = elim a.deleted_at [ none ↦ true | some t ↦ false ]

abbrev pub key : RepoAnalysis → ℕ
key a = a.id

abbrev pub with_id : ℕ → RepoAnalysis → Bool
with_id i a = a.id == i && is_live a

abbrev pub with_guid : String → RepoAnalysis → Bool
with_guid guid a = str_eq a.analysis_guid guid && is_live a
