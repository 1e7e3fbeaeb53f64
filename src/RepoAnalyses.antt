-- ===== src/RepoAnalyses.antt =====
-- pkg/api/services/repoanalysis/service.go: the report of a repository's default branch, and the
-- update that the worker sends when it has a result.
pub mod Rendered
pub mod Access
mod Examples
use golangci_api.Base.{
  ℕ, String, Bool, true, false, not, ◌&&◌, ◌||◌, List, [], ◌∷◌, Option, none, some, ◌==◌, str_eq,
  if◌then◌else◌,
}
use golangci_api.Errors.{Error, Result, ok, err, wrap, wrapped, is_record_not_found}
use golangci_api.Sql.{Sql}
use golangci_api.Sql.Select.{Select}
use golangci_api.Models.Repo.{Repo, RepoAnalysisStatus, is_live_status}
use golangci_api.Models.Repo as RepoModel
use golangci_api.Models.RepoAnalysis.{RepoAnalysis, is_live, with_id, with_guid}
use golangci_api.Authorizer.{Session, authorize}
use golangci_api.Authorizer as Authorizer
use golangci_api.Policy.RepoRead.{
  UniversalRepo, CacheKey, CacheServer, Answers, can_read_private_repo,
}

-- Status: the analysis is absent where the code leaves the zero value
pub record Status : Type 0 where
  pub analysis : Option RepoAnalysis
  pub github_repo_name : String
  pub next_analysis_status : String
  pub is_preparing : Bool
  pub repo_is_not_connected : Bool
  pub is_empty : Bool

abbrev pub empty_status : String → Status
empty_status name = record {
  analysis = none;
  github_repo_name = name;
  next_analysis_status = "";
  is_preparing = false;
  repo_is_not_connected = false;
  is_empty = false;
}

abbrev pub not_connected : String → Status
not_connected name = record (empty_status name) { repo_is_not_connected = true }

abbrev pub preparing : String → Status
preparing name = record (empty_status name) { is_preparing = true }

abbrev pub empty : String → Status
empty name = record (empty_status name) { is_empty = true }

abbrev pub rendered : RepoAnalysis → String → String → Status
rendered a next name = record (empty_status name) { analysis = some a; next_analysis_status = next }

-- isCompleteAnalysisStatus
abbrev pub is_complete_analysis_status : String → Bool
is_complete_analysis_status s = str_eq s "processed" || str_eq s "error"

abbrev pub planned : Bool → String
planned pending = if pending then "planned" else ""

-- the last analysis is not complete; is there one before it that is?
abbrev pub running : RepoAnalysis → List RepoAnalysis → String → Status
running a [] name = rendered a "" name
running a (b ∷ rest) name =
    if is_complete_analysis_status b.status then rendered b a.status name else rendered a "" name

-- buildStatus
abbrev pub build_status : List RepoAnalysis → String → Bool → Status
build_status [] name pending = preparing name
build_status (a ∷ rest) name pending =
    if is_complete_analysis_status a.status
    then rendered a (planned pending) name
    else running a rest name

pub record Env : Type 0 where
  pub repo_db : Sql Repo
  pub status_db : Sql RepoAnalysisStatus
  pub analysis_db : Sql RepoAnalysis
  pub analysis_select : Select RepoAnalysis
  pub authorizer : Authorizer.Deps
  pub cache : CacheServer
  pub answers : Answers
  pub admin_login : String
  pub universal : Repo → UniversalRepo

pub record Tables : Type 0 where
  pub repos : List Repo
  pub statuses : List RepoAnalysisStatus
  pub analyses : List RepoAnalysis

abbrev pub named : String → Repo → Bool
named lower_name r = str_eq r.full_name lower_name && RepoModel.is_live r

abbrev pub of_repo : ℕ → RepoAnalysisStatus → Bool
of_repo i st = st.repo_id == i && is_live_status st

-- the filter, with the GUID if there is one
abbrev pub of_status : ℕ → String → RepoAnalysis → Bool
of_status i guid a =
    a.repo_analysis_status_id == i && (is_live a && (str_eq guid "" || str_eq a.analysis_guid guid))

abbrev pub by_id : RepoAnalysis → ℕ
by_id a = a.id

abbrev pub result_or_empty : Option String → String
result_or_empty none = "{}"
result_or_empty (some json) = json

-- the two columns of the update; a result that is absent is stored as "{}"
abbrev pub set_result : String → Option String → RepoAnalysis → RepoAnalysis
set_result status result a = record a { status = status; result_json = result_or_empty result }

-- `name` is the full name of the request, `lower_name` what strings.ToLower makes of it.
module _ (v : Env) (s : Session) (name lower_name guid : String) (t : Tables) where
  abbrev pub built : RepoAnalysisStatus → String → Result (List RepoAnalysis) → Result Status
  built st display (err e) = err (wrap e)
  built st display (ok l) = ok (build_status l display st.has_pending_changes)

  abbrev pub status_found : String → Result RepoAnalysisStatus → Result Status
  status_found display (err e) =
      if is_record_not_found e then ok (preparing display) else err (wrap e)
  status_found display (ok st) =
      if st.is_empty
      then ok (empty display)
      else built st display
          (v.analysis_select.select (of_status st.id guid) by_id (some 2) t.analyses)

  abbrev pub report : Repo → Result Status
  report r = status_found r.display_full_name (v.status_db.first (of_repo r.id) t.statuses)

  abbrev pub if_permitted : Repo → Result (Unit {0}) × List CacheKey → Result Status × List CacheKey
  if_permitted r (err e, c) = (err e, c)
  if_permitted r (ok _, c) = (report r, c)

  abbrev pub checked : Bool → Repo → List CacheKey → Result Status × List CacheKey
  checked false r c = (report r, c)
  checked true r c = if_permitted r (
      can_read_private_repo v.cache v.answers v.admin_login (v.universal r)
        (authorize v.authorizer s) c)

  abbrev pub repo_found : Result Repo → List CacheKey → Result Status × List CacheKey
  repo_found (err e) c =
      (if is_record_not_found e then ok (not_connected name) else err (wrap e), c)
  repo_found (ok r) c = checked r.is_private r c

  -- GetStatus
  unfoldable pub get_status : List CacheKey → Result Status × List CacheKey
  get_status c = repo_found (v.repo_db.first (named lower_name) t.repos) c

module _ (v : Env) (guid : String) (t : Tables) where
  -- GetByAnalysisGUID
  abbrev pub get_by_analysis_guid : Result RepoAnalysis
  get_by_analysis_guid = wrapped (v.analysis_db.first (with_guid guid) t.analyses)

  abbrev pub stored : Result (ℕ × List RepoAnalysis) → Result (Unit {0}) × Tables
  stored (err e) = (err (wrap e), t)
  stored (ok (n, analyses)) = (ok tt, record t { analyses = analyses })

  abbrev pub update_found :
      String → Option String → Result RepoAnalysis → Result (Unit {0}) × Tables
  update_found status result (err e) = (err (wrap e), t)
  update_found status result (ok a) =
      stored (v.analysis_db.updates (with_id a.id) (set_result status result) t.analyses)

  -- UpdateByAnalysisGUID
  unfoldable pub update_by_analysis_guid : String → Option String → Result (Unit {0}) × Tables
  update_by_analysis_guid status result =
      update_found status result (v.analysis_db.first (with_guid guid) t.analyses)
