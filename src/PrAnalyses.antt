-- ===== src/PrAnalyses.antt =====
-- pkg/api/services/pranalysis/service.go: the state of the analyses of a pull request, and the
-- update that the worker sends when it has a result.
pub mod Previous
pub mod Shown
pub mod Requests
pub mod Examples
use golangci_api.Base.{
  ℕ, String, Bool, true, false, not, ◌&&◌, ◌||◌, List, [], ◌∷◌, ◌++◌, map, Option, none, some, ◌==◌,
  str_eq, length, if◌then◌else◌,
}
use golangci_api.Errors.{
  Error, Result, ok, err, wrap, wrapped, message, not_found, record_not_found, ◌>>=◌,
}
use golangci_api.Sql.{Sql}
use golangci_api.Sql.Select.{Select}
use golangci_api.Models.Repo.{Repo}
use golangci_api.Models.Repo as RepoModel
use golangci_api.Models.PullRequestAnalysis.{PullRequestAnalysis, is_live, with_id, with_guid}
use golangci_api.Authorizer.{Session, authorize}
use golangci_api.Authorizer as Authorizer
use golangci_api.Policy.RepoRead.{
  UniversalRepo, CacheKey, CacheServer, Answers, can_read_private_repo,
}

pub record SamePullStateLink : Type 0 where
  pub commit_sha : String
  pub created_at : ℕ

pub record State : Type 0 where
  pub id : ℕ
  pub status : String
  pub reported_issues_count : ℕ
  pub result_json : String
  pub commit_sha : String
  pub github_pull_request_number : ℕ
  pub github_repo_name : String
  pub previous_analyzes : List SamePullStateLink

abbrev pub state_from_analysis : PullRequestAnalysis → String → State
state_from_analysis a full_name = record {
  id = a.id;
  status = a.status;
  reported_issues_count = a.reported_issues_count;
  result_json = a.result_json;
  commit_sha = a.commit_sha;
  github_pull_request_number = a.pull_request_number;
  github_repo_name = full_name;
  previous_analyzes = [];
}

-- RepoPullRequest
pub record RepoPullRequest : Type 0 where
  pub provider : String
  pub owner : String
  pub name : String
  pub full_name : String
  pub pull_request_number : ℕ
  pub commit_sha : String

abbrev pub max_previous_analyzes_count : ℕ
max_previous_analyzes_count = 5

abbrev pub seen : String → List String → Bool
seen sha [] = false
seen sha (x ∷ xs) = str_eq x sha || seen sha xs

abbrev pub link_of : PullRequestAnalysis → SamePullStateLink
link_of a = record { commit_sha = a.commit_sha; created_at = a.created_at }

-- The loop over `analyzes[1:]`, with the commits that it has seen and the links that it has.
abbrev pub add_previous :
    List PullRequestAnalysis → List String → List SamePullStateLink → List SamePullStateLink
add_previous [] shas links = links
add_previous (a ∷ rest) shas links = elim (seen a.commit_sha shas) [
  | true ↦ add_previous rest shas links
  | false ↦
      let links' = links ++ link_of a ∷ [] in
      elim (length links' == max_previous_analyzes_count) [
        | true ↦ links'
        | false ↦ add_previous rest (a.commit_sha ∷ shas) links'
      ]
]

-- The database, the provider and the cache server behind the policy, the configuration, and what
-- the methods Owner and Repo and the column CreatedAt give for a repository.
pub record Env : Type 0 where
  pub repo_db : Sql Repo
  pub repo_select : Select Repo
  pub analysis_db : Sql PullRequestAnalysis
  pub analysis_select : Select PullRequestAnalysis
  pub authorizer : Authorizer.Deps
  pub cache : CacheServer
  pub answers : Answers
  pub admin_login : String
  pub service_access_token : String → String
  pub build_for_token : String → String → Result (Unit {0})
  pub provider_repo_id : String → String → Result ℕ
  pub universal : Repo → UniversalRepo
  pub repo_created_at : Repo → ℕ

pub record Tables : Type 0 where
  pub repos : List Repo
  pub analyses : List PullRequestAnalysis

abbrev pub repo_named : RepoPullRequest → Repo → Bool
repo_named req r = str_eq r.full_name req.full_name && str_eq r.provider req.provider

abbrev pub repo_at_provider : RepoPullRequest → ℕ → Repo → Bool
repo_at_provider req i r =
    str_eq r.provider req.provider && (r.provider_id == i && RepoModel.is_live r)

abbrev pub id_in : ℕ → List ℕ → Bool
id_in i [] = false
id_in i (j ∷ ids) = j == i || id_in i ids

abbrev pub of_pull_request : ℕ → List ℕ → PullRequestAnalysis → Bool
of_pull_request number repo_ids a =
    a.pull_request_number == number && (id_in a.repo_id repo_ids && is_live a)

abbrev pub of_commit : ℕ → List ℕ → String → PullRequestAnalysis → Bool
of_commit number repo_ids sha a = of_pull_request number repo_ids a && str_eq a.commit_sha sha

abbrev pub by_id : PullRequestAnalysis → ℕ
by_id a = a.id

abbrev pub repo_id_of : Repo → ℕ
repo_id_of r = r.id

abbrev pub unordered : Repo → ℕ
unordered r = 0

-- `One`, on a query with an order
abbrev pub one : {R : Type 0} → Result (List R) → Result R
one (err e) = err e
one (ok []) = err record_not_found
one (ok (r ∷ l)) = ok r

abbrev pub not_empty : {R : Type 0} → String → List R → Result (List R)
not_empty text [] = err (message text)
not_empty text (r ∷ l) = ok (r ∷ l)

module _ (v : Env) (s : Session) (req : RepoPullRequest) (t : Tables) where
  abbrev pub renamed_with : ℕ → Result (List Repo)
  renamed_with i =
      wrapped (v.repo_select.select (repo_at_provider req i) unordered none t.repos)
      >>= not_empty "repos with this provider id weren't found"

  -- tryGetRenamedRepo
  abbrev pub try_get_renamed_repo : Result (List Repo)
  try_get_renamed_repo =
      let token = v.service_access_token req.provider in
      if str_eq token ""
      then err (message "no config param")
      else wrapped (v.build_for_token req.provider token)
        >>= (λ u. wrapped (v.provider_repo_id req.owner req.name))
        >>= renamed_with

  abbrev pub or_not_found : Result (List Repo) → Result (List Repo)
  or_not_found (err e) = err (wrap not_found)
  or_not_found (ok repos) = ok repos

  abbrev pub or_renamed : Result (List Repo) → Result (List Repo)
  or_renamed (err e) = err (wrap e)
  or_renamed (ok []) = or_not_found try_get_renamed_repo
  or_renamed (ok (r ∷ repos)) = ok (r ∷ repos)

  abbrev pub found_repos : Result (List Repo)
  found_repos = or_renamed (v.repo_select.select (repo_named req) v.repo_created_at none t.repos)

  abbrev pub if_permitted :
      List ℕ → String → Result (Unit {0}) × List CacheKey → Result (List ℕ × String) × List CacheKey
  if_permitted ids full_name (err e, c) = (err e, c)
  if_permitted ids full_name (ok _, c) = (ok (ids, full_name), c)

  -- the check of the first repository, by whether it is private
  abbrev pub checked :
      Bool → Repo → List ℕ → List CacheKey → Result (List ℕ × String) × List CacheKey
  checked false r ids c = (ok (ids, r.full_name), c)
  checked true r ids c = if_permitted ids r.full_name (
      can_read_private_repo v.cache v.answers v.admin_login (v.universal r)
        (authorize v.authorizer s) c)

  -- the empty list does not come here
  abbrev pub ids_of : Result (List Repo) → List CacheKey → Result (List ℕ × String) × List CacheKey
  ids_of (err e) c = (err e, c)
  ids_of (ok []) c = (err (wrap not_found), c)
  ids_of (ok (r ∷ repos)) c = checked r.is_private r (map repo_id_of (r ∷ repos)) c

  -- getRepoIDsForPullRequest
  abbrev pub get_repo_ids_for_pull_request :
      List CacheKey → Result (List ℕ × String) × List CacheKey
  get_repo_ids_for_pull_request c = ids_of found_repos c

  abbrev pub commit_state : List ℕ → String → Result State
  commit_state ids full_name =
      wrapped (
        one (
          v.analysis_select.select (of_commit req.pull_request_number ids req.commit_sha) by_id
            (some 1) t.analyses))
      >>= λ a. ok (state_from_analysis a full_name)

  abbrev pub newest_state : String → List PullRequestAnalysis → Result State
  newest_state full_name [] = err (message "got 0 pull request analyzes")
  newest_state full_name (a ∷ rest) = ok (record (state_from_analysis a full_name) {
    previous_analyzes = add_previous rest (a.commit_sha ∷ []) [];
  })

  abbrev pub last_state : List ℕ → String → Result State
  last_state ids full_name =
      wrapped (
        v.analysis_select.select (of_pull_request req.pull_request_number ids) by_id (some 15)
          t.analyses)
      >>= newest_state full_name

  abbrev pub state_of : List ℕ → String → Result State
  state_of ids full_name =
      if str_eq req.commit_sha "" then last_state ids full_name else commit_state ids full_name

  abbrev pub state_in : Result (List ℕ × String) × List CacheKey → Result State × List CacheKey
  state_in (err e, c) = (err e, c)
  state_in (ok (ids, full_name), c) = (state_of ids full_name, c)

  -- GetAnalysisStateByPRNumber
  unfoldable pub get_analysis_state_by_pr_number : List CacheKey → Result State × List CacheKey
  get_analysis_state_by_pr_number c = state_in (get_repo_ids_for_pull_request c)

abbrev pub result_or_empty : Option String → String
result_or_empty none = "{}"
result_or_empty (some json) = json

-- the three columns of the update; a result that is absent is stored as "{}"
abbrev pub set_state : String → ℕ → Option String → PullRequestAnalysis → PullRequestAnalysis
set_state status issues result a = record a {
  status = status;
  reported_issues_count = issues;
  result_json = result_or_empty result;
}

module _ (v : Env) (guid : String) (t : Tables) where
  abbrev pub repo_name_of : PullRequestAnalysis → Result State
  repo_name_of a = wrapped (v.repo_db.first (RepoModel.with_id a.repo_id) t.repos) >>= λ r.
      ok (state_from_analysis a r.full_name)

  -- GetAnalysisStateByAnalysisGUID
  abbrev pub get_analysis_state_by_analysis_guid : Result State
  get_analysis_state_by_analysis_guid =
      wrapped (v.analysis_db.first (with_guid guid) t.analyses) >>= repo_name_of

  abbrev pub stored : Result (ℕ × List PullRequestAnalysis) → Result (Unit {0}) × Tables
  stored (err e) = (err (wrap e), t)
  stored (ok (n, analyses)) = (ok tt, record t { analyses = analyses })

  abbrev pub update_found :
      String → ℕ → Option String → Result PullRequestAnalysis → Result (Unit {0}) × Tables
  update_found status issues result (err e) = (err (wrap e), t)
  update_found status issues result (ok a) =
      stored (v.analysis_db.updates (with_id a.id) (set_state status issues result) t.analyses)

  -- UpdateAnalysisStateByAnalysisGUID
  unfoldable pub update_analysis_state_by_analysis_guid :
      String → ℕ → Option String → Result (Unit {0}) × Tables
  update_analysis_state_by_analysis_guid status issues result =
      update_found status issues result (v.analysis_db.first (with_guid guid) t.analyses)
