-- ===== src/PrAnalyses/Shown.antt =====
-- Which analysis a request about a pull request is shown.
use mathlib.Core.List.Memᴰ.{Memᴰ}
use golangci_api.Base.{ℕ, ◌≡◌, ◌⊎◌, String, true, false, List, ◌∷◌, some, map}
use golangci_api.Errors.{Result, ok, err}
use golangci_api.Sql.Select.{Selected}
use golangci_api.Models.Repo.{Repo}
use golangci_api.Models.PullRequestAnalysis.{PullRequestAnalysis}
use golangci_api.Authorizer.{Session, authorize}
use golangci_api.Policy.RepoRead.{CacheKey}
use golangci_api.Policy.RepoRead.Private.{MayReadPrivate}
use golangci_api.PrAnalyses.{
  State, RepoPullRequest, Env, Tables, state_from_analysis, of_pull_request, of_commit, by_id,
  repo_id_of, found_repos,
}
use golangci_api.PrAnalyses.Previous.{Recent}

module _ (v : Env) (s : Session) (req : RepoPullRequest) (t : Tables) where
  -- The analysis of a state is a row of the pull request in one of these repositories.
  abbrev pub RowOf : List ℕ → PullRequestAnalysis → Type 0
  RowOf ids a = Memᴰ a t.analyses × (of_pull_request req.pull_request_number ids a ≡ true)

  -- The newest row of the commit that the request asks for, or the newest row with links to the
  -- analyses after it among the newest fifteen.
  abbrev pub StateOf : List ℕ → String → State → Type 0
  StateOf ids full_name st =
      (a : PullRequestAnalysis) × RowOf ids a
      × (((a.commit_sha ≡ req.commit_sha)
            × ((rest : List PullRequestAnalysis) × Selected
                  (of_commit req.pull_request_number ids req.commit_sha) by_id (some 1) t.analyses
                  (a ∷ rest))
            × (st ≡ state_from_analysis a full_name))
          ⊎ ((req.commit_sha ≡ "")
              × ((rest : List PullRequestAnalysis) × Selected
                    (of_pull_request req.pull_request_number ids) by_id (some 15) t.analyses
                    (a ∷ rest)
                  × Recent a.commit_sha rest st.previous_analyzes
                  × (st ≡ record (state_from_analysis a full_name) {
                    previous_analyzes = st.previous_analyzes;
                  }))))

  -- The repositories of the request's name were found, the first of them is public or the caller
  -- may read it, and the state is one of theirs.
  abbrev pub Shown : List CacheKey → Result State × List CacheKey → Type 0
  Shown c (err e, c') = Unit {0}
  Shown c (ok st, c') =
      (r : Repo) × (rest : List Repo) × (found_repos v s req t ≡ ok (r ∷ rest))
      × ((r.is_private ≡ false)
          ⊎ MayReadPrivate v.cache v.answers v.admin_login (v.universal r)
              (authorize v.authorizer s) c)
      × StateOf (map repo_id_of (r ∷ rest)) r.full_name st
