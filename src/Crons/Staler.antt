-- ===== src/Crons/Staler.antt =====
-- pkg/api/crons/pranalyzes/staler.go: an analysis that has waited or run for too long is given up.
pub mod Served
pub mod Iteration
mod Examples
use golangci_api.Base.{
  ℕ, ◌-◌, ◌+◌, String, Bool, true, false, ◌&&◌, ◌||◌, List, [], ◌∷◌, none, ltb, length, str_eq,
  ◌==◌, if◌then◌else◌,
}
use golangci_api.Errors.{
  Error, Result, ok, err, wrap, wrapped, provider_not_found, provider_unauthorized, ◌>>=◌,
}
use golangci_api.Sql.{Sql}
use golangci_api.Sql.Select.{Select}
use golangci_api.Models.Repo.{Repo}
use golangci_api.Models.PullRequestAnalysis.{PullRequestAnalysis, is_live, with_id}

-- The database, the provider and the configuration. `equal_fold` is strings.EqualFold.
pub record Env : Type 0 where
  pub repo_db : Sql Repo
  pub repos : List Repo
  pub analysis_db : Sql PullRequestAnalysis
  pub analysis_select : Select PullRequestAnalysis
  pub exclude_repos : List String
  pub equal_fold : String → String → Bool
  pub build_for_user : ℕ → Result (Unit {0})
  pub get_pull_request : Repo → ℕ → Result String
  pub set_commit_status : Repo → String → Result (Unit {0})

abbrev pub is_waiting : PullRequestAnalysis → Bool
is_waiting a = str_eq a.status "sent_to_queue" || str_eq a.status "processing"

-- StatusIn("sent_to_queue", "processing").CreatedAtLt(now - timeout)
abbrev pub is_stale : ℕ → ℕ → PullRequestAnalysis → Bool
is_stale now timeout a = is_waiting a && (ltb (a.created_at + timeout) now && is_live a)

abbrev pub unordered : PullRequestAnalysis → ℕ
unordered a = 0

abbrev pub with_any_id : ℕ → Repo → Bool
with_any_id i r = r.id == i

abbrev pub set_stale : PullRequestAnalysis → PullRequestAnalysis
set_stale a = record a { status = "forced_stale" }

abbrev pub is_unrecoverable : Error → Bool
is_unrecoverable provider_unauthorized = true
is_unrecoverable provider_not_found = true
is_unrecoverable _ = false

-- an error of the provider, and whether it stops the update
abbrev pub unless_unrecoverable : Result (Unit {0}) → Result (Unit {0})
unless_unrecoverable (ok _) = ok tt
unless_unrecoverable (err e) = if is_unrecoverable e then ok tt else err (wrap e)

module _ (v : Env) where
  abbrev pub excluded : Repo → List String → Bool
  excluded r [] = false
  excluded r (x ∷ xs) = v.equal_fold x r.full_name || excluded r xs

  abbrev pub status_of_pull : Repo → Result String → Result (Unit {0})
  status_of_pull r (err e) = unless_unrecoverable (err e)
  status_of_pull r (ok sha) = unless_unrecoverable (v.set_commit_status r sha)

  -- setGithubStatus
  abbrev pub set_github_status : PullRequestAnalysis → Repo → Result (Unit {0})
  set_github_status a r = wrapped (v.build_for_user r.user_id) >>= λ u.
      status_of_pull r (v.get_pull_request r a.pull_request_number)

  abbrev pub stored :
      Result (ℕ × List PullRequestAnalysis)
      → List PullRequestAnalysis
      → Result (Unit {0}) × List PullRequestAnalysis
  stored (err e) t = (err (wrap e), t)
  stored (ok (n, t')) t = (ok tt, t')

  abbrev pub give_up :
      PullRequestAnalysis
      → Result (Unit {0})
      → List PullRequestAnalysis
      → Result (Unit {0}) × List PullRequestAnalysis
  give_up a (err e) t = (err e, t)
  give_up a (ok _) t = stored (v.analysis_db.updates (with_id a.id) set_stale t) t

  abbrev pub update_of_repo :
      PullRequestAnalysis
      → Result Repo
      → List PullRequestAnalysis
      → Result (Unit {0}) × List PullRequestAnalysis
  update_of_repo a (err e) t = (err (wrap e), t)
  update_of_repo a (ok r) t =
      if excluded r v.exclude_repos then (ok tt, t) else give_up a (set_github_status a r) t

  -- updateStaleAnalysis
  abbrev pub update_stale_analysis :
      PullRequestAnalysis → List PullRequestAnalysis → Result (Unit {0}) × List PullRequestAnalysis
  update_stale_analysis a t = update_of_repo a (v.repo_db.first (with_any_id a.repo_id) v.repos) t

  -- the loop; an error is only logged
  abbrev pub update_all :
      List PullRequestAnalysis → List PullRequestAnalysis → List PullRequestAnalysis
  update_all [] t = t
  update_all (a ∷ rest) t = update_all rest (update_stale_analysis a t).1

  abbrev pub iterate :
      Result (List PullRequestAnalysis)
      → List PullRequestAnalysis
      → Result ℕ × List PullRequestAnalysis
  iterate (err e) t = (err (wrap e), t)
  iterate (ok analyzes) t = (ok (length analyzes), update_all analyzes t)

  -- RunIteration
  unfoldable pub run_iteration :
      ℕ → ℕ → List PullRequestAnalysis → Result ℕ × List PullRequestAnalysis
  run_iteration now timeout t =
      iterate (v.analysis_select.select (is_stale now timeout) unordered none t) t
