-- ===== src/Workers/Repos/Deleter.antt =====
-- pkg/api/workers/primaryqueue/repos/deleter.go: the consumer that disconnects a repository. It
-- removes the hook and the reviewer bot at the provider, then marks the row as deleted.
pub mod Removals
pub mod Effects
pub mod Retry
pub mod Examples
use golangci_api.Base.{ℕ, String, Bool, List, some, ◌==◌, if◌then◌else◌}
use golangci_api.Errors.{Error, Result, ok, err, wrap, permanent, message, is_record_not_found}
use golangci_api.Sql.{Sql}
use golangci_api.Models.Repo.{
  Repo, CommitState, delete_init, delete_sent_to_queue, delete_done, in_states,
}
use golangci_api.Workers.Repos.Provider.{ref_of, RepoRef, Provider, is_not_found}

pub record DeleteMessage : Type 0 where
  pub user_id : ℕ
  pub repo_id : ℕ

-- The server of the table, the factory of providers, the provider that it builds, and the time.
pub record Env (S : Type 0) : Type 0 where
  pub repo_db : Sql Repo
  pub connect : Result (Unit {0})
  pub build_for_user : ℕ → Result (Unit {0})
  pub provider : Provider S
  pub now : ℕ

pub record World (S : Type 0) : Type 0 where
  pub rows : List Repo
  pub remote : S

-- The filter of `NewRepoQuerySet(gormDB.Unscoped()).IDEq(…)`, which sees deleted rows too.
abbrev pub with_any_id : ℕ → Repo → Bool
with_any_id i r = r.id == i

abbrev pub set_deleted : ℕ → Repo → Repo
set_deleted now r = record r { commit_state = delete_done; deleted_at = some now }

-- `if err != nil { if err == provider.ErrNotFound { warn } else { return errors.Wrap(err, …) } }`
abbrev pub tolerate_not_found : {S : Type 0} → Result (Unit {0}) × S → Result (Unit {0}) × S
tolerate_not_found (ok _, s) = (ok tt, s)
tolerate_not_found (err e, s) = if is_not_found e then (ok tt, s) else (err (wrap e), s)

abbrev pub wrapped_result : {S : Type 0} → Result (Unit {0}) × World S → Result (Unit {0}) × World S
wrapped_result (ok _, w) = (ok tt, w)
wrapped_result (err e, w) = (err (wrap e), w)

module _ {S : Type 0} (v : Env S) where
  -- `if n != 1 { return fmt.Errorf(…) }`
  unfoldable pub store_deleted : Repo → World S → Result (Unit {0}) × World S
  store_deleted repo w =
      elim (v.repo_db.updates (in_states repo.id delete_init delete_sent_to_queue)
        (set_deleted v.now) w.rows) [
          | err e ↦ (err (wrap e), w)
          | ok (n, rows) ↦ (
            if n == 1 then ok tt else err (message "race condition during update repo"),
            record w { rows = rows },
          )
        ]

  abbrev pub without_collaborator :
      Repo → List Repo → Result (Unit {0}) × S → Result (Unit {0}) × World S
  without_collaborator repo rows (err e, s) = (err e, record { rows = rows; remote = s })
  without_collaborator repo rows (ok _, s) = store_deleted repo (record { rows = rows; remote = s })

  -- the calls of the provider are made with the token of this user
  abbrev pub without_hook :
      ℕ → Repo → List Repo → Result (Unit {0}) × S → Result (Unit {0}) × World S
  without_hook user repo rows (err e, s) = (err e, record { rows = rows; remote = s })
  without_hook user repo rows (ok _, s) =
      without_collaborator repo rows
        (tolerate_not_found (v.provider.remove_collaborator user (ref_of repo) s))

  unfoldable pub delete_repo : ℕ → Repo → World S → Result (Unit {0}) × World S
  unfolding store_deleted
  delete_repo user repo w =
      without_hook user repo w.rows
        (tolerate_not_found (v.provider.delete_repo_hook user (ref_of repo) w.remote))

  -- the `switch repo.CommitState`
  unfoldable pub dispatch_delete : ℕ → CommitState → Repo → World S → Result (Unit {0}) × World S
  unfolding delete_repo
  dispatch_delete user delete_init repo w = wrapped_result (delete_repo user repo w)
  dispatch_delete user delete_sent_to_queue repo w = wrapped_result (delete_repo user repo w)
  dispatch_delete user _ repo w = (err (message "invalid repo commit state"), w)

  unfoldable pub run : DeleteMessage → World S → Result (Unit {0}) × World S
  unfolding dispatch_delete
  run m w = elim (v.repo_db.first (with_any_id m.repo_id) w.rows) [
    | err e ↦ (err (if is_record_not_found e then wrap permanent else wrap e), w)
    | ok repo ↦ elim (v.build_for_user m.user_id) [
      | err e ↦ (err (wrap e), w)
      | ok _ ↦ dispatch_delete m.user_id repo.commit_state repo w
    ]
  ]

  unfoldable pub consume_message : DeleteMessage → World S → Result (Unit {0}) × World S
  unfolding run
  consume_message m w = elim v.connect [ err e ↦ (err (wrap e), w) | ok _ ↦ run m w ]
