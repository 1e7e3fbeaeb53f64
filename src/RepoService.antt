-- ===== src/RepoService.antt =====
-- pkg/api/services/repo/service.go: connecting a repository that has a row already, and
-- disconnecting one. The service marks the row and sends a message to the queues of
-- pkg/api/workers/primaryqueue/repos.
pub mod Effects
pub mod Requests
pub mod Recreate
pub mod Handover
pub mod Creation
pub mod Subscribed
pub mod Created
mod CreationExamples
mod Examples
use golangci_api.Base.{
  ℕ, String, Bool, true, ◌&&◌, List, [], ◌∷◌, ◌++◌, ◌==◌, str_eq, if◌then◌else◌,
}
use golangci_api.Errors.{Error, Result, ok, err, wrap, message}
use golangci_api.Sql.{Sql}
use golangci_api.Models.Repo.{
  Repo, CommitState, create_init, create_sent_to_queue, create_created_repo, create_done,
  delete_init, delete_sent_to_queue, in_state, is_live, is_creating, is_deleting,
}
use golangci_api.Workers.Repos.Deleter.{DeleteMessage}

-- returntypes.RepoInfo, without the owner that it shows
pub record RepoInfo : Type 0 where
  pub id : ℕ
  pub name : String
  pub hook_id : String
  pub is_admin : Bool
  pub is_deleting : Bool
  pub is_creating : Bool
  pub is_activated : Bool
  pub create_fail_reason : String

-- The caller, as rc.Auth has it.
pub record Auth : Type 0 where
  pub user_id : ℕ
  pub provider : String

-- The table, and the messages that the queues have accepted, oldest first.
pub record World : Type 0 where
  pub rows : List Repo
  pub create_queue : List ℕ
  pub delete_queue : List DeleteMessage

-- The server of the table, the provider (its `IsAdmin` of a repository) and the queues.
pub record Deps : Type 0 where
  pub repo_db : Sql Repo
  pub build_provider : Auth → Result (Unit {0})
  pub is_admin : Repo → Result Bool
  pub put_create : ℕ → Result (Unit {0})
  pub put_delete : DeleteMessage → Result (Unit {0})

abbrev pub with_any_id : ℕ → Repo → Bool
with_any_id i r = r.id == i

abbrev pub with_id_at : ℕ → String → Repo → Bool
with_id_at i provider r = r.id == i && str_eq r.provider provider

abbrev pub set_commit_state : CommitState → Repo → Repo
set_commit_state s r = record r { commit_state = s }

abbrev pub build_response_repo : Repo → RepoInfo
build_response_repo repo = record {
  id = repo.id;
  name = repo.display_full_name;
  hook_id = repo.hook_id;
  is_admin = true;
  is_deleting = is_deleting repo;
  is_creating = is_creating repo;
  is_activated = is_live repo;
  create_fail_reason = repo.create_fail_reason;
}

abbrev pub delete_message : ℕ → Auth → DeleteMessage
delete_message id auth = record { user_id = auth.user_id; repo_id = id }

module _ (d : Deps) where
  -- That no row was changed is logged only: the consumer may have moved the row on already.
  unfoldable pub finish_queue_sending :
      Repo → CommitState → CommitState → World → Result RepoInfo × World
  finish_queue_sending repo exp_state set_state w =
      elim (d.repo_db.updates (in_state repo.id exp_state) (set_commit_state set_state) w.rows) [
        | err e ↦ (err (wrap e), w)
        | ok (n, rows) ↦
            (ok (build_response_repo (set_commit_state set_state repo)), record w { rows = rows })
      ]

  unfoldable pub send_to_create_queue : Repo → World → Result RepoInfo × World
  unfolding finish_queue_sending
  send_to_create_queue repo w = elim (d.put_create repo.id) [
    | err e ↦ (err (wrap e), w)
    | ok _ ↦
        finish_queue_sending repo create_init create_sent_to_queue
          (record w { create_queue = w.create_queue ++ repo.id ∷ [] })
  ]

  unfoldable pub create_already_existing_repo : CommitState → Repo → World → Result RepoInfo × World
  unfolding send_to_create_queue
  create_already_existing_repo create_init repo w = send_to_create_queue repo w
  create_already_existing_repo create_sent_to_queue repo w = (ok (build_response_repo repo), w)
  create_already_existing_repo create_created_repo repo w = (ok (build_response_repo repo), w)
  create_already_existing_repo create_done repo w = (ok (build_response_repo repo), w)
  create_already_existing_repo _ repo w = (err (message "invalid repo commit state"), w)

  unfoldable pub send_to_delete_queue : Auth → Repo → World → Result RepoInfo × World
  unfolding finish_queue_sending
  send_to_delete_queue auth repo w = elim (d.put_delete (delete_message repo.id auth)) [
    | err e ↦ (err (wrap e), w)
    | ok _ ↦
        finish_queue_sending repo delete_init delete_sent_to_queue
          (record w { delete_queue = w.delete_queue ++ delete_message repo.id auth ∷ [] })
  ]

  -- `if n != 1 { return nil, fmt.Errorf("race condition …") }`, then the queue
  unfoldable pub mark_deleting : Auth → Repo → World → Result RepoInfo × World
  unfolding send_to_delete_queue
  mark_deleting auth repo w =
      elim (d.repo_db.updates (in_state repo.id create_done) (set_commit_state delete_init)
        w.rows) [
          | err e ↦ (err (wrap e), w)
          | ok (n, rows) ↦
              if n == 1
              then send_to_delete_queue auth repo (record w { rows = rows })
              else (err (message "race condition during update repo"), record w { rows = rows })
        ]

  unfoldable pub start_delete : Auth → Repo → World → Result RepoInfo × World
  unfolding mark_deleting
  start_delete auth repo w = elim (d.build_provider auth) [
    | err e ↦ (err (wrap e), w)
    | ok _ ↦ elim (d.is_admin repo) [
      | err e ↦ (err (wrap e), w)
      | ok admin ↦
          if admin
          then mark_deleting auth repo w
          else (err (message "no admin permission on repo"), w)
    ]
  ]

  -- the `switch repo.CommitState` of Delete
  unfoldable pub dispatch_delete : CommitState → Auth → Repo → World → Result RepoInfo × World
  unfolding start_delete
  dispatch_delete create_done auth repo w = start_delete auth repo w
  dispatch_delete delete_init auth repo w = send_to_delete_queue auth repo w
  dispatch_delete delete_sent_to_queue auth repo w = (ok (build_response_repo repo), w)
  dispatch_delete _ auth repo w = (err (message "invalid repo commit state"), w)

  unfoldable pub delete : Auth → ℕ → World → Result RepoInfo × World
  unfolding dispatch_delete
  delete auth id w = elim (d.repo_db.first (with_id_at id auth.provider) w.rows) [
    | err e ↦ (err (wrap e), w)
    | ok repo ↦
        if is_live repo
        then dispatch_delete repo.commit_state auth repo w
        else (ok (build_response_repo repo), w)
  ]

  pub get : ℕ → World → Result RepoInfo
  get id w = elim (d.repo_db.first (with_any_id id) w.rows) [
    | err e ↦ err (wrap e)
    | ok repo ↦ ok (build_response_repo repo)
  ]
