-- ===== src/CommitStates/System.antt =====
-- The operations on the table of repositories, in any order: the requests of the service
-- (pkg/api/services/repo/service.go), the two consumers (pkg/api/workers/primaryqueue/repos) with
-- messages that may come late or twice, and the job of pkg/api/crons/repoinfo.
use golangci_api.Base.{ℕ, ◌≡◌, refl, inl, inr, Bool-cases, List, [], ◌∷◌, Option, none, some}
use golangci_api.Errors.{Result, ok, err}
use golangci_api.Models.Repo.{Repo, RepoAnalysisStatus, with_id}
use golangci_api.RepoService
use golangci_api.Workers.Repos.Connection
use golangci_api.Workers.Repos.Creator
use golangci_api.Workers.Repos.Deleter
use golangci_api.Crons.RepoInfo
use golangci_api.CommitStates.Protocol.{here}
use golangci_api.CommitStates.Tables.{
  TableFollows, TableFollows-refl, TableFollows-trans, Moves, updates-TableFollows,
}
use golangci_api.CommitStates.Requests.{delete-TableFollows, recreate-TableFollows}
use golangci_api.CommitStates.Rounds.{RunFollows, create_message-RunFollows}
use golangci_api.CommitStates.Deletion.{delete_message-TableFollows}

-- The two tables, the queues, what the creation consumer has asked for, and the provider.
pub record System (S : Type 0) : Type 0 where
  pub rows : List Repo
  pub statuses : List RepoAnalysisStatus
  pub create_queue : List ℕ
  pub delete_queue : List Deleter.DeleteMessage
  pub effects : List Connection.Effect
  pub remote : S

-- Each operation has its own answers of the services. A request to connect a row again has read
-- the row before.
pub data Operation (S : Type 0) : Type 0 where
  create_again : RepoService.Deps → Repo → Operation S
  delete : RepoService.Deps → RepoService.Auth → ℕ → Operation S
  create_message : Connection.Env → ℕ → Operation S
  delete_message : Deleter.Env S → Deleter.DeleteMessage → Operation S
  refresh : RepoInfo.Env → Repo → Operation S

module _ {S : Type 0} where
  abbrev pub requested : System S → RepoService.World → System S
  requested s w = record s {
    rows = w.rows;
    create_queue = w.create_queue;
    delete_queue = w.delete_queue;
  }

  abbrev pub request_world : System S → RepoService.World
  request_world s = record {
    rows = s.rows;
    create_queue = s.create_queue;
    delete_queue = s.delete_queue;
  }

  abbrev pub creation_world : System S → Connection.World
  creation_world s = record { rows = s.rows; statuses = s.statuses; effects = s.effects }

  abbrev pub created : System S → Option (Result (Unit {0}) × Connection.World) → System S
  created s none = s
  created s (some (r, w)) = record s { rows = w.rows; statuses = w.statuses; effects = w.effects }

  abbrev pub deletion_world : System S → Deleter.World S
  deletion_world s = record { rows = s.rows; remote = s.remote }

  -- Three rounds are enough for a message.
  unfoldable pub apply : Operation S → System S → System S
  apply (create_again d repo) s =
      requested s
        (RepoService.create_already_existing_repo d repo.commit_state repo (request_world s)).1
  apply (delete d auth id) s = requested s (RepoService.delete d auth id (request_world s)).1
  apply (create_message v id) s = created s (Creator.consume_message v 3 id (creation_world s))
  apply (delete_message v m) s =
      let w = (Deleter.consume_message v m (deletion_world s)).1 in
      record s { rows = w.rows; remote = w.remote }
  apply (refresh v r) s = record s { rows = (RepoInfo.update_repo_info v r s.rows).1 }

  unfoldable pub apply_all : List (Operation S) → System S → System S
  unfolding apply
  apply_all [] s = s
  apply_all (x ∷ rest) s = apply_all rest (apply x s)

  created-TableFollows :
      (s : System S) (o : Option (Result (Unit {0}) × Connection.World))
      → RunFollows s.rows o
      → TableFollows s.rows (created s o).rows
  created-TableFollows s none h = TableFollows-refl s.rows
  created-TableFollows s (some (r, w)) h = h

set_info-Moves :
    (v : RepoInfo.Env) (r : Repo) (p : RepoInfo.ProviderRepo)
    → Moves (with_id r.id) (RepoInfo.set_info v.to_lower r p)
set_info-Moves v r p = (λ x. refl, λ x h. (here, refl, refl, refl, inl refl))

module _ (v : RepoInfo.Env) (r : Repo) (t : List Repo) where
  stored-TableFollows :
      (p : RepoInfo.ProviderRepo) (x : Result (ℕ × List Repo))
      → v.repo_db.updates (with_id r.id) (RepoInfo.set_info v.to_lower r p) t ≡ x
      → TableFollows t (RepoInfo.stored v x t).1
  stored-TableFollows p (err e) q = TableFollows-refl t
  stored-TableFollows p (ok (n, t')) q =
      updates-TableFollows v.repo_db (with_id r.id) (RepoInfo.set_info v.to_lower r p) t
        (set_info-Moves v r p) (ok (n, t')) q

  update_row-TableFollows :
      (x : Result RepoInfo.ProviderRepo) → TableFollows t (RepoInfo.update_row v r x t).1
  update_row-TableFollows (err e) = TableFollows-refl t
  update_row-TableFollows (ok p) = elim (Bool-cases (RepoInfo.need_update v.to_lower r p)) [
    | inl y ↦ rw y (stored-TableFollows p _ refl)
    | inr n ↦ rw n (TableFollows-refl t)
  ]

  with_provider-TableFollows :
      (x : Result (Unit {0})) → TableFollows t (RepoInfo.with_provider v r x t).1
  with_provider-TableFollows (err e) = TableFollows-refl t
  with_provider-TableFollows (ok _) = update_row-TableFollows (v.get_repo_by_name r)

  refresh-TableFollows : TableFollows t (RepoInfo.update_repo_info v r t).1
  unfolding RepoInfo.update_repo_info
  refresh-TableFollows = with_provider-TableFollows (v.build_for_user r.user_id)

module _ {S : Type 0} where
  apply-TableFollows : (x : Operation S) (s : System S) → TableFollows s.rows (apply x s).rows
  unfolding apply
  apply-TableFollows (create_again d repo) s =
      recreate-TableFollows d repo.commit_state repo (request_world s)
  apply-TableFollows (delete d auth id) s = delete-TableFollows d auth id (request_world s)
  apply-TableFollows (create_message v id) s =
      created-TableFollows s (Creator.consume_message v 3 id (creation_world s))
        (create_message-RunFollows v 3 id (creation_world s))
  apply-TableFollows (delete_message v m) s = delete_message-TableFollows v m (deletion_world s)
  apply-TableFollows (refresh v r) s = refresh-TableFollows v r s.rows

  -- Whatever requests, messages and refreshes there are, in whatever order and with whatever
  -- answers of the services, each row of a repository stays, belongs to the same user and the same
  -- repository of the provider, has gone only from one commit state to the next as the protocol
  -- allows, and is deleted only in one of the two states in which the protocol ends.
  pub apply_all-TableFollows :
      (ops : List (Operation S)) (s : System S) → TableFollows s.rows (apply_all ops s).rows
  unfolding apply_all
  apply_all-TableFollows [] s = TableFollows-refl s.rows
  apply_all-TableFollows (x ∷ rest) s =
      TableFollows-trans s.rows (apply x s).rows (apply_all (x ∷ rest) s).rows
        (apply-TableFollows x s) (apply_all-TableFollows rest (apply x s))
