-- ===== src/CommitStates/Examples.antt =====
-- A repository that is connected and disconnected, with a message that comes twice.
use golangci_api.Base.{◌≡◌, refl, List, [], ◌∷◌, true, some}
use golangci_api.Errors.{ok}
use golangci_api.Models.Repo.{delete_done}
use golangci_api.Sql.{reliable}
use golangci_api.RepoService
use golangci_api.Workers.Repos.Provider.{Remote, single}
use golangci_api.Workers.Repos.Creator
use golangci_api.Workers.Repos.Creator.Examples.{fresh, env as creator}
use golangci_api.Workers.Repos.Deleter
use golangci_api.Workers.Repos.Deleter.Examples.{env as deleter}
use golangci_api.CommitStates.Tables.{TableFollows}
use golangci_api.CommitStates.System.{
  System, Operation, create_again, delete, create_message, delete_message, apply, apply_all,
  apply_all-TableFollows,
}

abbrev service : RepoService.Deps
service = record {
  repo_db = reliable;
  build_provider = λ a. ok tt;
  is_admin = λ r. ok true;
  put_create = λ i. ok tt;
  put_delete = λ m. ok tt;
}

abbrev caller : RepoService.Auth
caller = record { user_id = 1; provider = "github.com" }

abbrev start : System Remote
start = record {
  rows = fresh ∷ [];
  statuses = [];
  create_queue = [];
  delete_queue = [];
  effects = [];
  remote = record { hook = true; collaborator = true };
}

abbrev history : List (Operation Remote)
history =
    create_again service fresh
    ∷ create_message creator 4
    ∷ create_message creator 4
    ∷ delete service caller 4
    ∷ delete_message deleter (RepoService.delete_message 4 caller)
    ∷ create_message creator 4
    ∷ []

ends_disconnected :
    (apply_all history start).rows
    ≡ record fresh { provider_hook_id = 77; commit_state = delete_done; deleted_at = some 60 } ∷ []
unfolding apply_all apply RepoService.create_already_existing_repo RepoService.delete
    Creator.consume_message Deleter.consume_message reliable single
ends_disconnected = refl

apply_all-TableFollows_example : TableFollows start.rows (apply_all history start).rows
apply_all-TableFollows_example = apply_all-TableFollows history start
