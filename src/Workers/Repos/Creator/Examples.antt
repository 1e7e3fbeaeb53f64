-- ===== src/Workers/Repos/Creator/Examples.antt =====
-- The consumer that connects a repository, at a concrete input.
use golangci_api.Base.{◌≡◌, refl, [], ◌∷◌, none, some, false, true, ◌++◌, arith}
use golangci_api.Base.Int.{pos}
use golangci_api.Errors.{ok}
use golangci_api.Sql.{reliable}
use golangci_api.Models.Repo.{Repo, create_init, create_done}
use golangci_api.Workers.Repos.Connection.{Env, World, hook_created, launch_sent}
use golangci_api.Workers.Repos.Creator.{consume_message}
use golangci_api.Workers.Repos.Creator.Ends.{Ends}
use golangci_api.Workers.Repos.Creator.Ends.{consume_message-Ends}

abbrev pub env : Env
env = record {
  repo_db = reliable;
  status_db = reliable;
  create_status = λ s t. ok (t ++ s ∷ []);
  connect = ok tt;
  build_for_user = λ u. ok tt;
  callback_host = "https://api";
  list_hooks = λ r. ok [];
  create_hook = λ r. ok 77;
  add_collaborator = λ r. ok (1, false);
  default_branch = λ r. ok "master";
  branch_head = λ r b. ok "abc";
  put_launch = λ i c. ok tt;
  put_invitation = λ r i. ok tt;
  error_text = λ e. "";
  now = 9;
}

abbrev pub fresh : Repo
fresh = record {
  id = 4;
  deleted_at = none;
  user_id = 1;
  full_name = "acme/tool";
  display_full_name = "Acme/Tool";
  hook_id = "h";
  provider = "github.com";
  provider_hook_id = 0;
  provider_id = 40;
  commit_state = create_init;
  is_private = false;
  create_fail_reason = "";
  stargazers_count = pos 0;
}

abbrev before : World
before = record { rows = fresh ∷ []; statuses = []; effects = [] }

connects :
    consume_message env 3 4 before
    ≡ some (
      ok tt,
      record {
        rows = record fresh { provider_hook_id = 77; commit_state = create_done } ∷ [];
        statuses =
            record {
              id = 0;
              deleted_at = none;
              repo_id = 4;
              last_analyzed_at = none;
              last_analyzed_linters_version = "";
              has_pending_changes = true;
              pending_commit_sha = "abc";
              version = 0;
              default_branch = "master";
              is_empty = false;
              active = true;
            }
            ∷ [];
        effects = hook_created 4 ∷ launch_sent 4 "abc" ∷ [];
      },
    )
unfolding consume_message reliable
connects = refl

consume_message-Ends_example : Ends env 4 (consume_message env 3 4 before)
consume_message-Ends_example =
    consume_message-Ends env 4 before (refl, tt) (λ r e c. cc) 3 (omega arith)
