-- ===== src/Workers/Repos/Deleter/Examples.antt =====
-- The consumer that disconnects a repository, at concrete inputs.
use golangci_api.Base.{◌≡◌, refl, [], ◌∷◌, none, false, true, Bool-cases, inl, inr}
use golangci_api.Base.Int.{pos}
use golangci_api.Errors.{ok, err, wrap, provider_failure}
use golangci_api.Sql.{reliable}
use golangci_api.Models.Repo.{Repo, delete_sent_to_queue}
use golangci_api.Workers.Repos.Provider.{
  Provider, Remote, single, delete_hook_of, remove_collaborator_of,
}
use golangci_api.Workers.Repos.Deleter.{Env, World, DeleteMessage, consume_message, set_deleted}
use golangci_api.Workers.Repos.Deleter.Removals.{Answered}
use golangci_api.Workers.Repos.Deleter.Effects.{Disconnected, consume_message-Disconnected}
use golangci_api.Workers.Repos.Deleter.Retry.{Working, consume_message_retried}

abbrev pub env : Env Remote
env = record {
  repo_db = reliable;
  connect = ok tt;
  build_for_user = λ u. ok tt;
  provider = single;
  now = 60;
}

abbrev pub stubborn : Provider Remote
unfolding single
stubborn = record single {
  remove_collaborator = λ user r s. (err provider_failure, s);
  remove_collaborator_law = λ user r s. tt;
  remove_collaborator_hook_law = λ user r s h. h;
}

abbrev failing : Env Remote
failing = record env { provider = stubborn }

abbrev pub leaving : Repo
leaving = record {
  id = 4;
  deleted_at = none;
  user_id = 1;
  full_name = "acme/tool";
  display_full_name = "Acme/Tool";
  hook_id = "h";
  provider = "github.com";
  provider_hook_id = 77;
  provider_id = 40;
  commit_state = delete_sent_to_queue;
  is_private = false;
  create_fail_reason = "";
  stargazers_count = pos 0;
}

abbrev asked : DeleteMessage
asked = record { user_id = 1; repo_id = 4 }

abbrev before : World Remote
before = record { rows = leaving ∷ []; remote = record { hook = true; collaborator = true } }

abbrev half : World Remote
half = record before { remote = record { hook = false; collaborator = true } }

abbrev after : World Remote
after = record {
  rows = set_deleted 60 leaving ∷ [];
  remote = record { hook = false; collaborator = false };
}

disconnects : consume_message env asked before ≡ (ok tt, after)
unfolding consume_message reliable single
disconnects = refl

fails : consume_message failing asked before ≡ (err (wrap (wrap provider_failure)), half)
unfolding consume_message reliable single
fails = refl

consume_message-Disconnected_example :
    Disconnected env 1 4
      (leaving ∷ [])
      (record { hook = true; collaborator = true })
      (consume_message env asked before)
consume_message-Disconnected_example = consume_message-Disconnected env asked before (refl, tt)

delete_hook_of_settles : (s : Remote) → Answered (delete_hook_of s).0
delete_hook_of_settles s = elim (Bool-cases s.hook) [
  | inl e ↦ rw e (inl refl)
  | inr e ↦ rw e (inr refl)
]

remove_collaborator_of_settles : (s : Remote) → Answered (remove_collaborator_of s).0
remove_collaborator_of_settles s = elim (Bool-cases s.collaborator) [
  | inl e ↦ rw e (inl refl)
  | inr e ↦ rw e (inr refl)
]

pub working : Working env
unfolding reliable single
working = record {
  connects = refl;
  builds = λ u. refl;
  reads = λ p t. refl;
  writes = λ p f t. refl;
  removes_hook = λ user r s. delete_hook_of_settles s;
  removes_collaborator = λ user r s. remove_collaborator_of_settles s;
}

consume_message_retried_example :
    ((consume_message env asked half).0 ≡ ok tt)
    × Disconnected env 1 4
        (leaving ∷ [])
        (record { hook = false; collaborator = true })
        (consume_message env asked half)
consume_message_retried_example =
    consume_message_retried failing env asked before leaving working (refl, tt) refl refl fails
