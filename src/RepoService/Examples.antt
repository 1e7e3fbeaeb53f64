-- ===== src/RepoService/Examples.antt =====
-- A delete request and its message, at concrete inputs.
use golangci_api.Base.{◌≡◌, refl, [], ◌∷◌, true}
use golangci_api.Errors.{ok}
use golangci_api.Sql.{reliable}
use golangci_api.Models.Repo.{Repo, create_done, delete_init, delete_sent_to_queue}
use golangci_api.RepoService.{
  Deps, World, Auth, set_commit_state, delete_message, finish_queue_sending, delete,
}
use golangci_api.RepoService.Effects.{as_sent}
use golangci_api.RepoService.Requests.{Requested, delete-Requested}
use golangci_api.RepoService.Handover.{Left, handled, finish_in_either_order}
use golangci_api.Workers.Repos.Provider.{Remote, single}
use golangci_api.Workers.Repos.Deleter.{consume_message, set_deleted}
use golangci_api.Workers.Repos.Deleter.Examples.{leaving, env, working}

abbrev deps : Deps
deps = record {
  repo_db = reliable;
  build_provider = λ a. ok tt;
  is_admin = λ r. ok true;
  put_create = λ i. ok tt;
  put_delete = λ m. ok tt;
}

abbrev caller : Auth
caller = record { user_id = 1; provider = "github.com" }

abbrev connected : Repo
connected = set_commit_state create_done leaving

abbrev before : World
before = record { rows = connected ∷ []; create_queue = []; delete_queue = [] }

abbrev after : World
after = record before { rows = leaving ∷ []; delete_queue = delete_message 4 caller ∷ [] }

deletes : delete deps caller 4 before ≡ (ok (as_sent connected), after)
unfolding delete reliable
deletes = refl

delete-Requested_example : Requested deps caller 4 before (delete deps caller 4 before)
delete-Requested_example = delete-Requested deps caller 4 before (refl, tt)

abbrev marked : Repo
marked = set_commit_state delete_init leaving

abbrev waiting : World
waiting = record before { rows = marked ∷ [] }

abbrev remote : Remote
remote = record { hook = true; collaborator = true }

abbrev moved_on : World
moved_on = record before { rows = leaving ∷ [] }

abbrev handled_first : World
handled_first = record before { rows = set_deleted 60 marked ∷ [] }

moves :
    finish_queue_sending deps marked delete_init delete_sent_to_queue waiting
    ≡ (ok (as_sent marked), moved_on)
unfolding finish_queue_sending reliable
moves = refl

comes_late :
    finish_queue_sending deps marked delete_init delete_sent_to_queue
      (record waiting { rows = (handled env caller marked waiting.rows remote).1.rows })
    ≡ (ok (as_sent marked), handled_first)
unfolding finish_queue_sending reliable consume_message single
comes_late = refl

finish_in_either_order_example :
    ((handled env caller marked moved_on.rows remote).0 ≡ ok tt)
    × Left env 1 marked remote (handled env caller marked moved_on.rows remote).1
    × ((handled env caller marked waiting.rows remote).0 ≡ ok tt)
    × Left env 1 marked remote (record {
      rows = handled_first.rows;
      remote = (handled env caller marked waiting.rows remote).1.remote;
    })
finish_in_either_order_example =
    finish_in_either_order deps env caller marked waiting moved_on handled_first remote working
      (refl, tt) refl refl refl moves comes_late
