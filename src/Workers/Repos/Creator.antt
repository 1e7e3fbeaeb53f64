-- ===== src/Workers/Repos/Creator.antt =====
-- pkg/api/workers/primaryqueue/repos/creator.go: the consumer that connects a repository. It walks
-- the commit states of the row in a loop, from the state that it finds. The local copy of the row,
-- which the Go code passes by pointer, comes back beside each result.
pub mod Effects
pub mod Examples
pub mod Loop
pub mod Ends
use golangci_api.Base.{
  ℕ, zero, suc, ◌+◌, String, Bool, true, false, ◌&&◌, List, [], ◌∷◌, ◌++◌, Option, none, some, ◌==◌,
  str_eq, if◌then◌else◌,
}
use Prim.Native.String.{◌++◌ as str_append}
use golangci_api.Errors.{
  Error, Result, ok, err, wrap, wrapped, cause, permanent, message, record_not_found,
  is_record_not_found, provider_not_found, provider_unauthorized, repo_was_archived,
  no_free_org_seats, ◌>>=◌,
}
use golangci_api.Sql.{Sql}
use golangci_api.Models.Repo.{
  Repo, CommitState, RepoAnalysisStatus, is_live_status, create_init, create_sent_to_queue,
  create_created_repo, create_done, create_rollback_init, create_rollback_done, update_required,
  with_id, in_state, in_states,
}
use golangci_api.Workers.Repos.Connection.{
  Hook, Env, Effect, World, hook_created, collaborator_added, invitation_sent, launch_sent,
  with_effect, is_permanent_cause, is_permanent_error, hook_url, installed_hook,
}

pub data Round : Type 0 where
  stop : Result (Unit {0}) → World → Round
  again : Repo → World → Round

module _ (v : Env) where
  unfoldable pub create_hook : Repo → World → Result Repo × World
  create_hook repo w = elim (v.list_hooks repo) [
    | err e ↦ (err (wrap e), w)
    | ok hooks ↦
        if installed_hook (hook_url v.callback_host repo) hooks == 0
        then elim (v.create_hook repo) [
          | err e ↦ (err (wrap e), w)
          | ok id ↦
              (ok (record repo { provider_hook_id = id }), with_effect (hook_created repo.id) w)
        ]
        else (
          ok (record repo {
            provider_hook_id = installed_hook (hook_url v.callback_host repo) hooks;
          }),
          w,
        )
  ]

  unfoldable pub send_invitation : Repo → ℕ → World → Result (Unit {0}) × World
  send_invitation repo invite w = elim (v.put_invitation repo invite) [
    | err e ↦ (err (wrap e), w)
    | ok _ ↦ (ok tt, with_effect (invitation_sent repo.id invite) w)
  ]

  unfoldable pub add_collaborator : Repo → World → Result (Unit {0}) × World
  unfolding send_invitation
  add_collaborator repo w =
      if repo.is_private
      then elim (v.add_collaborator repo) [
        | err e ↦ (err (wrap e), w)
        | ok (invite, already) ↦
            if already
            then (ok tt, with_effect (collaborator_added repo.id) w)
            else send_invitation repo invite (with_effect (collaborator_added repo.id) w)
      ]
      else (ok tt, w)

  -- A conditional update of the row that must change it.
  unfoldable pub move : (Repo → Bool) → (Repo → Repo) → World → Result (Unit {0}) × World
  move p f w = elim (update_required (v.repo_db.updates p f w.rows)) [
    | err e ↦ (err (wrap e), w)
    | ok rows ↦ (ok tt, record w { rows = rows })
  ]

  -- `repo.CommitState = nextState` once the row has moved
  abbrev pub moved_to :
      CommitState → Repo → Result (Unit {0}) × World → Result (Unit {0}) × Repo × World
  moved_to s repo (err e, w) = (err e, repo, w)
  moved_to s repo (ok _, w) = (ok tt, record repo { commit_state = s }, w)

  abbrev pub set_created : Repo → Repo → Repo
  set_created repo r = record r {
    provider_hook_id = repo.provider_hook_id;
    commit_state = create_created_repo;
  }

  -- createRepo: the hook, then the collaborator, then the row
  abbrev pub with_collaborator : Repo → Result (Unit {0}) × World → Result (Unit {0}) × Repo × World
  with_collaborator repo (err e, w) = (err e, repo, w)
  with_collaborator repo (ok _, w) =
      moved_to create_created_repo repo
        (move (in_states repo.id create_init create_sent_to_queue) (set_created repo) w)

  abbrev pub with_hook : Repo → Result Repo × World → Result (Unit {0}) × Repo × World
  with_hook repo (err e, w) = (err e, repo, w)
  with_hook repo (ok repo₁, w) = with_collaborator repo₁ (add_collaborator repo₁ w)

  unfoldable pub create_repo : Repo → World → Result (Unit {0}) × Repo × World
  unfolding create_hook add_collaborator move
  create_repo repo w = with_hook repo (create_hook repo w)

  -- The branch of an empty repository is not found, and then the status has no commit.
  unfoldable pub new_status : Repo → Result RepoAnalysisStatus
  new_status r = do
    branch ← wrapped (v.default_branch r)
    elim (v.branch_head r branch) [
      | ok sha ↦ ok (record {
        id = 0;
        deleted_at = none;
        repo_id = r.id;
        last_analyzed_at = none;
        last_analyzed_linters_version = "";
        has_pending_changes = true;
        pending_commit_sha = sha;
        version = 0;
        default_branch = branch;
        is_empty = false;
        active = true;
      })
      | err provider_not_found ↦ ok (record {
        id = 0;
        deleted_at = none;
        repo_id = r.id;
        last_analyzed_at = none;
        last_analyzed_linters_version = "";
        has_pending_changes = false;
        pending_commit_sha = "";
        version = 0;
        default_branch = branch;
        is_empty = true;
        active = true;
      })
      | err e ↦ err (wrap e)
    ]

  unfoldable pub store_status : Repo → World → Result RepoAnalysisStatus × World
  unfolding new_status
  store_status r w = elim (new_status r) [
    | err e ↦ (err e, w)
    | ok s ↦ elim (v.create_status s w.statuses) [
      | err e ↦ (err (wrap e), w)
      | ok statuses ↦ (ok s, record w { statuses = statuses })
    ]
  ]

  unfoldable pub ensure_status : Repo → World → Result RepoAnalysisStatus × World
  unfolding store_status
  ensure_status r w =
      elim (v.status_db.first (λ s. s.repo_id == r.id && is_live_status s) w.statuses) [
        | ok s ↦ (ok s, w)
        | err e ↦ if is_record_not_found e then store_status r w else (err (wrap e), w)
      ]

  unfoldable pub launch : Repo → RepoAnalysisStatus → World → Result (Unit {0}) × World
  launch r s w =
      if s.has_pending_changes
      then elim (v.put_launch r.id s.pending_commit_sha) [
        | err e ↦ (err (wrap e), w)
        | ok _ ↦ (ok tt, with_effect (launch_sent r.id s.pending_commit_sha) w)
      ]
      else (ok tt, w)

  -- createRepoAnalysisStatus, with updateRepoCommitState at its end
  abbrev pub with_launch : Repo → Result (Unit {0}) × World → Result (Unit {0}) × Repo × World
  with_launch r (err e, w) = (err e, r, w)
  with_launch r (ok _, w) =
      moved_to create_done r
        (move (in_state r.id r.commit_state) (λ x. record x { commit_state = create_done }) w)

  abbrev pub with_status :
      Repo → Result RepoAnalysisStatus × World → Result (Unit {0}) × Repo × World
  with_status r (err e, w) = (err e, r, w)
  with_status r (ok s, w) = with_launch r (launch r s w)

  unfoldable pub create_analysis_status : Repo → World → Result (Unit {0}) × Repo × World
  unfolding ensure_status launch move
  create_analysis_status r w = with_status r (ensure_status r w)

  abbrev pub set_rollback : Error → Repo → Repo
  set_rollback x r = record r {
    create_fail_reason = v.error_text x;
    commit_state = create_rollback_init;
  }

  unfoldable pub mark_for_rollback : Error → Repo → World → Result (Unit {0}) × Repo × World
  unfolding move
  mark_for_rollback x r w =
      moved_to create_rollback_init r
        (move (in_states r.id create_init create_sent_to_queue) (set_rollback x) w)

  abbrev pub set_rolled_back : Repo → Repo
  set_rolled_back r = record r { commit_state = create_rollback_done; deleted_at = some v.now }

  unfoldable pub rollback_repo : Repo → World → Result (Unit {0}) × Repo × World
  unfolding move
  rollback_repo r w =
      moved_to create_rollback_done r (move (in_state r.id create_rollback_init) set_rolled_back w)

  -- One round of the loop: it stops with a result, or goes on with the local copy.
  abbrev pub go_on : Result (Unit {0}) × Repo × World → Round
  go_on (ok _, repo, w) = again repo w
  go_on (err e, repo, w) = stop (err (wrap e)) w

  -- A permanent error of the provider turns the creation into a rollback.
  abbrev pub created_or_not : Result (Unit {0}) × Repo × World → Round
  created_or_not (ok _, repo, w) = again repo w
  created_or_not (err e, repo, w) =
      if is_permanent_error e then go_on (mark_for_rollback e repo w) else stop (err (wrap e)) w

  unfoldable pub round : CommitState → Repo → World → Round
  unfolding create_repo mark_for_rollback create_analysis_status rollback_repo
  round create_init repo w = created_or_not (create_repo repo w)
  round create_sent_to_queue repo w = created_or_not (create_repo repo w)
  round create_created_repo repo w = go_on (create_analysis_status repo w)
  round create_done repo w = stop (ok tt) w
  round create_rollback_init repo w = go_on (rollback_repo repo w)
  round create_rollback_done repo w = stop (ok tt) w
  round _ repo w = stop (err (message "invalid repo commit state")) w

  -- The loop, with fuel; `none` means that the fuel ran out.
  unfoldable pub process_states : ℕ → Repo → World → Option (Result (Unit {0}) × World)
  unfolding round
  process_states zero repo w = none
  process_states (suc fuel) repo w = elim (round repo.commit_state repo w) [
    | stop r w₁ ↦ some (r, w₁)
    | again repo₁ w₁ ↦ process_states fuel repo₁ w₁
  ]

  abbrev pub lifted : Option (Result (Unit {0}) × World) → Option (Result (Unit {0}) × World)
  lifted none = none
  lifted (some (r, w)) = some (wrapped r, w)

  unfoldable pub run : ℕ → ℕ → World → Option (Result (Unit {0}) × World)
  unfolding process_states
  run fuel id w = elim (v.repo_db.first (with_id id) w.rows) [
    | err e ↦ some (err (if is_record_not_found e then wrap permanent else wrap e), w)
    | ok repo ↦ elim (v.build_for_user repo.user_id) [
      | err e ↦ some (err (wrap e), w)
      | ok _ ↦ process_states fuel repo w
    ]
  ]

  unfoldable pub consume_message : ℕ → ℕ → World → Option (Result (Unit {0}) × World)
  unfolding run
  consume_message fuel id w = elim v.connect [
    | err e ↦ some (err (wrap e), w)
    | ok _ ↦ lifted (run fuel id w)
  ]
