-- ===== src/Models/Repo.antt =====
-- pkg/api/models/repo.go and repo_analysis_status.go: a connected repository, its commit state,
-- and the state of the analyses of its default branch.
use golangci_api.Base.{
  ℕ, String, Bool, true, false, not, ◌&&◌, ◌||◌, Option, none, some, ◌==◌, if◌then◌else◌,
}
use golangci_api.Base.Int.{ℤ}
use golangci_api.Errors.{Result, ok, err, message}

pub data CommitState : Type 0 where
  create_init create_sent_to_queue create_created_repo create_done : CommitState
  create_rollback_init create_rollback_done : CommitState
  delete_init delete_sent_to_queue delete_done : CommitState

-- The place in the `const` block; two states are one string exactly if they have one place.
abbrev pub place : CommitState → ℕ
place create_init = 0
place create_sent_to_queue = 1
place create_created_repo = 2
place create_done = 3
place create_rollback_init = 4
place create_rollback_done = 5
place delete_init = 6
place delete_sent_to_queue = 7
place delete_done = 8

abbrev pub same_state : CommitState → CommitState → Bool
same_state s t = place s == place t

abbrev pub is_delete_state : CommitState → Bool
is_delete_state s =
    same_state s delete_init || same_state s delete_sent_to_queue || same_state s delete_done

abbrev pub is_create_state : CommitState → Bool
is_create_state s =
    same_state s create_init
    || same_state s create_sent_to_queue
    || same_state s create_created_repo
    || same_state s create_done
    || same_state s create_rollback_init
    || same_state s create_rollback_done

abbrev pub is_terminal_state : CommitState → Bool
is_terminal_state s =
    same_state s delete_done || same_state s create_done || same_state s create_rollback_done

pub record Repo : Type 0 where
  pub id : ℕ
  pub deleted_at : Option ℕ
  pub user_id : ℕ
  pub full_name : String
  pub display_full_name : String
  pub hook_id : String
  pub provider : String
  pub provider_hook_id : ℕ
  pub provider_id : ℕ
  pub commit_state : CommitState
  pub is_private : Bool
  pub create_fail_reason : String
  pub stargazers_count : ℤ

abbrev pub is_deleting : Repo → Bool
is_deleting r = is_delete_state r.commit_state && not (is_terminal_state r.commit_state)

abbrev pub is_creating : Repo → Bool
is_creating r = is_create_state r.commit_state && not (is_terminal_state r.commit_state)

abbrev pub is_live : Repo → Bool
is_live r = elim r.deleted_at [ none ↦ true | some t ↦ false ]

abbrev pub key : Repo → ℕ
key r = r.id

-- RepoUpdater.UpdateRequired, over the outcome of `UpdateNum`.
abbrev pub update_required {ℓ} : {T : Type ℓ} → Result (ℕ × T) → Result T
update_required (ok (n, t)) =
    if n == 0 then err (message "repo was changed in parallel request") else ok t
update_required (err e) = err e

pub record RepoAnalysisStatus : Type 0 where
  pub id : ℕ
  pub deleted_at : Option ℕ
  pub repo_id : ℕ
  pub last_analyzed_at : Option ℕ
  pub last_analyzed_linters_version : String
  pub has_pending_changes : Bool
  pub pending_commit_sha : String
  pub version : ℕ
  pub default_branch : String
  pub is_empty : Bool
  pub active : Bool

abbrev pub is_live_status : RepoAnalysisStatus → Bool
is_live_status s = elim s.deleted_at [ none ↦ true | some t ↦ false ]

-- The filters and assignments of the queries.
abbrev pub with_id : ℕ → Repo → Bool
with_id i r = r.id == i && is_live r

abbrev pub in_state : ℕ → CommitState → Repo → Bool
in_state i s r = r.id == i && (is_live r && same_state r.commit_state s)

abbrev pub in_states : ℕ → CommitState → CommitState → Repo → Bool
in_states i s t r =
    r.id == i && (is_live r && (same_state r.commit_state s || same_state r.commit_state t))
