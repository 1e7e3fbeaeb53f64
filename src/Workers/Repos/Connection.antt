-- ===== src/Workers/Repos/Connection.antt =====
-- What the consumer that connects repositories sees and changes: the two tables, the VCS provider
-- (internal/shared/providers/provider), the queues, and what it has asked of them.
use golangci_api.Base.{ℕ, String, Bool, true, false, List, [], ◌∷◌, ◌++◌, str_eq, if◌then◌else◌}
use Prim.Native.String.{◌++◌ as str_append}
use golangci_api.Errors.{
  Error, Result, cause, provider_not_found, provider_unauthorized, repo_was_archived,
  no_free_org_seats,
}
use golangci_api.Sql.{Sql}
use golangci_api.Models.Repo.{Repo, RepoAnalysisStatus}

pub record Hook : Type 0 where
  pub id : ℕ
  pub url : String

-- What the VCS provider answers about this repository, and what the queues answer.
pub record Env : Type 0 where
  pub repo_db : Sql Repo
  pub status_db : Sql RepoAnalysisStatus
  pub create_status :
      RepoAnalysisStatus → List RepoAnalysisStatus → Result (List RepoAnalysisStatus)
  pub connect : Result (Unit {0})
  pub build_for_user : ℕ → Result (Unit {0})
  pub callback_host : String
  pub list_hooks : Repo → Result (List Hook)
  pub create_hook : Repo → Result ℕ
  pub add_collaborator : Repo → Result (ℕ × Bool)
  pub default_branch : Repo → Result String
  pub branch_head : Repo → String → Result String
  pub put_launch : ℕ → String → Result (Unit {0})
  pub put_invitation : Repo → ℕ → Result (Unit {0})
  pub error_text : Error → String
  pub now : ℕ

pub data Effect : Type 0 where
  hook_created : ℕ → Effect
  collaborator_added : ℕ → Effect
  invitation_sent : ℕ → ℕ → Effect
  launch_sent : ℕ → String → Effect

-- The two tables, and what was asked of the provider and the queues, oldest first.
pub record World : Type 0 where
  pub rows : List Repo
  pub statuses : List RepoAnalysisStatus
  pub effects : List Effect

abbrev pub with_effect : Effect → World → World
with_effect x w = record w { effects = w.effects ++ x ∷ [] }

-- provider.IsPermanentError
abbrev pub is_permanent_cause : Error → Bool
is_permanent_cause repo_was_archived = true
is_permanent_cause provider_not_found = true
is_permanent_cause provider_unauthorized = true
is_permanent_cause no_free_org_seats = true
is_permanent_cause _ = false

abbrev pub is_permanent_error : Error → Bool
is_permanent_error e = is_permanent_cause (cause e)

-- hookCfg.URL
abbrev pub hook_url : String → Repo → String
hook_url host repo =
    str_append host
      (str_append "/v1/repos/" (str_append repo.full_name (str_append "/hooks/" repo.hook_id)))

-- the hook that an earlier run has installed, 0 if there is none
abbrev pub installed_hook : String → List Hook → ℕ
installed_hook url [] = 0
installed_hook url (h ∷ hs) = if str_eq h.url url then h.id else installed_hook url hs
