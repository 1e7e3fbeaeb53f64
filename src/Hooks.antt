-- ===== src/Hooks.antt =====
-- pkg/api/services/repohook/service.go: what a webhook of GitHub starts. The analyses that it
-- stores, the commit statuses that it sets and the messages that the two queues accept are the
-- state. The result `none` is a panic.
pub mod PullRequests
pub mod Pushes
pub mod Started
pub mod Handled
mod Examples
use golangci_api.Base.{
  ℕ, String, Bool, true, false, not, ◌&&◌, ◌||◌, List, [], ◌∷◌, ◌++◌, Option, none, some, str_eq,
  if◌then◌else◌,
}
use golangci_api.Errors.{
  Error, Result, ok, err, wrap, cause, message, not_found, skip_webhook, is_record_not_found,
  provider_not_found, provider_unauthorized,
}
use golangci_api.Sql.{Sql}
use golangci_api.Models.Repo.{Repo, is_live}
use golangci_api.Models.Auth.{Auth}
use golangci_api.Models.PullRequestAnalysis.{PullRequestAnalysis}
use golangci_api.Policy.ActiveSubscription.{ProviderRepo, PullRequestEvent}
use golangci_api.Policy.ActiveSubscription as Policy

pub record GithubWebhook : Type 0 where
  pub hook_id : String
  pub event_type : String
  pub delivery_guid : String

-- provider.CommitStatus, with the repository and the commit that it is set for
pub record CommitStatus : Type 0 where
  pub full_name : String
  pub commit_sha : String
  pub state : String
  pub description : String
  pub context : String

-- pullanalyzesqueue.RunMessage with its github.Context; the owner and the name in it are the
-- parts of `full_name`.
pub record RunMessage : Type 0 where
  pub full_name : String
  pub is_private : Bool
  pub github_access_token : String
  pub pull_request_number : ℕ
  pub user_id : ℕ
  pub analysis_guid : String
  pub commit_sha : String

-- repoanalyzes.launchMessage
pub record LaunchMessage : Type 0 where
  pub repo_id : ℕ
  pub commit_sha : String
  pub analysis_guid : String

-- gh.PushEvent, as far as the service reads it
pub record PushEvent : Type 0 where
  pub default_branch : String
  pub is_private : Bool
  pub ref : String
  pub head_commit_id : String

-- The tables that are read only and their servers, the policy with its own, the configuration, the
-- provider of the repository's user, the queues, and the GUID and the row that a request may get.
pub record Env : Type 0 where
  pub repo_db : Sql Repo
  pub repos : List Repo
  pub auth_db : Sql Auth
  pub auths : List Auth
  pub policy : Policy.Env
  pub service_is_disabled : Bool
  pub skip_repos : List String
  pub app_name : String
  pub build : Auth → Result (Unit {0})
  pub parse_pull_request_event : String → Result PullRequestEvent
  pub get_repo_by_name : Repo → Result ProviderRepo
  pub unmarshal_push : String → Result PushEvent
  pub set_commit_status : CommitStatus → Result (Unit {0})
  pub create_analysis : List PullRequestAnalysis → Result (ℕ × ℕ)
  pub put_pull : RunMessage → Result (Unit {0})
  pub put_launch : LaunchMessage → Result (Unit {0})
  pub new_guid : String

pub record World : Type 0 where
  pub analyses : List PullRequestAnalysis
  pub statuses : List CommitStatus
  pub pull_queue : List RunMessage
  pub launch_queue : List LaunchMessage

abbrev pub Outcome : Type 0
Outcome = Option (Result (Unit {0})) × World

abbrev pub with_hook_id : String → Repo → Bool
with_hook_id h r = str_eq r.hook_id h && is_live r

abbrev pub is_skip : Error → Bool
is_skip skip_webhook = true
is_skip _ = false

-- `commitErr == provider.ErrUnauthorized || commitErr == provider.ErrNotFound`
abbrev pub is_no_access : Error → Bool
is_no_access provider_unauthorized = true
is_no_access provider_not_found = true
is_no_access _ = false

abbrev pub is_unauthorized : Error → Bool
is_unauthorized provider_unauthorized = true
is_unauthorized _ = false

-- What HandleGithubWebhook makes of the outcome of the handler of an event.
abbrev pub settled : Option (Result (Unit {0})) → Option (Result (Unit {0}))
settled none = none
settled (some (ok _)) = some (ok tt)
settled (some (err e)) = some (if is_skip (cause e) then ok tt else err (wrap e))

abbrev pub settled_outcome : Outcome → Outcome
settled_outcome (r, w) = (settled r, w)

abbrev pub with_guid : String → GithubWebhook → GithubWebhook
with_guid guid req =
    if str_eq req.delivery_guid "" then record req { delivery_guid = guid } else req
