-- ===== src/Hooks/Examples.antt =====
-- A pull request of a private repository with a paid seat for its author.
use golangci_api.Base.{◌≡◌, refl, [], ◌∷◌, false, true, some, String}
use golangci_api.Errors.{ok}
use golangci_api.Sql.{reliable}
use golangci_api.Models.Repo.{Repo, create_done}
use golangci_api.Policy.ActiveSubscription.{check_for_provider_pull_request_event}
use golangci_api.Policy.ActiveSubscription as Policy
use golangci_api.Policy.ActiveSubscription.Examples.{three_seats, tool, event, env as two_seats}
use golangci_api.Policy.RepoRead.Examples.{ann}
use golangci_api.Workers.Repos.Creator.Examples.{fresh}
use golangci_api.Hooks.{GithubWebhook, PushEvent, Env, World}
use golangci_api.Hooks.PullRequests.{commit_status}
use golangci_api.Hooks.PullRequests.{handle_pull_request}
use golangci_api.Hooks.Pushes.{handle_github_webhook, handle_push, trim_prefix}
use golangci_api.Hooks.Handled.{WebhookHandled, handle_github_webhook-Handled}

abbrev connected : Repo
connected = record fresh { commit_state = create_done; is_private = true; user_id = 7 }

abbrev pushed : PushEvent
pushed = record {
  default_branch = "master";
  is_private = false;
  ref = "refs/heads/master";
  head_commit_id = "abc";
}

abbrev env : Policy.Env → Env
env policy = record {
  repo_db = reliable;
  repos = connected ∷ [];
  auth_db = reliable;
  auths = ann ∷ [];
  policy = policy;
  service_is_disabled = false;
  skip_repos = "acme/old" ∷ [];
  app_name = "GolangCI";
  build = λ a. ok tt;
  parse_pull_request_event = λ b. ok event;
  get_repo_by_name = λ r. ok tool;
  unmarshal_push = λ b. ok pushed;
  set_commit_status = λ s. ok tt;
  create_analysis = λ t. ok (1, 50);
  put_pull = λ m. ok tt;
  put_launch = λ m. ok tt;
  new_guid = "g";
}

abbrev empty : World
empty = record { analyses = []; statuses = []; pull_queue = []; launch_queue = [] }

abbrev webhook : String → GithubWebhook
webhook event_type = record { hook_id = "h"; event_type = event_type; delivery_guid = "" }

queues :
    (handle_github_webhook (env three_seats) (webhook "pull_request") "" empty).1.pull_queue
    ≡ record {
      full_name = "acme/tool";
      is_private = true;
      github_access_token = "p";
      pull_request_number = 8;
      user_id = 7;
      analysis_guid = "g";
      commit_sha = "abc";
    }
      ∷ []
unfolding handle_github_webhook handle_pull_request check_for_provider_pull_request_event reliable
queues = refl

rejects : handle_github_webhook (env two_seats) (webhook "pull_request") "" empty ≡ (
  some (ok tt),
  record empty {
    statuses =
        commit_status
          (env two_seats)
          connected
          event
          "error"
          "Git author's email wasn't configured in GolangCI"
        ∷ [];
  },
)
unfolding handle_github_webhook handle_pull_request check_for_provider_pull_request_event reliable
rejects = refl

launches :
    (handle_github_webhook (env two_seats) (webhook "push") "" empty).1.launch_queue
    ≡ record { repo_id = 4; commit_sha = "abc"; analysis_guid = "g" } ∷ []
unfolding handle_github_webhook handle_push reliable
launches = refl

trims : trim_prefix "refs/tags/v1" "refs/heads/" ≡ "refs/tags/v1"
trims = refl

handle_github_webhook-Handled_example :
    WebhookHandled
      (env three_seats)
      (webhook "pull_request")
      ""
      empty
      (handle_github_webhook (env three_seats) (webhook "pull_request") "" empty)
handle_github_webhook-Handled_example =
    handle_github_webhook-Handled (env three_seats) (webhook "pull_request") "" empty
