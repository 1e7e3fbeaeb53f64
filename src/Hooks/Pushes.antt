-- ===== src/Hooks/Pushes.antt =====
-- pkg/api/services/repohook/service.go: handleGithubPushWebhook, and HandleGithubWebhook over the
-- two handlers.
use Prim.Native.String.{len, slice}
use text.Mathlib.Text.{starts_with}
use golangci_api.Base.{String, Bool, true, false, [], ◌∷◌, ◌++◌, some, str_eq, if◌then◌else◌}
use golangci_api.Errors.{
  Error, Result, ok, err, wrap, cause, message, bad_request, not_found, skip_webhook,
  is_record_not_found, no_active_subscription, no_seat_in_subscription,
}
use golangci_api.Models.Repo.{Repo}
use golangci_api.Models.Auth.{Auth, of_user}
use golangci_api.Policy.ActiveSubscription.{ProviderRepo, check_for_provider_repo}
use golangci_api.Hooks.{
  GithubWebhook, LaunchMessage, PushEvent, Env, World, Outcome, with_hook_id, settled_outcome,
  with_guid,
}
use golangci_api.Hooks.PullRequests.{handle_pull_request}

-- strings.TrimPrefix
abbrev pub trim_prefix : String → String → String
trim_prefix s prefix = if starts_with s prefix then slice s (len prefix) (len s) else s

-- isNoSubError, on the cause
abbrev pub is_no_sub : Error → Bool
is_no_sub no_active_subscription = true
is_no_sub no_seat_in_subscription = true
is_no_sub _ = false

abbrev pub launch_message : Repo → GithubWebhook → PushEvent → LaunchMessage
launch_message repo req p = record {
  repo_id = repo.id;
  commit_sha = p.head_commit_id;
  analysis_guid = req.delivery_guid;
}

module _ (v : Env) where
  abbrev pub check_found : Result ProviderRepo → Result (Unit {0})
  check_found (err e) = err (wrap e)
  check_found (ok pr) = check_for_provider_repo v.policy pr

  abbrev pub check_built : Repo → Result (Unit {0}) → Result (Unit {0})
  check_built repo (err e) = err (wrap e)
  check_built repo (ok _) = check_found (v.get_repo_by_name repo)

  abbrev pub check_auth : Repo → Result Auth → Result (Unit {0})
  check_auth repo (err e) = err (wrap e)
  check_auth repo (ok auth) = check_built repo (v.build auth)

  abbrev pub check_subscription : Repo → Result (Unit {0})
  check_subscription repo = check_auth repo (v.auth_db.first (of_user repo.user_id) v.auths)

  abbrev pub launched : LaunchMessage → Result (Unit {0}) → World → Outcome
  launched m (err e) w = (some (err (wrap e)), w)
  launched m (ok _) w = (some (ok tt), record w { launch_queue = w.launch_queue ++ m ∷ [] })

  abbrev pub on_branch : Repo → GithubWebhook → PushEvent → World → Outcome
  on_branch repo req p w =
      if str_eq (trim_prefix p.ref "refs/heads/") p.default_branch
      then launched (launch_message repo req p) (v.put_launch (launch_message repo req p)) w
      else (some (err skip_webhook), w)

  abbrev pub push_checked : Repo → GithubWebhook → PushEvent → Result (Unit {0}) → World → Outcome
  push_checked repo req p (err e) w =
      (some (err (if is_no_sub (cause e) then skip_webhook else e)), w)
  push_checked repo req p (ok _) w = on_branch repo req p w

  abbrev pub with_payload : Repo → GithubWebhook → Result PushEvent → World → Outcome
  with_payload repo req (err e) w = (some (err (wrap bad_request)), w)
  with_payload repo req (ok p) w =
      if str_eq p.default_branch ""
      then (some (err skip_webhook), w)
      else if p.is_private
      then push_checked repo req p (check_subscription repo) w
      else on_branch repo req p w

  unfoldable pub handle_push : Repo → GithubWebhook → String → World → Outcome
  handle_push repo req body w = with_payload repo req (v.unmarshal_push body) w

  -- the `switch eventType`
  abbrev pub dispatch : Repo → GithubWebhook → String → World → Outcome
  dispatch repo req body w =
      if str_eq req.event_type "pull_request"
      then settled_outcome (handle_pull_request v repo req body w)
      else if str_eq req.event_type "push"
      then settled_outcome (handle_push repo req body w)
      else (some (err (message "got unknown github webhook event type")), w)

  abbrev pub with_repo : GithubWebhook → String → Result Repo → World → Outcome
  with_repo req body (err e) w =
      (some (err (if is_record_not_found e then wrap not_found else wrap e)), w)
  with_repo req body (ok repo) w = dispatch repo req body w

  -- HandleGithubWebhook
  unfoldable pub handle_github_webhook : GithubWebhook → String → World → Outcome
  handle_github_webhook req body w =
      if str_eq req.event_type "ping"
      then (some (ok tt), w)
      else if v.service_is_disabled
      then (some (ok tt), w)
      else with_repo (with_guid v.new_guid req) body
          (v.repo_db.first (with_hook_id req.hook_id) v.repos) w
