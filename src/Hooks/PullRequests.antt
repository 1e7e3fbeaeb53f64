-- ===== src/Hooks/PullRequests.antt =====
-- pkg/api/services/repohook/service.go: handleGithubPullRequestWebhook.
use golangci_api.Base.{
  ℕ, String, Bool, true, false, ◌||◌, List, [], ◌∷◌, ◌++◌, Option, none, some, str_eq,
  if◌then◌else◌,
}
use golangci_api.Errors.{
  Error, Result, ok, err, wrap, cause, skip_webhook, no_active_subscription,
  no_seat_in_subscription,
}
use golangci_api.Models.Repo.{Repo}
use golangci_api.Models.Auth.{Auth, of_user}
use golangci_api.Models.PullRequestAnalysis.{PullRequestAnalysis}
use golangci_api.Policy.ActiveSubscription.{PullRequestEvent, check_for_provider_pull_request_event}
use golangci_api.Hooks.{
  GithubWebhook, CommitStatus, RunMessage, Env, World, Outcome, is_no_access, is_unauthorized,
}

abbrev pub is_analyzed_action : String → Bool
is_analyzed_action action = str_eq action "opened" || str_eq action "synchronize"

abbrev pub new_analysis : Repo → GithubWebhook → PullRequestEvent → ℕ × ℕ → PullRequestAnalysis
new_analysis repo req ev (id, now) = record {
  id = id;
  created_at = now;
  deleted_at = none;
  repo_id = repo.id;
  pull_request_number = ev.pull_request_number;
  github_delivery_guid = req.delivery_guid;
  commit_sha = ev.head_commit_sha;
  status = "sent_to_queue";
  reported_issues_count = 0;
  result_json = "{}";
}

abbrev pub run_message : Repo → PullRequestEvent → String → PullRequestAnalysis → RunMessage
run_message repo ev token a = record {
  full_name = repo.full_name;
  is_private = ev.repo.is_private;
  github_access_token = token;
  pull_request_number = a.pull_request_number;
  user_id = repo.user_id;
  analysis_guid = a.github_delivery_guid;
  commit_sha = a.commit_sha;
}

module _ (v : Env) where
  -- the loop over the repositories whose pull requests are ignored
  abbrev pub is_skipped : String → List String → Bool
  is_skipped full_name [] = false
  is_skipped full_name (r ∷ rest) =
      if v.policy.equal_fold r full_name then true else is_skipped full_name rest

  abbrev pub commit_status : Repo → PullRequestEvent → String → String → CommitStatus
  commit_status repo ev state desc = record {
    full_name = repo.full_name;
    commit_sha = ev.head_commit_sha;
    state = state;
    description = desc;
    context = v.app_name;
  }

  abbrev pub status_set : CommitStatus → Result (Unit {0}) → World → Result (Unit {0}) × World
  status_set s (err e) w = (err (if is_no_access e then skip_webhook else wrap e), w)
  status_set s (ok _) w = (ok tt, record w { statuses = w.statuses ++ s ∷ [] })

  -- the closure `setCommitStatus`
  abbrev pub set_commit_status :
      Repo → PullRequestEvent → String → String → World → Result (Unit {0}) × World
  set_commit_status repo ev state desc w =
      status_set (commit_status repo ev state desc)
        (v.set_commit_status (commit_status repo ev state desc)) w

  abbrev pub returned : Result (Unit {0}) × World → Outcome
  returned (r, w) = (some r, w)

  -- The pull request is not analyzed, and its commit tells why.
  abbrev pub reject : Repo → PullRequestEvent → String → World → Outcome
  reject repo ev desc w = returned (set_commit_status repo ev "error" desc w)

  abbrev pub put_done : RunMessage → Result (Unit {0}) → World → Outcome
  put_done m (err e) w = (some (err (wrap e)), w)
  put_done m (ok _) w = (some (ok tt), record w { pull_queue = w.pull_queue ++ m ∷ [] })

  abbrev pub after_status : RunMessage → Result (Unit {0}) × World → Outcome
  after_status m (err e, w) = (some (err e), w)
  after_status m (ok _, w) = put_done m (v.put_pull m) w

  abbrev pub after_create :
      Repo → GithubWebhook → PullRequestEvent → String → Result (ℕ × ℕ) → World → Outcome
  after_create repo req ev token (err e) w = (some (err (wrap e)), w)
  after_create repo req ev token (ok row) w =
      after_status (run_message repo ev token (new_analysis repo req ev row)) (
        set_commit_status repo ev "pending" "Waiting in queue..."
          (record w { analyses = w.analyses ++ new_analysis repo req ev row ∷ [] }))

  -- from createGithubPullRequestAnalysis on
  abbrev pub start_analysis : Repo → GithubWebhook → PullRequestEvent → String → World → Outcome
  start_analysis repo req ev token w =
      after_create repo req ev token (v.create_analysis w.analyses) w

  -- by the cause of the policy's error
  abbrev pub on_denied : Error → Error → Repo → PullRequestEvent → World → Outcome
  on_denied no_active_subscription e repo ev w =
      reject repo ev "No active paid subscription for the private repo" w
  on_denied no_seat_in_subscription e repo ev w =
      reject repo ev "Git author's email wasn't configured in GolangCI" w
  on_denied _ e repo ev w = (some (err e), w)

  abbrev pub with_private_token : Auth → Repo → GithubWebhook → PullRequestEvent → World → Outcome
  with_private_token auth repo req ev w =
      if str_eq auth.private_access_token ""
      then reject repo ev "No private repos access token" w
      else start_analysis repo req ev auth.private_access_token w

  abbrev pub checked :
      Auth → Repo → GithubWebhook → PullRequestEvent → Option (Result (Unit {0})) → World → Outcome
  checked auth repo req ev none w = (none, w)
  checked auth repo req ev (some (err e)) w = on_denied (cause e) e repo ev w
  checked auth repo req ev (some (ok _)) w = with_private_token auth repo req ev w

  abbrev pub handle_action : Auth → Repo → GithubWebhook → PullRequestEvent → World → Outcome
  handle_action auth repo req ev w =
      if ev.repo.is_private
      then checked auth repo req ev (check_for_provider_pull_request_event v.policy ev) w
      else start_analysis repo req ev auth.access_token w

  abbrev pub with_event : Auth → Repo → GithubWebhook → Result PullRequestEvent → World → Outcome
  with_event auth repo req (err e) w =
      (some (err (if is_unauthorized (cause e) then skip_webhook else wrap e)), w)
  with_event auth repo req (ok ev) w =
      if is_analyzed_action ev.action
      then handle_action auth repo req ev w
      else (some (err skip_webhook), w)

  abbrev pub with_provider :
      Auth → Repo → GithubWebhook → String → Result (Unit {0}) → World → Outcome
  with_provider auth repo req body (err e) w = (some (err (wrap e)), w)
  with_provider auth repo req body (ok _) w =
      with_event auth repo req (v.parse_pull_request_event body) w

  abbrev pub with_auth : Repo → GithubWebhook → String → Result Auth → World → Outcome
  with_auth repo req body (err e) w = (some (err (wrap e)), w)
  with_auth repo req body (ok auth) w = with_provider auth repo req body (v.build auth) w

  unfoldable pub handle_pull_request : Repo → GithubWebhook → String → World → Outcome
  handle_pull_request repo req body w =
      if is_skipped repo.full_name v.skip_repos
      then (some (err skip_webhook), w)
      else with_auth repo req body (v.auth_db.first (of_user repo.user_id) v.auths) w
