-- ===== src/Hooks/Handled.antt =====
-- The whole webhook: what it may have started of the two kinds of analyses.
use golangci_api.Base.{
  ◌≡◌, refl, ap, ◌⊎◌, inl, inr, true, false, [], ◌∷◌, ◌++◌, String, some, str_eq, if_cases,
}
use golangci_api.Errors.{Result, ok, err}
use golangci_api.Sql.{first_where, first-eq-ok}
use golangci_api.Models.Repo.{Repo}
use golangci_api.Models.Auth.{Auth}
use golangci_api.Policy.ActiveSubscription.{ProviderRepo, check_for_provider_repo}
use golangci_api.Hooks.{
  GithubWebhook, PushEvent, Env, World, Outcome, with_hook_id, settled, settled_outcome, with_guid,
}
use golangci_api.Hooks.PullRequests.{handle_pull_request}
use golangci_api.Hooks.Pushes.{
  trim_prefix, launch_message, check_found, check_built, check_auth, check_subscription, launched,
  on_branch, push_checked, with_payload, handle_push, dispatch, with_repo, handle_github_webhook,
}
use golangci_api.Hooks.Started.{Untouched, PullStarted, pull_request-Started}

module _ (v : Env) (repo : Repo) where
  -- A push to a private repository counts if the policy accepts the repository.
  abbrev pub PushPermitted : PushEvent → Type 0
  PushPermitted p =
      (p.is_private ≡ false)
      ⊎ ((pr : ProviderRepo) × (v.get_repo_by_name repo ≡ ok pr)
          × (check_for_provider_repo v.policy pr ≡ ok tt))

  -- What starts the analysis of a default branch.
  abbrev pub PushStarted : GithubWebhook → String → World → Outcome → Type 0
  PushStarted req body w (o, w') =
      (p : PushEvent) × (v.unmarshal_push body ≡ ok p)
      × (str_eq p.default_branch "" ≡ false)
      × (str_eq (trim_prefix p.ref "refs/heads/") p.default_branch ≡ true)
      × PushPermitted p
      × (o ≡ some (ok tt))
      × (w'.launch_queue ≡ w.launch_queue ++ launch_message repo req p ∷ [])
      × (w'.analyses ≡ w.analyses)
      × (w'.pull_queue ≡ w.pull_queue)

  found-Permitted :
      (x : Result ProviderRepo)
      → v.get_repo_by_name repo ≡ x
      → check_found v x ≡ ok tt
      → (pr : ProviderRepo) × (v.get_repo_by_name repo ≡ ok pr)
        × (check_for_provider_repo v.policy pr ≡ ok tt)
  found-Permitted (err e) q h = cc
  found-Permitted (ok pr) q h = (pr, q, h)

  built-Permitted :
      (x : Result (Unit {0}))
      → check_built v repo x ≡ ok tt
      → (pr : ProviderRepo) × (v.get_repo_by_name repo ≡ ok pr)
        × (check_for_provider_repo v.policy pr ≡ ok tt)
  built-Permitted (err e) h = cc
  built-Permitted (ok _) h = found-Permitted _ refl h

  auth-Permitted :
      (x : Result Auth)
      → check_auth v repo x ≡ ok tt
      → (pr : ProviderRepo) × (v.get_repo_by_name repo ≡ ok pr)
        × (check_for_provider_repo v.policy pr ≡ ok tt)
  auth-Permitted (err e) h = cc
  auth-Permitted (ok auth) h = built-Permitted (v.build auth) h

  module _ (req : GithubWebhook) (body : String) (w : World) where
    abbrev Pushed : Outcome → Type 0
    Pushed p = Untouched w p.1 ⊎ PushStarted req body w p

    launched-Pushed :
        (p : PushEvent)
        → v.unmarshal_push body ≡ ok p
        → str_eq p.default_branch "" ≡ false
        → str_eq (trim_prefix p.ref "refs/heads/") p.default_branch ≡ true
        → PushPermitted p
        → (x : Result (Unit {0})) → Pushed (launched v (launch_message repo req p) x w)
    launched-Pushed p q d b h (err e) = inl (refl, refl, refl)
    launched-Pushed p q d b h (ok _) = inr (p, q, d, b, h, refl, refl, refl, refl)

    branch-Pushed :
        (p : PushEvent)
        → v.unmarshal_push body ≡ ok p
        → str_eq p.default_branch "" ≡ false
        → PushPermitted p
        → Pushed (on_branch v repo req p w)
    branch-Pushed p q d h =
        if_cases Pushed (str_eq (trim_prefix p.ref "refs/heads/") p.default_branch) _ _
          (λ b. launched-Pushed p q d b h _) (λ f. inl (refl, refl, refl))

    checked-Pushed :
        (p : PushEvent)
        → v.unmarshal_push body ≡ ok p
        → str_eq p.default_branch "" ≡ false
        → (x : Result (Unit {0})) → check_subscription v repo ≡ x
        → Pushed (push_checked v repo req p x w)
    checked-Pushed p q d (err e) h = inl (refl, refl, refl)
    checked-Pushed p q d (ok _) h = branch-Pushed p q d (inr (auth-Permitted _ h))

    payload-Pushed :
        (x : Result PushEvent) → v.unmarshal_push body ≡ x → Pushed (with_payload v repo req x w)
    payload-Pushed (err e) q = inl (refl, refl, refl)
    payload-Pushed (ok p) q =
        if_cases Pushed (str_eq p.default_branch "") _ _ (λ t. inl (refl, refl, refl))
          (λ d.
            if_cases Pushed p.is_private _ _ (λ t. checked-Pushed p q d _ refl)
              (λ f. branch-Pushed p q d (inl f)))

    push-Pushed : Pushed (handle_push v repo req body w)
    unfolding handle_push
    push-Pushed = payload-Pushed (v.unmarshal_push body) refl

    settled-PullStarted :
        (p : Outcome)
        → PullStarted v repo req body w p
        → PullStarted v repo req body w (settled_outcome p)
    settled-PullStarted (o, w') (ev, auth, token, a, b, c, d, e, (row, f, g, h, inl (i, j, k))) =
        (ev, auth, token, a, b, c, d, e, (row, f, g, h, inl (ap settled i, j, k)))
    settled-PullStarted (o, w') (ev, auth, token, a, b, c, d, e, (row, f, g, h, inr n)) =
        (ev, auth, token, a, b, c, d, e, (row, f, g, h, inr n))

    settled-PushStarted :
        (p : Outcome) → PushStarted req body w p → PushStarted req body w (settled_outcome p)
    settled-PushStarted (o, w') (p, a, b, c, d, e, f, g, h) = (p, a, b, c, d, ap settled e, f, g, h)

    -- By the kind of the event.
    abbrev pub EventHandled : Outcome → Type 0
    EventHandled p =
        Untouched w p.1
        ⊎ (((str_eq req.event_type "pull_request" ≡ true) × PullStarted v repo req body w p)
            ⊎ ((str_eq req.event_type "push" ≡ true) × PushStarted req body w p))

    pull-EventHandled :
        str_eq req.event_type "pull_request" ≡ true
        → EventHandled (settled_outcome (handle_pull_request v repo req body w))
    pull-EventHandled t = elim (pull_request-Started v repo req body w) [
      | inl u ↦ inl u
      | inr s ↦ inr (inl (t, settled-PullStarted (handle_pull_request v repo req body w) s))
    ]

    push-EventHandled :
        str_eq req.event_type "push" ≡ true
        → EventHandled (settled_outcome (handle_push v repo req body w))
    push-EventHandled t = elim push-Pushed [
      | inl u ↦ inl u
      | inr s ↦ inr (inr (t, settled-PushStarted (handle_push v repo req body w) s))
    ]

    dispatch-EventHandled : EventHandled (dispatch v repo req body w)
    dispatch-EventHandled =
        if_cases EventHandled (str_eq req.event_type "pull_request") _ _ pull-EventHandled (λ f.
          if_cases EventHandled (str_eq req.event_type "push") _ _ push-EventHandled
            (λ g. inl (refl, refl, refl)))

module _ (v : Env) (req : GithubWebhook) (body : String) (w : World) where
  abbrev pub WebhookHandled : Outcome → Type 0
  WebhookHandled p =
      Untouched w p.1
      ⊎ ((repo : Repo) × (first_where (with_hook_id req.hook_id) v.repos ≡ ok repo)
          × (v.service_is_disabled ≡ false)
          × EventHandled v repo (with_guid v.new_guid req) body w p)

  repo-WebhookHandled :
      v.service_is_disabled ≡ false
      → (x : Result Repo) → v.repo_db.first (with_hook_id req.hook_id) v.repos ≡ x
      → WebhookHandled (with_repo v (with_guid v.new_guid req) body x w)
  repo-WebhookHandled d (err e) q = inl (refl, refl, refl)
  repo-WebhookHandled d (ok repo) q = inr (
    repo,
    first-eq-ok v.repo_db (with_hook_id req.hook_id) v.repos q,
    d,
    dispatch-EventHandled v repo (with_guid v.new_guid req) body w,
  )

  -- A webhook stores no analysis and queues nothing, unless the service is not disabled and a live
  -- repository has its hook. Then a pull request was opened or has new commits, its repository is
  -- not in the list of those to skip, and it is public, or the policy accepts it and its user has a
  -- token for private repositories: an analysis of its head is stored, and its message, with
  -- that token, is queued and the commit set to pending, or one of the two was refused. Or a
  -- push is to the default branch of a repository that is public or that the policy accepts: its
  -- head is queued for a launch, and the webhook succeeds.
  pub handle_github_webhook-Handled : WebhookHandled (handle_github_webhook v req body w)
  unfolding handle_github_webhook
  handle_github_webhook-Handled =
      if_cases WebhookHandled (str_eq req.event_type "ping") _ _ (λ t. inl (refl, refl, refl))
        (λ f.
          if_cases WebhookHandled v.service_is_disabled _ _ (λ t. inl (refl, refl, refl))
            (λ d. repo-WebhookHandled d (v.repo_db.first (with_hook_id req.hook_id) v.repos) refl))
