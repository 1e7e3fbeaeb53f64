-- ===== src/Hooks/Started.antt =====
-- What a webhook has started, and what allowed it.
use golangci_api.Base.{
  ◌≡◌, refl, ap, ◌⊎◌, inl, inr, true, false, [], ◌∷◌, ◌++◌, ℕ, String, Option, none, some, str_eq,
  Bool-cases, if_cases,
}
use golangci_api.Errors.{
  Error, Result, ok, err, cause, no_active_subscription, no_seat_in_subscription,
}
use golangci_api.Models.Repo.{Repo}
use golangci_api.Models.Auth.{Auth, of_user}
use golangci_api.Policy.ActiveSubscription.{PullRequestEvent, check_for_provider_pull_request_event}
use golangci_api.Hooks.{GithubWebhook, CommitStatus, RunMessage, Env, World, Outcome}
use golangci_api.Hooks.PullRequests.{
  is_analyzed_action, new_analysis, run_message, is_skipped, commit_status, status_set, returned,
  reject, put_done, after_status, after_create, start_analysis, on_denied, checked, handle_action,
  with_event, with_provider, with_auth, handle_pull_request,
}

-- No analysis is stored and nothing is queued.
abbrev pub Untouched : World → World → Type 0
Untouched w w' =
    (w'.analyses ≡ w.analyses) × (w'.pull_queue ≡ w.pull_queue) × (w'.launch_queue ≡ w.launch_queue)

-- A pull request of a public repository is analyzed with the user's token, one of a private
-- repository if the policy accepts it, with the token for private repositories.
abbrev pub Permitted : Env → Auth → PullRequestEvent → String → Type 0
Permitted v auth ev token =
    ((ev.repo.is_private ≡ false) × (token ≡ auth.access_token))
    ⊎ ((ev.repo.is_private ≡ true)
        × (check_for_provider_pull_request_event v.policy ev ≡ some (ok tt))
        × (str_eq token "" ≡ false)
        × (token ≡ auth.private_access_token))

module _ (v : Env) (repo : Repo) (req : GithubWebhook) where
  -- The message is queued and the commit is pending, or one of the two was refused.
  abbrev pub Sent : PullRequestEvent → String → ℕ × ℕ → World → Outcome → Type 0
  Sent ev token row w (o, w') =
      let m = run_message repo ev token (new_analysis repo req ev row) in
      let pending = commit_status v repo ev "pending" "Waiting in queue..." in
      ((o ≡ some (ok tt))
        × (w'.pull_queue ≡ w.pull_queue ++ m ∷ [])
        × (w'.statuses ≡ w.statuses ++ pending ∷ []))
      ⊎ ((e : Error) × (w'.pull_queue ≡ w.pull_queue)
          × ((v.set_commit_status pending ≡ err e) ⊎ (v.put_pull m ≡ err e)))

  abbrev pub Stored : PullRequestEvent → String → World → Outcome → Type 0
  Stored ev token w (o, w') =
      (row : ℕ × ℕ) × (v.create_analysis w.analyses ≡ ok row)
      × (w'.analyses ≡ w.analyses ++ new_analysis repo req ev row ∷ [])
      × (w'.launch_queue ≡ w.launch_queue)
      × Sent ev token row w (o, w')

  -- What starts the analysis of a pull request.
  abbrev pub PullStarted : String → World → Outcome → Type 0
  PullStarted body w (o, w') =
      (ev : PullRequestEvent) × (auth : Auth) × (token : String) × (v.parse_pull_request_event body
        ≡ ok ev)
      × (is_analyzed_action ev.action ≡ true)
      × (is_skipped v repo.full_name v.skip_repos ≡ false)
      × (v.auth_db.first (of_user repo.user_id) v.auths ≡ ok auth)
      × Permitted v auth ev token
      × Stored ev token w (o, w')

  abbrev StoredOrNot : PullRequestEvent → String → World → Outcome → Type 0
  StoredOrNot ev token w p = Untouched w p.1 ⊎ Stored ev token w p

  put-Sent :
      (ev : PullRequestEvent) (token : String) (row : ℕ × ℕ) (w w₁ : World) (x : Result (Unit {0}))
      → v.put_pull (run_message repo ev token (new_analysis repo req ev row)) ≡ x
      → w₁.pull_queue ≡ w.pull_queue
      → w₁.statuses ≡ w.statuses ++ commit_status v repo ev "pending" "Waiting in queue..." ∷ []
      → Sent ev token row w
          (put_done v (run_message repo ev token (new_analysis repo req ev row)) x w₁)
  put-Sent ev token row w w₁ (err e) q p s = inr (e, p, inr q)
  put-Sent ev token row w w₁ (ok _) q p s =
      inl (refl, ap (λ l. l ++ run_message repo ev token (new_analysis repo req ev row) ∷ []) p, s)

  put-rest :
      (m : RunMessage) (x : Result (Unit {0})) (w : World)
      → ((put_done v m x w).1.analyses ≡ w.analyses)
        × ((put_done v m x w).1.launch_queue ≡ w.launch_queue)
  put-rest m (err e) w = (refl, refl)
  put-rest m (ok _) w = (refl, refl)

  pending-Stored :
      (ev : PullRequestEvent) (token : String) (row : ℕ × ℕ) (w : World)
      → v.create_analysis w.analyses ≡ ok row
      → (x : Result (Unit {0}))
      → v.set_commit_status (commit_status v repo ev "pending" "Waiting in queue...") ≡ x
      → Stored ev token w (
          after_status v (run_message repo ev token (new_analysis repo req ev row)) (
            status_set v
              (commit_status v repo ev "pending" "Waiting in queue...")
              x
              (record w { analyses = w.analyses ++ new_analysis repo req ev row ∷ [] })))
  pending-Stored ev token row w c (err e) q = (row, c, refl, refl, inr (e, refl, inl q))
  pending-Stored ev token row w c (ok _) q =
      let m = run_message repo ev token (new_analysis repo req ev row) in
      let w₁ : World = record w {
        analyses = w.analyses ++ new_analysis repo req ev row ∷ [];
        statuses = w.statuses ++ commit_status v repo ev "pending" "Waiting in queue..." ∷ [];
      } in
      let (a, l) = put-rest m (v.put_pull m) w₁ in
      (row, c, a, l, put-Sent ev token row w w₁ (v.put_pull m) refl refl refl)

  start-StoredOrNot :
      (ev : PullRequestEvent) (token : String) (w : World) (x : Result (ℕ × ℕ))
      → v.create_analysis w.analyses ≡ x
      → StoredOrNot ev token w (after_create v repo req ev token x w)
  start-StoredOrNot ev token w (err e) q = inl (refl, refl, refl)
  start-StoredOrNot ev token w (ok row) q = inr (pending-Stored ev token row w q _ refl)

  status_set-Untouched :
      (s : CommitStatus) (x : Result (Unit {0})) (w : World)
      → Untouched w (returned v (status_set v s x w)).1
  status_set-Untouched s (err e) w = (refl, refl, refl)
  status_set-Untouched s (ok _) w = (refl, refl, refl)

  reject-Untouched :
      (ev : PullRequestEvent) (desc : String) (w : World) → Untouched w (reject v repo ev desc w).1
  reject-Untouched ev desc w = status_set-Untouched _ _ w

  on_denied-Untouched :
      (c e : Error) (ev : PullRequestEvent) (w : World) → Untouched w (on_denied v c e repo ev w).1
  on_denied-Untouched no_active_subscription e ev w = reject-Untouched ev _ w
  on_denied-Untouched no_seat_in_subscription e ev w = reject-Untouched ev _ w
  on_denied-Untouched _ e ev w = (refl, refl, refl)

  -- an outcome of the part of the handler that knows the event and the user
  abbrev Acted : Auth → PullRequestEvent → World → Outcome → Type 0
  Acted auth ev w p =
      Untouched w p.1 ⊎ ((token : String) × Permitted v auth ev token × Stored ev token w p)

  start-Acted :
      (auth : Auth) (ev : PullRequestEvent) (token : String) (w : World)
      → Permitted v auth ev token
      → Acted auth ev w (start_analysis v repo req ev token w)
  start-Acted auth ev token w h =
      elim (start-StoredOrNot ev token w (v.create_analysis w.analyses) refl) [
        | inl u ↦ inl u
        | inr s ↦ inr (token, h, s)
      ]

  checked-Acted :
      (auth : Auth) (ev : PullRequestEvent) (w : World)
      → ev.repo.is_private ≡ true
      → (x : Option (Result (Unit {0}))) → check_for_provider_pull_request_event v.policy ev ≡ x
      → Acted auth ev w (checked v auth repo req ev x w)
  checked-Acted auth ev w h none q = inl (refl, refl, refl)
  checked-Acted auth ev w h (some (err e)) q = inl (on_denied-Untouched (cause e) e ev w)
  checked-Acted auth ev w h (some (ok _)) q =
      elim (Bool-cases (str_eq auth.private_access_token "")) [
        | inl t ↦ rw t (inl (reject-Untouched ev _ w))
        | inr f ↦ rw f (start-Acted auth ev auth.private_access_token w (inr (h, q, f, refl)))
      ]

  handle_action-Acted :
      (auth : Auth) (ev : PullRequestEvent) (w : World)
      → Acted auth ev w (handle_action v auth repo req ev w)
  handle_action-Acted auth ev w =
      if_cases (Acted auth ev w) ev.repo.is_private _ _ (λ t. checked-Acted auth ev w t _ refl)
        (λ f. start-Acted auth ev auth.access_token w (inl (f, refl)))

  event-Started :
      (auth : Auth) (body : String) (w : World)
      → v.auth_db.first (of_user repo.user_id) v.auths ≡ ok auth
      → is_skipped v repo.full_name v.skip_repos ≡ false
      → (x : Result PullRequestEvent) → v.parse_pull_request_event body ≡ x
      → Untouched w (with_event v auth repo req x w).1
        ⊎ PullStarted body w (with_event v auth repo req x w)
  event-Started auth body w a k (err e) q = inl (refl, refl, refl)
  event-Started auth body w a k (ok ev) q = elim (Bool-cases (is_analyzed_action ev.action)) [
    | inr f ↦ rw f (inl (refl, refl, refl))
    | inl t ↦ rw t (elim (handle_action-Acted auth ev w) [
      | inl u ↦ inl u
      | inr (token, h, s) ↦ inr (ev, auth, token, q, t, k, a, h, s)
    ])
  ]

  provider-Started :
      (auth : Auth) (body : String) (w : World)
      → v.auth_db.first (of_user repo.user_id) v.auths ≡ ok auth
      → is_skipped v repo.full_name v.skip_repos ≡ false
      → (x : Result (Unit {0}))
      → Untouched w (with_provider v auth repo req body x w).1
        ⊎ PullStarted body w (with_provider v auth repo req body x w)
  provider-Started auth body w a k (err e) = inl (refl, refl, refl)
  provider-Started auth body w a k (ok _) = event-Started auth body w a k _ refl

  auth-Started :
      (body : String) (w : World)
      → is_skipped v repo.full_name v.skip_repos ≡ false
      → (x : Result Auth) → v.auth_db.first (of_user repo.user_id) v.auths ≡ x
      → Untouched w (with_auth v repo req body x w).1
        ⊎ PullStarted body w (with_auth v repo req body x w)
  auth-Started body w k (err e) q = inl (refl, refl, refl)
  auth-Started body w k (ok auth) q = provider-Started auth body w q k (v.build auth)

  pub pull_request-Started :
      (body : String) (w : World)
      → Untouched w (handle_pull_request v repo req body w).1
        ⊎ PullStarted body w (handle_pull_request v repo req body w)
  unfolding handle_pull_request
  pull_request-Started body w =
      if_cases (λ p. Untouched w p.1 ⊎ PullStarted body w p)
        (is_skipped v repo.full_name v.skip_repos) _ _ (λ t. inl (refl, refl, refl))
        (λ f. auth-Started body w f _ refl)
