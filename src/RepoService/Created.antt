-- ===== src/RepoService/Created.antt =====
-- What a request to connect a repository of the provider has done when it returns.
use golangci_api.Base.{
  ℕ, ◌≡◌, refl, sym, subst, ◌⊎◌, inl, inr, true, false, List, [], ◌∷◌, ◌++◌, Option, none, some,
  eq_iff, String, &&-right, arith, str_eq, if_cases,
}
use golangci_api.Errors.{Error, Result, ok, err, is_record_not_found}
use golangci_api.Sql.{
  row_at, Unique, first_where, first-eq-ok, first_where-holds, first_where-row_at,
}
use golangci_api.Models.Repo.{Repo, key}
use golangci_api.Policy.ActiveSubscription.{ProviderRepo, check_for_provider_repo}
use golangci_api.RepoService.{World, Auth, RepoInfo}
use golangci_api.RepoService.Recreate.{
  Recreated, create_already_existing_repo-Recreated, send_to_create_queue-Recreated,
}
use golangci_api.RepoService.Subscribed.{Passed, policy-Passed}
use golangci_api.RepoService.Creation.{
  BodyRepo, Env, Tables, Outcome, with_provider_id, with_rows, check_subscription, answered,
  recreated, new_repo, row_refused, row_created, with_hook, store_repo, if_subscribed, create_new,
  with_row, with_provider_repo, with_client, create,
}

-- The table and the queues are as before, and the answer is an error.
abbrev pub Refused : World → Outcome → Type 0
Refused w p = (p.1.world ≡ w) × ((p.0 ≡ none) ⊎ ((e : Error) × (p.0 ≡ some (err e))))

refused : (e : Error) (t : Tables) → Refused t.world (some (err e), t)
refused e t = (refl, inr (e, refl))

row_at-append :
    (i : ℕ) (t : List Repo) (r : Repo)
    → row_at key i t ≡ none
    → r.id ≡ i
    → row_at key i (t ++ r ∷ []) ≡ some r
row_at-append i [] r n h = ground (arith, h)
row_at-append i (x ∷ t) r n h = ground (arith, n, h, row_at-append i t r)

module _ (v : Env) (auth : Auth) where
  module _ (pr : ProviderRepo) (w : World) where
    -- A live row has the provider's id already, and is connected again.
    abbrev pub Existing : Outcome → Type 0
    Existing p =
        (r : Repo) × (x : Result RepoInfo) × (first_where (with_provider_id pr.id) w.rows ≡ ok r)
        × (p.0 ≡ some x)
        × Recreated r w (x, p.1.world)

    -- A row of a new id is added and connected.
    abbrev pub Added : Outcome → Type 0
    Added p =
        (id : ℕ) × (hook_id : String) × (x : Result RepoInfo) × (v.generate_hook_id ≡ ok hook_id)
        × (row_at key id w.rows ≡ none)
        × (p.0 ≡ some x)
        × Recreated (new_repo v auth pr hook_id id)
            (with_rows (w.rows ++ new_repo v auth pr hook_id id ∷ []) w) (x, p.1.world)

    abbrev pub Stored : Outcome → Type 0
    Stored p = Refused w p ⊎ (Existing p ⊎ Added p)

    answered-Existing :
        (t : Tables) (r : Repo) (q : Result RepoInfo × World)
        → first_where (with_provider_id pr.id) w.rows ≡ ok r
        → Recreated r w q
        → Existing (answered v auth q t)
    answered-Existing t r (x, w') f h = (r, x, f, refl, h)

    answered-Added :
        (t : Tables) (hook_id : String) (id : ℕ) (q : Result RepoInfo × World)
        → v.generate_hook_id ≡ ok hook_id
        → row_at key id w.rows ≡ none
        → Recreated
            (new_repo v auth pr hook_id id)
            (with_rows (w.rows ++ new_repo v auth pr hook_id id ∷ []) w)
            q
        → Added (answered v auth q t)
    answered-Added t hook_id id (x, w') g n h = (id, hook_id, x, g, n, refl, h)

  -- the row that the query finds, by what the table holds
  recreated-Existing :
      (pr : ProviderRepo) (t : Tables) (r : Repo)
      → Unique key t.world.rows
      → first_where (with_provider_id pr.id) t.world.rows ≡ ok r
      → Existing pr t.world (recreated v auth r t)
  recreated-Existing pr t r u f = answered-Existing pr t.world t r _ f (
      create_already_existing_repo-Recreated v.deps r t.world
        (&&-right _ _ (first_where-holds (with_provider_id pr.id) t.world.rows f))
        (first_where-row_at key (with_provider_id pr.id) t.world.rows u f))

  row_refused-Stored :
      (pr : ProviderRepo) (e : Error) (t : Tables)
      → Unique key t.world.rows
      → (x : Result Repo) → v.deps.repo_db.first (with_provider_id pr.id) t.world.rows ≡ x
      → Stored pr t.world (row_refused v auth e x t)
  row_refused-Stored pr e t u (ok r) q = inr (
      inl (
        recreated-Existing pr t r u
          (first-eq-ok v.deps.repo_db (with_provider_id pr.id) t.world.rows q)))
  row_refused-Stored pr e t u (err x) q = inl (refused _ t)

  row_created-Stored :
      (pr : ProviderRepo) (hook_id : String) (t : Tables)
      → Unique key t.world.rows
      → v.generate_hook_id ≡ ok hook_id
      → (x : Result ℕ) → v.create_repo t.world.rows ≡ x
      → Stored pr t.world (row_created v auth pr hook_id x t)
  row_created-Stored pr hook_id t u g (err e) q = row_refused-Stored pr e t u _ refl
  row_created-Stored pr hook_id t u g (ok id) q =
      let new = v.create_repo_law t.world.rows q in
      let repo = new_repo v auth pr hook_id id in
      inr (
        inr (
          answered-Added pr t.world t hook_id id _ g new (
            send_to_create_queue-Recreated v.deps repo
              (with_rows (t.world.rows ++ repo ∷ []) t.world) refl refl
              (row_at-append id t.world.rows repo new refl))))

  with_hook-Stored :
      (pr : ProviderRepo) (t : Tables)
      → Unique key t.world.rows
      → (x : Result String) → v.generate_hook_id ≡ x
      → Stored pr t.world (with_hook v auth pr x t)
  with_hook-Stored pr t u (err e) q = inl (refused _ t)
  with_hook-Stored pr t u (ok h) q = row_created-Stored pr h t u q _ refl

  -- The repository is public, or the policy of subscriptions accepts it.
  abbrev pub Allowed : ProviderRepo → Tables → Type 0
  Allowed pr t = (pr.is_private ≡ false) ⊎ (check_for_provider_repo (v.policy t.orgs) pr ≡ ok tt)

  abbrev pub Connected : ProviderRepo → Tables → Outcome → Type 0
  Connected pr t p =
      Refused t.world p ⊎ (Existing pr t.world p ⊎ (Allowed pr t × Added pr t.world p))

  Allowed-Connected :
      (pr : ProviderRepo) (t : Tables) (p : Outcome)
      → Allowed pr t
      → Stored pr t.world p
      → Connected pr t p
  Allowed-Connected pr t p a (inl r) = inl r
  Allowed-Connected pr t p a (inr (inl e)) = inr (inl e)
  Allowed-Connected pr t p a (inr (inr n)) = inr (inr (a, n))

  subscribed-Connected :
      (pr : ProviderRepo) (t : Tables) (c : Option (Result (Unit {0})) × Tables)
      → Unique key t.world.rows
      → Passed v auth pr t c
      → Connected pr t (if_subscribed v auth pr c)
  subscribed-Connected pr t (none, t') u h = inl (h, inl refl)
  subscribed-Connected pr t (some (err e), t') u h = inl (h, inr (_, refl))
  subscribed-Connected pr t (some (ok _), t') u (h, q) =
      Allowed-Connected pr t (store_repo v auth pr t') (inr q) (
        subst (λ w. Stored pr w (store_repo v auth pr t')) h
          (with_hook-Stored pr t' (subst (λ w. Unique key w.rows) (sym h) u) _ refl))

  new-Connected :
      (pr : ProviderRepo) (t : Tables)
      → Unique key t.world.rows
      → Connected pr t (create_new v auth pr t)
  new-Connected pr t u =
      if_cases (Connected pr t) pr.is_private _ _
        (λ y.
          subscribed-Connected pr t (check_subscription v auth pr t) u
            (policy-Passed v auth pr t _ refl))
        (λ n.
          Allowed-Connected pr t (store_repo v auth pr t) (inl n) (with_hook-Stored pr t u _ refl))

  row-Connected :
      (pr : ProviderRepo) (t : Tables)
      → Unique key t.world.rows
      → (x : Result Repo) → v.deps.repo_db.first (with_provider_id pr.id) t.world.rows ≡ x
      → Connected pr t (with_row v auth pr x t)
  row-Connected pr t u (ok r) q = inr (
      inl (
        recreated-Existing pr t r u
          (first-eq-ok v.deps.repo_db (with_provider_id pr.id) t.world.rows q)))
  row-Connected pr t u (err e) q =
      if_cases (Connected pr t) (is_record_not_found e) _ _ (λ y. new-Connected pr t u)
        (λ n. inl (refused _ t))

  module _ (req : BodyRepo) (t : Tables) where
    abbrev pub Created : Outcome → Type 0
    Created p =
        Refused t.world p
        ⊎ ((pr : ProviderRepo) × (v.provider_name ≡ req.provider)
            × (v.get_repo_by_name req.owner req.name ≡ ok pr)
            × (pr.is_admin ≡ true)
            × Connected pr t p)

    provider_repo-Created :
        v.provider_name ≡ req.provider
        → Unique key t.world.rows
        → (x : Result ProviderRepo) → v.get_repo_by_name req.owner req.name ≡ x
        → Created (with_provider_repo v auth x t)
    provider_repo-Created n u (err e) q = inl (refused _ t)
    provider_repo-Created n u (ok pr) q =
        if_cases Created pr.is_admin _ _ (λ y. inr (pr, n, q, y, row-Connected pr t u _ refl))
          (λ f. inl (refused _ t))

    client-Created :
        Unique key t.world.rows → (x : Result (Unit {0})) → Created (with_client v auth req x t)
    client-Created u (err e) = inl (refused _ t)
    client-Created u (ok _) =
        if_cases Created (str_eq v.provider_name req.provider) _ _
          (λ y. provider_repo-Created ((eq_iff v.provider_name req.provider).0 y) u _ refl)
          (λ f. inl (refused _ t))

    -- A request to connect a repository is refused, and the table of repositories and the queues
    -- are as before; or the caller's provider is the one that is asked for and says that the caller
    -- is an administrator of the repository. Then either a live row of the provider's id is connected
    -- again; or a row with an id that is new is added and connected, and the repository is public or
    -- the policy of subscriptions accepts it, which it also does while its check is switched off.
    -- When a row is connected and the answer is no error, its message is sent and it is moved to
    -- "sent to queue", or its creation was under way or done and nothing changes; when the answer is
    -- an error the row, found or added, keeps its state, and at most its message was sent. Row keys
    -- are unique.
    pub create-Created : Unique key t.world.rows → Created (create v auth req t)
    unfolding create
    create-Created u = client-Created u (v.deps.build_provider auth)
