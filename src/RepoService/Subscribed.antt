-- ===== src/RepoService/Subscribed.antt =====
-- The check of the subscription of a private repository that is to be connected.
use golangci_api.Base.{ℕ, ◌≡◌, refl, Option, none, some, if_cases}
use golangci_api.Errors.{Result, ok, err, is_record_not_found}
use golangci_api.Models.Org.{Org}
use golangci_api.Policy.ActiveSubscription.{
  ProviderRepo, check_for_provider_repo, is_no_active_subscription,
}
use golangci_api.Policy.Organization.{Cache}
use golangci_api.RepoService.{Auth}
use golangci_api.RepoService.Creation.{
  Env, Tables, can_connect_private_repos, org_created, org_checked, with_created, with_org,
  on_policy,
}

module _ (v : Env) (auth : Auth) where
  -- The check of the subscription touches no row, and passes only by the policy.
  abbrev pub Passed : ProviderRepo → Tables → Option (Result (Unit {0})) × Tables → Type 0
  Passed pr t (none, t') = t'.world ≡ t.world
  Passed pr t (some (err e), t') = t'.world ≡ t.world
  Passed pr t (some (ok _), t') =
      (t'.world ≡ t.world) × (check_for_provider_repo (v.policy t.orgs) pr ≡ ok tt)

  org_checked-world :
      (pr : ProviderRepo) (t : Tables) (c : Option (Result (Unit {0})) × Cache)
      → (org_checked v auth pr c t).1.world ≡ t.world
  org_checked-world pr t (none, c) = refl
  org_checked-world pr t (some (err e), c) = refl
  org_checked-world pr t (some (ok _), c) = created (v.create_org t.orgs)
    where
      created :
          (x : Result ℕ) → (org_created v auth pr x (record t { cache = c })).1.world ≡ t.world
      created (err e) = refl
      created (ok id) = refl

  with_created-Passed :
      (pr : ProviderRepo) (t : Tables) (c : Option (Result Org) × Tables)
      → c.1.world ≡ t.world
      → Passed pr t (with_created v auth pr c)
  with_created-Passed pr t (none, t') h = h
  with_created-Passed pr t (some (err e), t') h = h
  with_created-Passed pr t (some (ok org), t') h = h

  with_org-Passed :
      (pr : ProviderRepo) (t : Tables) (x : Result Org) → Passed pr t (with_org v auth pr x t)
  with_org-Passed pr t (ok org) = refl
  with_org-Passed pr t (err e) =
      if_cases (Passed pr t) (is_record_not_found e) _ _
        (λ y.
          if_cases (Passed pr t) (can_connect_private_repos v auth pr) _ _
            (λ y. with_created-Passed pr t _ (org_checked-world pr t _)) (λ n. refl))
        (λ n. refl)

  pub policy-Passed :
      (pr : ProviderRepo) (t : Tables) (x : Result (Unit {0}))
      → check_for_provider_repo (v.policy t.orgs) pr ≡ x
      → Passed pr t (on_policy v auth pr x t)
  policy-Passed pr t (ok _) q = (refl, q)
  policy-Passed pr t (err e) q =
      if_cases (Passed pr t) (is_no_active_subscription e) _ _ (λ y. with_org-Passed pr t _)
        (λ n. refl)
