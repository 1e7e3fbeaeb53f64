-- ===== src/RepoService/Creation.antt =====
-- pkg/api/services/repo/service.go: `Create`, which connects a repository of the provider. A
-- private one needs a subscription; without one an organization is created for the redirect to its
-- settings. The result `none` is the panic of the organization's policy.
use Prim.Native.String.{◌++◌ as str_append}
use golangci_api.Base.{
  ℕ, String, Bool, ◌&&◌, List, [], ◌∷◌, ◌++◌, Option, none, some, ◌≡◌, ◌==◌, str_eq, if◌then◌else◌,
}
use golangci_api.Base.Int.{negsuc}
use golangci_api.Errors.{
  Error, Result, ok, err, wrap, message, not_acceptable, continue_to, not_org_admin, not_org_member,
  is_record_not_found,
}
use golangci_api.Sql.{Sql, row_at}
use golangci_api.Models.Repo.{Repo, create_init, is_live, key}
use golangci_api.Models.Org.{Org}
use golangci_api.Policy.ActiveSubscription.{
  ProviderRepo, check_for_provider_repo, of_repo, is_no_active_subscription,
}
use golangci_api.Policy.ActiveSubscription as Policy
use golangci_api.Policy.Organization.{Cache, check_can_modify}
use golangci_api.Policy.Organization as Organization
use golangci_api.Experiments.{Config, is_active_for_repo}
use golangci_api.RepoService.{
  Deps, World, Auth, RepoInfo, send_to_create_queue, create_already_existing_repo,
}

-- request.BodyRepo
pub record BodyRepo : Type 0 where
  pub provider : String
  pub owner : String
  pub name : String

-- What the service sees besides the table of repositories: the tables and policies of
-- subscriptions and organizations, the experiments, the provider, and the rows that the database
-- creates, each with a new id. `owner_of` and `name_of` are Owner and Name of a provider.Repo, the
-- parts of its full name.
pub record Env : Type 0 where
  pub deps : Deps
  pub provider_name : String
  pub get_repo_by_name : String → String → Result ProviderRepo
  pub owner_of : ProviderRepo → String
  pub name_of : ProviderRepo → String
  pub org_db : Sql Org
  pub policy : List Org → Policy.Env
  pub org_policy : Organization.Env
  pub experiments : Config
  pub user_email : String
  pub generate_hook_id : Result String
  pub create_org : List Org → Result ℕ
  pub create_repo : List Repo → Result ℕ
  pub create_repo_law : (t : List Repo) {id : ℕ} → create_repo t ≡ ok id → row_at key id t ≡ none

-- The state of the service, the organizations, and what the cache holds for the organization.
pub record Tables : Type 0 where
  pub world : World
  pub orgs : List Org
  pub cache : Cache

abbrev pub Outcome : Type 0
Outcome = Option (Result RepoInfo) × Tables

abbrev pub with_provider_id : ℕ → Repo → Bool
with_provider_id i r = r.provider_id == i && is_live r

-- WithMessage makes another error of the same code.
abbrev pub told : Error → Error
told not_org_admin = not_acceptable "NOT_ORG_ADMIN"
told not_org_member = not_acceptable "NOT_ORG_ADMIN"
told e = e

abbrev pub with_rows : List Repo → World → World
with_rows rows w = record w { rows = rows }

module _ (v : Env) (auth : Auth) where
  abbrev pub can_connect_private_repos : ProviderRepo → Bool
  can_connect_private_repos pr =
      is_active_for_repo v.experiments "CONNECT_PRIVATE_REPOS" (v.owner_of pr) (v.name_of pr)

  abbrev pub need_subscribe : Org → ProviderRepo → Error
  need_subscribe org pr =
      if can_connect_private_repos pr
      then continue_to (str_append "/orgs/" (str_append auth.provider (str_append "/" org.name)))
      else not_acceptable "NEED_PAID_MOCK"

  abbrev pub org_display_name : ProviderRepo → String
  org_display_name pr = if str_eq pr.organization "" then v.owner_of pr else pr.organization

  -- json.Marshal of the seats does not fail.
  abbrev pub new_org : ProviderRepo → ℕ → Org
  new_org pr id = record {
    id = id;
    deleted_at = none;
    name = v.experiments.to_lower (org_display_name pr);
    display_name = org_display_name pr;
    provider = v.provider_name;
    provider_id = if str_eq pr.organization "" then 0 else pr.owner_id;
    provider_personal_user_id = if str_eq pr.organization "" then pr.owner_id else 0;
    settings = record { email = v.user_email } ∷ [];
    version = 0;
  }

  abbrev pub org_created : ProviderRepo → Result ℕ → Tables → Option (Result Org) × Tables
  org_created pr (err e) t = (some (err (wrap e)), t)
  org_created pr (ok id) t =
      (some (ok (new_org pr id)), record t { orgs = t.orgs ++ new_org pr id ∷ [] })

  abbrev pub org_checked :
      ProviderRepo → Option (Result (Unit {0})) × Cache → Tables → Option (Result Org) × Tables
  org_checked pr (none, c) t = (none, record t { cache = c })
  org_checked pr (some (err e), c) t = (some (err (told e)), record t { cache = c })
  org_checked pr (some (ok _), c) t = org_created pr (v.create_org t.orgs) (record t { cache = c })

  -- createOrganization
  abbrev pub create_organization : ProviderRepo → Tables → Option (Result Org) × Tables
  create_organization pr t = org_checked pr (check_can_modify v.org_policy (new_org pr 0) t.cache) t

  abbrev pub with_created :
      ProviderRepo → Option (Result Org) × Tables → Option (Result (Unit {0})) × Tables
  with_created pr (none, t) = (none, t)
  with_created pr (some (err e), t) = (some (err (wrap e)), t)
  with_created pr (some (ok org), t) = (some (err (need_subscribe org pr)), t)

  abbrev pub org_missing : ProviderRepo → Tables → Option (Result (Unit {0})) × Tables
  org_missing pr t =
      if can_connect_private_repos pr
      then with_created pr (create_organization pr t)
      else (some (err (not_acceptable "NEED_PAID_MOCK")), t)

  abbrev pub with_org : ProviderRepo → Result Org → Tables → Option (Result (Unit {0})) × Tables
  with_org pr (ok org) t = (some (err (need_subscribe org pr)), t)
  with_org pr (err e) t =
      if is_record_not_found e then org_missing pr t else (some (err (wrap e)), t)

  abbrev pub on_policy :
      ProviderRepo → Result (Unit {0}) → Tables → Option (Result (Unit {0})) × Tables
  on_policy pr (ok _) t = (some (ok tt), t)
  on_policy pr (err e) t =
      if is_no_active_subscription e
      then with_org pr (v.org_db.first (of_repo v.provider_name pr) t.orgs) t
      else (some (err e), t)

  -- checkSubscription
  abbrev pub check_subscription : ProviderRepo → Tables → Option (Result (Unit {0})) × Tables
  check_subscription pr t = on_policy pr (check_for_provider_repo (v.policy t.orgs) pr) t

  abbrev pub answered : Result RepoInfo × World → Tables → Outcome
  answered (r, w) t = (some r, record t { world = w })

  abbrev pub recreated : Repo → Tables → Outcome
  recreated repo t = answered (create_already_existing_repo v.deps repo.commit_state repo t.world) t

  -- The number of stars is fetched later.
  abbrev pub new_repo : ProviderRepo → String → ℕ → Repo
  new_repo pr hook_id id = record {
    id = id;
    deleted_at = none;
    user_id = auth.user_id;
    full_name = v.experiments.to_lower pr.full_name;
    display_full_name = pr.full_name;
    hook_id = hook_id;
    provider = auth.provider;
    provider_hook_id = 0;
    provider_id = pr.id;
    commit_state = create_init;
    is_private = pr.is_private;
    create_fail_reason = "";
    stargazers_count = negsuc 0;
  }

  -- A row that another request has created meanwhile is connected again.
  abbrev pub row_refused : Error → Result Repo → Tables → Outcome
  row_refused e (ok repo) t = recreated repo t
  row_refused e (err x) t = (some (err (wrap e)), t)

  abbrev pub row_created : ProviderRepo → String → Result ℕ → Tables → Outcome
  row_created pr hook_id (err e) t =
      row_refused e (v.deps.repo_db.first (with_provider_id pr.id) t.world.rows) t
  row_created pr hook_id (ok id) t =
      let repo = new_repo pr hook_id id in
      answered (send_to_create_queue v.deps repo (with_rows (t.world.rows ++ repo ∷ []) t.world)) t

  abbrev pub with_hook : ProviderRepo → Result String → Tables → Outcome
  with_hook pr (err e) t = (some (err (wrap e)), t)
  with_hook pr (ok hook_id) t = row_created pr hook_id (v.create_repo t.world.rows) t

  -- storeRepo
  abbrev pub store_repo : ProviderRepo → Tables → Outcome
  store_repo pr t = with_hook pr v.generate_hook_id t

  abbrev pub if_subscribed : ProviderRepo → Option (Result (Unit {0})) × Tables → Outcome
  if_subscribed pr (none, t) = (none, t)
  if_subscribed pr (some (err e), t) = (some (err (wrap e)), t)
  if_subscribed pr (some (ok _), t) = store_repo pr t

  abbrev pub create_new : ProviderRepo → Tables → Outcome
  create_new pr t =
      if pr.is_private then if_subscribed pr (check_subscription pr t) else store_repo pr t

  abbrev pub with_row : ProviderRepo → Result Repo → Tables → Outcome
  with_row pr (ok repo) t = recreated repo t
  with_row pr (err e) t =
      if is_record_not_found e then create_new pr t else (some (err (wrap e)), t)

  abbrev pub with_provider_repo : Result ProviderRepo → Tables → Outcome
  with_provider_repo (err e) t = (some (err (wrap e)), t)
  with_provider_repo (ok pr) t =
      if pr.is_admin
      then with_row pr (v.deps.repo_db.first (with_provider_id pr.id) t.world.rows) t
      else (some (err (message "no admin permission on repo")), t)

  abbrev pub with_client : BodyRepo → Result (Unit {0}) → Tables → Outcome
  with_client req (err e) t = (some (err (wrap e)), t)
  with_client req (ok _) t =
      if str_eq v.provider_name req.provider
      then with_provider_repo (v.get_repo_by_name req.owner req.name) t
      else (some (err (message "auth provider is not the request repo provider")), t)

  -- Create
  unfoldable pub create : BodyRepo → Tables → Outcome
  create req t = with_client req (v.deps.build_provider auth) t
