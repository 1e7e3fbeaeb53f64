-- ===== src/Policy/RepoRead.antt =====
-- pkg/api/policy/repo.go: whether a user may read a repository. The VCS provider and the cache
-- server are parameters; the cache of these grants is the list of their keys.
pub mod Confirmed
pub mod Private
pub mod Examples
use golangci_api.Base.{
  ℕ, String, Bool, true, false, not, ◌&&◌, ◌||◌, ◌≡◌, List, [], ◌∷◌, ◌==◌, str_eq, if◌then◌else◌,
}
use golangci_api.Errors.{
  Error, Result, ok, err, wrap, cause, provider_not_found, no_provider_repo_or_access, forbidden,
  not_authorized,
}
use golangci_api.Models.Auth.{Auth, User}

-- models.UniversalRepo
pub record UniversalRepo : Type 0 where
  pub owner : String
  pub repo : String

-- What `cacheKey` is made of.
pub record CacheKey : Type 0 where
  pub of_repo : UniversalRepo
  pub user_id : ℕ

abbrev pub same_key : CacheKey → CacheKey → Bool
same_key j k =
    str_eq j.of_repo.owner k.of_repo.owner
    && (str_eq j.of_repo.repo k.of_repo.repo && j.user_id == k.user_id)

abbrev pub has_key : CacheKey → List CacheKey → Bool
has_key k [] = false
has_key k (j ∷ keys) = same_key j k || has_key k keys

-- A grant that the cache server finds was stored; it may forget grants at any time.
pub record CacheServer : Type 0 where
  pub cache_get : CacheKey → List CacheKey → Result Bool
  pub cache_set : CacheKey → List CacheKey → Result (List CacheKey)
  pub cache_get_law :
      (k : CacheKey) (c : List CacheKey) → cache_get k c ≡ ok true → has_key k c ≡ true
  pub cache_set_law :
      (k : CacheKey) (c : List CacheKey) {c' : List CacheKey} → cache_set k c ≡ ok c' → c' ≡ k ∷ c

-- What the provider answers while a request is served: to `Build` and to `GetRepoByName`.
pub record Answers : Type 0 where
  pub build : Auth → Result (Unit {0})
  pub get_repo_by_name : Auth → UniversalRepo → Result (Unit {0})

abbrev pub is_not_found : Error → Bool
is_not_found provider_not_found = true
is_not_found _ = false

abbrev pub is_no_access : Error → Bool
is_no_access no_provider_repo_or_access = true
is_no_access _ = false

abbrev pub is_not_authorized : Error → Bool
is_not_authorized not_authorized = true
is_not_authorized _ = false

abbrev pub key_of : UniversalRepo → Auth → CacheKey
key_of repo auth = record { of_repo = repo; user_id = auth.user_id }

abbrev pub is_admin : Auth → String → Bool
is_admin auth admin_login =
    not (str_eq admin_login "")
    && (str_eq auth.provider "github.com" && str_eq auth.login admin_login)

abbrev pub refused : Auth → String → Error → Result (Unit {0})
refused auth admin_login e =
    if is_no_access e
    then (if is_admin auth admin_login
        then ok tt
        else err (forbidden "NO_ACCESS_TO_PRIVATE_REPO_OR_DOESNT_EXIST"))
    else err (wrap e)

abbrev pub private_verdict :
    Auth → String → Result (Unit {0}) × List CacheKey → Result (Unit {0}) × List CacheKey
private_verdict auth admin_login (err e, c) = (refused auth admin_login e, c)
private_verdict auth admin_login (ok _, c) = (ok tt, c)

module _ (s : CacheServer) (v : Answers) (repo : UniversalRepo) (auth : Auth) where
  -- an error of the cache server is only logged
  abbrev pub store : Result (List CacheKey) → List CacheKey → Result (Unit {0}) × List CacheKey
  store (err e) c = (ok tt, c)
  store (ok c') c = (ok tt, c')

  abbrev pub asked : Result (Unit {0}) → List CacheKey → Result (Unit {0}) × List CacheKey
  asked (err e) c = (err (if is_not_found e then no_provider_repo_or_access else wrap e), c)
  asked (ok _) c = store (s.cache_set (key_of repo auth) c) c

  abbrev pub built : Result (Unit {0}) → List CacheKey → Result (Unit {0}) × List CacheKey
  built (err e) c = (err (wrap e), c)
  built (ok _) c = asked (v.get_repo_by_name auth repo) c

  abbrev pub looked_up : Result Bool → List CacheKey → Result (Unit {0}) × List CacheKey
  looked_up (err e) c = built (v.build auth) c
  looked_up (ok true) c = (ok tt, c)
  looked_up (ok false) c = built (v.build auth) c

  -- Repo.CanRead
  abbrev pub can_read : List CacheKey → Result (Unit {0}) × List CacheKey
  can_read c = looked_up (s.cache_get (key_of repo auth) c) c

  abbrev pub with_token : String → List CacheKey → Result (Unit {0}) × List CacheKey
  with_token admin_login c =
      if str_eq auth.private_access_token ""
      then (err (forbidden "NEED_PRIVATE_ACCESS_TOKEN_TO_ACCESS_PRIVATE_REPO"), c)
      else private_verdict auth admin_login (can_read c)

module _ (s : CacheServer) (v : Answers) (admin_login : String) (repo : UniversalRepo) where
  -- Repo.CanReadPrivateRepo, from the outcome of Authorize
  abbrev pub can_read_private_repo :
      Result (Auth × User) → List CacheKey → Result (Unit {0}) × List CacheKey
  can_read_private_repo (err e) c = (
    err (
        if is_not_authorized (cause e)
        then forbidden "NEED_AUTH_TO_ACCESS_PRIVATE_REPO"
        else wrap e),
    c,
  )
  can_read_private_repo (ok (a, u)) c = with_token s v repo a admin_login c
