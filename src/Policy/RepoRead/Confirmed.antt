-- ===== src/Policy/RepoRead/Confirmed.antt =====
-- Every grant, from the cache or not, was confirmed by the provider.
use golangci_api.Base.{
  Bool, true, false, ◌≡◌, refl, ◌⊎◌, inl, inr, List, [], ◌∷◌, Bool-cases, arith, eq_iff,
}
use golangci_api.Errors.{Result, ok, err}
use golangci_api.Models.Auth.{Auth}
use golangci_api.Policy.RepoRead.{
  UniversalRepo, CacheKey, CacheServer, Answers, has_key, same_key, key_of, can_read, looked_up,
  built, asked, store,
}

-- One call of CanRead: what it is asked, and what the provider answers to it.
pub record Visit : Type 0 where
  pub repo : UniversalRepo
  pub auth : Auth
  pub answers : Answers

abbrev pub visit_key : Visit → CacheKey
visit_key x = key_of x.repo x.auth

-- In one of these calls the provider has shown a repository of that name to that user.
abbrev pub Confirmed : CacheKey → List Visit → Type 0
Confirmed k [] = ⊥
Confirmed k (x ∷ earlier) =
    ((same_key (visit_key x) k ≡ true) × (x.answers.get_repo_by_name x.auth x.repo ≡ ok tt))
    ⊎ Confirmed k earlier

same_key_self : (k : CacheKey) → same_key k k ≡ true
same_key_self k =
    ground (arith, eq_iff k.of_repo.owner k.of_repo.owner, eq_iff k.of_repo.repo k.of_repo.repo)

module _ (s : CacheServer) where
  abbrev pub visit : Visit → List CacheKey → Result (Unit {0}) × List CacheKey
  visit x c = can_read s x.answers x.repo x.auth c

  -- The cache after these calls, the last of them first.
  abbrev pub cache_after : List Visit → List CacheKey
  cache_after [] = []
  cache_after (x ∷ earlier) = (visit x (cache_after earlier)).1

  -- The keys of a cache are confirmed.
  abbrev pub AllConfirmed : List CacheKey → List Visit → Type 0
  AllConfirmed c visits = (k : CacheKey) → has_key k c ≡ true → Confirmed k visits

  -- What one call keeps, and what it grants.
  abbrev Kept : Visit → List Visit → Result (Unit {0}) × List CacheKey → Type 0
  Kept x earlier (r, c) =
      AllConfirmed c (x ∷ earlier) × (r ≡ ok tt → Confirmed (visit_key x) (x ∷ earlier))

  weaken :
      (x : Visit) (earlier : List Visit) (c : List CacheKey)
      → AllConfirmed c earlier
      → AllConfirmed c (x ∷ earlier)
  weaken x earlier c a k h = inr (a k h)

  added :
      (x : Visit) (earlier : List Visit) (c : List CacheKey)
      → AllConfirmed c earlier
      → x.answers.get_repo_by_name x.auth x.repo ≡ ok tt
      → AllConfirmed (visit_key x ∷ c) (x ∷ earlier)
  added x earlier c a e k h = elim (Bool-cases (same_key (visit_key x) k)) [
    | inl t ↦ inl (t, e)
    | inr f ↦ inr (a k (rw f at h))
  ]

  store-Kept :
      (x : Visit) (earlier : List Visit) (c : List CacheKey) (r : Result (List CacheKey))
      → AllConfirmed c earlier
      → x.answers.get_repo_by_name x.auth x.repo ≡ ok tt
      → s.cache_set (visit_key x) c ≡ r
      → Kept x earlier (store s x.answers x.repo x.auth r c)
  store-Kept x earlier c (err e) a g q =
      (weaken x earlier c a, λ h. inl (same_key_self (visit_key x), g))
  store-Kept x earlier c (ok c') a g q = (
    rw (s.cache_set_law (visit_key x) c q) (added x earlier c a g),
    λ h. inl (same_key_self (visit_key x), g),
  )

  asked-Kept :
      (x : Visit) (earlier : List Visit) (c : List CacheKey) (r : Result (Unit {0}))
      → AllConfirmed c earlier
      → x.answers.get_repo_by_name x.auth x.repo ≡ r
      → Kept x earlier (asked s x.answers x.repo x.auth r c)
  asked-Kept x earlier c (err e) a q = (weaken x earlier c a, λ h. cc)
  asked-Kept x earlier c (ok _) a q = store-Kept x earlier c (s.cache_set (visit_key x) c) a q refl

  built-Kept :
      (x : Visit) (earlier : List Visit) (c : List CacheKey) (r : Result (Unit {0}))
      → AllConfirmed c earlier
      → Kept x earlier (built s x.answers x.repo x.auth r c)
  built-Kept x earlier c (err e) a = (weaken x earlier c a, λ h. cc)
  built-Kept x earlier c (ok _) a =
      asked-Kept x earlier c (x.answers.get_repo_by_name x.auth x.repo) a refl

  looked_up-Kept :
      (x : Visit) (earlier : List Visit) (c : List CacheKey) (r : Result Bool)
      → AllConfirmed c earlier
      → s.cache_get (visit_key x) c ≡ r
      → Kept x earlier (looked_up s x.answers x.repo x.auth r c)
  looked_up-Kept x earlier c (err e) a q = built-Kept x earlier c (x.answers.build x.auth) a
  looked_up-Kept x earlier c (ok false) a q = built-Kept x earlier c (x.answers.build x.auth) a
  looked_up-Kept x earlier c (ok true) a q =
      (weaken x earlier c a, λ h. inr (a (visit_key x) (s.cache_get_law (visit_key x) c q)))

  cache_after-AllConfirmed : (visits : List Visit) → AllConfirmed (cache_after visits) visits
  cache_after-AllConfirmed [] = λ k h. cc
  cache_after-AllConfirmed (x ∷ earlier) =
      (looked_up-Kept x earlier (cache_after earlier)
        (s.cache_get (visit_key x) (cache_after earlier)) (cache_after-AllConfirmed earlier) refl).0

  -- After any calls of CanRead from an empty cache, a call that grants the access is one in which
  -- the provider shows the user a repository of that owner and name, or there was such a call
  -- for the user before; and every grant that the cache then holds was confirmed in one of the calls.
  pub can_read-Confirmed :
      (x : Visit) (earlier : List Visit)
      → AllConfirmed (visit x (cache_after earlier)).1 (x ∷ earlier)
        × ((visit x (cache_after earlier)).0 ≡ ok tt → Confirmed (visit_key x) (x ∷ earlier))
  can_read-Confirmed x earlier =
      looked_up-Kept x earlier (cache_after earlier)
        (s.cache_get (visit_key x) (cache_after earlier)) (cache_after-AllConfirmed earlier) refl
