-- ===== src/Policy/RepoRead/Private.antt =====
-- Who may read a private repository.
use golangci_api.Base.{
  String, Bool, true, false, ◌≡◌, ◌≢◌, ◌↔◌, refl, ◌⊎◌, inl, inr, ap, sym, subst, if◌then◌else◌,
  List, Bool-cases, str_eq, eq_iff,
}
use golangci_api.Errors.{
  Error, Result, ok, err, wrap, forbidden, no_provider_repo_or_access, ok-injective,
}
use golangci_api.Models.Auth.{Auth, User}
use golangci_api.Policy.RepoRead.{
  UniversalRepo, CacheKey, CacheServer, Answers, can_read, is_admin, is_no_access, refused,
  private_verdict, with_token, can_read_private_repo,
}

is_no_access-only : (e : Error) → is_no_access e ≡ true → e ≡ no_provider_repo_or_access
is_no_access-only no_provider_repo_or_access h = refl
is_no_access-only _ h = cc

both-true :
    (n a : Bool) (e d : Error)
    → ◌≡◌ {A = Result (Unit {0})} (if n then (if a then ok tt else err d) else err e) (ok tt)
    → (n ≡ true) × (a ≡ true)
both-true true true e d h = (refl, refl)
both-true true false e d h = cc
both-true false a e d h = cc

err-injective : {d e : Error} → ◌≡◌ {A = Result (Unit {0})} (err d) (err e) → d ≡ e
err-injective h = cc

module _ (s : CacheServer) (v : Answers) (admin_login : String) (repo : UniversalRepo) where
  -- By the outcome of CanRead the user may read the repository; the administrator of the service
  -- also may if the provider shows them no such repository.
  abbrev pub Granted : Auth → Result (Unit {0}) → Type 0
  Granted a r =
      (r ≡ ok tt) ⊎ ((r ≡ err no_provider_repo_or_access) × (is_admin a admin_login ≡ true))

  refused-Granted : (a : Auth) (e : Error) → refused a admin_login e ≡ ok tt → Granted a (err e)
  refused-Granted a e h =
      let (n, t) =
        both-true (is_no_access e) (is_admin a admin_login) (wrap e)
          (forbidden "NO_ACCESS_TO_PRIVATE_REPO_OR_DOESNT_EXIST") h in
      inr (ap err (is_no_access-only e n), t)

  Granted-refused : (a : Auth) (e : Error) → Granted a (err e) → refused a admin_login e ≡ ok tt
  Granted-refused a e (inl q) = cc
  Granted-refused a e (inr (q, t)) =
      let n : is_no_access e ≡ true = rw (err-injective q) refl in rw (n, t) refl

  -- The user has a private token, and may read the repository, or is the administrator of the
  -- service and the provider shows no such repository to them.
  abbrev pub MayRead : Auth → List CacheKey → Type 0
  MayRead a c = (a.private_access_token ≢ "") × Granted a (can_read s v repo a c).0

  abbrev pub MayReadPrivate : Result (Auth × User) → List CacheKey → Type 0
  MayReadPrivate r c = (a : Auth) × (u : User) × (r ≡ ok (a, u)) × MayRead a c

  verdict_iff :
      (a : Auth) (r : Result (Unit {0}) × List CacheKey)
      → ((private_verdict a admin_login r).0 ≡ ok tt) ↔ Granted a r.0
  verdict_iff a (ok _, c) = (λ h. inl refl, λ g. refl)
  verdict_iff a (err e, c) = (refused-Granted a e, Granted-refused a e)

  with_token_iff :
      (a : Auth) (c : List CacheKey)
      → ((with_token s v repo a admin_login c).0 ≡ ok tt) ↔ MayRead a c
  with_token_iff a c = elim (Bool-cases (str_eq a.private_access_token "")) [
    | inl t ↦ (
      λ h.
          let wrong : ◌≡◌ {A = Result (Unit {0})}
              (err (forbidden "NEED_PRIVATE_ACCESS_TOKEN_TO_ACCESS_PRIVATE_REPO")) (ok tt) =
            rw t at h in
          cc,
      λ g. absurd (g.0 ((eq_iff a.private_access_token "").0 t)),
    )
    | inr f ↦ (
      λ h. (
        λ q.
            let t : str_eq a.private_access_token "" ≡ true =
              (eq_iff a.private_access_token "").1 q in
            cc,
        (verdict_iff a (can_read s v repo a c)).0 (rw f at h),
      ),
      λ g. rw f ((verdict_iff a (can_read s v repo a c)).1 g.1),
    )
  ]

  -- A private repository may be read exactly if the session is that of a user who has a private
  -- token, and who may read the repository, or is the administrator of the service on GitHub and
  -- is told by the provider that there is no such repository.
  pub can_read_private_repo_iff :
      (r : Result (Auth × User)) (c : List CacheKey)
      → ((can_read_private_repo s v admin_login repo r c).0 ≡ ok tt) ↔ MayReadPrivate r c
  can_read_private_repo_iff (err e) c = (λ h. cc, λ (a, u, q, _). cc)
  can_read_private_repo_iff (ok (a, u)) c = (
    λ h. (a, u, refl, (with_token_iff a c).0 h),
    λ (a', u', q, g).
        subst (λ x. (with_token s v repo x admin_login c).0 ≡ ok tt)
          (sym (ap (λ p. p.0) (ok-injective q))) ((with_token_iff a' c).1 g),
  )
