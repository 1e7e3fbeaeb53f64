-- ===== src/Crons/Staler/Served.antt =====
-- Which analyses the staler may give up: how the code's checks read in terms of the rows, the
-- configuration and the provider's answers.
use mathlib.Core.List.Memᴰ.{Memᴰ}
use golangci_api.Base.{
  ℕ, ◌+◌, ◌<◌, String, ◌≡◌, refl, ◌⊎◌, inl, inr, true, false, List, [], ◌∷◌, Option, none, some,
  Bool-cases, &&-left, &&-right, arith, ltb, str_eq, eq_iff,
}
use golangci_api.Errors.{
  Error, Result, ok, err, wrap, wrapped, provider_unauthorized, provider_not_found, >>=-eq-ok,
  wrapped-eq-ok,
}
use golangci_api.Sql.Select.{Every}
use golangci_api.Models.Repo.{Repo}
use golangci_api.Models.PullRequestAnalysis.{PullRequestAnalysis, is_live}
use golangci_api.Crons.Staler.{
  Env, is_stale, excluded, set_github_status, is_waiting, is_unrecoverable, unless_unrecoverable,
  status_of_pull,
}

module _ (v : Env) where
  -- The provider has no such thing, or refuses the user.
  abbrev pub OutOfReach : {A : Type 0} → Result A → Type 0
  OutOfReach x = (x ≡ err provider_unauthorized) ⊎ (x ≡ err provider_not_found)

  -- The provider was told of the pull request's new state, or nothing is to be told there.
  abbrev pub Told : PullRequestAnalysis → Repo → Type 0
  Told r repo =
      OutOfReach (v.get_pull_request repo r.pull_request_number)
      ⊎ ((sha : String) × (v.get_pull_request repo r.pull_request_number ≡ ok sha)
          × ((v.set_commit_status repo sha ≡ ok tt) ⊎ OutOfReach (v.set_commit_status repo sha)))

  abbrev pub NotExcluded : Repo → List String → Type 0
  NotExcluded repo l = Every (λ x. v.equal_fold x repo.full_name ≡ false) l

  -- The repository of an analysis is found, it is not one of the excluded ones, and the provider of
  -- its user was told.
  abbrev pub Served : PullRequestAnalysis → Type 0
  Served r =
      (repo : Repo) × Memᴰ repo v.repos
      × (repo.id ≡ r.repo_id)
      × NotExcluded repo v.exclude_repos
      × (v.build_for_user repo.user_id ≡ ok tt)
      × Told r repo

  -- A live analysis that was waiting or running, and was created before the timeout.
  abbrev pub Stale : ℕ → ℕ → PullRequestAnalysis → Type 0
  Stale now timeout r =
      ((r.status ≡ "sent_to_queue") ⊎ (r.status ≡ "processing"))
      × (r.created_at + timeout < now)
      × (r.deleted_at ≡ none)

  live-none :
      (r : PullRequestAnalysis) (d : Option ℕ)
      → r.deleted_at ≡ d
      → is_live r ≡ true
      → r.deleted_at ≡ none
  live-none r none q h = q
  live-none r (some t) q h = let dead : is_live r ≡ false = rw q refl in cc

  waits :
      (r : PullRequestAnalysis)
      → is_waiting r ≡ true
      → (r.status ≡ "sent_to_queue") ⊎ (r.status ≡ "processing")
  waits r h = elim (Bool-cases (str_eq r.status "sent_to_queue")) [
    | inl t ↦ inl ((eq_iff r.status "sent_to_queue").0 t)
    | inr f ↦ inr ((eq_iff r.status "processing").0 (rw f at h))
  ]

  pub is_stale-Stale :
      (now timeout : ℕ) (r : PullRequestAnalysis)
      → is_stale now timeout r ≡ true
      → Stale now timeout r
  is_stale-Stale now timeout r h =
      let rest = &&-right (is_waiting r) _ h in
      let late = &&-left (ltb (r.created_at + timeout) now) _ rest in
      (
        waits r (&&-left (is_waiting r) _ h),
        ground (arith, late),
        live-none r r.deleted_at refl (&&-right (ltb (r.created_at + timeout) now) _ rest),
      )

  pub excluded-NotExcluded :
      (repo : Repo) (l : List String) → excluded v repo l ≡ false → NotExcluded repo l
  excluded-NotExcluded repo [] h = tt
  excluded-NotExcluded repo (x ∷ l) h = elim (Bool-cases (v.equal_fold x repo.full_name)) [
    | inl t ↦ let no : true ≡ false = rw t at h in cc
    | inr f ↦ (f, excluded-NotExcluded repo l (rw f at h))
  ]

  out_of_reach :
      {A : Type 0} (x : Result A) (e : Error) → x ≡ err e → is_unrecoverable e ≡ true → OutOfReach x
  out_of_reach x provider_unauthorized q h = inl q
  out_of_reach x provider_not_found q h = inr q
  out_of_reach x _ q h = cc

  tolerated :
      {A : Type 0} (x : Result A) (e : Error)
      → x ≡ err e
      → unless_unrecoverable (err e) ≡ ok tt
      → OutOfReach x
  tolerated x e q h = elim (Bool-cases (is_unrecoverable e)) [
    | inl t ↦ out_of_reach x e q t
    | inr f ↦ let kept : unless_unrecoverable (err e) ≡ err (wrap e) = rw f refl in cc
  ]

  set-Told :
      (r : PullRequestAnalysis) (repo : Repo) (sha : String) (x : Result (Unit {0}))
      → v.set_commit_status repo sha ≡ x
      → v.get_pull_request repo r.pull_request_number ≡ ok sha
      → unless_unrecoverable x ≡ ok tt
      → Told r repo
  set-Told r repo sha (ok _) q p h = inr (sha, p, inl q)
  set-Told r repo sha (err e) q p h =
      inr (sha, p, inr (tolerated (v.set_commit_status repo sha) e q h))

  status_of_pull-Told :
      (r : PullRequestAnalysis) (repo : Repo) (x : Result String)
      → v.get_pull_request repo r.pull_request_number ≡ x
      → status_of_pull v repo x ≡ ok tt
      → Told r repo
  status_of_pull-Told r repo (err e) q h =
      inl (tolerated (v.get_pull_request repo r.pull_request_number) e q h)
  status_of_pull-Told r repo (ok sha) q h =
      set-Told r repo sha (v.set_commit_status repo sha) refl q h

  pub set_github_status-Told :
      (r : PullRequestAnalysis) (repo : Repo)
      → set_github_status v r repo ≡ ok tt
      → (v.build_for_user repo.user_id ≡ ok tt) × Told r repo
  set_github_status-Told r repo h =
      let (u, b, rest) = >>=-eq-ok (wrapped (v.build_for_user repo.user_id)) _ h in
      (
        wrapped-eq-ok (v.build_for_user repo.user_id) b,
        status_of_pull-Told r repo (v.get_pull_request repo r.pull_request_number) refl rest,
      )
