-- ===== src/Crons/Staler/Iteration.antt =====
-- What an iteration of the staler does to the table of analyses, and when.
use mathlib.Core.Option
use mathlib.Core.Option.{some-injective}
use mathlib.Core.List.Memᴰ.{Memᴰ}
use golangci_api.Base.{
  ℕ, ◌≡◌, refl, sym, ◌∙◌, subst, ◌⊎◌, inl, inr, true, List, [], ◌∷◌, Option, none, some, Bool-cases,
  ==_iff, &&-left, if◌then◌else◌,
}
use golangci_api.Errors.{Result, ok, err}
use golangci_api.Sql.{
  row_at, Unique, update_where, row_at-update_where, row_at-key, Memᴰ-row_at, updates-eq-ok,
  first-eq-ok, first_where-Memᴰ, first_where-holds,
}
use golangci_api.Sql.Select.{Every}
use golangci_api.Models.Repo.{Repo}
use golangci_api.Models.PullRequestAnalysis.{PullRequestAnalysis, key, with_id}
use golangci_api.Crons.Staler.{
  Env, is_stale, set_stale, stored, give_up, update_of_repo, update_stale_analysis, update_all,
  iterate, run_iteration, excluded, set_github_status, with_any_id, unordered,
}
use golangci_api.Crons.Staler.Served.{
  Told, Served, Stale, is_stale-Stale, excluded-NotExcluded, set_github_status-Told,
}

module _ (v : Env) (now timeout : ℕ) (t₀ : List PullRequestAnalysis) where
  abbrev pub GivenUp : PullRequestAnalysis → Type 0
  GivenUp r = Stale v now timeout r × Served v r

  -- The row of a key, before and after: the same, or a stale analysis that was given up.
  abbrev pub MovedAt : Option PullRequestAnalysis → Option PullRequestAnalysis → Type 0
  MovedAt none o = o ≡ none
  MovedAt (some r) o =
      (o ≡ some r) ⊎ (GivenUp r × (o ≡ some (record r { status = "forced_stale" })))

  abbrev pub Moved : List PullRequestAnalysis → Type 0
  Moved t = (j : ℕ) → MovedAt (row_at key j t₀) (row_at key j t)

  unmoved : (o : Option PullRequestAnalysis) → MovedAt o o
  unmoved none = refl
  unmoved (some r) = inl refl

  -- one update, of the row of a stale analysis
  abbrev pub given_up : PullRequestAnalysis → PullRequestAnalysis → PullRequestAnalysis
  given_up a r = if with_id a.id r then set_stale r else r

  given_up-MovedAt :
      (a : PullRequestAnalysis) (o o' : Option PullRequestAnalysis)
      → ((r : PullRequestAnalysis) → o ≡ some r → r.id ≡ a.id → GivenUp r)
      → MovedAt o o'
      → MovedAt o (Option.map (given_up a) o')
  given_up-MovedAt a none o' stale m = rw m refl
  given_up-MovedAt a (some r) o' stale (inl m) = rw m (elim (Bool-cases (with_id a.id r)) [
    | inl t ↦ rw t (inr (stale r refl ((==_iff r.id a.id).0 (&&-left _ _ t)), refl))
    | inr f ↦ rw f (inl refl)
  ])
  given_up-MovedAt a (some r) o' stale (inr (s, m)) =
      rw m (elim (Bool-cases (with_id a.id (set_stale r))) [
        | inl t ↦ rw t (inr (s, refl))
        | inr f ↦ rw f (inr (s, refl))
      ])

  -- the row of the id of an analysis that was selected is that analysis
  stale_at :
      (a : PullRequestAnalysis) (j : ℕ)
      → Unique key t₀
      → GivenUp a × Memᴰ a t₀
      → (r : PullRequestAnalysis) → row_at key j t₀ ≡ some r
      → r.id ≡ a.id
      → GivenUp r
  stale_at a j u (s, m) r e q =
      let j_is : a.id ≡ j = sym q ∙ row_at-key key j t₀ e in
      let at : row_at key j t₀ ≡ some a =
        subst (λ i. row_at key i t₀ ≡ some a) j_is (Memᴰ-row_at key t₀ u m) in
      subst GivenUp (some-injective _ _ (sym at ∙ e)) s

  update-Moved :
      (a : PullRequestAnalysis) (t : List PullRequestAnalysis)
      → Unique key t₀
      → GivenUp a × Memᴰ a t₀
      → Moved t
      → Moved (update_where (with_id a.id) set_stale t)
  update-Moved a t u s m j =
      rw (row_at-update_where key (with_id a.id) set_stale j t (λ r. refl))
        (given_up-MovedAt a (row_at key j t₀) (row_at key j t) (stale_at a j u s) (m j))

  stored-Moved :
      (a : PullRequestAnalysis) (t : List PullRequestAnalysis)
      (x : Result (ℕ × List PullRequestAnalysis))
      → Unique key t₀
      → GivenUp a × Memᴰ a t₀
      → Moved t
      → v.analysis_db.updates (with_id a.id) set_stale t ≡ x
      → Moved (stored v x t).1
  stored-Moved a t (err e) u s m q = m
  stored-Moved a t (ok (n, t')) u s m q =
      rw (updates-eq-ok v.analysis_db (with_id a.id) set_stale t q).1 (update-Moved a t u s m)

  -- An analysis is given up once the provider was told.
  give_up-Moved :
      (a : PullRequestAnalysis) (t : List PullRequestAnalysis) (repo : Repo) (x : Result (Unit {0}))
      → set_github_status v a repo ≡ x
      → Unique key t₀
      → ((v.build_for_user repo.user_id ≡ ok tt) × Told v a repo → GivenUp a) × Memᴰ a t₀
      → Moved t
      → Moved (give_up v a x t).1
  give_up-Moved a t repo (err e) q u s m = m
  give_up-Moved a t repo (ok _) q u s m =
      stored-Moved a t _ u (s.0 (set_github_status-Told v a repo q), s.1) m refl

  update_of_repo-Moved :
      (a : PullRequestAnalysis) (t : List PullRequestAnalysis) (x : Result Repo)
      → v.repo_db.first (with_any_id a.repo_id) v.repos ≡ x
      → Unique key t₀
      → (is_stale now timeout a ≡ true) × Memᴰ a t₀
      → Moved t
      → Moved (update_of_repo v a x t).1
  update_of_repo-Moved a t (err e) q u s m = m
  update_of_repo-Moved a t (ok r) q u s m =
      let found = first-eq-ok v.repo_db (with_any_id a.repo_id) v.repos q in
      elim (Bool-cases (excluded v r v.exclude_repos)) [
        | inl x ↦ rw x m
        | inr x ↦ rw x (
            give_up-Moved a t r (set_github_status v a r) refl u
              (
                λ (built, told). (
                  is_stale-Stale v now timeout a s.0,
                  (
                    r,
                    first_where-Memᴰ (with_any_id a.repo_id) v.repos found,
                    (==_iff r.id a.repo_id).0
                        (first_where-holds (with_any_id a.repo_id) v.repos found),
                    excluded-NotExcluded v r v.exclude_repos x,
                    built,
                    told,
                  ),
                ),
                s.1,
              )
              m)
      ]

  update_all-Moved :
      (l t : List PullRequestAnalysis)
      → Unique key t₀
      → Every (λ a. (is_stale now timeout a ≡ true) × Memᴰ a t₀) l
      → Moved t
      → Moved (update_all v l t)
  update_all-Moved [] t u s m = m
  update_all-Moved (a ∷ rest) t u s m =
      update_all-Moved rest (update_stale_analysis v a t).1 u s.1
        (update_of_repo-Moved a t (v.repo_db.first (with_any_id a.repo_id) v.repos) refl u s.0 m)

  iterate-Moved :
      (x : Result (List PullRequestAnalysis))
      → Unique key t₀
      → v.analysis_select.select (is_stale now timeout) unordered none t₀ ≡ x
      → Moved (iterate v x t₀).1
  iterate-Moved (err e) u q = λ j. unmoved (row_at key j t₀)
  iterate-Moved (ok l) u q =
      update_all-Moved l t₀ u (v.analysis_select.select_law _ _ _ _ q).0
        (λ j. unmoved (row_at key j t₀))

  -- An iteration of the staler, with whatever errors, leaves the row of each key as it is, or gives
  -- it up, which changes the status to "forced_stale" and nothing else. It gives up only a live
  -- analysis that was waiting or running and was created before the timeout, whose repository is
  -- found and not excluded, and only after the provider has built for the repository's user and
  -- has taken the pull request's new status, or has answered one of these two calls with
  -- "unauthorized" or "not found". No row is added. Row keys are unique.
  pub run_iteration-Moved : Unique key t₀ → Moved (run_iteration v now timeout t₀).1
  unfolding run_iteration
  run_iteration-Moved u =
      iterate-Moved (v.analysis_select.select (is_stale now timeout) unordered none t₀) u refl
