-- ===== src/Workers/Repos/Creator/Loop.antt =====
-- One round of the loop over the commit states.
use golangci_api.Base.{
  ℕ, ◌<◌, ◌≤◌, ◌≡◌, refl, ◌⊎◌, inl, inr, Bool, ◌&&◌, some, arith, ◌==◌, sym, subst, Bool-cases, ◌∙◌,
}
use golangci_api.Errors.{Error, Result, ok, err}
use golangci_api.Sql.{row_at}
use golangci_api.Models.Repo.{
  Repo, CommitState, RepoAnalysisStatus, create_init, create_sent_to_queue, create_created_repo,
  create_done, create_rollback_init, create_rollback_done, key, is_live, same_state, in_state,
}
use golangci_api.Workers.Repos.Connection.{Env, World, is_permanent_error}
use golangci_api.Workers.Repos.Creator.{
  Round, stop, again, move, with_launch, with_status, launch, ensure_status, create_analysis_status,
  mark_for_rollback, set_rollback, rollback_repo, set_rolled_back, go_on, created_or_not, round,
  store_status,
}
use golangci_api.Workers.Repos.Creator.Effects.{
  Tracks, Tracks-copy, Moved, move-Moved, Reached, moved_to-Tracks, create_repo-Reached,
  awaiting_creation,
}

module _ (v : Env) where
  launch-rows : (r : Repo) (s : RepoAnalysisStatus) (w : World) → (launch v r s w).1.rows ≡ w.rows
  unfolding launch
  launch-rows r s w = ground arith

  ensure_status-rows : (r : Repo) (w : World) → (ensure_status v r w).1.rows ≡ w.rows
  unfolding ensure_status store_status
  ensure_status-rows r w = ground arith

abbrev pub in_same : CommitState → Repo → Bool
in_same s r = is_live r && same_state r.commit_state s

module _ (v : Env) (id : ℕ) (repo : Repo) (w : World) (t : Tracks v id repo w.rows) where
  with_launch-Reached :
      (p : Result (Unit {0}) × World)
      → p.1.rows ≡ w.rows
      → Reached v id create_done repo (with_launch v repo p)
  with_launch-Reached (err e, w') h =
      (Tracks-copy v id repo repo w.rows w'.rows refl refl h t, refl)
  with_launch-Reached (ok _, w') h =
      let t' = Tracks-copy v id repo repo w.rows w'.rows refl refl h t in
      moved_to-Tracks v id create_done (in_same repo.commit_state)
        (λ x. record x { commit_state = create_done }) repo w' _ (λ r. refl) (λ r c. cc) t'
        (subst
          (λ j.
            Moved id (in_same repo.commit_state) (λ x. record x { commit_state = create_done }) w'
              (move v (in_state j repo.commit_state) (λ x. record x { commit_state = create_done })
                w'))
          (sym t'.3)
          (move-Moved v id (in_same repo.commit_state)
            (λ x. record x { commit_state = create_done }) w' (λ r. refl) t'.4))

  with_status-Reached :
      (p : Result RepoAnalysisStatus × World)
      → p.1.rows ≡ w.rows
      → Reached v id create_done repo (with_status v repo p)
  with_status-Reached (err e, w') h =
      (Tracks-copy v id repo repo w.rows w'.rows refl refl h t, refl)
  with_status-Reached (ok s, w') h =
      with_launch-Reached (launch v repo s w') (launch-rows v repo s w' ∙ h)

  create_analysis_status-Reached : Reached v id create_done repo (create_analysis_status v repo w)
  unfolding create_analysis_status
  create_analysis_status-Reached =
      with_status-Reached (ensure_status v repo w) (ensure_status-rows v repo w)

  mark_for_rollback-Reached :
      (x : Error) → Reached v id create_rollback_init repo (mark_for_rollback v x repo w)
  unfolding mark_for_rollback
  mark_for_rollback-Reached x =
      moved_to-Tracks v id create_rollback_init awaiting_creation (set_rollback v x) repo w _
        (λ r. refl) (λ r c. cc) t
        (subst
          (λ j.
            Moved id awaiting_creation (set_rollback v x) w
              (move v (λ r. r.id == j && awaiting_creation r) (set_rollback v x) w))
          (sym t.3) (move-Moved v id awaiting_creation (set_rollback v x) w (λ r. refl) t.4))

  rollback_repo-Reached : Reached v id create_rollback_done repo (rollback_repo v repo w)
  unfolding rollback_repo
  rollback_repo-Reached =
      moved_to-Tracks v id create_rollback_done (in_same create_rollback_init) (set_rolled_back v)
        repo w _ (λ r. refl) (λ r c. refl) t
        (subst
          (λ j.
            Moved id (in_same create_rollback_init) (set_rolled_back v) w
              (move v (in_state j create_rollback_init) (set_rolled_back v) w))
          (sym t.3)
          (move-Moved v id (in_same create_rollback_init) (set_rolled_back v) w (λ r. refl) t.4))

-- How many rounds are left at most.
abbrev pub rank : CommitState → ℕ
rank create_init = 2
rank create_sent_to_queue = 2
rank create_created_repo = 1
rank create_rollback_init = 1
rank _ = 0

pub rank_le : (s : CommitState) → rank s ≤ 2
rank_le s = ground arith

-- The row of an id is settled: connected, or rolled back and deleted.
abbrev pub IsSettled : Env → ℕ → World → Type 0
IsSettled v id w =
    (r : Repo) × (row_at key id w.rows ≡ some r)
    × ((r.commit_state ≡ create_done)
        ⊎ ((r.commit_state ≡ create_rollback_done) × (r.deleted_at ≡ some v.now)))

abbrev pub GoesOn : Env → ℕ → CommitState → Round → Type 0
GoesOn v id s (stop (ok _) w) = IsSettled v id w
GoesOn v id s (stop (err e) w) = Unit {0}
GoesOn v id s (again r w) = Tracks v id r w.rows × (rank r.commit_state < rank s)

module _ (v : Env) (id : ℕ) where
  go_on-GoesOn :
      (s₀ s : CommitState) (repo : Repo) (p : Result (Unit {0}) × Repo × World)
      → rank s < rank s₀
      → Reached v id s repo p
      → GoesOn v id s₀ (go_on v p)
  go_on-GoesOn s₀ s repo (ok _, r, w) l (t, c) = (t, rw c l)
  go_on-GoesOn s₀ s repo (err e, r, w) l h = tt

  created_or_not-GoesOn :
      (s₀ : CommitState) (repo : Repo) (p : Result (Unit {0}) × Repo × World)
      → rank s₀ ≡ 2
      → Reached v id create_created_repo repo p
      → GoesOn v id s₀ (created_or_not v p)
  created_or_not-GoesOn s₀ repo (ok _, r, w) l (t, c) = (t, rw (c, l) (omega arith))
  created_or_not-GoesOn s₀ repo (err e, r, w) l (t, c) = elim (Bool-cases (is_permanent_error e)) [
    | inl p ↦ rw p (
        go_on-GoesOn s₀ create_rollback_init r (mark_for_rollback v e r w) (rw l (omega arith))
          (mark_for_rollback-Reached v id r w t e))
    | inr p ↦ rw p tt
  ]

  pub round-GoesOn :
      (s : CommitState) (repo : Repo) (w : World)
      → repo.commit_state ≡ s
      → Tracks v id repo w.rows
      → GoesOn v id s (round v s repo w)
  unfolding round
  round-GoesOn create_init repo w e t =
      created_or_not-GoesOn create_init repo _ refl (create_repo-Reached v id repo w t)
  round-GoesOn create_sent_to_queue repo w e t =
      created_or_not-GoesOn create_sent_to_queue repo _ refl (create_repo-Reached v id repo w t)
  round-GoesOn create_created_repo repo w e t =
      go_on-GoesOn create_created_repo create_done repo _ (omega arith)
        (create_analysis_status-Reached v id repo w t)
  round-GoesOn create_done repo w e (r, at, c, _, _, _) = (r, at, inl (c ∙ e))
  round-GoesOn create_rollback_init repo w e t =
      go_on-GoesOn create_rollback_init create_rollback_done repo _ (omega arith)
        (rollback_repo-Reached v id repo w t)
  round-GoesOn create_rollback_done repo w e (r, at, c, i, u, d) = (r, at, inr (c ∙ e, d (c ∙ e)))
  round-GoesOn _ repo w e t = tt
