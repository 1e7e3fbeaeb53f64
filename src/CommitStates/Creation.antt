-- ===== src/CommitStates/Creation.antt =====
-- The steps of connecting a repository follow the protocol.
use golangci_api.Base.{◌≡◌, refl, sym, subst, inl, inr, Bool, List, Bool-cases, ◌==◌, arith}
use golangci_api.Errors.{Error, Result, ok, err}
use golangci_api.Sql.{count_where}
use golangci_api.Models.Repo.{
  Repo, RepoAnalysisStatus, CommitState, create_init, create_sent_to_queue, create_created_repo,
  create_done, create_rollback_init, create_rollback_done, in_state, in_states,
}
use golangci_api.Workers.Repos.Connection.{Env, World}
use golangci_api.Workers.Repos.Creator.{
  create_hook, add_collaborator, move, moved_to, set_created, with_collaborator, with_hook,
  create_repo, store_status, ensure_status, launch, with_launch, with_status,
  create_analysis_status, set_rollback, set_rolled_back,
}
use golangci_api.Workers.Repos.Creator.Effects.{Hooked, create_hook-Hooked, add_collaborator-rows}
use golangci_api.CommitStates.Protocol.{
  created, created_late, connected, failed, failed_late, rolled_back, given_up,
}
use golangci_api.CommitStates.Tables.{
  TableFollows, TableFollows-refl, Moves, in_state-Moves, in_states-Moves,
  update_where-TableFollows,
}

-- A step that has kept the rows does as well as what comes before it.
pub same_rows : (t u v : List Repo) → v ≡ u → TableFollows t u → TableFollows t v
same_rows t u v e h = subst (λ x. TableFollows t x) (sym e) h

from_rows : (t u v : List Repo) → u ≡ t → TableFollows u v → TableFollows t v
from_rows t u v e h = subst (λ x. TableFollows x v) e h

moved_to-rows :
    (v : Env) (s : CommitState) (repo : Repo) (m : Result (Unit {0}) × World)
    → (moved_to v s repo m).2.rows ≡ m.1.rows
moved_to-rows v s repo (err e, w) = refl
moved_to-rows v s repo (ok _, w) = refl

module _ (v : Env) where
  move-TableFollows :
      (p : Repo → Bool) (f : Repo → Repo) (w : World)
      → Moves p f
      → TableFollows w.rows (move v p f w).1.rows
  unfolding move
  move-TableFollows p f w m = elim (v.repo_db.updates_law p f w.rows) [
    | inr (x, q) ↦ rw (q, move) (TableFollows-refl w.rows)
    | inl q ↦ elim (Bool-cases (count_where p w.rows == 0)) [
      | inl z ↦ rw (q, move) (rw z (TableFollows-refl w.rows))
      | inr n ↦ rw (q, move) (rw n (update_where-TableFollows p f w.rows m))
    ]
  ]

  pub step-TableFollows :
      (s : CommitState) (repo : Repo) (p : Repo → Bool) (f : Repo → Repo) (w : World)
      → Moves p f
      → TableFollows w.rows (moved_to v s repo (move v p f w)).2.rows
  step-TableFollows s repo p f w m =
      same_rows w.rows _ _ (moved_to-rows v s repo (move v p f w)) (move-TableFollows p f w m)

  set_created-Moves :
      (repo : Repo)
      → Moves (in_states repo.id create_init create_sent_to_queue) (set_created v repo)
  set_created-Moves repo =
      in_states-Moves repo.id create_init create_sent_to_queue create_created_repo
        (set_created v repo) created created_late (λ r. refl) (λ r. (refl, refl, refl, inl refl))

  pub set_rollback-Moves :
      (x : Error) (repo : Repo)
      → Moves (in_states repo.id create_init create_sent_to_queue) (set_rollback v x)
  set_rollback-Moves x repo =
      in_states-Moves repo.id create_init create_sent_to_queue create_rollback_init
        (set_rollback v x) failed failed_late (λ r. refl) (λ r. (refl, refl, refl, inl refl))

  pub set_rolled_back-Moves :
      (repo : Repo) → Moves (in_state repo.id create_rollback_init) (set_rolled_back v)
  set_rolled_back-Moves repo =
      in_state-Moves repo.id create_rollback_init create_rollback_done (set_rolled_back v)
        rolled_back (λ r. refl) (λ r. (refl, refl, refl, inr given_up))

  set_done-Moves :
      (repo : Repo)
      → repo.commit_state ≡ create_created_repo
      → Moves (in_state repo.id repo.commit_state) (λ x. record x { commit_state = create_done })
  set_done-Moves repo q = rw q (
      in_state-Moves repo.id create_created_repo create_done
        (λ x. record x { commit_state = create_done }) connected (λ r. refl)
        (λ r. (refl, refl, refl, inl refl)))

  with_collaborator-TableFollows :
      (repo : Repo) (p : Result (Unit {0}) × World)
      → TableFollows p.1.rows (with_collaborator v repo p).2.rows
  with_collaborator-TableFollows repo (err e, w) = TableFollows-refl w.rows
  with_collaborator-TableFollows repo (ok _, w) =
      step-TableFollows create_created_repo repo
        (in_states repo.id create_init create_sent_to_queue) (set_created v repo) w
        (set_created-Moves repo)

  with_hook-TableFollows :
      (repo : Repo) (w : World) (p : Result Repo × World)
      → Hooked repo w p
      → TableFollows w.rows (with_hook v repo p).2.rows
  with_hook-TableFollows repo w (err e, w') h =
      same_rows w.rows w.rows w'.rows h (TableFollows-refl w.rows)
  with_hook-TableFollows repo w (ok repo₁, w') (i, s, h) = from_rows w.rows w'.rows _ h (
      from_rows w'.rows _ _ (add_collaborator-rows v repo₁ w')
        (with_collaborator-TableFollows repo₁ (add_collaborator v repo₁ w')))

  pub create_repo-TableFollows :
      (repo : Repo) (w : World) → TableFollows w.rows (create_repo v repo w).2.rows
  unfolding create_repo
  create_repo-TableFollows repo w =
      with_hook-TableFollows repo w (create_hook v repo w) (create_hook-Hooked v repo w)

  store_status-rows : (r : Repo) (w : World) → (store_status v r w).1.rows ≡ w.rows
  unfolding store_status
  store_status-rows r w = ground arith

  ensure_status-rows : (r : Repo) (w : World) → (ensure_status v r w).1.rows ≡ w.rows
  unfolding ensure_status store_status
  ensure_status-rows r w = ground arith

  launch-rows : (r : Repo) (s : RepoAnalysisStatus) (w : World) → (launch v r s w).1.rows ≡ w.rows
  unfolding launch
  launch-rows r s w = ground arith

  with_launch-TableFollows :
      (r : Repo) (p : Result (Unit {0}) × World)
      → r.commit_state ≡ create_created_repo
      → TableFollows p.1.rows (with_launch v r p).2.rows
  with_launch-TableFollows r (err e, w) q = TableFollows-refl w.rows
  with_launch-TableFollows r (ok _, w) q =
      step-TableFollows create_done r (in_state r.id r.commit_state)
        (λ x. record x { commit_state = create_done }) w (set_done-Moves r q)

  with_status-TableFollows :
      (r : Repo) (p : Result RepoAnalysisStatus × World)
      → r.commit_state ≡ create_created_repo
      → TableFollows p.1.rows (with_status v r p).2.rows
  with_status-TableFollows r (err e, w) q = TableFollows-refl w.rows
  with_status-TableFollows r (ok s, w) q =
      from_rows w.rows _ _ (launch-rows r s w) (with_launch-TableFollows r (launch v r s w) q)

  pub create_status-TableFollows :
      (r : Repo) (w : World)
      → r.commit_state ≡ create_created_repo
      → TableFollows w.rows (create_analysis_status v r w).2.rows
  unfolding create_analysis_status
  create_status-TableFollows r w q =
      from_rows w.rows _ _ (ensure_status-rows r w)
        (with_status-TableFollows r (ensure_status v r w) q)
