-- ===== src/CommitStates/Rounds.antt =====
-- The consumer that connects a repository follows the protocol, with any number of rounds.
use golangci_api.Base.{ℕ, zero, suc, ◌≡◌, refl, inl, inr, List, Option, none, some, Bool-cases}
use golangci_api.Errors.{Error, Result, ok, err}
use golangci_api.Models.Repo.{
  Repo, CommitState, create_init, create_sent_to_queue, create_created_repo, create_done,
  create_rollback_init, create_rollback_done, in_state, in_states, with_id,
}
use golangci_api.Workers.Repos.Connection.{Env, World, is_permanent_error}
use golangci_api.Workers.Repos.Creator.{
  Round, stop, again, create_repo, create_analysis_status, set_rollback, mark_for_rollback,
  set_rolled_back, rollback_repo, go_on, created_or_not, round, process_states, lifted, run,
  consume_message,
}
use golangci_api.CommitStates.Tables.{TableFollows, TableFollows-refl, TableFollows-trans}
use golangci_api.CommitStates.Creation.{
  create_repo-TableFollows, create_status-TableFollows, step-TableFollows, set_rollback-Moves,
  set_rolled_back-Moves,
}

abbrev world_of : Round → World
world_of (stop r w) = w
world_of (again repo w) = w

abbrev pub RunFollows : List Repo → Option (Result (Unit {0}) × World) → Type 0
RunFollows t none = Unit
RunFollows t (some (r, w)) = TableFollows t w.rows

lifted-RunFollows :
    (v : Env) (t : List Repo) (o : Option (Result (Unit {0}) × World))
    → RunFollows t o
    → RunFollows t (lifted v o)
lifted-RunFollows v t none h = h
lifted-RunFollows v t (some (r, w)) h = h

RunFollows-trans :
    (t u : List Repo) (o : Option (Result (Unit {0}) × World))
    → TableFollows t u
    → RunFollows u o
    → RunFollows t o
RunFollows-trans t u none h k = tt
RunFollows-trans t u (some (r, w)) h k = TableFollows-trans t u w.rows h k

go_on-world : (v : Env) (p : Result (Unit {0}) × Repo × World) → world_of (go_on v p) ≡ p.2
go_on-world v (ok _, repo, w) = refl
go_on-world v (err e, repo, w) = refl

module _ (v : Env) where
  mark-TableFollows :
      (x : Error) (repo : Repo) (w : World)
      → TableFollows w.rows (world_of (go_on v (mark_for_rollback v x repo w))).rows
  unfolding mark_for_rollback
  mark-TableFollows x repo w = rw (go_on-world v (mark_for_rollback v x repo w)) (
      step-TableFollows v create_rollback_init repo
        (in_states repo.id create_init create_sent_to_queue) (set_rollback v x) w
        (set_rollback-Moves v x repo))

  rollback-TableFollows :
      (repo : Repo) (w : World)
      → TableFollows w.rows (world_of (go_on v (rollback_repo v repo w))).rows
  unfolding rollback_repo
  rollback-TableFollows repo w = rw (go_on-world v (rollback_repo v repo w)) (
      step-TableFollows v create_rollback_done repo (in_state repo.id create_rollback_init)
        (set_rolled_back v) w (set_rolled_back-Moves v repo))

  created_or_not-TableFollows :
      (t : List Repo) (p : Result (Unit {0}) × Repo × World)
      → TableFollows t p.2.rows
      → TableFollows t (world_of (created_or_not v p)).rows
  created_or_not-TableFollows t (ok _, repo, w) h = h
  created_or_not-TableFollows t (err e, repo, w) h = elim (Bool-cases (is_permanent_error e)) [
    | inl y ↦ rw y (TableFollows-trans t w.rows _ h (mark-TableFollows e repo w))
    | inr n ↦ rw n h
  ]

  round-TableFollows :
      (s : CommitState) (repo : Repo) (w : World)
      → repo.commit_state ≡ s
      → TableFollows w.rows (world_of (round v s repo w)).rows
  unfolding round
  round-TableFollows create_init repo w q =
      created_or_not-TableFollows w.rows (create_repo v repo w) (create_repo-TableFollows v repo w)
  round-TableFollows create_sent_to_queue repo w q =
      created_or_not-TableFollows w.rows (create_repo v repo w) (create_repo-TableFollows v repo w)
  round-TableFollows create_created_repo repo w q =
      rw (go_on-world v (create_analysis_status v repo w)) (create_status-TableFollows v repo w q)
  round-TableFollows create_done repo w q = TableFollows-refl w.rows
  round-TableFollows create_rollback_init repo w q = rollback-TableFollows repo w
  round-TableFollows create_rollback_done repo w q = TableFollows-refl w.rows
  round-TableFollows _ repo w q = TableFollows-refl w.rows

  process_states-RunFollows :
      (fuel : ℕ) (repo : Repo) (w : World) → RunFollows w.rows (process_states v fuel repo w)
  unfolding process_states
  process_states-RunFollows zero repo w = tt
  process_states-RunFollows (suc fuel) repo w =
      go (λ r w'. process_states-RunFollows fuel r w') (round v repo.commit_state repo w) refl
        (round-TableFollows repo.commit_state repo w refl)
    where
      go :
          ((r : Repo) (w' : World) → RunFollows w'.rows (process_states v fuel r w'))
          → (x : Round) → round v repo.commit_state repo w ≡ x
          → TableFollows w.rows (world_of (round v repo.commit_state repo w)).rows
          → RunFollows w.rows (process_states v (suc fuel) repo w)
      go rest (stop r w₁) q h = rw (q, process_states) (rw q at h)
      go rest (again repo₁ w₁) q h =
          rw (q, process_states) (RunFollows-trans w.rows w₁.rows _ (rw q at h) (rest repo₁ w₁))

  run-RunFollows : (fuel id : ℕ) (w : World) → RunFollows w.rows (run v fuel id w)
  unfolding run
  run-RunFollows fuel id w = go (v.repo_db.first (with_id id) w.rows) refl
    where
      built :
          (repo : Repo) (y : Result (Unit {0}))
          → v.repo_db.first (with_id id) w.rows ≡ ok repo
          → v.build_for_user repo.user_id ≡ y
          → RunFollows w.rows (run v fuel id w)
      built repo (err e) q p = rw (q, run) (rw p (TableFollows-refl w.rows))
      built repo (ok _) q p = rw (q, run) (rw p (process_states-RunFollows fuel repo w))

      go :
          (x : Result Repo)
          → v.repo_db.first (with_id id) w.rows ≡ x
          → RunFollows w.rows (run v fuel id w)
      go (err e) q = rw (q, run) (TableFollows-refl w.rows)
      go (ok repo) q = built repo (v.build_for_user repo.user_id) q refl

  pub create_message-RunFollows :
      (fuel id : ℕ) (w : World) → RunFollows w.rows (consume_message v fuel id w)
  unfolding consume_message
  create_message-RunFollows fuel id w = go v.connect refl
    where
      go : (x : Result (Unit {0})) → v.connect ≡ x → RunFollows w.rows (consume_message v fuel id w)
      go (err e) q = rw (q, consume_message) (TableFollows-refl w.rows)
      go (ok _) q =
          rw (q, consume_message)
            (lifted-RunFollows v w.rows (run v fuel id w) (run-RunFollows fuel id w))
