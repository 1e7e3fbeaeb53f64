-- ===== src/Workers/Repos/Creator/Ends.antt =====
-- The loop over the commit states ends, and where it ends well the row is settled.
use golangci_api.Base.{
  ℕ, zero, suc, ◌<◌, ==_iff, &&-left, &&-right, ◌≡◌, refl, false, Option, some, arith, ◌==◌, sym,
  subst, if◌then◌else◌, ◌∙◌,
}
use mathlib.Core.Bool.{false≢true}
use golangci_api.Errors.{Result, ok, err, wrap, wrapped, permanent, is_record_not_found}
use golangci_api.Sql.{
  row_at, Unique, first_where, first_where-holds, first_where-row_at, first-eq-ok,
}
use golangci_api.Models.Repo.{Repo, create_rollback_done, key, is_live, with_id}
use golangci_api.Workers.Repos.Connection.{Env, World}
use golangci_api.Workers.Repos.Creator.{
  Round, stop, again, round, process_states, run, lifted, consume_message,
}
use golangci_api.Workers.Repos.Creator.Loop.{rank, rank_le, IsSettled, GoesOn, round-GoesOn}
use golangci_api.Workers.Repos.Creator.Effects.{Tracks}

-- The loop ends, and settles the row if it ends well.
abbrev pub Ends : Env → ℕ → Option (Result (Unit {0}) × World) → Type 0
Ends v id o =
    (r : Result (Unit {0})) × (w : World) × (o ≡ some (r, w)) × (r ≡ ok tt → IsSettled v id w)

module _ (v : Env) (id : ℕ) where
  process_states-Ends :
      (fuel : ℕ) (repo : Repo) (w : World)
      → rank repo.commit_state < fuel
      → Tracks v id repo w.rows
      → Ends v id (process_states v fuel repo w)
  unfolding process_states
  process_states-Ends zero repo w l t = elim l [ ]
  process_states-Ends (suc fuel) repo w l t =
      go (round v repo.commit_state repo w) refl (round-GoesOn v id repo.commit_state repo w refl t)
        (process_states-Ends fuel)
    where
      go :
          (x : Round)
          → round v repo.commit_state repo w ≡ x
          → GoesOn v id repo.commit_state x
          → ((r : Repo) (w₁ : World)
              → rank r.commit_state < fuel
              → Tracks v id r w₁.rows
              → Ends v id (process_states v fuel r w₁))
          → Ends v id (process_states v (suc fuel) repo w)
      go (stop (ok u) w₁) e h next = (ok u, w₁, rw (e, process_states), λ q. h)
      go (stop (err x) w₁) e h next = (err x, w₁, rw (e, process_states), λ q. cc)
      go (again r w₁) e (t₁, fall) next = rw (e, process_states) (next r w₁ (omega arith) t₁)

-- A row that is rolled back is deleted.
abbrev pub NoneUndead : ℕ → World → Type 0
NoneUndead id w =
    (r : Repo)
    → row_at key id w.rows ≡ some r
    → r.commit_state ≡ create_rollback_done
    → is_live r ≡ false

module _ (v : Env) (id : ℕ) (w : World) (u : Unique key w.rows) (n : NoneUndead id w) where
  found-Tracks : {repo : Repo} → first_where (with_id id) w.rows ≡ ok repo → Tracks v id repo w.rows
  found-Tracks {repo} f =
      let holds = first_where-holds (with_id id) w.rows f in
      let i : repo.id ≡ id = (==_iff _ _).0 (&&-left _ _ holds) in
      let at : row_at key id w.rows ≡ some repo =
        subst (λ j. row_at key j w.rows ≡ some repo) i
          (first_where-row_at key (with_id id) w.rows u f) in
      (
        repo,
        at,
        refl,
        i,
        u,
        λ c.
            absurd (false≢true (sym (n repo at c) ∙ &&-right (repo.id == id) (is_live repo) holds)),
      )

  run-Ends : (fuel : ℕ) → 2 < fuel → Ends v id (run v fuel id w)
  unfolding run
  run-Ends fuel l = fetch (v.repo_db.first (with_id id) w.rows) refl
    where
      build :
          (repo : Repo) (r : Result (Unit {0}))
          → Tracks v id repo w.rows
          → Ends v id
              (elim r [ err e ↦ some (err (wrap e), w) | ok _ ↦ process_states v fuel repo w ])
      build repo (err x) t = (err (wrap x), w, refl, λ q. cc)
      build repo (ok _) t =
          process_states-Ends v id fuel repo w (omega (arith, rank_le repo.commit_state)) t

      fetch :
          (r : Result Repo) → v.repo_db.first (with_id id) w.rows ≡ r → Ends v id (run v fuel id w)
      fetch (err x) e =
          (err (if is_record_not_found x then wrap permanent else wrap x), w, rw (e, run), λ q. cc)
      fetch (ok repo) e =
          rw (e, run)
            (build repo (v.build_for_user repo.user_id)
              (found-Tracks (first-eq-ok v.repo_db (with_id id) w.rows e)))

  lifted-Ends : (o : Option (Result (Unit {0}) × World)) → Ends v id o → Ends v id (lifted v o)
  lifted-Ends o (r, w₁, e, h) = rw e (wrapped r, w₁, refl, λ q. h (settled_ok r q))
    where
      settled_ok : (x : Result (Unit {0})) → wrapped x ≡ ok tt → x ≡ ok tt
      settled_ok (ok _) q = refl
      settled_ok (err x) q = cc

  -- With three rounds of fuel or more a create message is always handled to an end: the loop does
  -- not run out of fuel. If it is handled without an error the row of its id is connected, in
  -- "create/done", or it is rolled back and deleted. Row keys are unique, and before the message
  -- no row of the id is rolled back without being deleted.
  pub consume_message-Ends : (fuel : ℕ) → 2 < fuel → Ends v id (consume_message v fuel id w)
  unfolding consume_message
  consume_message-Ends fuel l = connect v.connect refl
    where
      connect : (r : Result (Unit {0})) → v.connect ≡ r → Ends v id (consume_message v fuel id w)
      connect (err x) e = (err (wrap x), w, simp (e, consume_message), λ q. cc)
      connect (ok _) e =
          let q : consume_message v fuel id w ≡ lifted v (run v fuel id w) =
            simp (e, consume_message) in
          subst (Ends v id) (sym q) (lifted-Ends _ (run-Ends fuel l))
