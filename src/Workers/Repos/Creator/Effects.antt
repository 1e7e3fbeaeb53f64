-- ===== src/Workers/Repos/Creator/Effects.antt =====
-- What the steps of connecting a repository do to its row.
use golangci_api.Base.{
  ℕ, ◌≡◌, refl, ◌≢◌, inl, inr, Bool, true, ◌&&◌, some, arith, ◌==◌, ◌||◌, sym, subst, ap,
  Bool-cases, Option, none, List, ◌∙◌,
}
use golangci_api.Errors.{Result, ok, err}
use golangci_api.Sql.{
  row_at, row_at-key, Unique, count_where, update_where, count_where-key, hit, row_at-update_where,
  update_where-Unique,
}
use golangci_api.Models.Repo.{
  Repo, CommitState, create_init, create_sent_to_queue, create_created_repo, create_rollback_done,
  key, is_live, same_state, in_states,
}
use golangci_api.Workers.Repos.Connection.{Env, World}
use golangci_api.Workers.Repos.Creator.{
  create_hook, add_collaborator, send_invitation, move, create_repo, moved_to, set_created,
  with_collaborator, with_hook,
}

-- The local copy is in the state of the row of its id, and a row that is rolled back is deleted.
abbrev pub Tracks : Env → ℕ → Repo → List Repo → Type 0
Tracks v id repo rows =
    (r : Repo) × (row_at key id rows ≡ some r)
    × (r.commit_state ≡ repo.commit_state)
    × (repo.id ≡ id)
    × Unique key rows
    × (r.commit_state ≡ create_rollback_done → r.deleted_at ≡ some v.now)

abbrev pub Moved : ℕ → (Repo → Bool) → (Repo → Repo) → World → Result (Unit {0}) × World → Type 0
Moved id q f w (ok _, w') =
    (r : Repo) × (row_at key id w.rows ≡ some r)
    × (q r ≡ true)
    × (row_at key id w'.rows ≡ some (f r))
    × Unique key w'.rows
Moved id q f w (err e, w') = w' ≡ w

module _ (v : Env) (id : ℕ) where
  row-Moved :
      (q : Repo → Bool) (f : Repo → Repo) (w : World) (o : Option Repo)
      → ((r : Repo) → (f r).id ≡ r.id)
      → row_at key id w.rows ≡ o
      → Unique key w.rows
      → hit key q o ≢ 0
      → Moved id q f w (ok tt, record w { rows = update_where (λ r. r.id == id && q r) f w.rows })
  row-Moved q f w none keep at u n = absurd (n refl)
  row-Moved q f w (some r) keep at u n = elim (Bool-cases (q r)) [
    | inl t ↦ (
      r,
      at,
      t,
      rw (row_at-update_where key (λ r. r.id == id && q r) f id w.rows keep)
          (rw at (ground (arith, t, row_at-key key id w.rows at))),
      update_where-Unique key _ f w.rows keep u,
    )
    | inr t ↦ absurd (n (rw t refl))
  ]

  pub move-Moved :
      (q : Repo → Bool) (f : Repo → Repo) (w : World)
      → ((r : Repo) → (f r).id ≡ r.id)
      → Unique key w.rows
      → Moved id q f w (move v (λ r. r.id == id && q r) f w)
  unfolding move
  move-Moved q f w keep u = elim (v.repo_db.updates_law (λ r. r.id == id && q r) f w.rows) [
    | inl e ↦ elim (Bool-cases (count_where (λ r. r.id == id && q r) w.rows == 0)) [
      | inl z ↦ rw (e, move) (rw z refl)
      | inr nz ↦
          rw (e, move)
            (rw nz (
              row-Moved q f w (row_at key id w.rows) keep refl u
                (ground (arith, nz, count_where-key key q id w.rows u))))
    ]
    | inr (x, e) ↦ rw (e, move) refl
  ]

abbrev pub Hooked : Repo → World → Result Repo × World → Type 0
Hooked repo w (ok r, w') =
    (r.id ≡ repo.id) × (r.commit_state ≡ repo.commit_state) × (w'.rows ≡ w.rows)
Hooked repo w (err e, w') = w'.rows ≡ w.rows

module _ (v : Env) (repo : Repo) (w : World) where
  pub create_hook-Hooked : Hooked repo w (create_hook v repo w)
  unfolding create_hook
  create_hook-Hooked = ground arith

  pub add_collaborator-rows : (add_collaborator v repo w).1.rows ≡ w.rows
  unfolding add_collaborator send_invitation
  add_collaborator-rows = ground arith

-- A step either brings the row to a state, or leaves it in the state that the copy had.
abbrev pub Reached : Env → ℕ → CommitState → Repo → Result (Unit {0}) × Repo × World → Type 0
Reached v id s repo (ok _, r, w') = Tracks v id r w'.rows × (r.commit_state ≡ s)
Reached v id s repo (err e, r, w') = Tracks v id r w'.rows × (r.commit_state ≡ repo.commit_state)

-- A local copy with the id and the state of another tracks the same row.
pub Tracks-copy :
    (v : Env) (id : ℕ) (repo repo₁ : Repo) (rows rows₁ : List Repo)
    → repo₁.id ≡ repo.id
    → repo₁.commit_state ≡ repo.commit_state
    → rows₁ ≡ rows
    → Tracks v id repo rows
    → Tracks v id repo₁ rows₁
Tracks-copy v id repo repo₁ rows rows₁ i s e (r, at, c, k, u, d) =
    subst (λ t. Tracks v id repo₁ t) (sym e) (r, at, c ∙ sym s, i ∙ k, u, d)

Reached-copy :
    (v : Env) (id : ℕ) (s : CommitState) (repo₁ repo : Repo)
    → repo₁.commit_state ≡ repo.commit_state
    → (p : Result (Unit {0}) × Repo × World) → Reached v id s repo₁ p
    → Reached v id s repo p
Reached-copy v id s repo₁ repo e (ok _, r, w) h = h
Reached-copy v id s repo₁ repo e (err x, r, w) (t, c) = (t, c ∙ e)

abbrev pub awaiting_creation : Repo → Bool
awaiting_creation r =
    is_live r
    && (same_state r.commit_state create_init || same_state r.commit_state create_sent_to_queue)

-- After a move that has succeeded the local copy tracks the row in its new state.
pub moved_to-Tracks :
    (v : Env) (id : ℕ) (s : CommitState) (q : Repo → Bool) (f : Repo → Repo) (repo : Repo)
    (w : World) (m : Result (Unit {0}) × World)
    → ((r : Repo) → (f r).commit_state ≡ s)
    → ((r : Repo) → s ≡ create_rollback_done → (f r).deleted_at ≡ some v.now)
    → Tracks v id repo w.rows
    → Moved id q f w m
    → Reached v id s repo (moved_to v s repo m)
moved_to-Tracks v id s q f repo w (err e, w') st d t moved =
    (Tracks-copy v id repo repo w.rows w'.rows refl refl (ap (λ x. x.rows) moved) t, refl)
moved_to-Tracks v id s q f repo w (ok _, w') st d (_, _, _, k, _, _) (r, at, _, at', u) =
    ((f r, at', st r, k, u, λ c. d r (sym (st r) ∙ c)), refl)

module _ (v : Env) (id : ℕ) where
  with_collaborator-Reached :
      (repo : Repo) (w : World)
      → Tracks v id repo w.rows
      → (p : Result (Unit {0}) × World) → p.1.rows ≡ w.rows
      → Reached v id create_created_repo repo (with_collaborator v repo p)
  with_collaborator-Reached repo w t (err e, w') h =
      (Tracks-copy v id repo repo w.rows w'.rows refl refl h t, refl)
  with_collaborator-Reached repo w t (ok _, w') h =
      let t' = Tracks-copy v id repo repo w.rows w'.rows refl refl h t in
      moved_to-Tracks v id create_created_repo awaiting_creation (set_created v repo) repo w' _
        (λ r. refl) (λ r c. cc) t'
        (subst
          (λ j.
            Moved id awaiting_creation (set_created v repo) w'
              (move v (in_states j create_init create_sent_to_queue) (set_created v repo) w'))
          (sym t'.3) (move-Moved v id awaiting_creation (set_created v repo) w' (λ r. refl) t'.4))

  with_hook-Reached :
      (repo : Repo) (w : World)
      → Tracks v id repo w.rows
      → (p : Result Repo × World) → Hooked repo w p
      → Reached v id create_created_repo repo (with_hook v repo p)
  with_hook-Reached repo w t (err e, w') h =
      (Tracks-copy v id repo repo w.rows w'.rows refl refl h t, refl)
  with_hook-Reached repo w t (ok repo₁, w') (i, s, h) =
      let t₁ = Tracks-copy v id repo repo₁ w.rows w'.rows i s h t in
      Reached-copy v id create_created_repo repo₁ repo s _ (
        with_collaborator-Reached repo₁ w' t₁ (add_collaborator v repo₁ w')
          (add_collaborator-rows v repo₁ w'))

  pub create_repo-Reached :
      (repo : Repo) (w : World)
      → Tracks v id repo w.rows
      → Reached v id create_created_repo repo (create_repo v repo w)
  unfolding create_repo
  create_repo-Reached repo w t =
      with_hook-Reached repo w t (create_hook v repo w) (create_hook-Hooked v repo w)
