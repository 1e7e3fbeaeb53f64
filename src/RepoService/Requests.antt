-- ===== src/RepoService/Requests.antt =====
-- What a whole delete request has done when it returns.
use golangci_api.Base.{
  if◌then◌else◌, ℕ, ◌≡◌, refl, ◌≢◌, ◌⊎◌, inl, inr, ◌++◌, [], ◌∷◌, Bool, true, false, some, arith,
  ◌∙◌,
}
use golangci_api.Errors.{Result, ok, err}
use golangci_api.Sql.{
  row_at, Unique, row_at-update_where, row_at-update_where_ne, first_where, first-eq-ok,
  first_where-row_at,
}
use golangci_api.Models.Repo.{
  Repo, CommitState, create_done, delete_init, delete_sent_to_queue, in_state, is_live, key,
}
use golangci_api.RepoService.{
  Deps, World, Auth, RepoInfo, with_id_at, set_commit_state, build_response_repo, delete_message,
  start_delete, dispatch_delete, delete,
}
use golangci_api.RepoService.Effects.{
  moved, as_sent, Sending, not_sent, not_finished, finished, Marking, not_marked, sending,
  send_to_delete_queue-Sending, mark_deleting-Marking,
}

abbrev pub OthersKept : ℕ → World → World → Type 0
OthersKept i w w' = (j : ℕ) → j ≢ i → row_at key j w'.rows ≡ row_at key j w.rows

abbrev pub Announced : Auth → Repo → World → World → Type 0
Announced auth repo w w' = w'.delete_queue ≡ w.delete_queue ++ delete_message repo.id auth ∷ []

abbrev pub RowIn : CommitState → Repo → World → Type 0
RowIn s repo w' = row_at key repo.id w'.rows ≡ some (set_commit_state s repo)

pub data Accepted (d : Deps) (auth : Auth) (repo : Repo) (w : World)
    : RepoInfo → World → Type 0 where
  started :
      {w' : World}
      → repo.commit_state ≡ create_done
      → d.is_admin repo ≡ ok true
      → RowIn delete_sent_to_queue repo w'
      → Announced auth repo w w'
      → Accepted d auth repo w (as_sent repo) w'
  resent :
      {w' : World}
      → repo.commit_state ≡ delete_init
      → RowIn delete_sent_to_queue repo w'
      → Announced auth repo w w'
      → Accepted d auth repo w (as_sent repo) w'
  repeated :
      repo.commit_state ≡ delete_sent_to_queue → Accepted d auth repo w (build_response_repo repo) w
  deleted_already : is_live repo ≡ false → Accepted d auth repo w (build_response_repo repo) w

pub data Refused (d : Deps) (auth : Auth) (repo : Repo) (w : World) : World → Type 0 where
  untouched : Refused d auth repo w w
  marked_only :
      {w' : World}
      → d.is_admin repo ≡ ok true
      → RowIn delete_init repo w'
      → w'.delete_queue ≡ w.delete_queue
      → Refused d auth repo w w'
  marked_sent :
      {w' : World}
      → d.is_admin repo ≡ ok true
      → RowIn delete_init repo w'
      → Announced auth repo w w'
      → Refused d auth repo w w'
  sent_only :
      {w' : World}
      → repo.commit_state ≡ delete_init
      → w'.rows ≡ w.rows
      → Announced auth repo w w'
      → Refused d auth repo w w'

abbrev pub Served : Deps → Auth → Repo → World → Result RepoInfo × World → Type 0
Served d auth repo w (ok info, w') = Accepted d auth repo w info w' × OthersKept repo.id w w'
Served d auth repo w (err e, w') = Refused d auth repo w w' × OthersKept repo.id w w'

module _ (repo : Repo) (w : World) where
  pub row_at-moved :
      (s s' : CommitState) (r : Repo)
      → row_at key repo.id w.rows ≡ some r
      → r.id ≡ repo.id
      → is_live r ≡ true
      → r.commit_state ≡ s
      → row_at key repo.id (moved repo.id s s' w).rows ≡ some (set_commit_state s' r)
  row_at-moved s s' r e i l c =
      rw
        (row_at-update_where key (in_state repo.id s) (set_commit_state s') repo.id w.rows
          (λ r. refl))
        (rw e (ground (arith, i, l, c)))

  pub others-moved : (s s' : CommitState) → OthersKept repo.id w (moved repo.id s s' w)
  others-moved s s' j =
      row_at-update_where_ne key (in_state repo.id s) (set_commit_state s') repo.id j w.rows
        (λ r. refl) (λ r h. ground arith)

module _ (d : Deps) (auth : Auth) (repo : Repo) (w : World) where
  Sending-Served :
      {r : Result RepoInfo × World}
      → repo.commit_state ≡ delete_init
      → is_live repo ≡ true
      → row_at key repo.id w.rows ≡ some repo
      → Sending auth repo w r
      → Served d auth repo w r
  Sending-Served c l e (not_sent x) = (untouched, λ j h. refl)
  Sending-Served c l e (not_finished x) = (sent_only c refl refl, λ j h. refl)
  Sending-Served c l e finished = (
    resent c (row_at-moved repo w delete_init delete_sent_to_queue repo e refl l c) refl,
    others-moved repo w delete_init delete_sent_to_queue,
  )

  Marking-Served :
      {r : Result RepoInfo × World}
      → repo.commit_state ≡ create_done
      → d.is_admin repo ≡ ok true
      → is_live repo ≡ true
      → row_at key repo.id w.rows ≡ some repo
      → Marking auth repo w r
      → Served d auth repo w r
  Marking-Served c a l e (not_marked x) = (untouched, λ j h. refl)
  Marking-Served c a l e (sending (not_sent x)) = (
    marked_only a (row_at-moved repo w create_done delete_init repo e refl l c) refl,
    others-moved repo w create_done delete_init,
  )
  Marking-Served c a l e (sending (not_finished x)) = (
    marked_sent a (row_at-moved repo w create_done delete_init repo e refl l c) refl,
    others-moved repo w create_done delete_init,
  )
  Marking-Served c a l e (sending finished) =
      let marked = row_at-moved repo w create_done delete_init repo e refl l c in
      (
        started c a
            (row_at-moved repo (moved repo.id create_done delete_init w) delete_init
              delete_sent_to_queue (set_commit_state delete_init repo) marked refl l refl)
            refl,
        λ j h.
            others-moved repo (moved repo.id create_done delete_init w) delete_init
              delete_sent_to_queue j h
            ∙ others-moved repo w create_done delete_init j h,
      )

  start_delete-Served :
      Unique key w.rows
      → repo.commit_state ≡ create_done
      → is_live repo ≡ true
      → row_at key repo.id w.rows ≡ some repo
      → Served d auth repo w (start_delete d auth repo w)
  unfolding start_delete
  start_delete-Served u c l at = go (d.build_provider auth) refl (d.is_admin repo) refl
    where
      go :
          (b : Result (Unit {0}))
          → d.build_provider auth ≡ b
          → (a : Result Bool) → d.is_admin repo ≡ a
          → Served d auth repo w (start_delete d auth repo w)
      go (err x) e a f = rw (e, start_delete) (untouched, λ j h. refl)
      go (ok _) e (err x) f = rw (e, start_delete) (rw f (untouched, λ j h. refl))
      go (ok _) e (ok false) f = rw (e, start_delete) (rw f (untouched, λ j h. refl))
      go (ok _) e (ok true) f =
          rw (e, start_delete)
            (rw f (Marking-Served c f l at (mark_deleting-Marking d auth repo w u at)))

  dispatch_delete-Served :
      (s : CommitState)
      → repo.commit_state ≡ s
      → Unique key w.rows
      → is_live repo ≡ true
      → row_at key repo.id w.rows ≡ some repo
      → Served d auth repo w (dispatch_delete d s auth repo w)
  unfolding dispatch_delete
  dispatch_delete-Served create_done c u l at = start_delete-Served u c l at
  dispatch_delete-Served delete_init c u l at =
      Sending-Served c l at (send_to_delete_queue-Sending d auth repo w)
  dispatch_delete-Served delete_sent_to_queue c u l at = (repeated c, λ j h. refl)
  dispatch_delete-Served _ c u l at = (untouched, λ j h. refl)

-- What the outcome of a delete request says.
abbrev pub Requested : Deps → Auth → ℕ → World → Result RepoInfo × World → Type 0
Requested d auth id w (ok info, w') =
    (repo : Repo) × (first_where (with_id_at id auth.provider) w.rows ≡ ok repo)
    × Accepted d auth repo w info w'
    × OthersKept repo.id w w'
Requested d auth id w (err e, w') =
    (w' ≡ w)
    ⊎ ((repo : Repo) × (first_where (with_id_at id auth.provider) w.rows ≡ ok repo)
        × Refused d auth repo w w'
        × OthersKept repo.id w w')

module _ (d : Deps) (auth : Auth) (id : ℕ) (w : World) where
  Served-Requested :
      (repo : Repo) (r : Result RepoInfo × World)
      → first_where (with_id_at id auth.provider) w.rows ≡ ok repo
      → Served d auth repo w r
      → Requested d auth id w r
  Served-Requested repo (ok info, w') f (a, o) = (repo, f, a, o)
  Served-Requested repo (err e, w') f (a, o) = inr (repo, f, a, o)

  -- A delete request that is accepted found the row of its id and of the caller's provider. If the
  -- row is deleted already, or sent to the queue, nothing changes; from `create_done` the caller is
  -- an administrator of the repository, and from there and from `delete_init` the row is in
  -- `delete_sent_to_queue` and one message with the caller's id was sent; the answer shows the row
  -- as it then is. A refused request changed nothing, or an administrator's request left the row in
  -- `delete_init`, or the message was sent from `delete_init`. No other row changes. Row keys are
  -- unique.
  pub delete-Requested : Unique key w.rows → Requested d auth id w (delete d auth id w)
  unfolding delete
  delete-Requested u = go (d.repo_db.first (with_id_at id auth.provider) w.rows) refl
    where
      found :
          (repo : Repo)
          → first_where (with_id_at id auth.provider) w.rows ≡ ok repo
          → (b : Bool) → is_live repo ≡ b
          → Requested d auth id w (
              if b
              then dispatch_delete d repo.commit_state auth repo w
              else (ok (build_response_repo repo), w))
      found repo f true l = Served-Requested repo _ f (
          dispatch_delete-Served d auth repo w repo.commit_state refl u l
            (first_where-row_at key (with_id_at id auth.provider) w.rows u f))
      found repo f false l = (repo, f, deleted_already l, λ j h. refl)

      go :
          (r : Result Repo)
          → d.repo_db.first (with_id_at id auth.provider) w.rows ≡ r
          → Requested d auth id w (delete d auth id w)
      go (err x) e = rw (e, delete) (inl refl)
      go (ok repo) e =
          rw (e, delete)
            (found repo (first-eq-ok d.repo_db (with_id_at id auth.provider) w.rows e)
              (is_live repo) refl)
