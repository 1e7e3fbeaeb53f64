-- ===== src/CommitStates/Requests.antt =====
-- The requests that connect and disconnect a repository follow the protocol.
use golangci_api.Base.{ℕ, ◌≡◌, refl, inl, inr, Bool, true, false, List, Bool-cases, ◌==◌}
use golangci_api.Errors.{Result, ok, err}
use golangci_api.Sql.{update_where, count_where}
use golangci_api.Models.Repo.{
  Repo, CommitState, create_init, create_sent_to_queue, create_created_repo, create_done,
  delete_init, delete_sent_to_queue, in_state, is_live,
}
use golangci_api.RepoService.{
  Deps, World, Auth, set_commit_state, finish_queue_sending, send_to_create_queue,
  create_already_existing_repo, send_to_delete_queue, mark_deleting, start_delete, dispatch_delete,
  delete, delete_message, with_id_at,
}
use golangci_api.CommitStates.Protocol.{Edge, queued, delete_queued, disconnecting}
use golangci_api.CommitStates.Tables.{
  TableFollows, TableFollows-refl, TableFollows-trans, Kept, in_state-Moves,
  update_where-TableFollows,
}

set_commit_state-Kept : (s : CommitState) → Kept (set_commit_state s)
set_commit_state-Kept s r = (refl, refl, refl, inl refl)

-- the update of one state to the next
set-TableFollows :
    (i : ℕ) (s t : CommitState) (rows : List Repo)
    → Edge s t
    → TableFollows rows (update_where (in_state i s) (set_commit_state t) rows)
set-TableFollows i s t rows e =
    update_where-TableFollows (in_state i s) (set_commit_state t) rows
      (in_state-Moves i s t (set_commit_state t) e (λ r. refl) (set_commit_state-Kept t))

module _ (d : Deps) where
  finish-TableFollows :
      (repo : Repo) (s t : CommitState) (w : World)
      → Edge s t
      → TableFollows w.rows (finish_queue_sending d repo s t w).1.rows
  unfolding finish_queue_sending
  finish-TableFollows repo s t w e =
      elim (d.repo_db.updates_law (in_state repo.id s) (set_commit_state t) w.rows) [
        | inl q ↦ rw (q, finish_queue_sending) (set-TableFollows repo.id s t w.rows e)
        | inr (x, q) ↦ rw (q, finish_queue_sending) (TableFollows-refl w.rows)
      ]

  create_queue-TableFollows :
      (repo : Repo) (w : World) → TableFollows w.rows (send_to_create_queue d repo w).1.rows
  unfolding send_to_create_queue
  create_queue-TableFollows repo w = go (d.put_create repo.id) refl
    where
      go :
          (x : Result (Unit {0}))
          → d.put_create repo.id ≡ x
          → TableFollows w.rows (send_to_create_queue d repo w).1.rows
      go (err x) q = rw (q, send_to_create_queue) (TableFollows-refl w.rows)
      go (ok _) q =
          rw (q, send_to_create_queue)
            (finish-TableFollows repo create_init create_sent_to_queue _ queued)

  pub recreate-TableFollows :
      (s : CommitState) (repo : Repo) (w : World)
      → TableFollows w.rows (create_already_existing_repo d s repo w).1.rows
  unfolding create_already_existing_repo
  recreate-TableFollows create_init repo w = create_queue-TableFollows repo w
  recreate-TableFollows create_sent_to_queue repo w = TableFollows-refl w.rows
  recreate-TableFollows create_created_repo repo w = TableFollows-refl w.rows
  recreate-TableFollows create_done repo w = TableFollows-refl w.rows
  recreate-TableFollows _ repo w = TableFollows-refl w.rows

  delete_queue-TableFollows :
      (auth : Auth) (repo : Repo) (w : World)
      → TableFollows w.rows (send_to_delete_queue d auth repo w).1.rows
  unfolding send_to_delete_queue
  delete_queue-TableFollows auth repo w = go (d.put_delete (delete_message repo.id auth)) refl
    where
      go :
          (x : Result (Unit {0}))
          → d.put_delete (delete_message repo.id auth) ≡ x
          → TableFollows w.rows (send_to_delete_queue d auth repo w).1.rows
      go (err x) q = rw (q, send_to_delete_queue) (TableFollows-refl w.rows)
      go (ok _) q =
          rw (q, send_to_delete_queue)
            (finish-TableFollows repo delete_init delete_sent_to_queue _ delete_queued)

  mark-TableFollows :
      (auth : Auth) (repo : Repo) (w : World)
      → TableFollows w.rows (mark_deleting d auth repo w).1.rows
  unfolding mark_deleting
  mark-TableFollows auth repo w =
      let marked =
        update_where (in_state repo.id create_done) (set_commit_state delete_init) w.rows in
      let first = set-TableFollows repo.id create_done delete_init w.rows disconnecting in
      elim (d.repo_db.updates_law (in_state repo.id create_done) (set_commit_state delete_init)
        w.rows) [
          | inr (x, q) ↦ rw (q, mark_deleting) (TableFollows-refl w.rows)
          | inl q ↦ elim (Bool-cases (count_where (in_state repo.id create_done) w.rows == 1)) [
            | inl one ↦
                rw (q, mark_deleting)
                  (rw one (
                    TableFollows-trans w.rows marked _ first
                      (delete_queue-TableFollows auth repo (record w { rows = marked }))))
            | inr none_or_more ↦ rw (q, mark_deleting) (rw none_or_more first)
          ]
        ]

  start-TableFollows :
      (auth : Auth) (repo : Repo) (w : World)
      → TableFollows w.rows (start_delete d auth repo w).1.rows
  unfolding start_delete
  start-TableFollows auth repo w = go (d.build_provider auth) (d.is_admin repo) refl refl
    where
      go :
          (x : Result (Unit {0})) (y : Result Bool)
          → d.build_provider auth ≡ x
          → d.is_admin repo ≡ y
          → TableFollows w.rows (start_delete d auth repo w).1.rows
      go (err e) y p q = rw (p, start_delete) (TableFollows-refl w.rows)
      go (ok _) (err e) p q = rw (p, start_delete) (rw q (TableFollows-refl w.rows))
      go (ok _) (ok false) p q = rw (p, start_delete) (rw q (TableFollows-refl w.rows))
      go (ok _) (ok true) p q = rw (p, start_delete) (rw q (mark-TableFollows auth repo w))

  dispatch-TableFollows :
      (s : CommitState) (auth : Auth) (repo : Repo) (w : World)
      → TableFollows w.rows (dispatch_delete d s auth repo w).1.rows
  unfolding dispatch_delete
  dispatch-TableFollows create_done auth repo w = start-TableFollows auth repo w
  dispatch-TableFollows delete_init auth repo w = delete_queue-TableFollows auth repo w
  dispatch-TableFollows delete_sent_to_queue auth repo w = TableFollows-refl w.rows
  dispatch-TableFollows _ auth repo w = TableFollows-refl w.rows

  pub delete-TableFollows :
      (auth : Auth) (id : ℕ) (w : World) → TableFollows w.rows (delete d auth id w).1.rows
  unfolding delete
  delete-TableFollows auth id w = go (d.repo_db.first (with_id_at id auth.provider) w.rows) refl
    where
      go :
          (x : Result Repo)
          → d.repo_db.first (with_id_at id auth.provider) w.rows ≡ x
          → TableFollows w.rows (delete d auth id w).1.rows
      go (err e) q = rw (q, delete) (TableFollows-refl w.rows)
      go (ok repo) q = elim (Bool-cases (is_live repo)) [
        | inl t ↦ rw (q, delete) (rw t (dispatch-TableFollows repo.commit_state auth repo w))
        | inr f ↦ rw (q, delete) (rw f (TableFollows-refl w.rows))
      ]
