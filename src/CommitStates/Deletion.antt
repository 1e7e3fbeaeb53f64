-- ===== src/CommitStates/Deletion.antt =====
-- The consumer that disconnects a repository follows the protocol.
use golangci_api.Base.{ℕ, ◌≡◌, refl, inl, inr, List}
use golangci_api.Errors.{Result, ok, err}
use golangci_api.Models.Repo.{
  Repo, CommitState, delete_init, delete_sent_to_queue, delete_done, in_states,
}
use golangci_api.Workers.Repos.Provider.{ref_of}
use golangci_api.Workers.Repos.Deleter.{
  DeleteMessage, Env, World, with_any_id, set_deleted, tolerate_not_found, wrapped_result,
  store_deleted, without_collaborator, without_hook, delete_repo, dispatch_delete, run,
  consume_message,
}
use golangci_api.CommitStates.Protocol.{deleted, deleted_late, disconnected}
use golangci_api.CommitStates.Tables.{
  TableFollows, TableFollows-refl, Moves, in_states-Moves, update_where-TableFollows,
}

set_deleted-Moves :
    (now i : ℕ) → Moves (in_states i delete_init delete_sent_to_queue) (set_deleted now)
set_deleted-Moves now i =
    in_states-Moves i delete_init delete_sent_to_queue delete_done (set_deleted now) deleted
      deleted_late (λ r. refl) (λ r. (refl, refl, refl, inr disconnected))

wrapped_result-TableFollows :
    {S : Type 0} (t : List Repo) (p : Result (Unit {0}) × World S)
    → TableFollows t p.1.rows
    → TableFollows t (wrapped_result p).1.rows
wrapped_result-TableFollows t (ok _, w) h = h
wrapped_result-TableFollows t (err e, w) h = h

module _ {S : Type 0} (v : Env S) (user : ℕ) where
  store_deleted-TableFollows :
      (repo : Repo) (w : World S) → TableFollows w.rows (store_deleted v repo w).1.rows
  unfolding store_deleted
  store_deleted-TableFollows repo w =
      elim (v.repo_db.updates_law (in_states repo.id delete_init delete_sent_to_queue)
        (set_deleted v.now) w.rows) [
          | inl q ↦
              rw (q, store_deleted)
                (update_where-TableFollows (in_states repo.id delete_init delete_sent_to_queue)
                  (set_deleted v.now) w.rows (set_deleted-Moves v.now repo.id))
          | inr (x, q) ↦ rw (q, store_deleted) (TableFollows-refl w.rows)
        ]

  without_collaborator-TableFollows :
      (repo : Repo) (rows : List Repo) (p : Result (Unit {0}) × S)
      → TableFollows rows (without_collaborator v repo rows p).1.rows
  without_collaborator-TableFollows repo rows (err e, s) = TableFollows-refl rows
  without_collaborator-TableFollows repo rows (ok _, s) =
      store_deleted-TableFollows repo (record { rows = rows; remote = s })

  without_hook-TableFollows :
      (repo : Repo) (rows : List Repo) (p : Result (Unit {0}) × S)
      → TableFollows rows (without_hook v user repo rows p).1.rows
  without_hook-TableFollows repo rows (err e, s) = TableFollows-refl rows
  without_hook-TableFollows repo rows (ok _, s) =
      without_collaborator-TableFollows repo rows
        (tolerate_not_found (v.provider.remove_collaborator user (ref_of repo) s))

  delete_repo-TableFollows :
      (repo : Repo) (w : World S) → TableFollows w.rows (delete_repo v user repo w).1.rows
  unfolding delete_repo
  delete_repo-TableFollows repo w =
      without_hook-TableFollows repo w.rows
        (tolerate_not_found (v.provider.delete_repo_hook user (ref_of repo) w.remote))

  dispatch-TableFollows :
      (s : CommitState) (repo : Repo) (w : World S)
      → TableFollows w.rows (dispatch_delete v user s repo w).1.rows
  unfolding dispatch_delete
  dispatch-TableFollows delete_init repo w =
      wrapped_result-TableFollows w.rows (delete_repo v user repo w)
        (delete_repo-TableFollows repo w)
  dispatch-TableFollows delete_sent_to_queue repo w =
      wrapped_result-TableFollows w.rows (delete_repo v user repo w)
        (delete_repo-TableFollows repo w)
  dispatch-TableFollows _ repo w = TableFollows-refl w.rows

module _ {S : Type 0} (v : Env S) where
  run-TableFollows : (m : DeleteMessage) (w : World S) → TableFollows w.rows (run v m w).1.rows
  unfolding run
  run-TableFollows m w = go (v.repo_db.first (with_any_id m.repo_id) w.rows) refl
    where
      built :
          (repo : Repo) (y : Result (Unit {0}))
          → v.repo_db.first (with_any_id m.repo_id) w.rows ≡ ok repo
          → v.build_for_user m.user_id ≡ y
          → TableFollows w.rows (run v m w).1.rows
      built repo (err e) q p = rw (q, run) (rw p (TableFollows-refl w.rows))
      built repo (ok _) q p =
          rw (q, run) (rw p (dispatch-TableFollows v m.user_id repo.commit_state repo w))

      go :
          (x : Result Repo)
          → v.repo_db.first (with_any_id m.repo_id) w.rows ≡ x
          → TableFollows w.rows (run v m w).1.rows
      go (err e) q = rw (q, run) (TableFollows-refl w.rows)
      go (ok repo) q = built repo (v.build_for_user m.user_id) q refl

  pub delete_message-TableFollows :
      (m : DeleteMessage) (w : World S) → TableFollows w.rows (consume_message v m w).1.rows
  unfolding consume_message
  delete_message-TableFollows m w = go v.connect refl
    where
      go :
          (x : Result (Unit {0}))
          → v.connect ≡ x
          → TableFollows w.rows (consume_message v m w).1.rows
      go (err e) q = rw (q, consume_message) (TableFollows-refl w.rows)
      go (ok _) q = rw (q, consume_message) (run-TableFollows m w)
