-- ===== src/Workers/Repos/Deleter/Retry.antt =====
-- A delete message whose handling has failed, delivered again.
use golangci_api.Base.{ℕ, ◌≡◌, refl, Bool, true, List, some, arith, sym, subst, ap, ◌∙◌}
use golangci_api.Errors.{Error, Result, ok, err}
use golangci_api.Sql.{
  row_at, Unique, update_where, first_where, count_where, count_where-key, hit, first_where-key,
  row_at-key,
}
use golangci_api.Models.Repo.{Repo, CommitState, delete_init, delete_sent_to_queue, in_states, key}
use golangci_api.Workers.Repos.Provider.{ref_of, RepoRef}
use golangci_api.Workers.Repos.Deleter.{
  Env, World, DeleteMessage, with_any_id, set_deleted, wrapped_result, store_deleted,
  without_collaborator, without_hook, delete_repo, dispatch_delete, run, consume_message,
}
use golangci_api.Workers.Repos.Deleter.Removals.{Answered, tolerate_not_found_succeeds}
use golangci_api.Workers.Repos.Deleter.Effects.{
  is_waiting, Disconnected, consume_message-Disconnected,
}

-- The services answer: a removal succeeds or finds nothing, the database carries out its queries.
pub record Working {S : Type 0} (v : Env S) : Type 0 where
  pub connects : v.connect ≡ ok tt
  pub builds : (user : ℕ) → v.build_for_user user ≡ ok tt
  pub reads : (p : Repo → Bool) (t : List Repo) → v.repo_db.first p t ≡ first_where p t
  pub writes :
      (p : Repo → Bool) (f : Repo → Repo) (t : List Repo)
      → v.repo_db.updates p f t ≡ ok (count_where p t, update_where p f t)
  pub removes_hook :
      (user : ℕ) (r : RepoRef) (s : S) → Answered (v.provider.delete_repo_hook user r s).0
  pub removes_collaborator :
      (user : ℕ) (r : RepoRef) (s : S) → Answered (v.provider.remove_collaborator user r s).0

module _ {S : Type 0} (v : Env S) (works : Working v) where
  store_deleted_succeeds :
      (repo : Repo) (w : World S)
      → Unique key w.rows
      → row_at key repo.id w.rows ≡ some repo
      → is_waiting repo ≡ true
      → (store_deleted v repo w).0 ≡ ok tt
  unfolding store_deleted
  store_deleted_succeeds repo w u at wait =
      let counted : count_where (in_states repo.id delete_init delete_sent_to_queue) w.rows
          ≡ hit key is_waiting (some repo) =
        count_where-key key is_waiting repo.id w.rows u ∙ ap (hit key is_waiting) at in
      rw
        (
          store_deleted,
          works.writes (in_states repo.id delete_init delete_sent_to_queue) (set_deleted v.now)
              w.rows,
        )
        (rw counted (rw wait refl))

  without_collaborator_succeeds :
      (repo : Repo) (rows : List Repo) (r : Result (Unit {0}) × S)
      → r.0 ≡ ok tt
      → Unique key rows
      → row_at key repo.id rows ≡ some repo
      → is_waiting repo ≡ true
      → (without_collaborator v repo rows r).0 ≡ ok tt
  without_collaborator_succeeds repo rows (err e, s) h u at wait = cc
  without_collaborator_succeeds repo rows (ok _, s) h u at wait =
      store_deleted_succeeds repo (record { rows = rows; remote = s }) u at wait

  without_hook_succeeds :
      (user : ℕ) (repo : Repo) (rows : List Repo) (r : Result (Unit {0}) × S)
      → r.0 ≡ ok tt
      → Unique key rows
      → row_at key repo.id rows ≡ some repo
      → is_waiting repo ≡ true
      → (without_hook v user repo rows r).0 ≡ ok tt
  without_hook_succeeds user repo rows (err e, s) h u at wait = cc
  without_hook_succeeds user repo rows (ok _, s) h u at wait =
      without_collaborator_succeeds repo rows _
        (tolerate_not_found_succeeds _ (works.removes_collaborator user (ref_of repo) s)) u at wait

  wrapped_result_succeeds :
      (r : Result (Unit {0}) × World S) → r.0 ≡ ok tt → (wrapped_result r).0 ≡ ok tt
  wrapped_result_succeeds (ok _, w) h = refl
  wrapped_result_succeeds (err e, w) h = cc

  dispatch_delete_succeeds :
      (user : ℕ) (s : CommitState) (repo : Repo) (w : World S)
      → repo.commit_state ≡ s
      → Unique key w.rows
      → row_at key repo.id w.rows ≡ some repo
      → is_waiting repo ≡ true
      → (dispatch_delete v user s repo w).0 ≡ ok tt
  unfolding dispatch_delete delete_repo
  dispatch_delete_succeeds user delete_init repo w c u at wait = wrapped_result_succeeds _ (
      without_hook_succeeds user repo w.rows _
        (tolerate_not_found_succeeds _ (works.removes_hook user (ref_of repo) w.remote)) u at wait)
  dispatch_delete_succeeds user delete_sent_to_queue repo w c u at wait =
      wrapped_result_succeeds _ (
        without_hook_succeeds user repo w.rows _
          (tolerate_not_found_succeeds _ (works.removes_hook user (ref_of repo) w.remote)) u at
          wait)
  dispatch_delete_succeeds user _ repo w c u at wait = ground (arith, c, wait)

  pub consume_message_succeeds :
      (m : DeleteMessage) (w : World S) (repo : Repo)
      → Unique key w.rows
      → row_at key m.repo_id w.rows ≡ some repo
      → is_waiting repo ≡ true
      → (consume_message v m w).0 ≡ ok tt
  unfolding consume_message run
  consume_message_succeeds m w repo u at wait =
      rw (consume_message, works.connects)
        (rw (run, works.reads (with_any_id m.repo_id) w.rows)
          (rw (first_where-key key m.repo_id w.rows at) (
            rw (works.builds m.user_id) (
              dispatch_delete_succeeds m.user_id repo.commit_state repo w refl u
                (subst (λ i. row_at key i w.rows ≡ some repo)
                  (sym (row_at-key key m.repo_id w.rows at)) at)
                wait))))

module _ {S : Type 0} (v v' : Env S) (m : DeleteMessage) (w : World S) (repo : Repo) where
  -- If handling a delete message about a live row that waits for its disconnection has failed,
  -- wherever it stopped, and the services answer when it is delivered again, then it is handled
  -- without an error: the second delivery makes both removals at the provider, each answered with
  -- success or "not found", and marks the row as deleted. Row keys are unique. The services answer:
  -- the database carries out its queries, and the provider answers a removal with success or "not
  -- found".
  pub consume_message_retried :
      {x : Error} {w' : World S}
      → Working v'
      → Unique key w.rows
      → row_at key m.repo_id w.rows ≡ some repo
      → is_waiting repo ≡ true
      → consume_message v m w ≡ (err x, w')
      → ((consume_message v' m w').0 ≡ ok tt)
        × Disconnected v' m.user_id m.repo_id w.rows w'.remote (consume_message v' m w')
  consume_message_retried {x} {w'} works u at wait failed =
      let same : w'.rows ≡ w.rows =
        subst (Disconnected v m.user_id m.repo_id w.rows w.remote) failed
          (consume_message-Disconnected v m w u) in
      let u' : Unique key w'.rows = subst (Unique key) (sym same) u in
      (
        consume_message_succeeds v' works m w' repo u' (ap (row_at key m.repo_id) same ∙ at) wait,
        subst (λ t. Disconnected v' m.user_id m.repo_id t w'.remote (consume_message v' m w')) same
            (consume_message-Disconnected v' m w' u'),
      )
