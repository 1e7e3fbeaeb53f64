-- ===== src/Workers/Repos/Deleter/Effects.antt =====
-- What the delete consumer changes, at the provider and in the table.
use golangci_api.Base.{
  ℕ, ◌≡◌, refl, inl, inr, ◌≢◌, Bool, true, ◌&&◌, ◌||◌, List, some, arith, subst, ap, Bool-cases,
  ==_iff, ◌∙◌,
}
use golangci_api.Errors.{Result, ok, err, wrap}
use golangci_api.Sql.{
  row_at, Unique, update_where, first_where-row_at, first_where-holds, first-eq-ok,
  row_at-update_where, row_at-update_where_ne, count_where, count_where-key, update_where-none, hit,
}
use golangci_api.Models.Repo.{
  Repo, CommitState, delete_init, delete_sent_to_queue, same_state, is_live, in_states, key,
}
use golangci_api.Workers.Repos.Provider.{ref_of, RepoRef}
use golangci_api.Workers.Repos.Deleter.{
  Env, World, DeleteMessage, with_any_id, set_deleted, wrapped_result, store_deleted, without_hook,
  delete_repo, dispatch_delete, run, consume_message,
}
use golangci_api.Workers.Repos.Deleter.Removals.{Settled, Settled-map, tolerate_not_found-Settled}

-- A live row that waits for its disconnection.
abbrev pub is_waiting : Repo → Bool
is_waiting r =
    is_live r
    && (same_state r.commit_state delete_init || same_state r.commit_state delete_sent_to_queue)

abbrev pub OthersKept : ℕ → List Repo → List Repo → Type 0
OthersKept i t t' = (j : ℕ) → j ≢ i → row_at key j t' ≡ row_at key j t

module _ {S : Type 0} (v : Env S) where
  -- With the user's token the hook and then the reviewer bot was removed at the provider, which has
  -- gone from one state to the other by these two calls alone.
  abbrev pub Removals : ℕ → RepoRef → S → S → Type 0
  Removals user r s s' =
      let hook = v.provider.delete_repo_hook user r s in
      let bot = v.provider.remove_collaborator user r hook.1 in
      (s' ≡ bot.1)
      × Settled hook.0 (v.provider.has_hook r s')
      × Settled bot.0 (v.provider.has_collaborator r s')

  -- The hook and the reviewer bot of a waiting repository were removed, its row is marked as
  -- deleted, and no other row has changed.
  abbrev pub Disconnection : ℕ → ℕ → List Repo → S → World S → Type 0
  Disconnection user id rows s w' =
      (r : Repo) × (row_at key id rows ≡ some r)
      × (is_waiting r ≡ true)
      × (row_at key id w'.rows ≡ some (set_deleted v.now r))
      × Removals user (ref_of r) s w'.remote
      × OthersKept id rows w'.rows

  -- What the result of handling a user's message about a repository says.
  abbrev pub Disconnected : ℕ → ℕ → List Repo → S → Result (Unit {0}) × World S → Type 0
  Disconnected user id rows s (ok _, w') = Disconnection user id rows s w'
  Disconnected user id rows s (err e, w') = w'.rows ≡ rows

  pub Disconnected-ok :
      (user id : ℕ) (rows : List Repo) (s : S) (r : Result (Unit {0}) × World S)
      → r.0 ≡ ok tt
      → Disconnected user id rows s r
      → Disconnection user id rows s r.1
  Disconnected-ok user id rows s (ok _, w') h d = d
  Disconnected-ok user id rows s (err e, w') h d = cc

  module _ (user : ℕ) (repo : Repo) (rows : List Repo) (s : S) where
    row-Disconnected :
        (s' : S)
        → row_at key repo.id rows ≡ some repo
        → is_waiting repo ≡ true
        → Removals user (ref_of repo) s s'
        → Disconnected user repo.id rows s (
          ok tt,
          record {
            rows =
                update_where
                  (in_states repo.id delete_init delete_sent_to_queue)
                  (set_deleted v.now)
                  rows;
            remote = s';
          },
        )
    row-Disconnected s' at wait gone = (
      repo,
      at,
      wait,
      rw
          (row_at-update_where key (in_states repo.id delete_init delete_sent_to_queue)
            (set_deleted v.now) repo.id rows (λ r. refl))
          (rw at (ground (arith, wait))),
      gone,
      λ j.
          row_at-update_where_ne key (in_states repo.id delete_init delete_sent_to_queue)
            (set_deleted v.now) repo.id j rows (λ r. refl) (λ r e. ground arith),
    )

    store_deleted-Disconnected :
        (s' : S)
        → Unique key rows
        → row_at key repo.id rows ≡ some repo
        → Removals user (ref_of repo) s s'
        → Disconnected user repo.id rows s
            (store_deleted v repo (record { rows = rows; remote = s' }))
    unfolding store_deleted
    store_deleted-Disconnected s' u at gone =
        elim (v.repo_db.updates_law (in_states repo.id delete_init delete_sent_to_queue)
          (set_deleted v.now) rows) [
            | inr (x, e) ↦ rw (e, store_deleted) refl
            | inl e ↦
                let counted : count_where (in_states repo.id delete_init delete_sent_to_queue) rows
                    ≡ hit key is_waiting (some repo) =
                  count_where-key key is_waiting repo.id rows u ∙ ap (hit key is_waiting) at in
                elim (Bool-cases (is_waiting repo)) [
                  | inl t ↦
                      rw (e, store_deleted) (rw counted (rw t (row-Disconnected s' at t gone)))
                  | inr f ↦
                      rw (e, store_deleted)
                        (rw counted (
                          rw f (
                            update_where-none (in_states repo.id delete_init delete_sent_to_queue)
                              (set_deleted v.now) rows (counted ∙ rw f refl))))
                ]
          ]

module _ {S : Type 0} (v : Env S) (user : ℕ) where
  -- the state after the hook's removal
  abbrev no_hook : Repo → S → Result (Unit {0}) × S
  no_hook repo s = v.provider.delete_repo_hook user (ref_of repo) s

  without_hook-Disconnected :
      (repo : Repo) (rows : List Repo) (s : S)
      → Unique key rows
      → row_at key repo.id rows ≡ some repo
      → Settled (no_hook repo s).0 (v.provider.has_hook (ref_of repo) (no_hook repo s).1)
      → Disconnected v user repo.id rows s
          (without_hook v user repo rows (ok tt, (no_hook repo s).1))
  without_hook-Disconnected repo rows s u at h =
      let s₁ = (no_hook repo s).1 in
      elim (tolerate_not_found-Settled (v.provider.has_collaborator (ref_of repo))
        (v.provider.remove_collaborator user (ref_of repo) s₁)
        (v.provider.remove_collaborator_law user (ref_of repo) s₁)) [
          | inl (e, gone) ↦ rw e (
              store_deleted-Disconnected v user repo rows s
                (v.provider.remove_collaborator user (ref_of repo) s₁).1 u at
                (
                  refl,
                  Settled-map (no_hook repo s).0 _ _
                      (v.provider.remove_collaborator_hook_law user (ref_of repo) s₁) h,
                  gone,
                ))
          | inr (x, e) ↦ rw e refl
        ]

  delete_repo-Disconnected :
      (repo : Repo) (w : World S)
      → Unique key w.rows
      → row_at key repo.id w.rows ≡ some repo
      → Disconnected v user repo.id w.rows w.remote (delete_repo v user repo w)
  unfolding delete_repo
  delete_repo-Disconnected repo w u at =
      elim (tolerate_not_found-Settled (v.provider.has_hook (ref_of repo)) (no_hook repo w.remote)
        (v.provider.delete_repo_hook_law user (ref_of repo) w.remote)) [
          | inl (e, gone) ↦
              rw (delete_repo, e) (without_hook-Disconnected repo w.rows w.remote u at gone)
          | inr (x, e) ↦ rw (delete_repo, e) refl
        ]

  wrapped_result-Disconnected :
      (id : ℕ) (rows : List Repo) (s : S) (r : Result (Unit {0}) × World S)
      → Disconnected v user id rows s r
      → Disconnected v user id rows s (wrapped_result r)
  wrapped_result-Disconnected id rows s (ok _, w) d = d
  wrapped_result-Disconnected id rows s (err e, w) d = d

  dispatch_delete-Disconnected :
      (s : CommitState) (repo : Repo) (w : World S)
      → Unique key w.rows
      → row_at key repo.id w.rows ≡ some repo
      → Disconnected v user repo.id w.rows w.remote (dispatch_delete v user s repo w)
  unfolding dispatch_delete
  dispatch_delete-Disconnected delete_init repo w u at =
      wrapped_result-Disconnected repo.id w.rows w.remote _ (delete_repo-Disconnected repo w u at)
  dispatch_delete-Disconnected delete_sent_to_queue repo w u at =
      wrapped_result-Disconnected repo.id w.rows w.remote _ (delete_repo-Disconnected repo w u at)
  dispatch_delete-Disconnected _ repo w u at = refl

module _ {S : Type 0} (v : Env S) where
  run-Disconnected :
      (m : DeleteMessage) (w : World S)
      → Unique key w.rows
      → Disconnected v m.user_id m.repo_id w.rows w.remote (run v m w)
  unfolding run
  run-Disconnected m w u = go (v.repo_db.first (with_any_id m.repo_id) w.rows) refl
    where
      built :
          (repo : Repo) (r : Result (Unit {0}))
          → repo.id ≡ m.repo_id
          → row_at key repo.id w.rows ≡ some repo
          → Disconnected v m.user_id m.repo_id w.rows w.remote (elim r [
            | err e ↦ (err (wrap e), w)
            | ok _ ↦ dispatch_delete v m.user_id repo.commit_state repo w
          ])
      built repo (err x) same at = refl
      built repo (ok _) same at =
          subst
            (λ i.
              Disconnected v m.user_id i w.rows w.remote
                (dispatch_delete v m.user_id repo.commit_state repo w))
            same (dispatch_delete-Disconnected v m.user_id repo.commit_state repo w u at)

      go :
          (r : Result Repo)
          → v.repo_db.first (with_any_id m.repo_id) w.rows ≡ r
          → Disconnected v m.user_id m.repo_id w.rows w.remote (run v m w)
      go (err x) e = rw (e, run) refl
      go (ok repo) e =
          let found = first-eq-ok v.repo_db (with_any_id m.repo_id) w.rows e in
          rw (e, run)
            (built repo (v.build_for_user m.user_id)
              ((==_iff repo.id m.repo_id).0
                (first_where-holds (with_any_id m.repo_id) w.rows found))
              (first_where-row_at key (with_any_id m.repo_id) w.rows u found))

  -- A delete message that is handled without an error found a live row waiting for its
  -- disconnection; with the token of the message's user the hook and then the reviewer bot were
  -- removed at the provider, each with success, and then it is gone, or with the answer "not found";
  -- and that row alone was marked as deleted. If handling it ends with an error, the table is as
  -- before. Row keys are unique. A removal that the provider answers with success has been made.
  pub consume_message-Disconnected :
      (m : DeleteMessage) (w : World S)
      → Unique key w.rows
      → Disconnected v m.user_id m.repo_id w.rows w.remote (consume_message v m w)
  unfolding consume_message
  consume_message-Disconnected m w u = go v.connect refl
    where
      go :
          (r : Result (Unit {0}))
          → v.connect ≡ r
          → Disconnected v m.user_id m.repo_id w.rows w.remote
              (elim r [ err e ↦ (err (wrap e), w) | ok _ ↦ run v m w ])
      go (err x) e = refl
      go (ok _) e = run-Disconnected m w u
