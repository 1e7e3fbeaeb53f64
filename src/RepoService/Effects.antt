-- ===== src/RepoService/Effects.antt =====
-- What the steps of a delete request change, each as the set of its outcomes.
use golangci_api.Base.{
  ℕ, ◌≡◌, refl, ◌⊎◌, inl, inr, ◌++◌, [], ◌∷◌, Bool, Bool-cases, ◌&&◌, some, ap, ◌∙◌,
}
use golangci_api.Errors.{Error, Result, ok, err, wrap, message}
use golangci_api.Sql.{
  count_where, update_where, count_where-key, update_where-none, hit, row_at, Unique,
}
use golangci_api.Models.Repo.{
  Repo, CommitState, create_done, delete_init, delete_sent_to_queue, in_state, is_live, same_state,
  key,
}
use golangci_api.RepoService.{
  Deps, World, Auth, RepoInfo, set_commit_state, build_response_repo, delete_message,
  finish_queue_sending, send_to_delete_queue, mark_deleting,
}

abbrev pub with_message : Auth → Repo → World → World
with_message auth repo w = record w {
  delete_queue = w.delete_queue ++ delete_message repo.id auth ∷ [];
}

abbrev pub moved : ℕ → CommitState → CommitState → World → World
moved id s s' w = record w { rows = update_where (in_state id s) (set_commit_state s') w.rows }

abbrev pub as_sent : Repo → RepoInfo
as_sent repo = build_response_repo (set_commit_state delete_sent_to_queue repo)

pub data Sending (auth : Auth) (repo : Repo) (w : World) : Result RepoInfo × World → Type 0 where
  not_sent : (e : Error) → Sending auth repo w (err e, w)
  not_finished : (e : Error) → Sending auth repo w (err e, with_message auth repo w)
  finished :
      Sending auth repo w (
        ok (as_sent repo),
        moved repo.id delete_init delete_sent_to_queue (with_message auth repo w),
      )

pub data Marking (auth : Auth) (repo : Repo) (w : World) : Result RepoInfo × World → Type 0 where
  not_marked : (e : Error) → Marking auth repo w (err e, w)
  sending :
      {r : Result RepoInfo × World}
      → Sending auth repo (moved repo.id create_done delete_init w) r
      → Marking auth repo w r

module _ (d : Deps) (repo : Repo) (w : World) where
  pub finish_cases :
      (s s' : CommitState)
      → (finish_queue_sending d repo s s' w
          ≡ (ok (build_response_repo (set_commit_state s' repo)), moved repo.id s s' w))
        ⊎ ((e : Error) × (finish_queue_sending d repo s s' w ≡ (err e, w)))
  unfolding finish_queue_sending
  finish_cases s s' =
      elim (d.repo_db.updates_law (in_state repo.id s) (set_commit_state s') w.rows) [
        | inl e ↦ inl (rw (e, finish_queue_sending))
        | inr (x, e) ↦ inr (wrap x, rw (e, finish_queue_sending))
      ]

module _ (d : Deps) (auth : Auth) (repo : Repo) (w : World) where
  pub send_to_delete_queue-Sending : Sending auth repo w (send_to_delete_queue d auth repo w)
  unfolding send_to_delete_queue
  send_to_delete_queue-Sending = go (d.put_delete (delete_message repo.id auth)) refl
    where
      go :
          (r : Result (Unit {0}))
          → d.put_delete (delete_message repo.id auth) ≡ r
          → Sending auth repo w (send_to_delete_queue d auth repo w)
      go (err x) e = rw (e, send_to_delete_queue) (not_sent (wrap x))
      go (ok _) e =
          elim (finish_cases d repo (with_message auth repo w) delete_init delete_sent_to_queue) [
            | inl f ↦ rw (e, send_to_delete_queue) (rw f finished)
            | inr (x, f) ↦ rw (e, send_to_delete_queue) (rw f (not_finished x))
          ]

abbrev pub is_connected : Repo → Bool
is_connected r = is_live r && same_state r.commit_state create_done

module _ (d : Deps) (auth : Auth) (repo : Repo) (w : World) where
  pub mark_deleting-Marking :
      Unique key w.rows
      → row_at key repo.id w.rows ≡ some repo
      → Marking auth repo w (mark_deleting d auth repo w)
  unfolding mark_deleting
  mark_deleting-Marking u at =
      elim (d.repo_db.updates_law (in_state repo.id create_done) (set_commit_state delete_init)
        w.rows) [
          | inr (x, e) ↦ rw (e, mark_deleting) (not_marked (wrap x))
          | inl e ↦
              let counted : count_where (in_state repo.id create_done) w.rows
                  ≡ hit key is_connected (some repo) =
                count_where-key key is_connected repo.id w.rows u ∙ ap (hit key is_connected) at in
              elim (Bool-cases (is_connected repo)) [
                | inl t ↦
                    rw (e, mark_deleting)
                      (rw counted (
                        rw t (
                          sending (
                            send_to_delete_queue-Sending d auth repo
                              (moved repo.id create_done delete_init w)))))
                | inr f ↦
                    rw (e, mark_deleting)
                      (rw counted (
                        rw f (
                          rw
                            (update_where-none (in_state repo.id create_done)
                              (set_commit_state delete_init) w.rows (counted ∙ rw f refl))
                            (not_marked (message "race condition during update repo")))))
              ]
        ]
