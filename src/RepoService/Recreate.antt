-- ===== src/RepoService/Recreate.antt =====
-- What a request to connect a repository that has a row already has done when it returns.
use golangci_api.Base.{◌≡◌, refl, ◌⊎◌, inl, inr, ◌++◌, [], ◌∷◌, true, some}
use golangci_api.Errors.{Result, ok, err}
use golangci_api.Sql.{row_at}
use golangci_api.Models.Repo.{
  Repo, CommitState, create_init, create_sent_to_queue, create_created_repo, create_done, is_live,
  key,
}
use golangci_api.RepoService.{
  Deps, World, RepoInfo, build_response_repo, send_to_create_queue, create_already_existing_repo,
}
use golangci_api.RepoService.Effects.{finish_cases}
use golangci_api.RepoService.Requests.{OthersKept, RowIn, row_at-moved, others-moved}

abbrev pub with_create_message : Repo → World → World
with_create_message repo w = record w { create_queue = w.create_queue ++ repo.id ∷ [] }

-- A creation that is under way or done.
abbrev pub Underway : CommitState → Type 0
Underway s = (s ≡ create_sent_to_queue) ⊎ ((s ≡ create_created_repo) ⊎ (s ≡ create_done))

-- What the outcome of the request says.
abbrev pub Recreated : Repo → World → Result RepoInfo × World → Type 0
Recreated repo w (ok info, w') =
    ((repo.commit_state ≡ create_init)
      × RowIn create_sent_to_queue repo w'
      × (w'.create_queue ≡ w.create_queue ++ repo.id ∷ [])
      × (info.is_creating ≡ true)
      × OthersKept repo.id w w')
    ⊎ (Underway repo.commit_state × (w' ≡ w) × (info ≡ build_response_repo repo))
Recreated repo w (err e, w') =
    (w' ≡ w) ⊎ ((repo.commit_state ≡ create_init) × (w' ≡ with_create_message repo w))

module _ (d : Deps) (repo : Repo) (w : World) where
  pub send_to_create_queue-Recreated :
      repo.commit_state ≡ create_init
      → is_live repo ≡ true
      → row_at key repo.id w.rows ≡ some repo
      → Recreated repo w (send_to_create_queue d repo w)
  unfolding send_to_create_queue
  send_to_create_queue-Recreated c l at = go (d.put_create repo.id) refl
    where
      go :
          (r : Result (Unit {0}))
          → d.put_create repo.id ≡ r
          → Recreated repo w (send_to_create_queue d repo w)
      go (err x) e = rw (e, send_to_create_queue) (inl refl)
      go (ok _) e =
          elim (finish_cases d repo (with_create_message repo w) create_init create_sent_to_queue) [
            | inr (x, f) ↦ rw (e, send_to_create_queue) (rw f (inr (c, refl)))
            | inl f ↦
                rw (e, send_to_create_queue)
                  (rw f (
                    inl (
                      c,
                      row_at-moved repo w create_init create_sent_to_queue repo at refl l c,
                      refl,
                      refl,
                      others-moved repo w create_init create_sent_to_queue,
                    )))
          ]

  dispatch-Recreated :
      (s : CommitState)
      → repo.commit_state ≡ s
      → is_live repo ≡ true
      → row_at key repo.id w.rows ≡ some repo
      → Recreated repo w (create_already_existing_repo d s repo w)
  unfolding create_already_existing_repo
  dispatch-Recreated create_init c l at = send_to_create_queue-Recreated c l at
  dispatch-Recreated create_sent_to_queue c l at = inr (inl c, refl, refl)
  dispatch-Recreated create_created_repo c l at = inr (inr (inl c), refl, refl)
  dispatch-Recreated create_done c l at = inr (inr (inr c), refl, refl)
  dispatch-Recreated _ c l at = inl refl

  -- Connecting a repository again: from `create_init` an accepted request has sent one message and
  -- moved the row to "sent to queue", and the answer says that it is being created; while the
  -- creation is under way or done the answer shows the row and nothing changes. A refused request
  -- changes no row, and has sent at most the message. The row is live.
  pub create_already_existing_repo-Recreated :
      is_live repo ≡ true
      → row_at key repo.id w.rows ≡ some repo
      → Recreated repo w (create_already_existing_repo d repo.commit_state repo w)
  create_already_existing_repo-Recreated l at = dispatch-Recreated repo.commit_state refl l at
