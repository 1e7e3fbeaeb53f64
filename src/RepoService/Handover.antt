-- ===== src/RepoService/Handover.antt =====
-- The service and the delete consumer together: the service moves the row on after it has sent the
-- message, and the consumer may handle the message before that.
use mathlib.Core.Option.{some-injective}
use golangci_api.Base.{List, ℕ, ◌≡◌, refl, inl, inr, true, some, arith, subst, sym, ap, ◌∙◌}
use golangci_api.Errors.{Result, ok}
use golangci_api.Sql.{row_at, Unique, row_at-update_where, update_where-Unique}
use golangci_api.Models.Repo.{
  Repo, CommitState, delete_init, delete_sent_to_queue, in_state, is_live, key,
}
use golangci_api.RepoService.{
  Deps, World, Auth, RepoInfo, set_commit_state, delete_message, finish_queue_sending,
}
use golangci_api.RepoService.Effects.{moved, finish_cases}
use golangci_api.RepoService.Requests.{row_at-moved}
use golangci_api.Workers.Repos.Provider.{ref_of}
use golangci_api.Workers.Repos.Deleter.{Env, set_deleted, consume_message}
use golangci_api.Workers.Repos.Deleter as Deleter
use golangci_api.Workers.Repos.Deleter.Effects.{
  is_waiting, Removals, Disconnected-ok, consume_message-Disconnected,
}
use golangci_api.Workers.Repos.Deleter.Retry.{Working, consume_message_succeeds}

-- The hook and the reviewer bot of the repository were removed, and its row is marked as deleted.
abbrev pub Left : {S : Type 0} → Env S → ℕ → Repo → S → Deleter.World S → Type 0
Left v user repo s b =
    (row_at key repo.id b.rows ≡ some (set_deleted v.now repo))
    × Removals v user (ref_of repo) s b.remote

module _ (d : Deps) (repo : Repo) (w : World) where
  pub finish-rows :
      (s s' : CommitState) {info : RepoInfo} {w' : World}
      → finish_queue_sending d repo s s' w ≡ (ok info, w')
      → w'.rows ≡ (moved repo.id s s' w).rows
  finish-rows s s' h = elim (finish_cases d repo w s s') [ inl e ↦ cc | inr (x, e) ↦ cc ]

module _ {S : Type 0} (v : Env S) (works : Working v) where
  consumed :
      (auth : Auth) (r : Repo) (b : Deleter.World S)
      → Unique key b.rows
      → row_at key r.id b.rows ≡ some r
      → is_waiting r ≡ true
      → ((consume_message v (delete_message r.id auth) b).0 ≡ ok tt)
        × Left v auth.user_id r b.remote (consume_message v (delete_message r.id auth) b).1
  consumed auth r b u at wait =
      let m = delete_message r.id auth in
      let done = consume_message_succeeds v works m b r u at wait in
      let (r', at', _, row, gone, _) =
        Disconnected-ok v m.user_id r.id b.rows b.remote (consume_message v m b) done
          (consume_message-Disconnected v m b u) in
      (
        done,
        subst
            (λ x.
              (row_at key r.id (consume_message v m b).1.rows ≡ some (set_deleted v.now x))
              × Removals v auth.user_id (ref_of x) b.remote (consume_message v m b).1.remote)
            (some-injective _ _ (sym at' ∙ at)) (row, gone),
      )

-- The consumer's handling of the message that the service sends about a repository.
abbrev pub handled :
    {S : Type 0} → Env S → Auth → Repo → List Repo → S → Result (Unit {0}) × Deleter.World S
handled v auth repo rows s =
    consume_message v (delete_message repo.id auth) (record { rows = rows; remote = s })

module _ {S : Type 0} (d : Deps) (v : Env S) (auth : Auth) (repo : Repo) (w w₁ w₂ : World)
    (s : S) where
  -- A live row waits in `delete_init` and its message is sent. Whether the service moves the row on
  -- before or after the message is handled, if the consumer's services answer then the message is
  -- handled without an error: it makes both removals at the provider, of the hook and then of the
  -- reviewer bot, each answered with success or "not found", and the row ends as the same row marked
  -- as deleted: the service's late update does not bring it back. Row keys are unique, both updates
  -- of the service succeed, the consumer's database carries out its queries, and the provider
  -- answers a removal with success or "not found".
  pub finish_in_either_order :
      {i₁ i₂ : RepoInfo}
      → Working v
      → Unique key w.rows
      → row_at key repo.id w.rows ≡ some repo
      → is_live repo ≡ true
      → repo.commit_state ≡ delete_init
      → finish_queue_sending d repo delete_init delete_sent_to_queue w ≡ (ok i₁, w₁)
      → finish_queue_sending d repo delete_init delete_sent_to_queue
          (record w { rows = (handled v auth repo w.rows s).1.rows })
        ≡ (ok i₂, w₂)
      → ((handled v auth repo w₁.rows s).0 ≡ ok tt)
        × Left v auth.user_id repo s (handled v auth repo w₁.rows s).1
        × ((handled v auth repo w.rows s).0 ≡ ok tt)
        × Left v auth.user_id repo s
            (record { rows = w₂.rows; remote = (handled v auth repo w.rows s).1.remote })
  finish_in_either_order works u at live c f₁ f₂ =
      let moved_on = finish-rows d repo w delete_init delete_sent_to_queue f₁ in
      let waits : is_waiting repo ≡ true = ground (arith, live, c) in
      let at₁ =
        ap (row_at key repo.id) moved_on
        ∙ row_at-moved repo w delete_init delete_sent_to_queue repo at refl live c in
      let u₁ : Unique key w₁.rows = subst (Unique key) (sym moved_on) (
        update_where-Unique key (in_state repo.id delete_init)
          (set_commit_state delete_sent_to_queue) w.rows (λ r. refl) u) in
      let (done₁, left₁) =
        consumed v works auth (set_commit_state delete_sent_to_queue repo)
          (record { rows = w₁.rows; remote = s }) u₁ at₁ (ground (arith, live)) in
      let (done₂, (row₂, gone₂)) =
        consumed v works auth repo (record { rows = w.rows; remote = s }) u at waits in
      let late =
        finish-rows d repo (record w { rows = (handled v auth repo w.rows s).1.rows }) delete_init
          delete_sent_to_queue f₂ in
      (
        done₁,
        left₁,
        done₂,
        (
          ap (row_at key repo.id) late
              ∙ row_at-update_where key (in_state repo.id delete_init)
                  (set_commit_state delete_sent_to_queue) repo.id
                  (handled v auth repo w.rows s).1.rows (λ r. refl)
              ∙ rw row₂ (ground arith),
          gone₂,
        ),
      )
