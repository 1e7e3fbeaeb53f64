-- ===== src/Subscription/Effects.antt =====
-- What the steps of an update request change, each as the set of its outcomes.
use golangci_api.Base.{◌≡◌, refl, ◌≢◌, ◌⊎◌, inl, inr, ◌++◌, [], ◌∷◌, arith, ◌==◌, Bool-cases}
use golangci_api.Errors.{Error, Result, ok, err, wrap, race_condition}
use golangci_api.Sql.{count_where, update_where}
use golangci_api.Models.OrgSub.{
  OrgSub, CommitState, update_init, update_sent_to_queue, next_version,
}
use golangci_api.Subscription.{
  Deps, Subs, UpdatePayload, update_message, in_state, unchanged_since, set_commit_state,
  set_state_and_version, finish_queue_sending, send_to_update_queue, start_update,
}

-- The message is accepted, and the row moved on where it still waits for that.
abbrev pub with_message : OrgSub → UpdatePayload → Subs → Subs
with_message sub p w = record w { sent = w.sent ++ update_message sub.id p.seats_count ∷ [] }

abbrev pub handed_over : OrgSub → UpdatePayload → Subs → Subs
handed_over sub p w = record w {
  rows = update_where (in_state sub.id update_init) (set_commit_state update_sent_to_queue) w.rows;
  sent = w.sent ++ update_message sub.id p.seats_count ∷ [];
}

abbrev pub marked : OrgSub → Subs → Subs
marked sub w = record w {
  rows =
      update_where (unchanged_since sub)
        (set_state_and_version update_init (next_version sub.version)) w.rows;
}

abbrev pub bumped : OrgSub → OrgSub
bumped sub = record sub { version = next_version sub.version }

pub data Sending (sub : OrgSub) (p : UpdatePayload) (w : Subs)
    : Result (Unit {0}) × Subs → Type 0 where
  not_sent : (e : Error) → Sending sub p w (err e, w)
  not_finished : (e : Error) → Sending sub p w (err e, with_message sub p w)
  finished : Sending sub p w (ok tt, handed_over sub p w)

pub data Starting (sub : OrgSub) (p : UpdatePayload) (w : Subs)
    : Result (Unit {0}) × Subs → Type 0 where
  not_marked : (e : Error) → Starting sub p w (err e, w)
  sending :
      {r : Result (Unit {0}) × Subs}
      → count_where (unchanged_since sub) w.rows ≢ 0
      → Sending (bumped sub) p (marked sub w) r
      → Starting sub p w r

module _ (d : Deps) (sub : OrgSub) (w : Subs) where
  pub finish_cases :
      (s s' : CommitState)
      → (finish_queue_sending d sub s s' w ≡ (
        ok tt,
        record w { rows = update_where (in_state sub.id s) (set_commit_state s') w.rows },
      ))
        ⊎ ((e : Error) × (finish_queue_sending d sub s s' w ≡ (err e, w)))
  unfolding finish_queue_sending
  finish_cases s s' = elim (d.sub_db.updates_law (in_state sub.id s) (set_commit_state s') w.rows) [
    | inl e ↦ inl (rw (e, finish_queue_sending))
    | inr (x, e) ↦ inr (wrap x, rw (e, finish_queue_sending))
  ]

  pub finish-ok :
      (s s' : CommitState) {w' : Subs}
      → finish_queue_sending d sub s s' w ≡ (ok tt, w')
      → update_where (in_state sub.id s) (set_commit_state s') w.rows ≡ w'.rows
  finish-ok s s' h = elim (finish_cases s s') [ inl e ↦ cc | inr (x, e) ↦ cc ]

module _ (d : Deps) (sub : OrgSub) (p : UpdatePayload) (w : Subs) where
  pub send_to_update_queue-Sending : Sending sub p w (send_to_update_queue d sub p w)
  unfolding send_to_update_queue
  send_to_update_queue-Sending = go (d.put (update_message sub.id p.seats_count)) refl
    where
      go :
          (r : Result (Unit {0}))
          → d.put (update_message sub.id p.seats_count) ≡ r
          → Sending sub p w (send_to_update_queue d sub p w)
      go (ok _) e =
          elim (finish_cases d sub (with_message sub p w) update_init update_sent_to_queue) [
            | inl f ↦ rw (e, send_to_update_queue) (rw f finished)
            | inr (x, f) ↦ rw (e, send_to_update_queue) (rw f (not_finished x))
          ]
      go (err x) e = rw (e, send_to_update_queue) (not_sent (wrap x))

module _ (d : Deps) (sub : OrgSub) (p : UpdatePayload) (w : Subs) where
  pub start_update-Starting : Starting sub p w (start_update d sub p w)
  unfolding start_update
  start_update-Starting =
      elim (d.sub_db.updates_law (unchanged_since sub)
        (set_state_and_version update_init (next_version sub.version)) w.rows) [
          | inl e ↦ elim (Bool-cases (count_where (unchanged_since sub) w.rows == 0)) [
            | inl z ↦ rw (e, start_update) (rw z (not_marked (wrap race_condition)))
            | inr nz ↦
                rw (e, start_update)
                  (rw nz (
                    sending (ground arith)
                      (send_to_update_queue-Sending d (bumped sub) p (marked sub w))))
          ]
          | inr (x, e) ↦ rw (e, start_update) (not_marked (wrap x))
        ]
