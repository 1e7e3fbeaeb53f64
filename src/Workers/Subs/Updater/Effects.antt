-- ===== src/Workers/Subs/Updater/Effects.antt =====
-- What the update consumer changes.
use golangci_api.Base.{◌≡◌, refl, ◌≢◌, ◌⊎◌, inl, inr, Bool, true, ◌||◌, arith, ◌==◌, Bool-cases}
use golangci_api.Errors.{Error, Result, ok, err, wrap, message, race_condition}
use golangci_api.Sql.{count_where, update_where, first_where, first-eq-ok}
use golangci_api.Models.OrgSub.{OrgSub, update_init, update_sent_to_queue, same_state, next_version}
use golangci_api.Subscription.{UpdateMessage}
use golangci_api.Workers.Subs.{fetch_error, Env, Billing, with_id}
use golangci_api.Workers.Subs.Updater.{
  awaits_update, set_updated, store_update, update_call, update_remote, run,
}

abbrev pub is_waiting : OrgSub → Bool
is_waiting s =
    same_state s.commit_state update_init || same_state s.commit_state update_sent_to_queue

abbrev pub stored : UpdateMessage → OrgSub → Billing → Billing
stored m sub w = record w {
  rows = update_where (awaits_update sub) (set_updated m (next_version sub.version)) w.rows;
}

pub data Updating (m : UpdateMessage) (w : Billing) : Result (Unit {0}) × Billing → Type 0 where
  not_called : (e : Error) → Updating m w (err e, w)
  not_stored :
      (sub : OrgSub) (e : Error)
      → first_where (with_id m.sub_id) w.rows ≡ ok sub
      → is_waiting sub ≡ true
      → Updating m w (err e, update_call m sub w)
  updated :
      (sub : OrgSub)
      → first_where (with_id m.sub_id) w.rows ≡ ok sub
      → is_waiting sub ≡ true
      → count_where (awaits_update sub) w.rows ≢ 0
      → Updating m w (ok tt, stored m sub (update_call m sub w))

module _ (v : Env) (m : UpdateMessage) where
  store_cases :
      (sub : OrgSub) (w : Billing)
      → ((count_where (awaits_update sub) w.rows ≢ 0)
          × (store_update v m sub w ≡ (ok tt, stored m sub w)))
        ⊎ ((e : Error) × (store_update v m sub w ≡ (err e, w)))
  unfolding store_update
  store_cases sub w =
      elim (v.sub_db.updates_law (awaits_update sub) (set_updated m (next_version sub.version))
        w.rows) [
          | inl e ↦ elim (Bool-cases (count_where (awaits_update sub) w.rows == 0)) [
            | inl z ↦ inr (wrap race_condition, rw (e, store_update) (rw z))
            | inr nz ↦ inl (ground arith, rw (e, store_update) (rw nz))
          ]
          | inr (x, e) ↦ inr (wrap x, rw (e, store_update))
        ]

  remote-Updating :
      (sub : OrgSub) (w : Billing)
      → first_where (with_id m.sub_id) w.rows ≡ ok sub
      → is_waiting sub ≡ true
      → Updating m w (update_remote v m sub w)
  unfolding update_remote
  remote-Updating sub w f t = build (v.gateway.build sub.payment_gateway_name) refl
    where
      call :
          (r : Result (Unit {0}))
          → v.gateway.update sub.payment_gateway_customer_id sub.payment_gateway_subscription_id
              m.seats_count m.card_token
            ≡ r
          → Updating m w (elim r [
            | err e ↦ (err (wrap e), update_call m sub w)
            | ok _ ↦ store_update v m sub (update_call m sub w)
          ])
      call (err x) e = not_stored sub (wrap x) f t
      call (ok _) e = elim (store_cases sub (update_call m sub w)) [
        | inl (n, s) ↦ rw s (updated sub f t n)
        | inr (x, s) ↦ rw s (not_stored sub x f t)
      ]

      build :
          (r : Result (Unit {0}))
          → v.gateway.build sub.payment_gateway_name ≡ r
          → Updating m w (update_remote v m sub w)
      build (err x) e = rw (e, update_remote) (not_called (wrap x))
      build (ok _) e = rw (e, update_remote) (call _ refl)

  pub run-Updating : (w : Billing) → Updating m w (run v m w)
  unfolding run
  run-Updating w = go (v.sub_db.first (with_id m.sub_id) w.rows) refl
    where
      go :
          (r : Result OrgSub)
          → v.sub_db.first (with_id m.sub_id) w.rows ≡ r
          → Updating m w (run v m w)
      go (err x) e = rw (e, run) (not_called (fetch_error x))
      go (ok sub) e = elim (Bool-cases (is_waiting sub)) [
        | inl t ↦ rw (e, run) (rw t (remote-Updating sub w (first-eq-ok v.sub_db _ w.rows e) t))
        | inr t ↦ rw (e, run) (rw t (not_called (message "invalid commit state")))
      ]
