-- ===== src/Workers/Subs/Deleter.antt =====
-- pkg/api/workers/primaryqueue/subs/deleter.go: the consumer of delete messages, which carry the
-- id of a subscription only.
pub mod Effects
mod Examples
use golangci_api.Base.{ℕ, List, [], ◌∷◌, ◌++◌, some, ◌==◌, if◌then◌else◌}
use golangci_api.Errors.{Error, Result, ok, err, wrap, cause, permanent, is_permanent}
use golangci_api.Models.OrgSub.{OrgSub, create_done, delete_init, delete_sent_to_queue, delete_done}
use golangci_api.Workers.Subs.{
  Env, Billing, delete_subscription, with_id, in_states, fetch_error, set_commit_state,
}

abbrev pub set_deleted : ℕ → OrgSub → OrgSub
set_deleted now r = record r { commit_state = delete_done; deleted_at = some now }

abbrev pub delete_call : OrgSub → Billing → Billing
delete_call sub w = record w {
  calls =
      w.calls
      ++ delete_subscription sub.payment_gateway_customer_id sub.payment_gateway_subscription_id
        ∷ [];
}

module _ (v : Env) where
  -- That no row was in a delete state any more is only logged.
  pub store_deleted : OrgSub → Billing → Result (Unit {0}) × Billing
  store_deleted sub w =
      elim (v.sub_db.updates (in_states sub.id delete_init delete_sent_to_queue) (set_deleted v.now)
        w.rows) [ ok (n, rows) ↦ (ok tt, record w { rows = rows }) | err e ↦ (err (wrap e), w) ]

  pub delete_remote : OrgSub → Billing → Result (Unit {0}) × Billing
  unfolding store_deleted
  delete_remote sub w = elim (v.gateway.build "securionpay") [
    | err e ↦ (err (wrap e), w)
    | ok _ ↦
        elim (v.gateway.delete sub.payment_gateway_customer_id
          sub.payment_gateway_subscription_id) [
            | err e ↦ (err (wrap permanent), delete_call sub w)
            | ok _ ↦ store_deleted sub (delete_call sub w)
          ]
  ]

  pub run : ℕ → Billing → Result (Unit {0}) × Billing
  unfolding delete_remote
  run id w = elim (v.sub_db.first (with_id id) w.rows) [
    | err e ↦ (err (fetch_error e), w)
    | ok sub ↦ delete_remote sub w
  ]

  -- The reset after a permanent error. Its own outcome takes the place of the error, and
  -- `errors.Wrapf` of no error is no error.
  pub reset : ℕ → Billing → Result (Unit {0}) × Billing
  reset id w = elim (v.sub_db.updates (with_id id) (set_commit_state create_done) w.rows) [
    | ok (n, rows) ↦ (ok tt, record w { rows = rows })
    | err e ↦ (err (wrap e), w)
  ]

  abbrev pub settle : ℕ → Result (Unit {0}) × Billing → Result (Unit {0}) × Billing
  settle id (ok u, w) = (ok u, w)
  settle id (err e, w) = if is_permanent (cause e) then reset id w else (err (wrap e), w)

  pub consume_message : ℕ → Billing → Result (Unit {0}) × Billing
  unfolding run reset
  consume_message id w = elim v.connect [ err e ↦ (err (wrap e), w) | ok _ ↦ settle id (run id w) ]
