-- ===== src/Workers/Subs/Creator.antt =====
-- pkg/api/workers/primaryqueue/subs/creator.go: the consumer of create messages, which carry the
-- id of a subscription only. The row that it has read is a local copy, which it keeps in step.
pub mod Effects
mod Examples
use golangci_api.Base.{
  ℕ, String, Bool, true, false, ◌&&◌, List, [], ◌∷◌, ◌++◌, some, ◌==◌, str_eq, if◌then◌else◌,
}
use golangci_api.Errors.{
  Error, Result, ok, err, wrap, cause, permanent, is_permanent, invalid_card_token, message,
}
use golangci_api.Models.OrgSub.{OrgSub, create_sent_to_queue, create_done, is_live, same_state}
use golangci_api.Workers.Subs.{
  Env, Billing, User, user_is_live, create_customer, create_subscription, with_id, fetch_error,
  set_commit_state,
}

abbrev pub set_customer : String → OrgSub → OrgSub
set_customer c r = record r { payment_gateway_customer_id = c }

abbrev pub set_subscription : String → OrgSub → OrgSub
set_subscription s r = record r { payment_gateway_subscription_id = s }

abbrev pub customer_call : User → OrgSub → Billing → Billing
customer_call u sub w = record w {
  calls = w.calls ++ create_customer u.email sub.payment_gateway_card_token ∷ [];
}

abbrev pub subscription_call : OrgSub → Billing → Billing
subscription_call sub w = record w {
  calls = w.calls ++ create_subscription sub.payment_gateway_customer_id sub.seats_count ∷ [];
}

abbrev pub customer_error : Error → Error
customer_error invalid_card_token = wrap permanent
customer_error e = wrap e

abbrev pub awaits_create : ℕ → OrgSub → Bool
awaits_create i r = r.id == i && (is_live r && same_state r.commit_state create_sent_to_queue)

abbrev pub and_then :
    {A : Type 0}
    → Result OrgSub × Billing
    → (OrgSub → Billing → Result A × Billing)
    → Result A × Billing
and_then (ok sub, w) k = k sub w
and_then (err e, w) k = (err (wrap e), w)

module _ (v : Env) where
  -- One field of the row of an id, which must be there.
  pub store_field : ℕ → (OrgSub → OrgSub) → OrgSub → Billing → Result OrgSub × Billing
  store_field id f sub w = elim (v.sub_db.updates (with_id id) f w.rows) [
    | err e ↦ (err (wrap e), w)
    | ok (n, rows) ↦
        if n == 1
        then (ok (f sub), record w { rows = rows })
        else (err (message "no rows were updated"), record w { rows = rows })
  ]

  pub call_customer : User → OrgSub → Billing → Result OrgSub × Billing
  unfolding store_field
  call_customer u sub w =
      if str_eq u.email ""
      then (err (message "expected email not to be empty"), w)
      else elim (v.gateway.customer u.email sub.payment_gateway_card_token) [
        | err e ↦ (err (customer_error e), customer_call u sub w)
        | ok c ↦ store_field sub.id (set_customer c) sub (customer_call u sub w)
      ]

  -- createCustomer
  pub make_customer : OrgSub → Billing → Result OrgSub × Billing
  unfolding call_customer
  make_customer sub w =
      elim (v.user_db.first (λ u. u.id == sub.billing_user_id && user_is_live u) v.users) [
        | err e ↦ (err (fetch_error e), w)
        | ok u ↦ call_customer u sub w
      ]

  -- createSubscription
  pub make_subscription : OrgSub → Billing → Result OrgSub × Billing
  unfolding store_field
  make_subscription sub w =
      elim (v.gateway.subscription sub.payment_gateway_customer_id sub.seats_count) [
        | err e ↦ (err (wrap e), subscription_call sub w)
        | ok s ↦ store_field sub.id (set_subscription s) sub (subscription_call sub w)
      ]

  pub ensure_customer : OrgSub → Billing → Result OrgSub × Billing
  unfolding make_customer
  ensure_customer sub w =
      if str_eq sub.payment_gateway_customer_id "" then make_customer sub w else (ok sub, w)

  pub ensure_subscription : OrgSub → Billing → Result OrgSub × Billing
  unfolding make_subscription
  ensure_subscription sub w =
      if str_eq sub.payment_gateway_subscription_id "" then make_subscription sub w else (ok sub, w)

  -- That the row was not waiting for its creation is only logged.
  pub finish_create : OrgSub → Billing → Result (Unit {0}) × Billing
  finish_create sub w =
      elim (v.sub_db.updates (awaits_create sub.id) (set_commit_state create_done) w.rows) [
        | err e ↦ (err (wrap e), w)
        | ok (n, rows) ↦ (ok tt, record w { rows = rows })
      ]

  pub create_remote : OrgSub → Billing → Result (Unit {0}) × Billing
  unfolding ensure_customer ensure_subscription finish_create
  create_remote sub w = elim (v.gateway.build "securionpay") [
    | err e ↦ (err (wrap e), w)
    | ok _ ↦
        and_then (ensure_customer sub w)
          λ sub₁ w₁. and_then (ensure_subscription sub₁ w₁) finish_create
  ]

  pub run : ℕ → Billing → Result (Unit {0}) × Billing
  unfolding create_remote
  run id w = elim (v.sub_db.first (with_id id) w.rows) [
    | err e ↦ (err (fetch_error e), w)
    | ok sub ↦ create_remote sub w
  ]

  -- The deletion after a permanent error. Its own outcome takes the place of the error, and
  -- `errors.Wrapf` of no error is no error.
  pub discard : ℕ → Billing → Result (Unit {0}) × Billing
  discard id w =
      elim (v.sub_db.updates (with_id id) (λ r. record r { deleted_at = some v.now }) w.rows) [
        | ok (n, rows) ↦ (ok tt, record w { rows = rows })
        | err e ↦ (err (wrap e), w)
      ]

  abbrev pub settle : ℕ → Result (Unit {0}) × Billing → Result (Unit {0}) × Billing
  settle id (ok u, w) = (ok u, w)
  settle id (err e, w) = if is_permanent (cause e) then discard id w else (err (wrap e), w)

  pub consume_message : ℕ → Billing → Result (Unit {0}) × Billing
  unfolding run discard
  consume_message id w = elim v.connect [ err e ↦ (err (wrap e), w) | ok _ ↦ settle id (run id w) ]
