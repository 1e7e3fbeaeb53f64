-- ===== src/Workers/Subs/Updater.antt =====
-- pkg/api/workers/primaryqueue/subs/updater.go: the consumer of update messages.
pub mod Effects
pub mod Examples
pub mod Outcomes
use golangci_api.Base.{
  ℕ, String, Bool, ◌&&◌, ◌||◌, List, [], ◌∷◌, ◌++◌, ◌==◌, str_eq, if◌then◌else◌,
}
use golangci_api.Base.Int.{ℤ}
use golangci_api.Errors.{
  Error, Result, ok, err, wrap, record_not_found, permanent, message, is_record_not_found,
}
use golangci_api.Sql.{Sql}
use golangci_api.Models.OrgSub.{
  OrgSub, update_init, update_sent_to_queue, update_done, same_state, is_live, next_version,
  update_required,
}
use golangci_api.Subscription.{UpdateMessage}
use golangci_api.Workers.Subs.{Env, Billing, update_subscription, with_id, fetch_error}

-- The row as the consumer has read it: still waiting for an update, at the same version.
abbrev pub awaits_update : OrgSub → OrgSub → Bool
awaits_update sub r =
    r.id == sub.id
    && (is_live r
        && ((same_state r.commit_state update_init
              || same_state r.commit_state update_sent_to_queue)
            && r.version == sub.version))

abbrev pub set_updated : UpdateMessage → ℕ → OrgSub → OrgSub
set_updated m v r = record r {
  commit_state = update_done;
  seats_count = m.seats_count;
  version = v;
  payment_gateway_card_token =
      if str_eq m.card_token "" then r.payment_gateway_card_token else m.card_token;
}

abbrev pub update_call : UpdateMessage → OrgSub → Billing → Billing
update_call m sub w = record w {
  calls =
      w.calls
      ++ update_subscription sub.payment_gateway_customer_id sub.payment_gateway_subscription_id
          m.seats_count m.card_token
        ∷ [];
}

module _ (v : Env) where
  pub store_update : UpdateMessage → OrgSub → Billing → Result (Unit {0}) × Billing
  store_update m sub w =
      elim (update_required
        (v.sub_db.updates (awaits_update sub) (set_updated m (next_version sub.version)) w.rows)) [
          | ok rows ↦ (ok tt, record w { rows = rows })
          | err e ↦ (err (wrap e), w)
        ]

  pub update_remote : UpdateMessage → OrgSub → Billing → Result (Unit {0}) × Billing
  unfolding store_update
  update_remote m sub w = elim (v.gateway.build sub.payment_gateway_name) [
    | err e ↦ (err (wrap e), w)
    | ok _ ↦
        elim (v.gateway.update sub.payment_gateway_customer_id sub.payment_gateway_subscription_id
          m.seats_count m.card_token) [
            | err e ↦ (err (wrap e), update_call m sub w)
            | ok _ ↦ store_update m sub (update_call m sub w)
          ]
  ]

  pub run : UpdateMessage → Billing → Result (Unit {0}) × Billing
  unfolding update_remote
  run m w = elim (v.sub_db.first (with_id m.sub_id) w.rows) [
    | err e ↦ (err (fetch_error e), w)
    | ok sub ↦
        if same_state sub.commit_state update_init
          || same_state sub.commit_state update_sent_to_queue
        then update_remote m sub w
        else (err (message "invalid commit state"), w)
  ]

  pub consume_message : UpdateMessage → Billing → Result (Unit {0}) × Billing
  consume_message m w = elim v.connect [ err e ↦ (err (wrap e), w) | ok _ ↦ run m w ]
