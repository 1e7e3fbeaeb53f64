-- ===== src/Workers/Subs/Updater/Examples.antt =====
-- The update consumer at concrete inputs.
use golangci_api.Base.{◌≡◌, refl, ◌≢◌, [], ◌∷◌, some}
use golangci_api.Base.Int.{pos}
use golangci_api.Errors.{ok, err, wrap, gateway_failure}
use golangci_api.Sql.{reliable, row_at}
use golangci_api.Models.OrgSub.{OrgSub, update_init, update_sent_to_queue, key, next_version}
use golangci_api.Subscription.{
  UpdateMessage, Subs, finish_queue_sending, update_message, set_state_and_version,
}
use golangci_api.Subscription.Examples.{paid, working}
use golangci_api.Workers.Subs.{Env, Gateway, Billing, update_subscription}
use golangci_api.Workers.Subs.Updater.{run, set_updated, update_call}
use golangci_api.Workers.Subs.Updater.Outcomes.{Updated, run-Updated, redelivered, either_order}

abbrev pub open_gateway : Gateway
open_gateway = record {
  build = λ n. ok tt;
  customer = λ e t. ok "c9";
  subscription = λ c n. ok "s9";
  update = λ c s n t. ok tt;
  delete = λ c s. ok tt;
}

abbrev pub env : Env
env = record {
  sub_db = reliable;
  user_db = reliable;
  users = [];
  gateway = open_gateway;
  now = 50;
  connect = ok tt;
}

abbrev closed : Env
closed = record env { gateway = record open_gateway { update = λ c s n t. err gateway_failure } }

abbrev waiting : OrgSub
waiting = set_state_and_version update_init 1 paid

abbrev before : Billing
before = record { rows = waiting ∷ []; calls = [] }

abbrev five : UpdateMessage
five = update_message 7 (pos 5)

abbrev after : Billing
after = record {
  rows = set_updated five 2 waiting ∷ [];
  calls = update_subscription "c1" "s1" (pos 5) "" ∷ [];
}

runs : run env five before ≡ (ok tt, after)
unfolding run reliable
runs = refl

fails : run closed five before ≡ (err (wrap gateway_failure), update_call five waiting before)
unfolding run reliable
fails = refl

run-Updated_example : (sub : OrgSub) × Updated five before after sub
run-Updated_example = run-Updated env five before (refl, tt) runs

redelivered_example : ((run env five after).1 ≡ after) × ((run env five after).0 ≢ ok tt)
redelivered_example = redelivered env five before (refl, tt) runs

abbrev sent_first : Subs
sent_first = record { rows = waiting ∷ []; sent = five ∷ [] }

abbrev moved_on : Subs
moved_on = record sent_first { rows = set_state_and_version update_sent_to_queue 1 paid ∷ [] }

abbrev left : Subs
left = record sent_first { rows = after.rows }

hands_over :
    finish_queue_sending working waiting update_init update_sent_to_queue sent_first
    ≡ (ok tt, moved_on)
unfolding finish_queue_sending reliable
hands_over = refl

runs_later : run env five (record { rows = moved_on.rows; calls = [] }) ≡ (ok tt, after)
unfolding run reliable
runs_later = refl

hands_over_late :
    finish_queue_sending working waiting update_init update_sent_to_queue left ≡ (ok tt, left)
unfolding finish_queue_sending reliable
hands_over_late = refl

either_order_example :
    (row_at key 7 after.rows ≡ row_at key 7 left.rows)
    × (row_at key 7 left.rows ≡ some (set_updated five (next_version 1) waiting))
either_order_example =
    either_order working env five waiting sent_first moved_on left [] after after (refl, tt) refl
      refl refl hands_over runs_later runs hands_over_late
