-- ===== src/Workers/PaymentEvents/Examples.antt =====
-- A subscription that is paid for, its event delivered twice.
use golangci_api.Base.{◌≡◌, refl, inl, [], ◌∷◌, ◌++◌, some}
use golangci_api.Base.Int.{pos}
use golangci_api.Errors.{ok}
use golangci_api.Sql.{reliable}
use golangci_api.Subscription.Examples.{acme}
use golangci_api.Workers.PaymentEvents.{
  Env, World, CreateMessage, Event, Form, sub_created, new_sub, new_event, run,
}
use golangci_api.Workers.PaymentEvents.Outcomes.{Ran, run-Ran}
use golangci_api.Workers.PaymentEvents.Redelivery.{run_records_once}

abbrev form : Form
form = record {
  alert_id = "a1";
  subscription_id = "77";
  quantity = pos 4;
  unit_price = "10";
  cancel_url = "https://cancel";
  passthrough = ok (record { user_id = 5; org_provider = "github.com"; org_name = "acme" });
}

abbrev env : Env
env = record {
  connect = ok tt;
  start_tx = ok tt;
  commit = ok tt;
  rollback = ok tt;
  alert_name = λ s. ok "subscription_created";
  decode_form = λ t s. ok form;
  org_db = reliable;
  orgs = acme ∷ [];
  sub_db = reliable;
  create_sub = λ s t. ok (t ++ record s { id = 3 } ∷ []);
  event_db = reliable;
  create_event = λ e t. ok (t ++ e ∷ []);
  now = 80;
  create_sub_law = λ s t. inl (3, refl);
  create_event_law = λ e t. inl refl;
}

abbrev paid_event : Event
paid_event = record { type = sub_created; form = form }

abbrev delivered : CreateMessage
delivered = record { provider = "paddle"; payload = "p"; uuid = "u1" }

abbrev again : CreateMessage
again = record delivered { uuid = "u2" }

abbrev before : World
before = record { subs = []; events = [] }

abbrev after : World
after = record {
  subs = record (new_sub 80 "u1" form 1 5) { id = 3 } ∷ [];
  events = new_event paid_event (some 5) ∷ [];
}

records : run env delivered before ≡ (ok tt, after)
unfolding run reliable
records = refl

run-Ran_example : Ran env delivered before (run env delivered before)
run-Ran_example = run-Ran env delivered before

run_records_once_example : (run env again after).1 ≡ after
run_records_once_example = run_records_once env env delivered again before records (λ e. cc) refl
