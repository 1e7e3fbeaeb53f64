-- ===== src/Workers/PaymentEvents.antt =====
-- pkg/api/workers/primaryqueue/paymentevents/creator.go, and the event processor of
-- internal/api/paymentproviders/implementations/paddle (event_processor.go, events.go): the
-- consumer that handles the events of the payment gateway, each in one transaction.
pub mod Asked
pub mod Outcomes
pub mod Redelivery
mod Examples
use golangci_api.Base.{
  ℕ, String, Bool, true, false, ◌&&◌, ◌≡◌, ◌⊎◌, List, [], ◌∷◌, ◌++◌, Option, none, some, ◌==◌,
  str_eq, if◌then◌else◌,
}
use golangci_api.Base.Int.{ℤ}
use golangci_api.Errors.{Error, Result, ok, err, wrap, wrapped, message, is_record_not_found, ◌>>=◌}
use golangci_api.Sql.{Sql}
use golangci_api.Models.Org.{Org}
use golangci_api.Models.Org as OrgModel
use golangci_api.Models.OrgSub.{OrgSub, create_done, is_live}

pub record CreateMessage : Type 0 where
  pub provider : String
  pub payload : String
  pub uuid : String

-- The values of alert_name that parseEvent knows.
pub data EventType : Type 0 where
  sub_created sub_payment_succeeded sub_payment_failed sub_cancelled sub_updated : EventType
  new_audience_member high_risk_transaction_created high_risk_transaction_updated : EventType

pub record PassthroughData : Type 0 where
  pub user_id : ℕ
  pub org_provider : String
  pub org_name : String

-- The fields of the events that are read, as gorilla/schema decodes them; the subscription's id is
-- written in decimal, and the passthrough is as encoding/json decodes it.
pub record Form : Type 0 where
  pub alert_id : String
  pub subscription_id : String
  pub quantity : ℤ
  pub unit_price : String
  pub cancel_url : String
  pub passthrough : Result PassthroughData

pub record Event : Type 0 where
  pub type : EventType
  pub form : Form

-- models.PaymentGatewayEvent, without the event as JSON
pub record PaymentGatewayEvent : Type 0 where
  pub provider : String
  pub provider_id : String
  pub user_id : Option ℕ
  pub type : EventType

pub record World : Type 0 where
  pub subs : List OrgSub
  pub events : List PaymentGatewayEvent

-- url.ParseQuery with the key alert_name, the form decoder, and the database. An INSERT that
-- succeeds adds the row, that of a subscription with an id of the database's choice.
pub record Env : Type 0 where
  pub connect : Result (Unit {0})
  pub start_tx : Result (Unit {0})
  pub commit : Result (Unit {0})
  pub rollback : Result (Unit {0})
  pub alert_name : String → Result String
  pub decode_form : EventType → String → Result Form
  pub org_db : Sql Org
  pub orgs : List Org
  pub sub_db : Sql OrgSub
  pub create_sub : OrgSub → List OrgSub → Result (List OrgSub)
  pub event_db : Sql PaymentGatewayEvent
  pub create_event :
      PaymentGatewayEvent → List PaymentGatewayEvent → Result (List PaymentGatewayEvent)
  pub now : ℕ
  pub create_sub_law :
      (s : OrgSub) (t : List OrgSub)
      → ((i : ℕ) × (create_sub s t ≡ ok (t ++ record s { id = i } ∷ [])))
        ⊎ ((x : Error) × (create_sub s t ≡ err x))
  pub create_event_law :
      (e : PaymentGatewayEvent) (t : List PaymentGatewayEvent)
      → (create_event e t ≡ ok (t ++ e ∷ [])) ⊎ ((x : Error) × (create_event e t ≡ err x))

-- the `switch eventType` of parseEvent
abbrev pub event_type : String → Result EventType
event_type s =
    if str_eq s ""
    then err (message "no alert_name key")
    else if str_eq s "subscription_created"
    then ok sub_created
    else if str_eq s "subscription_payment_succeeded"
    then ok sub_payment_succeeded
    else if str_eq s "subscription_payment_failed"
    then ok sub_payment_failed
    else if str_eq s "subscription_cancelled"
    then ok sub_cancelled
    else if str_eq s "subscription_updated"
    then ok sub_updated
    else if str_eq s "new_audience_member"
    then ok new_audience_member
    else if str_eq s "high_risk_transaction_created"
    then ok high_risk_transaction_created
    else if str_eq s "high_risk_transaction_updated"
    then ok high_risk_transaction_updated
    else err (message "got unknown event type")

abbrev pub user_of_passthrough : Form → Result (Option ℕ)
user_of_passthrough f = elim f.passthrough [ err e ↦ err (wrap e) | ok p ↦ ok (some p.user_id) ]

-- GetUserID, by the structure that the event embeds
abbrev pub get_user_id : EventType → Form → Result (Option ℕ)
get_user_id new_audience_member f = ok none
get_user_id high_risk_transaction_created f = ok none
get_user_id high_risk_transaction_updated f = ok none
get_user_id _ f = user_of_passthrough f

abbrev pub of_name : PassthroughData → Org → Bool
of_name p o = str_eq o.provider p.org_provider && (str_eq o.name p.org_name && OrgModel.is_live o)

abbrev pub with_provider_id : String → PaymentGatewayEvent → Bool
with_provider_id i e = str_eq e.provider_id i

abbrev pub with_gateway_id : String → OrgSub → Bool
with_gateway_id i s = str_eq s.payment_gateway_subscription_id i && is_live s

abbrev pub with_id : ℕ → OrgSub → Bool
with_id i s = s.id == i && is_live s

abbrev pub set_deleted : ℕ → OrgSub → OrgSub
set_deleted now s = record s { deleted_at = some now }

-- The id is the database's to give.
abbrev pub new_sub : ℕ → String → Form → ℕ → ℕ → OrgSub
new_sub now uuid f org_id user_id = record {
  id = 0;
  created_at = now;
  deleted_at = none;
  payment_gateway_name = "paddle";
  payment_gateway_card_token = "";
  payment_gateway_customer_id = "";
  payment_gateway_subscription_id = f.subscription_id;
  billing_user_id = user_id;
  org_id = org_id;
  seats_count = f.quantity;
  price_per_seat = f.unit_price;
  commit_state = create_done;
  idempotency_key = uuid;
  version = 0;
  cancel_url = f.cancel_url;
}

abbrev pub new_event : Event → Option ℕ → PaymentGatewayEvent
new_event ev user_id = record {
  provider = "paddle";
  provider_id = ev.form.alert_id;
  user_id = user_id;
  type = ev.type;
}

module _ (v : Env) where
  pub parse_event : String → Result Event
  parse_event payload = do
    name ← wrapped (v.alert_name payload)
    type ← event_type name
    form ← wrapped (v.decode_form type payload)
    ok (record { type = type; form = form })

  pub get_org_id : Form → Result ℕ
  get_org_id f = do
    p ← wrapped f.passthrough
    org ← wrapped (v.org_db.first (of_name p) v.orgs)
    ok org.id

  pub process_sub_created_event : Form → String → List OrgSub → Result (List OrgSub)
  unfolding get_org_id
  process_sub_created_event f uuid subs = do
    org_id ← wrapped (get_org_id f)
    p ← wrapped (wrapped f.passthrough)
    wrapped (v.create_sub (new_sub v.now uuid f org_id p.user_id) subs)

  pub process_sub_cancelled_event : Form → List OrgSub → Result (List OrgSub)
  process_sub_cancelled_event f subs = do
    sub ← wrapped (v.sub_db.first (with_gateway_id f.subscription_id) subs)
    deleted ← wrapped (v.sub_db.updates (with_id sub.id) (set_deleted v.now) subs)
    ok deleted.1

  -- the `switch evWithID.GetType()`
  pub process_type : EventType → Form → String → List OrgSub → Result (List OrgSub)
  unfolding process_sub_created_event process_sub_cancelled_event
  process_type sub_created f uuid subs = wrapped (process_sub_created_event f uuid subs)
  process_type sub_cancelled f uuid subs = wrapped (process_sub_cancelled_event f subs)
  process_type _ f uuid subs = ok subs

  pub save_event : Event → World → Result World
  save_event ev w = do
    user_id ← wrapped (get_user_id ev.type ev.form)
    events ← wrapped (v.create_event (new_event ev user_id) w.events)
    ok (record w { events = events })

  abbrev pub process_new : Event → String → World → Result World
  process_new ev uuid w =
      process_type ev.type ev.form uuid w.subs >>= λ subs. save_event ev (record w { subs = subs })

  -- Whatever the lookup returns but "record not found" ends the processing with success.
  abbrev pub process_found : Event → String → World → Result PaymentGatewayEvent → Result World
  process_found ev uuid w (ok existing) = ok w
  process_found ev uuid w (err e) = if is_record_not_found e then process_new ev uuid w else ok w

  abbrev pub process_parsed : String → World → Result Event → Result World
  process_parsed uuid w (err e) = err (wrap e)
  process_parsed uuid w (ok ev) =
      process_found ev uuid w (v.event_db.first (with_provider_id ev.form.alert_id) w.events)

  pub process : String → String → World → Result World
  unfolding parse_event process_type save_event
  process payload uuid w = process_parsed uuid w (parse_event payload)

  -- The deferred finishTx of the consumer, on an error, and on no error.
  abbrev pub finish_tx : World → Result World → Result (Unit {0}) × World
  finish_tx before (err e) = (elim v.rollback [ err _ ↦ err (wrap e) | ok _ ↦ err e ], before)
  finish_tx before (ok w) = elim v.commit [ err e ↦ (err (wrap e), before) | ok _ ↦ (ok tt, w) ]

  -- For a provider that is not Paddle the processor is nil. The call panics, and finishTx, which
  -- recovers, sets an error only if the rollback fails.
  abbrev pub finish_panic : World → Result (Unit {0}) × World
  finish_panic before = (elim v.rollback [ err e ↦ err (wrap e) | ok _ ↦ ok tt ], before)

  pub run : CreateMessage → World → Result (Unit {0}) × World
  unfolding process
  run m w = elim v.start_tx [
    | err e ↦ (err (wrap e), w)
    | ok _ ↦
        if str_eq m.provider "paddle"
        then finish_tx w (wrapped (process m.payload m.uuid w))
        else finish_panic w
  ]

  abbrev pub wrapped_run : Result (Unit {0}) × World → Result (Unit {0}) × World
  wrapped_run (err e, w) = (err (wrap e), w)
  wrapped_run (ok _, w) = (ok tt, w)

  pub consume_message : CreateMessage → World → Result (Unit {0}) × World
  unfolding run
  consume_message m w = elim v.connect [ err e ↦ (err (wrap e), w) | ok _ ↦ wrapped_run (run m w) ]
