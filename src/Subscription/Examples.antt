-- ===== src/Subscription/Examples.antt =====
-- The update request at concrete inputs.
use golangci_api.Base.{◌≡◌, refl, ◌⊎◌, [], ◌∷◌, none}
use golangci_api.Base.Int.{pos}
use golangci_api.Errors.{ok, err, wrap, queue_failure}
use golangci_api.Sql.{reliable}
use golangci_api.Models.Org.{Org}
use golangci_api.Models.OrgSub.{OrgSub, create_done, update_sent_to_queue, update_init}
use golangci_api.Subscription.{
  Deps, Subs, UpdatePayload, update, update_message, set_state_and_version,
}
use golangci_api.Subscription.Requests.{
  Accepted, Refused, OthersKept, update-Accepted, update-Refused,
}
use golangci_api.Subscription.Lookup.{Found}

abbrev pub acme : Org
acme = record {
  id = 1;
  deleted_at = none;
  name = "acme";
  display_name = "Acme";
  provider = "github.com";
  provider_id = 10;
  provider_personal_user_id = 0;
  settings = [];
  version = 3;
}

abbrev pub paid : OrgSub
paid = record {
  id = 7;
  created_at = 100;
  deleted_at = none;
  payment_gateway_name = "paddle";
  payment_gateway_card_token = "";
  payment_gateway_customer_id = "c1";
  payment_gateway_subscription_id = "s1";
  billing_user_id = 5;
  org_id = 1;
  seats_count = pos 2;
  price_per_seat = "10";
  commit_state = create_done;
  idempotency_key = "k";
  version = 0;
  cancel_url = "";
}

abbrev other : OrgSub
other = record paid { id = 8; org_id = 2 }

abbrev pub before : Subs
before = record { rows = paid ∷ other ∷ []; sent = [] }

abbrev pub working : Deps
working = record {
  org_db = reliable;
  sub_db = reliable;
  check_can_modify = λ o. ok tt;
  put = λ m. ok tt;
}

abbrev broken_queue : Deps
broken_queue = record working { put = λ m. err queue_failure }

abbrev five_seats : UpdatePayload
five_seats = record { seats_count = pos 5; org_version = 3; version = 0 }

abbrev after : Subs
after = record {
  rows = set_state_and_version update_sent_to_queue 1 paid ∷ other ∷ [];
  sent = update_message 7 (pos 5) ∷ [];
}

abbrev stuck : Subs
stuck = record before { rows = set_state_and_version update_init 1 paid ∷ other ∷ [] }

update_runs : update working (acme ∷ []) "acme" "github.com" five_seats before ≡ (ok tt, after)
unfolding update reliable
update_runs = refl

update-Accepted_example :
    (sub : OrgSub) × Found working (acme ∷ []) "acme" "github.com" five_seats before sub
    × Accepted sub five_seats before after
    × OthersKept sub.id before after
update-Accepted_example =
    update-Accepted working (acme ∷ []) "acme" "github.com" five_seats before (refl, (refl, tt))
      update_runs

update_stops :
    update broken_queue (acme ∷ []) "acme" "github.com" five_seats before
    ≡ (err (wrap queue_failure), stuck)
unfolding update reliable
update_stops = refl

update-Refused_example :
    (stuck ≡ before)
    ⊎ ((sub : OrgSub) × Found broken_queue (acme ∷ []) "acme" "github.com" five_seats before sub
        × Refused sub five_seats before stuck
        × OthersKept sub.id before stuck)
update-Refused_example =
    update-Refused broken_queue (acme ∷ []) "acme" "github.com" five_seats before (refl, (refl, tt))
      update_stops
