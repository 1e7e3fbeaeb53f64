-- ===== src/Workers/Subs/Creator/Examples.antt =====
-- The create consumer at a concrete input.
use golangci_api.Base.{◌≡◌, refl, [], ◌∷◌, none, subst, str_eq, false}
use golangci_api.Base.Int.{pos}
use golangci_api.Errors.{ok, ok-injective}
use golangci_api.Sql.{reliable}
use golangci_api.Models.OrgSub.{OrgSub, create_done, create_sent_to_queue}
use golangci_api.Subscription.Examples.{paid}
use golangci_api.Workers.Subs.{Env, Billing, User, create_customer, create_subscription}
use golangci_api.Workers.Subs.Updater.Examples as Shared
use golangci_api.Workers.Subs.Creator.{run}
use golangci_api.Workers.Subs.Creator.Effects.{GivesNames, run_creates_once}

abbrev payer : User
payer = record { id = 5; deleted_at = none; email = "a@acme.org" }

abbrev env : Env
env = record Shared.env { users = payer ∷ [] }

abbrev fresh : OrgSub
fresh = record paid {
  payment_gateway_card_token = "tok";
  payment_gateway_customer_id = "";
  payment_gateway_subscription_id = "";
  commit_state = create_sent_to_queue;
}

abbrev before : Billing
before = record { rows = fresh ∷ []; calls = [] }

abbrev after : Billing
after = record {
  rows =
      record fresh {
        payment_gateway_customer_id = "c9";
        payment_gateway_subscription_id = "s9";
        commit_state = create_done;
      }
      ∷ [];
  calls = create_customer "a@acme.org" "tok" ∷ create_subscription "c9" (pos 2) ∷ [];
}

creates : run env 7 before ≡ (ok tt, after)
unfolding run reliable
creates = refl

gives_names : GivesNames env
gives_names = record {
  customers = λ e t q. subst (λ s. str_eq s "" ≡ false) (ok-injective q) refl;
  subscriptions = λ c n q. subst (λ s. str_eq s "" ≡ false) (ok-injective q) refl;
}

run_creates_once_example : (run env 7 after).1.calls ≡ after.calls
run_creates_once_example = run_creates_once env gives_names 7 before (refl, tt) creates
