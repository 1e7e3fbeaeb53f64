-- ===== src/Policy/ActiveSubscription/Examples.antt =====
-- The two checks at concrete inputs.
use golangci_api.Base.{◌≡◌, ◌↔◌, ◌⊎◌, refl, [], ◌∷◌, true, false, none, some, str_eq}
use golangci_api.Base.Int.{pos, negsuc}
use golangci_api.Errors.{ok, err, no_seat_in_subscription}
use golangci_api.Sql.{reliable}
use golangci_api.Models.Org.{Org}
use golangci_api.Models.OrgSub.{OrgSub}
use golangci_api.Subscription.Examples.{acme, paid}
use golangci_api.Policy.ActiveSubscription.{
  Env, ProviderRepo, PullRequestEvent, check_for_provider_repo,
  check_for_provider_pull_request_event,
}
use golangci_api.Policy.ActiveSubscription.Verdict.{
  Subscribed, Paid, Reads, check_for_provider_repo_iff, check_for_provider_pull_request_event_iff,
}
use golangci_api.Policy.ActiveSubscription.Panic.{
  Overdrawn, check_for_provider_pull_request_event_panics,
}

abbrev pub env : Env
env = record {
  org_db = reliable;
  sub_db = reliable;
  orgs = acme ∷ [];
  subs = paid ∷ [];
  need_check_active_subscriptions = true;
  provider_name = "github.com";
  list_pull_request_commits = λ r n. ok (
      record {
        sha = "abc";
        author = record { email = "ann@acme.com" };
        committer = record { email = "" };
      }
      ∷ []);
  equal_fold = str_eq;
  unmarshal_settings = λ o. ok (
      record { email = "bob@acme.com" }
      ∷ record { email = "eve@acme.com" }
      ∷ record { email = "ann@acme.com" }
      ∷ []);
}

abbrev pub three_seats : Env
three_seats = record env { subs = record paid { seats_count = pos 3 } ∷ [] }

abbrev overdrawn : Env
overdrawn = record env { subs = record paid { seats_count = negsuc 0 } ∷ [] }

abbrev pub tool : ProviderRepo
tool = record {
  id = 41;
  is_admin = true;
  full_name = "acme/tool";
  organization = "acme";
  owner_id = 10;
  is_private = true;
}

abbrev pub event : PullRequestEvent
event = record { repo = tool; pull_request_number = 8; action = "opened"; head_commit_sha = "abc" }

third_seat_unpaid :
    check_for_provider_pull_request_event env event ≡ some (err no_seat_in_subscription)
unfolding check_for_provider_pull_request_event reliable
third_seat_unpaid = refl

third_seat_paid : check_for_provider_pull_request_event three_seats event ≡ some (ok tt)
unfolding check_for_provider_pull_request_event reliable
third_seat_paid = refl

negative_count : check_for_provider_pull_request_event overdrawn event ≡ none
unfolding check_for_provider_pull_request_event reliable
negative_count = refl

env-Reads : Reads env
unfolding reliable
env-Reads = (λ p. refl, λ p. refl)

three_seats-Reads : Reads three_seats
unfolding reliable
three_seats-Reads = (λ p. refl, λ p. refl)

overdrawn-Reads : Reads overdrawn
unfolding reliable
overdrawn-Reads = (λ p. refl, λ p. refl)

check_for_provider_repo_iff_example :
    (check_for_provider_repo env tool ≡ ok tt)
    ↔ ((true ≡ false) ⊎ ((org : Org) × (sub : OrgSub) × Subscribed env tool org sub))
check_for_provider_repo_iff_example = check_for_provider_repo_iff env tool env-Reads

check_for_provider_pull_request_event_iff_example :
    (check_for_provider_pull_request_event three_seats event ≡ some (ok tt))
    ↔ Paid three_seats event
check_for_provider_pull_request_event_iff_example =
    check_for_provider_pull_request_event_iff three_seats three_seats-Reads event

check_for_provider_pull_request_event_panics_example :
    (check_for_provider_pull_request_event overdrawn event ≡ none) ↔ Overdrawn overdrawn event
check_for_provider_pull_request_event_panics_example =
    check_for_provider_pull_request_event_panics overdrawn overdrawn-Reads event
