-- ===== src/Workers/Subs/Deleter/Examples.antt =====
-- The delete consumer at a concrete input.
use golangci_api.Base.{◌≡◌, refl, [], ◌∷◌}
use golangci_api.Errors.{ok}
use golangci_api.Sql.{reliable}
use golangci_api.Models.OrgSub.{OrgSub, delete_init}
use golangci_api.Subscription.{set_state_and_version}
use golangci_api.Subscription.Examples.{paid}
use golangci_api.Workers.Subs.{Billing, delete_subscription}
use golangci_api.Workers.Subs.Updater.Examples.{env}
use golangci_api.Workers.Subs.Deleter.{consume_message, set_deleted}
use golangci_api.Workers.Subs.Deleter.Effects.{Deleted, consume_message-Deleted}

abbrev leaving : OrgSub
leaving = set_state_and_version delete_init 1 paid

abbrev before : Billing
before = record { rows = leaving ∷ []; calls = [] }

abbrev after : Billing
after = record { rows = set_deleted 50 leaving ∷ []; calls = delete_subscription "c1" "s1" ∷ [] }

deletes : consume_message env 7 before ≡ (ok tt, after)
unfolding consume_message reliable
deletes = refl

consume_message-Deleted_example : Deleted env 7 leaving after
consume_message-Deleted_example =
    consume_message-Deleted env 7 before leaving (refl, tt) refl refl deletes
