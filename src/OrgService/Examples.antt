-- ===== src/OrgService/Examples.antt =====
-- A change of settings by an administrator.
use golangci_api.Base.{◌≡◌, refl, [], ◌∷◌, some}
use golangci_api.Errors.{ok}
use golangci_api.Sql.{reliable}
use golangci_api.Subscription.Examples.{acme}
use golangci_api.Policy.Organization.{check_can_modify}
use golangci_api.Policy.Organization.Examples.{env, was_member}
use golangci_api.OrgService.{Deps, World, UpdatePayload, set_settings, update}
use golangci_api.OrgService.Requests.{Updated, update-Updated}

abbrev deps : Deps
deps = record { org_db = reliable; policy = env }

abbrev before : World
before = record { orgs = acme ∷ []; cache = was_member }

abbrev payload : UpdatePayload
payload = record { settings = record { email = "ann@acme.com" } ∷ []; version = 3 }

updates :
    (update deps "acme" "github.com" payload before).0
    ≡ some (ok (set_settings payload.settings 4 acme))
unfolding update reliable check_can_modify
updates = refl

update-Updated_example :
    Updated deps "acme" "github.com" payload before (update deps "acme" "github.com" payload before)
update-Updated_example = update-Updated deps "acme" "github.com" payload before (refl, tt)
