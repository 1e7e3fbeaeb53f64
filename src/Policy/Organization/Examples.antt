-- ===== src/Policy/Organization/Examples.antt =====
-- A member who has become an administrator, and a provider of another name.
use golangci_api.Base.{◌≡◌, ◌↔◌, refl, false, true, none, some}
use golangci_api.Errors.{ok}
use golangci_api.Subscription.Examples.{acme}
use golangci_api.Policy.Organization.{Env, Cache, check_can_modify}
use golangci_api.Policy.Organization.Access.{Allowed, check_can_modify_iff}

abbrev pub env : Env
env = record {
  provider_user_id = 90;
  member_can_modify_org = false;
  build_provider = ok tt;
  provider_name = "github.com";
  get_org_membership_by_name = λ n. ok (record { id = 10; is_admin = true });
  cache_get = λ c. ok c;
  cache_set = λ om c. some om;
}

abbrev pub was_member : Cache
was_member = some (record { id = 10; is_admin = false })

reads_again :
    check_can_modify env acme was_member
    ≡ (some (ok tt), some (record { id = 10; is_admin = true }))
unfolding check_can_modify
reads_again = refl

other_provider :
    check_can_modify (record env { provider_name = "gitlab.com" }) acme was_member
    ≡ (none, was_member)
unfolding check_can_modify
other_provider = refl

check_can_modify_iff_example :
    ((check_can_modify env acme was_member).0 ≡ some (ok tt)) ↔ Allowed env acme was_member
check_can_modify_iff_example = check_can_modify_iff env acme was_member
