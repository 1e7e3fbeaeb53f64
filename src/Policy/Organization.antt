-- ===== src/Policy/Organization.antt =====
-- pkg/api/policy/organization.go and org_fetcher.go: who may see and change the settings of an
-- organization. The membership comes from a cache, which is read again from the provider if the
-- cached one is not an administrator's.
pub mod Access
pub mod Examples
use golangci_api.Base.{
  ℕ, String, Bool, true, false, Option, none, some, ◌==◌, str_eq, if◌then◌else◌,
}
use golangci_api.Errors.{
  Error, Result, ok, err, wrap, cause, message, provider_not_found, not_org_admin, not_org_member,
}
use golangci_api.Models.Org.{Org, is_fake}

-- provider.OrgMembership
pub record OrgMembership : Type 0 where
  pub id : ℕ
  pub is_admin : Bool

-- What the cache holds under the key of the caller and the organization.
abbrev pub Cache : Type 0
Cache = Option OrgMembership

-- The caller's id at the provider, the configuration's flag, the provider and the cache server.
pub record Env : Type 0 where
  pub provider_user_id : ℕ
  pub member_can_modify_org : Bool
  pub build_provider : Result (Unit {0})
  pub provider_name : String
  pub get_org_membership_by_name : String → Result OrgMembership
  pub cache_get : Cache → Result (Option OrgMembership)
  pub cache_set : OrgMembership → Cache → Cache

abbrev pub FetchOutcome : Type 0
FetchOutcome = Result (OrgMembership × Bool) × Cache

abbrev pub is_cause_not_found : Error → Bool
is_cause_not_found e = elim (cause e) [ provider_not_found ↦ true | _ ↦ false ]

module _ (v : Env) (org : Org) where
  -- fetchFromProvider, then the cache
  abbrev pub stored : Result OrgMembership → Cache → FetchOutcome
  stored (err e) c = (err (wrap e), c)
  stored (ok om) c = (ok (om, false), v.cache_set om c)

  -- fetchCached with useCache = false
  abbrev pub fetch_fresh : Cache → FetchOutcome
  fetch_fresh c = stored (v.get_org_membership_by_name org.name) c

  -- fetchCached with useCache = true; the answer of a provider that stands in for a broken cache is
  -- not stored
  abbrev pub not_stored : Result OrgMembership → Cache → FetchOutcome
  not_stored (err e) c = (err (wrap e), c)
  not_stored (ok om) c = (ok (om, false), c)

  abbrev pub cached_or_fresh : Result (Option OrgMembership) → Cache → FetchOutcome
  cached_or_fresh (err e) c = not_stored (v.get_org_membership_by_name org.name) c
  cached_or_fresh (ok (some om)) c = (ok (om, true), c)
  cached_or_fresh (ok none) c = fetch_fresh c

  abbrev pub fetch_cached : Cache → FetchOutcome
  fetch_cached c = cached_or_fresh (v.cache_get c) c

  -- the second read, which falls back to the cached membership
  abbrev pub refetched : OrgMembership → FetchOutcome → Result OrgMembership × Cache
  refetched om (err e, c) = (ok om, c)
  refetched om (ok (om', b), c) = (ok om', c)

  -- the outcome of checkCachedAdminMembership on a cached membership
  abbrev pub rechecked : Bool → OrgMembership → Cache → Result OrgMembership × Cache
  rechecked true om c = (ok om, c)
  rechecked false om c = refetched om (fetch_fresh c)

  abbrev pub checked : FetchOutcome → Result OrgMembership × Cache
  checked (err e, c) = (err (wrap e), c)
  checked (ok (om, false), c) = (ok om, c)
  checked (ok (om, true), c) = rechecked om.is_admin om c

  abbrev pub fetch : Cache → Result OrgMembership × Cache
  fetch c = checked (fetch_cached c)

  abbrev pub check_personal_org : Result (Unit {0})
  check_personal_org =
      if v.provider_user_id == org.provider_personal_user_id
      then ok tt
      else err (message "this is a personal org and this user doesn't own it")

  abbrev pub admin_verdict : Result OrgMembership × Cache → Option (Result (Unit {0})) × Cache
  admin_verdict (err e, c) = (some (err (if is_cause_not_found e then not_org_admin else e)), c)
  admin_verdict (ok om, c) = (some (if om.is_admin then ok tt else err not_org_admin), c)

  abbrev pub member_verdict : Result OrgMembership × Cache → Option (Result (Unit {0})) × Cache
  member_verdict (err e, c) = (some (err (if is_cause_not_found e then not_org_member else e)), c)
  member_verdict (ok om, c) = (some (ok tt), c)

  -- buildProvider. If the provider's name is another one, `errors.Wrapf` of no error returns no
  -- provider and no error; the first call of that provider panics, which is `none`.
  abbrev pub with_provider :
      (Cache → Option (Result (Unit {0})) × Cache)
      → Result (Unit {0})
      → Cache
      → Option (Result (Unit {0})) × Cache
  with_provider rest (err e) c = (some (err (wrap e)), c)
  with_provider rest (ok _) c = if str_eq v.provider_name org.provider then rest c else (none, c)

  pub check_is_admin : Cache → Option (Result (Unit {0})) × Cache
  check_is_admin c =
      if is_fake org
      then (some check_personal_org, c)
      else with_provider (λ c₁. admin_verdict (fetch c₁)) v.build_provider c

  pub check_is_member : Cache → Option (Result (Unit {0})) × Cache
  check_is_member c =
      if is_fake org
      then (some check_personal_org, c)
      else with_provider (λ c₁. member_verdict (fetch c₁)) v.build_provider c

  -- by the flag PROVIDER_ORG_MEMBER_CAN_MODIFY_ORG
  pub check_access : Bool → Cache → Option (Result (Unit {0})) × Cache
  unfolding check_is_admin check_is_member
  check_access true c = check_is_member c
  check_access false c = check_is_admin c

  unfoldable pub check_can_modify : Cache → Option (Result (Unit {0})) × Cache
  unfolding check_access
  check_can_modify c = check_access v.member_can_modify_org c
