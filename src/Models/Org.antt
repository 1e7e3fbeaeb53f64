-- ===== src/Models/Org.antt =====
-- pkg/api/models/org.go: an organization. The settings are the decoded JSON.
use golangci_api.Base.{ℕ, String, Bool, true, false, ◌&&◌, List, Option, none, some, ◌==◌, str_eq}
use golangci_api.Base.{if◌then◌else◌, ◌+◌, ◌%◌, ◌^◌}
use golangci_api.Errors.{Result, ok, err, race_condition}

pub record OrgSeat : Type 0 where
  pub email : String

pub record Org : Type 0 where
  pub id : ℕ
  pub deleted_at : Option ℕ
  pub name : String
  pub display_name : String
  pub provider : String
  pub provider_id : ℕ
  pub provider_personal_user_id : ℕ
  pub settings : List OrgSeat
  pub version : ℕ

abbrev pub is_live : Org → Bool
is_live o = elim o.deleted_at [ none ↦ true | some t ↦ false ]

abbrev pub is_fake : Org → Bool
is_fake o = if o.provider_personal_user_id == 0 then false else true

-- OrgQuerySet.ForProviderRepo
abbrev pub for_provider_repo : String → String → ℕ → Org → Bool
for_provider_repo provider_name org_name owner_id o =
    str_eq o.provider provider_name
    && (if str_eq org_name ""
        then o.provider_personal_user_id == owner_id
        else o.provider_id == owner_id)

abbrev pub key : Org → ℕ
key o = o.id

-- `org.Version + 1` on a 64-bit word.
abbrev pub next_version : ℕ → ℕ
next_version v = (v + 1) % 2 ^ 64

-- OrgUpdater.UpdateRequired, over the outcome of `UpdateNum`.
abbrev pub update_required {ℓ} : {T : Type ℓ} → Result (ℕ × T) → Result T
update_required (ok (n, t)) = if n == 0 then err race_condition else ok t
update_required (err e) = err e
