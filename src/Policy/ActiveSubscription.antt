-- ===== src/Policy/ActiveSubscription.antt =====
-- pkg/api/policy/active_subscription.go: whether a private repository may be connected, and
-- whether a pull request may be analyzed, by the paid subscription of the organization.
pub mod Seats
pub mod Verdict
pub mod Panic
pub mod Examples
use golangci_api.Base.{
  ℕ, String, Bool, true, false, ◌||◌, not, List, [], ◌∷◌, Option, none, some, ◌==◌, ltb, str_eq,
  if◌then◌else◌, length, take,
}
use golangci_api.Base.Int.{ℤ, pos, negsuc, is_zero}
use golangci_api.Errors.{
  Error, Result, ok, err, wrap, wrapped, is_record_not_found, no_active_subscription,
  no_seat_in_subscription,
}
use golangci_api.Sql.{Sql}
use golangci_api.Models.Org.{Org, OrgSeat, for_provider_repo}
use golangci_api.Models.Org as OrgModel
use golangci_api.Models.OrgSub.{OrgSub, is_live, is_active}

-- provider.Repo and provider.PullRequestEvent, as far as the policies and services read them
pub record ProviderRepo : Type 0 where
  pub id : ℕ
  pub full_name : String
  pub is_admin : Bool
  pub organization : String
  pub owner_id : ℕ
  pub is_private : Bool

pub record PullRequestEvent : Type 0 where
  pub repo : ProviderRepo
  pub pull_request_number : ℕ
  pub action : String
  pub head_commit_sha : String

pub record CommitAuthor : Type 0 where
  pub email : String

pub record Commit : Type 0 where
  pub sha : String
  pub author : CommitAuthor
  pub committer : CommitAuthor

-- The tables and their servers, the configuration's flag, the provider's name and its list of
-- commits, strings.EqualFold, and encoding/json on the settings of an organization.
pub record Env : Type 0 where
  pub org_db : Sql Org
  pub sub_db : Sql OrgSub
  pub orgs : List Org
  pub subs : List OrgSub
  pub need_check_active_subscriptions : Bool
  pub provider_name : String
  pub list_pull_request_commits : ProviderRepo → ℕ → Result (List Commit)
  pub equal_fold : String → String → Bool
  pub unmarshal_settings : Org → Result (List OrgSeat)

abbrev pub of_repo : String → ProviderRepo → Org → Bool
of_repo provider_name pr o =
    if for_provider_repo provider_name pr.organization pr.owner_id o
    then OrgModel.is_live o
    else false

abbrev pub of_org : ℕ → OrgSub → Bool
of_org i s = if s.org_id == i then is_live s else false

abbrev pub is_no_active_subscription : Error → Bool
is_no_active_subscription no_active_subscription = true
is_no_active_subscription _ = false

-- the keys of serviceEmails
abbrev pub is_service_email : String → Bool
is_service_email email = str_eq email "bot@renovateapp.com" || str_eq email "noreply@github.com"

-- `seats[:sub.SeatsCount]` panics, which is `none`, if the count is negative.
abbrev pub build_paid_seats : List OrgSeat → OrgSub → Option (List OrgSeat)
build_paid_seats seats sub = elim sub.seats_count [
  | negsuc n ↦ none
  | pos n ↦ some (if ltb n (length seats) then take n seats else seats)
]

-- checkExistingOrgSubscription, on the outcome of its query
abbrev pub accept_existing : Result OrgSub → Result OrgSub
accept_existing (err e) = err (if is_record_not_found e then no_active_subscription else wrap e)
accept_existing (ok sub) =
    if not (is_active sub)
    then err no_active_subscription
    else if is_zero sub.seats_count
    then err no_active_subscription
    else ok sub

abbrev pub with_sub : Org → Result OrgSub → Result (Org × OrgSub)
with_sub org (err e) = err (if is_no_active_subscription e then e else wrap e)
with_sub org (ok sub) = ok (org, sub)

-- `_, _, err := …; return err`
abbrev pub only_error : Result (Org × OrgSub) → Result (Unit {0})
only_error (err e) = err e
only_error (ok _) = ok tt

module _ (v : Env) where
  abbrev pub check_existing_org_subscription : Org → Result OrgSub
  check_existing_org_subscription org = accept_existing (v.sub_db.first (of_org org.id) v.subs)

  abbrev pub with_org : Result Org → Result (Org × OrgSub)
  with_org (err e) = err (if is_record_not_found e then no_active_subscription else wrap e)
  with_org (ok org) = with_sub org (check_existing_org_subscription org)

  pub get_active_sub : ProviderRepo → Result (Org × OrgSub)
  get_active_sub pr = with_org (v.org_db.first (of_repo v.provider_name pr) v.orgs)

  unfoldable pub check_for_provider_repo : ProviderRepo → Result (Unit {0})
  unfolding get_active_sub
  check_for_provider_repo pr =
      if v.need_check_active_subscriptions then only_error (get_active_sub pr) else ok tt

  abbrev pub has_seat : CommitAuthor → List OrgSeat → Bool
  has_seat ca [] = false
  has_seat ca (s ∷ seats) = if v.equal_fold s.email ca.email then true else has_seat ca seats

  abbrev pub does_commit_author_have_active_sub : CommitAuthor → List OrgSeat → Bool
  does_commit_author_have_active_sub ca seats =
      if str_eq ca.email ""
      then false
      else if is_service_email ca.email
      then true
      else has_seat ca seats

  -- the loop over the commits
  abbrev pub check_commits : List Commit → List OrgSeat → Result (Unit {0})
  check_commits [] seats = err no_seat_in_subscription
  check_commits (c ∷ commits) seats =
      if does_commit_author_have_active_sub c.author seats
      then ok tt
      else if does_commit_author_have_active_sub c.committer seats
      then ok tt
      else check_commits commits seats

  -- `none` is the panic of buildPaidSeats.
  abbrev pub check_paid : List Commit → Option (List OrgSeat) → Option (Result (Unit {0}))
  check_paid commits none = none
  check_paid commits (some seats) = some (check_commits commits seats)

  abbrev pub with_settings :
      OrgSub → List Commit → Result (List OrgSeat) → Option (Result (Unit {0}))
  with_settings sub commits (err e) = some (err (wrap (wrap e)))
  with_settings sub commits (ok seats) = check_paid commits (build_paid_seats seats sub)

  abbrev pub with_commits : Org → OrgSub → Result (List Commit) → Option (Result (Unit {0}))
  with_commits org sub (err e) = some (err (wrap e))
  with_commits org sub (ok commits) = with_settings sub commits (v.unmarshal_settings org)

  abbrev pub with_active_sub : PullRequestEvent → Result (Org × OrgSub) → Option (Result (Unit {0}))
  with_active_sub ev (err e) = some (err e)
  with_active_sub ev (ok (org, sub)) =
      with_commits org sub (v.list_pull_request_commits ev.repo ev.pull_request_number)

  unfoldable pub check_for_provider_pull_request_event :
      PullRequestEvent → Option (Result (Unit {0}))
  unfolding get_active_sub
  check_for_provider_pull_request_event ev = with_active_sub ev (get_active_sub ev.repo)
