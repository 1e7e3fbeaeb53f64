-- ===== src/Models/OrgSub.antt =====
-- pkg/api/models/org_sub.go: a paid subscription of an organization and its commit state.
-- Go's `int` version is its 64-bit pattern; times are seconds; the free-text columns are texts.
use golangci_api.Base.{
  ℕ, ◌+◌, ◌%◌, ◌^◌, String, Bool, true, false, not, ◌&&◌, ◌||◌, Option, none, some, ◌==◌,
  if◌then◌else◌,
}
use golangci_api.Base.Int.{ℤ}
use golangci_api.Errors.{Result, ok, err, race_condition}

pub data CommitState : Type 0 where
  create_init create_sent_to_queue create_done : CommitState
  update_init update_sent_to_queue update_done : CommitState
  delete_init delete_sent_to_queue delete_done : CommitState

-- The place in the `const` block; two states are one string exactly if they have one place.
abbrev pub place : CommitState → ℕ
place create_init = 0
place create_sent_to_queue = 1
place create_done = 2
place update_init = 3
place update_sent_to_queue = 4
place update_done = 5
place delete_init = 6
place delete_sent_to_queue = 7
place delete_done = 8

abbrev pub same_state : CommitState → CommitState → Bool
same_state s t = place s == place t

abbrev pub is_delete_state : CommitState → Bool
is_delete_state s =
    same_state s delete_init || same_state s delete_sent_to_queue || same_state s delete_done

abbrev pub is_create_state : CommitState → Bool
is_create_state s =
    same_state s create_init || same_state s create_sent_to_queue || same_state s create_done

abbrev pub is_update_state : CommitState → Bool
is_update_state s =
    same_state s update_init || same_state s update_sent_to_queue || same_state s update_done

abbrev pub is_done : CommitState → Bool
is_done s = same_state s create_done || same_state s delete_done || same_state s update_done

pub record OrgSub : Type 0 where
  pub id : ℕ
  pub created_at : ℕ
  pub deleted_at : Option ℕ
  pub payment_gateway_name : String
  pub payment_gateway_card_token : String
  pub payment_gateway_customer_id : String
  pub payment_gateway_subscription_id : String
  pub billing_user_id : ℕ
  pub org_id : ℕ
  pub seats_count : ℤ
  pub price_per_seat : String
  pub commit_state : CommitState
  pub idempotency_key : String
  pub version : ℕ
  pub cancel_url : String

abbrev pub is_deleting : OrgSub → Bool
is_deleting s = is_delete_state s.commit_state && not (is_done s.commit_state)

abbrev pub is_creating : OrgSub → Bool
is_creating s = is_create_state s.commit_state && not (is_done s.commit_state)

abbrev pub is_updating : OrgSub → Bool
is_updating s = is_update_state s.commit_state && not (is_done s.commit_state)

abbrev pub is_active : OrgSub → Bool
is_active s =
    is_done s.commit_state && (is_create_state s.commit_state || is_update_state s.commit_state)

-- `sub.Version + 1` on a 64-bit word.
abbrev pub next_version : ℕ → ℕ
next_version v = (v + 1) % 2 ^ 64

-- Queries but for `Unscoped()` see the rows with no deletion time.
abbrev pub is_live : OrgSub → Bool
is_live s = elim s.deleted_at [ none ↦ true | some t ↦ false ]

abbrev pub key : OrgSub → ℕ
key s = s.id

-- OrgSubUpdater.UpdateRequired, over the outcome of `UpdateNum`.
abbrev pub update_required {ℓ} : {T : Type ℓ} → Result (ℕ × T) → Result T
update_required (ok (n, t)) = if n == 0 then err race_condition else ok t
update_required (err e) = err e
