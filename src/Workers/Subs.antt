-- ===== src/Workers/Subs.antt =====
-- What the consumers of pkg/api/workers/primaryqueue/subs share: the subscriptions table, the
-- users table, and the payment gateway. The gateway is a service outside the repository: its
-- answers are parameters, and the calls that it receives are kept in order.
pub mod Updater
pub mod Creator
pub mod Deleter
use golangci_api.Base.{
  ℕ, String, Bool, true, false, ◌&&◌, ◌||◌, if◌then◌else◌, List, Option, none, some, ◌==◌,
}
use golangci_api.Base.Int.{ℤ}
use golangci_api.Errors.{Error, Result, wrap, permanent, is_record_not_found}
use golangci_api.Sql.{Sql}
use golangci_api.Models.OrgSub.{OrgSub, CommitState, is_live, same_state}

-- pkg/api/models/user.go
pub record User : Type 0 where
  pub id : ℕ
  pub deleted_at : Option ℕ
  pub email : String

abbrev pub user_is_live : User → Bool
user_is_live u = elim u.deleted_at [ none ↦ true | some t ↦ false ]

pub data GatewayCall : Type 0 where
  create_customer : String → String → GatewayCall
  create_subscription : String → ℤ → GatewayCall
  update_subscription : String → String → ℤ → String → GatewayCall
  delete_subscription : String → String → GatewayCall

-- paymentproviders.Factory and paymentprovider.Provider: what each call answers.
pub record Gateway : Type 0 where
  pub build : String → Result (Unit {0})
  pub customer : String → String → Result String
  pub subscription : String → ℤ → Result String
  pub update : String → String → ℤ → String → Result (Unit {0})
  pub delete : String → String → Result (Unit {0})

pub record Billing : Type 0 where
  pub rows : List OrgSub
  pub calls : List GatewayCall

pub record Env : Type 0 where
  pub sub_db : Sql OrgSub
  pub user_db : Sql User
  pub users : List User
  pub gateway : Gateway
  pub now : ℕ
  pub connect : Result (Unit {0})  -- gormdb.FromSQL

-- The filters and assignments of the consumers' queries.
abbrev pub with_id : ℕ → OrgSub → Bool
with_id i r = r.id == i && is_live r

abbrev pub in_states : ℕ → CommitState → CommitState → OrgSub → Bool
in_states i s t r =
    r.id == i && (is_live r && (same_state r.commit_state s || same_state r.commit_state t))

abbrev pub set_commit_state : CommitState → OrgSub → OrgSub
set_commit_state s r = record r { commit_state = s }

-- A row that is missing is a permanent error: the message is dropped from the queue.
abbrev pub fetch_error : Error → Error
fetch_error e = if is_record_not_found e then wrap permanent else wrap e
