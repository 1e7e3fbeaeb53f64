-- ===== src/Subscription.antt =====
-- pkg/api/services/subscription/service.go: reading and changing a subscription. `Update` checks
-- the caller's versions, marks the row, and sends a message to the update queue of
-- pkg/api/workers/primaryqueue/subs/updater.go.
pub mod Examples
pub mod Lookup
pub mod Effects
pub mod Requests
use golangci_api.Base.{ℕ, String, Bool, ◌&&◌, List, [], ◌∷◌, ◌++◌, ◌==◌, str_eq}
use golangci_api.Base.Int.{ℤ}
use golangci_api.Errors.{
  Error, Result, ok, err, wrap, wrapped, guard, race_condition, message, ◌>>=◌, ◌>>◌,
}
use golangci_api.Sql.{Sql}
use golangci_api.Models.OrgSub.{
  OrgSub, CommitState, create_done, update_init, update_sent_to_queue, update_done, same_state,
  next_version, is_live, update_required,
}
use golangci_api.Models.Org.{Org}
use golangci_api.Models.Org as OrgModel

pub record UpdatePayload : Type 0 where
  pub seats_count : ℤ
  pub org_version : ℕ
  pub version : ℕ

-- subs.updateMessage
pub record UpdateMessage : Type 0 where
  pub sub_id : ℕ
  pub card_token : String
  pub seats_count : ℤ

-- The subscriptions table, and the messages that the queue has accepted, oldest first.
pub record Subs : Type 0 where
  pub rows : List OrgSub
  pub sent : List UpdateMessage

-- What the service calls: the two tables' server, the policy, and the queue.
pub record Deps : Type 0 where
  pub org_db : Sql Org
  pub sub_db : Sql OrgSub
  pub check_can_modify : Org → Result (Unit {0})
  pub put : UpdateMessage → Result (Unit {0})

-- UpdaterProducer.Put, through Base.Put
abbrev pub update_message : ℕ → ℤ → UpdateMessage
update_message id seats = record { sub_id = id; card_token = ""; seats_count = seats }

-- The filters and the assignments of the queries below.
abbrev pub named : String → String → Org → Bool
named name provider o = str_eq o.name name && (str_eq o.provider provider && OrgModel.is_live o)

abbrev pub of_org : ℕ → OrgSub → Bool
of_org i r = r.org_id == i && is_live r

abbrev pub in_state : ℕ → CommitState → OrgSub → Bool
in_state i s r = r.id == i && (is_live r && same_state r.commit_state s)

abbrev pub unchanged_since : OrgSub → OrgSub → Bool
unchanged_since sub r =
    r.id == sub.id
    && (is_live r && (same_state r.commit_state sub.commit_state && r.version == sub.version))

abbrev pub set_commit_state : CommitState → OrgSub → OrgSub
set_commit_state s r = record r { commit_state = s }

abbrev pub set_state_and_version : CommitState → ℕ → OrgSub → OrgSub
set_state_and_version s v r = record r { commit_state = s; version = v }

module _ (d : Deps) where
  -- `Update()` reports the database's error only; that no row was changed is not looked at.
  unfoldable pub finish_queue_sending :
      OrgSub → CommitState → CommitState → Subs → Result (Unit {0}) × Subs
  finish_queue_sending sub exp_state set_state w =
      elim (d.sub_db.updates (in_state sub.id exp_state) (set_commit_state set_state) w.rows) [
        | ok (n, rows) ↦ (ok tt, record w { rows = rows })
        | err e ↦ (err (wrap e), w)
      ]

  pub send_to_update_queue : OrgSub → UpdatePayload → Subs → Result (Unit {0}) × Subs
  unfolding finish_queue_sending
  send_to_update_queue sub p w = elim (d.put (update_message sub.id p.seats_count)) [
    | ok _ ↦
        finish_queue_sending sub update_init update_sent_to_queue
          (record w { sent = w.sent ++ update_message sub.id p.seats_count ∷ [] })
    | err e ↦ (err (wrap e), w)
  ]

  pub get_sub_for_update : List Org → String → String → UpdatePayload → Subs → Result OrgSub
  get_sub_for_update orgs name provider p w = do
    org ← wrapped (d.org_db.first (named name provider) orgs)
    guard (org.version == p.org_version) race_condition
    wrapped (d.check_can_modify org)
    sub ← wrapped (d.sub_db.first (of_org org.id) w.rows)
    guard (sub.version == p.version) race_condition
    ok sub

  pub start_update : OrgSub → UpdatePayload → Subs → Result (Unit {0}) × Subs
  unfolding send_to_update_queue
  start_update sub p w =
      elim (update_required (
        d.sub_db.updates (unchanged_since sub)
          (set_state_and_version update_init (next_version sub.version)) w.rows)) [
            | ok rows ↦
                send_to_update_queue (record sub { version = next_version sub.version }) p
                  (record w { rows = rows })
            | err e ↦ (err (wrap e), w)
          ]

  -- the `switch sub.CommitState`
  pub dispatch_update : CommitState → OrgSub → UpdatePayload → Subs → Result (Unit {0}) × Subs
  unfolding start_update
  dispatch_update create_done sub p w = start_update sub p w
  dispatch_update update_done sub p w = start_update sub p w
  dispatch_update update_init sub p w = send_to_update_queue sub p w
  dispatch_update update_sent_to_queue sub p w = (ok tt, w)
  dispatch_update _ sub p w = (err (message "invalid sub commit state"), w)

  pub update : List Org → String → String → UpdatePayload → Subs → Result (Unit {0}) × Subs
  unfolding get_sub_for_update dispatch_update
  update orgs name provider p w = elim (get_sub_for_update orgs name provider p w) [
    | ok sub ↦ dispatch_update sub.commit_state sub p w
    | err e ↦ (err (wrap e), w)
  ]
