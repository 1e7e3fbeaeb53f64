-- ===== src/Workers/PaymentEvents/Asked.antt =====
-- What the type of an event asks for, and that the processor does it.
use mathlib.Core.List.Memᴰ.{Memᴰ}
use golangci_api.Base.{
  ℕ, String, ◌≡◌, refl, sym, ◌∙◌, inl, inr, ◌++◌, List, [], ◌∷◌, some, none, ◌==◌, ◌&&◌, true,
  str_eq, eq_iff, &&-left, &&-right,
}
use golangci_api.Errors.{ok, wrapped, >>=-eq-ok, wrapped-eq-ok, ok-injective}
use golangci_api.Sql.{update_where, first-eq-ok, updates-eq-ok, first_where-Memᴰ, first_where-holds}
use golangci_api.Models.Org.{Org}
use golangci_api.Models.Org as OrgModel
use golangci_api.Models.OrgSub.{OrgSub, create_done, is_live}
use golangci_api.Workers.PaymentEvents.{
  Env, EventType, sub_created, sub_cancelled, sub_payment_succeeded, sub_payment_failed,
  sub_updated, new_audience_member, high_risk_transaction_created, high_risk_transaction_updated,
  Form, PassthroughData, of_name, with_gateway_id, with_id, set_deleted, new_sub, get_org_id,
  process_sub_created_event, process_sub_cancelled_event, process_type,
}

-- The live organization that the passthrough names.
abbrev pub Named : Env → PassthroughData → Org → Type 0
Named v p org =
    Memᴰ org v.orgs
    × (org.provider ≡ p.org_provider)
    × (org.name ≡ p.org_name)
    × (OrgModel.is_live org ≡ true)

-- The subscription that the event has paid for.
abbrev pub PaidFor : Form → String → PassthroughData → Org → OrgSub → Type 0
PaidFor f uuid p org s =
    (s.org_id ≡ org.id)
    × (s.billing_user_id ≡ p.user_id)
    × (s.payment_gateway_name ≡ "paddle")
    × (s.payment_gateway_subscription_id ≡ f.subscription_id)
    × (s.seats_count ≡ f.quantity)
    × (s.price_per_seat ≡ f.unit_price)
    × (s.cancel_url ≡ f.cancel_url)
    × (s.idempotency_key ≡ uuid)
    × (s.commit_state ≡ create_done)
    × (s.deleted_at ≡ none)

-- One row is added, for the organization and the user of the passthrough.
abbrev pub SubAdded : Env → Form → String → List OrgSub → List OrgSub → Type 0
SubAdded v f uuid subs subs' =
    (p : PassthroughData) × (org : Org) × (s : OrgSub) × (f.passthrough ≡ ok p)
    × Named v p org
    × PaidFor f uuid p org s
    × (subs' ≡ subs ++ s ∷ [])

-- The live subscription with the event's id is marked as deleted, and no row of another id changes.
abbrev pub SubCancelled : Env → Form → List OrgSub → List OrgSub → Type 0
SubCancelled v f subs subs' =
    (s : OrgSub) × Memᴰ s subs
    × (s.payment_gateway_subscription_id ≡ f.subscription_id)
    × (is_live s ≡ true)
    × (subs'
        ≡ update_where (λ x. x.id == s.id && is_live x) (λ x. record x { deleted_at = some v.now })
            subs)

-- What an event of the type asks for.
abbrev pub Asked : Env → EventType → Form → String → List OrgSub → List OrgSub → Type 0
Asked v sub_created f uuid subs subs' = SubAdded v f uuid subs subs'
Asked v sub_cancelled f uuid subs subs' = SubCancelled v f subs subs'
Asked v sub_payment_succeeded f uuid subs subs' = subs' ≡ subs
Asked v sub_payment_failed f uuid subs subs' = subs' ≡ subs
Asked v sub_updated f uuid subs subs' = subs' ≡ subs
Asked v new_audience_member f uuid subs subs' = subs' ≡ subs
Asked v high_risk_transaction_created f uuid subs subs' = subs' ≡ subs
Asked v high_risk_transaction_updated f uuid subs subs' = subs' ≡ subs

module _ (v : Env) (f : Form) where
  get_org_id-Named :
      {i : ℕ}
      → get_org_id v f ≡ ok i
      → (p : PassthroughData) × (org : Org) × (f.passthrough ≡ ok p) × Named v p org × (org.id ≡ i)
  unfolding get_org_id
  get_org_id-Named h =
      let (p, e₁, h₁) = >>=-eq-ok (wrapped f.passthrough) _ h in
      let (org, e₂, h₂) = >>=-eq-ok (wrapped (v.org_db.first (of_name p) v.orgs)) _ h₁ in
      let found = first-eq-ok v.org_db (of_name p) v.orgs (wrapped-eq-ok _ e₂) in
      let holds = first_where-holds (of_name p) v.orgs found in
      let rest = &&-right (str_eq org.provider p.org_provider) _ holds in
      (
        p,
        org,
        wrapped-eq-ok _ e₁,
        (
          first_where-Memᴰ (of_name p) v.orgs found,
          (eq_iff org.provider p.org_provider).0
              (&&-left (str_eq org.provider p.org_provider) _ holds),
          (eq_iff org.name p.org_name).0 (&&-left (str_eq org.name p.org_name) _ rest),
          &&-right (str_eq org.name p.org_name) _ rest,
        ),
        ok-injective h₂,
      )

  process_sub_created_event-SubAdded :
      (uuid : String) (subs : List OrgSub) {subs' : List OrgSub}
      → process_sub_created_event v f uuid subs ≡ ok subs'
      → SubAdded v f uuid subs subs'
  unfolding process_sub_created_event
  process_sub_created_event-SubAdded uuid subs {subs'} h =
      let (i, e₁, h₁) = >>=-eq-ok (wrapped (get_org_id v f)) _ h in
      let (p, e₂, h₂) = >>=-eq-ok (wrapped (wrapped f.passthrough)) _ h₁ in
      let (p', org, q, named, is_id) = get_org_id-Named (wrapped-eq-ok _ e₁) in
      let same : p' ≡ p = ok-injective (sym q ∙ wrapped-eq-ok _ (wrapped-eq-ok _ e₂)) in
      let made = wrapped-eq-ok (v.create_sub (new_sub v.now uuid f i p.user_id) subs) h₂ in
      elim (v.create_sub_law (new_sub v.now uuid f i p.user_id) subs) [
        | inr (x, e) ↦ cc
        | inl (n, e) ↦ (
          p',
          org,
          record (new_sub v.now uuid f i p.user_id) { id = n },
          q,
          named,
          (sym is_id, rw same refl, refl, refl, refl, refl, refl, refl, refl, refl),
          ok-injective (sym made ∙ e),
        )
      ]

  process_sub_cancelled_event-SubCancelled :
      (subs : List OrgSub) {subs' : List OrgSub}
      → process_sub_cancelled_event v f subs ≡ ok subs'
      → SubCancelled v f subs subs'
  unfolding process_sub_cancelled_event
  process_sub_cancelled_event-SubCancelled subs h =
      let (s, e₁, h₁) =
        >>=-eq-ok (wrapped (v.sub_db.first (with_gateway_id f.subscription_id) subs)) _ h in
      let ((n, t), e₂, h₂) =
        >>=-eq-ok (wrapped (v.sub_db.updates (with_id s.id) (set_deleted v.now) subs)) _ h₁ in
      let found =
        first-eq-ok v.sub_db (with_gateway_id f.subscription_id) subs (wrapped-eq-ok _ e₁) in
      let holds = first_where-holds (with_gateway_id f.subscription_id) subs found in
      (
        s,
        first_where-Memᴰ (with_gateway_id f.subscription_id) subs found,
        (eq_iff s.payment_gateway_subscription_id f.subscription_id).0
            (&&-left (str_eq s.payment_gateway_subscription_id f.subscription_id) _ holds),
        &&-right (str_eq s.payment_gateway_subscription_id f.subscription_id) _ holds,
        sym (ok-injective h₂)
            ∙ (updates-eq-ok v.sub_db (with_id s.id) (set_deleted v.now) subs
                (wrapped-eq-ok _ e₂)).1,
      )

  pub process_type-Asked :
      (type : EventType) (uuid : String) (subs : List OrgSub) {subs' : List OrgSub}
      → process_type v type f uuid subs ≡ ok subs'
      → Asked v type f uuid subs subs'
  unfolding process_type
  process_type-Asked sub_created uuid subs h =
      process_sub_created_event-SubAdded uuid subs (wrapped-eq-ok _ h)
  process_type-Asked sub_cancelled uuid subs h =
      process_sub_cancelled_event-SubCancelled subs (wrapped-eq-ok _ h)
  process_type-Asked sub_payment_succeeded uuid subs h = sym (ok-injective h)
  process_type-Asked sub_payment_failed uuid subs h = sym (ok-injective h)
  process_type-Asked sub_updated uuid subs h = sym (ok-injective h)
  process_type-Asked new_audience_member uuid subs h = sym (ok-injective h)
  process_type-Asked high_risk_transaction_created uuid subs h = sym (ok-injective h)
  process_type-Asked high_risk_transaction_updated uuid subs h = sym (ok-injective h)
