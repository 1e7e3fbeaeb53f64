-- ===== src/Workers/Subs/Creator/Effects.antt =====
-- What the create consumer changes, and that it creates nothing twice.
use golangci_api.Base.{
  ℕ, ◌≡◌, refl, inl, inr, Bool, true, false, some, arith, ◌==◌, sym, subst, Bool-cases, String,
  if◌then◌else◌, &&-right, &&-left, ==_iff, str_eq, ◌∙◌, ◌&&◌,
}
use golangci_api.Base.Int.{ℤ}
use golangci_api.Errors.{message, Result, ok, err}
use golangci_api.Sql.{
  row_at, Unique, count_where, update_where, first_where, first_where-row_at, first_where-holds,
  first-eq-ok, row_at-update_where, update_where-Unique,
}
use golangci_api.Models.OrgSub.{OrgSub, create_done, is_live, key}
use golangci_api.Workers.Subs.{Env, Billing, User, user_is_live, with_id, set_commit_state}
use golangci_api.Workers.Subs.Creator.{
  customer_error, customer_call, subscription_call, set_customer, set_subscription, store_field,
  call_customer, make_customer, make_subscription, ensure_customer, ensure_subscription,
  finish_create, create_remote, run, awaits_create, and_then,
}

-- The gateway names what it has created by texts that are not empty.
pub record GivesNames (v : Env) : Type 0 where
  pub customers :
      (email token : String) {c : String}
      → v.gateway.customer email token ≡ ok c
      → str_eq c "" ≡ false
  pub subscriptions :
      (customer : String) (seats : ℤ) {s : String}
      → v.gateway.subscription customer seats ≡ ok s
      → str_eq s "" ≡ false

abbrev pub HasCustomer : OrgSub → Type 0
HasCustomer s = str_eq s.payment_gateway_customer_id "" ≡ false

abbrev pub HasNames : OrgSub → Type 0
HasNames s = HasCustomer s × (str_eq s.payment_gateway_subscription_id "" ≡ false)

-- The local copy is the row of its id.
abbrev pub InStep : ℕ → OrgSub → Billing → Type 0
InStep id sub w =
    (sub.id ≡ id) × (row_at key id w.rows ≡ some sub) × (is_live sub ≡ true) × Unique key w.rows

abbrev Ensures : ℕ → (OrgSub → Type 0) → Result OrgSub × Billing → Type 0
Ensures id P (ok sub, w) = InStep id sub w × P sub
Ensures id P (err e, w) = Unit {0}

module _ (v : Env) (id : ℕ) where
  store_field-Ensures :
      (P : OrgSub → Type 0) (f : OrgSub → OrgSub) (sub : OrgSub) (w : Billing)
      → ((r : OrgSub) → (f r).id ≡ r.id)
      → ((r : OrgSub) → (f r).deleted_at ≡ r.deleted_at)
      → InStep id sub w
      → P (f sub)
      → Ensures id P (store_field v id f sub w)
  unfolding store_field
  store_field-Ensures P f sub w keep live (i, at, l, u) h =
      elim (v.sub_db.updates_law (with_id id) f w.rows) [
        | inl e ↦ rw (e, store_field) (go (count_where (with_id id) w.rows == 1))
        | inr (x, e) ↦ rw (e, store_field) tt
      ]
    where
      at' : row_at key id (update_where (with_id id) f w.rows) ≡ some (f sub)
      at' =
          rw (row_at-update_where key (with_id id) f id w.rows keep) (rw at (ground (arith, i, l)))

      go :
          (b : Bool)
          → Ensures id P (
              if b then (ok (f sub), record w { rows = update_where (with_id id) f w.rows }) else (
                err (message "no rows were updated"),
                record w { rows = update_where (with_id id) f w.rows },
              ))
      go true = (
        (keep sub ∙ i, at', ground (arith, live sub, l), update_where-Unique key _ f w.rows keep u),
        h,
      )
      go false = tt

module _ (v : Env) (g : GivesNames v) (id : ℕ) where
  make_customer-Ensures :
      (sub : OrgSub) (w : Billing)
      → InStep id sub w
      → Ensures id HasCustomer (make_customer v sub w)
  unfolding make_customer call_customer
  make_customer-Ensures sub w st =
      fetch (v.user_db.first (λ u. u.id == sub.billing_user_id && user_is_live u) v.users) refl
    where
      call :
          (u : User) (r : Result String)
          → v.gateway.customer u.email sub.payment_gateway_card_token ≡ r
          → Ensures id HasCustomer (elim r [
            | err e ↦ (err (customer_error e), customer_call u sub w)
            | ok c ↦ store_field v sub.id (set_customer c) sub (customer_call u sub w)
          ])
      call u (err x) e = tt
      call u (ok c) e =
          subst
            (λ j.
              Ensures id HasCustomer (store_field v j (set_customer c) sub (customer_call u sub w)))
            (sym st.0)
            (store_field-Ensures v id HasCustomer (set_customer c) sub (customer_call u sub w)
              (λ r. refl) (λ r. refl) st (g.customers u.email sub.payment_gateway_card_token e))

      email :
          (u : User) (b : Bool)
          → str_eq u.email "" ≡ b
          → Ensures id HasCustomer (call_customer v u sub w)
      email u true e = rw (e, call_customer) tt
      email u false e = rw (e, call_customer) (call u _ refl)

      fetch :
          (r : Result User)
          → v.user_db.first (λ u. u.id == sub.billing_user_id && user_is_live u) v.users ≡ r
          → Ensures id HasCustomer (make_customer v sub w)
      fetch (err x) e = rw (e, make_customer) tt
      fetch (ok u) e = rw (e, make_customer) (email u _ refl)

  ensure_customer-Ensures :
      (sub : OrgSub) (w : Billing)
      → InStep id sub w
      → Ensures id HasCustomer (ensure_customer v sub w)
  unfolding ensure_customer
  ensure_customer-Ensures sub w st = elim (Bool-cases (str_eq sub.payment_gateway_customer_id "")) [
    | inl e ↦ rw (e, ensure_customer) (make_customer-Ensures sub w st)
    | inr e ↦ rw (e, ensure_customer) (st, e)
  ]

  make_subscription-Ensures :
      (sub : OrgSub) (w : Billing)
      → InStep id sub w
      → HasCustomer sub
      → Ensures id HasNames (make_subscription v sub w)
  unfolding make_subscription
  make_subscription-Ensures sub w st h =
      call (v.gateway.subscription sub.payment_gateway_customer_id sub.seats_count) refl
    where
      call :
          (r : Result String)
          → v.gateway.subscription sub.payment_gateway_customer_id sub.seats_count ≡ r
          → Ensures id HasNames (make_subscription v sub w)
      call (err x) e = rw (e, make_subscription) tt
      call (ok s) e =
          rw (e, make_subscription)
            (subst
              (λ j.
                Ensures id HasNames
                  (store_field v j (set_subscription s) sub (subscription_call sub w)))
              (sym st.0)
              (store_field-Ensures v id HasNames (set_subscription s) sub (subscription_call sub w)
                (λ r. refl) (λ r. refl) st
                (h, g.subscriptions sub.payment_gateway_customer_id sub.seats_count e)))

  ensure_subscription-Ensures :
      (sub : OrgSub) (w : Billing)
      → InStep id sub w
      → HasCustomer sub
      → Ensures id HasNames (ensure_subscription v sub w)
  unfolding ensure_subscription
  ensure_subscription-Ensures sub w st h =
      elim (Bool-cases (str_eq sub.payment_gateway_subscription_id "")) [
        | inl e ↦ rw (e, ensure_subscription) (make_subscription-Ensures sub w st h)
        | inr e ↦ rw (e, ensure_subscription) (st, (h, e))
      ]

-- The row of an id is there, with both names.
abbrev pub IsNamed : ℕ → Billing → Type 0
IsNamed id w = (s : OrgSub) × (row_at key id w.rows ≡ some s) × HasNames s × Unique key w.rows

abbrev NamedAfter : ℕ → Result (Unit {0}) × Billing → Type 0
NamedAfter id (ok _, w) = IsNamed id w
NamedAfter id (err e, w) = Unit {0}

named_either :
    (b : Bool) (s : OrgSub)
    → HasNames s
    → HasNames (if b then set_commit_state create_done s else s)
named_either true s h = h
named_either false s h = h

and_then-NamedAfter :
    (id : ℕ) (P : OrgSub → Type 0) (r : Result OrgSub × Billing)
    (k : OrgSub → Billing → Result (Unit {0}) × Billing)
    → Ensures id P r
    → ((s : OrgSub) (w : Billing) → InStep id s w → P s → NamedAfter id (k s w))
    → NamedAfter id (and_then r k)
and_then-NamedAfter id P (ok s, w) k e next = next s w e.0 e.1
and_then-NamedAfter id P (err x, w) k e next = tt

module _ (v : Env) (id : ℕ) where
  finish_create-NamedAfter :
      (sub : OrgSub) (w : Billing)
      → InStep id sub w
      → HasNames sub
      → NamedAfter id (finish_create v sub w)
  unfolding finish_create
  finish_create-NamedAfter sub w (i, at, l, u) h =
      elim (v.sub_db.updates_law (awaits_create sub.id) (set_commit_state create_done) w.rows) [
        | inr (x, e) ↦ rw (e, finish_create) tt
        | inl e ↦
            rw (e, finish_create)
              (
                if awaits_create sub.id sub then set_commit_state create_done sub else sub,
                rw
                    (row_at-update_where key (awaits_create sub.id) (set_commit_state create_done)
                      id w.rows (λ r. refl))
                    (rw at refl),
                named_either (awaits_create sub.id sub) sub h,
                update_where-Unique key _ _ w.rows (λ r. refl) u,
              )
      ]

module _ (v : Env) (g : GivesNames v) (id : ℕ) where
  create_remote-NamedAfter :
      (sub : OrgSub) (w : Billing) → InStep id sub w → NamedAfter id (create_remote v sub w)
  unfolding create_remote
  create_remote-NamedAfter sub w st = build (v.gateway.build "securionpay") refl
    where
      build :
          (r : Result (Unit {0}))
          → v.gateway.build "securionpay" ≡ r
          → NamedAfter id (create_remote v sub w)
      build (err x) e = rw (e, create_remote) tt
      build (ok _) e =
          rw (e, create_remote)
            (and_then-NamedAfter id HasCustomer (ensure_customer v sub w) _
              (ensure_customer-Ensures v g id sub w st)
              λ s₁ w₁ st₁ h₁.
                and_then-NamedAfter id HasNames (ensure_subscription v s₁ w₁) _
                  (ensure_subscription-Ensures v g id s₁ w₁ st₁ h₁)
                  λ s₂ w₂ st₂ h₂. finish_create-NamedAfter v id s₂ w₂ st₂ h₂)

  run-NamedAfter : (w : Billing) → Unique key w.rows → NamedAfter id (run v id w)
  unfolding run
  run-NamedAfter w u = fetch (v.sub_db.first (with_id id) w.rows) refl
    where
      step : (sub : OrgSub) → first_where (with_id id) w.rows ≡ ok sub → InStep id sub w
      step sub f =
          let holds = first_where-holds (with_id id) w.rows f in
          let i : sub.id ≡ id = (==_iff _ _).0 (&&-left _ _ holds) in
          (
            i,
            subst (λ j. row_at key j w.rows ≡ some sub) i
                (first_where-row_at key (with_id id) w.rows u f),
            &&-right (sub.id == id) _ holds,
            u,
          )

      fetch :
          (r : Result OrgSub) → v.sub_db.first (with_id id) w.rows ≡ r → NamedAfter id (run v id w)
      fetch (err x) e = rw (e, run) tt
      fetch (ok sub) e =
          rw (e, run)
            (create_remote-NamedAfter sub w (step sub (first-eq-ok v.sub_db (with_id id) w.rows e)))

  -- Nothing is created for a row that has both names.
  named_no_calls : (w : Billing) → IsNamed id w → (run v id w).1.calls ≡ w.calls
  unfolding run create_remote ensure_customer ensure_subscription finish_create
  named_no_calls w (s, at, (c, n), u) = fetch (v.sub_db.first (with_id id) w.rows) refl
    where
      fetch :
          (r : Result OrgSub)
          → v.sub_db.first (with_id id) w.rows ≡ r
          → (run v id w).1.calls ≡ w.calls
      fetch (err x) e = rw (e, run)
      fetch (ok sub) e =
          let f = first-eq-ok v.sub_db (with_id id) w.rows e in
          let i : sub.id ≡ id =
            (==_iff _ _).0 (&&-left _ _ (first_where-holds (with_id id) w.rows f)) in
          let at₂ : row_at key sub.id w.rows ≡ some sub =
            first_where-row_at key (with_id id) w.rows u f in
          let same : sub ≡ s = cc in ground (arith, e, same, c, n)

  -- A create message that a run has handled makes a later run of the same message call nothing: a
  -- customer and a subscription are created once. The gateway's names are not empty, and row keys
  -- are unique.
  pub run_creates_once :
      (w : Billing) {w' : Billing}
      → Unique key w.rows
      → run v id w ≡ (ok tt, w')
      → (run v id w').1.calls ≡ w'.calls
  run_creates_once w {w'} u h = named_no_calls w' (subst (NamedAfter id) h (run-NamedAfter w u))
