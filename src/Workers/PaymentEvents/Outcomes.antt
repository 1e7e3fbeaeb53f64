-- ===== src/Workers/PaymentEvents/Outcomes.antt =====
-- What the handling of an event has done when it returns.
use golangci_api.Base.{
  ℕ, String, ◌≡◌, refl, inl, inr, ◌++◌, List, [], ◌∷◌, Option, Bool, true, false, Bool-cases,
  str_eq, if◌then◌else◌, ap, sym, ◌∙◌,
}
use golangci_api.Errors.{
  Error, Result, ok, err, wrap, wrapped, is_record_not_found, >>=-eq-ok, wrapped-eq-ok,
  ok-injective,
}
use golangci_api.Sql.{first_where, first-eq-ok}
use golangci_api.Models.OrgSub.{OrgSub}
use golangci_api.Workers.PaymentEvents.{
  Env, World, CreateMessage, Event, PaymentGatewayEvent, with_provider_id, new_event, get_user_id,
  parse_event, process_type, save_event, process_new, process_found, process_parsed, process,
  finish_tx, finish_panic, run,
}
use golangci_api.Workers.PaymentEvents.Asked.{Asked, process_type-Asked}

-- The event is new; what its type asks for is done, and the event is recorded.
abbrev pub Recorded : Env → Event → String → World → World → Type 0
Recorded v ev uuid w w' =
    (x : Error) × (subs : List OrgSub) × (user : Option ℕ) × (first_where
        (with_provider_id ev.form.alert_id) w.events
      ≡ err x)
    × Asked v ev.type ev.form uuid w.subs subs
    × (get_user_id ev.type ev.form ≡ ok user)
    × (w' ≡ record { subs = subs; events = w.events ++ new_event ev user ∷ [] })

pub data Handled (v : Env) (m : CreateMessage) (w w' : World) : Type 0 where
  known :
      (ev : Event) (existing : PaymentGatewayEvent)
      → parse_event v m.payload ≡ ok ev
      → first_where (with_provider_id ev.form.alert_id) w.events ≡ ok existing
      → w' ≡ w
      → Handled v m w w'
  lost :
      (ev : Event) (e : Error)
      → parse_event v m.payload ≡ ok ev
      → v.event_db.first (with_provider_id ev.form.alert_id) w.events ≡ err e
      → is_record_not_found e ≡ false
      → w' ≡ w
      → Handled v m w w'
  no_processor : str_eq m.provider "paddle" ≡ false → w' ≡ w → Handled v m w w'
  recorded :
      (ev : Event) → parse_event v m.payload ≡ ok ev → Recorded v ev m.uuid w w' → Handled v m w w'

-- What the result of a run says.
abbrev pub Ran : Env → CreateMessage → World → Result (Unit {0}) × World → Type 0
Ran v m w (ok _, w') = Handled v m w w'
Ran v m w (err e, w') = w' ≡ w

module _ (v : Env) (m : CreateMessage) (w : World) where
  save_event-Recorded :
      (ev : Event) (x : Error) (subs : List OrgSub) {w' : World}
      → first_where (with_provider_id ev.form.alert_id) w.events ≡ err x
      → Asked v ev.type ev.form m.uuid w.subs subs
      → save_event v ev (record w { subs = subs }) ≡ ok w'
      → Recorded v ev m.uuid w w'
  unfolding save_event
  save_event-Recorded ev x subs {w'} new p h =
      let (user, e₁, h₁) = >>=-eq-ok (wrapped (get_user_id ev.type ev.form)) _ h in
      let (events, e₂, h₂) =
        >>=-eq-ok (wrapped (v.create_event (new_event ev user) w.events)) _ h₁ in
      let made = wrapped-eq-ok _ e₂ in
      elim (v.create_event_law (new_event ev user) w.events) [
        | inr (y, e) ↦ cc
        | inl e ↦
            let same : events ≡ w.events ++ new_event ev user ∷ [] = ok-injective (sym made ∙ e) in
            (
              x,
              subs,
              user,
              new,
              p,
              wrapped-eq-ok _ e₁,
              sym (ok-injective h₂) ∙ ap (λ t. record { subs = subs; events = t }) same,
            )
      ]

  -- A lookup that has not found the event says that it is not there.
  not_there :
      (i : String) (e : Error)
      → is_record_not_found e ≡ true
      → v.event_db.first (with_provider_id i) w.events ≡ err e
      → first_where (with_provider_id i) w.events ≡ err e
  not_there i e t q = elim (v.event_db.first_law (with_provider_id i) w.events) [
    | inl f ↦ sym f ∙ q
    | inr (x, f, no_miss) ↦ let same : err x ≡ err e = sym f ∙ q in cc
  ]

  process_found-Handled :
      (ev : Event) (r : Result PaymentGatewayEvent) {w' : World}
      → parse_event v m.payload ≡ ok ev
      → v.event_db.first (with_provider_id ev.form.alert_id) w.events ≡ r
      → process_found v ev m.uuid w r ≡ ok w'
      → Handled v m w w'
  process_found-Handled ev (ok existing) p q h =
      known ev existing p (first-eq-ok v.event_db (with_provider_id ev.form.alert_id) w.events q)
        (sym (ok-injective h))
  process_found-Handled ev (err e) {w'} p q h = elim (Bool-cases (is_record_not_found e)) [
    | inr f ↦ lost ev e p q f (sym (ok-injective (rw f at h)))
    | inl t ↦
        let done : process_new v ev m.uuid w ≡ ok w' = rw t at h in
        let (subs, e₁, h₁) = >>=-eq-ok (process_type v ev.type ev.form m.uuid w.subs) _ done in
        recorded ev p (
          save_event-Recorded ev e subs (not_there ev.form.alert_id e t q)
            (process_type-Asked v ev.form ev.type m.uuid w.subs e₁) h₁)
  ]

  process_parsed-Handled :
      (r : Result Event) {w' : World}
      → parse_event v m.payload ≡ r
      → process_parsed v m.uuid w r ≡ ok w'
      → Handled v m w w'
  process_parsed-Handled (err e) p h = cc
  process_parsed-Handled (ok ev) p h =
      process_found-Handled ev (v.event_db.first (with_provider_id ev.form.alert_id) w.events) p
        refl h

  finish_tx-Ran :
      (r : Result World)
      → ((w' : World) → r ≡ ok w' → Handled v m w w')
      → Ran v m w (finish_tx v w r)
  finish_tx-Ran (err e) k = go v.rollback
    where
      go : (r : Result (Unit {0})) → Ran v m w (elim r [ err _ ↦ err (wrap e) | ok _ ↦ err e ], w)
      go (err x) = refl
      go (ok _) = refl
  finish_tx-Ran (ok w') k = go v.commit
    where
      go :
          (r : Result (Unit {0}))
          → Ran v m w (elim r [ err e ↦ (err (wrap e), w) | ok _ ↦ (ok tt, w') ])
      go (err x) = refl
      go (ok _) = k w' refl

  finish_panic-Ran : str_eq m.provider "paddle" ≡ false → Ran v m w (finish_panic v w)
  finish_panic-Ran f = go v.rollback
    where
      go : (r : Result (Unit {0})) → Ran v m w (elim r [ err e ↦ err (wrap e) | ok _ ↦ ok tt ], w)
      go (err x) = refl
      go (ok _) = no_processor f refl

  -- A run that succeeds has recorded a new event and done what its type asks for, or it has changed
  -- nothing: the event was recorded before, or its lookup failed and the event is lost, or the
  -- provider is not Paddle, whose missing processor panics. "subscription_created" asks for one new
  -- subscription of the live organization and for the user that the passthrough names, with the
  -- event's id, seats, price and cancel URL; "subscription_cancelled" for the mark of deletion on
  -- the live subscription with the event's id, and on no row of another key; every other type for no
  -- change of a subscription. A run that fails changes nothing.
  pub run-Ran : Ran v m w (run v m w)
  unfolding run process
  run-Ran = go v.start_tx
    where
      paddle :
          (b : Bool)
          → str_eq m.provider "paddle" ≡ b
          → Ran v m w (
              if b
              then finish_tx v w (wrapped (process v m.payload m.uuid w))
              else finish_panic v w)
      paddle true t =
          finish_tx-Ran (wrapped (process v m.payload m.uuid w))
            (λ w' e. process_parsed-Handled (parse_event v m.payload) refl (wrapped-eq-ok _ e))
      paddle false f = finish_panic-Ran f

      go :
          (r : Result (Unit {0}))
          → Ran v m w (elim r [
            | err e ↦ (err (wrap e), w)
            | ok _ ↦
                if str_eq m.provider "paddle"
                then finish_tx v w (wrapped (process v m.payload m.uuid w))
                else finish_panic v w
          ])
      go (err e) = refl
      go (ok _) = paddle (str_eq m.provider "paddle") refl
