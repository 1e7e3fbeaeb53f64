-- ===== src/Workers/PaymentEvents/Redelivery.antt =====
-- An event that is delivered again.
use golangci_api.Base.{
  String, ◌≡◌, refl, ◌≢◌, ◌++◌, List, [], ◌∷◌, Bool, true, Bool-cases, eq_iff, inl, inr, ap, sym,
  ◌∙◌, subst,
}
use golangci_api.Errors.{Result, ok, err, ok-injective}
use golangci_api.Sql.{first_where}
use golangci_api.Workers.PaymentEvents.{
  Env, World, CreateMessage, Event, PaymentGatewayEvent, with_provider_id, new_event, parse_event,
  run,
}
use golangci_api.Workers.PaymentEvents.Outcomes.{
  Recorded, Handled, known, lost, no_processor, recorded, Ran, run-Ran,
}

-- The event with an id is in the table.
abbrev pub Present : String → World → Type 0
Present i w = (e : PaymentGatewayEvent) × (first_where (with_provider_id i) w.events ≡ ok e)

first_where-append :
    (p : PaymentGatewayEvent → Bool) (t : List PaymentGatewayEvent) (a : PaymentGatewayEvent)
    → p a ≡ true
    → (e : PaymentGatewayEvent) × (first_where p (t ++ a ∷ []) ≡ ok e)
first_where-append p [] a h = (a, rw h refl)
first_where-append p (x ∷ t) a h = elim (Bool-cases (p x)) [
  | inl y ↦ (x, rw y refl)
  | inr n ↦ let (e, f) = first_where-append p t a h in (e, rw n f)
]

Recorded-Present :
    (v : Env) (ev : Event) (uuid : String) (w w' : World)
    → Recorded v ev uuid w w'
    → Present ev.form.alert_id w'
Recorded-Present v ev uuid w w' (x, subs, user, new, done, who, same) =
    let (e, f) =
      first_where-append (with_provider_id ev.form.alert_id) w.events (new_event ev user)
        ((eq_iff ev.form.alert_id ev.form.alert_id).1 refl) in
    (e, ap (λ t. first_where (with_provider_id ev.form.alert_id) t.events) same ∙ f)

module _ (v : Env) (m : CreateMessage) (w : World) (ev : Event) where
  Handled-same :
      {w' : World}
      → parse_event v m.payload ≡ ok ev
      → Present ev.form.alert_id w
      → Handled v m w w'
      → w' ≡ w
  Handled-same p there (known ev' existing p' f same) = same
  Handled-same p there (lost ev' e p' f n same) = same
  Handled-same p there (no_processor f same) = same
  Handled-same p (e, there) (recorded ev' p' (x, subs, user, new, done, who, same)) =
      let one : ev' ≡ ev = ok-injective (sym p' ∙ p) in
      let new' : first_where (with_provider_id ev.form.alert_id) w.events ≡ err x =
        subst (λ y. first_where (with_provider_id y.form.alert_id) w.events ≡ err x) one new in
      cc

  Ran-same :
      (r : Result (Unit {0}) × World)
      → parse_event v m.payload ≡ ok ev
      → Present ev.form.alert_id w
      → Ran v m w r
      → r.1 ≡ w
  Ran-same (ok _, w') p there ran = Handled-same p there ran
  Ran-same (err e, w') p there ran = ran

module _ (v v' : Env) (m m' : CreateMessage) (w : World) where
  Handled-recorded :
      {w₁ : World}
      → w₁.events ≢ w.events
      → Handled v m w w₁
      → (ev : Event) × (parse_event v m.payload ≡ ok ev) × Present ev.form.alert_id w₁
  Handled-recorded n (known ev existing p f same) = absurd (n (ap (λ t. t.events) same))
  Handled-recorded n (lost ev e p f g same) = absurd (n (ap (λ t. t.events) same))
  Handled-recorded n (no_processor f same) = absurd (n (ap (λ t. t.events) same))
  Handled-recorded {w₁} n (recorded ev p r) = (ev, p, Recorded-Present v ev m.uuid w w₁ r)

  -- Once a run has recorded an event, a later run of a message with the same event, whatever its
  -- UUID and whatever its outcome, changes nothing: no second subscription is created and none is
  -- deleted. The event reads the same at both runs.
  pub run_records_once :
      {w₁ : World}
      → run v m w ≡ (ok tt, w₁)
      → w₁.events ≢ w.events
      → parse_event v' m'.payload ≡ parse_event v m.payload
      → (run v' m' w₁).1 ≡ w₁
  run_records_once {w₁} h n same =
      let handled : Handled v m w w₁ = subst (Ran v m w) h (run-Ran v m w) in
      let (ev, p, there) = Handled-recorded n handled in
      Ran-same v' m' w₁ ev (run v' m' w₁) (same ∙ p) there (run-Ran v' m' w₁)
