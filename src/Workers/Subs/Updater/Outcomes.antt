-- ===== src/Workers/Subs/Updater/Outcomes.antt =====
-- What a run of the update consumer has done, and how it meets the service that sent the message.
use mathlib.Core.Option
use golangci_api.Base.{
  ℕ, ◌≡◌, refl, ◌≢◌, ◌⊎◌, inl, inr, true, some, arith, ◌==◌, sym, subst, ◌∙◌, ap, if◌then◌else◌,
  &&-right, &&-left, ==_iff, ◌++◌, [], ◌∷◌, List,
}
use golangci_api.Errors.{Error, Result, ok, err}
use golangci_api.Sql.{
  row_at, Unique, first_where, first_where-row_at, first_where-holds, row_at-update_where,
  row_at-update_where_ne, update_where-Unique,
}
use golangci_api.Models.OrgSub.{
  OrgSub, update_init, update_sent_to_queue, is_live, next_version, key, CommitState,
}
use golangci_api.Subscription.{
  UpdateMessage, Deps, Subs, in_state, set_commit_state, finish_queue_sending,
}
use golangci_api.Subscription.Effects.{finish-ok}
use golangci_api.Workers.Subs.{Env, Billing, GatewayCall, update_subscription, with_id}
use golangci_api.Workers.Subs.Updater.{awaits_update, set_updated, update_call, run}
use golangci_api.Workers.Subs.Updater.Effects.{
  Updating, not_called, not_stored, updated, stored, is_waiting, run-Updating,
}

-- The row that the message names has taken the update, and the gateway was told it once.
abbrev pub Updated : UpdateMessage → Billing → Billing → OrgSub → Type 0
Updated m w w' sub =
    (row_at key m.sub_id w.rows ≡ some sub)
    × ((sub.commit_state ≡ update_init) ⊎ (sub.commit_state ≡ update_sent_to_queue))
    × (is_live sub ≡ true)
    × (row_at key m.sub_id w'.rows ≡ some (set_updated m (next_version sub.version) sub))
    × (w'.calls
        ≡ w.calls
          ++ update_subscription sub.payment_gateway_customer_id sub.payment_gateway_subscription_id
              m.seats_count m.card_token
            ∷ [])
    × ((j : ℕ) → j ≢ m.sub_id → row_at key j w'.rows ≡ row_at key j w.rows)

waiting_states :
    (s : OrgSub)
    → is_waiting s ≡ true
    → (s.commit_state ≡ update_init) ⊎ (s.commit_state ≡ update_sent_to_queue)
waiting_states s h = ground arith

-- The row that a query by id finds is the row of that id.
row_of :
    (i : ℕ) (w : Billing) {sub : OrgSub}
    → Unique key w.rows
    → first_where (with_id i) w.rows ≡ ok sub
    → row_at key i w.rows ≡ some sub
row_of i w {sub} u f =
    subst (λ j. row_at key j w.rows ≡ some sub)
      ((==_iff _ _).0 (&&-left _ _ (first_where-holds (with_id i) w.rows f)))
      (first_where-row_at key (with_id i) w.rows u f)

module _ (v : Env) (m : UpdateMessage) (w : Billing) (u : Unique key w.rows) where
  Updating-Updated :
      {r : Result (Unit {0}) × Billing} {w' : Billing}
      → Updating m w r
      → r ≡ (ok tt, w')
      → (sub : OrgSub) × Updated m w w' sub
  Updating-Updated (not_called e) h = cc
  Updating-Updated (not_stored sub e f t) h = cc
  Updating-Updated {w' = w'} (updated sub f t n) h =
      subst (λ y. (s : OrgSub) × Updated m w y s) (ap (λ q. q.1) h)
        (sub, (at, waits, live, row, refl, others))
    where
      same_id : sub.id ≡ m.sub_id
      same_id = (==_iff _ _).0 (&&-left _ _ (first_where-holds (with_id m.sub_id) w.rows f))

      live : is_live sub ≡ true
      live = &&-right (sub.id == m.sub_id) _ (first_where-holds (with_id m.sub_id) w.rows f)

      at : row_at key m.sub_id w.rows ≡ some sub
      at = row_of m.sub_id w u f

      waits : (sub.commit_state ≡ update_init) ⊎ (sub.commit_state ≡ update_sent_to_queue)
      waits = waiting_states sub t

      row :
          row_at key m.sub_id (stored m sub (update_call m sub w)).rows
          ≡ some (set_updated m (next_version sub.version) sub)
      row =
          rw
            (row_at-update_where key (awaits_update sub) (set_updated m (next_version sub.version))
              m.sub_id w.rows (λ r. refl))
            (rw at (ground (arith, waits, live)))

      others :
          (j : ℕ)
          → j ≢ m.sub_id
          → row_at key j (stored m sub (update_call m sub w)).rows ≡ row_at key j w.rows
      others j =
          row_at-update_where_ne key (awaits_update sub) (set_updated m (next_version sub.version))
            m.sub_id j w.rows (λ r. refl) (λ r h. ground (arith, same_id))

  -- A successful run has found the row of the message's id live and waiting for an update. It has
  -- told the gateway once, with the seats of the message, and has written them to the row, with the
  -- next version and the state "update/done". No other row has changed. Row keys are unique.
  pub run-Updated : {w' : Billing} → run v m w ≡ (ok tt, w') → (sub : OrgSub) × Updated m w w' sub
  run-Updated h = Updating-Updated (run-Updating v m w) h

  -- A failed run has changed no row, and has told the gateway at most once, about the row of the
  -- message's id. Row keys are unique.
  pub run_failed :
      {x : Error} {w' : Billing}
      → run v m w ≡ (err x, w')
      → (w'.rows ≡ w.rows)
        × ((w'.calls ≡ w.calls)
            ⊎ ((sub : OrgSub) × (row_at key m.sub_id w.rows ≡ some sub)
                × (w'.calls ≡ (update_call m sub w).calls)))
  run_failed {x} {w'} h = go (run-Updating v m w) h
    where
      go :
          {r : Result (Unit {0}) × Billing}
          → Updating m w r
          → r ≡ (err x, w')
          → (w'.rows ≡ w.rows)
            × ((w'.calls ≡ w.calls)
                ⊎ ((sub : OrgSub) × (row_at key m.sub_id w.rows ≡ some sub)
                    × (w'.calls ≡ (update_call m sub w).calls)))
      go (not_called e) h = (cc, inl (cc))
      go (not_stored sub e f t) h = (cc, inr (sub, row_of m.sub_id w u f, cc))
      go (updated sub f t n) h = cc

  run-Unique : Unique key (run v m w).1.rows
  run-Unique = go (run-Updating v m w)
    where
      go : {r : Result (Unit {0}) × Billing} → Updating m w r → Unique key r.1.rows
      go (not_called e) = u
      go (not_stored sub e f t) = u
      go (updated sub f t n) = update_where-Unique key _ _ w.rows (λ r. refl) u

refuses_done :
    (m : UpdateMessage) (w : Billing) (s : OrgSub) (n : ℕ) {r : Result (Unit {0}) × Billing}
    → Unique key w.rows
    → row_at key m.sub_id w.rows ≡ some (set_updated m n s)
    → Updating m w r
    → (r.1 ≡ w) × (r.0 ≢ ok tt)
refuses_done m w s n u at (not_called e) = (refl, λ q. cc)
refuses_done m w s n u at (not_stored sub e f t) =
    absurd (finished_waits sub (row_of m.sub_id w u f) t)
  where
    finished_waits : (x : OrgSub) → row_at key m.sub_id w.rows ≡ some x → is_waiting x ≡ true → ⊥
    finished_waits x e t = ground (arith, at, e)
refuses_done m w s n u at (updated sub f t c) =
    absurd (finished_waits sub (row_of m.sub_id w u f) t)
  where
    finished_waits : (x : OrgSub) → row_at key m.sub_id w.rows ≡ some x → is_waiting x ≡ true → ⊥
    finished_waits x e t = ground (arith, at, e)

-- A message that a run has handled and that is delivered again changes nothing, calls nothing, and
-- does not succeed. Row keys are unique.
pub redelivered :
    (v : Env) (m : UpdateMessage) (w : Billing) {w' : Billing}
    → Unique key w.rows
    → run v m w ≡ (ok tt, w')
    → ((run v m w').1 ≡ w') × ((run v m w').0 ≢ ok tt)
redelivered v m w {w'} u h =
    let (sub, (_, _, _, row, _, _)) = run-Updated v m w u h in
    let unique : Unique key w'.rows = rw h at (run-Unique v m w u) in
    refuses_done m w' sub (next_version sub.version) unique row (run-Updating v m w')

-- The service moves the row on after it has sent the message, and the consumer may run before that.
-- If the row waits in `update_init`, and the move and the run succeed in both orders, the row ends
-- in either order as the consumer leaves it, with the update written. Row keys are unique.
pub either_order :
    (d : Deps) (v : Env) (m : UpdateMessage) (s : OrgSub) (w w₁ w₂ : Subs)
    (calls : List GatewayCall) (b₁ b₂ : Billing)
    → Unique key w.rows
    → s.id ≡ m.sub_id
    → row_at key m.sub_id w.rows ≡ some s
    → s.commit_state ≡ update_init
    → finish_queue_sending d s update_init update_sent_to_queue w ≡ (ok tt, w₁)
    → run v m (record { rows = w₁.rows; calls = calls }) ≡ (ok tt, b₁)
    → run v m (record { rows = w.rows; calls = calls }) ≡ (ok tt, b₂)
    → finish_queue_sending d s update_init update_sent_to_queue (record w { rows = b₂.rows })
      ≡ (ok tt, w₂)
    → (row_at key m.sub_id b₁.rows ≡ row_at key m.sub_id w₂.rows)
      × (row_at key m.sub_id w₂.rows ≡ some (set_updated m (next_version s.version) s))
either_order d v m s w w₁ w₂ calls b₁ b₂ u i at c f₁ r₁ r₂ f₂ = (order₁ ∙ sym order₂, order₂)
  where
    sent : CommitState → OrgSub → OrgSub
    sent x r = if in_state s.id update_init r then set_commit_state x r else r

    u₁ : Unique key w₁.rows
    u₁ =
        subst (Unique key) (finish-ok d s w _ _ f₁)
          (update_where-Unique key _ _ w.rows (λ r. refl) u)

    order₂ : row_at key m.sub_id w₂.rows ≡ some (set_updated m (next_version s.version) s)
    order₂ =
        let (sub, (at₂, _, _, row₂, _, _)) = run-Updated v m _ u r₂ in
        subst (λ t. row_at key m.sub_id t ≡ some (set_updated m (next_version s.version) s))
          (finish-ok d s (record w { rows = b₂.rows }) _ _ f₂)
          (rw
            (row_at-update_where key (in_state s.id update_init)
              (set_commit_state update_sent_to_queue) m.sub_id b₂.rows (λ r. refl))
            (ground (arith, at, at₂, row₂)))

    order₁ : row_at key m.sub_id b₁.rows ≡ some (set_updated m (next_version s.version) s)
    order₁ =
        let (sub, (at₁, _, _, row₁, _, _)) = run-Updated v m _ u₁ r₁ in
        let (sub₂, (at₂, _, live, _, _, _)) = run-Updated v m _ u r₂ in
        let row₀ : row_at key m.sub_id w₁.rows
            ≡ Option.map (sent update_sent_to_queue) (row_at key m.sub_id w.rows) =
          subst
            (λ t.
              row_at key m.sub_id t
              ≡ Option.map (sent update_sent_to_queue) (row_at key m.sub_id w.rows))
            (finish-ok d s w _ _ f₁)
            (row_at-update_where key (in_state s.id update_init)
              (set_commit_state update_sent_to_queue) m.sub_id w.rows (λ r. refl)) in
        ground (arith, at, at₁, at₂, live, row₀, row₁, c, i)
