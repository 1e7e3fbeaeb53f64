-- ===== src/Workers/Subs/Deleter/Effects.antt =====
-- What the delete consumer changes.
use golangci_api.Base.{
  ℕ, ◌≡◌, refl, ◌⊎◌, inl, inr, Bool, true, false, ◌||◌, some, arith, sym, subst, ap, Bool-cases,
  &&-left, ==_iff,
}
use golangci_api.Errors.{Error, Result, ok, err, wrap, cause, permanent, is_permanent}
use golangci_api.Sql.{
  row_at, Unique, update_where, first_where, first_where-row_at, first_where-holds, first-eq-ok,
  row_at-update_where, row_at-key,
}
use golangci_api.Models.OrgSub.{
  OrgSub, create_done, delete_init, delete_sent_to_queue, same_state, is_live, key,
}
use golangci_api.Workers.Subs.{Env, Billing, with_id, in_states, fetch_error, set_commit_state}
use golangci_api.Workers.Subs.Deleter.{
  set_deleted, delete_call, store_deleted, delete_remote, run, reset, settle, consume_message,
}

abbrev pub is_pending : OrgSub → Bool
is_pending s =
    same_state s.commit_state delete_init || same_state s.commit_state delete_sent_to_queue

abbrev pub with_deleted : ℕ → OrgSub → Billing → Billing
with_deleted now sub w = record w {
  rows = update_where (in_states sub.id delete_init delete_sent_to_queue) (set_deleted now) w.rows;
}

abbrev pub restored : ℕ → Billing → Billing
restored id w = record w { rows = update_where (with_id id) (set_commit_state create_done) w.rows }

-- The gateway has removed the subscription that a row names.
abbrev pub Removed : Env → OrgSub → Type 0
Removed v sub =
    v.gateway.delete sub.payment_gateway_customer_id sub.payment_gateway_subscription_id ≡ ok tt

pub data Running (v : Env) (id : ℕ) (w : Billing) : Result (Unit {0}) × Billing → Type 0 where
  not_called : (e : Error) → Running v id w (err e, w)
  not_deleted :
      (sub : OrgSub) (e : Error)
      → first_where (with_id id) w.rows ≡ ok sub
      → Running v id w (err e, delete_call sub w)
  deleted :
      (sub : OrgSub)
      → first_where (with_id id) w.rows ≡ ok sub
      → Removed v sub
      → Running v id w (ok tt, with_deleted v.now sub (delete_call sub w))

module _ (v : Env) (id : ℕ) (w : Billing) where
  store_deleted-Running :
      (sub : OrgSub)
      → first_where (with_id id) w.rows ≡ ok sub
      → Removed v sub
      → Running v id w (store_deleted v sub (delete_call sub w))
  unfolding store_deleted
  store_deleted-Running sub f g =
      elim (v.sub_db.updates_law (in_states sub.id delete_init delete_sent_to_queue)
        (set_deleted v.now) w.rows) [
          | inl e ↦ rw (e, store_deleted) (deleted sub f g)
          | inr (x, e) ↦ rw (e, store_deleted) (not_deleted sub (wrap x) f)
        ]

  delete_remote-Running :
      (sub : OrgSub)
      → first_where (with_id id) w.rows ≡ ok sub
      → Running v id w (delete_remote v sub w)
  unfolding delete_remote
  delete_remote-Running sub f = build (v.gateway.build "securionpay") refl
    where
      call :
          (r : Result (Unit {0}))
          → v.gateway.delete sub.payment_gateway_customer_id sub.payment_gateway_subscription_id ≡ r
          → Running v id w (elim r [
            | err e ↦ (err (wrap permanent), delete_call sub w)
            | ok _ ↦ store_deleted v sub (delete_call sub w)
          ])
      call (err x) e = not_deleted sub (wrap permanent) f
      call (ok _) e = store_deleted-Running sub f e

      build :
          (r : Result (Unit {0}))
          → v.gateway.build "securionpay" ≡ r
          → Running v id w (delete_remote v sub w)
      build (err x) e = rw (e, delete_remote) (not_called (wrap x))
      build (ok _) e = rw (e, delete_remote) (call _ refl)

  pub run-Running : Running v id w (run v id w)
  unfolding run
  run-Running = go (v.sub_db.first (with_id id) w.rows) refl
    where
      go :
          (r : Result OrgSub) → v.sub_db.first (with_id id) w.rows ≡ r → Running v id w (run v id w)
      go (err x) e = rw (e, run) (not_called (fetch_error x))
      go (ok sub) e = rw (e, run) (delete_remote-Running sub (first-eq-ok v.sub_db _ w.rows e))

  pub reset_cases :
      (reset v id w ≡ (ok tt, restored id w)) ⊎ ((e : Error) × (reset v id w ≡ (err e, w)))
  unfolding reset
  reset_cases = elim (v.sub_db.updates_law (with_id id) (set_commit_state create_done) w.rows) [
    | inl e ↦ inl (rw (e, reset))
    | inr (x, e) ↦ inr (wrap x, rw (e, reset))
  ]

-- A message is settled: done, given back for another try, or restored after a permanent error.
pub data Settling (v : Env) (id : ℕ) (w : Billing) : Result (Unit {0}) × Billing → Type 0 where
  removed :
      (sub : OrgSub)
      → first_where (with_id id) w.rows ≡ ok sub
      → Removed v sub
      → Settling v id w (ok tt, with_deleted v.now sub (delete_call sub w))
  kept : (e : Error) (w' : Billing) → w'.rows ≡ w.rows → Settling v id w (err e, w')
  put_back : (w' : Billing) → w'.rows ≡ w.rows → Settling v id w (ok tt, restored id w')

module _ (v : Env) (id : ℕ) (w : Billing) where
  settle_error :
      (e : Error) (w' : Billing) → w'.rows ≡ w.rows → Settling v id w (settle v id (err e, w'))
  settle_error e w' same = elim (Bool-cases (is_permanent (cause e))) [
    | inl t ↦ rw t (elim (reset_cases v id w') [
      | inl f ↦ rw f (put_back w' same)
      | inr (x, f) ↦ rw f (kept x w' same)
    ])
    | inr t ↦ rw t (kept (wrap e) w' same)
  ]

  settle-Settling :
      {r : Result (Unit {0}) × Billing} → Running v id w r → Settling v id w (settle v id r)
  settle-Settling (not_called e) = settle_error e w refl
  settle-Settling (not_deleted sub e f) = settle_error e (delete_call sub w) refl
  settle-Settling (deleted sub f g) = removed sub f g

  pub consume_message-Settling : Settling v id w (consume_message v id w)
  unfolding consume_message
  consume_message-Settling = go v.connect refl
    where
      go : (r : Result (Unit {0})) → v.connect ≡ r → Settling v id w (consume_message v id w)
      go (err x) e =
          let q : consume_message v id w ≡ (err (wrap x), w) = simp (e, consume_message) in
          subst (Settling v id w) (sym q) (kept (wrap x) w refl)
      go (ok _) e =
          let q : consume_message v id w ≡ settle v id (run v id w) = simp (e, consume_message) in
          subst (Settling v id w) (sym q) (settle-Settling (run-Running v id w))

-- What an acknowledged delete message has made of the row that it names.
pub data Deleted (v : Env) (id : ℕ) (s : OrgSub) (w' : Billing) : Type 0 where
  gone :
      is_pending s ≡ true
      → Removed v s
      → row_at key id w'.rows ≡ some (set_deleted v.now s)
      → Deleted v id s w'
  stale : is_pending s ≡ false → Removed v s → row_at key id w'.rows ≡ some s → Deleted v id s w'
  active_again : row_at key id w'.rows ≡ some (set_commit_state create_done s) → Deleted v id s w'

module _ (v : Env) (id : ℕ) (w : Billing) {w' : Billing} where
  -- An acknowledged delete message leaves a live row in one of three ways. The gateway has removed
  -- the subscription, and then the row is deleted if it was still waiting for that and is unchanged
  -- otherwise; or the row is active again, in "create/done", whatever state it was in. Row keys are
  -- unique.
  pub consume_message-Deleted :
      (s : OrgSub)
      → Unique key w.rows
      → row_at key id w.rows ≡ some s
      → is_live s ≡ true
      → consume_message v id w ≡ (ok tt, w')
      → Deleted v id s w'
  consume_message-Deleted s u at live h = go (consume_message-Settling v id w) h
    where
      row₁ : (sub : OrgSub) → first_where (with_id id) w.rows ≡ ok sub → (sub ≡ s) × (sub.id ≡ id)
      row₁ sub f =
          let i : sub.id ≡ id =
            (==_iff _ _).0 (&&-left _ _ (first_where-holds (with_id id) w.rows f)) in
          let e : row_at key sub.id w.rows ≡ some sub =
            first_where-row_at key (with_id id) w.rows u f in
          (cc, i)

      row₂ :
          (sub : OrgSub)
          → sub ≡ s
          → sub.id ≡ id
          → is_pending s ≡ true
          → row_at key id (with_deleted v.now sub (delete_call sub w)).rows
            ≡ some (set_deleted v.now s)
      row₂ sub same i t =
          rw
            (row_at-update_where key (in_states sub.id delete_init delete_sent_to_queue)
              (set_deleted v.now) id w.rows (λ r. refl))
            (rw at (ground (arith, same, i, t, live)))

      row₃ :
          (sub : OrgSub)
          → sub ≡ s
          → sub.id ≡ id
          → is_pending s ≡ false
          → row_at key id (with_deleted v.now sub (delete_call sub w)).rows ≡ some s
      row₃ sub same i t =
          rw
            (row_at-update_where key (in_states sub.id delete_init delete_sent_to_queue)
              (set_deleted v.now) id w.rows (λ r. refl))
            (rw at (ground (arith, same, i, t, live)))

      go :
          {r : Result (Unit {0}) × Billing}
          → Settling v id w r
          → r ≡ (ok tt, w')
          → Deleted v id s w'
      go (removed sub f g) h =
          let (same, i) = row₁ sub f in
          subst (Deleted v id s) (ap (λ q. q.1) h) (elim (Bool-cases (is_pending s)) [
            | inl t ↦ gone t (subst (Removed v) same g) (row₂ sub same i t)
            | inr t ↦ stale t (subst (Removed v) same g) (row₃ sub same i t)
          ])
      go (kept e y same) h = cc
      go (put_back y same) h = subst (Deleted v id s) (ap (λ q. q.1) h) (
          active_again (
            rw
              (row_at-update_where key (with_id id) (set_commit_state create_done) id y.rows
                (λ r. refl))
              (rw same (rw at (ground (arith, live, row_at-key key id w.rows at))))))
