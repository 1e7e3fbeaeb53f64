-- ===== src/Subscription/Requests.antt =====
-- What a whole update request has done when it returns.
use golangci_api.Base.{
  ℕ, String, ◌≡◌, refl, ◌≢◌, ◌⊎◌, inl, inr, ◌++◌, List, [], ◌∷◌, true, some, arith, subst, ◌∙◌,
}
use golangci_api.Errors.{Error, Result, ok, err, wrap}
use golangci_api.Sql.{row_at, Unique, row_at-update_where, row_at-update_where_ne}
use golangci_api.Models.Org.{Org}
use golangci_api.Models.OrgSub.{
  OrgSub, CommitState, create_done, update_init, update_sent_to_queue, update_done, next_version,
  is_live, key,
}
use golangci_api.Subscription.{
  Deps, Subs, UpdatePayload, update_message, in_state, unchanged_since, set_commit_state,
  set_state_and_version, dispatch_update, get_sub_for_update, update,
}
use golangci_api.Subscription.Lookup.{Found, get_sub_for_update-Found, Found-row_at}
use golangci_api.Subscription.Effects.{
  Sending, not_sent, not_finished, finished, Starting, not_marked, sending, handed_over, marked,
  bumped, send_to_update_queue-Sending, start_update-Starting,
}

abbrev pub Announced : OrgSub → UpdatePayload → Subs → Subs → Type 0
Announced sub p w w' = w'.sent ≡ w.sent ++ update_message sub.id p.seats_count ∷ []

pub data Accepted (sub : OrgSub) (p : UpdatePayload) (w w' : Subs) : Type 0 where
  started :
      (sub.commit_state ≡ create_done) ⊎ (sub.commit_state ≡ update_done)
      → row_at key sub.id w'.rows
        ≡ some (set_state_and_version update_sent_to_queue (next_version sub.version) sub)
      → Announced sub p w w'
      → Accepted sub p w w'
  resent :
      sub.commit_state ≡ update_init
      → row_at key sub.id w'.rows ≡ some (set_commit_state update_sent_to_queue sub)
      → Announced sub p w w'
      → Accepted sub p w w'
  repeated : sub.commit_state ≡ update_sent_to_queue → w' ≡ w → Accepted sub p w w'

pub data Refused (sub : OrgSub) (p : UpdatePayload) (w w' : Subs) : Type 0 where
  untouched : w' ≡ w → Refused sub p w w'
  marked_only :
      (sub.commit_state ≡ create_done) ⊎ (sub.commit_state ≡ update_done)
      → row_at key sub.id w'.rows
        ≡ some (set_state_and_version update_init (next_version sub.version) sub)
      → w'.sent ≡ w.sent
      → Refused sub p w w'
  marked_sent :
      (sub.commit_state ≡ create_done) ⊎ (sub.commit_state ≡ update_done)
      → row_at key sub.id w'.rows
        ≡ some (set_state_and_version update_init (next_version sub.version) sub)
      → Announced sub p w w'
      → Refused sub p w w'
  sent_only :
      sub.commit_state ≡ update_init → w'.rows ≡ w.rows → Announced sub p w w' → Refused sub p w w'

-- Only the row of one id may differ.
abbrev pub OthersKept : ℕ → Subs → Subs → Type 0
OthersKept i w w' = (j : ℕ) → j ≢ i → row_at key j w'.rows ≡ row_at key j w.rows

module _ (sub : OrgSub) (p : UpdatePayload) (w : Subs) where
  row_at-handed_over :
      (s : OrgSub)
      → s.id ≡ sub.id
      → is_live s ≡ true
      → s.commit_state ≡ update_init
      → row_at key sub.id w.rows ≡ some s
      → row_at key sub.id (handed_over sub p w).rows
        ≡ some (set_commit_state update_sent_to_queue s)
  row_at-handed_over s i l c e =
      rw
        (row_at-update_where key (in_state sub.id update_init)
          (set_commit_state update_sent_to_queue) sub.id w.rows (λ r. refl))
        (rw e (ground arith))

  row_at-marked :
      is_live sub ≡ true
      → row_at key sub.id w.rows ≡ some sub
      → row_at key sub.id (marked sub w).rows
        ≡ some (set_state_and_version update_init (next_version sub.version) sub)
  row_at-marked l e =
      rw
        (row_at-update_where key (unchanged_since sub)
          (set_state_and_version update_init (next_version sub.version)) sub.id w.rows (λ r. refl))
        (rw e (ground arith))

  others-handed_over : OthersKept sub.id w (handed_over sub p w)
  others-handed_over j =
      row_at-update_where_ne key (in_state sub.id update_init)
        (set_commit_state update_sent_to_queue) sub.id j w.rows (λ r. refl) (λ r h. ground arith)

  others-marked : OthersKept sub.id w (marked sub w)
  others-marked j =
      row_at-update_where_ne key (unchanged_since sub)
        (set_state_and_version update_init (next_version sub.version)) sub.id j w.rows (λ r. refl)
        (λ r h. ground arith)

-- What the outcome of a request says of the row, the queue and the other rows.
abbrev pub Served : OrgSub → UpdatePayload → Subs → Result (Unit {0}) × Subs → Type 0
Served sub p w (ok _, w') = Accepted sub p w w' × OthersKept sub.id w w'
Served sub p w (err e, w') = Refused sub p w w' × OthersKept sub.id w w'

module _ (sub : OrgSub) (p : UpdatePayload) (w : Subs) where
  Starting-Served :
      {r : Result (Unit {0}) × Subs}
      → (sub.commit_state ≡ create_done) ⊎ (sub.commit_state ≡ update_done)
      → is_live sub ≡ true
      → row_at key sub.id w.rows ≡ some sub
      → Starting sub p w r
      → Served sub p w r
  Starting-Served c l e (not_marked x) = (untouched refl, λ j h. refl)
  Starting-Served c l e (sending n (not_sent x)) =
      (marked_only c (row_at-marked sub p w l e) refl, others-marked sub p w)
  Starting-Served c l e (sending n (not_finished x)) =
      (marked_sent c (row_at-marked sub p w l e) refl, others-marked sub p w)
  Starting-Served c l e (sending n finished) =
      let s = set_state_and_version update_init (next_version sub.version) sub in
      (
        started c
            (row_at-handed_over (bumped sub) p (marked sub w) s refl l refl
              (row_at-marked sub p w l e))
            refl,
        λ j h. others-handed_over (bumped sub) p (marked sub w) j h ∙ others-marked sub p w j h,
      )

  Sending-Served :
      {r : Result (Unit {0}) × Subs}
      → sub.commit_state ≡ update_init
      → is_live sub ≡ true
      → row_at key sub.id w.rows ≡ some sub
      → Sending sub p w r
      → Served sub p w r
  Sending-Served c l e (not_sent x) = (untouched refl, λ j h. refl)
  Sending-Served c l e (not_finished x) = (sent_only c refl refl, λ j h. refl)
  Sending-Served c l e finished =
      (resent c (row_at-handed_over sub p w sub refl l c e) refl, others-handed_over sub p w)

module _ (d : Deps) (sub : OrgSub) (p : UpdatePayload) (w : Subs) where
  dispatch_update-Served :
      (s : CommitState)
      → sub.commit_state ≡ s
      → is_live sub ≡ true
      → row_at key sub.id w.rows ≡ some sub
      → Served sub p w (dispatch_update d s sub p w)
  unfolding dispatch_update
  dispatch_update-Served create_done c l e =
      Starting-Served sub p w (inl c) l e (start_update-Starting d sub p w)
  dispatch_update-Served update_done c l e =
      Starting-Served sub p w (inr c) l e (start_update-Starting d sub p w)
  dispatch_update-Served update_init c l e =
      Sending-Served sub p w c l e (send_to_update_queue-Sending d sub p w)
  dispatch_update-Served update_sent_to_queue c l e = (repeated c refl, λ j h. refl)
  dispatch_update-Served _ c l e = (untouched refl, λ j h. refl)

module _ (d : Deps) (orgs : List Org) (name provider : String) (p : UpdatePayload) (w : Subs) where
  Found-Served :
      (sub : OrgSub)
      → Unique key w.rows
      → get_sub_for_update d orgs name provider p w ≡ ok sub
      → Found d orgs name provider p w sub × Served sub p w (update d orgs name provider p w)
  unfolding update
  Found-Served sub u e =
      let found = get_sub_for_update-Found d orgs name provider p w e in
      let (at, live) = Found-row_at d orgs name provider p w found u in
      (found, rw (e, update) (dispatch_update-Served d sub p w sub.commit_state refl live at))

  missing-update :
      (e : Error)
      → get_sub_for_update d orgs name provider p w ≡ err e
      → update d orgs name provider p w ≡ (err (wrap e), w)
  unfolding update
  missing-update x e = rw (e, update)

  -- An accepted request passed the checks of both versions and of the policy. From a state that is
  -- done it has raised the version, moved the row to "sent to queue" and sent one message; from
  -- `update_init` it has sent one message and moved the row; from `update_sent_to_queue` it has
  -- changed nothing. No other row has changed. Row keys are unique.
  pub update-Accepted :
      {w' : Subs}
      → Unique key w.rows
      → update d orgs name provider p w ≡ (ok tt, w')
      → (sub : OrgSub) × Found d orgs name provider p w sub
        × Accepted sub p w w'
        × OthersKept sub.id w w'
  update-Accepted {w'} u h = go (get_sub_for_update d orgs name provider p w) refl
    where
      go :
          (r : Result OrgSub)
          → get_sub_for_update d orgs name provider p w ≡ r
          → (sub : OrgSub) × Found d orgs name provider p w sub
            × Accepted sub p w w'
            × OthersKept sub.id w w'
      go (ok sub) e =
          let (found, served) = Found-Served sub u e in
          let (accepted, others) = subst (Served sub p w) h served in (sub, found, accepted, others)
      go (err x) e = cc (missing-update x e)

  -- A refused request has changed nothing, or it passed all checks and then the row is left at
  -- `update_init`, from where a request may be sent again: with the raised version and with or
  -- without the message sent, or (from `update_init`) unchanged and with the message sent. No other
  -- row has changed. Row keys are unique.
  pub update-Refused :
      {x : Error} {w' : Subs}
      → Unique key w.rows
      → update d orgs name provider p w ≡ (err x, w')
      → (w' ≡ w)
        ⊎ ((sub : OrgSub) × Found d orgs name provider p w sub
            × Refused sub p w w'
            × OthersKept sub.id w w')
  update-Refused {x} {w'} u h = go (get_sub_for_update d orgs name provider p w) refl
    where
      go :
          (r : Result OrgSub)
          → get_sub_for_update d orgs name provider p w ≡ r
          → (w' ≡ w)
            ⊎ ((sub : OrgSub) × Found d orgs name provider p w sub
                × Refused sub p w w'
                × OthersKept sub.id w w')
      go (ok sub) e =
          let (found, served) = Found-Served sub u e in
          let (refused, others) = subst (Served sub p w) h served in
          inr (sub, found, refused, others)
      go (err y) e = inl (cc (missing-update y e))
