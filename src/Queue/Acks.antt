-- ===== src/Queue/Acks.antt =====
-- What becomes of a message that has been received.
use golangci_api.Base.{
  String, true, false, Bool-cases, ◌≡◌, ◌≢◌, refl, ◌⊎◌, inl, inr, [], ◌∷◌, ◌++◌, none, some,
}
use golangci_api.Errors.{Error, Result, ok, err, cause, permanent, is_permanent}
use golangci_api.Queue.Consumers.{Consumer}
use golangci_api.Queue.Sqs.{
  World, Message, ReceiveCount, Call, change_visibility, delete, delay_sec, received_times,
  handled_ok, on_receive_message, handle_lambda_call,
}

-- The handling is over: it has succeeded, or failed for good.
abbrev pub Finished : Result (Unit {0}) → Type 0
Finished r = (r ≡ ok tt) ⊎ ((e : Error) × (r ≡ err e) × (cause e ≡ permanent))

-- It is to be tried again.
abbrev pub Failed : Result (Unit {0}) → Type 0
Failed r = (e : Error) × (r ≡ err e) × (cause e ≢ permanent)

is_permanent-only : (e : Error) → is_permanent e ≡ true → e ≡ permanent
is_permanent-only permanent h = refl
is_permanent-only _ h = cc

not_permanent : (e : Error) → is_permanent e ≡ false → e ≢ permanent
not_permanent e h same = let t : is_permanent e ≡ true = rw same refl in cc

handled_ok-cases :
    (r : Result (Unit {0}))
    → (Finished r × (handled_ok r ≡ true)) ⊎ (Failed r × (handled_ok r ≡ false))
handled_ok-cases (ok _) = inl (inl refl, refl)
handled_ok-cases (err e) = elim (Bool-cases (is_permanent (cause e))) [
  | inl t ↦ inl (inr (e, refl, is_permanent-only (cause e) t), t)
  | inr f ↦ inr ((e, refl, not_permanent (cause e) f), f)
]

abbrev pub polled_message : String → String → String → ReceiveCount → Message
polled_message handle id body n = record {
  body = some body;
  receipt_handle = some handle;
  message_id = some id;
  receive_count = n;
}

module _ {W : Type 0} (answer : Call → Result (Unit {0})) (c : Consumer W) where
  -- The handler has run on the body; then the message is deleted if that is over, and held back
  -- for the delay of its attempt if not.
  abbrev pub Acked : String → String → ReceiveCount → World W → World W → Type 0
  Acked handle body n w w' =
      let (r, s) = c body w.state in
      (w'.state ≡ s)
      × ((Finished r × (w'.calls ≡ w.calls ++ delete handle ∷ []))
          ⊎ (Failed r
              × (w'.calls
                  ≡ w.calls ++ change_visibility handle (delay_sec (received_times n)) ∷ [])))

  -- The handler runs on the body of a message that was polled; then the message is deleted if the
  -- handler has succeeded or failed with a permanent error as its cause, and else it is held back
  -- for the delay of its attempt. One call goes to the queue. A record that the lambda trigger
  -- hands over is handled too, but then the call panics, and the queue gets no call.
  pub on_receive_message-Acked :
      (handle id body : String) (n : ReceiveCount) (w : World W)
      → Acked handle body n w (on_receive_message answer c (polled_message handle id body n) w).1
        × (handle_lambda_call answer c ((body, n) ∷ []) w
            ≡ (none, record w { state = (c body w.state).1 }))
  on_receive_message-Acked handle id body n w = (
    elim (handled_ok-cases (c body w.state).0) [
      | inl (f, t) ↦ (rw t refl, inl (f, rw t refl))
      | inr (f, t) ↦ (rw t refl, inr (f, rw t refl))
    ],
    refl,
  )
