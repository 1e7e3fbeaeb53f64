-- ===== src/Queue/Sqs.antt =====
-- internal/shared/queue/aws: the SQS queue and the consumer that polls it. The calls of the SQS
-- client are kept in their order.
use golangci_api.Base.{
  ℕ, ◌-◌, ◌*◌, ◌%◌, ◌^◌, String, Bool, true, false, List, [], ◌∷◌, ◌++◌, Option, none, some, ltb,
  if◌then◌else◌,
}
use golangci_api.Base.Int.{ℤ, pos, negsuc}
use golangci_api.Errors.{Result, ok, err, wrap, wrapped, cause, message, is_permanent}
use golangci_api.Queue.Producers.{SubqueueMessage}
use golangci_api.Queue.Consumers.{Consumer}

-- The attribute ApproximateReceiveCount: absent, not a number, or a count.
pub data ReceiveCount : Type 0 where
  missing malformed : ReceiveCount
  count : ℕ → ReceiveCount

-- awssqs.Message; its pointers may be nil
pub record Message : Type 0 where
  pub body : Option String
  pub receipt_handle : Option String
  pub message_id : Option String
  pub receive_count : ReceiveCount

pub data Call : Type 0 where
  send : String → Call
  change_visibility : String → ℤ → Call
  delete : String → Call

pub record World (W : Type 0) : Type 0 where
  pub state : W
  pub calls : List Call

-- a 64-bit word read as a signed integer
abbrev pub to_int64 : ℕ → ℤ
to_int64 x = let r = x % 2 ^ 64 in if ltb r (2 ^ 63) then pos r else negsuc (2 ^ 64 - r - 1)

-- `1 << n`, as a word
abbrev pub shifted : ℕ → ℕ
shifted n = if ltb n 64 then 2 ^ n else 0

-- delaySec
abbrev pub delay_sec : ℕ → ℤ
delay_sec receive_count = to_int64 (shifted receive_count * 20)

abbrev pub received_times : ReceiveCount → ℕ
received_times missing = 0
received_times malformed = 0
received_times (count n) = n

abbrev pub handled_ok : Result (Unit {0}) → Bool
handled_ok (ok t) = true
handled_ok (err e) = is_permanent (cause e)

-- the message that handleLambdaCall makes of a record; it has no handle and no id
abbrev pub lambda_message : String → ReceiveCount → Message
lambda_message body n = record {
  body = some body;
  receipt_handle = none;
  message_id = none;
  receive_count = n;
}

module _ {W : Type 0} (answer : Call → Result (Unit {0})) where
  abbrev pub call : Call → World W → Result (Unit {0}) × World W
  call c w = (wrapped (answer c), record w { calls = w.calls ++ c ∷ [] })

  abbrev pub send_marshalled : Result String → World W → Result (Unit {0}) × World W
  send_marshalled (err e) w = (err (wrap e), w)
  send_marshalled (ok body) w = call (send body) w

  -- Queue.Put on the message of a subqueue
  abbrev pub put :
      {M : Type 0}
      → (String → M → Result String)
      → SubqueueMessage M
      → World W
      → Result (Unit {0}) × World W
  put marshal m w = send_marshalled (marshal m.subqueue_id m.content) w

  -- Queue.Ack
  abbrev pub ack : String → ℕ → Bool → World W → Result (Unit {0}) × World W
  ack handle receive_count false w = call (change_visibility handle (delay_sec receive_count)) w
  ack handle receive_count true w = call (delete handle) w

  abbrev pub answered : Result (Unit {0}) × World W → Option (Result (Unit {0})) × World W
  answered (r, w) = (some (wrapped r), w)

  -- the call of Ack; `none` is the panic on a nil handle or a nil id
  abbrev pub ack_message :
      Option String → Option String → ℕ → Bool → World W → Option (Result (Unit {0})) × World W
  ack_message (some handle) (some id) n handled w = answered (ack handle n handled w)
  ack_message none id n handled w = (none, w)
  ack_message (some handle) none n handled w = (none, w)

  abbrev pub consumed :
      Message → World W → Result (Unit {0}) × W → Option (Result (Unit {0})) × World W
  consumed m w (r, s) =
      ack_message m.receipt_handle m.message_id (received_times m.receive_count) (handled_ok r)
        (record w { state = s })

  abbrev pub receive_body :
      Consumer W → Message → Option String → World W → Option (Result (Unit {0})) × World W
  receive_body c m none w = (some (err (message "nil message body")), w)
  receive_body c m (some body) w = consumed m w (c body w.state)

  -- onReceiveMessage
  abbrev pub on_receive_message :
      Consumer W → Message → World W → Option (Result (Unit {0})) × World W
  on_receive_message c m w = receive_body c m m.body w

  abbrev pub polled : Option (Result (Unit {0})) × World W → Option (Unit {0}) × World W
  polled (none, w) = (none, w)
  polled (some r, w) = (some tt, w)

  -- poll, from what TryReceive has returned; what it logs and its sleeps are left out
  abbrev pub poll : Consumer W → Result (Option Message) → World W → Option (Unit {0}) × World W
  poll c (err e) w = (some tt, w)
  poll c (ok none) w = (some tt, w)
  poll c (ok (some m)) w = polled (on_receive_message c m w)

  abbrev pub swallowed : Option (Result (Unit {0})) × World W → Option (Result (Unit {0})) × World W
  swallowed (none, w) = (none, w)
  swallowed (some r, w) = (some (ok tt), w)

  -- handleLambdaCall
  abbrev pub handle_lambda_call :
      Consumer W → List (String × ReceiveCount) → World W → Option (Result (Unit {0})) × World W
  handle_lambda_call c ((body, n) ∷ []) w =
      swallowed (on_receive_message c (lambda_message body n) w)
  handle_lambda_call c records w = (some (err (message "invalid events records count")), w)

-- TryReceive, from the answer of ReceiveMessage
abbrev pub try_receive : Result (List Message) → Result (Option Message)
try_receive (err e) = err (wrap e)
try_receive (ok []) = ok none
try_receive (ok (m ∷ [])) = ok (some m)
try_receive (ok (m ∷ n ∷ rest)) = err (message "invalid number of messages received from sqs")
