-- ===== src/Queue/Examples.antt =====
-- A message that says which job to do, through a queue to its handler.
use mathlib.Core.List.Memᴰ.{head}
use golangci_api.Base.{
  String, ◌≡◌, ◌↔◌, ◌*◌, ◌^◌, ◌≤◌, refl, arith, List, [], ◌∷◌, ◌++◌, none, some, if◌then◌else◌,
  str_eq, eq_iff, Bool-cases, ap, sym, inl, inr,
}
use golangci_api.Base.Int.{pos}
use golangci_api.Errors.{Result, ok, err, wrap, permanent, queue_failure}
use golangci_api.Queue.Producers.{Base, new_multiplexer}
use golangci_api.Queue.Consumers.{Codec, Consumer, Locks, reflect_consumer}
use golangci_api.Queue.Sqs.{
  World, Call, send, count, delay_sec, on_receive_message, handle_lambda_call,
}
use golangci_api.Queue.Delivery.{Delivered, put-Delivered}
use golangci_api.Queue.Acks.{Acked, polled_message, on_receive_message-Acked}
use golangci_api.Queue.Backoff.{waited, delay_sec_total}

-- A message is its text, and one queue has messages of that kind.
marshal : String → String → Result String
marshal id m = if str_eq id "jobs" then ok m else err queue_failure

marshal_law :
    (id m : String) {body : String}
    → marshal id m ≡ ok body
    → (raw : String) × (◌≡◌ {A = Result (String × String)} (ok ("jobs", body)) (ok (id, raw)))
      × (◌≡◌ {A = Result String} (ok raw) (ok m))
unfolding marshal
marshal_law id m {body} h = elim (Bool-cases (str_eq id "jobs")) [
  | inl t ↦ (body, ap (λ x. ok (x, body)) (sym ((eq_iff id "jobs").0 t)), sym (rw t at h))
  | inr f ↦ let wrong : ◌≡◌ {A = Result String} (err queue_failure) (ok body) = rw f at h in cc
]

codec : Codec String
codec = record {
  marshal = marshal;
  split = λ body. ok ("jobs", body);
  parse = λ raw. ok raw;
  codec_law = marshal_law;
}

-- The state is the jobs that have run; every lock is free.
abbrev Ran : Type 0
Ran = List String

abbrev locks : Locks Ran
locks = record { lock = λ id w. ok w; unlock = λ id w. w }

abbrev run_job : String → Ran → Result (Unit {0}) × Ran
run_job job w = (ok tt, w ++ job ∷ [])

abbrev accepts : Call → Result (Unit {0})
accepts c = ok tt

abbrev lock_id : String → String
lock_id job = job

jobs : Consumer Ran
unfolding codec
jobs = reflect_consumer locks lock_id run_job codec.parse

abbrev none_yet : Base
none_yet = record { q = none }

abbrev registered : Base
registered = record { q = some (record { id = "jobs" }) }

abbrev idle : World Ran
idle = record { state = []; calls = [] }

abbrev sent : World Ran
sent = record { state = []; calls = send "lint" ∷ [] }

put-Delivered_example :
    Delivered codec accepts locks lock_id run_job (("jobs", jobs) ∷ []) "lint" idle sent
unfolding codec marshal jobs
put-Delivered_example =
    put-Delivered codec accepts locks lock_id run_job (("jobs", jobs) ∷ []) (("jobs", jobs) ∷ [])
      "jobs" none_yet registered new_multiplexer (record { subqueues = "jobs" ∷ [] }) "lint" idle
      sent refl (head refl) refl refl

refuses : Consumer Ran
refuses body w = (err (wrap permanent), w)

on_receive_message-Acked_example :
    Acked accepts refuses "h1" "lint"
      (count 3)
      idle
      (on_receive_message accepts refuses (polled_message "h1" "m1" "lint" (count 3)) idle).1
    × (handle_lambda_call accepts refuses (("lint", count 3) ∷ []) idle
        ≡ (none, record idle { state = (refuses "lint" []).1 }))
on_receive_message-Acked_example =
    on_receive_message-Acked accepts refuses "h1" "m1" "lint" (count 3) idle

delay_sec_total_example : (delay_sec 10 ≡ pos (2 ^ 10 * 20)) × (waited 10 ≤ 43200 ↔ 10 ≤ 10)
delay_sec_total_example = delay_sec_total 10 (omega arith)
