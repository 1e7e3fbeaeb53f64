-- ===== src/Queue/Delivery.antt =====
-- From a producer through SQS to the handler, and what becomes of the message afterwards.
use mathlib.Core.List.Memᴰ.{Memᴰ, head, tail}
use mathlib.Core.Option.{some-injective}
use golangci_api.Base.{
  String, Bool, true, false, ◌≡◌, refl, ◌∙◌, ap, sym, subst, inl, inr, List, [], ◌∷◌, ◌++◌, Option,
  none, some, str_eq, eq_iff, Bool-cases,
}
use golangci_api.Errors.{Result, ok, err, >>=-eq-ok, ◌>>=◌, ok-injective}
use golangci_api.Queue.Producers.{
  Subqueue, Multiplexer, Base, SubqueueMessage, has_id, registered, keep_queue, new_subqueue,
  register, put_called, put_to,
}
use golangci_api.Queue.Producers as Producers
use golangci_api.Queue.Consumers.{
  Codec, Consumer, Locks, find_consumer, register_new, register_consumer, consume_message,
  reflect_consumer, run_handler, consume_parsed, consume_split,
}
use golangci_api.Queue.Sqs.{World, Call, send}
use golangci_api.Queue.Sqs as Sqs

-- The consumers, registered one after the other; the last of the list is the first.
abbrev pub register_all :
    {W : Type 0} → List (String × Consumer W) → Result (List (String × Consumer W))
register_all [] = ok []
register_all ((id, c) ∷ regs) = register_all regs >>= register_consumer id c

register_new-eq-ok :
    {W : Type 0} (o : Option (Consumer W)) (id : String) (c : Consumer W)
    (m : List (String × Consumer W)) {m' : List (String × Consumer W)}
    → register_new o id c m ≡ ok m'
    → (o ≡ none) × (m' ≡ (id, c) ∷ m)
register_new-eq-ok none id c m h = (refl, sym (ok-injective h))
register_new-eq-ok (some old) id c m h = cc

register_all-eq-ok :
    {W : Type 0} (id : String) (c : Consumer W) (regs : List (String × Consumer W))
    {m : List (String × Consumer W)}
    → register_all ((id, c) ∷ regs) ≡ ok m
    → (m₀ : List (String × Consumer W)) × (register_all regs ≡ ok m₀)
      × (find_consumer id m₀ ≡ none)
      × (m ≡ (id, c) ∷ m₀)
register_all-eq-ok id c regs h =
    let (m₀, e, r) = >>=-eq-ok (register_all regs) (register_consumer id c) h in
    let (absent, same) = register_new-eq-ok (find_consumer id m₀) id c m₀ r in (m₀, e, absent, same)

find_consumer-first :
    {W : Type 0} (id : String) (c : Consumer W) (m : List (String × Consumer W))
    → find_consumer id ((id, c) ∷ m) ≡ some c
find_consumer-first id c m = rw ((eq_iff id id).1 refl) refl

find_consumer-later :
    {W : Type 0} (id id₁ : String) (c c₁ : Consumer W) (m : List (String × Consumer W))
    → find_consumer id₁ m ≡ none
    → find_consumer id m ≡ some c
    → find_consumer id ((id₁, c₁) ∷ m) ≡ some c
find_consumer-later id id₁ c c₁ m absent found = elim (Bool-cases (str_eq id₁ id)) [
  | inr f ↦ rw f found
  | inl t ↦
      let same : find_consumer id m ≡ none =
        subst (λ x. find_consumer x m ≡ none) ((eq_iff id₁ id).0 t) absent in
      cc
]

-- A consumer that is registered is the one that its id finds.
pub find_consumer-register_all :
    {W : Type 0} (regs : List (String × Consumer W)) {m : List (String × Consumer W)} {id : String}
    {c : Consumer W}
    → register_all regs ≡ ok m
    → Memᴰ (id, c) regs
    → find_consumer id m ≡ some c
find_consumer-register_all [] h at = elim at [ ]
find_consumer-register_all ((id₁, c₁) ∷ regs) {m} {id} {c} h at =
    let (m₀, e, absent, same) = register_all-eq-ok id₁ c₁ regs h in
    rw same (elim at [
      | head q ↦
          subst (λ x. find_consumer x.0 ((id₁, c₁) ∷ m₀) ≡ some x.1) (sym q)
            (find_consumer-first id₁ c₁ m₀)
      | tail at' ↦ find_consumer-later id id₁ c c₁ m₀ absent (find_consumer-register_all regs e at')
    ])

-- What a producer has registered and put.
keep_queue-eq-ok :
    (r : Result Subqueue × Multiplexer) (p : Base) {p' : Base} {m' : Multiplexer}
    → keep_queue r p ≡ (ok tt, (p', m'))
    → (q : Subqueue) × (r.0 ≡ ok q) × (p'.q ≡ some q)
keep_queue-eq-ok (err e, m) p h = cc
keep_queue-eq-ok (ok q, m) p h = (q, refl, sym (ap (λ x. x.1.0.q) h))

registered-eq-ok :
    (b : Bool) (id : String) (m : Multiplexer) {q : Subqueue}
    → (registered b id m).0 ≡ ok q
    → q ≡ record { id = id }
registered-eq-ok true id m h = cc
registered-eq-ok false id m h = sym (ok-injective h)

pub register-eq-ok :
    (queue_id : String) (p : Base) (m : Multiplexer) {p' : Base} {m' : Multiplexer}
    → register queue_id p m ≡ (ok tt, (p', m'))
    → p'.q ≡ some (record { id = queue_id })
register-eq-ok queue_id p m h =
    let (q, e, at) = keep_queue-eq-ok (new_subqueue queue_id m) p h in
    at ∙ ap some (registered-eq-ok (has_id queue_id m.subqueues) queue_id m e)

put_called-eq-ok :
    {W : Type 0} (r : Result (Unit {0}) × W) {w' : W}
    → put_called r ≡ (some (ok tt), w')
    → r ≡ (ok tt, w')
put_called-eq-ok (err e, w) h = cc
put_called-eq-ok (ok _, w) h = ap (λ x. (ok tt, x.1)) h

put_to-eq-ok :
    {M W : Type 0} (parent_put : SubqueueMessage M → W → Result (Unit {0}) × W) (id : String)
    (q : Option Subqueue) (x : M) (w : W) {w' : W}
    → q ≡ some (record { id = id })
    → put_to parent_put q x w ≡ (some (ok tt), w')
    → parent_put (record { subqueue_id = id; content = x }) w ≡ (ok tt, w')
put_to-eq-ok parent_put id none x w e h = cc
put_to-eq-ok parent_put id (some q) x w {w'} e h =
    subst (λ i. parent_put (record { subqueue_id = i; content = x }) w ≡ (ok tt, w'))
      (ap (λ y. y.id) (some-injective _ _ e))
      (put_called-eq-ok (parent_put (record { subqueue_id = q.id; content = x }) w) h)

send_marshalled-eq-ok :
    {W : Type 0} (answer : Call → Result (Unit {0})) (r : Result String) (w : World W)
    {w' : World W}
    → Sqs.send_marshalled answer r w ≡ (ok tt, w')
    → (body : String) × (r ≡ ok body) × (w' ≡ record w { calls = w.calls ++ send body ∷ [] })
send_marshalled-eq-ok answer (err e) w h = cc
send_marshalled-eq-ok answer (ok body) w h = (body, refl, sym (ap (λ x. x.1) h))

consume_split-eq-ok :
    {W : Type 0} (m : List (String × Consumer W)) (r : Result (String × String)) {id raw : String}
    {c : Consumer W} (s : W)
    → r ≡ ok (id, raw)
    → find_consumer id m ≡ some c
    → consume_split m r s ≡ c raw s
consume_split-eq-ok m r s e f = rw e (rw f refl)

module _ {M W : Type 0} (codec : Codec M) (answer : Call → Result (Unit {0})) (l : Locks W)
    (lock_id : M → String) (handler : M → W → Result (Unit {0}) × W) where
  -- The queue has been sent one text, and to consume it is to run the handler on the message.
  abbrev pub Delivered : List (String × Consumer W) → M → World W → World W → Type 0
  Delivered consumers x w w' =
      (body : String) × (w'.calls ≡ w.calls ++ send body ∷ [])
      × (w'.state ≡ w.state)
      × ((s : W) → consume_message codec.split consumers body s ≡ run_handler l lock_id handler x s)

  -- The consumers of a queue are registered under ids of their own, the producer has registered
  -- under the id of one of them, which reads the messages that the producer writes. When the
  -- producer has put a message, the queue has been sent one text and nothing else has changed;
  -- whoever consumes that text runs the handler of that id on the message that was put, and does
  -- nothing else.
  pub put-Delivered :
      (regs consumers : List (String × Consumer W)) (id : String) (p p' : Base) (m m' : Multiplexer)
      (x : M) (w w' : World W)
      → register_all regs ≡ ok consumers
      → Memᴰ (id, reflect_consumer l lock_id handler codec.parse) regs
      → register id p m ≡ (ok tt, (p', m'))
      → Producers.put (Sqs.put answer codec.marshal) p' x w ≡ (some (ok tt), w')
      → Delivered consumers x w w'
  put-Delivered regs consumers id p p' m m' x w w' r at k h =
      let (body, marshalled, same) =
        send_marshalled-eq-ok answer (codec.marshal id x) w
          (put_to-eq-ok (Sqs.put answer codec.marshal) id p'.q x w (register-eq-ok id p m k) h) in
      let (raw, split, parsed) = codec.codec_law id x marshalled in
      (
        body,
        ap (λ v. v.calls) same,
        ap (λ v. v.state) same,
        λ s.
            consume_split-eq-ok consumers (codec.split body) s split
              (find_consumer-register_all regs r at)
            ∙ ap (λ y. consume_parsed l lock_id handler y s) parsed,
      )
