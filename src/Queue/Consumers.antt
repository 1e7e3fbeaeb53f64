-- ===== src/Queue/Consumers.antt =====
-- internal/shared/queue/consumers: the consumer that passes a message on by the id of its queue,
-- and the one that decodes it and calls a handler under a distributed lock.
use golangci_api.Base.{String, ◌≡◌, List, [], ◌∷◌, Option, none, some, str_eq, if◌then◌else◌}
use golangci_api.Errors.{Result, ok, err, wrap, message, bad_message}

-- encoding/json on the two forms of a message that goes through a multiplexer: what a producer
-- writes, `marshal`, the consumer takes apart, `split`, and its handler's type is read, `parse`.
pub record Codec (M : Type 0) : Type 0 where
  pub marshal : String → M → Result String
  pub split : String → Result (String × String)
  pub parse : String → Result M
  pub codec_law :
      (id : String) (m : M) {body : String}
      → marshal id m ≡ ok body
      → (raw : String) × (split body ≡ ok (id, raw)) × (parse raw ≡ ok m)

module _ (W : Type 0) where
  -- the interface Consumer
  abbrev pub Consumer : Type 0
  Consumer = String → W → Result (Unit {0}) × W

module _ {W : Type 0} where
  -- The map `consumers`, in the order of the registrations.
  abbrev pub find_consumer : String → List (String × Consumer W) → Option (Consumer W)
  find_consumer id [] = none
  find_consumer id ((x, c) ∷ rest) = if str_eq x id then some c else find_consumer id rest

  abbrev pub register_new :
      Option (Consumer W)
      → String
      → Consumer W
      → List (String × Consumer W)
      → Result (List (String × Consumer W))
  register_new (some old) id c m = err (message "consumer is already registered")
  register_new none id c m = ok ((id, c) ∷ m)

  -- RegisterConsumer
  abbrev pub register_consumer :
      String → Consumer W → List (String × Consumer W) → Result (List (String × Consumer W))
  register_consumer id c m = register_new (find_consumer id m) id c m

  abbrev pub consume_with : Option (Consumer W) → String → W → Result (Unit {0}) × W
  consume_with none body w = (err (message "no consumer with this id"), w)
  consume_with (some c) body w = c body w

  abbrev pub consume_split :
      List (String × Consumer W) → Result (String × String) → W → Result (Unit {0}) × W
  consume_split m (err e) w = (err (wrap e), w)
  consume_split m (ok (id, raw)) w = consume_with (find_consumer id m) raw w

  -- Multiplexer.ConsumeMessage
  abbrev pub consume_message :
      (String → Result (String × String)) → List (String × Consumer W) → Consumer W
  consume_message split m body w = consume_split m (split body) w

-- The lock server: a lock may be refused, and is taken and given back in the state.
pub record Locks (W : Type 0) : Type 0 where
  pub lock : String → W → Result W
  pub unlock : String → W → W

module _ {M W : Type 0} (l : Locks W) (lock_id : M → String)
    (handler : M → W → Result (Unit {0}) × W) where
  abbrev pub handle_locked : M → W → Result W → Result (Unit {0}) × W
  handle_locked m w (err e) = (err (wrap e), w)
  handle_locked m w (ok w₁) = let (r, w₂) = handler m w₁ in (r, l.unlock (lock_id m) w₂)

  -- runHandler, without its timeout
  abbrev pub run_handler : M → W → Result (Unit {0}) × W
  run_handler m w = handle_locked m w (l.lock (lock_id m) w)

  abbrev pub consume_parsed : Result M → W → Result (Unit {0}) × W
  consume_parsed (err e) w = (err (wrap (wrap bad_message)), w)
  consume_parsed (ok m) w = run_handler m w

  -- ReflectConsumer.ConsumeMessage
  abbrev pub reflect_consumer : (String → Result M) → Consumer W
  reflect_consumer parse body w = consume_parsed (parse body) w
