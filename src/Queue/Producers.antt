-- ===== src/Queue/Producers.antt =====
-- internal/shared/queue/producers: many named queues over one, and the producer that has one.
use golangci_api.Base.{String, Bool, true, false, ◌||◌, List, [], ◌∷◌, Option, none, some, str_eq}
use golangci_api.Errors.{Result, ok, err, wrap, message}

-- The map `subqueues`, as the ids that it has.
pub record Multiplexer : Type 0 where
  pub subqueues : List String

abbrev pub new_multiplexer : Multiplexer
new_multiplexer = record { subqueues = [] }

abbrev pub has_id : String → List String → Bool
has_id id [] = false
has_id id (x ∷ xs) = str_eq x id || has_id id xs

pub record Subqueue : Type 0 where
  pub id : String

pub record SubqueueMessage (M : Type 0) : Type 0 where
  pub subqueue_id : String
  pub content : M

abbrev pub registered : Bool → String → Multiplexer → Result Subqueue × Multiplexer
registered true id m = (err (message "subqueue is already registered"), m)
registered false id m = (ok (record { id = id }), record { subqueues = id ∷ m.subqueues })

-- NewSubqueue
abbrev pub new_subqueue : String → Multiplexer → Result Subqueue × Multiplexer
new_subqueue id m = registered (has_id id m.subqueues) id m

-- Base, whose queue is nil before it is registered
pub record Base : Type 0 where
  pub q : Option Subqueue

abbrev pub keep_queue :
    Result Subqueue × Multiplexer → Base → Result (Unit {0}) × (Base × Multiplexer)
keep_queue (err e, m) p = (err (wrap e), (p, m))
keep_queue (ok q, m) p = (ok tt, (record { q = some q }, m))

-- Base.Register
abbrev pub register : String → Base → Multiplexer → Result (Unit {0}) × (Base × Multiplexer)
register queue_id p m = keep_queue (new_subqueue queue_id m) p

abbrev pub put_called : {W : Type 0} → Result (Unit {0}) × W → Option (Result (Unit {0})) × W
put_called (r, w) = (some r, w)

module _ {M W : Type 0} (parent_put : SubqueueMessage M → W → Result (Unit {0}) × W) where
  -- subqueue.Put
  abbrev pub subqueue_put : Subqueue → M → W → Result (Unit {0}) × W
  subqueue_put sq m w = parent_put (record { subqueue_id = sq.id; content = m }) w

  abbrev pub put_to : Option Subqueue → M → W → Option (Result (Unit {0})) × W
  put_to none m w = (none, w)
  put_to (some q) m w = put_called (subqueue_put q m w)

  -- Base.Put; `none` is the panic of a call on a nil queue
  abbrev pub put : Base → M → W → Option (Result (Unit {0})) × W
  put p m w = put_to p.q m w
