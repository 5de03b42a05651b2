-- ===== src/Broker.antt =====
-- tailnet_broker.py: the admission of connections and the lane that each is given. The steps of a
-- lock or a semaphore are atomic, so each call is one step.
pub mod Seats
pub mod Dispatch
pub mod States
use cross_agent_chat.Prelude.{
  leb, eqb, if◌then◌else◌, ℕ, ◌+◌, ◌-◌, Bool, true, false, not, Option, none, some, List, [], ◌∷◌,
}
use cross_agent_chat.Json.{Fields, get, as_str}
use cross_agent_chat.Text.{Text, codes, ◌==◌}

abbrev pub max_broker_connections : ℕ
max_broker_connections = 16

abbrev pub max_broker_connections_per_peer : ℕ
max_broker_connections_per_peer = 2

-- `BrokerAdmission`: the permits that its semaphore has left, and the entries of its dictionary.
pub record BrokerAdmission : Type 0 where
  pub capacity : ℕ
  pub by_peer : List (Text × ℕ)

unfoldable pub new_admission : BrokerAdmission
new_admission = record { capacity = max_broker_connections; by_peer = [] }

-- `by_peer.get(peer, 0)`
unfoldable pub active : Text → List (Text × ℕ) → ℕ
active peer [] = 0
active peer (e ∷ es) = if e.0 == peer then e.1 else active peer es

-- `by_peer[peer] = n`
unfoldable pub put : Text → ℕ → List (Text × ℕ) → List (Text × ℕ)
put peer n [] = (peer, n) ∷ []
put peer n (e ∷ es) = if e.0 == peer then (peer, n) ∷ es else e ∷ put peer n es

-- `by_peer.pop(peer, None)`
unfoldable pub pop : Text → List (Text × ℕ) → List (Text × ℕ)
pop peer [] = []
pop peer (e ∷ es) = if e.0 == peer then pop peer es else e ∷ pop peer es

-- `acquire`
unfoldable pub acquire : Text → BrokerAdmission → Bool × BrokerAdmission
acquire peer a =
    if eqb a.capacity 0
    then (false, a)
    else if leb max_broker_connections_per_peer (active peer a.by_peer)
    then (false, a)
    else (
      true,
      record {
        capacity = a.capacity - 1;
        by_peer = put peer (active peer a.by_peer + 1) a.by_peer;
      },
    )

-- The dictionary after a release.
unfoldable pub vacate : Text → List (Text × ℕ) → List (Text × ℕ)
vacate peer es = if leb (active peer es) 1 then pop peer es else put peer (active peer es - 1) es

-- `release`; a bounded semaphore raises `ValueError` where it has all its permits.
unfoldable pub release : Text → BrokerAdmission → Option BrokerAdmission
release peer a =
    if leb max_broker_connections a.capacity
    then none
    else some (record { capacity = a.capacity + 1; by_peer = vacate peer a.by_peer })

-- What a connection is given: a worker, a worker of the callback lane, a writer that tells it that
-- it is refused, or a plain close.
pub data Lane : Type 0 where
  served probed refused_aloud closed : Lane

-- The broker's admission, that of the callback lane, and the permits of the refusal writers.
pub record Lanes : Type 0 where
  pub admission : BrokerAdmission
  pub callbacks : Option BrokerAdmission
  pub refusals : Option ℕ

-- `_refuse_overflow`, or else the close.
unfoldable pub refuse_overflow : Lanes → Lane × Lanes
refuse_overflow l = elim l.refusals [
  | none ↦ (closed, l)
  | some n ↦ if eqb n 0 then (closed, l) else (refused_aloud, record l { refusals = some (n - 1) })
]

-- `ready is not None and ready.get("operation") != "authorize"`
unfoldable pub names_other : Option Fields → Bool
names_other none = false
names_other (some fs) = elim (as_str (get (codes "operation") fs)) [
  | none ↦ true
  | some operation ↦ not (operation == codes "authorize")
]

-- The callback lane, or else the refusal.
unfoldable pub overflow : Text → Lanes → Lane × Lanes
overflow peer l = elim l.callbacks [
  | none ↦ refuse_overflow l
  | some a ↦
      let (admitted, a') = acquire peer a in
      if admitted then (probed, record l { callbacks = some a' }) else refuse_overflow l
]

-- `dispatch_broker_connection`; `ready` is the complete request that is buffered, if one is.
unfoldable pub dispatch_broker_connection : Option Fields → Text → Lanes → Lane × Lanes
dispatch_broker_connection ready peer l =
    let (admitted, a') = acquire peer l.admission in
    if admitted
    then (served, record l { admission = a' })
    else if names_other ready
    then refuse_overflow l
    else overflow peer l

-- Its answer: a closed connection was not given to anyone.
unfoldable pub is_dispatched : Lane → Bool
is_dispatched closed = false
is_dispatched _ = true

-- `budget.release()` of a refusal writer
unfoldable pub release_writer : Lanes → Option Lanes
release_writer l = elim l.refusals [
  | none ↦ none
  | some n ↦
      if leb max_broker_connections n then none else some (record l { refusals = some (n + 1) })
]

-- The lanes that the broker serves with.
unfoldable pub new_lanes : Lanes
new_lanes = record {
  admission = new_admission;
  callbacks = some new_admission;
  refusals = some max_broker_connections;
}
