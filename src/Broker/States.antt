-- ===== src/Broker/States.antt =====
-- Every state of a broker: the bounds on its work, its decisions and its releases.
use cross_agent_chat.Prelude.{
  leb, length, ◌+◌, ◌-◌, ◌≤◌, ◌≡◌, refl, sym, subst, false, Option, some, List, arith,
}
use cross_agent_chat.Json.{Fields}
use cross_agent_chat.Text.{Text}
use cross_agent_chat.Broker.{
  max_broker_connections, max_broker_connections_per_peer, BrokerAdmission, release, Lane, Lanes,
  dispatch_broker_connection, release_writer, new_lanes,
}
use cross_agent_chat.Broker.Seats.{count, leave, Holds, new-Holds, release_lem}
use cross_agent_chat.Broker.Dispatch.{
  Busy, lane_for, enter, Reachable, start, connect, worker_ends, probe_ends, writer_ends,
  Represents, dispatch-Decides,
}

released-Holds :
    (held : List Text) (a a' : BrokerAdmission) (peer : Text)
    → Holds held a
    → 1 ≤ count peer held
    → release peer a ≡ some a'
    → Holds (leave peer held) a'
released-Holds held a a' peer h k e =
    let (found, f, g) = release_lem held a peer h k in
    let same : found ≡ a' = ground (arith, f, e) in subst (Holds (leave peer held)) same g

writer-Represents :
    (b : Busy) (l l' : Lanes)
    → Represents b l
    → 1 ≤ b.writers
    → release_writer l ≡ some l'
    → Represents (record b { writers = b.writers - 1 }) l'
unfolding release_writer
writer-Represents b l l' r k e =
    let room : leb max_broker_connections r.free ≡ false = ground (arith, r.writing) in
    let next : release_writer l ≡ some (record l { refusals = some (r.free + 1) }) =
      rw (release_writer, r.has_free, room) refl in
    let same : record l { refusals = some (r.free + 1) } ≡ l' = ground (arith, next, e) in
    subst (Represents (record b { writers = b.writers - 1 })) same (record {
      at_work = r.at_work;
      lane = r.lane;
      has_lane = r.has_lane;
      probing = r.probing;
      free = r.free + 1;
      has_free = refl;
      writing = omega (arith, r.writing);
    })

Reachable-Represents : (b : Busy) (l : Lanes) → Reachable b l → Represents b l
unfolding new_lanes
Reachable-Represents b l start = record {
  at_work = new-Holds;
  lane = _;
  has_lane = refl;
  probing = new-Holds;
  free = 16;
  has_free = refl;
  writing = refl;
}
Reachable-Represents b l (connect {b = b₀} {l = l₀} ready peer r) =
    let (said, next) = dispatch-Decides ready peer b₀ l₀ (Reachable-Represents b₀ l₀ r) in
    subst
      (λ (lane : Lane).
        Represents (enter lane peer b₀) (dispatch_broker_connection ready peer l₀).1)
      (sym said) next
Reachable-Represents b l (worker_ends {b = b₀} {l = l₀} peer a r k e) =
    let before = Reachable-Represents b₀ l₀ r in
    record {
      at_work = released-Holds b₀.workers l₀.admission a peer before.at_work k e;
      lane = before.lane;
      has_lane = before.has_lane;
      probing = before.probing;
      free = before.free;
      has_free = before.has_free;
      writing = before.writing;
    }
Reachable-Represents b l (probe_ends {b = b₀} {l = l₀} peer c a r k f e) =
    let before = Reachable-Represents b₀ l₀ r in
    let same : before.lane ≡ c = ground (arith, f, before.has_lane) in
    record {
      at_work = before.at_work;
      lane = a;
      has_lane = refl;
      probing = released-Holds b₀.probes c a peer (subst (Holds b₀.probes) same before.probing) k e;
      free = before.free;
      has_free = before.has_free;
      writing = before.writing;
    }
Reachable-Represents b l (writer_ends {b = b₀} {l = l₀} {l' = l'} r k e) =
    writer-Represents b₀ l₀ l' (Reachable-Represents b₀ l₀ r) k e

-- In every state at most 16 connections have a worker, 16 are in the callback lane and 16 are
-- being told of their refusal, and no peer has more than two of the first or of the second kind.
pub state_bounds :
    (b : Busy) (l : Lanes) (peer : Text)
    → Reachable b l
    → (length b.workers ≤ max_broker_connections)
      × (length b.probes ≤ max_broker_connections)
      × (b.writers ≤ max_broker_connections)
      × (count peer b.workers ≤ max_broker_connections_per_peer)
      × (count peer b.probes ≤ max_broker_connections_per_peer)
state_bounds b l peer r =
    let s = Reachable-Represents b l r in
    (
      omega (arith, s.at_work.seats),
      omega (arith, s.probing.seats),
      omega (arith, s.writing),
      s.at_work.bounded peer,
      s.probing.bounded peer,
    )

-- In every state the lane of a new connection is decided by the connections in work alone: a
-- worker where 16 and its peer's two leave a seat; else, unless a request for another operation
-- than authorize is ready, a seat of the callback lane; else a refusal that is told; else a close.
pub dispatch_broker_connection_lem :
    (b : Busy) (l : Lanes) (ready : Option Fields) (peer : Text)
    → Reachable b l
    → (dispatch_broker_connection ready peer l).0 ≡ lane_for ready peer b
dispatch_broker_connection_lem b l ready peer r =
    (dispatch-Decides ready peer b l (Reachable-Represents b l r)).0

-- In every state the end of a connection that has a worker releases its seat: the semaphore does
-- not raise, and the state after it is again one of the broker's.
pub release-Reachable :
    (b : Busy) (l : Lanes) (peer : Text)
    → Reachable b l
    → 1 ≤ count peer b.workers
    → (a : BrokerAdmission) × (release peer l.admission ≡ some a)
      × Reachable (record b { workers = leave peer b.workers }) (record l { admission = a })
release-Reachable b l peer r k =
    let s = Reachable-Represents b l r in
    let (a, e, _) = release_lem b.workers l.admission peer s.at_work k in
    (a, e, worker_ends peer a r k e)
