-- ===== src/Broker/Dispatch.antt =====
-- The lanes of a broker against the connections that are in work.
use cross_agent_chat.Prelude.{
  ltb, eqb, if◌then◌else◌, Bool-cases, length, ℕ, ◌+◌, ◌-◌, ◌≤◌, ◌≡◌, refl, ◌∙◌, inl, inr, Bool,
  true, false, not, ◌&&◌, Option, some, List, [], ◌∷◌, arith,
}
use cross_agent_chat.Json.{Fields}
use cross_agent_chat.Text.{Text}
use cross_agent_chat.Broker.{
  max_broker_connections, max_broker_connections_per_peer, BrokerAdmission, acquire, release, Lane,
  served, probed, refused_aloud, closed, Lanes, refuse_overflow, names_other, overflow,
  dispatch_broker_connection, release_writer, new_lanes,
}
use cross_agent_chat.Broker.Seats.{count, leave, Holds, acquire_lem}

-- The connections in work: with a worker, in the callback lane, and being told of the refusal.
pub record Busy : Type 0 where
  pub workers : List Text
  pub probes : List Text
  pub writers : ℕ

unfoldable pub has_seat : Text → List Text → Bool
has_seat peer held =
    ltb (length held) max_broker_connections
    && ltb (count peer held) max_broker_connections_per_peer

-- The lane by the connections in work alone.
unfoldable pub lane_for : Option Fields → Text → Busy → Lane
lane_for ready peer b =
    if has_seat peer b.workers
    then served
    else if not (names_other ready) && has_seat peer b.probes
    then probed
    else if ltb b.writers max_broker_connections
    then refused_aloud
    else closed

unfoldable pub enter : Lane → Text → Busy → Busy
enter served peer b = record b { workers = peer ∷ b.workers }
enter probed peer b = record b { probes = peer ∷ b.probes }
enter refused_aloud peer b = record b { writers = b.writers + 1 }
enter closed peer b = b

-- The states of a broker: connections are dispatched one after the other, and what is in work
-- ends in any order.
pub data Reachable : Busy → Lanes → Type 0 where
  start : Reachable (record { workers = []; probes = []; writers = 0 }) new_lanes
  connect :
      {b : Busy} {l : Lanes} (ready : Option Fields) (peer : Text)
      → Reachable b l
      → Reachable
          (enter (dispatch_broker_connection ready peer l).0 peer b)
          (dispatch_broker_connection ready peer l).1
  worker_ends :
      {b : Busy} {l : Lanes} (peer : Text) (a : BrokerAdmission)
      → Reachable b l
      → 1 ≤ count peer b.workers
      → release peer l.admission ≡ some a
      → Reachable (record b { workers = leave peer b.workers }) (record l { admission = a })
  probe_ends :
      {b : Busy} {l : Lanes} (peer : Text) (c a : BrokerAdmission)
      → Reachable b l
      → 1 ≤ count peer b.probes
      → l.callbacks ≡ some c
      → release peer c ≡ some a
      → Reachable (record b { probes = leave peer b.probes }) (record l { callbacks = some a })
  writer_ends :
      {b : Busy} {l l' : Lanes}
      → Reachable b l
      → 1 ≤ b.writers
      → release_writer l ≡ some l'
      → Reachable (record b { writers = b.writers - 1 }) l'

-- The lanes hold what is in work.
pub record Represents (b : Busy) (l : Lanes) : Type 0 where
  pub at_work : Holds b.workers l.admission
  pub lane : BrokerAdmission
  pub has_lane : l.callbacks ≡ some lane
  pub probing : Holds b.probes lane
  pub free : ℕ
  pub has_free : l.refusals ≡ some free
  pub writing : free + b.writers ≡ max_broker_connections

-- The decision and the state after it.
abbrev Decides : Lane → Text → Busy → Lane × Lanes → Type 0
Decides lane peer b d = (d.0 ≡ lane) × Represents (enter lane peer b) d.1

refuse-Decides :
    (peer : Text) (b : Busy) (l : Lanes)
    → Represents b l
    → Decides
        (if ltb b.writers max_broker_connections then refused_aloud else closed)
        peer
        b
        (refuse_overflow l)
unfolding refuse_overflow enter
refuse-Decides peer b l r = elim (Bool-cases (eqb r.free 0)) [
  | inl e ↦
      let full : ltb b.writers max_broker_connections ≡ false = ground (arith, r.writing) in
      rw (refuse_overflow, r.has_free, e, full) (refl, r)
  | inr e ↦
      let room : ltb b.writers max_broker_connections ≡ true = ground (arith, r.writing) in
      rw (refuse_overflow, r.has_free, e, room)
        (
          refl,
          record {
            at_work = r.at_work;
            lane = r.lane;
            has_lane = r.has_lane;
            probing = r.probing;
            free = r.free - 1;
            has_free = refl;
            writing = ground (arith, r.writing);
          },
        )
]

overflow-Decides :
    (peer : Text) (b : Busy) (l : Lanes)
    → Represents b l
    → Decides
        (if has_seat peer b.probes
          then probed
          else if ltb b.writers max_broker_connections
          then refused_aloud
          else closed)
        peer
        b
        (overflow peer l)
unfolding overflow enter has_seat
overflow-Decides peer b l r =
    let (said, kept) = acquire_lem b.probes r.lane peer r.probing in
    elim (Bool-cases (has_seat peer b.probes)) [
      | inl e ↦
          let yes : (acquire peer r.lane).0 ≡ true = said ∙ e in
          rw (overflow, r.has_lane, yes, e)
            (
              refl,
              record {
                at_work = r.at_work;
                lane = (acquire peer r.lane).1;
                has_lane = refl;
                probing = rw yes at kept;
                free = r.free;
                has_free = r.has_free;
                writing = r.writing;
              },
            )
      | inr e ↦
          let no : (acquire peer r.lane).0 ≡ false = said ∙ e in
          rw (overflow, r.has_lane, no, e) (refuse-Decides peer b l r)
    ]

pub dispatch-Decides :
    (ready : Option Fields) (peer : Text) (b : Busy) (l : Lanes)
    → Represents b l
    → Decides (lane_for ready peer b) peer b (dispatch_broker_connection ready peer l)
unfolding dispatch_broker_connection enter lane_for has_seat
dispatch-Decides ready peer b l r =
    let (said, kept) = acquire_lem b.workers l.admission peer r.at_work in
    elim (Bool-cases (has_seat peer b.workers)) [
      | inl e ↦
          let yes : (acquire peer l.admission).0 ≡ true = said ∙ e in
          rw (dispatch_broker_connection, yes, e)
            (
              refl,
              record {
                at_work = rw yes at kept;
                lane = r.lane;
                has_lane = r.has_lane;
                probing = r.probing;
                free = r.free;
                has_free = r.has_free;
                writing = r.writing;
              },
            )
      | inr e ↦
          let no : (acquire peer l.admission).0 ≡ false = said ∙ e in
          elim (Bool-cases (names_other ready)) [
            | inl f ↦ rw (dispatch_broker_connection, no, e, f) (refuse-Decides peer b l r)
            | inr f ↦ rw (dispatch_broker_connection, no, e, f) (overflow-Decides peer b l r)
          ]
    ]
