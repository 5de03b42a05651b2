-- ===== src/Tests/Broker.antt =====
-- A broker with two connections of one peer and a third: the theorems at concrete inputs.
use cross_agent_chat.Prelude.{length, ◌≤◌, ◌≡◌, refl, none, some, [], ◌∷◌, arith}
use cross_agent_chat.Json.{get, as_str}
use cross_agent_chat.Text.{Text, codes, ◌==◌}
use cross_agent_chat.Broker.{
  max_broker_connections, max_broker_connections_per_peer, BrokerAdmission, new_admission, active,
  put, pop, acquire, vacate, release, probed, Lanes, refuse_overflow, names_other, overflow,
  dispatch_broker_connection, new_lanes,
}
use cross_agent_chat.Broker.Seats.{count, leave}
use cross_agent_chat.Broker.Dispatch.{Busy, has_seat, lane_for, enter, Reachable, start, connect}
use cross_agent_chat.Broker.States.{state_bounds, dispatch_broker_connection_lem, release-Reachable}

lanes : Unit {0}
unfolding get as_str ◌==◌ new_admission active put pop acquire vacate release refuse_overflow
    names_other overflow dispatch_broker_connection new_lanes count leave has_seat lane_for enter
lanes = tt

abbrev peer : Text
peer = codes "100.64.0.1"

abbrev busy_2 : Busy
busy_2 = record { workers = peer ∷ peer ∷ []; probes = []; writers = 0 }

lanes_2 : Lanes
lanes_2 =
    (dispatch_broker_connection none peer (dispatch_broker_connection none peer new_lanes).1).1

reaches_2 : Reachable busy_2 lanes_2
unfolding lanes lanes_2
reaches_2 = connect none peer (connect none peer start)

-- The third connection of the peer is probed in the callback lane.
third_probed : (dispatch_broker_connection none peer lanes_2).0 ≡ probed
unfolding lanes lanes_2
third_probed = refl

state_bounds_example :
    (length busy_2.workers ≤ max_broker_connections)
    × (length busy_2.probes ≤ max_broker_connections)
    × (busy_2.writers ≤ max_broker_connections)
    × (count peer busy_2.workers ≤ max_broker_connections_per_peer)
    × (count peer busy_2.probes ≤ max_broker_connections_per_peer)
state_bounds_example = state_bounds busy_2 lanes_2 peer reaches_2

dispatch_broker_connection_lem_example :
    (dispatch_broker_connection none peer lanes_2).0 ≡ lane_for none peer busy_2
dispatch_broker_connection_lem_example =
    dispatch_broker_connection_lem busy_2 lanes_2 none peer reaches_2

two_at_work : 1 ≤ count peer busy_2.workers
unfolding lanes
two_at_work = omega arith

release-Reachable_example :
    (a : BrokerAdmission) × (release peer lanes_2.admission ≡ some a)
    × Reachable
        (record busy_2 { workers = leave peer busy_2.workers })
        (record lanes_2 { admission = a })
release-Reachable_example = release-Reachable busy_2 lanes_2 peer reaches_2 two_at_work
