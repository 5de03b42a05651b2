-- ===== src/Tests/IntentStore.antt =====
-- The delivery records at concrete inputs.
mod Witnesses
mod Sending
use cross_agent_chat.Prelude.{◌≡◌, refl, ◌≢◌, true, none, some, List, [], ◌∷◌}
use cross_agent_chat.Core.{
  pending, remote_authorized, transport_accepted, unknown_delivery, resolved_by_owner, ok,
}
use cross_agent_chat.Core.Intent.{
  Intent, read_status, text_field, intent_of_fields, check_intent, intent_from_object,
  intent_to_dict,
}
use cross_agent_chat.Core.StateFile.{absent, read_rows, atomic_json, map_ok}
use cross_agent_chat.IntentStore.{
  Disk, state_lock, distinct, in_flight, is_pending, Delivery, blocks, claims, has_id, owned,
  set_status, require_one, intents_of_raw, intents, store, intent_for_source, youngest,
  refuse_unresolved, new_intent, check_delivery, event_identifier, begin_identity,
  claim_remote_authorization, mark, resolve_row, resolve_by_owner,
}
use cross_agent_chat.Text.{codes, ◌==◌, ne_of_false, is_hex64, uuid_re}
use cross_agent_chat.Tests.{
  zeros, ones, twos, digest, world, event_1, event_2, generation_1, generation_2, computes,
}
use cross_agent_chat.Text.Uuid.{uuid_str}
use cross_agent_chat.Core.Ids.{
  valid_uuid, is_surrogate, is_control, valid_name, parse_timestamp, is_name,
}
use cross_agent_chat.Json.Int.{int_eq}
use cross_agent_chat.IntentStore.Rows.{row_of}
use cross_agent_chat.IntentStore.Gate.{rivals, gate}
use cross_agent_chat.Json.{get, member, keys_are, equals_one, as_str}
use cross_agent_chat.IntentStore.Claim.{claimable}
use cross_agent_chat.IntentStore.Refinement.{
  Call, begin, claim, record_outcome, resolve, perform, run,
}
use cross_agent_chat.IntentStore.Begin.{Ready}
use cross_agent_chat.Core.Intent.RoundTrip.{IsValid}

program : Unit {0}
unfolding computes ◌==◌ is_hex64 uuid_re uuid_str valid_uuid valid_name is_surrogate is_control
    parse_timestamp member keys_are get as_str equals_one int_eq text_field read_status
    intent_of_fields check_intent intent_from_object intent_to_dict is_name read_rows atomic_json
    map_ok state_lock distinct in_flight is_pending blocks claims owned has_id set_status
    require_one intents_of_raw intents store intent_for_source youngest refuse_unresolved new_intent
    check_delivery event_identifier begin_identity claim_remote_authorization mark resolve_row
    resolve_by_owner row_of claimable gate rivals
program = tt

abbrev fresh_disk : Disk
fresh_disk = record { is_private = true; intents_file = absent }

abbrev delivery : Delivery
delivery = record {
  source_key = zeros;
  source_generation = generation_1;
  source_alias = codes "claude@mac:project";
  target_key = ones;
  target_generation = generation_2;
  payload_digest = twos;
}

abbrev sent : Intent
sent = record {
  schema_version = 1;
  event_id = event_1;
  source_key = zeros;
  source_generation = generation_1;
  source_alias = codes "claude@mac:project";
  target_key = ones;
  target_generation = generation_2;
  payload_digest = twos;
  status = pending;
  timestamp = 5 ∷ [];
}

disk_1 : Disk
disk_1 = store world (sent ∷ []) fresh_disk

reads_none : intents world fresh_disk ≡ ok []
unfolding program
reads_none = refl

reads_one : intents world disk_1 ≡ ok (sent ∷ [])
unfolding program disk_1
reads_one = refl

begins_one : begin_identity world 5 event_1 none delivery fresh_disk ≡ ok (event_1, disk_1)
unfolding program disk_1
begins_one = refl

abbrev calls : List Call
calls =
    begin 5 event_1 none delivery
    ∷ claim 6 event_1 delivery
    ∷ record_outcome 9 event_1 transport_accepted
    ∷ []

ends_accepted :
    intents world (run world calls fresh_disk)
    ≡ ok (record sent { status = transport_accepted; timestamp = 9 ∷ [] } ∷ [])
unfolding program run perform
ends_accepted = refl

uuid_event_1 : uuid_re event_1 ≡ true
unfolding program
uuid_event_1 = refl

-- The sent intent, with its result recorded.
abbrev accepted : Intent
accepted = record sent { status = transport_accepted; timestamp = 9 ∷ [] }

disk_2 : Disk
disk_2 = store world (accepted ∷ []) fresh_disk

reads_accepted : intents world disk_2 ≡ ok (accepted ∷ [])
unfolding program disk_2
reads_accepted = refl

abbrev later_calls : List Call
later_calls =
    resolve 700_000_000 event_1
    ∷ begin 8 event_2 none delivery
    ∷ record_outcome 9 event_2 unknown_delivery
    ∷ []

event_2-ne : event_2 ≢ event_1
unfolding program
event_2-ne = ne_of_false event_2 event_1 refl

uuid_event_2 : uuid_re event_2 ≡ true
unfolding program
uuid_event_2 = refl

found_accepted : row_of event_1 (accepted ∷ []) ≡ some accepted
unfolding program
found_accepted = refl

disk_3 : Disk
disk_3 =
    store world (record sent { status = remote_authorized; timestamp = 6 ∷ [] } ∷ []) fresh_disk

claims_one : claim_remote_authorization world 6 event_1 delivery disk_1 ≡ ok (true, disk_3)
unfolding program disk_1 disk_3
claims_one = refl

pending-ne : transport_accepted ≢ pending
pending-ne e = cc

in_order_2 : Ready world event_2 none delivery disk_1 event_2 (sent ∷ [])
unfolding program disk_1
in_order_2 = record { root = refl; reads = reads_one; named = refl; checked = refl }

lock_1 : state_lock disk_1 ≡ ok tt
unfolding program disk_1
lock_1 = refl

found_sent : row_of event_1 (sent ∷ []) ≡ some sent
unfolding program
found_sent = refl

disk_4 : Disk
disk_4 =
    store world (record sent { status = resolved_by_owner; timestamp = 700_000_000 ∷ [] } ∷ [])
      fresh_disk

resolves_one : resolve_by_owner world 700_000_000 event_1 disk_1 ≡ ok (pending, disk_4)
unfolding program disk_1 disk_4
resolves_one = refl

sent-IsValid : IsValid world sent
unfolding program
sent-IsValid = record {
  version = refl;
  event = refl;
  source_generation = refl;
  target_generation = refl;
  alias = refl;
  source = refl;
  target = refl;
  digest = refl;
  timed = refl;
}
