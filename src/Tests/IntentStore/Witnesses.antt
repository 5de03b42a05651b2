-- ===== src/Tests/IntentStore/Witnesses.antt =====
-- The theorems on the delivery records, each at an input that meets its hypotheses.
use cross_agent_chat.Prelude.{
  leb, if◌then◌else◌, keep, ℕ, ◌+◌, ◌≡◌, refl, ◌≢◌, ◌↔◌, ◌⊎◌, inl, true, none, some, List, [], ◌∷◌,
}
use cross_agent_chat.Core.{
  pending, remote_authorized, transport_accepted, resolved_by_owner, invalid, message, unresolved,
  abandoned, err, ok,
}
use cross_agent_chat.Core.Intent.{Intent, intent_from_object, intent_to_dict}
use cross_agent_chat.IntentStore.{
  Disk, abandoned_after, in_flight, blocks, set_status, intents, intent_for_source, begin_identity,
  claim_remote_authorization, mark, resolve_by_owner,
}
use cross_agent_chat.IntentStore.Refinement.{record_outcome, AnyOutcome, run, Reach, run-Reach}
use cross_agent_chat.Text.{uuid_re}
use cross_agent_chat.Tests.{ones, stamp, world, event_1, event_2, generation_1}
use cross_agent_chat.Core.Intent.RoundTrip.{intent_from_object-to_dict}
use cross_agent_chat.Core.Ids.{valid_uuid, valid_uuid_lem}
use cross_agent_chat.IntentStore.Rows.{row_of, restamp}
use cross_agent_chat.IntentStore.Youngest.{IsYoungest}
use cross_agent_chat.IntentStore.Begin.{begin_identity-blocked}
use cross_agent_chat.IntentStore.Gate.{gate, run-gate}
use cross_agent_chat.IntentStore.Resolve.{
  SetsOnly, mark_lem, Disposable, resolve_by_owner_iff, resolve_by_owner_lem,
}
use cross_agent_chat.IntentStore.Claim.{claimable, claim_remote_authorization_lem, claim_once}
use cross_agent_chat.IntentStore.Lookup.{intent_for_source-begin_identity}
use cross_agent_chat.IntentStore.History.{run-result, run-row_of}
use cross_agent_chat.Tests.IntentStore.{
  program, fresh_disk, delivery, sent, disk_1, reads_none, reads_one, begins_one, calls,
  uuid_event_1, accepted, disk_2, reads_accepted, later_calls, event_2-ne, uuid_event_2,
  found_accepted, disk_3, claims_one, pending-ne, in_order_2, lock_1, found_sent, disk_4,
  resolves_one, sent-IsValid,
}

run-Reach_example :
    (rows' : List Intent) × (intents world (run world calls fresh_disk) ≡ ok rows')
    × Reach world AnyOutcome [] rows'
run-Reach_example =
    run-Reach world AnyOutcome calls fresh_disk [] (uuid_event_1, (tt, (tt, tt))) reads_none

run-gate_example :
    (rows' : List Intent) × (intents world (run world calls fresh_disk) ≡ ok rows')
    × (gate rows' ≡ true)
unfolding gate in_flight
run-gate_example =
    run-gate world calls fresh_disk [] (uuid_event_1, (tt, (refl, tt))) reads_none refl

run-result_example :
    (rows' : List Intent) × (intents world (run world later_calls disk_2) ≡ ok rows')
    × (row_of event_1 rows' ≡ some accepted)
run-result_example =
    run-result world later_calls disk_2 (accepted ∷ []) event_1 accepted
      (tt, (uuid_event_2, (event_2-ne, tt))) reads_accepted found_accepted (inl refl)

run-row_of_example :
    (rows' : List Intent) × (i' : Intent) × (intents world (run world later_calls disk_2)
      ≡ ok rows')
    × (row_of event_1 rows' ≡ some i')
    × (i' ≡ restamp i'.status i'.timestamp accepted)
run-row_of_example =
    run-row_of world later_calls disk_2 (accepted ∷ []) event_1 accepted
      (tt, (uuid_event_2, (tt, tt))) reads_accepted found_accepted

claim_once_example :
    claim_remote_authorization world 12 event_1 delivery
      (run world (record_outcome 9 event_1 transport_accepted ∷ []) disk_3)
    ≢ ok (true, disk_3)
claim_once_example =
    claim_once world 6 12 event_1 delivery delivery disk_1 disk_3 disk_3 (sent ∷ [])
      (record_outcome 9 event_1 transport_accepted ∷ []) reads_one claims_one (pending-ne, tt)

claim_remote_authorization_lem_example :
    (true ≡ claimable event_1 delivery (sent ∷ []))
    × (intents world disk_3 ≡ ok (set_status event_1 remote_authorized (stamp 6) (sent ∷ [])))
unfolding program
claim_remote_authorization_lem_example =
    claim_remote_authorization_lem world 6 event_1 delivery disk_1 disk_3 (sent ∷ []) true reads_one
      claims_one

begin_identity-blocked_example :
    (b : Intent) × (t : ℕ) × (begin_identity world 700_000_000 event_2 none delivery disk_1
      ≡ err (
          if leb (t + abandoned_after) 700_000_000
          then abandoned b.event_id b.status
          else unresolved b.event_id b.status))
    × (blocks delivery b ≡ true)
    × IsYoungest world (keep (blocks delivery) (sent ∷ [])) b t
unfolding program
begin_identity-blocked_example =
    begin_identity-blocked world 700_000_000 event_2 none delivery disk_1 event_2 (sent ∷ [])
      in_order_2 refl refl

-- A pending intent that is ten minutes old is quoted as abandoned.
blocked_abandoned :
    begin_identity world 700_000_000 event_2 none delivery disk_1 ≡ err (abandoned event_1 pending)
unfolding program disk_1
blocked_abandoned = refl

blocked_unresolved :
    begin_identity world 7 event_2 none delivery disk_1 ≡ err (unresolved event_1 pending)
unfolding program disk_1
blocked_unresolved = refl

resolve_by_owner_iff_example :
    ((disk' : Disk) × (resolve_by_owner world 700_000_000 event_1 disk_1 ≡ ok (pending, disk')))
    ↔ Disposable world 700_000_000 sent
resolve_by_owner_iff_example =
    resolve_by_owner_iff world 700_000_000 event_1 disk_1 (sent ∷ []) sent uuid_event_1 lock_1
      reads_one found_sent

resolve_by_owner_lem_example :
    (i : Intent) × (rows' : List Intent) × (row_of event_1 (sent ∷ []) ≡ some i)
    × (pending ≡ i.status)
    × Disposable world 700_000_000 i
    × (intents world disk_4 ≡ ok rows')
    × SetsOnly event_1 resolved_by_owner (sent ∷ []) rows'
resolve_by_owner_lem_example =
    resolve_by_owner_lem world 700_000_000 event_1 disk_1 disk_4 (sent ∷ []) pending reads_one
      resolves_one

mark_lem_example :
    ((row_of event_1 (sent ∷ []) ≡ none)
      × (mark world 9 event_1 transport_accepted disk_1 ≡ err (message "intent is unavailable")))
    ⊎ ((disk' : Disk) × (rows' : List Intent) × (mark world 9 event_1 transport_accepted disk_1
          ≡ ok disk')
        × (intents world disk' ≡ ok rows')
        × SetsOnly event_1 transport_accepted (sent ∷ []) rows')
mark_lem_example =
    mark_lem world 9 event_1 transport_accepted disk_1 (sent ∷ []) uuid_event_1 lock_1 reads_one

intent_for_source-begin_identity_example :
    intent_for_source world event_1 ones generation_1 disk_1 ≡ ok none
unfolding program
intent_for_source-begin_identity_example =
    intent_for_source-begin_identity world 5 event_1 none delivery fresh_disk disk_1 event_1 [] ones
      generation_1 uuid_event_1 reads_none begins_one refl refl

intent_from_object-to_dict_example : intent_from_object world (intent_to_dict sent) ≡ ok sent
intent_from_object-to_dict_example = intent_from_object-to_dict world sent sent-IsValid

valid_uuid_lem_example :
    valid_uuid event_1 "event id"
    ≡ (if uuid_re event_1 then ok event_1 else err (invalid "event id"))
valid_uuid_lem_example = valid_uuid_lem event_1 "event id"
