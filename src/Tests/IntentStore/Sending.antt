-- ===== src/Tests/IntentStore/Sending.antt =====
-- The start of a delivery and its authorization at concrete inputs.
use cross_agent_chat.Prelude.{if◌then◌else◌, ◌≡◌, refl, true, false, ◌&&◌, none, some, [], ◌∷◌}
use cross_agent_chat.Core.{message, err, ok}
use cross_agent_chat.Core.Intent.{Intent}
use cross_agent_chat.IntentStore.Rows.{restamp}
use cross_agent_chat.IntentStore.{Disk, Delivery, store, new_intent}
use cross_agent_chat.Tests.IntentStore.{
  program, fresh_disk, delivery, sent, disk_1, reads_none, reads_one, uuid_event_1, later_calls,
  uuid_event_2, disk_3,
}
use cross_agent_chat.IntentStore.Refinement.{run}
use cross_agent_chat.Text.{codes, ◌==◌}
use cross_agent_chat.Tests.{zeros, world, event_1}
use cross_agent_chat.Runtime.{
  same_request, answer_status, authorization, carrying, earlier_request, begin_delivery,
  authorize_remote,
}
use cross_agent_chat.Runtime.Authorize.{says, authorize_remote_once}
use cross_agent_chat.Runtime.Retry.{begin_delivery-begin_delivery}

runtime : Unit {0}
unfolding program run same_request answer_status authorization earlier_request begin_delivery
    authorize_remote says disk_1 disk_3
runtime = tt

authorizes_one :
    authorize_remote world 6 event_1 delivery disk_1
    ≡ ok (authorization true event_1 delivery, disk_3)
unfolding runtime
authorizes_one = refl

refuses_two :
    authorize_remote world 7 event_1 delivery (run world [] disk_3)
    ≡ ok (authorization false event_1 delivery, disk_3)
unfolding runtime
refuses_two = refl

says_yes : says (codes "AUTHORIZED") (authorization true event_1 delivery) ≡ true
unfolding runtime
says_yes = refl

authorize_remote_once_example :
    says (codes "AUTHORIZED") (authorization false event_1 delivery) ≡ false
authorize_remote_once_example =
    authorize_remote_once world 6 7 event_1 delivery delivery disk_1 disk_3 disk_3
      (authorization true event_1 delivery) (authorization false event_1 delivery) (sent ∷ []) []
      reads_one authorizes_one says_yes tt refuses_two

disk_5 : Disk
disk_5 = store world (record sent { payload_digest = zeros } ∷ []) fresh_disk

begins_five : begin_delivery world 5 true delivery [] event_1 fresh_disk ≡ ok (none, disk_5)
unfolding runtime disk_5
begins_five = refl

-- The same request but for the alias.
abbrev renamed : Delivery
renamed = record delivery { source_alias = codes "other" }

begin_delivery-begin_delivery_example :
    (i : Intent) × (i
      ≡ restamp i.status i.timestamp (new_intent world 5 event_1 (carrying world [] delivery)))
    × (begin_delivery world 8 true renamed [] event_1 (run world later_calls disk_5) ≡ (
        if (delivery.target_key == renamed.target_key)
          && (delivery.target_generation == renamed.target_generation)
          && (delivery.source_alias == renamed.source_alias)
          && (world.sha256 [] == world.sha256 [])
        then ok (some i, run world later_calls disk_5)
        else err (message "request id was already used with different content or recipient")))
unfolding runtime
begin_delivery-begin_delivery_example =
    begin_delivery-begin_delivery world 5 8 delivery renamed [] [] event_1 fresh_disk disk_5 []
      later_calls reads_none uuid_event_1 refl refl begins_five (tt, (uuid_event_2, (tt, tt))) refl
      refl

-- The alias is compared: the request above is refused.
refuses_renamed :
    begin_delivery world 8 true renamed [] event_1 disk_5
    ≡ err (message "request id was already used with different content or recipient")
unfolding runtime disk_5
refuses_renamed = refl
