-- ===== src/Runtime.antt =====
-- runtime.py: the start of a delivery and the answer to a receiver that asks for its
-- authorization, over the delivery records.
pub mod Authorize
pub mod Retry
use cross_agent_chat.Prelude.{ℕ, Bool, true, false, ◌&&◌, Option, none, some}
use cross_agent_chat.Core.{message, Result, ok, ◌>>=◌, ◌>>◌, require, Env}
use cross_agent_chat.Core.Ids.{valid_uuid, valid_name}
use cross_agent_chat.Core.Intent.{Intent}
use cross_agent_chat.IntentStore.{
  Disk, Delivery, intent_for_source, begin_identity, claim_remote_authorization,
}
use cross_agent_chat.Json.{Json, int, str, obj, end, field}
use cross_agent_chat.Json.Int.{pos}
use cross_agent_chat.Text.{Text, codes, ◌==◌}

-- The comparison of `_begin_delivery` with an earlier request.
unfoldable pub same_request : Intent → Delivery → Bool
same_request i d =
    (i.target_key == d.target_key)
    && (i.target_generation == d.target_generation)
    && (i.source_alias == d.source_alias)
    && (i.payload_digest == d.payload_digest)

-- The status of an answer to an authorization.
unfoldable pub answer_status : Bool → Text
answer_status true = codes "AUTHORIZED"
answer_status false = codes "REFUSED"

-- The answer of `authorize_remote`
unfoldable pub authorization : Bool → Text → Delivery → Json
authorization claimed event d = obj (
    field (codes "schema_version") (int (pos 1)) (
      field (codes "event_id") (str event) (
        field (codes "status") (str (answer_status claimed)) (
          field (codes "source_alias") (str d.source_alias) (
            field (codes "source_generation") (str d.source_generation) (
              field (codes "target_key") (str d.target_key) (
                field (codes "target_generation") (str d.target_generation)
                  (field (codes "payload_digest") (str d.payload_digest) end))))))))

module _ (env : Env) where
  -- The delivery of a body.
  abbrev pub carrying : Text → Delivery → Delivery
  carrying body d = record d { payload_digest = env.sha256 body }

  -- What an external source sent under this id before.
  unfoldable pub earlier_request : Bool → Text → Delivery → Disk → Result (Option Intent)
  earlier_request true event d disk =
      intent_for_source env event d.source_key d.source_generation disk
  earlier_request false event d disk = ok none

  -- `_begin_delivery`; `external` is whether the source is an external endpoint.
  unfoldable pub begin_delivery :
      ℕ → Bool → Delivery → Text → Text → Disk → Result (Option Intent × Disk)
  begin_delivery now external d body event disk = do
    earlier ← earlier_request external event d disk
    elim earlier [
      | some i ↦ do
        require (same_request i (carrying body d))
            (message "request id was already used with different content or recipient")
        ok (some i, disk)
      | none ↦ do
        begun ← begin_identity env now event (some event) (carrying body d) disk
        ok (none, begun.1)
    ]

  -- `authorize_remote`
  unfoldable pub authorize_remote : ℕ → Text → Delivery → Disk → Result (Json × Disk)
  authorize_remote now event d disk = do
    valid_uuid event "event id"
    valid_name env d.source_alias "source alias"
    valid_uuid d.source_generation "source generation"
    valid_uuid d.target_generation "target generation"
    claim ← claim_remote_authorization env now event d disk
    ok (authorization claim.0 event d, claim.1)
