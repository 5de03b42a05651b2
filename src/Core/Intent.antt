-- ===== src/Core/Intent.antt =====
-- core.py `Intent`: one delivery record without message content, and its form in the state file.
pub mod RoundTrip
use cross_agent_chat.Prelude.{if◌then◌else◌, ℕ, String, Option, none, some, List, [], ◌∷◌}
use cross_agent_chat.Core.{
  Status, pending, remote_authorized, pre_effect_rejected, transport_accepted, unknown_delivery,
  resolved_by_owner, Error, message, Result, ok, err, ◌>>=◌, ◌>>◌, require, or_fail, Env,
}
use cross_agent_chat.Core.Ids.{valid_uuid, valid_name, parse_timestamp}
use cross_agent_chat.Json.{
  Json, int, str, obj, Fields, end, field, get, keys_are, equals_one, as_str,
}
use cross_agent_chat.Json.Int.{pos}
use cross_agent_chat.Text.{Text, codes, ◌==◌, is_hex64}

abbrev pub schema_version_number : ℕ
schema_version_number = 1

-- The rows of a state file: what Python's `dict` literal `to_dict` writes.
pub record Intent : Type 0 where
  pub schema_version : ℕ
  pub event_id : Text
  pub source_key : Text
  pub source_generation : Text
  pub source_alias : Text
  pub target_key : Text
  pub target_generation : Text
  pub payload_digest : Text
  pub status : Status
  pub timestamp : Text

-- The literals of `IntentStatus`.
unfoldable pub status_text : Status → Text
status_text pending = codes "PENDING"
status_text remote_authorized = codes "REMOTE_AUTHORIZED"
status_text pre_effect_rejected = codes "PRE_EFFECT_REJECTED"
status_text transport_accepted = codes "TRANSPORT_ACCEPTED"
status_text unknown_delivery = codes "UNKNOWN_DELIVERY"
status_text resolved_by_owner = codes "RESOLVED_BY_OWNER"

-- `values["status"] not in allowed`
unfoldable pub read_status : Text → Option Status
unfolding status_text
read_status s =
    if s == status_text pending
    then some pending
    else if s == status_text remote_authorized
    then some remote_authorized
    else if s == status_text pre_effect_rejected
    then some pre_effect_rejected
    else if s == status_text transport_accepted
    then some transport_accepted
    else if s == status_text unknown_delivery
    then some unknown_delivery
    else if s == status_text resolved_by_owner
    then some resolved_by_owner
    else none

unfoldable pub intent_fields : List Text
intent_fields =
    codes "schema_version"
    ∷ codes "event_id"
    ∷ codes "source_key"
    ∷ codes "source_generation"
    ∷ codes "source_alias"
    ∷ codes "target_key"
    ∷ codes "target_generation"
    ∷ codes "payload_digest"
    ∷ codes "status"
    ∷ codes "timestamp"
    ∷ []

abbrev pub intent_schema : Error
intent_schema = message "intent schema is unsupported"

-- `isinstance(values[key], str)`
unfoldable pub text_field : String → Fields → Result Text
unfolding as_str get
text_field key fs = or_fail (as_str (get (codes key) fs)) intent_schema

-- The first half of `Intent.from_object`: the keys and the types of the values.
unfoldable pub intent_of_fields : Fields → Result Intent
unfolding keys_are intent_fields text_field read_status equals_one
intent_of_fields fs = do
  require (keys_are intent_fields fs) intent_schema
  version ← or_fail (get (codes "schema_version") fs) intent_schema
  require (equals_one version) intent_schema
  event_id ← text_field "event_id" fs
  source_key ← text_field "source_key" fs
  source_generation ← text_field "source_generation" fs
  source_alias ← text_field "source_alias" fs
  target_key ← text_field "target_key" fs
  target_generation ← text_field "target_generation" fs
  payload_digest ← text_field "payload_digest" fs
  status_name ← text_field "status" fs
  timestamp ← text_field "timestamp" fs
  status ← or_fail (read_status status_name) intent_schema
  ok (record {
    schema_version = schema_version_number;
    event_id = event_id;
    source_key = source_key;
    source_generation = source_generation;
    source_alias = source_alias;
    target_key = target_key;
    target_generation = target_generation;
    payload_digest = payload_digest;
    status = status;
    timestamp = timestamp;
  })

module _ (env : Env) where
  -- Its second half: what the values must be.
  unfoldable pub check_intent : Intent → Result Intent
  check_intent i = do
    valid_uuid i.event_id "event id"
    valid_uuid i.source_generation "source generation"
    valid_uuid i.target_generation "target generation"
    valid_name env i.source_alias "source alias"
    require (is_hex64 i.source_key) intent_schema
    require (is_hex64 i.target_key) intent_schema
    require (is_hex64 i.payload_digest) intent_schema
    parse_timestamp env i.timestamp
    ok (record i { schema_version = schema_version_number })

  -- `Intent.from_object`
  unfoldable pub intent_from_object : Json → Result Intent
  unfolding intent_of_fields
  intent_from_object (obj fs) = do i ← intent_of_fields fs; check_intent i
  intent_from_object _ = err intent_schema

-- `Intent.to_dict`
unfoldable pub intent_to_dict : Intent → Json
unfolding status_text
intent_to_dict i = obj (
    field (codes "schema_version") (int (pos i.schema_version)) (
      field (codes "event_id") (str i.event_id) (
        field (codes "source_key") (str i.source_key) (
          field (codes "source_generation") (str i.source_generation) (
            field (codes "source_alias") (str i.source_alias) (
              field (codes "target_key") (str i.target_key) (
                field (codes "target_generation") (str i.target_generation) (
                  field (codes "payload_digest") (str i.payload_digest) (
                    field (codes "status") (str (status_text i.status))
                      (field (codes "timestamp") (str i.timestamp) end))))))))))
