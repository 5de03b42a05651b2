-- ===== src/Core/Intent/RoundTrip.antt =====
-- A valid intent survives the state file, and what is read from it is valid.
use cross_agent_chat.Prelude.{if◌then◌else◌, is_some, ◌≡◌, refl, true, none, some, arith}
use cross_agent_chat.Core.{
  Status, pending, remote_authorized, pre_effect_rejected, transport_accepted, unknown_delivery,
  resolved_by_owner, invalid, ok, err, Env, >>=-ok,
}
use cross_agent_chat.Core.Ids.{valid_uuid_lem, parse_timestamp, is_name, valid_name_lem}
use cross_agent_chat.Core.Intent.{
  Intent, status_text, read_status, intent_schema, intent_of_fields, check_intent,
  intent_from_object, intent_to_dict,
}
use cross_agent_chat.Text.{◌==◌, is_hex64, uuid_re}
use cross_agent_chat.Json.{Json, obj}

module _ (env : Env) where
  -- What `from_object` asks of a row.
  pub record IsValid (i : Intent) : Type 0 where
    pub version : i.schema_version ≡ 1
    pub event : uuid_re i.event_id ≡ true
    pub source_generation : uuid_re i.source_generation ≡ true
    pub target_generation : uuid_re i.target_generation ≡ true
    pub alias : is_name env i.source_alias ≡ true
    pub source : is_hex64 i.source_key ≡ true
    pub target : is_hex64 i.target_key ≡ true
    pub digest : is_hex64 i.payload_digest ≡ true
    pub timed : is_some (env.parse_time i.timestamp) ≡ true

  read_status-status_text : (s : Status) → read_status (status_text s) ≡ some s
  unfolding read_status ◌==◌
  read_status-status_text pending = refl
  read_status-status_text remote_authorized = refl
  read_status-status_text pre_effect_rejected = refl
  read_status-status_text transport_accepted = refl
  read_status-status_text unknown_delivery = refl
  read_status-status_text resolved_by_owner = refl

  check_intent_lem :
      (i : Intent)
      → check_intent env i ≡ (
          if uuid_re i.event_id
          then if uuid_re i.source_generation
            then if uuid_re i.target_generation
              then if is_name env i.source_alias
                then if is_hex64 i.source_key
                  then if is_hex64 i.target_key
                    then if is_hex64 i.payload_digest
                      then (elim (env.parse_time i.timestamp) [
                        | none ↦ err (invalid "route timestamp")
                        | some t ↦ ok (record i { schema_version = 1 })
                      ])
                      else err intent_schema
                    else err intent_schema
                  else err intent_schema
                else err (invalid "source alias")
              else err (invalid "target generation")
            else err (invalid "source generation")
          else err (invalid "event id"))
  unfolding check_intent parse_timestamp
  check_intent_lem i =
      rw
        (
          valid_uuid_lem i.event_id,
          valid_uuid_lem i.source_generation,
          valid_uuid_lem i.target_generation,
          valid_name_lem env,
        )
        (ground arith)

  check_intent-IsValid : (i j : Intent) → check_intent env i ≡ ok j → IsValid j
  check_intent-IsValid i j h = let h' = rw (check_intent_lem i) at h in ground arith

  check_intent-ok : (i : Intent) → IsValid i → check_intent env i ≡ ok i
  check_intent-ok i v =
      rw
        (
          check_intent_lem, v.event, v.source_generation, v.target_generation, v.alias, v.source,
          v.target, v.digest,
        )
        (ground arith)

  -- Writing a valid intent and reading it back gives the same intent.
  pub intent_from_object-to_dict :
      (i : Intent) → IsValid i → intent_from_object env (intent_to_dict i) ≡ ok i
  unfolding intent_from_object intent_to_dict ◌==◌
  intent_from_object-to_dict i v =
      ground (arith, read_status-status_text i.status, check_intent-ok i v)

  -- What is read from the state file is valid, whatever stands there.
  pub intent_from_object-IsValid :
      (j : Json) (i : Intent) → intent_from_object env j ≡ ok i → IsValid i
  unfolding intent_from_object
  intent_from_object-IsValid (obj fs) i h =
      let (k, _, checked) = >>=-ok (intent_of_fields fs) (check_intent env) h in
      check_intent-IsValid k i checked
  intent_from_object-IsValid j i h = absurd (cc)
