-- ===== src/Tests/Endpoint.antt =====
-- Two enrolled endpoints, the first of which is revoked.
use cross_agent_chat.Prelude.{distinct_by, ◌≡◌, refl, true, false, none, some, [], ◌∷◌, ◌++◌}
use cross_agent_chat.Core.{ok}
use cross_agent_chat.Core.Ids.{valid_uuid, valid_device, is_surrogate, is_control, valid_name}
use cross_agent_chat.Core.StateFile.{absent, read_rows, atomic_json, map_ok}
use cross_agent_chat.Json.{to_list, of_list, get, keys, member, subset, keys_are, as_str, as_int}
use cross_agent_chat.Json.Int.{ℤ, pos, int_eq}
use cross_agent_chat.Route.{take}
use cross_agent_chat.HelperStore.{the_only}
use cross_agent_chat.Helper.{strip_prefix}
use cross_agent_chat.Subagent.{as_bool}
use cross_agent_chat.Recipient.{BodyCodec}
use cross_agent_chat.Text.{Text, codes, ◌==◌, is_hex64, uuid_re, device_re}
use cross_agent_chat.Text.Uuid.{uuid_str}
use cross_agent_chat.Endpoint.{
  Endpoint, check_callback, check_recipients, check_scope, check_expiry, is_owner, check_endpoint,
  available, endpoint_fields, endpoint_text, optional_string, read_owner, texts_of, recipient_scope,
  endpoint_of_fields, endpoint_from_object, text_or_null, texts_to_items, scope_to_json,
  owner_to_json, endpoint_to_json,
}
use cross_agent_chat.EndpointStore.{
  EndpointRoot, same_endpoint, is_endpoint, store_endpoints, endpoints_lock, put_endpoint,
  endpoints, credential_id, admits, authenticate, revoke,
}
use cross_agent_chat.EndpointStore.Revoked.{finished, authenticate-revoke}
use cross_agent_chat.Tests.{zeros, world, event_1, event_2, generation_1, generation_2, computes}

endpoints_open : Unit {0}
unfolding computes ◌==◌ is_hex64 uuid_re uuid_str device_re valid_uuid valid_device valid_name
    is_surrogate is_control read_rows atomic_json map_ok to_list of_list get keys member subset
    keys_are as_str as_int int_eq take the_only strip_prefix as_bool distinct_by check_callback
    check_recipients check_scope check_expiry is_owner check_endpoint available endpoint_fields
    endpoint_text optional_string read_owner texts_of recipient_scope endpoint_of_fields
    endpoint_from_object text_or_null texts_to_items scope_to_json owner_to_json endpoint_to_json
    same_endpoint is_endpoint store_endpoints endpoints_lock put_endpoint endpoints credential_id
    admits authenticate revoke
endpoints_open = tt

abbrev no_tokens : BodyCodec
no_tokens = record { encode = λ j. []; decode = λ s. none }

abbrev owner : ℤ
owner = pos 501

abbrev enrolled_1 : Endpoint
enrolled_1 = record {
  schema_version = pos 1;
  endpoint_id = event_1;
  generation = generation_1;
  owner_uid = some owner;
  device = codes "mac";
  name = codes "NAME";
  context = codes "CONTEXT";
  credential_hash = zeros;
  expires_at = none;
  revoked = false;
  allowed_recipients = none;
  callback_ref = none;
}

abbrev enrolled_2 : Endpoint
enrolled_2 = record enrolled_1 { endpoint_id = event_2 }

abbrev endpoints_0 : EndpointRoot
endpoints_0 = record { is_private = true; endpoints_file = absent }

endpoints_1 : EndpointRoot
endpoints_1 = store_endpoints (enrolled_1 ∷ enrolled_2 ∷ []) endpoints_0

endpoints_2 : EndpointRoot
endpoints_2 =
    store_endpoints
      (record enrolled_1 { revoked = true; generation = generation_2 } ∷ enrolled_2 ∷ [])
      endpoints_1

revoke_1 : revoke world no_tokens owner event_1 generation_2 endpoints_1 ≡ ok endpoints_2
unfolding endpoints_open endpoints_1 endpoints_2
revoke_1 = refl

abbrev credential_2 : Text
credential_2 = event_2 ++ (b'.' ∷ zeros)

authenticate_2 : authenticate world no_tokens owner credential_2 9 endpoints_2 ≡ ok enrolled_2
unfolding endpoints_open endpoints_1 endpoints_2
authenticate_2 = refl

authenticate-revoke_example : is_endpoint event_1 enrolled_2 ≡ false
authenticate-revoke_example =
    authenticate-revoke world no_tokens owner event_1 generation_2 credential_2 9 endpoints_1
      endpoints_2 endpoints_2 enrolled_2 revoke_1 (finished endpoints_2) authenticate_2
