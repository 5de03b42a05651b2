-- ===== src/Tests/Recipient.antt =====
-- A local and a remote token.
use cross_agent_chat.Prelude.{◌≡◌, refl, some, ◌++◌}
use cross_agent_chat.Core.{ok}
use cross_agent_chat.Core.Ids.{valid_uuid}
use cross_agent_chat.Json.{Json}
use cross_agent_chat.Text.{Text, codes, ◌==◌, is_alphanumeric, is_hex64, uuid_re}
use cross_agent_chat.Text.Uuid.{uuid_str}
use cross_agent_chat.Recipient.{
  token_prefix, local_scope, remote_scope, is_token_body, is_node_id, checked_handle,
  checked_node_id, is_body, BodyCodec, token_object, encode_token, local_token, remote_token,
  parse_recipient_token,
}
use cross_agent_chat.Recipient.Minting.{
  local_recipient, remote_recipient, parse_recipient_token-local_token,
  parse_recipient_token-remote_token,
}
use cross_agent_chat.Tests.{zeros, generation_1}

tokens : Unit {0}
unfolding ◌==◌ is_hex64 is_alphanumeric uuid_re uuid_str valid_uuid is_token_body is_node_id
    checked_handle checked_node_id is_body encode_token local_token remote_token
tokens = tt

-- An encoder for one payload.
abbrev only : Json → BodyCodec
only payload = record { encode = λ j. codes "eyJ2"; decode = λ s. some payload }

abbrev local_payload : Json
local_payload = token_object local_scope zeros generation_1 zeros

abbrev remote_payload : Json
remote_payload = token_object remote_scope zeros generation_1 (codes "nABC")

abbrev token_1 : Text
token_1 = token_prefix ++ codes "eyJ2"

parse_recipient_token-local_token_example :
    parse_recipient_token (only local_payload) token_1
    ≡ ok (some (local_recipient zeros zeros generation_1))
unfolding tokens
parse_recipient_token-local_token_example =
    parse_recipient_token-local_token (only local_payload) zeros zeros generation_1 token_1 refl
      refl (record { decodes = refl; shaped = refl }) refl

parse_recipient_token-remote_token_example :
    parse_recipient_token (only remote_payload) token_1
    ≡ ok (some (remote_recipient (codes "nABC") zeros generation_1))
unfolding tokens
parse_recipient_token-remote_token_example =
    parse_recipient_token-remote_token (only remote_payload) (codes "nABC") zeros generation_1
      token_1 refl (record { decodes = refl; shaped = refl }) refl
