-- ===== src/Recipient.antt =====
-- recipient.py: the opaque tokens that name one recipient, local or on another node.
pub mod Minting
use cross_agent_chat.Prelude.{
  leb, eqb, if◌then◌else◌, length, all, ℕ, ◌%◌, ◌≡◌, Bool, true, false, not, ◌&&◌, ◌||◌, Option,
  none, some, List, [], ◌∷◌, ◌++◌,
}
use cross_agent_chat.Core.{Error, message, Result, err, ok, ◌>>=◌, ◌>>◌, require, or_fail}
use cross_agent_chat.Core.Ids.{valid_uuid}
use cross_agent_chat.Json.{Json, int, str, obj, end, field, get, keys_are, as_str}
use cross_agent_chat.Json.Int.{pos, int_eq}
use cross_agent_chat.Helper.{strip_prefix}
use cross_agent_chat.Text.{Text, codes, ◌==◌, is_alphanumeric, is_hex64}

abbrev pub token_version : ℕ
token_version = 2

abbrev pub token_prefix : Text
token_prefix = codes "cac2."

abbrev pub token_max_chars : ℕ
token_max_chars = 512

abbrev pub bad_token : Error
bad_token = message "recipient token is invalid"

pub data Scope : Type 0 where
  local_scope remote_scope : Scope

pub record RecipientToken : Type 0 where
  pub scope : Scope
  pub handle : Text
  pub generation : Text
  pub node_id : Option Text
  pub origin : Option Text

-- `_TOKEN_BODY_RE`
unfoldable pub is_token_body : Text → Bool
is_token_body s =
    not (eqb (length s) 0) && all (λ c. is_alphanumeric c || eqb c b'_' || eqb c b'-') s

-- `_NODE_ID_RE`
unfoldable pub is_node_id : Text → Bool
is_node_id s = not (eqb (length s) 0) && leb (length s) 64 && all is_alphanumeric s

-- `_checked_handle`
unfoldable pub checked_handle : Text → Result Text
checked_handle value = do require (is_hex64 value) bad_token; ok value

-- `_checked_node_id`
unfoldable pub checked_node_id : Text → Result Text
checked_node_id value = do require (is_node_id value) bad_token; ok value

-- A body that `parse_recipient_token` decodes.
unfoldable pub is_body : Text → Bool
is_body body = is_token_body body && not (eqb (length body % 4) 1)

-- `base64` and `json` on the body of a token: `json.dumps` and `urlsafe_b64encode` without the
-- padding, and `urlsafe_b64decode` with it and `json.loads`, `none` for a `ValueError`.
pub record BodyCodec : Type 0 where
  pub encode : Json → Text
  pub decode : Text → Option Json

-- A payload that survives its encoding, in the alphabet of `urlsafe_b64encode`.
pub record Survives (codec : BodyCodec) (payload : Json) : Type 0 where
  pub decodes : codec.decode (codec.encode payload) ≡ some payload
  pub shaped : is_body (codec.encode payload) ≡ true

unfoldable pub scope_text : Scope → Text
scope_text local_scope = codes "local"
scope_text remote_scope = codes "remote"

unfoldable pub read_scope : Text → Option Scope
read_scope s =
    if s == codes "local"
    then some local_scope
    else if s == codes "remote"
    then some remote_scope
    else none

-- The key of what a scope pins: `"o" if scope == "local" else "n"`.
unfoldable pub pin_key : Scope → Text
pin_key local_scope = codes "o"
pin_key remote_scope = codes "n"

unfoldable pub token_fields : Scope → List Text
token_fields scope = codes "v" ∷ codes "s" ∷ codes "h" ∷ codes "g" ∷ pin_key scope ∷ []

unfoldable pub token_object : Scope → Text → Text → Text → Json
token_object scope handle generation pin = obj (
    field (codes "v") (int (pos token_version)) (
      field (codes "s") (str (scope_text scope)) (
        field (codes "h") (str handle)
          (field (codes "g") (str generation) (field (pin_key scope) (str pin) end)))))

unfoldable pub is_version : Option Json → Bool
is_version (some (int i)) = int_eq i (pos token_version)
is_version _ = false

-- The rejection of `valid_uuid` is replaced.
unfoldable pub token_generation : Text → Result Text
token_generation generation = elim (valid_uuid generation "route generation") [
  | err _ ↦ err bad_token
  | ok exact ↦ ok exact
]

-- What a token pins, by its scope.
unfoldable pub pinned : Scope → Text → Text → Text → Result RecipientToken
pinned local_scope handle generation pin = do
  exact_handle ← checked_handle handle
  origin ← checked_handle pin
  ok (record {
    scope = local_scope;
    handle = exact_handle;
    generation = generation;
    node_id = none;
    origin = some origin;
  })
pinned remote_scope handle generation pin = do
  exact_handle ← checked_handle handle
  node_id ← checked_node_id pin
  ok (record {
    scope = remote_scope;
    handle = exact_handle;
    generation = generation;
    node_id = some node_id;
    origin = none;
  })

-- What is asked of the payload of a token.
unfoldable pub parse_payload : Json → Result RecipientToken
parse_payload (obj fs) = do
  require (is_version (get (codes "v") fs)) bad_token
  scope_name ← or_fail (as_str (get (codes "s") fs)) bad_token
  scope ← or_fail (read_scope scope_name) bad_token
  require (keys_are (token_fields scope) fs) bad_token
  handle ← or_fail (as_str (get (codes "h") fs)) bad_token
  generation ← or_fail (as_str (get (codes "g") fs)) bad_token
  exact_generation ← token_generation generation
  pin ← or_fail (as_str (get (pin_key scope) fs)) bad_token
  pinned scope handle exact_generation pin
parse_payload _ = err bad_token

module _ (codec : BodyCodec) where
  -- `_encode`
  unfoldable pub encode_token : Json → Text
  encode_token payload = token_prefix ++ codec.encode payload

  -- `local_token`, under the digest that `local_origin` gives
  unfoldable pub local_token : Text → Text → Text → Result Text
  local_token origin handle generation = do
    exact_handle ← checked_handle handle
    exact_generation ← valid_uuid generation "route generation"
    ok (encode_token (token_object local_scope exact_handle exact_generation origin))

  -- `remote_token`
  unfoldable pub remote_token : Text → Text → Text → Result Text
  remote_token node_id handle generation = do
    exact_handle ← checked_handle handle
    exact_generation ← valid_uuid generation "route generation"
    exact_node ← checked_node_id node_id
    ok (encode_token (token_object remote_scope exact_handle exact_generation exact_node))

  -- The body of a token.
  unfoldable pub parse_body : Text → Text → Result RecipientToken
  parse_body value body = do
    require (leb (length value) token_max_chars) bad_token
    require (is_body body) bad_token
    payload ← or_fail (codec.decode body) bad_token
    parse_payload payload

  -- `parse_recipient_token`; `none` for what is no token
  unfoldable pub parse_recipient_token : Text → Result (Option RecipientToken)
  parse_recipient_token value = elim (strip_prefix token_prefix value) [
    | none ↦ ok none
    | some body ↦ do token ← parse_body value body; ok (some token)
  ]
