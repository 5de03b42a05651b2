-- ===== src/Endpoint.antt =====
-- external.py `ExternalEndpoint`: an external identity that the owner enrolled.
use cross_agent_chat.Prelude.{
  ltb, ℕ, String, Bool, true, false, not, ◌&&◌, ◌||◌, Option, none, some, List, [], ◌∷◌, ◌++◌,
}
use cross_agent_chat.Core.{Error, message, Result, err, ok, ◌>>=◌, ◌>>◌, require, or_fail, Env}
use cross_agent_chat.Core.Ids.{valid_uuid, valid_device, valid_name}
use cross_agent_chat.Json.{
  Json, null, bool, int, str, arr, obj, Items, nil, cons, Fields, end, field, get, keys_are, as_str,
  as_int,
}
use cross_agent_chat.Json.Int.{ℤ, pos, int_eq}
use cross_agent_chat.Helper.{strip_prefix}
use cross_agent_chat.Route.{take}
use cross_agent_chat.Subagent.{as_bool}
use cross_agent_chat.Recipient.{BodyCodec, parse_recipient_token}
use cross_agent_chat.Text.{Text, codes, ◌==◌, is_hex64, uuid_re}

-- `owner_uid` is `none` where the file holds a `bool`, which is an `int` in Python.
pub record Endpoint : Type 0 where
  pub schema_version : ℤ
  pub endpoint_id : Text
  pub generation : Text
  pub owner_uid : Option ℤ
  pub device : Text
  pub name : Text
  pub context : Text
  pub credential_hash : Text
  pub expires_at : Option Text
  pub revoked : Bool
  pub allowed_recipients : Option (List Text)
  pub callback_ref : Option Text

abbrev pub bad_schema : Error
bad_schema = message "external endpoint schema is unsupported"

abbrev pub bad_scope : Error
bad_scope = message "external recipient scope is invalid"

-- `_CALLBACK_VERSION`
unfoldable pub is_callback_version : Text → Bool
is_callback_version s = elim (strip_prefix (codes "-") s) [
  | none ↦ false
  | some rest ↦ rest == take 36 rest ++ codes ".json" && uuid_re (take 36 rest)
]

-- The tests of the callback reference.
unfoldable pub check_callback : Text → Option Text → Result (Unit {0})
check_callback endpoint_id none = ok tt
check_callback endpoint_id (some ref) =
    elim (strip_prefix (codes "external-callback-" ++ endpoint_id) ref) [
      | none ↦ err (message "external callback reference is invalid")
      | some suffix ↦
          require (suffix == codes ".json" || is_callback_version suffix)
            (message "external callback reference is invalid")
    ]

module _ (env : Env) (codec : BodyCodec) (uid : ℤ) where
  unfoldable pub check_recipients : List Text → Result (Unit {0})
  check_recipients [] = ok tt
  check_recipients (recipient ∷ recipients) = do
    parsed ← parse_recipient_token codec recipient
    or_fail parsed bad_scope
    check_recipients recipients

  unfoldable pub check_scope : Option (List Text) → Result (Unit {0})
  check_scope none = ok tt
  check_scope (some recipients) = check_recipients recipients

  unfoldable pub check_expiry : Option Text → Result (Unit {0})
  check_expiry none = ok tt
  check_expiry (some time) = do
    or_fail (env.parse_time time) (message "external credential expiry is invalid")
    ok tt

  unfoldable pub is_owner : Option ℤ → Bool
  is_owner none = false
  is_owner (some owner) = int_eq owner uid

  -- `__post_init__`, with the endpoint as its value
  unfoldable pub check_endpoint : Endpoint → Result Endpoint
  check_endpoint e = do
    require (int_eq e.schema_version (pos 1)) bad_schema
    valid_uuid e.endpoint_id "external endpoint id"
    valid_uuid e.generation "external endpoint generation"
    require (is_owner e.owner_uid) (message "external endpoint owner is invalid")
    valid_device e.device
    valid_name env e.name "external endpoint name"
    valid_name env e.context "owner-enrolled context"
    require (is_hex64 e.credential_hash) (message "external credential verifier is invalid")
    check_expiry e.expires_at
    check_scope e.allowed_recipients
    check_callback e.endpoint_id e.callback_ref
    ok e

  -- `available`, at a time
  unfoldable pub available : ℕ → Endpoint → Bool
  available now e = not e.revoked && elim e.expires_at [
    | none ↦ true
    | some time ↦ elim (env.parse_time time) [ none ↦ false | some expiry ↦ ltb now expiry ]
  ]

unfoldable pub endpoint_fields : List Text
endpoint_fields =
    codes "schema_version"
    ∷ codes "endpoint_id"
    ∷ codes "generation"
    ∷ codes "owner_uid"
    ∷ codes "device"
    ∷ codes "name"
    ∷ codes "context"
    ∷ codes "credential_hash"
    ∷ codes "expires_at"
    ∷ codes "revoked"
    ∷ codes "allowed_recipients"
    ∷ codes "callback_ref"
    ∷ []

unfoldable pub endpoint_text : String → Fields → Result Text
endpoint_text key fs = or_fail (as_str (get (codes key) fs)) bad_schema

-- `_optional_string`
unfoldable pub optional_string : Option Json → Result (Option Text)
optional_string (some null) = ok none
optional_string (some (str s)) = ok (some s)
optional_string _ = err bad_schema

-- `isinstance(value, int)`
unfoldable pub read_owner : Option Json → Result (Option ℤ)
read_owner (some (int i)) = ok (some i)
read_owner (some (bool b)) = ok none
read_owner _ = err bad_schema

unfoldable pub texts_of : Items → Result (List Text)
texts_of nil = ok []
texts_of (cons (str s) js) = do rest ← texts_of js; ok (s ∷ rest)
texts_of (cons j js) = err bad_scope

-- `_recipient_scope`
unfoldable pub recipient_scope : Option Json → Result (Option (List Text))
recipient_scope (some null) = ok none
recipient_scope (some (arr js)) = do texts ← texts_of js; ok (some texts)
recipient_scope _ = err bad_scope

-- `from_object` up to the call of the constructor
unfoldable pub endpoint_of_fields : Fields → Result Endpoint
endpoint_of_fields fs = do
  require (keys_are endpoint_fields fs) bad_schema
  endpoint_id ← endpoint_text "endpoint_id" fs
  generation ← endpoint_text "generation" fs
  device ← endpoint_text "device" fs
  name ← endpoint_text "name" fs
  context ← endpoint_text "context" fs
  credential_hash ← endpoint_text "credential_hash" fs
  schema_version ← or_fail (as_int (get (codes "schema_version") fs)) bad_schema
  owner_uid ← read_owner (get (codes "owner_uid") fs)
  revoked ← or_fail (as_bool (get (codes "revoked") fs)) bad_schema
  expires_at ← optional_string (get (codes "expires_at") fs)
  allowed_recipients ← recipient_scope (get (codes "allowed_recipients") fs)
  callback_ref ← optional_string (get (codes "callback_ref") fs)
  ok (record {
    schema_version = schema_version;
    endpoint_id = endpoint_id;
    generation = generation;
    owner_uid = owner_uid;
    device = device;
    name = name;
    context = context;
    credential_hash = credential_hash;
    expires_at = expires_at;
    revoked = revoked;
    allowed_recipients = allowed_recipients;
    callback_ref = callback_ref;
  })

-- `from_object`
unfoldable pub endpoint_from_object : Env → BodyCodec → ℤ → Json → Result Endpoint
endpoint_from_object env codec uid (obj fs) = do
  e ← endpoint_of_fields fs
  check_endpoint env codec uid e
endpoint_from_object env codec uid _ = err bad_schema

unfoldable pub text_or_null : Option Text → Json
text_or_null none = null
text_or_null (some s) = str s

unfoldable pub texts_to_items : List Text → Items
texts_to_items [] = nil
texts_to_items (s ∷ ss) = cons (str s) (texts_to_items ss)

unfoldable pub scope_to_json : Option (List Text) → Json
scope_to_json none = null
scope_to_json (some ss) = arr (texts_to_items ss)

unfoldable pub owner_to_json : Option ℤ → Json
owner_to_json none = bool true
owner_to_json (some i) = int i

-- `asdict`
unfoldable pub endpoint_to_json : Endpoint → Json
endpoint_to_json e = obj (
    field (codes "schema_version") (int e.schema_version) (
      field (codes "endpoint_id") (str e.endpoint_id) (
        field (codes "generation") (str e.generation) (
          field (codes "owner_uid") (owner_to_json e.owner_uid) (
            field (codes "device") (str e.device) (
              field (codes "name") (str e.name) (
                field (codes "context") (str e.context) (
                  field (codes "credential_hash") (str e.credential_hash) (
                    field (codes "expires_at") (text_or_null e.expires_at) (
                      field (codes "revoked") (bool e.revoked) (
                        field (codes "allowed_recipients") (scope_to_json e.allowed_recipients) (
                          field (codes "callback_ref") (text_or_null e.callback_ref) end))))))))))))
