-- ===== src/EndpointStore.antt =====
-- external.py `ExternalEndpointStore`: the enrolled endpoints of one state root. Each call that
-- writes holds the lock of the endpoints, so it is one step.
pub mod Reading
pub mod Ended
pub mod Revoked
use cross_agent_chat.Prelude.{
  if◌then◌else◌, keep, any, distinct_by, ℕ, Bool, true, false, ◌&&◌, Option, none, some, List, [],
  ◌∷◌, ◌++◌, map,
}
use cross_agent_chat.Core.{Error, message, Result, ok, ◌>>=◌, ◌>>◌, require, or_fail, Env}
use cross_agent_chat.Core.Ids.{valid_uuid}
use cross_agent_chat.Core.StateFile.{StateFile, read_rows, atomic_json, map_ok}
use cross_agent_chat.Json.Int.{ℤ, pos}
use cross_agent_chat.Route.{take}
use cross_agent_chat.HelperStore.{the_only}
use cross_agent_chat.Recipient.{BodyCodec}
use cross_agent_chat.Helper.{strip_prefix}
use cross_agent_chat.Text.{Text, codes, ◌==◌, is_hex64, uuid_re}
use cross_agent_chat.Endpoint.{
  Endpoint, bad_schema, check_endpoint, available, endpoint_from_object, endpoint_to_json,
}

-- external-endpoints-v1.json
pub record EndpointRoot : Type 0 where
  pub is_private : Bool
  pub endpoints_file : StateFile

unfoldable pub same_endpoint : Endpoint → Endpoint → Bool
same_endpoint a b = a.endpoint_id == b.endpoint_id

unfoldable pub is_endpoint : Text → Endpoint → Bool
is_endpoint identifier e = e.endpoint_id == identifier

-- `atomic_json(self.path, [asdict(item) for item in es])`
unfoldable pub store_endpoints : List Endpoint → EndpointRoot → EndpointRoot
store_endpoints es root = record root { endpoints_file = atomic_json (map endpoint_to_json es) }

-- `state_lock(self.root, "external-endpoints")`
unfoldable pub endpoints_lock : EndpointRoot → Result (Unit {0})
endpoints_lock root = require root.is_private (message "private directory is unsafe")

-- `[asdict(changed) if item.endpoint_id == identifier else asdict(item) for item in existing]`
unfoldable pub put_endpoint : Text → Endpoint → List Endpoint → List Endpoint
put_endpoint identifier changed es = map (λ e. if is_endpoint identifier e then changed else e) es

abbrev pub unavailable : Error
unavailable = message "external endpoint is unavailable"

module _ (env : Env) (codec : BodyCodec) (uid : ℤ) where
  -- `endpoints`
  unfoldable pub endpoints : EndpointRoot → Result (List Endpoint)
  endpoints root = do
    raw ← read_rows root.endpoints_file (message "external endpoint state is invalid") bad_schema
    es ← map_ok (endpoint_from_object env codec uid) raw
    require (distinct_by same_endpoint es)
        (message "external endpoint state contains duplicate identities")
    ok es

  -- `enroll`, for the two ids and the secret that are drawn; with the credential
  unfoldable pub enroll :
      Text
      → Text
      → Text
      → Option Text
      → Option (List Text)
      → Text
      → Text
      → Text
      → EndpointRoot
      → Result (Endpoint × Text × EndpointRoot)
  enroll device name context expires_at allowed_recipients endpoint_id generation secret root = do
    endpoint ← check_endpoint env codec uid (record {
      schema_version = pos 1;
      endpoint_id = endpoint_id;
      generation = generation;
      owner_uid = some uid;
      device = device;
      name = name;
      context = context;
      credential_hash = env.sha256 (endpoint_id ++ (b'.' ∷ secret));
      expires_at = expires_at;
      revoked = false;
      allowed_recipients = allowed_recipients;
      callback_ref = none;
    })
    endpoints_lock root
    existing ← endpoints root
    ok (endpoint, endpoint_id ++ (b'.' ∷ secret), store_endpoints (existing ++ endpoint ∷ []) root)

  -- What `_CREDENTIAL` captures as the id.
  unfoldable pub credential_id : Text → Option Text
  credential_id credential = elim (strip_prefix (take 36 credential ++ codes ".") credential) [
    | none ↦ none
    | some secret ↦
        if uuid_re (take 36 credential) && is_hex64 secret then some (take 36 credential) else none
  ]

  unfoldable pub admits : Text → Text → ℕ → Endpoint → Bool
  admits credential identifier now e =
      is_endpoint identifier e
      && available env codec uid now e
      && (e.credential_hash == env.sha256 credential)

  -- `authenticate`
  unfoldable pub authenticate : Text → ℕ → EndpointRoot → Result Endpoint
  authenticate credential now root = do
    identifier ←
        or_fail (credential_id credential)
          (message "external credential is unavailable; enroll this endpoint")
    existing ← endpoints root
    the_only (keep (admits credential identifier now) existing)
        (message "external credential is unavailable; enroll this endpoint")

  -- `rotate`, for the generation and the secret that are drawn; with the credential
  unfoldable pub rotate :
      Text → Text → Text → ℕ → EndpointRoot → Result (Endpoint × Text × EndpointRoot)
  rotate endpoint_id generation secret now root = do
    identifier ← valid_uuid endpoint_id "external endpoint id"
    endpoints_lock root
    existing ← endpoints root
    current ←
        the_only (keep (λ e. is_endpoint identifier e && available env codec uid now e) existing)
          unavailable
    endpoint ← check_endpoint env codec uid (record current {
      generation = generation;
      credential_hash = env.sha256 (identifier ++ (b'.' ∷ secret));
    })
    ok (
      endpoint,
      identifier ++ (b'.' ∷ secret),
      store_endpoints (put_endpoint identifier endpoint existing) root,
    )

  -- `revoke`, for the generation that is drawn, without the files of callbacks that it unlinks
  unfoldable pub revoke : Text → Text → EndpointRoot → Result EndpointRoot
  revoke endpoint_id generation root = do
    identifier ← valid_uuid endpoint_id "external endpoint id"
    endpoints_lock root
    existing ← endpoints root
    require (any (is_endpoint identifier) existing) unavailable
    changed ←
        map_ok
          (λ e.
            if is_endpoint identifier e
            then check_endpoint env codec uid (record e { revoked = true; generation = generation })
            else ok e)
          existing
    ok (store_endpoints changed root)
