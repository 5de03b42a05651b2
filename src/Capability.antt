-- ===== src/Capability.antt =====
-- devin.py `DevinCapability` and `DevinCapabilityStore`: the tokens that let one Devin tool call
-- act for its session, each of them once.
pub mod Reading
pub mod Gone
pub mod Once
use cross_agent_chat.Prelude.{
  leb, eqb, if◌then◌else◌, length, keep, distinct_by, ℕ, String, ◌≡◌, Bool, true, false, not, ◌&&◌,
  ◌||◌, Option, none, some, List, [], ◌∷◌, ◌++◌, map,
}
use cross_agent_chat.Core.{Error, message, Result, err, ok, ◌>>=◌, ◌>>◌, require, or_fail, Env}
use cross_agent_chat.Core.Ids.{valid_uuid, devin, valid_session_id}
use cross_agent_chat.Core.StateFile.{StateFile, absent, read_rows, atomic_json, map_ok}
use cross_agent_chat.Json.{Json, str, obj, Fields, end, field, get, keys_are, as_str}
use cross_agent_chat.Route.{is_devin, Route}
use cross_agent_chat.HelperStore.{the_only}
use cross_agent_chat.Text.{Text, codes, ◌==◌, is_hex64}

pub data Tool : Type 0 where
  chat_peers chat_send chat_status : Tool

-- Python's floats, of which the source uses these: what `json` writes and reads of a finite one,
-- `==`, and `0 <= now - at <= 120.0` and `now - at > 120.0`.
pub record Floats : Type 1 where
  pub Float : Type 0
  pub to_json : Float → Json
  pub of_json : Option Json → Option Float
  pub of_json-to_json : (t : Float) → of_json (some (to_json t)) ≡ some t
  pub float_eq : Float → Float → Bool
  pub float_eq_refl : (t : Float) → float_eq t t ≡ true
  pub is_fresh : Float → Float → Bool
  pub is_expired : Float → Float → Bool

unfoldable pub tool_text : Tool → Text
tool_text chat_peers = codes "chat_peers"
tool_text chat_send = codes "chat_send"
tool_text chat_status = codes "chat_status"

unfoldable pub read_tool : Text → Option Tool
read_tool s =
    if s == codes "chat_peers"
    then some chat_peers
    else if s == codes "chat_send"
    then some chat_send
    else if s == codes "chat_status"
    then some chat_status
    else none

unfoldable pub tool_eq : Tool → Tool → Bool
tool_eq chat_peers chat_peers = true
tool_eq chat_send chat_send = true
tool_eq chat_status chat_status = true
tool_eq _ _ = false

unfoldable pub capability_fields : List Text
capability_fields =
    codes "token_digest"
    ∷ codes "session_id"
    ∷ codes "generation"
    ∷ codes "prompt_id"
    ∷ codes "tool_name"
    ∷ codes "arguments_digest"
    ∷ codes "issued_at"
    ∷ []

abbrev pub bad_capability : Error
bad_capability = message "Devin capability state is invalid"

unfoldable pub capability_text : String → Fields → Result Text
capability_text key fs = or_fail (as_str (get (codes key) fs)) bad_capability

abbrev pub max_active : ℕ
max_active = 64

-- devin-capabilities.json
pub record CapabilityRoot : Type 0 where
  pub is_private : Bool
  pub capabilities_file : StateFile

-- `path.exists()`
unfoldable pub file_exists : StateFile → Bool
file_exists absent = false
file_exists _ = true

-- `state_lock(self.root, "devin-capabilities")`
unfoldable pub capabilities_lock : CapabilityRoot → Result (Unit {0})
capabilities_lock root = require root.is_private (message "private directory is unsafe")

abbrev pub unavailable : Error
unavailable = message "Devin sender capability is unavailable"

-- `DevinCapabilityExpiredError`
abbrev pub expired : Error
expired =
    message "Devin sender capability is unavailable: expired before use; nothing was delivered"

module _ (fl : Floats) where
  pub record Capability : Type 0 where
    pub token_digest : Text
    pub session_id : Text
    pub generation : Text
    pub prompt_id : Text
    pub tool_name : Tool
    pub arguments_digest : Text
    pub issued_at : fl.Float

  -- `to_dict`
  unfoldable pub capability_to_dict : Capability → Json
  capability_to_dict c = obj (
      field (codes "token_digest") (str c.token_digest) (
        field (codes "session_id") (str c.session_id) (
          field (codes "generation") (str c.generation) (
            field (codes "prompt_id") (str c.prompt_id) (
              field (codes "tool_name") (str (tool_text c.tool_name)) (
                field (codes "arguments_digest") (str c.arguments_digest)
                  (field (codes "issued_at") (fl.to_json c.issued_at) end)))))))

  -- `from_object`
  unfoldable pub capability_of_fields : Fields → Result Capability
  capability_of_fields fs = do
    require (keys_are capability_fields fs) bad_capability
    token_digest ← capability_text "token_digest" fs
    session_id ← capability_text "session_id" fs
    generation ← capability_text "generation" fs
    prompt_id ← capability_text "prompt_id" fs
    tool ← capability_text "tool_name" fs
    arguments_digest ← capability_text "arguments_digest" fs
    tool_name ← or_fail (read_tool tool) bad_capability
    require (is_hex64 token_digest && is_hex64 arguments_digest) bad_capability
    issued_at ← or_fail (fl.of_json (get (codes "issued_at") fs)) bad_capability
    valid_session_id devin session_id "Devin capability session id"
    valid_uuid generation "Devin capability generation"
    valid_uuid prompt_id "Devin capability prompt id"
    ok (record {
      token_digest = token_digest;
      session_id = session_id;
      generation = generation;
      prompt_id = prompt_id;
      tool_name = tool_name;
      arguments_digest = arguments_digest;
      issued_at = issued_at;
    })

  unfoldable pub capability_from_object : Json → Result Capability
  capability_from_object (obj fs) = capability_of_fields fs
  capability_from_object _ = err bad_capability

  unfoldable pub same_token : Capability → Capability → Bool
  same_token a b = a.token_digest == b.token_digest

  -- `capabilities`
  unfoldable pub capabilities : CapabilityRoot → Result (List Capability)
  capabilities root = do
    raw ← read_rows root.capabilities_file bad_capability bad_capability
    cs ← map_ok capability_from_object raw
    require (distinct_by same_token cs) (message "Devin capability state contains duplicate tokens")
    ok cs

  -- `atomic_json(self.path, [item.to_dict() for item in cs])`
  unfoldable pub store_capabilities : List Capability → CapabilityRoot → CapabilityRoot
  store_capabilities cs root = record root {
    capabilities_file = atomic_json (map capability_to_dict cs);
  }

  -- `item == other`
  unfoldable pub capability_eq : Capability → Capability → Bool
  capability_eq a b =
      (a.token_digest == b.token_digest)
      && (a.session_id == b.session_id)
      && (a.generation == b.generation)
      && (a.prompt_id == b.prompt_id)
      && tool_eq a.tool_name b.tool_name
      && (a.arguments_digest == b.arguments_digest)
      && fl.float_eq a.issued_at b.issued_at

  -- `_fresh`, at the time that `time.time()` gives
  unfoldable pub fresh : fl.Float → List Capability → List Capability
  fresh now cs = keep (λ c. fl.is_fresh now c.issued_at) cs

  unfoldable pub has_digest : Text → Capability → Bool
  has_digest digest c = c.token_digest == digest

  -- Why `consume` does not find the one capability of a token.
  unfoldable pub refusal : fl.Float → Text → List Capability → Error
  refusal now digest records = elim (keep (has_digest digest) records) [
    | [] ↦ unavailable
    | c ∷ rest ↦ elim rest [
      | [] ↦ if fl.is_expired now c.issued_at then expired else unavailable
      | _ ∷ _ ↦ unavailable
    ]
  ]

  -- `revoke_session`
  unfoldable pub revoke_session : fl.Float → Text → CapabilityRoot → Result CapabilityRoot
  revoke_session now session root = do
    valid_session_id devin session "Devin capability session id"
    capabilities_lock root
    records ← capabilities root
    let existing = fresh now records
    let retained = keep (λ c. not (c.session_id == session)) existing
    let changed = not (eqb (length retained) (length existing))
    ok (
        if changed || file_exists root.capabilities_file
        then store_capabilities retained root
        else root)

  -- `dumps` is `json.dumps` with sorted keys and no spaces.
  module _ (env : Env) (dumps : Fields → Text) where
    -- `capability_arguments_digest`
    unfoldable pub arguments_digest_of : Fields → Text
    arguments_digest_of arguments = env.sha256 (dumps arguments)

    -- `issue`, for the token that `secrets.token_hex` draws; it reads the clock at `at` and `now`.
    unfoldable pub issue :
        Route
        → Text
        → Tool
        → Fields
        → Text
        → fl.Float
        → fl.Float
        → CapabilityRoot
        → Result (Text × CapabilityRoot)
    issue route prompt tool arguments token at now root = do
      require (is_devin route.provider) (message "Devin capability route is invalid")
      valid_uuid prompt "Devin capability prompt id"
      capabilities_lock root
      records ← capabilities root
      let existing = fresh now records
      require (not (leb max_active (length existing))) (message "Devin capability state is full")
      ok (
        token,
        store_capabilities
            (existing
              ++ record {
                token_digest = env.sha256 token;
                session_id = route.session_id;
                generation = route.generation;
                prompt_id = prompt;
                tool_name = tool;
                arguments_digest = arguments_digest_of arguments;
                issued_at = at;
              }
                ∷ [])
            root,
      )

    -- What `consume` does under the lock; it reads the clock at `now`, and at `later` if it fails.
    unfoldable pub take_capability :
        Text → fl.Float → fl.Float → CapabilityRoot → Result (Capability × CapabilityRoot)
    take_capability token now later root = do
      require (is_hex64 token) (message "Devin sender capability is invalid")
      capabilities_lock root
      records ← capabilities root
      let existing = fresh now records
      c ←
          the_only (keep (has_digest (env.sha256 token)) existing)
            (refusal later (env.sha256 token) records)
      ok (c, store_capabilities (keep (λ d. not (capability_eq d c)) existing) root)

    -- What `consume` answers for what it took; the state stays changed where the call does not match.
    unfoldable pub answered :
        Tool
        → Fields
        → CapabilityRoot
        → Result (Capability × CapabilityRoot)
        → Result Capability × CapabilityRoot
    answered tool arguments root (err e) = (err e, root)
    answered tool arguments root (ok (c, root')) =
        if tool_eq c.tool_name tool && (c.arguments_digest == arguments_digest_of arguments)
        then (ok c, root')
        else (err (message "Devin sender capability does not match the tool call"), root')

    -- `consume`
    unfoldable pub consume :
        Text
        → Tool
        → Fields
        → fl.Float
        → fl.Float
        → CapabilityRoot
        → Result Capability × CapabilityRoot
    consume token tool arguments now later root =
        answered tool arguments root (take_capability token now later root)
