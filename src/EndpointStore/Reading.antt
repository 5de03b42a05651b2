-- ===== src/EndpointStore/Reading.antt =====
-- What is read of endpoints that were written.
use cross_agent_chat.Prelude.{
  distinct_by, ◌≡◌, refl, sym, ◌∙◌, Option, none, some, List, [], ◌∷◌, map,
}
use cross_agent_chat.Core.{
  message, ok, ◌>>◌, require, Env, >>=-ok, then_ok, require-ok, ok-injective,
}
use cross_agent_chat.Core.StateFile.{read_rows-atomic_json, map_ok, map_ok_exact}
use cross_agent_chat.Json.{get, keys, member, subset, keys_are, as_str, as_int}
use cross_agent_chat.Json.Int.{ℤ, pos, int_eq}
use cross_agent_chat.Text.{Text, ◌==◌, is_hex64}
use cross_agent_chat.Subagent.{as_bool}
use cross_agent_chat.Recipient.{BodyCodec}
use cross_agent_chat.Endpoint.{
  Endpoint, bad_schema, check_callback, check_scope, check_expiry, is_owner, check_endpoint,
  endpoint_fields, endpoint_text, optional_string, read_owner, texts_of, recipient_scope,
  endpoint_of_fields, endpoint_from_object, text_or_null, texts_to_items, scope_to_json,
  owner_to_json, endpoint_to_json,
}
use cross_agent_chat.EndpointStore.{EndpointRoot, same_endpoint, store_endpoints, endpoints}
use cross_agent_chat.Core.Ids.{valid_uuid, valid_device, valid_name}

read_owner-owner_to_json : (o : Option ℤ) → read_owner (some (owner_to_json o)) ≡ ok o
unfolding read_owner owner_to_json
read_owner-owner_to_json none = refl
read_owner-owner_to_json (some i) = refl

optional_string-text_or_null : (o : Option Text) → optional_string (some (text_or_null o)) ≡ ok o
unfolding optional_string text_or_null
optional_string-text_or_null none = refl
optional_string-text_or_null (some s) = refl

texts_of-texts_to_items : (ss : List Text) → texts_of (texts_to_items ss) ≡ ok ss
unfolding texts_of texts_to_items
texts_of-texts_to_items [] = refl
texts_of-texts_to_items (s ∷ ss) = rw (texts_of-texts_to_items ss) refl

recipient_scope-scope_to_json :
    (o : Option (List Text)) → recipient_scope (some (scope_to_json o)) ≡ ok o
unfolding recipient_scope scope_to_json
recipient_scope-scope_to_json none = refl
recipient_scope-scope_to_json (some ss) = rw (texts_of-texts_to_items ss) refl

module _ (env : Env) (codec : BodyCodec) (uid : ℤ) where
  pub check_endpoint-ok : (e e' : Endpoint) → check_endpoint env codec uid e ≡ ok e' → e' ≡ e
  unfolding check_endpoint
  check_endpoint-ok e e' h =
      let h₁ = then_ok (require (int_eq e.schema_version (pos 1)) bad_schema) _ h in
      let h₂ = then_ok (valid_uuid e.endpoint_id "external endpoint id") _ h₁ in
      let h₃ = then_ok (valid_uuid e.generation "external endpoint generation") _ h₂ in
      let h₄ =
        then_ok
          (require (is_owner env codec uid e.owner_uid)
            (message "external endpoint owner is invalid"))
          _ h₃ in
      let h₅ = then_ok (valid_device e.device) _ h₄ in
      let h₆ = then_ok (valid_name env e.name "external endpoint name") _ h₅ in
      let h₇ = then_ok (valid_name env e.context "owner-enrolled context") _ h₆ in
      let h₈ =
        then_ok
          (require (is_hex64 e.credential_hash) (message "external credential verifier is invalid"))
          _ h₇ in
      let h₉ = then_ok (check_expiry env codec uid e.expires_at) _ h₈ in
      let h₁₀ = then_ok (check_scope env codec uid e.allowed_recipients) _ h₉ in
      sym (ok-injective (then_ok (check_callback e.endpoint_id e.callback_ref) (ok e) h₁₀))

  decoded :
      (e : Endpoint)
      → endpoint_from_object env codec uid (endpoint_to_json e) ≡ check_endpoint env codec uid e
  unfolding endpoint_from_object endpoint_of_fields endpoint_to_json endpoint_text endpoint_fields
      keys_are subset member keys get as_str as_int as_bool ◌==◌
  decoded e =
      rw
        (
          read_owner-owner_to_json e.owner_uid,
          optional_string-text_or_null e.expires_at,
          recipient_scope-scope_to_json e.allowed_recipients,
          optional_string-text_or_null e.callback_ref,
        )
        refl

  -- An endpoint that is read back is the one that was written.
  from_object_same :
      (e e' : Endpoint) → endpoint_from_object env codec uid (endpoint_to_json e) ≡ ok e' → e' ≡ e
  from_object_same e e' h = check_endpoint-ok e e' (sym (decoded e) ∙ h)

  pub stored_endpoints :
      (es ds : List Endpoint) (root : EndpointRoot)
      → endpoints env codec uid (store_endpoints es root) ≡ ok ds
      → ds ≡ es
  unfolding endpoints store_endpoints
  stored_endpoints es ds root h =
      let h₁ =
        rw
          (read_rows-atomic_json (map endpoint_to_json es)
            (message "external endpoint state is invalid") bad_schema)
          at h in
      let (fs, mapped, h₂) =
        >>=-ok (map_ok (endpoint_from_object env codec uid) (map endpoint_to_json es))
          (λ (fs : List Endpoint).
            require (distinct_by same_endpoint fs)
              (message "external endpoint state contains duplicate identities")
            >> ok fs)
          h₁ in
      let (_, h₃) =
        require-ok (distinct_by same_endpoint fs)
          (message "external endpoint state contains duplicate identities") (ok fs) h₂ in
      sym (ok-injective h₃)
      ∙ map_ok_exact (endpoint_from_object env codec uid) endpoint_to_json from_object_same es fs
          mapped
