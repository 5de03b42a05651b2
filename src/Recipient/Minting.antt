-- ===== src/Recipient/Minting.antt =====
-- `parse_recipient_token` on what `local_token` and `remote_token` mint.
use cross_agent_chat.Prelude.{
  leb, Bool-cases, length, ◌≡◌, refl, sym, ◌∙◌, subst, inl, inr, true, none, some, [], ◌∷◌, ◌++◌,
  arith,
}
use cross_agent_chat.Core.{
  Error, invalid, err, ok, ◌>>=◌, ◌>>◌, require, >>=-ok, require-ok, ok-injective,
}
use cross_agent_chat.Core.Ids.{valid_uuid, valid_uuid_lem, valid_uuid-ok}
use cross_agent_chat.Json.{Json, get, keys, member, subset, keys_are, as_str}
use cross_agent_chat.Json.Int.{int_eq}
use cross_agent_chat.Helper.{strip_prefix}
use cross_agent_chat.Text.{Text, ◌==◌, is_hex64, uuid_re}
use cross_agent_chat.Recipient.{
  token_max_chars, bad_token, Scope, local_scope, remote_scope, RecipientToken, is_node_id,
  checked_handle, checked_node_id, is_body, BodyCodec, Survives, scope_text, read_scope, pin_key,
  token_fields, token_object, is_version, token_generation, pinned, parse_payload, encode_token,
  local_token, remote_token, parse_body, parse_recipient_token,
}

strip_prefix-append : (p s : Text) → strip_prefix p (p ++ s) ≡ some s
unfolding strip_prefix
strip_prefix-append [] s = refl
strip_prefix-append (c ∷ p) s = ground (arith, strip_prefix-append p s)

token_generation_lem :
    (generation : Text) → uuid_re generation ≡ true → token_generation generation ≡ ok generation
unfolding token_generation
token_generation_lem generation u =
    let exact : valid_uuid generation "route generation" ≡ ok generation =
      valid_uuid_lem generation "route generation" ∙ rw u refl in
    rw (token_generation, exact) refl

-- The object of a token is read with what it pins.
parse_payload-token_object :
    (scope : Scope) (handle generation pin : Text)
    → uuid_re generation ≡ true
    → parse_payload (token_object scope handle generation pin) ≡ pinned scope handle generation pin
unfolding parse_payload token_object token_fields pin_key scope_text read_scope is_version
    token_generation get keys subset member keys_are as_str int_eq ◌==◌
parse_payload-token_object local_scope handle generation pin u =
    rw (token_generation_lem generation u) refl
parse_payload-token_object remote_scope handle generation pin u =
    rw (token_generation_lem generation u) refl

abbrev pub local_recipient : Text → Text → Text → RecipientToken
local_recipient origin handle generation = record {
  scope = local_scope;
  handle = handle;
  generation = generation;
  node_id = none;
  origin = some origin;
}

abbrev pub remote_recipient : Text → Text → Text → RecipientToken
remote_recipient node_id handle generation = record {
  scope = remote_scope;
  handle = handle;
  generation = generation;
  node_id = some node_id;
  origin = none;
}

no_token : {A : Type 0} {e : Error} {a : A} → err e ≡ ok a → ⊥
no_token h = absurd (cc)

checked_handle-ok : (value h : Text) → checked_handle value ≡ ok h → is_hex64 value ≡ true
unfolding checked_handle
checked_handle-ok value h e = (require-ok (is_hex64 value) bad_token (ok value) e).0

checked_node_id-ok : (value n : Text) → checked_node_id value ≡ ok n → is_node_id value ≡ true
unfolding checked_node_id
checked_node_id-ok value n e = (require-ok (is_node_id value) bad_token (ok value) e).0

module _ (codec : BodyCodec) where
  parse_body_lem :
      (value body : Text) (payload : Json)
      → leb (length value) token_max_chars ≡ true
      → is_body body ≡ true
      → codec.decode body ≡ some payload
      → parse_body codec value body ≡ parse_payload payload
  unfolding parse_body
  parse_body_lem value body payload short shape decoded = rw (short, shape, decoded) refl

  encoded :
      (payload : Json)
      → Survives codec payload
      → leb (length (encode_token codec payload)) token_max_chars ≡ true
      → parse_recipient_token codec (encode_token codec payload)
        ≡ (parse_payload payload >>= λ (t : RecipientToken). ok (some t))
  unfolding encode_token parse_recipient_token strip_prefix
  encoded payload v short =
      rw
        (parse_body_lem (encode_token codec payload) (codec.encode payload) payload short v.shaped
          v.decodes)
        refl

  local_flat :
      (origin handle generation : Text)
      → (require (is_hex64 handle) bad_token
          >> (valid_uuid generation "route generation" >>= λ (g : Text).
              ok (encode_token codec (token_object local_scope handle g origin))))
        ≡ local_token codec origin handle generation
  unfolding local_token checked_handle
  local_flat origin handle generation = ground arith

  -- The last steps of minting.
  minted :
      (scope : Scope) (handle generation pin token : Text)
      → (valid_uuid generation "route generation" >>= λ (g : Text).
          ok (encode_token codec (token_object scope handle g pin)))
        ≡ ok token
      → (uuid_re generation ≡ true)
        × (encode_token codec (token_object scope handle generation pin) ≡ token)
  minted scope handle generation pin token h = elim (Bool-cases (uuid_re generation)) [
    | inl u ↦
        let exact : valid_uuid generation "route generation" ≡ ok generation =
          valid_uuid_lem generation "route generation" ∙ rw u refl in
        (u, ok-injective (rw exact at h))
    | inr u ↦
        let refused : valid_uuid generation "route generation" ≡ err (invalid "route generation") =
          valid_uuid_lem generation "route generation" ∙ rw u refl in
        absurd (no_token (rw refused at h))
  ]

  -- A local token that is minted is parsed as the handle, the generation and the origin it was
  -- minted for, where it has at most 512 characters, its payload survives its encoding and the
  -- origin is a digest.
  pub parse_recipient_token-local_token :
      (origin handle generation token : Text)
      → local_token codec origin handle generation ≡ ok token
      → is_hex64 origin ≡ true
      → Survives codec (token_object local_scope handle generation origin)
      → leb (length token) token_max_chars ≡ true
      → parse_recipient_token codec token ≡ ok (some (local_recipient origin handle generation))
  unfolding local_token checked_handle pinned
  parse_recipient_token-local_token origin handle generation token h o v short =
      let (hex, h₁) =
        require-ok (is_hex64 handle) bad_token
          (valid_uuid generation "route generation" >>= λ (g : Text).
            ok (encode_token codec (token_object local_scope handle g origin)))
          (local_flat origin handle generation ∙ h) in
      let (u, same) = minted local_scope handle generation origin token h₁ in
      let read : parse_payload (token_object local_scope handle generation origin)
          ≡ ok (local_recipient origin handle generation) =
        parse_payload-token_object local_scope handle generation origin u ∙ rw (hex, o) refl in
      subst
        (λ (t : Text).
          parse_recipient_token codec t ≡ ok (some (local_recipient origin handle generation)))
        same
        (encoded (token_object local_scope handle generation origin) v (rw (← same) at short)
          ∙ rw read refl)

  remote_read :
      (node_id handle generation token : Text)
      → is_hex64 handle ≡ true
      → uuid_re generation ≡ true
      → is_node_id node_id ≡ true
      → remote_token codec node_id handle generation ≡ ok token
      → Survives codec (token_object remote_scope handle generation node_id)
      → leb (length token) token_max_chars ≡ true
      → parse_recipient_token codec token ≡ ok (some (remote_recipient node_id handle generation))
  unfolding remote_token checked_handle checked_node_id pinned
  remote_read node_id handle generation token hex u n h v short =
      let exact : valid_uuid generation "route generation" ≡ ok generation =
        valid_uuid_lem generation "route generation" ∙ rw u refl in
      let mint : remote_token codec node_id handle generation
          ≡ ok (encode_token codec (token_object remote_scope handle generation node_id)) =
        rw (hex, exact, n) refl in
      let same = ok-injective (sym mint ∙ h) in
      let read : parse_payload (token_object remote_scope handle generation node_id)
          ≡ ok (remote_recipient node_id handle generation) =
        parse_payload-token_object remote_scope handle generation node_id u ∙ rw (hex, n) refl in
      subst
        (λ (t : Text).
          parse_recipient_token codec t ≡ ok (some (remote_recipient node_id handle generation)))
        same
        (encoded (token_object remote_scope handle generation node_id) v (rw (← same) at short)
          ∙ rw read refl)

  both :
      (generation g : Text)
      → valid_uuid generation "route generation" ≡ ok g
      → (valid_uuid generation "route generation" >> ok g) ≡ ok g
  both generation g b = rw b refl

  -- A remote token that is minted is parsed as the node, the handle and the generation it was
  -- minted for, where it has at most 512 characters and its payload survives its encoding.
  pub parse_recipient_token-remote_token :
      (node_id handle generation token : Text)
      → remote_token codec node_id handle generation ≡ ok token
      → Survives codec (token_object remote_scope handle generation node_id)
      → leb (length token) token_max_chars ≡ true
      → parse_recipient_token codec token ≡ ok (some (remote_recipient node_id handle generation))
  unfolding remote_token
  parse_recipient_token-remote_token node_id handle generation token h v short =
      let (handle', a, h₁) =
        >>=-ok (checked_handle handle)
          (λ (hh : Text). valid_uuid generation "route generation" >>= λ (g : Text).
            checked_node_id node_id >>= λ (n : Text).
            ok (encode_token codec (token_object remote_scope hh g n)))
          h in
      let (g, b, h₂) =
        >>=-ok (valid_uuid generation "route generation")
          (λ (g : Text). checked_node_id node_id >>= λ (n : Text).
            ok (encode_token codec (token_object remote_scope handle' g n)))
          h₁ in
      let (n, c, _) =
        >>=-ok (checked_node_id node_id)
          (λ (n : Text). ok (encode_token codec (token_object remote_scope handle' g n))) h₂ in
      remote_read node_id handle generation token (checked_handle-ok handle handle' a)
        (valid_uuid-ok generation "route generation" (ok g) (both generation g b)).0
        (checked_node_id-ok node_id n c) h v short
