-- ===== src/Capability/Reading.antt =====
-- What is read of capabilities that were written.
use cross_agent_chat.Prelude.{
  keep, distinct_by, ◌≡◌, refl, sym, ap, ◌∙◌, Bool, true, ◌&&◌, some, List, [], ◌∷◌, map, arith,
}
use cross_agent_chat.Core.{
  message, Result, ok, ◌>>=◌, ◌>>◌, require, or_fail, >>=-ok, then_ok, require-ok, ok-injective,
}
use cross_agent_chat.Core.StateFile.{read_rows-atomic_json, map_ok, map_ok_exact}
use cross_agent_chat.Json.{get, keys, member, subset, keys_are, as_str}
use cross_agent_chat.Text.{◌==◌, ==_refl, is_hex64}
use cross_agent_chat.Capability.{
  Tool, chat_peers, chat_send, chat_status, Floats, tool_text, read_tool, tool_eq,
  capability_fields, bad_capability, capability_text, CapabilityRoot, Capability,
  capability_to_dict, capability_of_fields, capability_from_object, same_token, capabilities,
  store_capabilities, capability_eq,
}
use cross_agent_chat.Core.Ids.{valid_uuid, devin, valid_session_id}

tool_eq_refl : (t : Tool) → tool_eq t t ≡ true
unfolding tool_eq
tool_eq_refl chat_peers = refl
tool_eq_refl chat_send = refl
tool_eq_refl chat_status = refl

read_tool-tool_text : (t : Tool) → read_tool (tool_text t) ≡ some t
unfolding read_tool tool_text ◌==◌
read_tool-tool_text chat_peers = refl
read_tool-tool_text chat_send = refl
read_tool-tool_text chat_status = refl

pub keep-keep_comm {ℓ} :
    {A : Type ℓ} (p q : A → Bool) (xs : List A) → keep p (keep q xs) ≡ keep q (keep p xs)
keep-keep_comm p q [] = refl
keep-keep_comm p q (x ∷ xs) = ground (arith, keep-keep_comm p q xs)

module _ (fl : Floats) where
  pub capability_eq_refl : (c : Capability fl) → capability_eq fl c c ≡ true
  unfolding capability_eq
  capability_eq_refl c = simp (==_refl, tool_eq_refl, fl.float_eq_refl)

  -- The end of `from_object`.
  abbrev validated : Capability fl → fl.Float → Result (Capability fl)
  validated c at =
      valid_session_id devin c.session_id "Devin capability session id"
      >> (valid_uuid c.generation "Devin capability generation"
          >> (valid_uuid c.prompt_id "Devin capability prompt id"
              >> ok (record c { issued_at = at })))

  -- A capability that is read back is the one that was written.
  from_object_same :
      (c d : Capability fl) → capability_from_object fl (capability_to_dict fl c) ≡ ok d → d ≡ c
  unfolding capability_from_object capability_of_fields capability_to_dict capability_text keys_are
      subset member keys get as_str capability_fields ◌==◌
  from_object_same c d h =
      let h₁ = rw (read_tool-tool_text c.tool_name, fl.of_json-to_json c.issued_at) at h in
      (let (_, _, h₂) =
          >>=-ok (require (is_hex64 c.token_digest && is_hex64 c.arguments_digest) bad_capability)
            (λ (u : Unit {0}).
              or_fail (some c.issued_at) bad_capability >>= λ (at : fl.Float). validated c at)
            h₁ in
        let (at, same, h₃) =
          >>=-ok (or_fail (some c.issued_at) bad_capability) (λ (at : fl.Float). validated c at)
            h₂ in
        let h₄ =
          then_ok (valid_uuid c.prompt_id "Devin capability prompt id")
            (ok (record c { issued_at = at }))
            (then_ok (valid_uuid c.generation "Devin capability generation") _
              (then_ok (valid_session_id devin c.session_id "Devin capability session id") _ h₃)) in
        let here_at : c.issued_at ≡ at = ok-injective same in
        sym (ok-injective h₄) ∙ ap (λ (t : fl.Float). record c { issued_at = t }) (sym here_at))

  pub stored_capabilities :
      (cs ds : List (Capability fl)) (root : CapabilityRoot)
      → capabilities fl (store_capabilities fl cs root) ≡ ok ds
      → ds ≡ cs
  unfolding capabilities store_capabilities
  stored_capabilities cs ds root h =
      let h₁ =
        rw (read_rows-atomic_json (map (capability_to_dict fl) cs) bad_capability bad_capability) at
          h in
      let (es, mapped, h₂) =
        >>=-ok (map_ok (capability_from_object fl) (map (capability_to_dict fl) cs))
          (λ (es : List (Capability fl)).
            require (distinct_by (same_token fl) es)
              (message "Devin capability state contains duplicate tokens")
            >> ok es)
          h₁ in
      let (_, h₃) =
        require-ok (distinct_by (same_token fl) es)
          (message "Devin capability state contains duplicate tokens") (ok es) h₂ in
      sym (ok-injective h₃)
      ∙ map_ok_exact (capability_from_object fl) (capability_to_dict fl) from_object_same cs es
          mapped
