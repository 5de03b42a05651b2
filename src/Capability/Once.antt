-- ===== src/Capability/Once.antt =====
-- `consume` and the other calls of the store, for one token.
use cross_agent_chat.Prelude.{
  Bool-cases, keep, keep_none, any-keep, ◌≡◌, refl, inl, inr, false, not, ◌&&◌,
}
use cross_agent_chat.Core.{Error, Result, err, ok, Env}
use cross_agent_chat.Json.{Fields}
use cross_agent_chat.Route.{Route}
use cross_agent_chat.Text.{Text, ◌==◌}
use cross_agent_chat.Capability.{
  Tool, Floats, tool_eq, CapabilityRoot, Capability, capability_eq, fresh, has_digest,
  revoke_session, arguments_digest_of, issue, take_capability, answered, consume,
}
use cross_agent_chat.Capability.Gone.{
  Gone, stored-Gone, fresh-gone, revoke_session-Gone, take_capability-Taken, issue-Gone, Taken-Gone,
}

module _ (fl : Floats) where
  module _ (env : Env) (dumps : Fields → Text) where
    -- What the callers of one store do to it, where no token that is drawn has the digest.
    pub data Uses (digest : Text) : CapabilityRoot → CapabilityRoot → Type 0 where
      unused : (root : CapabilityRoot) → Uses digest root root
      issuing :
          (route : Route) (prompt : Text) (tool : Tool) (arguments : Fields) (token : Text)
          (at now : fl.Float) (root root' final : CapabilityRoot)
          → (env.sha256 token == digest) ≡ false
          → issue fl env dumps route prompt tool arguments token at now root ≡ ok (token, root')
          → Uses digest root' final
          → Uses digest root final
      consuming :
          (token : Text) (tool : Tool) (arguments : Fields) (now later : fl.Float)
          (root final : CapabilityRoot)
          → Uses digest (consume fl env dumps token tool arguments now later root).1 final
          → Uses digest root final
      revoking :
          (now : fl.Float) (session : Text) (root root' final : CapabilityRoot)
          → revoke_session fl now session root ≡ ok root'
          → Uses digest root' final
          → Uses digest root final

    take_Gone :
        (digest token : Text) (now later : fl.Float) (c : Capability fl)
        (root root' : CapabilityRoot)
        → take_capability fl env dumps token now later root ≡ ok (c, root')
        → Gone fl digest root
        → Gone fl digest root'
    unfolding Gone
    take_Gone digest token now later c root root' h gone =
        let t = take_capability-Taken fl env dumps token now later c root root' h in
        rw t.written (
          stored-Gone fl digest (keep (λ d. not (capability_eq fl d c)) (fresh fl now t.records))
            root
            (any-keep (has_digest fl digest) (λ d. not (capability_eq fl d c))
              (fresh fl now t.records)
              (fresh-gone fl digest now t.records (gone t.records t.reads))))

    consume-Gone :
        (digest token : Text) (tool : Tool) (arguments : Fields) (now later : fl.Float)
        (root : CapabilityRoot)
        → Gone fl digest root
        → Gone fl digest (consume fl env dumps token tool arguments now later root).1
    unfolding consume answered
    consume-Gone digest token tool arguments now later root gone =
        by_taken (take_capability fl env dumps token now later root) refl
      where
        by_taken :
            (r : Result (Capability fl × CapabilityRoot))
            → take_capability fl env dumps token now later root ≡ r
            → Gone fl digest (answered fl env dumps tool arguments root r).1
        by_taken (err e) h = gone
        by_taken (ok (c, root')) h =
            elim (Bool-cases (
              tool_eq c.tool_name tool
              && (c.arguments_digest == arguments_digest_of fl env dumps arguments))) [
                | inl m ↦ rw m (take_Gone digest token now later c root root' h gone)
                | inr m ↦ rw m (take_Gone digest token now later c root root' h gone)
              ]

    Uses-Gone :
        (digest : Text) (root final : CapabilityRoot)
        → Uses digest root final
        → Gone fl digest root
        → Gone fl digest final
    Uses-Gone digest root final (unused r) gone = gone
    Uses-Gone digest root final
          (issuing route prompt tool arguments token at now r root' f new h rest) gone =
        Uses-Gone digest root' final rest (
          issue-Gone fl env dumps digest route prompt tool arguments token at now root root' token
            new h gone)
    Uses-Gone digest root final (consuming token tool arguments now later r f rest) gone =
        Uses-Gone digest _ final rest (consume-Gone digest token tool arguments now later root gone)
    Uses-Gone digest root final (revoking now session r root' f h rest) gone =
        Uses-Gone digest root' final rest
          (revoke_session-Gone fl digest now session root root' h gone)

    -- A token is consumed once. After `consume` took the capability of a token, whether or not the
    -- call matched it, and after any further calls of the store, `consume` with that token is
    -- refused and changes nothing, if no token that is issued later has its digest.
    pub consume-at_most_once :
        (token : Text) (tool : Tool) (arguments : Fields) (c : Capability fl)
        (now later now' later' : fl.Float) (root root' final : CapabilityRoot)
        → take_capability fl env dumps token now later root ≡ ok (c, root')
        → Uses (env.sha256 token) root' final
        → (e : Error) × (consume fl env dumps token tool arguments now' later' final
            ≡ (err e, final))
    unfolding consume Gone answered
    consume-at_most_once token tool arguments c now later now' later' root root' final h run =
        let gone = Uses-Gone (env.sha256 token) root' final run (
          Taken-Gone fl env dumps token now c root root'
            (take_capability-Taken fl env dumps token now later c root root' h)) in
        by_taken gone (take_capability fl env dumps token now' later' final) refl
      where
        by_taken :
            Gone fl (env.sha256 token) final
            → (r : Result (Capability fl × CapabilityRoot))
            → take_capability fl env dumps token now' later' final ≡ r
            → (e : Error) × (answered fl env dumps tool arguments final r ≡ (err e, final))
        by_taken gone (err e) k = (e, refl)
        by_taken gone (ok (d, root'')) k =
            let t = take_capability-Taken fl env dumps token now' later' d final root'' k in
            let empty =
              keep_none (has_digest fl (env.sha256 token)) (fresh fl now' t.records)
                (fresh-gone fl (env.sha256 token) now' t.records (gone t.records t.reads)) in
            absurd (cc (empty, t.only))
