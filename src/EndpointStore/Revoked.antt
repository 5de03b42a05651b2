-- ===== src/EndpointStore/Revoked.antt =====
-- `authenticate` after `revoke` and the calls that may follow it, for one id.
use cross_agent_chat.Prelude.{keep, ℕ, ◌≡◌, true, false, Option, List, arith}
use cross_agent_chat.Core.{Error, message, ok, ◌>>=◌, or_fail, Env, >>=-ok}
use cross_agent_chat.Json.Int.{ℤ}
use cross_agent_chat.Text.{Text, ◌==◌}
use cross_agent_chat.Recipient.{BodyCodec}
use cross_agent_chat.Endpoint.{Endpoint, available}
use cross_agent_chat.EndpointStore.{
  EndpointRoot, is_endpoint, endpoints, enroll, credential_id, admits, authenticate, rotate, revoke,
}
use cross_agent_chat.HelperStore.Registering.{the_only-ok}
use cross_agent_chat.HelperStore.{the_only}
use cross_agent_chat.EndpointStore.Ended.{
  is_standing, only_fails, only_passes, Ended, enroll-Ended, rotate-Ended, revoke-any, revoke-Ended,
}

module _ (env : Env) (codec : BodyCodec) (uid : ℤ) where
  -- What the callers of one store do to it: each call that succeeds is a step, and no identity
  -- that is enrolled has the id.
  pub data Calls (identifier : Text) : EndpointRoot → EndpointRoot → Type 0 where
    finished : (root : EndpointRoot) → Calls identifier root root
    enrolling :
        (device name context : Text) (expires_at : Option Text)
        (allowed_recipients : Option (List Text)) (endpoint_id generation secret : Text)
        (root root' final : EndpointRoot) (e : Endpoint) (credential : Text)
        → (endpoint_id == identifier) ≡ false
        → enroll env codec uid device name context expires_at allowed_recipients endpoint_id
            generation secret root
          ≡ ok (e, credential, root')
        → Calls identifier root' final
        → Calls identifier root final
    rotating_one :
        (endpoint_id generation secret : Text) (now : ℕ) (root root' final : EndpointRoot)
        (e : Endpoint) (credential : Text)
        → rotate env codec uid endpoint_id generation secret now root ≡ ok (e, credential, root')
        → Calls identifier root' final
        → Calls identifier root final
    revoking_one :
        (endpoint_id generation : Text) (root root' final : EndpointRoot)
        → revoke env codec uid endpoint_id generation root ≡ ok root'
        → Calls identifier root' final
        → Calls identifier root final

  Calls-Ended :
      (identifier : Text) (root final : EndpointRoot)
      → Calls identifier root final
      → Ended env codec uid identifier root
      → Ended env codec uid identifier final
  Calls-Ended identifier root final (finished r) ended = ended
  Calls-Ended identifier root final
        (enrolling device name context expires_at allowed_recipients endpoint_id generation secret r
          root' f e credential n h rest)
        ended =
      Calls-Ended identifier root' final rest (
        enroll-Ended env codec uid identifier device name context expires_at allowed_recipients
          endpoint_id generation secret root root' e credential n h ended)
  Calls-Ended identifier root final
        (rotating_one endpoint_id generation secret now r root' f e credential h rest) ended =
      Calls-Ended identifier root' final rest (
        rotate-Ended env codec uid identifier endpoint_id generation secret now root root' e
          credential h ended)
  Calls-Ended identifier root final (revoking_one endpoint_id generation r root' f h rest) ended =
      Calls-Ended identifier root' final rest
        (revoke-any env codec uid identifier endpoint_id generation root root' h ended)

  abbrev closed : Error
  closed = message "external credential is unavailable; enroll this endpoint"

  not_standing :
      (identifier other credential : Text) (now : ℕ) (e : Endpoint)
      → is_standing identifier e ≡ false
      → admits env codec uid credential other now e ≡ true
      → is_endpoint identifier e ≡ false
  unfolding is_standing admits available
  not_standing identifier other credential now e f p = ground arith

  -- A revoked endpoint is never authenticated again: after a revoke that succeeded and any further
  -- enrolments of other ids, rotations and revocations, no credential is answered with it.
  pub authenticate-revoke :
      (endpoint_id generation credential : Text) (now : ℕ) (root root' final : EndpointRoot)
      (e : Endpoint)
      → revoke env codec uid endpoint_id generation root ≡ ok root'
      → Calls endpoint_id root' final
      → authenticate env codec uid credential now final ≡ ok e
      → is_endpoint endpoint_id e ≡ false
  unfolding authenticate Ended
  authenticate-revoke endpoint_id generation credential now root root' final e h run answered =
      let ended =
        Calls-Ended endpoint_id root' final run
          (revoke-Ended env codec uid endpoint_id generation root root' h) in
      let (other, _, h₁) =
        >>=-ok (or_fail (credential_id env codec uid credential) closed)
          (λ (other : Text). endpoints env codec uid final >>= λ (es : List Endpoint).
            the_only (keep (admits env codec uid credential other now) es) closed)
          answered in
      let (es, reads, h₂) =
        >>=-ok (endpoints env codec uid final)
          (λ (es : List Endpoint).
            the_only (keep (admits env codec uid credential other now) es) closed)
          h₁ in
      let one = the_only-ok (keep (admits env codec uid credential other now) es) closed e h₂ in
      let fails =
        only_fails (is_standing endpoint_id) (admits env codec uid credential other now) es e one
          (ended es reads) in
      let passes = only_passes (admits env codec uid credential other now) es e one in
      not_standing endpoint_id other credential now e fails passes
