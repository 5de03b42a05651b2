-- ===== src/Capability/Gone.antt =====
-- A digest that no capability of the store has, and the calls that keep it so.
use cross_agent_chat.HelperStore.Registering.{the_only-ok}
use cross_agent_chat.Prelude.{
  leb, eqb, if◌then◌else◌, length, keep, any, any-append, any-of-keep, any-keep, ◌≡◌, refl, sym, ap,
  ◌∙◌, subst, Bool, true, false, not, ◌||◌, List, [], ◌∷◌, ◌++◌,
}
use cross_agent_chat.Core.{message, ok, ◌>>=◌, ◌>>◌, require, Env, >>=-ok, then_ok, ok-injective}
use cross_agent_chat.Json.{Fields}
use cross_agent_chat.Route.{is_devin, Route}
use cross_agent_chat.Text.{Text, ◌==◌, is_hex64}
use cross_agent_chat.Capability.{
  Tool, Floats, max_active, CapabilityRoot, file_exists, capabilities_lock, Capability,
  capabilities, store_capabilities, capability_eq, fresh, has_digest, refusal, revoke_session,
  arguments_digest_of, issue, take_capability,
}
use cross_agent_chat.Core.Ids.{valid_uuid, devin, valid_session_id}
use cross_agent_chat.HelperStore.{the_only}
use cross_agent_chat.Capability.Reading.{keep-keep_comm, capability_eq_refl, stored_capabilities}

module _ (fl : Floats) where
  -- No capability that the store lists has the digest.
  unfoldable pub Gone : Text → CapabilityRoot → Type 0
  Gone digest root =
      (cs : List (Capability fl))
      → capabilities fl root ≡ ok cs
      → any (has_digest fl digest) cs ≡ false

  pub stored-Gone :
      (digest : Text) (cs : List (Capability fl)) (root : CapabilityRoot)
      → any (has_digest fl digest) cs ≡ false
      → Gone digest (store_capabilities fl cs root)
  unfolding Gone
  stored-Gone digest cs root h ds reads = rw (stored_capabilities fl cs ds root reads) h

  pub fresh-gone :
      (digest : Text) (now : fl.Float) (cs : List (Capability fl))
      → any (has_digest fl digest) cs ≡ false
      → any (has_digest fl digest) (fresh fl now cs) ≡ false
  unfolding fresh
  fresh-gone digest now cs h =
      any-keep (has_digest fl digest) (λ c. fl.is_fresh now c.issued_at) cs h

  either_Gone :
      (digest : Text) (test : Bool) (root root' : CapabilityRoot)
      → Gone digest root
      → Gone digest root'
      → Gone digest (if test then root else root')
  either_Gone digest true root root' g h = g
  either_Gone digest false root root' g h = h

  pub revoke_session-Gone :
      (digest : Text) (now : fl.Float) (session : Text) (root root' : CapabilityRoot)
      → revoke_session fl now session root ≡ ok root'
      → Gone digest root
      → Gone digest root'
  unfolding revoke_session Gone
  revoke_session-Gone digest now session root root' h gone =
      let (records, reads, h₁) =
        >>=-ok (capabilities fl root)
          (λ (records : List (Capability fl)). ok (
            if not (
                eqb (length (keep (λ c. not (c.session_id == session)) (fresh fl now records)))
                  (length (fresh fl now records)))
              || file_exists root.capabilities_file
            then store_capabilities fl
                (keep (λ c. not (c.session_id == session)) (fresh fl now records)) root
            else root))
          (then_ok (capabilities_lock root) _
            (then_ok (valid_session_id devin session "Devin capability session id") _ h)) in
      let retained =
        keep (λ (c : Capability fl). not (c.session_id == session)) (fresh fl now records) in
      let stored : Gone digest (store_capabilities fl retained root) =
        stored-Gone digest retained root (
          any-keep (has_digest fl digest) (λ c. not (c.session_id == session))
            (fresh fl now records) (fresh-gone digest now records (gone records reads))) in
      subst (Gone digest) (ok-injective h₁) (either_Gone digest _ _ _ stored gone)

  -- The state that `consume` leaves.
  abbrev pub left :
      fl.Float → List (Capability fl) → Capability fl → CapabilityRoot → CapabilityRoot
  left now records c root =
      store_capabilities fl (keep (λ d. not (capability_eq fl d c)) (fresh fl now records)) root

  module _ (env : Env) (dumps : Fields → Text) where
    -- What `consume` did under the lock.
    pub record Taken (token : Text) (now : fl.Float) (c : Capability fl)
        (root root' : CapabilityRoot) : Type 0 where
      pub records : List (Capability fl)
      pub reads : capabilities fl root ≡ ok records
      pub only : keep (has_digest fl (env.sha256 token)) (fresh fl now records) ≡ c ∷ []
      pub written :
          root'
          ≡ store_capabilities fl
              (keep (λ d. not (capability_eq fl d c)) (fresh fl now records))
              root

    pub take_capability-Taken :
        (token : Text) (now later : fl.Float) (c : Capability fl) (root root' : CapabilityRoot)
        → take_capability fl env dumps token now later root ≡ ok (c, root')
        → Taken token now c root root'
    unfolding take_capability
    take_capability-Taken token now later c root root' h =
        let (records, reads, h₁) =
          >>=-ok (capabilities fl root)
            (λ (records : List (Capability fl)).
              the_only (keep (has_digest fl (env.sha256 token)) (fresh fl now records))
                (refusal fl later (env.sha256 token) records)
              >>= λ (d : Capability fl). ok (d, left now records d root))
            (then_ok (capabilities_lock root) _ (
              then_ok (require (is_hex64 token) (message "Devin sender capability is invalid")) _
                h)) in
        let (d, one, h₂) =
          >>=-ok
            (the_only (keep (has_digest fl (env.sha256 token)) (fresh fl now records))
              (refusal fl later (env.sha256 token) records))
            (λ (d : Capability fl). ok (d, left now records d root)) h₁ in
        let same : d ≡ c = ap (λ (p : Capability fl × CapabilityRoot). p.0) (ok-injective h₂) in
        record {
          records = records;
          reads = reads;
          only =
              the_only-ok (keep (has_digest fl (env.sha256 token)) (fresh fl now records))
                (refusal fl later (env.sha256 token) records) c
                (subst
                  (λ (x : Capability fl).
                    the_only (keep (has_digest fl (env.sha256 token)) (fresh fl now records))
                      (refusal fl later (env.sha256 token) records)
                    ≡ ok x)
                  same one);
          written =
              sym (ap (λ (p : Capability fl × CapabilityRoot). p.1) (ok-injective h₂))
              ∙ ap (λ (x : Capability fl). left now records x root) same;
        }

    abbrev issued : Route → Text → Tool → Fields → Text → fl.Float → Capability fl
    issued route prompt tool arguments token at = record {
      token_digest = env.sha256 token;
      session_id = route.session_id;
      generation = route.generation;
      prompt_id = prompt;
      tool_name = tool;
      arguments_digest = arguments_digest_of fl env dumps arguments;
      issued_at = at;
    }

    other_digest :
        (digest : Text) (route : Route) (prompt : Text) (tool : Tool) (arguments : Fields)
        (token : Text) (at : fl.Float)
        → (env.sha256 token == digest) ≡ false
        → has_digest fl digest (issued route prompt tool arguments token at) ≡ false
    unfolding has_digest
    other_digest digest route prompt tool arguments token at h = h

    pub issue-Gone :
        (digest : Text) (route : Route) (prompt : Text) (tool : Tool) (arguments : Fields)
        (token : Text) (at now : fl.Float) (root root' : CapabilityRoot) (given : Text)
        → (env.sha256 token == digest) ≡ false
        → issue fl env dumps route prompt tool arguments token at now root ≡ ok (given, root')
        → Gone digest root
        → Gone digest root'
    unfolding issue Gone
    issue-Gone digest route prompt tool arguments token at now root root' given new h gone =
        let (records, reads, h₁) =
          >>=-ok (capabilities fl root)
            (λ (records : List (Capability fl)).
              require (not (leb max_active (length (fresh fl now records))))
                (message "Devin capability state is full")
              >> ok (
                token,
                store_capabilities fl
                    (fresh fl now records ++ issued route prompt tool arguments token at ∷ []) root,
              ))
            (then_ok (capabilities_lock root) _ (
              then_ok (valid_uuid prompt "Devin capability prompt id") _ (
                then_ok
                  (require (is_devin route.provider) (message "Devin capability route is invalid"))
                  _ h))) in
        let h₂ = ok-injective (
          then_ok
            (require (not (leb max_active (length (fresh fl now records))))
              (message "Devin capability state is full"))
            _ h₁) in
        subst (Gone digest) (ap (λ (p : Text × CapabilityRoot). p.1) h₂) (
          stored-Gone digest
            (fresh fl now records ++ issued route prompt tool arguments token at ∷ []) root
            (any-append (has_digest fl digest) (fresh fl now records)
                (issued route prompt tool arguments token at ∷ [])
              ∙ rw
                  (
                    fresh-gone digest now records (gone records reads),
                    other_digest digest route prompt tool arguments token at new,
                  )
                  refl))

    -- The store after a token was taken does not list it.
    pub Taken-Gone :
        (token : Text) (now : fl.Float) (c : Capability fl) (root root' : CapabilityRoot)
        → Taken token now c root root'
        → Gone (env.sha256 token) root'
    Taken-Gone token now c root root' t =
        let existing = fresh fl now t.records in
        let p = has_digest fl (env.sha256 token) in
        let q = λ (d : Capability fl). not (capability_eq fl d c) in
        let none_left : keep p (keep q existing) ≡ [] =
          keep-keep_comm p q existing ∙ rw (t.only, capability_eq_refl fl c) refl in
        rw t.written (
          stored-Gone (env.sha256 token) (keep q existing) root
            (any-of-keep p (keep q existing) none_left))
