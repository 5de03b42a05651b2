-- ===== src/HelperStore/Registering.antt =====
-- What a successful `register` checked and wrote.
use cross_agent_chat.Prelude.{
  if◌then◌else◌, keep, ◌≡◌, sym, ap, ◌∙◌, ◌&&◌, List, [], ◌∷◌, map, arith,
}
use cross_agent_chat.Core.{
  Error, message, Result, ok, ◌>>=◌, ◌>>◌, require, Env, >>=-ok, then_ok, require-ok, ok-injective,
}
use cross_agent_chat.Core.Paths.{path_name}
use cross_agent_chat.Text.{Text, ◌==◌, ==_iff}
use cross_agent_chat.Route.{is_codex, Route}
use cross_agent_chat.Helper.{unknown, Binding, check_binding, is_unknown, fits, register_binding}
use cross_agent_chat.Helper.Codec.{IsBinding, check_binding-ok}
use cross_agent_chat.HelperStore.{
  HelperRoot, bindings, store_bindings, helpers_lock, binding_eq, is_of, the_only, has_nonce,
  register,
}
use cross_agent_chat.HelperStore.Steps.{bound_to}

pub the_only-ok {ℓ} :
    {A : Type ℓ} (xs : List A) (e : Error) (a : A) → the_only xs e ≡ ok a → xs ≡ a ∷ []
unfolding the_only
the_only-ok [] e a h = absurd (cc)
the_only-ok (x ∷ []) e a h = cc
the_only-ok (x ∷ y ∷ rest) e a h = absurd (cc)

module _ (env : Env) where
  -- What `register` did, on a store that reads.
  pub record Registered (helper : Route) (nonce : Text) (bs : List Binding) (root : HelperRoot)
      (b : Binding) (root' : HelperRoot) : Type 0 where
    pub awaiting : Binding
    pub found : keep (has_nonce env nonce) bs ≡ awaiting ∷ []
    pub waits : awaiting.state ≡ unknown
    pub bound : b ≡ bound_to helper.session_id helper.generation awaiting
    pub valid : IsBinding b
    pub sits : path_name helper.cwd ≡ awaiting.helper_directory
    pub written : root' ≡ store_bindings (map (λ c. if binding_eq c awaiting then b else c) bs) root

  register_binding-ok :
      (helper : Route) (nonce account : Text) (awaiting b : Binding)
      → register_binding env helper nonce account awaiting ≡ ok b
      → (awaiting.state ≡ unknown)
        × (path_name helper.cwd ≡ awaiting.helper_directory)
        × (b ≡ bound_to helper.session_id helper.generation awaiting)
        × IsBinding b
  unfolding register_binding bound_to fits is_unknown
  register_binding-ok helper nonce account awaiting b h =
      let (waits, h₁) =
        require-ok (is_unknown awaiting.state && is_codex helper.provider)
          (message "native helper registration is unavailable")
          (require (fits env helper account awaiting) (message "native helper context is invalid")
            >> (require (env.sha256 nonce == awaiting.nonce_sha256)
                  (message "native helper token is invalid")
                >> check_binding (bound_to helper.session_id helper.generation awaiting)))
          h in
      let (fit, h₂) =
        require-ok (fits env helper account awaiting) (message "native helper context is invalid")
          (require (env.sha256 nonce == awaiting.nonce_sha256)
              (message "native helper token is invalid")
            >> check_binding (bound_to helper.session_id helper.generation awaiting))
          h₁ in
      let (_, h₃) =
        require-ok (env.sha256 nonce == awaiting.nonce_sha256)
          (message "native helper token is invalid")
          (check_binding (bound_to helper.session_id helper.generation awaiting)) h₂ in
      let same =
        (check_binding-ok (bound_to helper.session_id helper.generation awaiting) b h₃).0 in
      (
        ground arith,
        (==_iff (path_name helper.cwd) awaiting.helper_directory).0 (ground arith),
        same,
        rw (← same) at h₃,
      )

  abbrev unavailable : Error
  unavailable = message "native helper registration is unavailable"

  -- The rest of `register` for the binding that awaits its helper.
  abbrev register_awaiting :
      Route
      → Text
      → Route
      → Text
      → HelperRoot
      → List Binding
      → Binding
      → Result (Binding × HelperRoot)
  register_awaiting helper nonce original account root bs w =
      require (is_of original w && is_codex original.provider)
        (message "native helper original route changed")
      >> (register_binding env helper nonce account w >>= λ (bound : Binding).
          ok (bound, store_bindings (map (λ c. if binding_eq c w then bound else c) bs) root))

  pub register-Registered :
      (helper : Route) (nonce : Text) (original : Route) (account : Text) (root root' : HelperRoot)
      (bs : List Binding) (b : Binding)
      → bindings root ≡ ok bs
      → register env helper nonce original account root ≡ ok (b, root')
      → Registered helper nonce bs root b root'
  unfolding register
  register-Registered helper nonce original account root root' bs b reads h =
      let (_, _, h₁) =
        >>=-ok (helpers_lock root)
          (λ (u : Unit {0}). bindings root >>= λ (cs : List Binding).
            the_only (keep (has_nonce env nonce) cs) unavailable >>= λ (w : Binding).
            register_awaiting helper nonce original account root cs w)
          h in
      let h₂ : (the_only (keep (has_nonce env nonce) bs) unavailable >>= λ (w : Binding).
      register_awaiting helper nonce original account root bs w)
          ≡ ok (b, root') =
        rw reads at h₁ in
      let (awaiting, one, h₃) =
        >>=-ok (the_only (keep (has_nonce env nonce) bs) unavailable)
          (λ (w : Binding). register_awaiting helper nonce original account root bs w) h₂ in
      let (_, h₄) =
        require-ok (is_of original awaiting && is_codex original.provider)
          (message "native helper original route changed")
          (register_binding env helper nonce account awaiting >>= λ (bound : Binding).
            ok (
              bound,
              store_bindings (map (λ c. if binding_eq c awaiting then bound else c) bs) root,
            ))
          h₃ in
      let (bound, made, h₅) =
        >>=-ok (register_binding env helper nonce account awaiting)
          (λ (bound : Binding).
            ok (
              bound,
              store_bindings (map (λ c. if binding_eq c awaiting then bound else c) bs) root,
            ))
          h₄ in
      let same : bound ≡ b = ap (λ (p : Binding × HelperRoot). p.0) (ok-injective h₅) in
      let (waits, sits, shape, valid) =
        register_binding-ok helper nonce account awaiting bound made in
      record {
        awaiting = awaiting;
        found = the_only-ok (keep (has_nonce env nonce) bs) unavailable awaiting one;
        waits = waits;
        bound = sym same ∙ shape;
        valid = rw same at valid;
        sits = sits;
        written =
            sym (ap (λ (p : Binding × HelperRoot). p.1) (ok-injective h₅))
            ∙ ap
                (λ (y : Binding).
                  store_bindings (map (λ c. if binding_eq c awaiting then y else c) bs) root)
                same;
      }

  -- `register` succeeds on a store that reads.
  pub register-reads :
      (helper : Route) (nonce : Text) (original : Route) (account : Text) (root root' : HelperRoot)
      (b : Binding)
      → register env helper nonce original account root ≡ ok (b, root')
      → (bs : List Binding) × (bindings root ≡ ok bs)
  unfolding register
  register-reads helper nonce original account root root' b h =
      let h₁ =
        then_ok (helpers_lock root)
          (bindings root >>= λ (cs : List Binding).
            the_only (keep (has_nonce env nonce) cs) unavailable >>= λ (w : Binding).
            register_awaiting helper nonce original account root cs w)
          h in
      let (bs, reads, _) =
        >>=-ok (bindings root)
          (λ (cs : List Binding).
            the_only (keep (has_nonce env nonce) cs) unavailable >>= λ (w : Binding).
            register_awaiting helper nonce original account root cs w)
          h₁ in
      (bs, reads)
