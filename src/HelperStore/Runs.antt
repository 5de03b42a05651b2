-- ===== src/HelperStore/Runs.antt =====
-- Runs of `reserve` and `register` on one store.
use cross_agent_chat.Prelude.{
  if◌then◌else◌, any, All, ◌≡◌, sym, ap, ◌∙◌, subst, Bool, false, Option, none, some, List, [], ◌∷◌,
  ◌++◌, map,
}
use cross_agent_chat.Core.{ok, Env, ok-injective}
use cross_agent_chat.Core.Paths.{path_name}
use cross_agent_chat.Route.{Route}
use cross_agent_chat.Text.{Text, ◌==◌}
use cross_agent_chat.Helper.{Binding}
use cross_agent_chat.HelperStore.{
  HelperRoot, same_directory, same_nonce, bindings, store_bindings, binding_eq, reserve, has_nonce,
  register,
}
use cross_agent_chat.HelperStore.Reading.{
  AreBindings, bindings-store_bindings, bindings-AreBindings,
}
use cross_agent_chat.HelperStore.Writing.{retired_of}
use cross_agent_chat.HelperStore.Agreement.{Sits, Placed}
use cross_agent_chat.HelperStore.Steps.{
  bound_to, rebound, reserved-AreBindings, registered-AreBindings,
}
use cross_agent_chat.HelperStore.Reserving.{IsNew, Reserved, reserve-Reserved}
use cross_agent_chat.HelperStore.Registering.{Registered, register-Registered}

module _ (env : Env) (cwd_of : Text → Text → Text) where
  -- What the callers of one store do to it: each call that succeeds is a step. `reserve` is given
  -- a nonce that no binding has, and `register` a helper in the directory its generation has.
  pub data Runs : HelperRoot → HelperRoot → Type 0 where
    here : (root : HelperRoot) → Runs root root
    reserving :
        (live : Route → Bool) (routes : List Route) (original : Route) (nonce account : Text)
        (draws : List Text) (b : Binding) (bs : List Binding) (root root' final : HelperRoot)
        → bindings root ≡ ok bs
        → any (has_nonce env nonce) bs ≡ false
        → reserve env live routes original nonce account draws root ≡ some (ok (b, root'))
        → Runs root' final
        → Runs root final
    registering :
        (helper original : Route) (nonce account : Text) (b : Binding)
        (root root' final : HelperRoot)
        → cwd_of helper.session_id helper.generation ≡ helper.cwd
        → register env helper nonce original account root ≡ ok (b, root')
        → Runs root' final
        → Runs root final

  -- A store that reads, with every helper in its own directory.
  pub record Sound (root : HelperRoot) : Type 0 where
    pub listed : List Binding
    pub reads : bindings root ≡ ok listed
    pub placed : All (Placed cwd_of) listed

  no_helper-Sits :
      (session generation : Option Text) (directory : Text)
      → session ≡ none
      → Sits cwd_of session generation directory
  no_helper-Sits none generation directory e = tt
  no_helper-Sits (some s) generation directory e = absurd (cc)

  new-Placed :
      (original : Route) (nonce directory : Text) (b : Binding)
      → IsNew env original nonce directory b
      → Placed cwd_of b
  unfolding Placed
  new-Placed original nonce directory b new =
      no_helper-Sits b.helper_session_id b.helper_generation b.helper_directory new.no_session

  bound-Placed :
      (s g : Text) (b : Binding)
      → path_name (cwd_of s g) ≡ b.helper_directory
      → Placed cwd_of (bound_to s g b)
  unfolding Placed bound_to
  bound-Placed s g b h = h

  -- What a step does to the list.
  pub reserve-listed :
      (original : Route) (nonce : Text) (bs : List Binding) (b : Binding) (root root' : HelperRoot)
      → AreBindings bs
      → All (Placed cwd_of) bs
      → any (has_nonce env nonce) bs ≡ false
      → Reserved env original nonce bs root b root'
      → (bindings root' ≡ ok (map (retired_of original) bs ++ b ∷ []))
        × All (Placed cwd_of) (map (retired_of original) bs ++ b ∷ [])
  unfolding same_directory same_nonce has_nonce
  reserve-listed original nonce bs b root root' g p n r =
      let (good, placed) =
        reserved-AreBindings cwd_of original b bs g p r.new.valid r.new.fresh
          (new-Placed original nonce r.directory b r.new) r.new.session r.new.generation
          r.none_unknown
          (subst (λ (d : Text). any (λ c. c.helper_directory == d) bs ≡ false) (sym r.new.placed)
            r.untaken)
          (subst (λ (d : Text). any (λ c. c.nonce_sha256 == d) bs ≡ false) (sym r.new.digest) n) in
      (
        rw r.written (bindings-store_bindings (map (retired_of original) bs ++ b ∷ []) root good),
        placed,
      )

  pub register-listed :
      (helper : Route) (nonce : Text) (bs : List Binding) (b : Binding) (root root' : HelperRoot)
      → AreBindings bs
      → All (Placed cwd_of) bs
      → cwd_of helper.session_id helper.generation ≡ helper.cwd
      → (r : Registered env helper nonce bs root b root')
      → (bindings root' ≡ ok (map (rebound r.awaiting helper.session_id helper.generation) bs))
        × All (Placed cwd_of) (map (rebound r.awaiting helper.session_id helper.generation) bs)
  unfolding rebound
  register-listed helper nonce bs b root root' g p c r =
      let (good, placed) =
        registered-AreBindings cwd_of r.awaiting helper.session_id helper.generation bs g p r.waits
          (rw (sym r.bound) r.valid)
          (bound-Placed helper.session_id helper.generation r.awaiting (ap path_name c ∙ r.sits)) in
      (
        ap bindings (
              r.written
              ∙ ap
                  (λ (x : Binding).
                    store_bindings (map (λ c. if binding_eq c r.awaiting then x else c) bs) root)
                  r.bound)
            ∙ bindings-store_bindings
                (map (rebound r.awaiting helper.session_id helper.generation) bs) root good,
        placed,
      )

  -- Every run of `reserve` and `register` from a store that reads leaves a store that reads: what
  -- they write passes the four tests for duplicates. Each helper stays in its own directory.
  pub Runs-Sound : (root final : HelperRoot) → Runs root final → Sound root → Sound final
  Runs-Sound root final (here r) s = s
  Runs-Sound root final
        (reserving live routes original nonce account draws b bs r root' f reads new done rest) s =
      let same : s.listed ≡ bs = ok-injective (sym s.reads ∙ reads) in
      let (reads', placed) =
        reserve-listed original nonce bs b root root' (bindings-AreBindings root bs reads)
          (rw same at s.placed) new
          (reserve-Reserved env live routes original nonce account draws root root' bs b reads
            done) in
      Runs-Sound root' final rest (record {
        listed = map (retired_of original) bs ++ b ∷ [];
        reads = reads';
        placed = placed;
      })
  Runs-Sound root final (registering helper original nonce account b r root' f sits done rest) s =
      let step =
        register-Registered env helper nonce original account root root' s.listed b s.reads done in
      let (reads', placed) =
        register-listed helper nonce s.listed b root root'
          (bindings-AreBindings root s.listed s.reads) s.placed sits step in
      Runs-Sound root' final rest (record {
        listed = map (rebound step.awaiting helper.session_id helper.generation) s.listed;
        reads = reads';
        placed = placed;
      })
