-- ===== src/HelperStore/Once.antt =====
-- `register` and the calls that may follow it, for one nonce.
use cross_agent_chat.Prelude.{
  if◌then◌else◌, All-append, ◌≡◌, refl, sym, ap, ◌∙◌, subst, Bool, true, Option, none, some, List,
  [], ◌∷◌, ◌++◌, map,
}
use cross_agent_chat.Core.{Error, Result, err, ok, Env}
use cross_agent_chat.Route.{Route}
use cross_agent_chat.Text.{Text}
use cross_agent_chat.Helper.{Binding, is_unknown}
use cross_agent_chat.Helper.Codec.{IsBinding}
use cross_agent_chat.HelperStore.{
  HelperRoot, bindings, store_bindings, binding_eq, reserve, register,
}
use cross_agent_chat.HelperStore.Reading.{store_bindings-bindings, bindings-AreBindings}
use cross_agent_chat.HelperStore.Writing.{retired_of, retired_of-IsBinding}
use cross_agent_chat.HelperStore.Steps.{rebound, rebound-All, split_consistent}
use cross_agent_chat.HelperStore.Reserving.{reserve-Reserved, reserve-reads}
use cross_agent_chat.HelperStore.Registering.{Registered, register-Registered, register-reads}
use cross_agent_chat.HelperStore.Used.{
  Used, Used-snoc, retired_Used, rebound-Used, last_nonce, Registered-Used,
}

cons-injective {ℓ} : {A : Type ℓ} {x y : A} {xs ys : List A} → x ∷ xs ≡ y ∷ ys → x ≡ y
cons-injective h = cc

-- The two calls that write the helpers, with whatever arguments.
pub data HelperCall : Type 0 where
  a_reserve : (Route → Bool) → List Route → Route → Text → Text → List Text → HelperCall
  a_register : Route → Text → Route → Text → HelperCall

module _ (env : Env) where
  -- Whenever the store reads, the nonce is used.
  abbrev StaysUsed : Text → HelperRoot → Type 0
  StaysUsed nonce root = (bs : List Binding) → bindings root ≡ ok bs → Used env nonce bs

  reserve-StaysUsed :
      (nonce original_nonce account : Text) (live : Route → Bool) (routes : List Route)
      (original : Route) (draws : List Text) (b : Binding) (root root' : HelperRoot)
      → reserve env live routes original original_nonce account draws root ≡ some (ok (b, root'))
      → StaysUsed nonce root
      → StaysUsed nonce root'
  reserve-StaysUsed nonce original_nonce account live routes original draws b root root' done stays
        ds e =
      let (bs, reads) =
        reserve-reads env live routes original original_nonce account draws root root' b done in
      let did =
        reserve-Reserved env live routes original original_nonce account draws root root' bs b reads
          done in
      let valid =
        All-append IsBinding (map (retired_of original) bs) (b ∷ [])
          (retired_of-IsBinding original bs (bindings-AreBindings root bs reads).valid)
          (did.new.valid, tt) in
      let (same, agrees) =
        store_bindings-bindings (map (retired_of original) bs ++ b ∷ []) ds root valid
          (rw did.written at e) in
      let before = retired_Used env nonce original bs (stays bs reads) in
      subst (Used env nonce) (sym same) (
        Used-snoc env nonce (map (retired_of original) bs) b
          (last_nonce env nonce (map (retired_of original) bs) b (split_consistent _ agrees).2
            before)
          before)

  -- What `register` writes, if it reads.
  register-writes :
      (helper : Route) (nonce : Text) (bs ds : List Binding) (b : Binding) (root root' : HelperRoot)
      → bindings root ≡ ok bs
      → (r : Registered env helper nonce bs root b root') → bindings root' ≡ ok ds
      → ds ≡ map (rebound r.awaiting helper.session_id helper.generation) bs
  unfolding rebound
  register-writes helper nonce bs ds b root root' reads r e =
      let written : root'
          ≡ store_bindings (map (rebound r.awaiting helper.session_id helper.generation) bs) root =
        r.written
        ∙ ap
            (λ (x : Binding).
              store_bindings (map (λ c. if binding_eq c r.awaiting then x else c) bs) root)
            r.bound in
      (store_bindings-bindings (map (rebound r.awaiting helper.session_id helper.generation) bs) ds
        root
        (rebound-All IsBinding r.awaiting helper.session_id helper.generation bs
          (bindings-AreBindings root bs reads).valid (rw (sym r.bound) r.valid))
        (rw written at e)).0

  register-StaysUsed :
      (nonce original_nonce account : Text) (helper original : Route) (b : Binding)
      (root root' : HelperRoot)
      → register env helper original_nonce original account root ≡ ok (b, root')
      → StaysUsed nonce root
      → StaysUsed nonce root'
  register-StaysUsed nonce original_nonce account helper original b root root' done stays ds e =
      let (bs, reads) =
        register-reads env helper original_nonce original account root root' b done in
      let step =
        register-Registered env helper original_nonce original account root root' bs b reads done in
      subst (Used env nonce)
        (sym (register-writes helper original_nonce bs ds b root root' reads step e))
        (rebound-Used env nonce step.awaiting helper.session_id helper.generation bs
          (stays bs reads))

  unfoldable pub left_by_register : HelperRoot → Result (Binding × HelperRoot) → HelperRoot
  left_by_register root (ok (b, root')) = root'
  left_by_register root (err e) = root

  unfoldable pub left_by_reserve : HelperRoot → Option (Result (Binding × HelperRoot)) → HelperRoot
  left_by_reserve root none = root
  left_by_reserve root (some r) = left_by_register root r

  -- The store after a call; one that is refused leaves it.
  unfoldable pub after_call : HelperCall → HelperRoot → HelperRoot
  after_call (a_reserve live routes original nonce account draws) root =
      left_by_reserve root (reserve env live routes original nonce account draws root)
  after_call (a_register helper nonce original account) root =
      left_by_register root (register env helper nonce original account root)

  unfoldable pub after_calls : List HelperCall → HelperRoot → HelperRoot
  after_calls [] root = root
  after_calls (c ∷ cs) root = after_calls cs (after_call c root)

  call-StaysUsed :
      (nonce : Text) (c : HelperCall) (root : HelperRoot)
      → StaysUsed nonce root
      → StaysUsed nonce (after_call c root)
  unfolding after_call left_by_reserve left_by_register
  call-StaysUsed nonce (a_reserve live routes original asked account draws) root stays =
      by_answer (reserve env live routes original asked account draws root) refl
    where
      by_answer :
          (o : Option (Result (Binding × HelperRoot)))
          → reserve env live routes original asked account draws root ≡ o
          → StaysUsed nonce (left_by_reserve root o)
      by_answer none h = stays
      by_answer (some (err e)) h = stays
      by_answer (some (ok (b, root'))) h =
          reserve-StaysUsed nonce asked account live routes original draws b root root' h stays
  call-StaysUsed nonce (a_register helper asked original account) root stays =
      by_answer (register env helper asked original account root) refl
    where
      by_answer :
          (o : Result (Binding × HelperRoot))
          → register env helper asked original account root ≡ o
          → StaysUsed nonce (left_by_register root o)
      by_answer (err e) h = stays
      by_answer (ok (b, root')) h =
          register-StaysUsed nonce asked account helper original b root root' h stays

  calls-StaysUsed :
      (nonce : Text) (cs : List HelperCall) (root : HelperRoot)
      → StaysUsed nonce root
      → StaysUsed nonce (after_calls cs root)
  unfolding after_calls
  calls-StaysUsed nonce [] root stays = stays
  calls-StaysUsed nonce (c ∷ cs) root stays =
      calls-StaysUsed nonce cs (after_call c root) (call-StaysUsed nonce c root stays)

  -- A nonce that has registered a helper registers no other one: after any calls of `reserve` and
  -- `register` that follow, with whatever arguments and answers, `register` with this nonce is
  -- refused, whoever asks.
  pub register-at_most_once :
      (helper helper' original original' : Route) (nonce account account' : Text) (b : Binding)
      (root root' : HelperRoot) (cs : List HelperCall)
      → register env helper nonce original account root ≡ ok (b, root')
      → (e : Error) × (register env helper' nonce original' account' (after_calls cs root') ≡ err e)
  register-at_most_once helper helper' original original' nonce account account' b root root' cs
        done =
      by_answer (register env helper' nonce original' account' (after_calls cs root')) refl
    where
      used : StaysUsed nonce root'
      used ds e =
          let (bs, reads) = register-reads env helper nonce original account root root' b done in
          let step =
            register-Registered env helper nonce original account root root' bs b reads done in
          subst (Used env nonce)
            (sym (register-writes helper nonce bs ds b root root' reads step e))
            (Registered-Used env helper nonce bs b root root' step)

      by_answer :
          (r : Result (Binding × HelperRoot))
          → register env helper' nonce original' account' (after_calls cs root') ≡ r
          → (e : Error) × (r ≡ err e)
      by_answer (err e) h = (e, refl)
      by_answer (ok (c, root'')) h =
          let (bs, reads) =
            register-reads env helper' nonce original' account' (after_calls cs root') root'' c h in
          let row = calls-StaysUsed nonce cs root' used bs reads in
          let again =
            register-Registered env helper' nonce original' account' (after_calls cs root') root''
              bs c reads h in
          let row_same : row.row ≡ again.awaiting = cons-injective (sym row.only ∙ again.found) in
          let waiting : is_unknown row.row.state ≡ true =
            unfold is_unknown in rw (row_same, again.waits) refl in
          absurd (cc (waiting, row.bound))
