-- ===== src/HelperStore/Used.antt =====
-- The nonce of a binding that has a helper, over what `reserve` and `register` write.
use cross_agent_chat.Prelude.{
  Bool-cases, keep, any, keep-append, keep_none, distinct_by, distinct_by_last, keep-map, ◌≡◌, refl,
  subst, inl, inr, true, false, List, [], ◌∷◌, ◌++◌, map, arith,
}
use cross_agent_chat.Core.{Env}
use cross_agent_chat.Route.{Route}
use cross_agent_chat.Text.{Text, ◌==◌, ==_iff}
use cross_agent_chat.Helper.{Binding, is_unknown, is_registered}
use cross_agent_chat.HelperStore.{HelperRoot, same_nonce, has_nonce}
use cross_agent_chat.HelperStore.Reading.{binding_eq_refl}
use cross_agent_chat.HelperStore.Writing.{retired_of}
use cross_agent_chat.HelperStore.Steps.{bound_to, rebound, rebound_keys}
use cross_agent_chat.HelperStore.Registering.{Registered}

module _ (env : Env) where
  -- The one binding of a nonce has a helper.
  pub record Used (nonce : Text) (bs : List Binding) : Type 0 where
    pub row : Binding
    pub only : keep (has_nonce env nonce) bs ≡ row ∷ []
    pub bound : is_unknown row.state ≡ false

  -- A change that keeps the nonces and gives no helper back.
  Used-map :
      (nonce : Text) (f : Binding → Binding) (bs : List Binding)
      → ((b : Binding) → has_nonce env nonce (f b) ≡ has_nonce env nonce b)
      → ((b : Binding) → is_unknown b.state ≡ false → is_unknown (f b).state ≡ false)
      → Used nonce bs
      → Used nonce (map f bs)
  Used-map nonce f bs k h u = record {
    row = f u.row;
    only = rw (keep-map (has_nonce env nonce) f bs k, u.only) refl;
    bound = h u.row u.bound;
  }

  pub Used-snoc :
      (nonce : Text) (bs : List Binding) (b : Binding)
      → has_nonce env nonce b ≡ false
      → Used nonce bs
      → Used nonce (bs ++ b ∷ [])
  Used-snoc nonce bs b h u = record {
    row = u.row;
    only = rw (keep-append, u.only, h) refl;
    bound = u.bound;
  }

  pub retired_Used :
      (nonce : Text) (original : Route) (bs : List Binding)
      → Used nonce bs
      → Used nonce (map (retired_of original) bs)
  unfolding has_nonce retired_of is_unknown is_registered
  retired_Used nonce original bs u =
      Used-map nonce (retired_of original) bs (λ b. ground arith) (λ b e. ground arith) u

  rebound_nonce_kept :
      (nonce : Text) (awaiting : Binding) (s g : Text) (b : Binding)
      → has_nonce env nonce (rebound awaiting s g b) ≡ has_nonce env nonce b
  unfolding has_nonce
  rebound_nonce_kept nonce awaiting s g b = rw ((rebound_keys awaiting s g b).3) refl

  pub rebound-Used :
      (nonce : Text) (awaiting : Binding) (s g : Text) (bs : List Binding)
      → Used nonce bs
      → Used nonce (map (rebound awaiting s g) bs)
  unfolding rebound bound_to is_unknown
  rebound-Used nonce awaiting s g bs u =
      Used-map nonce (rebound awaiting s g) bs (rebound_nonce_kept nonce awaiting s g)
        (λ b e. ground arith) u

  -- A binding whose nonce no other of a list has, where the list has one of a used nonce.
  pub last_nonce :
      (used : Text) (bs : List Binding) (b : Binding)
      → distinct_by same_nonce (bs ++ b ∷ []) ≡ true
      → Used used bs
      → has_nonce env used b ≡ false
  unfolding has_nonce same_nonce
  last_nonce used bs b d u = elim (Bool-cases (b.nonce_sha256 == env.sha256 used)) [
    | inr e ↦ e
    | inl e ↦
        let same = (==_iff b.nonce_sha256 (env.sha256 used)).0 e in
        let empty =
          keep_none (λ (c : Binding). c.nonce_sha256 == env.sha256 used) bs
            (subst (λ (t : Text). any (λ c. c.nonce_sha256 == t) bs ≡ false) same
              (distinct_by_last same_nonce bs b d)) in
        absurd (cc (empty, u.only))
  ]

  -- A registration leaves its nonce used.
  pub Registered-Used :
      (helper : Route) (nonce : Text) (bs : List Binding) (b : Binding) (root root' : HelperRoot)
      → (r : Registered env helper nonce bs root b root')
      → Used nonce (map (rebound r.awaiting helper.session_id helper.generation) bs)
  unfolding rebound bound_to is_unknown
  Registered-Used helper nonce bs b root root' r = record {
    row = bound_to helper.session_id helper.generation r.awaiting;
    only =
        rw
          (
            keep-map (has_nonce env nonce) (rebound r.awaiting helper.session_id helper.generation)
                bs (rebound_nonce_kept nonce r.awaiting helper.session_id helper.generation),
            r.found,
            binding_eq_refl r.awaiting,
          )
          refl;
    bound = refl;
  }
