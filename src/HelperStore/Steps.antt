-- ===== src/HelperStore/Steps.antt =====
-- `reserve` and `register` on the list of bindings, and the tests for duplicates.
use cross_agent_chat.Prelude.{
  if◌then◌else◌, Bool-cases, keep, any, All, keep-append, All-append, distinct_by, any-map,
  distinct_by-map, distinct_by-snoc, distinct_by-keep, keep-map, keep-map_fewer, ◌≡◌, refl, ap, ◌∙◌,
  inl, inr, Bool, true, false, not, ◌&&◌, some, List, [], ◌∷◌, ◌++◌, map, arith,
}
use cross_agent_chat.Text.{Text, ◌==◌}
use cross_agent_chat.Route.{Route}
use cross_agent_chat.Helper.{unknown, registered, Binding, is_unknown, is_registered}
use cross_agent_chat.Helper.Codec.{IsBinding}
use cross_agent_chat.HelperStore.{
  is_active, same_original, same_directory, same_nonce, consistent, binding_eq, is_of,
}
use cross_agent_chat.HelperStore.Reading.{AreBindings, binding_eq_sound}
use cross_agent_chat.HelperStore.Writing.{retired_of, retired_of-IsBinding, retired_of_keys}
use cross_agent_chat.HelperStore.Agreement.{Placed, distinct-same_helper}

-- What is left active by the retirement.
unfoldable untouched : Route → Binding → Bool
untouched original b = not (is_of original b && is_registered b.state)

active_retired :
    (original : Route) (b : Binding)
    → is_active (retired_of original b) ≡ (is_active b && untouched original b)
unfolding is_active retired_of untouched is_registered
active_retired original b = ground arith

untouched_same :
    (original : Route) (b : Binding) → untouched original b ≡ true → retired_of original b ≡ b
unfolding untouched retired_of
untouched_same original b h = ground arith

-- Nothing untouched and active is of the original, where none of its bindings is unknown.
no_rival :
    (original : Route) (new : Binding) (bs : List Binding)
    → new.original_session_id ≡ original.session_id
    → new.original_generation ≡ original.generation
    → any (λ b. is_unknown b.state) (keep (is_of original) bs) ≡ false
    → any (λ b. same_original b new) (keep (untouched original) (keep is_active bs)) ≡ false
unfolding untouched is_active same_original is_of is_unknown is_registered
no_rival original new [] p q h = refl
no_rival original new (b ∷ bs) p q h = rw (p, q) (ground (arith, no_rival original new bs p q))

retired_session :
    (original : Route) (b c : Binding)
    → same_directory (retired_of original b) (retired_of original c) ≡ same_directory b c
unfolding same_directory
retired_session original b c =
    rw ((retired_of_keys original b).2, (retired_of_keys original c).2) refl

retired_nonce :
    (original : Route) (b c : Binding)
    → same_nonce (retired_of original b) (retired_of original c) ≡ same_nonce b c
unfolding same_nonce
retired_nonce original b c =
    rw ((retired_of_keys original b).3, (retired_of_keys original c).3) refl

-- A binding with its helper.
unfoldable pub bound_to : Text → Text → Binding → Binding
bound_to s g b = record b {
  state = registered;
  helper_session_id = some s;
  helper_generation = some g;
}

unfoldable pub rebound : Binding → Text → Text → Binding → Binding
rebound awaiting s g b = if binding_eq b awaiting then bound_to s g awaiting else b

pub rebound_keys :
    (awaiting : Binding) (s g : Text) (b : Binding)
    → ((rebound awaiting s g b).original_session_id ≡ b.original_session_id)
      × ((rebound awaiting s g b).original_generation ≡ b.original_generation)
      × ((rebound awaiting s g b).helper_directory ≡ b.helper_directory)
      × ((rebound awaiting s g b).nonce_sha256 ≡ b.nonce_sha256)
unfolding rebound bound_to
rebound_keys awaiting s g b = elim (Bool-cases (binding_eq b awaiting)) [
  | inl e ↦
      let same = binding_eq_sound b awaiting e in rw e (cc (same), cc (same), cc (same), cc (same))
  | inr e ↦ rw e (refl, refl, refl, refl)
]

rebound_active :
    (awaiting : Binding) (s g : Text)
    → awaiting.state ≡ unknown
    → (b : Binding) → is_active (rebound awaiting s g b) ≡ is_active b
unfolding rebound bound_to is_active
rebound_active awaiting s g u b = elim (Bool-cases (binding_eq b awaiting)) [
  | inl e ↦
      let same : b.state ≡ unknown =
        ap (λ (x : Binding). x.state) (binding_eq_sound b awaiting e) ∙ u in
      rw (e, same) refl
  | inr e ↦ rw e refl
]

rebound_original :
    (awaiting : Binding) (s g : Text) (b c : Binding)
    → same_original (rebound awaiting s g b) (rebound awaiting s g c) ≡ same_original b c
unfolding same_original
rebound_original awaiting s g b c =
    let (p, q, _, _) = rebound_keys awaiting s g b in
    let (p', q', _, _) = rebound_keys awaiting s g c in rw (p, q, p', q') refl

rebound_directory :
    (awaiting : Binding) (s g : Text) (b c : Binding)
    → same_directory (rebound awaiting s g b) (rebound awaiting s g c) ≡ same_directory b c
unfolding same_directory
rebound_directory awaiting s g b c =
    rw ((rebound_keys awaiting s g b).2, (rebound_keys awaiting s g c).2) refl

rebound_nonce :
    (awaiting : Binding) (s g : Text) (b c : Binding)
    → same_nonce (rebound awaiting s g b) (rebound awaiting s g c) ≡ same_nonce b c
unfolding same_nonce
rebound_nonce awaiting s g b c =
    rw ((rebound_keys awaiting s g b).3, (rebound_keys awaiting s g c).3) refl

pub rebound-All {κ} :
    (P : Binding → Type κ) (awaiting : Binding) (s g : Text) (bs : List Binding)
    → All P bs
    → P (bound_to s g awaiting)
    → All P (map (rebound awaiting s g) bs)
unfolding rebound
rebound-All P awaiting s g [] p w = tt
rebound-All P awaiting s g (b ∷ bs) p w = elim (Bool-cases (binding_eq b awaiting)) [
  | inl e ↦ rw e (w, rebound-All P awaiting s g bs p.1 w)
  | inr e ↦ rw e (p.0, rebound-All P awaiting s g bs p.1 w)
]

pub split_consistent :
    (bs : List Binding)
    → consistent bs ≡ true
    → (distinct_by same_original (keep is_active bs) ≡ true)
      × (distinct_by same_directory bs ≡ true)
      × (distinct_by same_nonce bs ≡ true)
unfolding consistent
split_consistent bs h = ground arith

still_active :
    (original : Route) (new : Binding) (bs : List Binding)
    → new.state ≡ unknown
    → distinct_by same_original (keep is_active bs) ≡ true
    → any (λ b. same_original b new) (keep (untouched original) (keep is_active bs)) ≡ false
    → distinct_by same_original (keep is_active (map (retired_of original) bs ++ new ∷ [])) ≡ true
still_active original new bs u a r =
    let active : is_active new ≡ true = unfold is_active in rw u refl in
    rw
      (
        keep-append,
        keep-map_fewer is_active (untouched original) (retired_of original) bs
            (active_retired original) (untouched_same original),
        active,
      )
      (distinct_by-snoc same_original (keep (untouched original) (keep is_active bs)) new
        (distinct_by-keep same_original (untouched original) (keep is_active bs) a) r)

module _ (cwd_of : Text → Text → Text) where
  -- Bindings whose helpers are placed can be kept where the other three tests hold.
  agree :
      (bs : List Binding)
      → All IsBinding bs
      → All (Placed cwd_of) bs
      → distinct_by same_original (keep is_active bs) ≡ true
      → distinct_by same_directory bs ≡ true
      → distinct_by same_nonce bs ≡ true
      → AreBindings bs
  unfolding consistent
  agree bs v p a d n = record {
    valid = v;
    agreeing = rw (a, d, n, distinct-same_helper cwd_of bs v p d) refl;
  }

  retired-Placed :
      (original : Route) (bs : List Binding)
      → All (Placed cwd_of) bs
      → All (Placed cwd_of) (map (retired_of original) bs)
  unfolding Placed
  retired-Placed original [] p = tt
  retired-Placed original (b ∷ bs) p =
      let (_, _, d, _, s, g) = retired_of_keys original b in
      (rw (d, s, g) p.0, retired-Placed original bs p.1)

  -- What `reserve` writes for a new binding of an original.
  pub reserved-AreBindings :
      (original : Route) (new : Binding) (bs : List Binding)
      → AreBindings bs
      → All (Placed cwd_of) bs
      → IsBinding new
      → new.state ≡ unknown
      → Placed cwd_of new
      → new.original_session_id ≡ original.session_id
      → new.original_generation ≡ original.generation
      → any (λ b. is_unknown b.state) (keep (is_of original) bs) ≡ false
      → any (λ b. same_directory b new) bs ≡ false
      → any (λ b. same_nonce b new) bs ≡ false
      → AreBindings (map (retired_of original) bs ++ new ∷ [])
        × All (Placed cwd_of) (map (retired_of original) bs ++ new ∷ [])
  unfolding same_directory same_nonce
  reserved-AreBindings original new bs g p v u w e f h d n =
      let (a₀, d₀, n₀) = split_consistent bs g.agreeing in
      let placed =
        All-append (Placed cwd_of) (map (retired_of original) bs) (new ∷ [])
          (retired-Placed original bs p) (w, tt) in
      (
        agree (map (retired_of original) bs ++ new ∷ [])
            (All-append IsBinding (map (retired_of original) bs) (new ∷ [])
              (retired_of-IsBinding original bs g.valid) (v, tt))
            placed (still_active original new bs u a₀ (no_rival original new bs e f h))
            (distinct_by-snoc same_directory (map (retired_of original) bs) new
              (distinct_by-map same_directory (retired_of original) bs (retired_session original)
                ∙ d₀)
              (any-map (λ b. same_directory b new) (λ b. same_directory b new) (retired_of original)
                  bs
                  (λ b. ap (λ (x : Text). x == new.helper_directory) (retired_of_keys original b).2)
                ∙ d))
            (distinct_by-snoc same_nonce (map (retired_of original) bs) new
              (distinct_by-map same_nonce (retired_of original) bs (retired_nonce original) ∙ n₀)
              (any-map (λ b. same_nonce b new) (λ b. same_nonce b new) (retired_of original) bs
                  (λ b. ap (λ (x : Text). x == new.nonce_sha256) (retired_of_keys original b).3)
                ∙ n)),
        placed,
      )

  -- What `register` writes for the binding that awaits a helper.
  pub registered-AreBindings :
      (awaiting : Binding) (s g : Text) (bs : List Binding)
      → AreBindings bs
      → All (Placed cwd_of) bs
      → awaiting.state ≡ unknown
      → IsBinding (bound_to s g awaiting)
      → Placed cwd_of (bound_to s g awaiting)
      → AreBindings (map (rebound awaiting s g) bs)
        × All (Placed cwd_of) (map (rebound awaiting s g) bs)
  registered-AreBindings awaiting s g bs r p u v w =
      let (a₀, d₀, n₀) = split_consistent bs r.agreeing in
      let placed = rebound-All (Placed cwd_of) awaiting s g bs p w in
      (
        agree (map (rebound awaiting s g) bs) (rebound-All IsBinding awaiting s g bs r.valid v)
            placed
            (rw (keep-map is_active (rebound awaiting s g) bs (rebound_active awaiting s g u)) (
              distinct_by-map same_original (rebound awaiting s g) (keep is_active bs)
                (rebound_original awaiting s g)
              ∙ a₀))
            (distinct_by-map same_directory (rebound awaiting s g) bs
                (rebound_directory awaiting s g)
              ∙ d₀)
            (distinct_by-map same_nonce (rebound awaiting s g) bs (rebound_nonce awaiting s g)
              ∙ n₀),
        placed,
      )
