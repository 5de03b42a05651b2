-- ===== src/HelperStore/Agreement.antt =====
-- The tests for duplicates on what `reserve` and `register` write.
use cross_agent_chat.Prelude.{
  Bool-cases, keep, All, distinct_by, distinct_by-keep, distinct_by-finer, ◌≡◌, refl, sym, ap, ◌∙◌,
  inl, inr, Bool, true, false, not, Option, none, some, List, [], ◌∷◌, arith,
}
use cross_agent_chat.Core.{ok}
use cross_agent_chat.Core.Paths.{path_name}
use cross_agent_chat.Text.{Text, ==_iff}
use cross_agent_chat.Helper.{
  HelperState, unknown, registered, retired, Binding, check_helper, is_unknown,
}
use cross_agent_chat.Helper.Codec.{IsBinding, check_binding-ok}
use cross_agent_chat.HelperStore.{has_helper, same_directory, same_helper}
use cross_agent_chat.HelperStore.Reading.{option_eq_sound}

-- The directory of a helper by its identity; a generation of a session has one directory.
abbrev pub Sits : (Text → Text → Text) → Option Text → Option Text → Text → Type 0
Sits cwd_of (some s) (some g) directory = path_name (cwd_of s g) ≡ directory
Sits cwd_of session generation directory = Unit

-- A binding whose helper, if it has one, sits in the directory that was reserved for it.
unfoldable pub Placed : (Text → Text → Text) → Binding → Type 0
Placed cwd_of b = Sits cwd_of b.helper_session_id b.helper_generation b.helper_directory

is_some_text : Option Text → Bool
is_some_text none = false
is_some_text (some s) = true

-- A binding that has a helper has its two ids.
helper_ids :
    (b : Binding)
    → IsBinding b
    → has_helper b ≡ true
    → (s : Text) × (g : Text) × (b.helper_session_id ≡ some s) × (b.helper_generation ≡ some g)
unfolding has_helper is_unknown check_helper
helper_ids b v h =
    ids b.state b.helper_session_id b.helper_generation refl refl (check_binding-ok b b v).2 h
  where
    ids :
        (state : HelperState) (session generation : Option Text)
        → b.helper_session_id ≡ session
        → b.helper_generation ≡ generation
        → check_helper state session generation ≡ ok tt
        → not (is_unknown state) ≡ true
        → (s : Text) × (g : Text) × (b.helper_session_id ≡ some s) × (b.helper_generation ≡ some g)
    ids unknown s g p q c n = absurd (cc)
    ids registered none g p q c n = absurd (cc)
    ids registered (some s) none p q c n = absurd (cc)
    ids registered (some s) (some g) p q c n = (s, g, p, q)
    ids retired none g p q c n = absurd (cc)
    ids retired (some s) none p q c n = absurd (cc)
    ids retired (some s) (some g) p q c n = (s, g, p, q)

module _ (cwd_of : Text → Text → Text) where
  -- What makes two helpers differ: each is placed, and has its ids.
  abbrev Seated : Binding → Type 0
  Seated b =
      (s : Text) × (g : Text) × (b.helper_session_id ≡ some s)
      × (b.helper_generation ≡ some g)
      × (path_name (cwd_of s g) ≡ b.helper_directory)

  seated : (b : Binding) → IsBinding b → Placed cwd_of b → has_helper b ≡ true → Seated b
  unfolding Placed
  seated b v p h = let (s, g, e, f) = helper_ids b v h in (s, g, e, f, rw (e, f) at p)

  All-Seated :
      (bs : List Binding)
      → All IsBinding bs
      → All (Placed cwd_of) bs
      → All Seated (keep has_helper bs)
  All-Seated [] v p = tt
  All-Seated (b ∷ bs) v p = elim (Bool-cases (has_helper b)) [
    | inl e ↦ rw e (seated b v.0 p.0 e, All-Seated bs v.1 p.1)
    | inr e ↦ rw e (All-Seated bs v.1 p.1)
  ]

  same_helper-same_directory :
      (a b : Binding) → Seated a → Seated b → same_helper a b ≡ true → same_directory a b ≡ true
  unfolding same_helper same_directory
  same_helper-same_directory a b (s, g, e, f, p) (s', g', e', f', p') h =
      let x : a.helper_session_id ≡ b.helper_session_id =
        option_eq_sound a.helper_session_id b.helper_session_id (ground arith) in
      let y : a.helper_generation ≡ b.helper_generation =
        option_eq_sound a.helper_generation b.helper_generation (ground arith) in
      let i : s ≡ s' = ground (arith, x, e, e') in
      let j : g ≡ g' = ground (arith, y, f, f') in
      let same : a.helper_directory ≡ b.helper_directory =
        sym p
        ∙ ap (λ (u : Text). path_name (cwd_of u g)) i
        ∙ ap (λ (u : Text). path_name (cwd_of s' u)) j
        ∙ p' in
      (==_iff a.helper_directory b.helper_directory).1 same

  -- Where directories differ and helpers are placed, helpers differ.
  pub distinct-same_helper :
      (bs : List Binding)
      → All IsBinding bs
      → All (Placed cwd_of) bs
      → distinct_by same_directory bs ≡ true
      → distinct_by same_helper (keep has_helper bs) ≡ true
  distinct-same_helper bs v p d =
      distinct_by-finer Seated same_directory same_helper (keep has_helper bs)
        same_helper-same_directory (All-Seated bs v p)
        (distinct_by-keep same_directory has_helper bs d)
