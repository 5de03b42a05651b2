-- ===== src/HelperStore/Reserving.antt =====
-- What a successful `reserve` checked and wrote.
use cross_agent_chat.Prelude.{
  Bool-cases, keep, any, All, ◌≡◌, refl, sym, ap, ◌∙◌, subst, inl, inr, Bool, false, not, ◌||◌,
  Option, none, some, List, [], ◌∷◌, ◌++◌, map, arith,
}
use cross_agent_chat.Core.{
  message, Result, err, ok, ◌>>=◌, ◌>>◌, require, Env, >>=-ok, then_ok, require-ok, ok-injective,
  some-injective,
}
use cross_agent_chat.Core.StateFile.{map_ok}
use cross_agent_chat.Text.{Text, ◌==◌}
use cross_agent_chat.Route.{is_codex, Route}
use cross_agent_chat.Helper.{
  unknown, Binding, directory_prefix, check_binding, is_unknown, reserve_binding,
}
use cross_agent_chat.Helper.Codec.{IsBinding, check_binding-ok}
use cross_agent_chat.HelperStore.{
  HelperRoot, bindings, store_bindings, helpers_lock, is_of, has_live_helper, reservable,
  pick_directory, retire_match, reserve_at, reserve,
}
use cross_agent_chat.HelperStore.Reading.{bindings-AreBindings}
use cross_agent_chat.HelperStore.Writing.{retired_of, reserve_kept}

pick_directory_fresh :
    (bs : List Binding) (draws : List Text) (directory : Text)
    → pick_directory bs draws ≡ some directory
    → any (λ b. b.helper_directory == directory) bs ≡ false
unfolding pick_directory
pick_directory_fresh bs [] directory h = absurd (cc)
pick_directory_fresh bs (draw ∷ draws) directory h =
    elim (Bool-cases (any (λ b. b.helper_directory == directory_prefix ++ draw) bs)) [
      | inl e ↦ pick_directory_fresh bs draws directory (ground arith)
      | inr e ↦
          let same : directory_prefix ++ draw ≡ directory = ground arith in
          subst (λ (d : Text). any (λ b. b.helper_directory == d) bs ≡ false) same e
    ]

-- The last step of `reservable`.
abbrev reserve_guard : (Route → Bool) → List Route → Route → List Binding → Result (List Binding)
reserve_guard live routes original existing =
    let matches = keep (is_of original) existing in
    require
      (not (any (λ b. is_unknown b.state) matches || any (has_live_helper live routes) matches))
      (message "native helper bootstrap is unavailable")
    >> ok existing

module _ (env : Env) where
  -- The binding that `NativeHelperBinding.reserve` makes.
  pub record IsNew (original : Route) (nonce directory : Text) (b : Binding) : Type 0 where
    pub valid : IsBinding b
    pub session : b.original_session_id ≡ original.session_id
    pub generation : b.original_generation ≡ original.generation
    pub placed : b.helper_directory ≡ directory
    pub digest : b.nonce_sha256 ≡ env.sha256 nonce
    pub fresh : b.state ≡ unknown
    pub no_session : b.helper_session_id ≡ none
    pub no_generation : b.helper_generation ≡ none

  abbrev new_binding : Route → Text → Text → Text → Text → Binding
  new_binding original nonce directory account profile = record {
    original_session_id = original.session_id;
    original_generation = original.generation;
    original_device = original.device;
    original_cwd = original.cwd;
    original_profile_root = profile;
    account_sha256 = account;
    helper_directory = directory;
    nonce_sha256 = env.sha256 nonce;
    state = unknown;
    helper_session_id = none;
    helper_generation = none;
  }

  new_binding-IsNew :
      (original : Route) (nonce directory account profile : Text) (b : Binding)
      → check_binding (new_binding original nonce directory account profile) ≡ ok b
      → IsNew original nonce directory b
  new_binding-IsNew original nonce directory account profile b h =
      let same = (check_binding-ok (new_binding original nonce directory account profile) b h).0 in
      record {
        valid = rw (← same) at h;
        session = rw same refl;
        generation = rw same refl;
        placed = rw same refl;
        digest = rw same refl;
        fresh = rw same refl;
        no_session = rw same refl;
        no_generation = rw same refl;
      }

  reserve_binding-IsNew :
      (original : Route) (nonce directory account : Text) (b : Binding)
      → reserve_binding env original nonce directory account ≡ ok b
      → IsNew original nonce directory b
  unfolding reserve_binding
  reserve_binding-IsNew original nonce directory account b h = by_root original.profile_root refl
    where
      by_root : (o : Option Text) → original.profile_root ≡ o → IsNew original nonce directory b
      by_root none e = absurd (ground (arith, rw e at h))
      by_root (some profile) e =
          let (_, made) =
            require-ok (is_codex original.provider) (message "native helper source is unavailable")
              (check_binding (new_binding original nonce directory account profile)) (rw e at h) in
          new_binding-IsNew original nonce directory account profile b made

  -- What `reserve` did, on a store that reads.
  pub record Reserved (original : Route) (nonce : Text) (bs : List Binding) (root : HelperRoot)
      (b : Binding) (root' : HelperRoot) : Type 0 where
    pub directory : Text
    pub none_unknown : any (λ c. is_unknown c.state) (keep (is_of original) bs) ≡ false
    pub untaken : any (λ c. c.helper_directory == directory) bs ≡ false
    pub new : IsNew original nonce directory b
    pub written : root' ≡ store_bindings (map (retired_of original) bs ++ b ∷ []) root

  pub reservable-ok :
      (live : Route → Bool) (routes : List Route) (original : Route) (root : HelperRoot)
      (bs cs : List Binding)
      → bindings root ≡ ok bs
      → reservable live routes original root ≡ ok cs
      → (cs ≡ bs) × (any (λ c. is_unknown c.state) (keep (is_of original) bs) ≡ false)
  unfolding reservable
  reservable-ok live routes original root bs cs reads h =
      let (_, _, h₁) =
        >>=-ok (helpers_lock root)
          (λ (u : Unit {0}).
            bindings root >>= λ (es : List Binding). reserve_guard live routes original es)
          h in
      let h₂ : reserve_guard live routes original bs ≡ ok cs = rw reads at h₁ in
      let (open_test, h₃) =
        require-ok
          (not (
            any (λ (c : Binding). is_unknown c.state) (keep (is_of original) bs)
            || any (has_live_helper live routes) (keep (is_of original) bs)))
          (message "native helper bootstrap is unavailable") (ok bs) h₂ in
      (sym (ok-injective h₃), ground arith)

  reserve_at-ok :
      (original : Route) (nonce directory account : Text) (bs : List Binding)
      (root root' : HelperRoot) (b : Binding)
      → All IsBinding bs
      → reserve_at env original nonce account directory bs root ≡ ok (b, root')
      → IsNew original nonce directory b
        × (root' ≡ store_bindings (map (retired_of original) bs ++ b ∷ []) root)
  unfolding reserve_at
  reserve_at-ok original nonce directory account bs root root' b valid h =
      let (new, made, h₁) =
        >>=-ok (reserve_binding env original nonce directory account)
          (λ (new : Binding).
            map_ok (retire_match (keep (is_of original) bs)) bs >>= λ (kept : List Binding).
            ok (new, store_bindings (kept ++ new ∷ []) root))
          h in
      let h₂ : ok (new, store_bindings (map (retired_of original) bs ++ new ∷ []) root)
          ≡ ok (b, root') =
        rw (reserve_kept original bs valid) at h₁ in
      let h₃ : (new, store_bindings (map (retired_of original) bs ++ new ∷ []) root) ≡ (b, root') =
        ok-injective h₂ in
      let same : new ≡ b = ap (λ (p : Binding × HelperRoot). p.0) h₃ in
      (
        reserve_binding-IsNew original nonce directory account b (rw same at made),
        sym (ap (λ (p : Binding × HelperRoot). p.1) h₃)
            ∙ ap (λ (c : Binding). store_bindings (map (retired_of original) bs ++ c ∷ []) root)
                same,
      )

  pub reserve-Reserved :
      (live : Route → Bool) (routes : List Route) (original : Route) (nonce account : Text)
      (draws : List Text) (root root' : HelperRoot) (bs : List Binding) (b : Binding)
      → bindings root ≡ ok bs
      → reserve env live routes original nonce account draws root ≡ some (ok (b, root'))
      → Reserved original nonce bs root b root'
  unfolding reserve
  reserve-Reserved live routes original nonce account draws root root' bs b reads h =
      by_list (reservable live routes original root) refl h
    where
      by_draw :
          (cs : List Binding)
          → cs ≡ bs
          → any (λ c. is_unknown c.state) (keep (is_of original) bs) ≡ false
          → (o : Option Text) → pick_directory cs draws ≡ o
          → elim o [
            | none ↦ none
            | some directory ↦ some (reserve_at env original nonce account directory cs root)
          ]
            ≡ some (ok (b, root'))
          → Reserved original nonce bs root b root'
      by_draw cs same u none e g = absurd (cc)
      by_draw cs same u (some directory) e g =
          let (new, written) =
            reserve_at-ok original nonce directory account bs root root' b
              (bindings-AreBindings root bs reads).valid (some-injective (rw same at g)) in
          record {
            directory = directory;
            none_unknown = u;
            untaken = pick_directory_fresh bs draws directory (rw same at e);
            new = new;
            written = written;
          }

      by_list :
          (r : Result (List Binding))
          → reservable live routes original root ≡ r
          → elim r [
            | err e ↦ some (err e)
            | ok existing ↦ elim (pick_directory existing draws) [
              | none ↦ none
              | some directory ↦
                  some (reserve_at env original nonce account directory existing root)
            ]
          ]
            ≡ some (ok (b, root'))
          → Reserved original nonce bs root b root'
      by_list (err x) e g = absurd (cc)
      by_list (ok cs) e g =
          let (same, u) = reservable-ok live routes original root bs cs reads e in
          by_draw cs same u (pick_directory cs draws) refl g

  -- `reserve` succeeds on a store that reads.
  pub reserve-reads :
      (live : Route → Bool) (routes : List Route) (original : Route) (nonce account : Text)
      (draws : List Text) (root root' : HelperRoot) (b : Binding)
      → reserve env live routes original nonce account draws root ≡ some (ok (b, root'))
      → (bs : List Binding) × (bindings root ≡ ok bs)
  unfolding reserve reservable
  reserve-reads live routes original nonce account draws root root' b h =
      by_list (reservable live routes original root) refl h
    where
      by_list :
          (r : Result (List Binding))
          → reservable live routes original root ≡ r
          → elim r [
            | err e ↦ some (err e)
            | ok existing ↦ elim (pick_directory existing draws) [
              | none ↦ none
              | some directory ↦
                  some (reserve_at env original nonce account directory existing root)
            ]
          ]
            ≡ some (ok (b, root'))
          → (bs : List Binding) × (bindings root ≡ ok bs)
      by_list (err x) e g = absurd (cc)
      by_list (ok cs) e g =
          let h₁ =
            then_ok (helpers_lock root)
              (bindings root >>= λ (es : List Binding). reserve_guard live routes original es) e in
          let (bs, reads, _) =
            >>=-ok (bindings root) (λ (es : List Binding). reserve_guard live routes original es)
              h₁ in
          (bs, reads)
