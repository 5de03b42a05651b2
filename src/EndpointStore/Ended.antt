-- ===== src/EndpointStore/Ended.antt =====
-- An id with no endpoint that is not revoked, and the calls that keep it so.
use cross_agent_chat.Prelude.{
  if◌then◌else◌, Bool-cases, keep, any, any-append, any-keep, ℕ, String, ◌≡◌, refl, sym, ap, ◌∙◌,
  subst, ◌⊎◌, inl, inr, Bool, true, false, not, ◌&&◌, Option, none, some, List, [], ◌∷◌, ◌++◌,
  arith,
}
use cross_agent_chat.Core.{
  Error, invalid, Result, err, ok, ◌>>=◌, ◌>>◌, require, Env, >>=-ok, then_ok, require-ok,
  ok-injective,
}
use cross_agent_chat.Core.StateFile.{map_ok}
use cross_agent_chat.Json.Int.{ℤ, pos}
use cross_agent_chat.Text.{Text, ◌==◌, uuid_re}
use cross_agent_chat.Recipient.{BodyCodec}
use cross_agent_chat.Endpoint.{Endpoint, check_endpoint, available}
use cross_agent_chat.EndpointStore.{
  EndpointRoot, is_endpoint, store_endpoints, endpoints_lock, put_endpoint, unavailable, endpoints,
  enroll, rotate, revoke,
}
use cross_agent_chat.EndpointStore.Reading.{check_endpoint-ok, stored_endpoints}
use cross_agent_chat.Core.Ids.{valid_uuid, valid_uuid_lem}
use cross_agent_chat.HelperStore.Registering.{the_only-ok}
use cross_agent_chat.HelperStore.{the_only}

-- An endpoint of the id that is not revoked.
unfoldable pub is_standing : Text → Endpoint → Bool
is_standing identifier e = is_endpoint identifier e && not e.revoked

module _ {A : Type 0} where
  pub only_fails :
      (p q : A → Bool) (xs : List A) (x : A) → keep q xs ≡ x ∷ [] → any p xs ≡ false → p x ≡ false
  only_fails p q xs x h n =
      let none_kept : any p (x ∷ []) ≡ false =
        subst (λ (ys : List A). any p ys ≡ false) h (any-keep p q xs n) in
      ground arith

  pub only_passes : (q : A → Bool) (xs : List A) (x : A) → keep q xs ≡ x ∷ [] → q x ≡ true
  only_passes q [] x h = absurd (cc)
  only_passes q (y ∷ xs) x h = elim (Bool-cases (q y)) [
    | inl e ↦
        let kept : y ∷ keep q xs ≡ x ∷ [] = rw e at h in
        let same : y ≡ x = cc in subst (λ (z : A). q z ≡ true) same e
    | inr e ↦ only_passes q xs x (rw e at h)
  ]

  map_ok-any :
      (p q : A → Bool) (f : A → Result A)
      → ((x y : A) → f x ≡ ok y → q x ≡ false → p y ≡ false)
      → (xs ys : List A) → map_ok f xs ≡ ok ys
      → any q xs ≡ false
      → any p ys ≡ false
  unfolding map_ok
  map_ok-any p q f k [] ys h n = subst (λ (zs : List A). any p zs ≡ false) (ok-injective h) refl
  map_ok-any p q f k (x ∷ xs) ys h n =
      let (y, hy, h₁) = >>=-ok (f x) (λ (y : A). map_ok f xs >>= λ (zs : List A). ok (y ∷ zs)) h in
      let (zs, hzs, h₂) = >>=-ok (map_ok f xs) (λ (zs : List A). ok (y ∷ zs)) h₁ in
      let first = k x y hy (ground arith) in
      let rest = map_ok-any p q f k xs zs hzs (ground arith) in
      subst (λ (ws : List A). any p ws ≡ false) (ok-injective h₂) (rw (first, rest) refl)

  none_fails : (xs : List A) → any (λ x. false) xs ≡ false
  none_fails [] = refl
  none_fails (x ∷ xs) = none_fails xs

put_endpoint_standing :
    (identifier other : Text) (changed : Endpoint) (es : List Endpoint)
    → is_standing identifier changed ≡ false
    → any (is_standing identifier) es ≡ false
    → any (is_standing identifier) (put_endpoint other changed es) ≡ false
unfolding put_endpoint
put_endpoint_standing identifier other changed [] c n = refl
put_endpoint_standing identifier other changed (e ∷ es) c n =
    ground (arith, put_endpoint_standing identifier other changed es c)

refused : {A : Type 0} {e : Error} {a : A} → err e ≡ ok a → ⊥
refused h = absurd (cc)

module _ (env : Env) (codec : BodyCodec) (uid : ℤ) where
  -- No endpoint that the store lists has the id and is not revoked.
  unfoldable pub Ended : Text → EndpointRoot → Type 0
  Ended identifier root =
      (es : List Endpoint)
      → endpoints env codec uid root ≡ ok es
      → any (is_standing identifier) es ≡ false

  stored-Ended :
      (identifier : Text) (es : List Endpoint) (root : EndpointRoot)
      → any (is_standing identifier) es ≡ false
      → Ended identifier (store_endpoints es root)
  unfolding Ended
  stored-Ended identifier es root h ds reads =
      rw (stored_endpoints env codec uid es ds root reads) h

  abbrev enrolled :
      Text → Text → Text → Option Text → Option (List Text) → Text → Text → Text → Endpoint
  enrolled device name context expires_at allowed_recipients endpoint_id generation secret =
      record {
        schema_version = pos 1;
        endpoint_id = endpoint_id;
        generation = generation;
        owner_uid = some uid;
        device = device;
        name = name;
        context = context;
        credential_hash = env.sha256 (endpoint_id ++ (b'.' ∷ secret));
        expires_at = expires_at;
        revoked = false;
        allowed_recipients = allowed_recipients;
        callback_ref = none;
      }

  pub enroll-Ended :
      (identifier device name context : Text) (expires_at : Option Text)
      (allowed_recipients : Option (List Text)) (endpoint_id generation secret : Text)
      (root root' : EndpointRoot) (e : Endpoint) (credential : Text)
      → (endpoint_id == identifier) ≡ false
      → enroll env codec uid device name context expires_at allowed_recipients endpoint_id
          generation secret root
        ≡ ok (e, credential, root')
      → Ended identifier root
      → Ended identifier root'
  unfolding enroll Ended is_standing is_endpoint
  enroll-Ended identifier device name context expires_at allowed_recipients endpoint_id generation
        secret root root' e credential n h ended =
      let (new, made, h₁) =
        >>=-ok
          (check_endpoint env codec uid (
            enrolled device name context expires_at allowed_recipients endpoint_id generation
              secret))
          (λ (new : Endpoint).
            endpoints_lock root
            >> (endpoints env codec uid root >>= λ (es : List Endpoint).
                ok (new, endpoint_id ++ (b'.' ∷ secret), store_endpoints (es ++ new ∷ []) root)))
          h in
      let (es, reads, h₂) =
        >>=-ok (endpoints env codec uid root)
          (λ (es : List Endpoint).
            ok (new, endpoint_id ++ (b'.' ∷ secret), store_endpoints (es ++ new ∷ []) root))
          (then_ok (endpoints_lock root) _ h₁) in
      let shape =
        check_endpoint-ok env codec uid
          (enrolled device name context expires_at allowed_recipients endpoint_id generation secret)
          new made in
      let fails : is_standing identifier new ≡ false = rw (shape, n) refl in
      subst (Ended identifier) (ap (λ (p : Endpoint × Text × EndpointRoot). p.2) (ok-injective h₂))
        (stored-Ended identifier (es ++ new ∷ []) root
          (any-append (is_standing identifier) es (new ∷ []) ∙ rw (ended es reads, fails) refl))

  -- The endpoint that `rotate` makes, and its last steps.
  abbrev renewed : Text → Text → Text → Endpoint → Endpoint
  renewed other generation secret current = record current {
    generation = generation;
    credential_hash = env.sha256 (other ++ (b'.' ∷ secret));
  }

  abbrev rotated :
      Text
      → Text
      → Text
      → EndpointRoot
      → List Endpoint
      → Endpoint
      → Result (Endpoint × Text × EndpointRoot)
  rotated other generation secret root es current =
      check_endpoint env codec uid (renewed other generation secret current) >>= λ (new : Endpoint).
      ok (new, other ++ (b'.' ∷ secret), store_endpoints (put_endpoint other new es) root)

  abbrev rotating :
      Text
      → Text
      → Text
      → ℕ
      → EndpointRoot
      → List Endpoint
      → Result (Endpoint × Text × EndpointRoot)
  rotating other generation secret now root es =
      the_only (keep (λ x. is_endpoint other x && available env codec uid now x) es) unavailable
      >>= λ (current : Endpoint). rotated other generation secret root es current

  pub rotate-Ended :
      (identifier endpoint_id generation secret : Text) (now : ℕ) (root root' : EndpointRoot)
      (e : Endpoint) (credential : Text)
      → rotate env codec uid endpoint_id generation secret now root ≡ ok (e, credential, root')
      → Ended identifier root
      → Ended identifier root'
  unfolding rotate Ended is_standing is_endpoint
  rotate-Ended identifier endpoint_id generation secret now root root' e credential h ended =
      let (other, _, h₁) =
        >>=-ok (valid_uuid endpoint_id "external endpoint id")
          (λ (other : Text).
            endpoints_lock root
            >> (endpoints env codec uid root >>= λ (es : List Endpoint).
                rotating other generation secret now root es))
          h in
      let (es, reads, h₂) =
        >>=-ok (endpoints env codec uid root)
          (λ (es : List Endpoint). rotating other generation secret now root es)
          (then_ok (endpoints_lock root) _ h₁) in
      let (current, one, h₃) =
        >>=-ok
          (the_only (keep (λ x. is_endpoint other x && available env codec uid now x) es)
            unavailable)
          (λ (current : Endpoint). rotated other generation secret root es current) h₂ in
      let (new, made, h₄) =
        >>=-ok (check_endpoint env codec uid (renewed other generation secret current))
          (λ (new : Endpoint).
            ok (new, other ++ (b'.' ∷ secret), store_endpoints (put_endpoint other new es) root))
          h₃ in
      let fails : is_standing identifier current ≡ false =
        only_fails (is_standing identifier)
          (λ x. is_endpoint other x && available env codec uid now x) es current
          (the_only-ok (keep (λ x. is_endpoint other x && available env codec uid now x) es)
            unavailable current one)
          (ended es reads) in
      let shape =
        check_endpoint-ok env codec uid (renewed other generation secret current) new made in
      let kept : is_standing identifier new ≡ false = ap (is_standing identifier) shape ∙ fails in
      subst (Ended identifier) (ap (λ (p : Endpoint × Text × EndpointRoot). p.2) (ok-injective h₄))
        (stored-Ended identifier (put_endpoint other new es) root
          (put_endpoint_standing identifier other new es kept (ended es reads)))

  -- What `revoke` does to one endpoint.
  abbrev ending : Text → Text → Endpoint → Result Endpoint
  ending other generation e =
      if is_endpoint other e
      then check_endpoint env codec uid (record e { revoked = true; generation = generation })
      else ok e

  ending_cases :
      (other generation : Text) (x y : Endpoint)
      → ending other generation x ≡ ok y
      → (y ≡ record x { revoked = true; generation = generation })
        ⊎ ((is_endpoint other x ≡ false) × (y ≡ x))
  ending_cases other generation x y e = elim (Bool-cases (is_endpoint other x)) [
    | inl c ↦ inl (
        check_endpoint-ok env codec uid (record x { revoked = true; generation = generation }) y
          (rw c at e))
    | inr c ↦ inr (c, sym (ok-injective (rw c at e)))
  ]

  ending_kept :
      (identifier other generation : Text) (x y : Endpoint)
      → ending other generation x ≡ ok y
      → is_standing identifier x ≡ false
      → is_standing identifier y ≡ false
  unfolding is_standing
  ending_kept identifier other generation x y e n = elim (ending_cases other generation x y e) [
    | inl same ↦ ap (is_standing identifier) same ∙ ground arith
    | inr (_, same) ↦ ap (is_standing identifier) same ∙ n
  ]

  ending_ended :
      (identifier other generation : Text) (x y : Endpoint)
      → other ≡ identifier
      → ending other generation x ≡ ok y
      → is_standing identifier y ≡ false
  unfolding is_standing
  ending_ended identifier other generation x y named e =
      elim (ending_cases other generation x y e) [
        | inl same ↦ ap (is_standing identifier) same ∙ ground arith
        | inr (c, same) ↦
            let elsewhere : is_endpoint identifier x ≡ false = rw named at c in
            ap (is_standing identifier) same ∙ rw elsewhere refl
      ]

  valid_uuid_same : (value w : Text) (f : String) → valid_uuid value f ≡ ok w → w ≡ value
  valid_uuid_same value w f h = elim (Bool-cases (uuid_re value)) [
    | inl u ↦ sym (ok-injective (sym (valid_uuid_lem value f ∙ rw u refl) ∙ h))
    | inr u ↦
        let bad : valid_uuid value f ≡ err (invalid f) = valid_uuid_lem value f ∙ rw u refl in
        absurd (refused (sym bad ∙ h))
  ]

  abbrev revoking : Text → Text → EndpointRoot → List Endpoint → Result EndpointRoot
  revoking other generation root es =
      require (any (is_endpoint other) es) unavailable
      >> (map_ok (ending other generation) es >>= λ (ds : List Endpoint).
          ok (store_endpoints ds root))

  revoke-ok :
      (endpoint_id generation : Text) (root root' : EndpointRoot)
      → revoke env codec uid endpoint_id generation root ≡ ok root'
      → (other : Text) × (es : List Endpoint) × (ds : List Endpoint) × (other ≡ endpoint_id)
        × (endpoints env codec uid root ≡ ok es)
        × (map_ok (ending other generation) es ≡ ok ds)
        × (store_endpoints ds root ≡ root')
  unfolding revoke
  revoke-ok endpoint_id generation root root' h =
      let (other, v, h₁) =
        >>=-ok (valid_uuid endpoint_id "external endpoint id")
          (λ (other : Text).
            endpoints_lock root
            >> (endpoints env codec uid root >>= λ (es : List Endpoint).
                revoking other generation root es))
          h in
      let (es, reads, h₂) =
        >>=-ok (endpoints env codec uid root)
          (λ (es : List Endpoint). revoking other generation root es)
          (then_ok (endpoints_lock root) _ h₁) in
      let (_, h₃) =
        require-ok (any (is_endpoint other) es) unavailable
          (map_ok (ending other generation) es >>= λ (ds : List Endpoint).
            ok (store_endpoints ds root))
          h₂ in
      let (ds, mapped, h₄) =
        >>=-ok (map_ok (ending other generation) es)
          (λ (ds : List Endpoint). ok (store_endpoints ds root)) h₃ in
      (
        other,
        es,
        ds,
        valid_uuid_same endpoint_id other "external endpoint id" v,
        reads,
        mapped,
        ok-injective h₄,
      )

  pub revoke-any :
      (identifier endpoint_id generation : Text) (root root' : EndpointRoot)
      → revoke env codec uid endpoint_id generation root ≡ ok root'
      → Ended identifier root
      → Ended identifier root'
  unfolding Ended
  revoke-any identifier endpoint_id generation root root' h ended =
      let (other, es, ds, _, reads, mapped, same) = revoke-ok endpoint_id generation root root' h in
      subst (Ended identifier) same (
        stored-Ended identifier ds root (
          map_ok-any (is_standing identifier) (is_standing identifier) (ending other generation)
            (λ x y e n. ending_kept identifier other generation x y e n) es ds mapped
            (ended es reads)))

  pub revoke-Ended :
      (endpoint_id generation : Text) (root root' : EndpointRoot)
      → revoke env codec uid endpoint_id generation root ≡ ok root'
      → Ended endpoint_id root'
  revoke-Ended endpoint_id generation root root' h =
      let (other, es, ds, named, reads, mapped, same) =
        revoke-ok endpoint_id generation root root' h in
      subst (Ended endpoint_id) same (
        stored-Ended endpoint_id ds root (
          map_ok-any (is_standing endpoint_id) (λ x. false) (ending other generation)
            (λ x y e n. ending_ended endpoint_id other generation x y named e) es ds mapped
            (none_fails es)))
