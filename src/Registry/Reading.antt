-- ===== src/Registry/Reading.antt =====
-- The two registry files against the list of routes: what is written is read back, arranged.
use cross_agent_chat.Prelude.{
  Bool-cases, keep, any, all, All, any-append, All-append, All-keep, ◌≡◌, refl, subst, inl, inr,
  Bool, true, false, not, List, [], ◌∷◌, ◌++◌, map, arith,
}
use cross_agent_chat.Core.{
  Error, message, ok, ◌>>=◌, ◌>>◌, require, Env, >>=-ok, require-ok, ok-injective,
}
use cross_agent_chat.Core.StateFile.{
  StateFile, read_rows, atomic_json, read_rows-atomic_json, map_ok, map_ok-map, map_ok-All,
}
use cross_agent_chat.Route.{provider_eq, is_devin, Route, check_route}
use cross_agent_chat.Registry.{
  Files, has_identity, same_identity, distinct_identities, in_devin, in_legacy, read_routes, routes,
  devin_rows, write, bad_text, bad_shape,
}
use cross_agent_chat.Route.Codec.{
  route_from_object, route_to_dict, route_from_object-to_dict, route_from_object-check_route,
}
use cross_agent_chat.Json.{Json}

-- The order in which the two files are read.
abbrev pub arranged : List Route → List Route
arranged rs = keep in_legacy rs ++ keep in_devin rs

pub legacy_or_devin : (r : Route) → in_legacy r ≡ not (in_devin r)
unfolding in_legacy in_devin
legacy_or_devin r = refl

-- Routes with one identity stand in one file.
same_file : (r s : Route) → same_identity r s ≡ true → in_devin s ≡ in_devin r
unfolding has_identity in_devin provider_eq is_devin
same_file r s h = ground arith

any-same-keep :
    (r : Route) (test : Route → Bool) (rs : List Route)
    → any (same_identity r) rs ≡ false
    → any (same_identity r) (keep test rs) ≡ false
any-same-keep r test [] h = refl
any-same-keep r test (s ∷ rs) h = ground (arith, any-same-keep r test rs)

pub distinct-keep :
    (test : Route → Bool) (rs : List Route)
    → distinct_identities rs ≡ true
    → distinct_identities (keep test rs) ≡ true
unfolding distinct_identities
distinct-keep test [] h = refl
distinct-keep test (r ∷ rs) h = ground (arith, distinct-keep test rs, any-same-keep r test rs)

-- A legacy route has its identity in no Devin route.
any-same-devin :
    (r : Route) (rs : List Route)
    → in_legacy r ≡ true
    → any (same_identity r) (keep in_devin rs) ≡ false
any-same-devin r [] h = refl
any-same-devin r (s ∷ rs) h =
    ground (arith, any-same-devin r rs h, same_file r s, legacy_or_devin r)

pub distinct-append :
    (rs ss : List Route)
    → distinct_identities rs ≡ true
    → distinct_identities ss ≡ true
    → All (λ r. any (same_identity r) ss ≡ false) rs
    → distinct_identities (rs ++ ss) ≡ true
unfolding distinct_identities
distinct-append [] ss h k a = k
distinct-append (r ∷ rs) ss h k a =
    ground (arith, distinct-append rs ss, any-append (same_identity r) rs ss, a.0)

legacy-apart :
    (rs ss : List Route)
    → All (λ r. any (same_identity r) (keep in_devin ss) ≡ false) (keep in_legacy rs)
legacy-apart [] ss = tt
legacy-apart (r ∷ rs) ss = elim (Bool-cases (in_legacy r)) [
  | inl e ↦ rw e (any-same-devin r ss e, legacy-apart rs ss)
  | inr e ↦ rw e (legacy-apart rs ss)
]

pub distinct-arranged :
    (rs : List Route) → distinct_identities rs ≡ true → distinct_identities (arranged rs) ≡ true
distinct-arranged rs h =
    distinct-append (keep in_legacy rs) (keep in_devin rs) (distinct-keep in_legacy rs h)
      (distinct-keep in_devin rs h) (legacy-apart rs rs)

module _ (env : Env) where
  -- A route that its class accepts.
  abbrev pub IsRoute : Route → Type 0
  IsRoute r = check_route env r ≡ ok r

  -- The routes that a registry keeps: each accepted, no two with one identity.
  pub record IsRegistry (rs : List Route) : Type 0 where
    pub valid : All IsRoute rs
    pub unique : distinct_identities rs ≡ true

  read_routes-atomic_json :
      (rs : List Route) (allowed : Route → Bool) (wrong : Error)
      → All IsRoute rs
      → all allowed rs ≡ true
      → read_routes env (atomic_json (map route_to_dict rs)) allowed wrong ≡ ok rs
  unfolding read_routes
  read_routes-atomic_json rs allowed wrong v a = rw (
    read_rows-atomic_json,
    map_ok-map IsRoute (route_from_object env) route_to_dict (route_from_object-to_dict env) rs v,
    a,
  )

  read_routes-devin_rows :
      (rs : List Route) (wrong : Error)
      → All IsRoute rs
      → all in_devin rs ≡ true
      → read_routes env (devin_rows env rs) in_devin wrong ≡ ok rs
  unfolding devin_rows
  read_routes-devin_rows [] wrong v a = unfold read_routes read_rows map_ok in refl
  read_routes-devin_rows (r ∷ rs) wrong v a = read_routes-atomic_json (r ∷ rs) in_devin wrong v a

  all-kept : (test : Route → Bool) (rs : List Route) → all test (keep test rs) ≡ true
  all-kept test [] = refl
  all-kept test (r ∷ rs) = ground (arith, all-kept test rs)

  -- What `_write` leaves is read back, the Devin routes behind the others.
  pub routes-write :
      (rs : List Route) (files : Files)
      → IsRegistry rs
      → routes env (write env rs files) ≡ ok (arranged rs)
  unfolding routes write
  routes-write rs files g = rw (
    read_routes-atomic_json (keep in_legacy rs) in_legacy _ (All-keep IsRoute in_legacy rs g.valid)
        (all-kept in_legacy rs),
    read_routes-devin_rows (keep in_devin rs) _ (All-keep IsRoute in_devin rs g.valid)
        (all-kept in_devin rs),
    distinct-arranged rs g.unique,
  )

  read_routes-IsRoute :
      (file : StateFile) (allowed : Route → Bool) (wrong : Error) (rs : List Route)
      → read_routes env file allowed wrong ≡ ok rs
      → All IsRoute rs
  unfolding read_routes
  read_routes-IsRoute file allowed wrong rs h =
      let (raw, _, h₁) =
        >>=-ok (read_rows file bad_text bad_shape)
          (λ (raw : List Json). map_ok (route_from_object env) raw >>= λ (ss : List Route).
            require (all allowed ss) wrong >> ok ss)
          h in
      let (ss, decoded, h₂) =
        >>=-ok (map_ok (route_from_object env) raw)
          (λ (ss : List Route). require (all allowed ss) wrong >> ok ss) h₁ in
      let (_, h₃) = require-ok (all allowed ss) wrong (ok ss) h₂ in
      subst (All IsRoute) (ok-injective h₃) (
        map_ok-All IsRoute (route_from_object env) (route_from_object-check_route env) raw ss
          decoded)

  -- Whatever the two files hold, the routes that are read are valid and their identities distinct.
  pub routes-IsRegistry :
      (files : Files) (rs : List Route) → routes env files ≡ ok rs → IsRegistry rs
  unfolding routes
  routes-IsRegistry files rs h =
      let wrong_legacy = message "legacy route registry contains unsupported provider" in
      let wrong_devin = message "Devin route registry contains unsupported provider" in
      let duplicates = message "route registry contains duplicate identities" in
      let (legacy, h₁, k₁) =
        >>=-ok (read_routes env files.routes_file in_legacy wrong_legacy)
          (λ (legacy : List Route).
            read_routes env files.devin_file in_devin wrong_devin >>= λ (others : List Route).
            require (distinct_identities (legacy ++ others)) duplicates >> ok (legacy ++ others))
          h in
      let (others, h₂, k₂) =
        >>=-ok (read_routes env files.devin_file in_devin wrong_devin)
          (λ (others : List Route).
            require (distinct_identities (legacy ++ others)) duplicates >> ok (legacy ++ others))
          k₁ in
      let (unique, k₃) =
        require-ok (distinct_identities (legacy ++ others)) duplicates (ok (legacy ++ others)) k₂ in
      subst IsRegistry (ok-injective k₃) (record {
        valid =
            All-append IsRoute legacy others
              (read_routes-IsRoute files.routes_file in_legacy wrong_legacy legacy h₁)
              (read_routes-IsRoute files.devin_file in_devin wrong_devin others h₂);
        unique = unique;
      })
