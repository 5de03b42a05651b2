-- ===== src/Registry/Updates.antt =====
-- `upsert`, `upsert_or_reuse_live_owner`, `remove` and `compact_dead` on the table of routes.
use cross_agent_chat.Prelude.{
  eqb, if◌then◌else◌, Bool-cases, length, keep, any, All, All-append, All-keep, ◌≤◌, ◌≡◌, refl, sym,
  ap, ◌∙◌, inl, inr, Bool, true, false, not, Option, none, some, List, [], ◌∷◌, ◌++◌, arith,
}
use cross_agent_chat.Core.{ok, Env}
use cross_agent_chat.Core.Ids.{Provider}
use cross_agent_chat.Route.{provider_eq_iff, Route}
use cross_agent_chat.Json.Int.{ℤ}
use cross_agent_chat.Json.{Json}
use cross_agent_chat.Registry.{
  Files, has_identity, same_identity, distinct_identities, prune_owner_anchors,
  publish_owner_anchor, routes_lock, removes, routes, write, upsert, remove, compact_dead,
}
use cross_agent_chat.Registry.Reading.{
  arranged, distinct-keep, distinct-append, IsRoute, IsRegistry, routes-write, routes-IsRegistry,
}
use cross_agent_chat.Registry.Lookup.{
  route_of, has_identity_lem, route_of-append, route_of-keep-true, route_of-keep-false, one_of,
  route_of-arranged, route_of-keep,
}
use cross_agent_chat.Text.{Text, ==_iff}

-- The table after one identity was given a route: that one there, and all else as before.
abbrev pub Puts : Route → List Route → List Route → Type 0
Puts route rs rs' =
    (p : Provider) (s : Text)
    → route_of p s rs' ≡ (if has_identity p s route then some route else route_of p s rs)

-- The table after the removal of the routes that a test names.
abbrev pub Drops : (Route → Bool) → List Route → List Route → Type 0
Drops test rs rs' =
    (p : Provider) (s : Text)
    → route_of p s rs'
      ≡ (elim (route_of p s rs) [ none ↦ none | some r ↦ if test r then none else some r ])

abbrev pub replaced : Route → List Route → List Route
replaced route rs = keep (λ item. not (same_identity route item)) rs ++ route ∷ []

same_identity_symm : (r s : Route) → same_identity r s ≡ same_identity s r
unfolding has_identity
same_identity_symm r s = ground (
  arith,
  provider_eq_iff r.provider s.provider,
  provider_eq_iff s.provider r.provider,
  ==_iff r.session_id s.session_id,
  ==_iff s.session_id r.session_id,
)

apart :
    (route : Route) (rs : List Route)
    → All
        (λ r. any (same_identity r) (route ∷ []) ≡ false)
        (keep (λ item. not (same_identity route item)) rs)
apart route [] = tt
apart route (r ∷ rs) = elim (Bool-cases (same_identity route r)) [
  | inl e ↦ rw e (apart route rs)
  | inr e ↦ rw e (ground (arith, same_identity_symm r route), apart route rs)
]

-- A route of an identity is one with a given route exactly when that has the identity.
agrees :
    (p : Provider) (s : Text) (route r : Route)
    → has_identity p s r ≡ true
    → same_identity route r ≡ has_identity p s route
agrees p s route r k =
    let (hp, hs) = has_identity_lem p s r k in rw (same_identity_symm route r, hp, hs) refl

pub replaced-Puts : (route : Route) (rs : List Route) → Puts route rs (replaced route rs)
unfolding route_of
replaced-Puts route rs p s =
    route_of-append p s (keep (λ item. not (same_identity route item)) rs) (route ∷ [])
    ∙ elim (Bool-cases (has_identity p s route)) [
      | inl e ↦
          one_of _ _ _ (
            inl (
              route_of-keep-false p s (λ item. not (same_identity route item)) rs
                  (λ r k. ap not (agrees p s route r k ∙ e)),
              refl,
            ))
          ∙ rw e
      | inr e ↦
          one_of _ _ _ (
            inr (
              route_of-keep-true p s (λ item. not (same_identity route item)) rs
                  (λ r k. ap not (agrees p s route r k ∙ e)),
              rw e,
            ))
          ∙ rw e
    ]

pub dropped-Drops :
    (test : Route → Bool) (rs : List Route)
    → distinct_identities rs ≡ true
    → Drops test rs (keep (λ item. not (test item)) rs)
dropped-Drops test rs h p s =
    route_of-keep p s (λ item. not (test item)) rs h ∙ negated (route_of p s rs)
  where
    negated :
        (o : Option Route)
        → (elim o [ none ↦ none | some r ↦ if not (test r) then some r else none ])
          ≡ (elim o [ none ↦ none | some r ↦ if test r then none else some r ])
    negated o = ground arith

kept-Drops :
    (test : Route → Bool) (rs : List Route)
    → distinct_identities rs ≡ true
    → Drops (λ r. not (test r)) rs (keep test rs)
kept-Drops test rs h p s = route_of-keep p s test rs h ∙ negated (route_of p s rs)
  where
    negated :
        (o : Option Route)
        → (elim o [ none ↦ none | some r ↦ if test r then some r else none ])
          ≡ (elim o [ none ↦ none | some r ↦ if not (test r) then none else some r ])
    negated o = ground arith

length-keep : (test : Route → Bool) (rs : List Route) → length (keep test rs) ≤ length rs
length-keep test [] = omega arith
length-keep test (r ∷ rs) = ground (arith, length-keep test rs)

-- A filter that keeps the length keeps the list.
pub keep_all :
    (test : Route → Bool) (rs : List Route)
    → eqb (length (keep test rs)) (length rs) ≡ true
    → keep test rs ≡ rs
keep_all test [] h = refl
keep_all test (r ∷ rs) h = ground (arith, keep_all test rs, length-keep test rs)

module _ (env : Env) where
  pub replaced-IsRegistry :
      (route : Route) (rs : List Route)
      → IsRegistry env rs
      → IsRoute env route
      → IsRegistry env (replaced route rs)
  unfolding distinct_identities
  replaced-IsRegistry route rs g v = record {
    valid =
        All-append (IsRoute env) (keep (λ item. not (same_identity route item)) rs) (route ∷ [])
          (All-keep (IsRoute env) (λ item. not (same_identity route item)) rs g.valid) (v, tt);
    unique =
        distinct-append (keep (λ item. not (same_identity route item)) rs) (route ∷ [])
          (distinct-keep (λ item. not (same_identity route item)) rs g.unique) refl
          (apart route rs);
  }

  pub keep-IsRegistry :
      (test : Route → Bool) (rs : List Route) → IsRegistry env rs → IsRegistry env (keep test rs)
  keep-IsRegistry test rs g = record {
    valid = All-keep (IsRoute env) test rs g.valid;
    unique = distinct-keep test rs g.unique;
  }

  -- `upsert` on a private root whose registry is readable, for a valid route: it succeeds, and the
  -- registry reads as the table in which the identity of the route has that route and every other
  -- identity has what it had.
  pub upsert_lem :
      (route : Route) (anchor : Option Json) (files : Files) (rs : List Route)
      → routes_lock files ≡ ok tt
      → routes env files ≡ ok rs
      → IsRoute env route
      → (files' : Files) × (rs' : List Route) × (upsert env route anchor files ≡ ok files')
        × (routes env files' ≡ ok rs')
        × Puts route rs rs'
  unfolding upsert
  upsert_lem route anchor files rs locked read v = (
    write env (replaced route rs)
        (record files { anchors = publish_owner_anchor route anchor files.anchors }),
    arranged (replaced route rs),
    rw (locked, read),
    routes-write env (replaced route rs) _
        (replaced-IsRegistry route rs (routes-IsRegistry env files rs read) v),
    λ p s. route_of-arranged p s (replaced route rs) ∙ replaced-Puts route rs p s,
  )

  -- `remove` on a private root whose registry is readable: it succeeds, and the registry reads as
  -- the table without the route of this identity when that route has the process and, where one is
  -- asked for, the generation; every other entry is as before.
  pub remove_lem :
      (p : Provider) (s : Text) (pid : ℤ) (generation : Option Text) (files : Files)
      (rs : List Route)
      → routes_lock files ≡ ok tt
      → routes env files ≡ ok rs
      → (files' : Files) × (rs' : List Route) × (remove env p s pid generation files ≡ ok files')
        × (routes env files' ≡ ok rs')
        × Drops (removes p s pid generation) rs rs'
  unfolding remove
  remove_lem p s pid generation files rs locked read =
      let test : Route → Bool = λ item. not (removes p s pid generation item) in
      let g = routes-IsRegistry env files rs read in
      (
        write env (keep test rs) files,
        arranged (keep test rs),
        rw (locked, read),
        routes-write env (keep test rs) files (keep-IsRegistry test rs g),
        λ q u.
            route_of-arranged q u (keep test rs)
            ∙ dropped-Drops (removes p s pid generation) rs g.unique q u,
      )

  -- `compact_dead` on a private root whose registry is readable: it succeeds and returns the live
  -- routes in their order, and the registry reads as the table without the dead ones.
  pub compact_dead_lem :
      (live : Route → Bool) (files : Files) (rs : List Route)
      → routes_lock files ≡ ok tt
      → routes env files ≡ ok rs
      → (files' : Files) × (rs' : List Route) × (compact_dead env live files
          ≡ ok (keep live rs, files'))
        × (routes env files' ≡ ok rs')
        × Drops (λ r. not (live r)) rs rs'
  unfolding compact_dead
  compact_dead_lem live files rs locked read =
      let g = routes-IsRegistry env files rs read in
      elim (Bool-cases (eqb (length (keep live rs)) (length rs))) [
        | inl e ↦ (
          record files { anchors = prune_owner_anchors (keep live rs) files.anchors },
          rs,
          rw (locked, read, e) refl,
          unfold routes in read,
          λ p s. ap (route_of p s) (sym (keep_all live rs e)) ∙ kept-Drops live rs g.unique p s,
        )
        | inr e ↦ (
          write env (keep live rs) files,
          arranged (keep live rs),
          rw (locked, read, e) refl,
          routes-write env (keep live rs) files (keep-IsRegistry live rs g),
          λ p s. route_of-arranged p s (keep live rs) ∙ kept-Drops live rs g.unique p s,
        )
      ]
