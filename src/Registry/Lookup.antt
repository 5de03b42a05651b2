-- ===== src/Registry/Lookup.antt =====
-- The routes of a registry as a table from identities.
use cross_agent_chat.Prelude.{
  if◌then◌else◌, Bool-cases, keep, any, ◌≡◌, refl, ap, ◌∙◌, subst, ◌⊎◌, inl, inr, Bool, true, false,
  not, Option, none, some, List, [], ◌∷◌, ◌++◌, arith,
}
use cross_agent_chat.Core.Ids.{Provider}
use cross_agent_chat.Route.{provider_eq_iff, is_devin, Route}
use cross_agent_chat.Registry.{
  has_identity, same_identity, distinct_identities, in_devin, in_legacy,
}
use cross_agent_chat.Registry.Reading.{arranged}
use cross_agent_chat.Text.{Text, ==_refl, ==_iff}

-- The route of an identity.
unfoldable pub route_of : Provider → Text → List Route → Option Route
route_of p s [] = none
route_of p s (r ∷ rs) = if has_identity p s r then some r else route_of p s rs

pub has_identity_lem :
    (p : Provider) (s : Text) (r : Route)
    → has_identity p s r ≡ true
    → (r.provider ≡ p) × (r.session_id ≡ s)
unfolding has_identity
has_identity_lem p s r h = ground (arith, provider_eq_iff r.provider p, ==_iff r.session_id s)

pub has_identity_self : (r : Route) → same_identity r r ≡ true
unfolding has_identity
has_identity_self r = ground (arith, provider_eq_iff r.provider r.provider, ==_refl r.session_id)

pub route_of-has_identity :
    (p : Provider) (s : Text) (rs : List Route) (r : Route)
    → route_of p s rs ≡ some r
    → has_identity p s r ≡ true
unfolding route_of
route_of-has_identity p s [] r h = absurd (cc)
route_of-has_identity p s (t ∷ rs) r h = elim (Bool-cases (has_identity p s t)) [
  | inl e ↦ let same : t ≡ r = ground arith in rw (← same) e
  | inr e ↦ route_of-has_identity p s rs r (ground arith)
]

pub route_of-append :
    (p : Provider) (s : Text) (rs ss : List Route)
    → route_of p s (rs ++ ss)
      ≡ (elim (route_of p s rs) [ none ↦ route_of p s ss | some r ↦ some r ])
unfolding route_of
route_of-append p s [] ss = refl
route_of-append p s (r ∷ rs) ss = ground (arith, route_of-append p s rs ss)

-- A test that accepts, or refuses, every route of an identity.
pub route_of-keep-true :
    (p : Provider) (s : Text) (test : Route → Bool) (rs : List Route)
    → ((r : Route) → has_identity p s r ≡ true → test r ≡ true)
    → route_of p s (keep test rs) ≡ route_of p s rs
unfolding route_of
route_of-keep-true p s test [] f = refl
route_of-keep-true p s test (r ∷ rs) f = ground (arith, route_of-keep-true p s test rs f, f r)

pub route_of-keep-false :
    (p : Provider) (s : Text) (test : Route → Bool) (rs : List Route)
    → ((r : Route) → has_identity p s r ≡ true → test r ≡ false)
    → route_of p s (keep test rs) ≡ none
unfolding route_of
route_of-keep-false p s test [] f = refl
route_of-keep-false p s test (r ∷ rs) f = ground (arith, route_of-keep-false p s test rs f, f r)

file_of :
    (p : Provider) (s : Text) (r : Route) → has_identity p s r ≡ true → in_devin r ≡ is_devin p
unfolding in_devin
file_of p s r h = ap is_devin (has_identity_lem p s r h).0

legacy_of :
    (p : Provider) (s : Text) (r : Route)
    → has_identity p s r ≡ true
    → in_legacy r ≡ not (is_devin p)
unfolding in_legacy
legacy_of p s r h = ap (λ (q : Provider). not (is_devin q)) (has_identity_lem p s r h).0

pub one_of :
    (a b o : Option Route)
    → ((a ≡ none) × (b ≡ o)) ⊎ ((a ≡ o) × (b ≡ none))
    → (elim a [ none ↦ b | some r ↦ some r ]) ≡ o
one_of a b o h = ground arith

-- Reading the two files one behind the other changes no lookup.
pub route_of-arranged :
    (p : Provider) (s : Text) (rs : List Route) → route_of p s (arranged rs) ≡ route_of p s rs
route_of-arranged p s rs =
    route_of-append p s (keep in_legacy rs) (keep in_devin rs)
    ∙ one_of _ _ (route_of p s rs) (elim (Bool-cases (is_devin p)) [
      | inl e ↦ inl (
        route_of-keep-false p s in_legacy rs (λ r h. legacy_of p s r h ∙ ap not e),
        route_of-keep-true p s in_devin rs (λ r h. file_of p s r h ∙ e),
      )
      | inr e ↦ inr (
        route_of-keep-true p s in_legacy rs (λ r h. legacy_of p s r h ∙ ap not e),
        route_of-keep-false p s in_devin rs (λ r h. file_of p s r h ∙ e),
      )
    ])

route_of-absent :
    (p : Provider) (s : Text) (rs : List Route)
    → any (has_identity p s) rs ≡ false
    → route_of p s rs ≡ none
unfolding route_of
route_of-absent p s [] h = refl
route_of-absent p s (r ∷ rs) h = ground (arith, route_of-absent p s rs)

absent-keep :
    (p : Provider) (s : Text) (test : Route → Bool) (rs : List Route)
    → any (has_identity p s) rs ≡ false
    → any (has_identity p s) (keep test rs) ≡ false
absent-keep p s test [] h = refl
absent-keep p s test (r ∷ rs) h = ground (arith, absent-keep p s test rs)

pub lone :
    (p : Provider) (s : Text) (r : Route) (rs : List Route)
    → has_identity p s r ≡ true
    → any (same_identity r) rs ≡ false
    → any (has_identity p s) rs ≡ false
lone p s r rs h a =
    let (hp, hs) = has_identity_lem p s r h in
    subst (λ (q : Provider). any (has_identity q s) rs ≡ false) hp
      (subst (λ (u : Text). any (has_identity r.provider u) rs ≡ false) hs a)

-- Where identities are distinct, filtering keeps a route that passes and drops one that does not.
pub route_of-keep :
    (p : Provider) (s : Text) (test : Route → Bool) (rs : List Route)
    → distinct_identities rs ≡ true
    → route_of p s (keep test rs)
      ≡ (elim (route_of p s rs) [ none ↦ none | some r ↦ if test r then some r else none ])
unfolding route_of distinct_identities
route_of-keep p s test [] h = refl
route_of-keep p s test (r ∷ rs) h = elim (Bool-cases (has_identity p s r)) [
  | inl e ↦
      let gone =
        route_of-absent p s (keep test rs)
          (absent-keep p s test rs (lone p s r rs e (ground arith))) in
      ground arith
  | inr e ↦ rw e (ground (arith, route_of-keep p s test rs))
]
