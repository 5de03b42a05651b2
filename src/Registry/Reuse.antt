-- ===== src/Registry/Reuse.antt =====
-- `upsert_or_reuse_live_owner`: a repeated hook of one live owner keeps the generation it has.
use cross_agent_chat.Prelude.{
  if◌then◌else◌, Bool-cases, keep, any, ◌≡◌, refl, sym, ap, ◌∙◌, inl, inr, true, false, Option,
  none, some, List, [], ◌∷◌, arith,
}
use cross_agent_chat.Route.{Route}
use cross_agent_chat.Registry.{
  Files, has_identity, same_identity, distinct_identities, publish_owner_anchor, routes_lock,
  repeats, routes, write, upsert_or_reuse_live_owner,
}
use cross_agent_chat.Registry.Lookup.{
  route_of, has_identity_lem, route_of-has_identity, route_of-arranged, lone,
}
use cross_agent_chat.Core.Ids.{Provider}
use cross_agent_chat.Registry.Updates.{Puts, replaced, replaced-Puts, replaced-IsRegistry}
use cross_agent_chat.Registry.Reading.{arranged, IsRoute, routes-write, routes-IsRegistry}
use cross_agent_chat.Core.{ok, Env}
use cross_agent_chat.Text.{Text}
use cross_agent_chat.Json.{Json}

repeats-same_identity : (route r : Route) → same_identity route r ≡ false → repeats route r ≡ false
unfolding repeats
repeats-same_identity route r h = rw h

keep-repeats-absent :
    (route : Route) (rs : List Route)
    → any (same_identity route) rs ≡ false
    → keep (repeats route) rs ≡ []
keep-repeats-absent route [] h = refl
keep-repeats-absent route (r ∷ rs) h =
    ground (arith, keep-repeats-absent route rs, repeats-same_identity route r)

-- The route that stands for a hook: the one of its identity when the hook repeats it.
abbrev pub standing : Route → Option Route → Route
standing route none = route
standing route (some r) = if repeats route r then r else route

abbrev repeated : Route → Option Route → List Route
repeated route none = []
repeated route (some r) = if repeats route r then r ∷ [] else []

-- Where identities are distinct, a hook repeats one route at most.
keep-repeats :
    (route : Route) (rs : List Route)
    → distinct_identities rs ≡ true
    → keep (repeats route) rs ≡ repeated route (route_of route.provider route.session_id rs)
unfolding route_of distinct_identities
keep-repeats route [] h = refl
keep-repeats route (r ∷ rs) h = elim (Bool-cases (same_identity route r)) [
  | inl e ↦
      let gone =
        keep-repeats-absent route rs (lone route.provider route.session_id r rs e (ground arith)) in
      ground arith
  | inr e ↦ rw (e, repeats-same_identity route r e) (keep-repeats route rs (ground arith))
]

-- Putting the route that an identity has changes nothing.
own-Puts :
    (p : Provider) (s : Text) (r : Route) (rs : List Route)
    → route_of p s rs ≡ some r
    → Puts r rs rs
own-Puts p s r rs h q u = elim (Bool-cases (has_identity q u r)) [
  | inl e ↦ rw e (same q u e)
  | inr e ↦ rw e refl
]
  where
    same : (q : Provider) (u : Text) → has_identity q u r ≡ true → route_of q u rs ≡ some r
    same q u e =
        let (hp, hs) = has_identity_lem q u r e in
        let (kp, ks) = has_identity_lem p s r (route_of-has_identity p s rs r h) in
        ap (λ (x : Provider). route_of x u rs) (sym hp ∙ kp)
        ∙ ap (λ (x : Text). route_of p x rs) (sym hs ∙ ks)
        ∙ h

module _ (env : Env) where
  -- What the call gives: a route, and a registry in which its identity has it.
  abbrev Gives : Route → Option Json → Files → List Route → Route → Type 0
  Gives route anchor files rs chosen =
      (files' : Files) × (rs' : List Route) × (upsert_or_reuse_live_owner env route anchor files
        ≡ ok (chosen, files'))
      × (routes env files' ≡ ok rs')
      × Puts chosen rs rs'

  publishing-Gives :
      (route : Route) (anchor : Option Json) (files : Files) (rs : List Route)
      → routes_lock files ≡ ok tt
      → routes env files ≡ ok rs
      → IsRoute env route
      → keep (repeats route) rs ≡ []
      → Gives route anchor files rs route
  unfolding upsert_or_reuse_live_owner
  publishing-Gives route anchor files rs locked read v e = (
    write env (replaced route rs)
        (record files { anchors = publish_owner_anchor route anchor files.anchors }),
    arranged (replaced route rs),
    rw (locked, read, e) refl,
    routes-write env (replaced route rs) _
        (replaced-IsRegistry env route rs (routes-IsRegistry env files rs read) v),
    λ p s. route_of-arranged p s (replaced route rs) ∙ replaced-Puts route rs p s,
  )

  reusing-Gives :
      (route : Route) (anchor : Option Json) (files : Files) (rs : List Route) (r : Route)
      → routes_lock files ≡ ok tt
      → routes env files ≡ ok rs
      → route_of route.provider route.session_id rs ≡ some r
      → keep (repeats route) rs ≡ r ∷ []
      → Gives route anchor files rs r
  unfolding upsert_or_reuse_live_owner
  reusing-Gives route anchor files rs r locked read h e =
      (files, rs, rw (locked, read, e) refl, read, own-Puts route.provider route.session_id r rs h)

  -- `upsert_or_reuse_live_owner` on a private root whose registry is readable, for a valid route:
  -- it succeeds with the route of this identity that the hook repeats, or else with the given one,
  -- and the registry reads as the table in which the identity has the returned route and every
  -- other identity has what it had.
  pub upsert_or_reuse_live_owner_lem :
      (route : Route) (anchor : Option Json) (files : Files) (rs : List Route)
      → routes_lock files ≡ ok tt
      → routes env files ≡ ok rs
      → IsRoute env route
      → (files' : Files) × (rs' : List Route) × (upsert_or_reuse_live_owner env route anchor files
          ≡ ok (standing route (route_of route.provider route.session_id rs), files'))
        × (routes env files' ≡ ok rs')
        × Puts (standing route (route_of route.provider route.session_id rs)) rs rs'
  upsert_or_reuse_live_owner_lem route anchor files rs locked read v =
      outcome (route_of route.provider route.session_id rs) refl
    where
      one : keep (repeats route) rs ≡ repeated route (route_of route.provider route.session_id rs)
      one = keep-repeats route rs (routes-IsRegistry env files rs read).unique

      outcome :
          (o : Option Route)
          → route_of route.provider route.session_id rs ≡ o
          → Gives route anchor files rs (standing route o)
      outcome none h =
          publishing-Gives route anchor files rs locked read v (one ∙ ap (repeated route) h)
      outcome (some r) h = elim (Bool-cases (repeats route r)) [
        | inl e ↦ rw e (
            reusing-Gives route anchor files rs r locked read h
              (one ∙ ap (repeated route) h ∙ rw e refl))
        | inr e ↦ rw e (
            publishing-Gives route anchor files rs locked read v
              (one ∙ ap (repeated route) h ∙ rw e refl))
      ]
