-- ===== src/Registry/History.antt =====
-- Any sequence of calls on one registry, and the owner anchors that it leaves.
use cross_agent_chat.Prelude.{
  eqb, Bool-cases, length, keep, any, all, All, any-append, ◌≡◌, refl, ◌∙◌, subst, inl, inr, Bool,
  true, not, ◌||◌, Option, List, [], ◌∷◌, arith,
}
use cross_agent_chat.Core.{Result, ok, ◌>>=◌, Env}
use cross_agent_chat.Json.{Json}
use cross_agent_chat.Json.Int.{ℤ}
use cross_agent_chat.Core.Ids.{Provider}
use cross_agent_chat.Route.{Route}
use cross_agent_chat.Text.{Text}
use cross_agent_chat.Registry.{
  Files, in_devin, in_legacy, has_generation, prune_owner_anchors, publish_owner_anchor,
  routes_lock, repeats, removes, routes, write, upsert, upsert_or_reuse_live_owner, remove,
  compact_dead,
}
use cross_agent_chat.Registry.Reading.{
  arranged, legacy_or_devin, IsRoute, IsRegistry, routes-write, routes-IsRegistry,
}
use cross_agent_chat.Registry.Updates.{replaced, keep_all, replaced-IsRegistry, keep-IsRegistry}

-- A call of the registry.
pub data Call : Type 0 where
  upserts : Route → Option Json → Call
  reuses : Route → Option Json → Call
  drops : Provider → Text → ℤ → Option Text → Call
  compacts : (Route → Bool) → Call

-- Every anchor is of a generation that has a route.
abbrev pub anchored : List Route → List (Text × Json) → Bool
anchored rs anchors = all (λ a. any (has_generation a.0) rs) anchors

anchored-prune :
    (rs : List Route) (anchors : List (Text × Json))
    → anchored rs (prune_owner_anchors rs anchors) ≡ true
unfolding prune_owner_anchors
anchored-prune rs [] = refl
anchored-prune rs (a ∷ anchors) = ground (arith, anchored-prune rs anchors)

any-arranged : (test : Route → Bool) (rs : List Route) → any test (arranged rs) ≡ any test rs
any-arranged test rs = any-append test (keep in_legacy rs) (keep in_devin rs) ∙ both rs
  where
    both :
        (rs : List Route)
        → (any test (keep in_legacy rs) || any test (keep in_devin rs)) ≡ any test rs
    both [] = refl
    both (r ∷ rs) = ground (arith, both rs, legacy_or_devin r)

anchored-arranged :
    (rs : List Route) (anchors : List (Text × Json))
    → anchored (arranged rs) anchors ≡ anchored rs anchors
anchored-arranged rs [] = refl
anchored-arranged rs (a ∷ anchors) =
    rw (any-arranged (has_generation a.0) rs, anchored-arranged rs anchors) refl

module _ (env : Env) where
  -- One call, whose returned route or routes are left aside.
  unfoldable pub call : Call → Files → Result Files
  call (upserts route anchor) files = upsert env route anchor files
  call (reuses route anchor) files = do
    done ← upsert_or_reuse_live_owner env route anchor files
    ok done.1
  call (drops p s pid generation) files = remove env p s pid generation files
  call (compacts live) files = do done ← compact_dead env live files; ok done.1

  unfoldable pub calls : List Call → Files → Result Files
  calls [] files = ok files
  calls (c ∷ cs) files = do files' ← call c files; calls cs files'

  -- What a caller passes: a route is one that its class accepts.
  unfoldable pub IsCall : Call → Type 0
  IsCall (upserts route anchor) = IsRoute env route
  IsCall (reuses route anchor) = IsRoute env route
  IsCall (drops p s pid generation) = Unit
  IsCall (compacts live) = Unit

  -- A private root whose two files are readable and whose anchors are all of kept routes.
  pub record IsTidy (files : Files) : Type 0 where
    pub locked : routes_lock files ≡ ok tt
    pub listed : List Route
    pub readable : routes env files ≡ ok listed
    pub owned : anchored listed files.anchors ≡ true

  write-IsTidy :
      (rs : List Route) (files : Files)
      → routes_lock files ≡ ok tt
      → IsRegistry env rs
      → IsTidy (write env rs files)
  unfolding write
  write-IsTidy rs files locked g = record {
    locked = unfold write routes_lock in locked;
    listed = arranged rs;
    readable = routes-write env rs files g;
    owned =
        anchored-arranged rs (prune_owner_anchors rs files.anchors)
        ∙ anchored-prune rs files.anchors;
  }

  Leaves : Call → Files → Type 0
  Leaves c files = (files' : Files) × (call c files ≡ ok files') × IsTidy files'

  upserts-IsTidy :
      (route : Route) (anchor : Option Json) (files : Files)
      → IsRoute env route
      → IsTidy files
      → Leaves (upserts route anchor) files
  unfolding Leaves call upsert
  upserts-IsTidy route anchor files v t = (
    write env (replaced route t.listed)
        (record files { anchors = publish_owner_anchor route anchor files.anchors }),
    rw (t.locked, t.readable) refl,
    write-IsTidy (replaced route t.listed) _ (unfold routes_lock in t.locked) (
        replaced-IsRegistry env route t.listed (routes-IsRegistry env files t.listed t.readable) v),
  )

  reuses-IsTidy :
      (route : Route) (anchor : Option Json) (files : Files)
      → IsRoute env route
      → IsTidy files
      → Leaves (reuses route anchor) files
  unfolding Leaves call upsert_or_reuse_live_owner
  reuses-IsTidy route anchor files v t = by_repeats (keep (repeats route) t.listed) refl
    where
      published : Files
      published = record files { anchors = publish_owner_anchor route anchor files.anchors }

      new : IsTidy (write env (replaced route t.listed) published)
      new = write-IsTidy (replaced route t.listed) published (unfold routes_lock in t.locked) (
          replaced-IsRegistry env route t.listed (routes-IsRegistry env files t.listed t.readable)
            v)

      by_repeats :
          (found : List Route)
          → keep (repeats route) t.listed ≡ found
          → Leaves (reuses route anchor) files
      by_repeats [] e =
          (write env (replaced route t.listed) published, rw (t.locked, t.readable, e) refl, new)
      by_repeats (one ∷ []) e = (files, rw (t.locked, t.readable, e) refl, t)
      by_repeats (one ∷ two ∷ rest) e =
          (write env (replaced route t.listed) published, rw (t.locked, t.readable, e) refl, new)

  drops-IsTidy :
      (p : Provider) (s : Text) (pid : ℤ) (generation : Option Text) (files : Files)
      → IsTidy files
      → Leaves (drops p s pid generation) files
  unfolding Leaves call remove
  drops-IsTidy p s pid generation files t =
      let kept = keep (λ item. not (removes p s pid generation item)) t.listed in
      (
        write env kept files,
        rw (t.locked, t.readable) refl,
        write-IsTidy kept files t.locked (
            keep-IsRegistry env (λ item. not (removes p s pid generation item)) t.listed
              (routes-IsRegistry env files t.listed t.readable)),
      )

  compacts-IsTidy :
      (live : Route → Bool) (files : Files) → IsTidy files → Leaves (compacts live) files
  unfolding Leaves call compact_dead
  compacts-IsTidy live files t =
      elim (Bool-cases (eqb (length (keep live t.listed)) (length t.listed))) [
        | inl e ↦ (
          record files { anchors = prune_owner_anchors (keep live t.listed) files.anchors },
          rw (t.locked, t.readable, e) refl,
          record {
            locked = unfold routes_lock in t.locked;
            listed = t.listed;
            readable = unfold routes in t.readable;
            owned =
                subst
                  (λ rs.
                    anchored rs (prune_owner_anchors (keep live t.listed) files.anchors) ≡ true)
                  (keep_all live t.listed e) (anchored-prune (keep live t.listed) files.anchors);
          },
        )
        | inr e ↦ (
          write env (keep live t.listed) files,
          rw (t.locked, t.readable, e) refl,
          write-IsTidy (keep live t.listed) files t.locked
              (keep-IsRegistry env live t.listed (routes-IsRegistry env files t.listed t.readable)),
        )
      ]

  call-IsTidy : (c : Call) (files : Files) → IsCall c → IsTidy files → Leaves c files
  unfolding IsCall
  call-IsTidy (upserts route anchor) files v t = upserts-IsTidy route anchor files v t
  call-IsTidy (reuses route anchor) files v t = reuses-IsTidy route anchor files v t
  call-IsTidy (drops p s pid generation) files v t = drops-IsTidy p s pid generation files t
  call-IsTidy (compacts live) files v t = compacts-IsTidy live files t

  -- Any sequence of calls with valid routes, on a private root whose registry is readable and whose
  -- owner anchors are all of kept routes, succeeds and leaves such a registry.
  pub calls-IsTidy :
      (cs : List Call) (files : Files)
      → All IsCall cs
      → IsTidy files
      → (files' : Files) × (calls cs files ≡ ok files') × IsTidy files'
  unfolding calls Leaves
  calls-IsTidy [] files v t = (files, refl, t)
  calls-IsTidy (c ∷ cs) files v t =
      let (middle, h, t₁) = call-IsTidy c files v.0 t in
      let (files', k, t₂) = calls-IsTidy cs middle v.1 t₁ in (files', rw h k, t₂)
