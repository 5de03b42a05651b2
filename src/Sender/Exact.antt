-- ===== src/Sender/Exact.antt =====
-- core.py `authenticate_sender`: the one route that is the sender.
use cross_agent_chat.Prelude.{
  Bool-cases, keep, any, All, keep-append, keep_none, any-of-keep, ◌≡◌, refl, sym, ap, ◌∙◌, ◌↔◌,
  inl, inr, Bool, true, false, Option, none, some, List, [], ◌∷◌, ◌++◌, arith,
}
use cross_agent_chat.Core.{Error, invalid, message, err, ok}
use cross_agent_chat.Route.{provider_eq_iff, Route}
use cross_agent_chat.Sender.{runs_as, runs_thread, only, authenticate_sender}
use cross_agent_chat.Core.Ids.{valid_uuid_lem, Provider, claude, codex, devin}
use cross_agent_chat.Json.Int.{ℤ, int_eq_sound, int_eq_refl}
use cross_agent_chat.Text.{Text, ==_iff, uuid_re}

only_iff : (rs : List Route) (e : Error) (r : Route) → (only rs e ≡ ok r) ↔ (rs ≡ r ∷ [])
unfolding only
only_iff [] e r = (λ h. absurd (cc), λ h. absurd (cc))
only_iff (s ∷ []) e r = (λ h. cc, λ h. cc)
only_iff (s ∷ t ∷ rs) e r = (λ h. absurd (cc), λ h. absurd (cc))

-- A route of a list that satisfies `P`, and no other of the list does.
pub record IsOnly (P : Route → Type 0) (rs : List Route) (r : Route) : Type 0 where
  pub before : List Route
  pub after : List Route
  pub split : rs ≡ before ++ r ∷ after
  pub satisfies : P r
  pub none_before : All (λ s. ¬ P s) before
  pub none_after : All (λ s. ¬ P s) after

-- A test that decides a predicate.
module _ (test : Route → Bool) (P : Route → Type 0)
    (decides : (s : Route) → (test s ≡ true) ↔ P s) where
  fails : (s : Route) → test s ≡ false → ¬ P s
  fails s e p = let t = (decides s).1 p in absurd (cc)

  none_iff : (rs : List Route) → (any test rs ≡ false) ↔ All (λ s. ¬ P s) rs
  none_iff [] = (λ h. tt, λ h. refl)
  none_iff (s ∷ rs) = (
    λ h. (fails s (ground arith), (none_iff rs).0 (ground arith)),
    λ a. elim (Bool-cases (test s)) [
      | inl e ↦ absurd (a.0 ((decides s).0 e))
      | inr e ↦ rw (e, (none_iff rs).1 a.1) refl
    ],
  )

  IsOnly-cons :
      (s : Route) (rs : List Route) (r : Route) → ¬ P s → IsOnly P rs r → IsOnly P (s ∷ rs) r
  IsOnly-cons s rs r h o = record {
    before = s ∷ o.before;
    after = o.after;
    split = ap (λ (l : List Route). s ∷ l) o.split;
    satisfies = o.satisfies;
    none_before = (h, o.none_before);
    none_after = o.none_after;
  }

  -- A filter that leaves one route leaves the only one that passes.
  kept-IsOnly : (rs : List Route) (r : Route) → keep test rs ≡ r ∷ [] → IsOnly P rs r
  kept-IsOnly [] r h = absurd (cc)
  kept-IsOnly (s ∷ rs) r h = elim (Bool-cases (test s)) [
    | inl e ↦
        let same : s ≡ r = ground arith in
        let rest : keep test rs ≡ [] = ground arith in
        record {
          before = [];
          after = rs;
          split = cc (same);
          satisfies = (decides r).0 (rw (← same) e);
          none_before = tt;
          none_after = (none_iff rs).0 (any-of-keep test rs rest);
        }
    | inr e ↦ IsOnly-cons s rs r (fails s e) (kept-IsOnly rs r (ground arith))
  ]

  only_kept : (rs : List Route) (r : Route) → IsOnly P rs r → keep test rs ≡ r ∷ []
  only_kept rs r o =
      rw
        (
          o.split,
          keep-append test o.before (r ∷ o.after),
          keep_none test o.before ((none_iff o.before).1 o.none_before),
          (decides r).1 o.satisfies,
          keep_none test o.after ((none_iff o.after).1 o.none_after),
        )
        refl

  only-keep_iff :
      (rs : List Route) (e : Error) (r : Route) → (only (keep test rs) e ≡ ok r) ↔ IsOnly P rs r
  only-keep_iff rs e r = (
    λ h. kept-IsOnly rs r ((only_iff (keep test rs) e r).0 h),
    λ o. (only_iff (keep test rs) e r).1 (only_kept rs r o),
  )

-- A Codex sender has the session of its host's thread.
unfoldable pub OwnThread : Provider → Option Text → Route → Type 0
OwnThread codex thread r = thread ≡ some r.session_id
OwnThread claude thread r = Unit
OwnThread devin thread r = Unit

-- A route of the provider and the process, and of the host's thread.
pub record IsSender (p : Provider) (pid : ℤ) (thread : Option Text) (r : Route) : Type 0 where
  pub provided : r.provider ≡ p
  pub running : r.pid ≡ pid
  pub own : OwnThread p thread r

-- For Codex the host names a thread, by a canonical identifier.
unfoldable pub IsNamed : Provider → Option Text → Type 0
IsNamed codex (some value) = uuid_re value ≡ true
IsNamed codex none = ⊥
IsNamed claude thread = Unit
IsNamed devin thread = Unit

runs_as_iff :
    (p : Provider) (pid : ℤ) (r : Route)
    → (runs_as p pid r ≡ true) ↔ ((r.provider ≡ p) × (r.pid ≡ pid))
unfolding runs_as
runs_as_iff p pid r = (
  λ h. ((provider_eq_iff r.provider p).0 (ground arith), int_eq_sound r.pid pid (ground arith)),
  λ h. rw (h.1, int_eq_refl pid, (provider_eq_iff r.provider p).1 h.0) refl,
)

decides_claude :
    (pid : ℤ) (thread : Option Text) (r : Route)
    → (runs_as claude pid r ≡ true) ↔ IsSender claude pid thread r
unfolding OwnThread
decides_claude pid thread r = (
  λ h.
      let (a, b) = (runs_as_iff claude pid r).0 h in record { provided = a; running = b; own = tt },
  λ s. (runs_as_iff claude pid r).1 (s.provided, s.running),
)

decides_devin :
    (pid : ℤ) (thread : Option Text) (r : Route)
    → (runs_as devin pid r ≡ true) ↔ IsSender devin pid thread r
unfolding OwnThread
decides_devin pid thread r = (
  λ h. let (a, b) = (runs_as_iff devin pid r).0 h in record { provided = a; running = b; own = tt },
  λ s. (runs_as_iff devin pid r).1 (s.provided, s.running),
)

some-injective : {A : Type 0} {x y : A} → some x ≡ some y → x ≡ y
some-injective h = cc

decides_codex :
    (pid : ℤ) (value : Text) (r : Route)
    → (runs_thread pid value r ≡ true) ↔ IsSender codex pid (some value) r
unfolding OwnThread runs_thread
decides_codex pid value r = (
  λ h.
      let (a, b) = (runs_as_iff codex pid r).0 (ground arith) in
      record {
        provided = a;
        running = b;
        own = ap some (sym ((==_iff r.session_id value).0 (ground arith)));
      },
  λ s.
      let runs = (runs_as_iff codex pid r).1 (s.provided, s.running) in
      let same = (==_iff r.session_id value).1 (some-injective (sym s.own)) in rw (runs, same) refl,
)

named_thread :
    (rs : List Route) (pid : ℤ) (value : Text)
    → uuid_re value ≡ true
    → authenticate_sender rs codex pid (some value)
      ≡ only (keep (runs_thread pid value) rs) (message "exact Codex sender is unavailable")
unfolding authenticate_sender
named_thread rs pid value e = rw (valid_uuid_lem value, e) refl

unnamed_thread :
    (rs : List Route) (pid : ℤ) (value : Text)
    → uuid_re value ≡ false
    → authenticate_sender rs codex pid (some value) ≡ err (invalid "Codex host thread identity")
unfolding authenticate_sender
unnamed_thread rs pid value e = rw (valid_uuid_lem value, e) refl

-- `authenticate_sender` answers with a route exactly when it is a sender and the only one of the
-- routes: of the provider that was named, in the process that called and, for Codex, with the
-- session of the host's thread, which has to be named by a canonical identifier. In particular
-- the call is refused where no route or more than one is such a sender.
pub authenticate_sender_lem :
    (rs : List Route) (p : Provider) (pid : ℤ) (thread : Option Text) (r : Route)
    → (authenticate_sender rs p pid thread ≡ ok r)
      ↔ (IsNamed p thread × IsOnly (IsSender p pid thread) rs r)
unfolding authenticate_sender IsNamed
authenticate_sender_lem rs claude pid thread r =
    let (f, g) =
      only-keep_iff (runs_as claude pid) (IsSender claude pid thread) (decides_claude pid thread) rs
        (message "exact Claude sender is unavailable") r in
    (λ h. (tt, f h), λ o. g o.1)
authenticate_sender_lem rs devin pid thread r =
    let (f, g) =
      only-keep_iff (runs_as devin pid) (IsSender devin pid thread) (decides_devin pid thread) rs
        (message "exact Devin sender is unavailable") r in
    (λ h. (tt, f h), λ o. g o.1)
authenticate_sender_lem rs codex pid none r = (λ h. absurd (cc), λ o. absurd o.0)
authenticate_sender_lem rs codex pid (some value) r = elim (Bool-cases (uuid_re value)) [
  | inl e ↦
      let (f, g) =
        only-keep_iff (runs_thread pid value) (IsSender codex pid (some value))
          (decides_codex pid value) rs (message "exact Codex sender is unavailable") r in
      let asked = named_thread rs pid value e in (λ h. (e, f (sym asked ∙ h)), λ o. asked ∙ g o.1)
  | inr e ↦
      let refused = unnamed_thread rs pid value e in
      (λ h. absurd (cc (refused, h)), λ o. absurd (cc (e, o.0)))
]
