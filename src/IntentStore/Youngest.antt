-- ===== src/IntentStore/Youngest.antt =====
-- The blocker that `refuse_unresolved` quotes: the first of the youngest rows.
use cross_agent_chat.Prelude.{
  ltb, ltb→lt, ltb-false, Bool-cases, is_some-cases, All, ℕ, ◌≤◌, ◌<◌, ◌≡◌, refl, ap, ◌∙◌, inl, inr,
  Option, some, List, [], ◌∷◌, ◌++◌, arith,
}
use cross_agent_chat.Core.{ok, Env}
use cross_agent_chat.Core.Intent.{Intent}
use cross_agent_chat.IntentStore.{youngest}
use cross_agent_chat.Core.Intent.RoundTrip.{IsValid}
use cross_agent_chat.Core.Ids.{parse_timestamp}

same_time : (o : Option ℕ) (t w u : ℕ) → o ≡ some t → o ≡ some w → t ≤ u → w ≤ u
same_time o t w u p q h = ground arith

earlier_time : (o : Option ℕ) (t w u : ℕ) → o ≡ some t → o ≡ some w → t < u → w < u
earlier_time o t w u p q h = ground arith

same_value : (o : Option ℕ) (t u : ℕ) → o ≡ some t → o ≡ some u → t ≡ u
same_value o t u p q = ground arith

module _ (env : Env) where
  -- The time of a row is at most `time`.
  abbrev pub NotAfter : ℕ → Intent → Type 0
  NotAfter time j = (u : ℕ) → env.parse_time j.timestamp ≡ some u → u ≤ time

  -- The time of a row is before `time`.
  abbrev pub Earlier : ℕ → Intent → Type 0
  Earlier time j = (u : ℕ) → env.parse_time j.timestamp ≡ some u → u < time

  -- The youngest of a list and its time, the first of several: the rows before it are older, and
  -- those after it are no younger.
  pub record IsYoungest (is : List Intent) (best : Intent) (time : ℕ) : Type 0 where
    pub before : List Intent
    pub after : List Intent
    pub split : is ≡ before ++ best ∷ after
    pub timed : env.parse_time best.timestamp ≡ some time
    pub older : All (Earlier time) before
    pub latest : All (NotAfter time) after

  -- A row with a later time than the first one's.
  overtaken :
      (i : Intent) (t u : ℕ) (is : List Intent) (b : Intent)
      → env.parse_time i.timestamp ≡ some t
      → t < u
      → IsYoungest is b u
      → IsYoungest (i ∷ is) b u
  overtaken i t u is b e h y = record {
    before = i ∷ y.before;
    after = y.after;
    split = ap (λ (l : List Intent). i ∷ l) y.split;
    timed = y.timed;
    older = ((λ w ew. earlier_time _ t w u e ew h), y.older);
    latest = y.latest;
  }

  -- A row that is no younger than the first one.
  passed :
      (first i : Intent) (time t u : ℕ) (is : List Intent) (b : Intent)
      → env.parse_time first.timestamp ≡ some time
      → env.parse_time i.timestamp ≡ some t
      → t ≤ time
      → IsYoungest (first ∷ is) b u
      → IsYoungest (first ∷ i ∷ is) b u
  passed first i time t u is b e ei h y = by_place y.before y.after y.split y.older y.latest
    where
      by_place :
          (before after : List Intent)
          → first ∷ is ≡ before ++ b ∷ after
          → All (Earlier u) before
          → All (NotAfter u) after
          → IsYoungest (first ∷ i ∷ is) b u
      by_place [] after s o l =
          let same : first ≡ b = cc in
          let rest : is ≡ after = cc in
          let now : time ≡ u =
            same_value _ time u e
              (ap (λ (x : Intent). env.parse_time x.timestamp) same ∙ y.timed) in
          record {
            before = [];
            after = i ∷ after;
            split = cc;
            timed = y.timed;
            older = tt;
            latest = ((λ w ew. same_time _ t w u ei ew (omega arith)), l);
          }
      by_place (j ∷ before) after s o l =
          let same : first ≡ j = cc in
          let rest : is ≡ before ++ b ∷ after = cc in
          let later : time < u = (rw (← same) at o.0) time e in
          record {
            before = first ∷ i ∷ before;
            after = after;
            split = ap (λ (l : List Intent). first ∷ i ∷ l) rest;
            timed = y.timed;
            older =
                ((rw (← same) at o.0), ((λ w ew. earlier_time _ t w u ei ew (omega arith)), o.1));
            latest = l;
          }

  -- Among rows with a time, `youngest` finds the first of the youngest.
  pub youngest_lem :
      (P : Intent → Type 0) (best : Intent) (time : ℕ) (is : List Intent)
      → env.parse_time best.timestamp ≡ some time
      → P best
      → All P is
      → All (IsValid env) is
      → (b : Intent) × (t : ℕ) × (youngest env best time is ≡ ok (b, t))
        × P b
        × IsYoungest (best ∷ is) b t
        × (time ≤ t)
  unfolding youngest parse_timestamp
  youngest_lem P best time [] e p ps v = (
    best,
    time,
    refl,
    p,
    record { before = []; after = []; split = refl; timed = e; older = tt; latest = tt },
    omega arith,
  )
  youngest_lem P best time (i ∷ is) e p ps v =
      let (t, et) = is_some-cases (env.parse_time i.timestamp) v.0.timed in
      elim (Bool-cases (ltb time t)) [
        | inl q ↦
            let (b, u, found, pb, y, le) = youngest_lem P i t is et ps.0 ps.1 v.1 in
            let lt = ltb→lt time t q in
            (
              b,
              u,
              rw (et, q) found,
              pb,
              overtaken best time u (i ∷ is) b e (omega arith) y,
              omega arith,
            )
        | inr q ↦
            let (b, u, found, pb, y, le) = youngest_lem P best time is e p ps.1 v.1 in
            (
              b,
              u,
              rw (et, q) found,
              pb,
              passed best i time t u is b e et (let up = ltb-false time t q in omega arith) y,
              le,
            )
      ]
