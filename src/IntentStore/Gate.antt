-- ===== src/IntentStore/Gate.antt =====
-- The in-flight gate: a sender has at most one undecided intent to a recipient.
use cross_agent_chat.Prelude.{
  Bool-cases, any, All, any-append, any-of-keep, ◌≡◌, refl, inl, inr, Bool, true, false, not, ◌&&◌,
  ◌||◌, some, List, [], ◌∷◌, ◌++◌, arith,
}
use cross_agent_chat.Core.{Status, remote_authorized, resolved_by_owner, ok, Env}
use cross_agent_chat.Core.Intent.{Intent}
use cross_agent_chat.IntentStore.{
  Disk, distinct, event_ids, in_flight, is_pending, Delivery, blocks, claims, has_id, set_status,
  intents, new_intent,
}
use cross_agent_chat.Text.{Text, ◌==◌, ==_iff}
use cross_agent_chat.IntentStore.Rows.{row_of, restamp, alone}
use cross_agent_chat.IntentStore.Ledger.{Step, begins, authorizes, marks, resolves, Step-Wellformed}
use cross_agent_chat.IntentStore.Refinement.{Call, Admits, run, Reach, here, next, run-Reach}
use cross_agent_chat.IntentStore.Reading.{Wellformed, intents-Wellformed}

-- Undecided, between the same sender and recipient.
unfoldable pub rivals : Intent → Intent → Bool
unfolding in_flight
rivals i j = (j.source_key == i.source_key) && (j.target_key == i.target_key) && in_flight j.status

-- No two undecided rows are between the same sender and recipient.
unfoldable pub gate : List Intent → Bool
gate [] = true
gate (i ∷ is) = not (in_flight i.status && any (rivals i) is) && gate is

-- Where the new status is undecided, so was the old.
abbrev Relaxes : Text → Status → List Intent → Type 0
Relaxes event s = All (λ j. has_id event j ≡ true → in_flight s ≡ true → in_flight j.status ≡ true)

rivals-restamp :
    (i j : Intent) (s : Status) (time : Text)
    → (in_flight s ≡ true → in_flight j.status ≡ true)
    → rivals i j ≡ false
    → rivals i (restamp s time j) ≡ false
unfolding rivals
rivals-restamp i j s time r h = ground arith

or-false : (a b : Bool) → (a || b) ≡ false → (a ≡ false) × (b ≡ false)
or-false a b h = ground arith

rivals-set_status :
    (i : Intent) (event : Text) (s : Status) (time : Text) (rows : List Intent)
    → Relaxes event s rows
    → any (rivals i) rows ≡ false
    → any (rivals i) (set_status event s time rows) ≡ false
unfolding set_status
rivals-set_status i event s time [] r h = refl
rivals-set_status i event s time (j ∷ is) r h =
    let (hj, his) = or-false (rivals i j) (any (rivals i) is) h in
    let rest = rivals-set_status i event s time is r.1 his in
    elim (Bool-cases (has_id event j)) [
      | inl e ↦ rw (e, rivals-restamp i j s time (r.0 e) hj) rest
      | inr e ↦ rw (e, hj) rest
    ]

relax :
    (new old rival rival' : Bool)
    → (new ≡ true → old ≡ true)
    → (old && rival) ≡ false
    → (rival ≡ false → rival' ≡ false)
    → (new && rival') ≡ false
relax false old rival rival' f h g = refl
relax true false rival rival' f h g = absurd (ground (arith, f refl))
relax true true rival rival' f h g = g h

not-and : (a b : Bool) → (not a && b) ≡ true → (a ≡ false) × (b ≡ true)
not-and a b h = ground arith

and-not : (a b : Bool) → a ≡ false → b ≡ true → (not a && b) ≡ true
and-not a b p q = rw (p, q)

gate-set_status :
    (event : Text) (s : Status) (time : Text) (rows : List Intent)
    → Relaxes event s rows
    → gate rows ≡ true
    → gate (set_status event s time rows) ≡ true
unfolding gate set_status rivals
gate-set_status event s time [] r h = refl
gate-set_status event s time (i ∷ is) r h =
    let (lone, gated) = not-and (in_flight i.status && any (rivals i) is) (gate is) h in
    let rest = gate-set_status event s time is r.1 gated in
    let other = rivals-set_status i event s time is r.1 in
    elim (Bool-cases (has_id event i)) [
      | inl e ↦
          rw e (and-not _ _ (relax (in_flight s) (in_flight i.status) _ _ (r.0 e) lone other) rest)
      | inr e ↦ rw e (
          and-not _ _ (relax (in_flight i.status) (in_flight i.status) _ _ (λ x. x) lone other)
            rest)
    ]

gate-append :
    (d : Delivery) (i : Intent) (rows : List Intent)
    → i.source_key ≡ d.source_key
    → i.target_key ≡ d.target_key
    → any (blocks d) rows ≡ false
    → gate rows ≡ true
    → gate (rows ++ i ∷ []) ≡ true
unfolding gate rivals blocks
gate-append d i [] p q b h = ground arith
gate-append d i (j ∷ is) p q b h = ground (
  arith,
  gate-append d i is p q,
  any-append (rivals j) is (i ∷ []),
  ==_iff i.source_key j.source_key,
  ==_iff i.target_key j.target_key,
  ==_iff j.source_key d.source_key,
  ==_iff j.target_key d.target_key,
)

-- Where no row has the id, or the new status is decided, nothing is asked.
Relaxes-absent :
    (event : Text) (s : Status) (rows : List Intent)
    → any (has_id event) rows ≡ false
    → Relaxes event s rows
Relaxes-absent event s [] h = tt
Relaxes-absent event s (j ∷ is) h =
    ((λ e _. absurd (ground arith)), Relaxes-absent event s is (ground arith))

Relaxes-decided :
    (event : Text) (s : Status) (rows : List Intent) → in_flight s ≡ false → Relaxes event s rows
Relaxes-decided event s [] h = tt
Relaxes-decided event s (j ∷ is) h = ((λ _ f. absurd (ground arith)), Relaxes-decided event s is h)

claims-in_flight :
    (event : Text) (d : Delivery) (i : Intent) → claims event d i ≡ true → in_flight i.status ≡ true
unfolding claims is_pending in_flight
claims-in_flight event d i h = ground arith

-- The rows of an event whose one row is undecided are undecided.
Relaxes-of-row :
    (event : Text) (s : Status) (rows : List Intent) (i : Intent)
    → distinct (event_ids rows) ≡ true
    → row_of event rows ≡ some i
    → in_flight i.status ≡ true
    → Relaxes event s rows
unfolding distinct row_of
Relaxes-of-row event s [] i w h f = tt
Relaxes-of-row event s (j ∷ is) i w h f = elim (Bool-cases (has_id event j)) [
  | inl e ↦
      let same : j ≡ i = ground arith in
      ((λ _ _. rw same f), Relaxes-absent event s is (alone event j is w e))
  | inr e ↦
      ((λ k _. absurd (ground arith)), Relaxes-of-row event s is i (ground arith) (ground arith) f)
]

-- Only outcomes are recorded.
abbrev pub OutcomeOnly : Text → Status → Type 0
OutcomeOnly event s = in_flight s ≡ false

module _ (env : Env) where
  Step-gate :
      (rows rows' : List Intent)
      → distinct (event_ids rows) ≡ true
      → gate rows ≡ true
      → Step env OutcomeOnly rows rows'
      → gate rows' ≡ true
  unfolding new_intent in_flight
  Step-gate rows rows' w g (begins now event d u c new free) =
      gate-append d _ rows refl refl (any-of-keep (blocks d) rows free) g
  Step-gate rows rows' w g (authorizes now event d i found exact) =
      gate-set_status event remote_authorized _ rows
        (Relaxes-of-row event remote_authorized rows i w found (claims-in_flight event d i exact)) g
  Step-gate rows rows' w g (marks now event s i m found) =
      gate-set_status event s _ rows (Relaxes-decided event s rows m) g
  Step-gate rows rows' w g (resolves now event i found may) =
      gate-set_status event resolved_by_owner _ rows
        (Relaxes-decided event resolved_by_owner rows refl) g

  Reach-gate :
      (rows rows' : List Intent)
      → Wellformed env rows
      → gate rows ≡ true
      → Reach env OutcomeOnly rows rows'
      → Wellformed env rows' × (gate rows' ≡ true)
  Reach-gate rows rows' w g here = (w, g)
  Reach-gate rows rows'' w g (next {rows'} r s) =
      let (w', g') = Reach-gate rows rows' w g r in
      (Step-Wellformed env OutcomeOnly rows' rows'' w' s, Step-gate rows' rows'' w'.unique g' s)

  -- While callers record only decided outcomes, no sequence of calls leaves two undecided intents
  -- from one sender to one recipient, and the store stays readable.
  pub run-gate :
      (cs : List Call) (disk : Disk) (rows : List Intent)
      → All (Admits OutcomeOnly) cs
      → intents env disk ≡ ok rows
      → gate rows ≡ true
      → (rows' : List Intent) × (intents env (run env cs disk) ≡ ok rows') × (gate rows' ≡ true)
  run-gate cs disk rows a h g =
      let (rows', h', r) = run-Reach env OutcomeOnly cs disk rows a h in
      (rows', h', (Reach-gate rows rows' (intents-Wellformed env disk rows h) g r).1)
