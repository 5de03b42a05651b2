-- ===== src/IntentStore/History.antt =====
-- What may become of one event's row over the steps of the store.
use cross_agent_chat.Prelude.{
  Bool-cases, All, ℕ, ◌≡◌, refl, ap, ◌∙◌, subst, ◌≢◌, ◌⊎◌, inl, inr, Bool, true, false, some, List,
  arith,
}
use cross_agent_chat.Core.{
  Status, pending, remote_authorized, pre_effect_rejected, transport_accepted, unknown_delivery,
  resolved_by_owner, ok, Env,
}
use cross_agent_chat.Core.Intent.{Intent}
use cross_agent_chat.IntentStore.{
  Disk, in_flight, is_pending, Delivery, claims, set_status, intents,
}
use cross_agent_chat.IntentStore.Ledger.{Resolvable, Step, begins, authorizes, marks, resolves}
use cross_agent_chat.IntentStore.Rows.{row_of, restamp, row_of-append, row_of-set_status}
use cross_agent_chat.Text.{Text, ◌==◌, ==-sound}
use cross_agent_chat.IntentStore.Refinement.{
  Call, Admits, AnyOutcome, run, Reach, here, next, run-Reach,
}

-- Not a known result, and not yet disposed of by the owner.
unfoldable pub undecided : Status → Bool
undecided pending = true
undecided remote_authorized = true
undecided unknown_delivery = true
undecided _ = false

-- The moves of an event's status that a write may make.
abbrev pub Allowed : (Text → Status → Type 0) → Text → Status → Status → Type 0
Allowed Marked event s s' =
    ((s ≡ pending) × (s' ≡ remote_authorized))
    ⊎ ((undecided s ≡ true) × (s' ≡ resolved_by_owner))
    ⊎ Marked event s'

-- The same event, with a status that may follow and a new time.
pub record Moved (Marked : Text → Status → Type 0) (event : Text) (i i' : Intent) : Type 0 where
  pub same : i' ≡ restamp i'.status i'.timestamp i
  pub moves : Allowed Marked event i.status i'.status

abbrev pub Follows : (Text → Status → Type 0) → Text → Intent → Intent → Type 0
Follows Marked event i i' = (i' ≡ i) ⊎ Moved Marked event i i'

module _ (env : Env) (Marked : Text → Status → Type 0) where
  row_of-restatused :
      (key event : Text) (s : Status) (time : Text) (rows : List Intent) (i : Intent)
      → row_of key rows ≡ some i
      → (event ≡ key → Allowed Marked key i.status s)
      → (i' : Intent) × (row_of key (set_status event s time rows) ≡ some i')
        × Follows Marked key i i'
  row_of-restatused key event s time rows i h f = elim (Bool-cases (event == key)) [
    | inl e ↦ (
      restamp s time i,
      rw (row_of-set_status, e, h),
      inr (record { same = refl; moves = f (==-sound event key e) }),
    )
    | inr e ↦ (i, rw (row_of-set_status, e, h), inl refl)
  ]

  same_row :
      (rows : List Intent) (event key : Text) (i j : Intent)
      → event ≡ key
      → row_of event rows ≡ some j
      → row_of key rows ≡ some i
      → j ≡ i
  same_row rows event key i j e found h = cc (ap (λ (k : Text). row_of k rows) e)

  Resolvable-undecided : (now : ℕ) (i : Intent) → Resolvable env now i → undecided i.status ≡ true
  unfolding undecided in_flight
  Resolvable-undecided now i may = ground arith

  claims-pending :
      (event : Text) (d : Delivery) (i : Intent) → claims event d i ≡ true → i.status ≡ pending
  unfolding claims is_pending
  claims-pending event d i h = ground arith

  -- A step keeps every event's row, with the same sender, recipient and digest, and its status
  -- moves as it may.
  pub Step-Follows :
      (rows rows' : List Intent) (key : Text) (i : Intent)
      → Step env Marked rows rows'
      → row_of key rows ≡ some i
      → (i' : Intent) × (row_of key rows' ≡ some i') × Follows Marked key i i'
  Step-Follows rows rows' key i (begins now event d u c new free) h =
      (i, rw (row_of-append, h), inl refl)
  Step-Follows rows rows' key i (authorizes now event d j found exact) h =
      row_of-restatused key event remote_authorized _ rows i h (λ e.
        let exact' =
          subst (λ (k : Intent). claims event d k ≡ true) (same_row rows event key i j e found h)
            exact in
        inl (claims-pending event d i exact', refl))
  Step-Follows rows rows' key i (marks now event s j m found) h =
      row_of-restatused key event s _ rows i h
        (λ e. inr (inr (subst (λ (k : Text). Marked k s) e m)))
  Step-Follows rows rows' key i (resolves now event j found may) h =
      row_of-restatused key event resolved_by_owner _ rows i h (λ e.
        let may' = subst (Resolvable env now) (same_row rows event key i j e found h) may in
        inr (inl (Resolvable-undecided now i may', refl)))

  -- A result of an event: its outcome was observed.
  abbrev pub IsResult : Status → Type 0
  IsResult s = (s ≡ transport_accepted) ⊎ (s ≡ pre_effect_rejected)

  Follows-result :
      (event : Text) (i i' : Intent)
      → ((s : Status) → ¬ Marked event s)
      → IsResult i.status
      → Follows Marked event i i'
      → i' ≡ i
  unfolding undecided
  Follows-result event i i' unmarked res (inl e) = e
  Follows-result event i i' unmarked res (inr moved) = absurd (go res moved.moves)
    where
      go : IsResult i.status → Allowed Marked event i.status i'.status → ⊥
      go r (inl (p, _)) = ground arith
      go r (inr (inl (u, _))) = ground arith
      go r (inr (inr m)) = unmarked i'.status m

  -- A result that is recorded for an event stays, whatever is done to the store, unless another
  -- outcome is recorded for that event.
  pub Reach-result :
      (rows rows' : List Intent) (event : Text) (i : Intent)
      → ((s : Status) → ¬ Marked event s)
      → row_of event rows ≡ some i
      → IsResult i.status
      → Reach env Marked rows rows'
      → row_of event rows' ≡ some i
  Reach-result rows rows' event i unmarked found res here = found
  Reach-result rows rows'' event i unmarked found res (next {rows'} r s) =
      let before = Reach-result rows rows' event i unmarked found res r in
      let (i', after_step, follows) = Step-Follows rows' rows'' event i s before in
      after_step ∙ ap some (Follows-result event i i' unmarked res follows)

  -- The identity of an event is never lost or changed.
  pub Reach-row_of :
      (rows rows' : List Intent) (event : Text) (i : Intent)
      → row_of event rows ≡ some i
      → Reach env Marked rows rows'
      → (i' : Intent) × (row_of event rows' ≡ some i') × (i' ≡ restamp i'.status i'.timestamp i)
  Reach-row_of rows rows' event i found here = (i, found, refl)
  Reach-row_of rows rows'' event i found (next {rows'} r s) =
      let (i', found', same) = Reach-row_of rows rows' event i found r in
      let (i'', found'', follows) = Step-Follows rows' rows'' event i' s found' in
      (i'', found'', go i' i'' same follows)
    where
      go :
          (i' i'' : Intent)
          → i' ≡ restamp i'.status i'.timestamp i
          → Follows Marked event i' i''
          → i'' ≡ restamp i''.status i''.timestamp i
      go i' i'' same (inl e) = rw e same
      go i' i'' same (inr m) = m.same ∙ ap (restamp i''.status i''.timestamp) same

module _ (env : Env) where
  -- Outcomes of other events only.
  abbrev pub NotOf : Text → Text → Status → Type 0
  NotOf event other s = other ≢ event

  -- A recorded result is final: whatever calls follow, if none of them records another outcome
  -- for the event, its row stays as it is, time included.
  pub run-result :
      (cs : List Call) (disk : Disk) (rows : List Intent) (event : Text) (i : Intent)
      → All (Admits (NotOf event)) cs
      → intents env disk ≡ ok rows
      → row_of event rows ≡ some i
      → (i.status ≡ transport_accepted) ⊎ (i.status ≡ pre_effect_rejected)
      → (rows' : List Intent) × (intents env (run env cs disk) ≡ ok rows')
        × (row_of event rows' ≡ some i)
  run-result cs disk rows event i a h found res =
      let (rows', h', r) = run-Reach env (NotOf event) cs disk rows a h in
      (rows', h', Reach-result env (NotOf event) rows rows' event i (λ s m. m refl) found res r)

  -- No sequence of calls loses an event, or changes its sender, recipient, alias or digest.
  pub run-row_of :
      (cs : List Call) (disk : Disk) (rows : List Intent) (event : Text) (i : Intent)
      → All (Admits AnyOutcome) cs
      → intents env disk ≡ ok rows
      → row_of event rows ≡ some i
      → (rows' : List Intent) × (i' : Intent) × (intents env (run env cs disk) ≡ ok rows')
        × (row_of event rows' ≡ some i')
        × (i' ≡ restamp i'.status i'.timestamp i)
  run-row_of cs disk rows event i a h found =
      let (rows', h', r) = run-Reach env AnyOutcome cs disk rows a h in
      let (i', found', same) = Reach-row_of env AnyOutcome rows rows' event i found r in
      (rows', i', h', found', same)
