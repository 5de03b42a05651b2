-- ===== src/IntentStore/Refinement.antt =====
-- Every operation of the store that succeeds is a step on the rows that the file reads as, and
-- one that is refused or declines leaves them.
use cross_agent_chat.Prelude.{
  if◌then◌else◌, keep, All, ℕ, ◌≡◌, refl, sym, ◌⊎◌, inl, inr, Bool, true, false, Option, some, List,
  [], ◌∷◌, ◌++◌, arith,
}
use cross_agent_chat.Core.{
  Status, remote_authorized, resolved_by_owner, Error, Result, ok, err, Env,
}
use cross_agent_chat.Core.Intent.{Intent}
use cross_agent_chat.IntentStore.{
  Disk, Delivery, blocks, set_status, require_one, intents, store, new_intent, begin_identity,
  claim_remote_authorization, mark, resolve_row, resolve_by_owner,
}
use cross_agent_chat.IntentStore.Reading.{Wellformed, intents-store, intents-Wellformed}
use cross_agent_chat.IntentStore.Ledger.{
  Step, begins, authorizes, marks, resolves, refuse_unresolved-ok, resolve_row-Resolvable,
  set_status-Wellformed, begins-Wellformed, event_identifier-uuid_re,
}
use cross_agent_chat.IntentStore.Rows.{row_of, row_of-none, require_one-row_of, claimed_row}
use cross_agent_chat.Text.{Text, uuid_re}
use cross_agent_chat.IntentStore.Steps.{
  begin_identity-ok, claim_remote_authorization-ok, mark-ok, resolve_by_owner-ok,
}

-- One call of the store by a process of this state root, with the time at which it runs and, for
-- `begin_identity`, the identifier that `uuid4` would give.
pub data Call : Type 0 where
  begin : ℕ → Text → Option Text → Delivery → Call
  claim : ℕ → Text → Delivery → Call
  record_outcome : ℕ → Text → Status → Call
  resolve : ℕ → Text → Call

-- What is asked of a call: `uuid4` gives a UUID, and an outcome that is recorded is in `Marked`.
abbrev pub Admits : (Text → Status → Type 0) → Call → Type 0
Admits Marked (begin now fresh event_id d) = uuid_re fresh ≡ true
Admits Marked (record_outcome now event s) = Marked event s
Admits Marked _ = Unit

-- Any outcome may be recorded.
abbrev pub AnyOutcome : Text → Status → Type 0
AnyOutcome event s = Unit

-- The state root after a call; a call that is rejected leaves it.
abbrev pub after {ℓ} : {A : Type ℓ} → Disk → Result (A × Disk) → Disk
after disk (ok (a, disk')) = disk'
after disk (err e) = disk

abbrev pub after_mark : Disk → Result Disk → Disk
after_mark disk (ok disk') = disk'
after_mark disk (err e) = disk

-- The rows after are those before, or one step on.
abbrev pub Moves : Env → (Text → Status → Type 0) → List Intent → List Intent → Type 0
Moves env Marked rows rows' = (rows' ≡ rows) ⊎ Step env Marked rows rows'

Result-cases {ℓ} :
    {A : Type ℓ} (r : Result A) → ((a : A) × (r ≡ ok a)) ⊎ ((e : Error) × (r ≡ err e))
Result-cases (ok a) = inl (a, refl)
Result-cases (err e) = inr (e, refl)

module _ (env : Env) where
  unfoldable pub perform : Call → Disk → Disk
  perform (begin now fresh event_id d) disk =
      after disk (begin_identity env now fresh event_id d disk)
  perform (claim now event d) disk = after disk (claim_remote_authorization env now event d disk)
  perform (record_outcome now event s) disk = after_mark disk (mark env now event s disk)
  perform (resolve now event) disk = after disk (resolve_by_owner env now event disk)

  unfoldable pub run : List Call → Disk → Disk
  run [] disk = disk
  run (c ∷ cs) disk = run cs (perform c disk)

module _ (env : Env) (Marked : Text → Status → Type 0) where
  abbrev Reads : Disk → List Intent → Type 0
  Reads disk rows =
      (rows' : List Intent) × (intents env disk ≡ ok rows') × Moves env Marked rows rows'

  module _ (disk : Disk) (rows : List Intent) (reads : intents env disk ≡ ok rows) where
    wellformed : Wellformed env rows
    wellformed = intents-Wellformed env disk rows reads

    unchanged : Reads disk rows
    unchanged = (rows, reads, inl refl)

    row_of_required :
        (event : Text) (i : Intent) → require_one rows event ≡ ok i → row_of event rows ≡ some i
    row_of_required event i h = ground (arith, require_one-row_of event rows wellformed.unique)

    -- A status that is set is read back.
    restatused :
        (now : ℕ) (event : Text) (s : Status)
        → Step env Marked rows (set_status event s (env.iso_time now) rows)
        → Reads (store env (set_status event s (env.iso_time now) rows) disk) rows
    restatused now event s step = (
      set_status event s (env.iso_time now) rows,
      intents-store env _ disk (set_status-Wellformed env now event s rows wellformed),
      inr step,
    )

    begin_kept :
        (now : ℕ) (fresh : Text) (event_id : Option Text) (d : Delivery) (event : Text)
        (disk' : Disk)
        → uuid_re fresh ≡ true
        → begin_identity env now fresh event_id d disk ≡ ok (event, disk')
        → Reads disk' rows
    begin_kept now fresh event_id d event disk' f h =
        let (named, checked, new, free, written) =
          begin_identity-ok env disk rows reads now fresh event_id d event disk' h in
        let id = event_identifier-uuid_re env fresh event_id event f named in
        rw written (
          rows ++ new_intent env now event d ∷ [],
          intents-store env _ disk
              (begins-Wellformed env now event d rows wellformed id checked new),
          inr (
              begins now event d id checked (row_of-none event rows new)
                (refuse_unresolved-ok env now (keep (blocks d) rows) free)),
        )

    claim_kept :
        (now : ℕ) (event : Text) (d : Delivery) (claimed : Bool) (disk' : Disk)
        → claim_remote_authorization env now event d disk ≡ ok (claimed, disk')
        → Reads disk' rows
    claim_kept now event d false disk' h =
        let (_, same) =
          claim_remote_authorization-ok env disk rows reads now event d disk' false h in
        rw same unchanged
    claim_kept now event d true disk' h =
        let (one, written) =
          claim_remote_authorization-ok env disk rows reads now event d disk' true h in
        let (i, here, exact) = claimed_row event d rows wellformed.unique (sym one) in
        rw written (restatused now event remote_authorized (authorizes now event d i here exact))

    mark_kept :
        (now : ℕ) (event : Text) (s : Status) (disk' : Disk)
        → Marked event s
        → mark env now event s disk ≡ ok disk'
        → Reads disk' rows
    mark_kept now event s disk' m h =
        let (i, found, written) = mark-ok env disk rows reads now event s disk' h in
        rw written (restatused now event s (marks now event s i m (row_of_required event i found)))

    resolve_kept :
        (now : ℕ) (event : Text) (prior : Status) (disk' : Disk)
        → resolve_by_owner env now event disk ≡ ok (prior, disk')
        → Reads disk' rows
    resolve_kept now event prior disk' h =
        let (i, writes, found, may, _, written) =
          resolve_by_owner-ok env disk rows reads now event prior disk' h in
        go i writes found may written
      where
        go :
            (i : Intent) (writes : Bool)
            → require_one rows event ≡ ok i
            → resolve_row env now event i ≡ ok writes
            → disk' ≡ (
                if writes
                then store env (set_status event resolved_by_owner (env.iso_time now) rows) disk
                else disk)
            → Reads disk' rows
        go i false found may written = rw written unchanged
        go i true found may written = rw written (
            restatused now event resolved_by_owner (
              resolves now event i (row_of_required event i found)
                (resolve_row-Resolvable env now event i may)))

    -- From a readable file every call leads to a readable file, whose rows are those before or
    -- one step on; a rejected call leaves the disk as it was.
    pub perform-Reads : (c : Call) → Admits Marked c → Reads (perform env c disk) rows
    unfolding perform
    perform-Reads (begin now fresh event_id d) f =
        elim (Result-cases (begin_identity env now fresh event_id d disk)) [
          | inl ((event, disk'), e) ↦ rw e (begin_kept now fresh event_id d event disk' f e)
          | inr (_, e) ↦ rw e unchanged
        ]
    perform-Reads (claim now event d) f =
        elim (Result-cases (claim_remote_authorization env now event d disk)) [
          | inl ((claimed, disk'), e) ↦ rw e (claim_kept now event d claimed disk' e)
          | inr (_, e) ↦ rw e unchanged
        ]
    perform-Reads (record_outcome now event s) f = elim (Result-cases (mark env now event s disk)) [
      | inl (disk', e) ↦ rw e (mark_kept now event s disk' f e)
      | inr (_, e) ↦ rw e unchanged
    ]
    perform-Reads (resolve now event) f =
        elim (Result-cases (resolve_by_owner env now event disk)) [
          | inl ((prior, disk'), e) ↦ rw e (resolve_kept now event prior disk' e)
          | inr (_, e) ↦ rw e unchanged
        ]

  -- Any number of steps.
  pub data Reach (rows : List Intent) : List Intent → Type 0 where
    here : Reach rows rows
    next :
        {rows' rows'' : List Intent}
        → Reach rows rows'
        → Step env Marked rows' rows''
        → Reach rows rows''

  pub Reach-trans :
      {rows rows' rows'' : List Intent} → Reach rows rows' → Reach rows' rows'' → Reach rows rows''
  Reach-trans r here = r
  Reach-trans r (next q s) = next (Reach-trans r q) s

  Moves-Reach : (rows rows' : List Intent) → Moves env Marked rows rows' → Reach rows rows'
  Moves-Reach rows rows' (inl e) = rw e here
  Moves-Reach rows rows' (inr s) = next here s

  -- From a readable file any sequence of calls, successful or not, leads to a readable file, and
  -- its rows are reached from those before by the steps of the ledger.
  pub run-Reach :
      (cs : List Call) (disk : Disk) (rows : List Intent)
      → All (Admits Marked) cs
      → intents env disk ≡ ok rows
      → (rows' : List Intent) × (intents env (run env cs disk) ≡ ok rows') × Reach rows rows'
  unfolding run
  run-Reach [] disk rows f h = (rows, h, here)
  run-Reach (c ∷ cs) disk rows f h =
      let (rows₁, h₁, m) = perform-Reads disk rows h c f.0 in
      let (rows₂, h₂, r) = run-Reach cs (perform env c disk) rows₁ f.1 h₁ in
      (rows₂, h₂, Reach-trans (Moves-Reach rows rows₁ m) r)
