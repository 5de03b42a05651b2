-- ===== src/IntentStore/Resolve.antt =====
-- `mark` and `resolve_by_owner`: what a recorded outcome and an owner's disposition change.
use cross_agent_chat.Prelude.{
  if◌then◌else◌, Option-cases, ℕ, ◌≡◌, refl, sym, ◌∙◌, subst, ◌≢◌, ◌↔◌, ◌⊎◌, inl, inr, Bool, true,
  false, none, some, List, arith,
}
use cross_agent_chat.Core.{Status, resolved_by_owner, message, err, ok, Env}
use cross_agent_chat.Core.Intent.{Intent}
use cross_agent_chat.IntentStore.{
  Disk, state_lock, event_ids, in_flight, set_status, require_one, intents, store, mark,
  resolve_row, resolve_by_owner,
}
use cross_agent_chat.IntentStore.Rows.{
  row_of, restamp, event_ids-set_status, row_of-set_status, require_one-row_of,
}
use cross_agent_chat.Text.{Text, ==_refl, ne-false, uuid_re}
use cross_agent_chat.Core.Ids.{valid_uuid_lem, parse_timestamp}
use cross_agent_chat.IntentStore.Ledger.{Resolvable, resolve_row-Resolvable, set_status-Wellformed}
use cross_agent_chat.IntentStore.Reading.{intents-store, intents-Wellformed}
use cross_agent_chat.IntentStore.Steps.{resolve_by_owner-ok}

some-injective' : {i j : Intent} → some i ≡ some j → i ≡ j
some-injective' h = cc

-- One event has the status, and every other row is as it was.
pub record SetsOnly (event : Text) (s : Status) (rows rows' : List Intent) : Type 0 where
  pub row : (i : Intent) × (row_of event rows' ≡ some i) × (i.status ≡ s)
  pub others : (key : Text) → key ≢ event → row_of key rows' ≡ row_of key rows
  pub ids : event_ids rows' ≡ event_ids rows

module _ (env : Env) where
  mark-absent :
      (now : ℕ) (event : Text) (s : Status) (disk : Disk) (rows : List Intent)
      → uuid_re event ≡ true
      → state_lock disk ≡ ok tt
      → intents env disk ≡ ok rows
      → row_of event rows ≡ none
      → mark env now event s disk ≡ err (message "intent is unavailable")
  unfolding mark
  mark-absent now event s disk rows u lock reads e = rw (
    valid_uuid_lem event,
    u,
    lock,
    reads,
    require_one-row_of event rows (intents-Wellformed env disk rows reads).unique,
    e,
  )

  mark-present :
      (now : ℕ) (event : Text) (s : Status) (disk : Disk) (rows : List Intent) (i : Intent)
      → uuid_re event ≡ true
      → state_lock disk ≡ ok tt
      → intents env disk ≡ ok rows
      → row_of event rows ≡ some i
      → mark env now event s disk ≡ ok (store env (set_status event s (env.iso_time now) rows) disk)
  unfolding mark
  mark-present now event s disk rows i u lock reads e = rw (
    valid_uuid_lem event,
    u,
    lock,
    reads,
    require_one-row_of event rows (intents-Wellformed env disk rows reads).unique,
    e,
  )

  set_status-SetsOnly :
      (event : Text) (s : Status) (time : Text) (rows : List Intent) (i : Intent)
      → row_of event rows ≡ some i
      → SetsOnly event s rows (set_status event s time rows)
  set_status-SetsOnly event s time rows i found = record {
    row = (restamp s time i, rw (row_of-set_status, ==_refl, found), refl);
    others = λ key n. rw (row_of-set_status, ne-false event key (λ e. n (sym e)));
    ids = event_ids-set_status event s time rows;
  }

  -- `mark` changes the status of the one event that it names, which must be there, and keeps
  -- every other row; a missing event is refused.
  pub mark_lem :
      (now : ℕ) (event : Text) (s : Status) (disk : Disk) (rows : List Intent)
      → uuid_re event ≡ true
      → state_lock disk ≡ ok tt
      → intents env disk ≡ ok rows
      → ((row_of event rows ≡ none)
          × (mark env now event s disk ≡ err (message "intent is unavailable")))
        ⊎ ((disk' : Disk) × (rows' : List Intent) × (mark env now event s disk ≡ ok disk')
            × (intents env disk' ≡ ok rows')
            × SetsOnly event s rows rows')
  mark_lem now event s disk rows u lock reads =
      let w = intents-Wellformed env disk rows reads in
      elim (Option-cases (row_of event rows)) [
        | inl e ↦ inl (e, mark-absent now event s disk rows u lock reads e)
        | inr (i, e) ↦ inr (
          store env (set_status event s (env.iso_time now) rows) disk,
          set_status event s (env.iso_time now) rows,
          mark-present now event s disk rows i u lock reads e,
          intents-store env _ disk (set_status-Wellformed env now event s rows w),
          set_status-SetsOnly event s (env.iso_time now) rows i e,
        )
      ]

  -- A row that the owner may dispose of, or has.
  abbrev pub Disposable : ℕ → Intent → Type 0
  Disposable now i = (i.status ≡ resolved_by_owner) ⊎ Resolvable env now i

  resolve_row-false :
      (now : ℕ) (event : Text) (i : Intent)
      → resolve_row env now event i ≡ ok false
      → i.status ≡ resolved_by_owner
  unfolding resolve_row parse_timestamp
  resolve_row-false now event i h = ground arith

  resolve_row-Disposable :
      (now : ℕ) (event : Text) (i : Intent) (writes : Bool)
      → resolve_row env now event i ≡ ok writes
      → Disposable now i
  resolve_row-Disposable now event i true h = inr (resolve_row-Resolvable env now event i h)
  resolve_row-Disposable now event i false h = inl (resolve_row-false now event i h)

  Disposable-resolve_row :
      (now : ℕ) (event : Text) (i : Intent)
      → Disposable now i
      → (writes : Bool) × (resolve_row env now event i ≡ ok writes)
  unfolding resolve_row parse_timestamp in_flight
  Disposable-resolve_row now event i (inl e) = (false, rw e)
  Disposable-resolve_row now event i (inr (inl e)) = (true, rw e)
  Disposable-resolve_row now event i (inr (inr (f, (t, timed, old)))) = (true, ground arith)

  resolve-present :
      (now : ℕ) (event : Text) (disk : Disk) (rows : List Intent) (i : Intent) (writes : Bool)
      → uuid_re event ≡ true
      → state_lock disk ≡ ok tt
      → intents env disk ≡ ok rows
      → row_of event rows ≡ some i
      → resolve_row env now event i ≡ ok writes
      → (disk' : Disk) × (resolve_by_owner env now event disk ≡ ok (i.status, disk'))
  unfolding resolve_by_owner
  resolve-present now event disk rows i writes u lock reads e may = (
    if writes
        then store env (set_status event resolved_by_owner (env.iso_time now) rows) disk
        else disk,
    rw (
      valid_uuid_lem event,
      u,
      lock,
      reads,
      require_one-row_of event rows (intents-Wellformed env disk rows reads).unique,
      e,
      may,
    ),
  )

  require_one-found :
      (disk : Disk) (rows : List Intent) (event : Text) (i : Intent)
      → intents env disk ≡ ok rows
      → require_one rows event ≡ ok i
      → row_of event rows ≡ some i
  require_one-found disk rows event i reads h =
      ground (arith, require_one-row_of event rows (intents-Wellformed env disk rows reads).unique)

  -- `resolve_by_owner` succeeds on an event exactly when the owner may dispose of it: an unknown
  -- delivery, an undecided intent that is ten minutes old, or one disposed of before.
  pub resolve_by_owner_iff :
      (now : ℕ) (event : Text) (disk : Disk) (rows : List Intent) (i : Intent)
      → uuid_re event ≡ true
      → state_lock disk ≡ ok tt
      → intents env disk ≡ ok rows
      → row_of event rows ≡ some i
      → ((disk' : Disk) × (resolve_by_owner env now event disk ≡ ok (i.status, disk')))
        ↔ Disposable now i
  resolve_by_owner_iff now event disk rows i u lock reads found = (
    (λ (disk', h).
        let (j, writes, required, may, _, _) =
          resolve_by_owner-ok env disk rows reads now event i.status disk' h in
        let same : j ≡ i =
          some-injective' (sym (require_one-found disk rows event j reads required) ∙ found) in
        subst (Disposable now) same (resolve_row-Disposable now event j writes may)),
    (λ may.
        let (writes, e) = Disposable-resolve_row now event i may in
        resolve-present now event disk rows i writes u lock reads found e),
  )

  disposed :
      (now : ℕ) (event : Text) (disk disk' : Disk) (rows : List Intent) (i : Intent) (writes : Bool)
      → intents env disk ≡ ok rows
      → row_of event rows ≡ some i
      → resolve_row env now event i ≡ ok writes
      → disk' ≡ (
          if writes
          then store env (set_status event resolved_by_owner (env.iso_time now) rows) disk
          else disk)
      → (rows' : List Intent) × (intents env disk' ≡ ok rows')
        × SetsOnly event resolved_by_owner rows rows'
  disposed now event disk disk' rows i true reads found may written = (
    set_status event resolved_by_owner (env.iso_time now) rows,
    rw written (
        intents-store env _ disk (
          set_status-Wellformed env now event resolved_by_owner rows
            (intents-Wellformed env disk rows reads))),
    set_status-SetsOnly event resolved_by_owner (env.iso_time now) rows i found,
  )
  disposed now event disk disk' rows i false reads found may written = (
    rows,
    rw written reads,
    record {
      row = (i, found, resolve_row-false now event i may);
      others = λ key n. refl;
      ids = refl;
    },
  )

  -- What it writes: the event's status becomes `RESOLVED_BY_OWNER`, and no other row changes. The
  -- status that it returns is the one before.
  pub resolve_by_owner_lem :
      (now : ℕ) (event : Text) (disk disk' : Disk) (rows : List Intent) (prior : Status)
      → intents env disk ≡ ok rows
      → resolve_by_owner env now event disk ≡ ok (prior, disk')
      → (i : Intent) × (rows' : List Intent) × (row_of event rows ≡ some i)
        × (prior ≡ i.status)
        × Disposable now i
        × (intents env disk' ≡ ok rows')
        × SetsOnly event resolved_by_owner rows rows'
  resolve_by_owner_lem now event disk disk' rows prior reads h =
      let (i, writes, required, may, returned, written) =
        resolve_by_owner-ok env disk rows reads now event prior disk' h in
      let found = require_one-found disk rows event i reads required in
      let (rows', reads', only) =
        disposed now event disk disk' rows i writes reads found may written in
      (i, rows', found, returned, resolve_row-Disposable now event i writes may, reads', only)
