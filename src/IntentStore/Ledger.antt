-- ===== src/IntentStore/Ledger.antt =====
-- The abstract store: a list of rows, and the steps that the operations may take on it.
use mathlib.Core.List.{map-append}
use cross_agent_chat.Prelude.{
  Bool-cases, keep, any, All, All-append, ℕ, ◌+◌, ◌≤◌, ◌≡◌, refl, sym, ◌∙◌, ◌⊎◌, inl, inr, true,
  false, Option, none, some, List, [], ◌∷◌, ◌++◌, arith,
}
use cross_agent_chat.Core.{
  Status, remote_authorized, unknown_delivery, resolved_by_owner, ok, Env, ok-injective,
}
use cross_agent_chat.Core.Intent.{Intent}
use cross_agent_chat.Core.Intent.RoundTrip.{IsValid}
use cross_agent_chat.IntentStore.{
  event_ids, abandoned_after, in_flight, Delivery, blocks, claims, has_id, set_status,
  refuse_unresolved, new_intent, check_delivery, event_identifier, resolve_row,
}
use cross_agent_chat.IntentStore.Reading.{Wellformed}
use cross_agent_chat.IntentStore.Rows.{
  row_of, restamp, any-member, absent-of-row_of, event_ids-set_status, distinct-snoc,
}
use cross_agent_chat.Text.{Text, uuid_re}
use cross_agent_chat.Core.Ids.{valid_uuid_lem, parse_timestamp, valid_name_lem}

module _ (env : Env) where
  -- `resolve_by_owner` may write over a row in this status.
  abbrev pub Resolvable : ℕ → Intent → Type 0
  Resolvable now i =
      (i.status ≡ unknown_delivery)
      ⊎ ((in_flight i.status ≡ true)
          × ((t : ℕ) × (env.parse_time i.timestamp ≡ some t) × (t + abandoned_after ≤ now)))

  -- One write of the store, with what the operation checked before it. `Marked` restricts the
  -- outcomes that callers record with `mark`.
  pub data Step (Marked : Text → Status → Type 0) (rows : List Intent) : List Intent → Type 0 where
    begins :
        (now : ℕ) (event : Text) (d : Delivery)
        → uuid_re event ≡ true
        → check_delivery env d ≡ ok tt
        → row_of event rows ≡ none
        → keep (blocks d) rows ≡ []
        → Step Marked rows (rows ++ new_intent env now event d ∷ [])
    authorizes :
        (now : ℕ) (event : Text) (d : Delivery) (i : Intent)
        → row_of event rows ≡ some i
        → claims event d i ≡ true
        → Step Marked rows (set_status event remote_authorized (env.iso_time now) rows)
    marks :
        (now : ℕ) (event : Text) (s : Status) (i : Intent)
        → Marked event s
        → row_of event rows ≡ some i
        → Step Marked rows (set_status event s (env.iso_time now) rows)
    resolves :
        (now : ℕ) (event : Text) (i : Intent)
        → row_of event rows ≡ some i
        → Resolvable now i
        → Step Marked rows (set_status event resolved_by_owner (env.iso_time now) rows)

  pub refuse_unresolved-ok :
      (now : ℕ) (is : List Intent) → refuse_unresolved env now is ≡ ok tt → is ≡ []
  unfolding refuse_unresolved
  refuse_unresolved-ok now [] h = refl
  refuse_unresolved-ok now (i ∷ is) h = absurd (ground arith)

  pub resolve_row-Resolvable :
      (now : ℕ) (event : Text) (i : Intent)
      → resolve_row env now event i ≡ ok true
      → Resolvable now i
  unfolding resolve_row parse_timestamp in_flight
  resolve_row-Resolvable now event i h = ground arith

  restamp-IsValid :
      (now : ℕ) (s : Status) (i : Intent)
      → IsValid env i
      → IsValid env (restamp s (env.iso_time now) i)
  restamp-IsValid now s i v = ground (arith, env.parse-iso_time now)

  set_status-IsValid :
      (now : ℕ) (event : Text) (s : Status) (rows : List Intent)
      → All (IsValid env) rows
      → All (IsValid env) (set_status event s (env.iso_time now) rows)
  unfolding set_status
  set_status-IsValid now event s [] h = tt
  set_status-IsValid now event s (i ∷ is) h = elim (Bool-cases (has_id event i)) [
    | inl e ↦ rw e (restamp-IsValid now s i h.0, set_status-IsValid now event s is h.1)
    | inr e ↦ rw e (h.0, set_status-IsValid now event s is h.1)
  ]

  pub set_status-Wellformed :
      (now : ℕ) (event : Text) (s : Status) (rows : List Intent)
      → Wellformed env rows
      → Wellformed env (set_status event s (env.iso_time now) rows)
  set_status-Wellformed now event s rows w = record {
    valid = set_status-IsValid now event s rows w.valid;
    unique = rw event_ids-set_status w.unique;
  }

  check_delivery-IsValid :
      (now : ℕ) (event : Text) (d : Delivery)
      → uuid_re event ≡ true
      → check_delivery env d ≡ ok tt
      → IsValid env (new_intent env now event d)
  unfolding check_delivery new_intent
  check_delivery-IsValid now event d h k =
      let k' =
        rw
          (
            valid_uuid_lem d.source_generation,
            valid_uuid_lem d.target_generation,
            valid_name_lem env,
          )
          at k in
      ground (arith, env.parse-iso_time now)

  pub begins-Wellformed :
      (now : ℕ) (event : Text) (d : Delivery) (rows : List Intent)
      → Wellformed env rows
      → uuid_re event ≡ true
      → check_delivery env d ≡ ok tt
      → any (has_id event) rows ≡ false
      → Wellformed env (rows ++ new_intent env now event d ∷ [])
  unfolding new_intent
  begins-Wellformed now event d rows w h k a = record {
    valid = All-append (IsValid env) rows _ w.valid (check_delivery-IsValid now event d h k, tt);
    unique =
        rw map-append (distinct-snoc _ (event_ids rows) w.unique (sym (any-member event rows) ∙ a));
  }

  pub event_identifier-uuid_re :
      (fresh : Text) (event_id : Option Text) (event : Text)
      → uuid_re fresh ≡ true
      → event_identifier env fresh event_id ≡ ok event
      → uuid_re event ≡ true
  unfolding event_identifier
  event_identifier-uuid_re fresh none event f h = rw (← ok-injective h) f
  event_identifier-uuid_re fresh (some e) event f h = ground (arith, valid_uuid_lem e "event id")

  pub Step-Wellformed :
      (Marked : Text → Status → Type 0) (rows rows' : List Intent)
      → Wellformed env rows
      → Step Marked rows rows'
      → Wellformed env rows'
  Step-Wellformed Marked rows rows' w (begins now event d u c new free) =
      begins-Wellformed now event d rows w u c (absent-of-row_of event rows new)
  Step-Wellformed Marked rows rows' w (authorizes now event d i found exact) =
      set_status-Wellformed now event remote_authorized rows w
  Step-Wellformed Marked rows rows' w (marks now event s i m found) =
      set_status-Wellformed now event s rows w
  Step-Wellformed Marked rows rows' w (resolves now event i found may) =
      set_status-Wellformed now event resolved_by_owner rows w
