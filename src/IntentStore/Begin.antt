-- ===== src/IntentStore/Begin.antt =====
-- `begin_identity`: when it starts an intent, when it refuses and which intent it blames.
use cross_agent_chat.Prelude.{
  leb, if◌then◌else◌, is_some-cases, keep, any, All, All-keep, keep_none, some_kept, All-kept, ℕ,
  ◌+◌, ◌≡◌, refl, ◌≢◌, true, false, Option, List, [], ◌∷◌, ◌++◌,
}
use cross_agent_chat.Core.{Error, message, unresolved, abandoned, err, ok, Env}
use cross_agent_chat.Core.Intent.{Intent}
use cross_agent_chat.IntentStore.{
  Disk, state_lock, abandoned_after, Delivery, blocks, has_id, intents, store, refuse_unresolved,
  new_intent, check_delivery, event_identifier, begin_identity,
}
use cross_agent_chat.Core.Intent.RoundTrip.{IsValid}
use cross_agent_chat.Core.Ids.{parse_timestamp}
use cross_agent_chat.IntentStore.Reading.{intents-Wellformed}
use cross_agent_chat.Text.{Text}
use cross_agent_chat.IntentStore.Youngest.{IsYoungest, youngest_lem}

module _ (env : Env) where
  refused_by :
      (now : ℕ) (d : Delivery) (is : List Intent)
      → is ≢ []
      → All (λ i. blocks d i ≡ true) is
      → All (IsValid env) is
      → (b : Intent) × (t : ℕ) × (refuse_unresolved env now is
          ≡ err (
              if leb (t + abandoned_after) now
              then abandoned b.event_id b.status
              else unresolved b.event_id b.status))
        × (blocks d b ≡ true)
        × IsYoungest env is b t
  unfolding refuse_unresolved parse_timestamp
  refused_by now d [] n ps v = absurd (n refl)
  refused_by now d (i ∷ is) n ps v =
      let (t, et) = is_some-cases (env.parse_time i.timestamp) v.0.timed in
      let (b, u, found, pb, y, le) =
        youngest_lem env (λ j. blocks d j ≡ true) i t is et ps.0 ps.1 v.1 in
      (b, u, rw (et, found), pb, y)

  -- The store, its lock and the arguments are in order.
  pub record Ready (fresh : Text) (event_id : Option Text) (d : Delivery) (disk : Disk)
      (event : Text) (rows : List Intent) : Type 0 where
    pub root : state_lock disk ≡ ok tt
    pub reads : intents env disk ≡ ok rows
    pub named : event_identifier env fresh event_id ≡ ok event
    pub checked : check_delivery env d ≡ ok tt

  -- With the store and the arguments in order, a new event between a pair with nothing in flight
  -- is recorded at the end of the rows.
  pub begin_identity-new :
      (now : ℕ) (fresh : Text) (event_id : Option Text) (d : Delivery) (disk : Disk) (event : Text)
      (rows : List Intent)
      → Ready fresh event_id d disk event rows
      → any (has_id event) rows ≡ false
      → any (blocks d) rows ≡ false
      → begin_identity env now fresh event_id d disk
        ≡ ok (event, store env (rows ++ new_intent env now event d ∷ []) disk)
  unfolding begin_identity refuse_unresolved
  begin_identity-new now fresh event_id d disk event rows r new free =
      rw (r.named, r.checked, r.root, r.reads, new, keep_none (blocks d) rows free)

  -- An event id that is in use is refused.
  pub begin_identity-used :
      (now : ℕ) (fresh : Text) (event_id : Option Text) (d : Delivery) (disk : Disk) (event : Text)
      (rows : List Intent)
      → Ready fresh event_id d disk event rows
      → any (has_id event) rows ≡ true
      → begin_identity env now fresh event_id d disk ≡ err (message "event id is unavailable")
  unfolding begin_identity
  begin_identity-used now fresh event_id d disk event rows r used =
      rw (r.named, r.checked, r.root, r.reads, used)

  begin_identity-refused :
      (now : ℕ) (fresh : Text) (event_id : Option Text) (d : Delivery) (disk : Disk) (event : Text)
      (rows : List Intent) (e : Error)
      → Ready fresh event_id d disk event rows
      → any (has_id event) rows ≡ false
      → refuse_unresolved env now (keep (blocks d) rows) ≡ err e
      → begin_identity env now fresh event_id d disk ≡ err e
  unfolding begin_identity
  begin_identity-refused now fresh event_id d disk event rows e r new refused =
      rw (r.named, r.checked, r.root, r.reads, new, refused)

  -- With the store and the arguments in order, a new event between a pair with an intent in flight
  -- is refused. The refusal quotes the id and the status of one of the rows, the first of the
  -- youngest among those in flight between the pair: those before it are older, and those after it
  -- are no younger. It calls this row abandoned exactly when it is ten minutes old.
  pub begin_identity-blocked :
      (now : ℕ) (fresh : Text) (event_id : Option Text) (d : Delivery) (disk : Disk) (event : Text)
      (rows : List Intent)
      → Ready fresh event_id d disk event rows
      → any (has_id event) rows ≡ false
      → any (blocks d) rows ≡ true
      → (b : Intent) × (t : ℕ) × (begin_identity env now fresh event_id d disk
          ≡ err (
              if leb (t + abandoned_after) now
              then abandoned b.event_id b.status
              else unresolved b.event_id b.status))
        × (blocks d b ≡ true)
        × IsYoungest env (keep (blocks d) rows) b t
  begin_identity-blocked now fresh event_id d disk event rows r new blocked =
      let v = (intents-Wellformed env disk rows r.reads).valid in
      let (b, t, refused, in_way, y) =
        refused_by now d (keep (blocks d) rows) (some_kept (blocks d) rows blocked)
          (All-kept (blocks d) rows) (All-keep (IsValid env) (blocks d) rows v) in
      (b, t, begin_identity-refused now fresh event_id d disk event rows _ r new refused, in_way, y)
