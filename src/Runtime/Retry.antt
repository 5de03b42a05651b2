-- ===== src/Runtime/Retry.antt =====
-- `_begin_delivery` of an external source: a repeated request.
use cross_agent_chat.Prelude.{
  if◌then◌else◌, All, ℕ, ◌≡◌, refl, sym, ap, ◌∙◌, true, ◌&&◌, Option, none, some, List, [], ◌∷◌,
  ◌++◌, arith,
}
use cross_agent_chat.Core.{Error, message, Result, err, ok, ◌>>◌, require, Env, ok-injective}
use cross_agent_chat.IntentStore.{
  Disk, Delivery, has_id, owned, intents, intent_for_source, new_intent, event_identifier,
  begin_identity,
}
use cross_agent_chat.Text.{Text, ◌==◌, ==_refl, is_hex64, uuid_re}
use cross_agent_chat.IntentStore.Steps.{begin_identity-ok}
use cross_agent_chat.Core.Ids.{valid_uuid_lem}
use cross_agent_chat.Runtime.{same_request, carrying, earlier_request, begin_delivery}
use cross_agent_chat.Core.Intent.{Intent}
use cross_agent_chat.IntentStore.Lookup.{sent_by, intent_for_source_lem, begin_identity-reads}
use cross_agent_chat.IntentStore.Rows.{row_of, restamp, row_of-append}
use cross_agent_chat.IntentStore.Refinement.{Call, Admits, AnyOutcome, run}
use cross_agent_chat.IntentStore.History.{run-row_of}

abbrev used_before : Error
used_before = message "request id was already used with different content or recipient"

sent_by-mine :
    (event key generation : Text) (rows : List Intent) (i : Intent)
    → row_of event rows ≡ some i
    → owned event key generation i ≡ true
    → sent_by event key generation rows ≡ some i
unfolding sent_by
sent_by-mine event key generation rows i found mine = ground (arith, found, mine)

module _ (env : Env) where
  begun :
      (now : ℕ) (d : Delivery) (body event : Text) (disk disk' : Disk)
      → begin_delivery env now true d body event disk ≡ ok (none, disk')
      → (named : Text) × (begin_identity env now event (some event) (carrying env body d) disk
          ≡ ok (named, disk'))
  unfolding begin_delivery earlier_request
  begun now d body event disk disk' h =
      by_store (intent_for_source env event d.source_key d.source_generation disk)
        (begin_identity env now event (some event) (carrying env body d) disk) refl refl
    where
      by_store :
          (m : Result (Option Intent)) (n : Result (Text × Disk))
          → intent_for_source env event d.source_key d.source_generation disk ≡ m
          → begin_identity env now event (some event) (carrying env body d) disk ≡ n
          → (named : Text) × (begin_identity env now event (some event) (carrying env body d) disk
              ≡ ok (named, disk'))
      by_store (err e) n q r = absurd (ground arith)
      by_store (ok (some i)) n q r = absurd (ground arith)
      by_store (ok none) (err e) q r = absurd (ground arith)
      by_store (ok none) (ok (named, kept)) q r =
          let g : kept ≡ disk' = ground arith in (named, r ∙ cc (g))

  -- The recorded event is the one that was asked for.
  named_event :
      (now : ℕ) (event : Text) (d : Delivery) (disk disk' : Disk) (named : Text)
      (rows : List Intent)
      → intents env disk ≡ ok rows
      → uuid_re event ≡ true
      → begin_identity env now event (some event) d disk ≡ ok (named, disk')
      → begin_identity env now event (some event) d disk ≡ ok (event, disk')
  unfolding event_identifier
  named_event now event d disk disk' named rows reads u h =
      let asked =
        (begin_identity-ok env disk rows reads now event (some event) d named disk' h).0 in
      let same : event ≡ named =
        ok-injective (sym (valid_uuid_lem event "event id" ∙ rw u refl) ∙ asked) in
      h ∙ ap (λ (x : Text). ok (x, disk')) (sym same)

  -- Whatever follows the start of an event, its source finds the row that it began.
  found_again :
      (now : ℕ) (d : Delivery) (event : Text) (disk disk' : Disk) (rows : List Intent)
      (cs : List Call)
      → intents env disk ≡ ok rows
      → uuid_re event ≡ true
      → is_hex64 d.source_key ≡ true
      → uuid_re d.source_generation ≡ true
      → begin_identity env now event (some event) d disk ≡ ok (event, disk')
      → All (Admits AnyOutcome) cs
      → (i : Intent) × (i ≡ restamp i.status i.timestamp (new_intent env now event d))
        × (intent_for_source env event d.source_key d.source_generation (run env cs disk')
            ≡ ok (some i))
  unfolding sent_by owned has_id new_intent
  found_again now d event disk disk' rows cs reads u k g h a =
      let (reads', _, absent) =
        begin_identity-reads env now event (some event) d disk disk' event rows u reads h in
      let found : row_of event (rows ++ new_intent env now event d ∷ [])
          ≡ some (new_intent env now event d) =
        simp (row_of-append, absent, has_id, new_intent, ==_refl) in
      let (rows', i, reads'', found', same) =
        run-row_of env cs disk' (rows ++ new_intent env now event d ∷ []) event
          (new_intent env now event d) a reads' found in
      let mine : owned event d.source_key d.source_generation i ≡ true =
        rw same
          (ground (arith, ==_refl event, ==_refl d.source_key, ==_refl d.source_generation)) in
      (
        i,
        same,
        intent_for_source_lem env event d.source_key d.source_generation (run env cs disk') rows' u
              g k reads''
            ∙ ap ok (sent_by-mine event d.source_key d.source_generation rows' i found' mine),
      )

  -- The comparison with a recorded intent, on the fields of the request that began it.
  answered :
      (d d' : Delivery) (body body' : Text) (i : Intent) (kept : Option Intent × Disk)
      → i.target_key ≡ d.target_key
      → i.target_generation ≡ d.target_generation
      → i.source_alias ≡ d.source_alias
      → i.payload_digest ≡ env.sha256 body
      → (require (same_request i (carrying env body' d')) used_before >> ok kept) ≡ (
          if (d.target_key == d'.target_key)
            && (d.target_generation == d'.target_generation)
            && (d.source_alias == d'.source_alias)
            && (env.sha256 body == env.sha256 body')
          then ok kept
          else err used_before)
  unfolding same_request
  answered d d' body body' i kept key version alias digest =
      ground (arith, key, version, alias, digest)

  -- A second request of an external source under an id that it has begun, whatever calls on the
  -- store come between: where it names the same recipient (key and generation) and the same alias
  -- and its body has the same digest, it is answered with the recorded intent, whose fields but
  -- for its status and its time are those that the first request gave it, and otherwise it is
  -- refused. In neither case is the store written. The store reads before the first request, the
  -- event's id, the source's key and its generation are well formed, and the ids that the calls
  -- in between draw are UUIDs.
  pub begin_delivery-begin_delivery :
      (now later : ℕ) (d d' : Delivery) (body body' event : Text) (disk disk' : Disk)
      (rows : List Intent) (cs : List Call)
      → intents env disk ≡ ok rows
      → uuid_re event ≡ true
      → is_hex64 d.source_key ≡ true
      → uuid_re d.source_generation ≡ true
      → begin_delivery env now true d body event disk ≡ ok (none, disk')
      → All (Admits AnyOutcome) cs
      → d'.source_key ≡ d.source_key
      → d'.source_generation ≡ d.source_generation
      → (i : Intent) × (i
          ≡ restamp i.status i.timestamp (new_intent env now event (carrying env body d)))
        × (begin_delivery env later true d' body' event (run env cs disk') ≡ (
            if (d.target_key == d'.target_key)
              && (d.target_generation == d'.target_generation)
              && (d.source_alias == d'.source_alias)
              && (env.sha256 body == env.sha256 body')
            then ok (some i, run env cs disk')
            else err (message "request id was already used with different content or recipient")))
  unfolding begin_delivery earlier_request same_request new_intent
  begin_delivery-begin_delivery now later d d' body body' event disk disk' rows cs reads u k g h a
        source generation =
      let (named, begins) = begun now d body event disk disk' h in
      let (i, same, found) =
        found_again now (carrying env body d) event disk disk' rows cs reads u k g
          (named_event now event (carrying env body d) disk disk' named rows reads u begins) a in
      (
        i,
        same,
        rw (source, generation, found)
            (answered d d' body body' i (some i, run env cs disk')
              (ap (λ (x : Intent). x.target_key) same)
              (ap (λ (x : Intent). x.target_generation) same)
              (ap (λ (x : Intent). x.source_alias) same)
              (ap (λ (x : Intent). x.payload_digest) same)),
      )
