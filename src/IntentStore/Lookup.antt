-- ===== src/IntentStore/Lookup.antt =====
-- `intent_for_source`: an event is visible to the route that sent it, and to no other.
use cross_agent_chat.Prelude.{
  if◌then◌else◌, Bool-cases, keep, any, ℕ, ◌≡◌, refl, ap, ◌∙◌, inl, inr, true, false, ◌&&◌, Option,
  none, some, List, [], ◌∷◌, ◌++◌, arith,
}
use cross_agent_chat.Core.{ok, Env}
use cross_agent_chat.Core.Intent.{Intent}
use cross_agent_chat.IntentStore.{
  Disk, distinct, event_ids, Delivery, has_id, owned, intents, intent_for_source, new_intent,
  begin_identity,
}
use cross_agent_chat.IntentStore.Reading.{intents-store, intents-Wellformed}
use cross_agent_chat.IntentStore.Rows.{row_of, row_of-none, row_of-append, alone}
use cross_agent_chat.Text.{Text, ◌==◌, ==_refl, is_hex64, uuid_re}
use cross_agent_chat.Core.Ids.{valid_uuid_lem}
use cross_agent_chat.IntentStore.Steps.{begin_identity-ok}
use cross_agent_chat.IntentStore.Ledger.{begins-Wellformed, event_identifier-uuid_re}

-- The event's row, if this source key and generation sent it.
unfoldable pub sent_by : Text → Text → Text → List Intent → Option Intent
sent_by event key generation rows = elim (row_of event rows) [
  | none ↦ none
  | some i ↦ if owned event key generation i then some i else none
]

not_owned :
    (event key generation : Text) (rows : List Intent)
    → any (has_id event) rows ≡ false
    → keep (owned event key generation) rows ≡ []
unfolding owned has_id
not_owned event key generation [] h = refl
not_owned event key generation (i ∷ is) h = ground (arith, not_owned event key generation is)

owned_other :
    (event key generation : Text) (i : Intent)
    → has_id event i ≡ false
    → owned event key generation i ≡ false
unfolding owned has_id
owned_other event key generation i h = ground arith

keep-owned :
    (event key generation : Text) (rows : List Intent)
    → distinct (event_ids rows) ≡ true
    → keep (owned event key generation) rows
      ≡ (elim (sent_by event key generation rows) [ none ↦ [] | some i ↦ i ∷ [] ])
unfolding sent_by distinct row_of
keep-owned event key generation [] h = refl
keep-owned event key generation (i ∷ is) h = elim (Bool-cases (has_id event i)) [
  | inl e ↦ rw (e, not_owned event key generation is (alone event i is h e)) (ground arith)
  | inr e ↦
      rw (e, owned_other event key generation i e)
        (keep-owned event key generation is (ground arith))
]

module _ (env : Env) where
  -- What a reader sees of one event is its row if the reader sent it, and nothing otherwise.
  pub intent_for_source_lem :
      (event key generation : Text) (disk : Disk) (rows : List Intent)
      → uuid_re event ≡ true
      → uuid_re generation ≡ true
      → is_hex64 key ≡ true
      → intents env disk ≡ ok rows
      → intent_for_source env event key generation disk ≡ ok (sent_by event key generation rows)
  unfolding intent_for_source
  intent_for_source_lem event key generation disk rows e g k reads =
      let w = intents-Wellformed env disk rows reads in
      rw (valid_uuid_lem event, e, valid_uuid_lem generation, g, k, reads)
        (ground (arith, keep-owned event key generation rows w.unique))

  sent_by-new :
      (now : ℕ) (event key generation : Text) (d : Delivery) (rows : List Intent)
      → row_of event rows ≡ none
      → sent_by event key generation (rows ++ new_intent env now event d ∷ []) ≡ (
          if (d.source_key == key) && (d.source_generation == generation)
          then some (new_intent env now event d)
          else none)
  unfolding sent_by owned new_intent has_id
  sent_by-new now event key generation d rows absent =
      ground (arith, row_of-append event rows (new_intent env now event d), ==_refl event)

  -- After a successful `begin_identity` the file reads as the rows before and the new one.
  pub begin_identity-reads :
      (now : ℕ) (fresh : Text) (event_id : Option Text) (d : Delivery) (disk disk' : Disk)
      (event : Text) (rows : List Intent)
      → uuid_re fresh ≡ true
      → intents env disk ≡ ok rows
      → begin_identity env now fresh event_id d disk ≡ ok (event, disk')
      → (intents env disk' ≡ ok (rows ++ new_intent env now event d ∷ []))
        × (uuid_re event ≡ true)
        × (row_of event rows ≡ none)
  begin_identity-reads now fresh event_id d disk disk' event rows f reads h =
      let (named, checked, new, free, written) =
        begin_identity-ok env disk rows reads now fresh event_id d event disk' h in
      let id = event_identifier-uuid_re env fresh event_id event f named in
      let w =
        begins-Wellformed env now event d rows (intents-Wellformed env disk rows reads) id checked
          new in
      (rw written (intents-store env _ disk w), id, row_of-none event rows new)

  -- The event that `begin_identity` records is found by its sender, and by no other source.
  pub intent_for_source-begin_identity :
      (now : ℕ) (fresh : Text) (event_id : Option Text) (d : Delivery) (disk disk' : Disk)
      (event : Text) (rows : List Intent) (key generation : Text)
      → uuid_re fresh ≡ true
      → intents env disk ≡ ok rows
      → begin_identity env now fresh event_id d disk ≡ ok (event, disk')
      → is_hex64 key ≡ true
      → uuid_re generation ≡ true
      → intent_for_source env event key generation disk'
        ≡ ok (
            if (d.source_key == key) && (d.source_generation == generation)
            then some (new_intent env now event d)
            else none)
  intent_for_source-begin_identity now fresh event_id d disk disk' event rows key generation f reads
        h k g =
      let (reads', id, absent) =
        begin_identity-reads now fresh event_id d disk disk' event rows f reads h in
      intent_for_source_lem event key generation disk' (rows ++ new_intent env now event d ∷ []) id
        g k reads'
      ∙ ap ok (sent_by-new now event key generation d rows absent)
