-- ===== src/IntentStore.antt =====
-- core.py `IntentStore`: the delivery records of one state root. Every operation that writes
-- holds the lock of the store from its read to its write, so it is one step; a rejection comes
-- before the write and leaves the file as it was. `now` is the time that the clock shows; the age
-- of an intent is not kept in a message.
pub mod Reading
pub mod Lookup
pub mod Resolve
pub mod Youngest
pub mod Begin
pub mod Claim
pub mod History
pub mod Gate
pub mod Refinement
pub mod Ledger
pub mod Steps
pub mod Rows
use cross_agent_chat.Prelude.{
  ltb, leb, eqb, if◌then◌else◌, length, keep, any, ℕ, ◌+◌, Bool, true, false, not, ◌&&◌, Option,
  none, some, List, [], ◌∷◌, ◌++◌, map,
}
use cross_agent_chat.Core.{
  Status, pending, remote_authorized, pre_effect_rejected, transport_accepted, unknown_delivery,
  resolved_by_owner, invalid, message, unresolved, abandoned, already_decided, too_young, Result,
  ok, err, ◌>>=◌, ◌>>◌, require, Env,
}
use cross_agent_chat.Core.Ids.{valid_uuid, valid_name, parse_timestamp}
use cross_agent_chat.Core.Intent.{
  schema_version_number, Intent, intent_schema, intent_from_object, intent_to_dict,
}
use cross_agent_chat.Core.StateFile.{StateFile, read_rows, atomic_json, map_ok}
use cross_agent_chat.Text.{Text, ◌==◌, is_hex64}
use cross_agent_chat.Json.{Json, member}

-- The state root: whether `ensure_private_dir` accepts it, and intents.json in it.
pub record Disk : Type 0 where
  pub is_private : Bool
  pub intents_file : StateFile

-- `state_lock(root, "intents")`
unfoldable pub state_lock : Disk → Result (Unit {0})
state_lock disk = require disk.is_private (message "private directory is unsafe")

-- `len({item.event_id for item in intents}) == len(intents)`
unfoldable pub distinct : List Text → Bool
distinct [] = true
distinct (k ∷ ks) = not (member k ks) && distinct ks

abbrev pub event_ids : List Intent → List Text
event_ids = map (λ i. i.event_id)

-- `ABANDONED_INTENT_SECONDS`, in microseconds
abbrev pub abandoned_after : ℕ
abandoned_after = 600_000_000

unfoldable pub in_flight : Status → Bool
in_flight pending = true
in_flight remote_authorized = true
in_flight _ = false

unfoldable pub is_pending : Status → Bool
is_pending pending = true
is_pending _ = false

-- The arguments that name a delivery.
pub record Delivery : Type 0 where
  pub source_key : Text
  pub source_generation : Text
  pub source_alias : Text
  pub target_key : Text
  pub target_generation : Text
  pub payload_digest : Text

-- Undecided, from this sender to this recipient.
unfoldable pub blocks : Delivery → Intent → Bool
blocks d i = (i.source_key == d.source_key) && (i.target_key == d.target_key) && in_flight i.status

-- The exact pending intent that `claim_remote_authorization` looks for.
unfoldable pub claims : Text → Delivery → Intent → Bool
claims event d i =
    (i.event_id == event)
    && (i.source_generation == d.source_generation)
    && (i.source_alias == d.source_alias)
    && (i.target_key == d.target_key)
    && (i.target_generation == d.target_generation)
    && (i.payload_digest == d.payload_digest)
    && is_pending i.status

unfoldable pub has_id : Text → Intent → Bool
has_id event i = i.event_id == event

-- The test of `intent_for_source`.
unfoldable pub owned : Text → Text → Text → Intent → Bool
owned event key generation i =
    (i.event_id == event) && (i.source_key == key) && (i.source_generation == generation)

-- `_write_status`: one row's status and time, the others unchanged.
unfoldable pub set_status : Text → Status → Text → List Intent → List Intent
set_status event status time [] = []
set_status event status time (i ∷ is) =
    (if has_id event i then record i { status = status; timestamp = time } else i)
    ∷ set_status event status time is

-- `_require_one`
unfoldable pub require_one : List Intent → Text → Result Intent
require_one rows event = elim (keep (has_id event) rows) [
  | [] ↦ err (message "intent is unavailable")
  | i ∷ rest ↦ elim rest [ [] ↦ ok i | _ ∷ _ ↦ err (message "intent is unavailable") ]
]

module _ (env : Env) where
  -- The rows of a decoded list.
  unfoldable pub intents_of_raw : List Json → Result (List Intent)
  intents_of_raw raw = do
    rows ← map_ok (intent_from_object env) raw
    require (distinct (event_ids rows)) (message "intent state contains duplicate events")
    ok rows

  -- `intents`
  unfoldable pub intents : Disk → Result (List Intent)
  intents disk = do
    raw ← read_rows disk.intents_file (message "intent state is invalid") intent_schema
    intents_of_raw raw

  -- `atomic_json(self.path, [item.to_dict() for item in rows])`
  unfoldable pub store : List Intent → Disk → Disk
  store rows disk = record disk { intents_file = atomic_json (map intent_to_dict rows) }

  -- `intent_for_source`
  unfoldable pub intent_for_source : Text → Text → Text → Disk → Result (Option Intent)
  intent_for_source event source_key source_generation disk = do
    valid_uuid event "event id"
    valid_uuid source_generation "source generation"
    require (is_hex64 source_key) (invalid "source key")
    rows ← intents disk
    elim (keep (owned event source_key source_generation) rows) [
      | [] ↦ ok none
      | i ∷ rest ↦ elim rest [
        | [] ↦ ok (some i)
        | _ ∷ _ ↦ err (message "intent state contains duplicate events")
      ]
    ]

  -- `min(unresolved, key=age)`: the first of the youngest, with its time.
  unfoldable pub youngest : Intent → ℕ → List Intent → Result (Intent × ℕ)
  youngest best time [] = ok (best, time)
  youngest best time (i ∷ is) = do
    t ← parse_timestamp env i.timestamp
    youngest (if ltb time t then i else best) (if ltb time t then t else time) is

  -- The refusal of `begin_identity` over unresolved intents.
  unfoldable pub refuse_unresolved : ℕ → List Intent → Result (Unit {0})
  refuse_unresolved now [] = ok tt
  refuse_unresolved now (i ∷ is) = do
    t ← parse_timestamp env i.timestamp
    (blocker, time) ← youngest i t is
    err (
        if leb (time + abandoned_after) now
        then abandoned blocker.event_id blocker.status
        else unresolved blocker.event_id blocker.status)

  unfoldable pub new_intent : ℕ → Text → Delivery → Intent
  new_intent now event d = record {
    schema_version = schema_version_number;
    event_id = event;
    source_key = d.source_key;
    source_generation = d.source_generation;
    source_alias = d.source_alias;
    target_key = d.target_key;
    target_generation = d.target_generation;
    payload_digest = d.payload_digest;
    status = pending;
    timestamp = env.iso_time now;
  }

  -- The checks of `begin_identity` on its arguments.
  unfoldable pub check_delivery : Delivery → Result (Unit {0})
  check_delivery d = do
    require (is_hex64 d.source_key) (invalid "source key")
    require (is_hex64 d.target_key) (invalid "target key")
    require (is_hex64 d.payload_digest) (invalid "message digest")
    valid_uuid d.source_generation "source generation"
    valid_name env d.source_alias "source alias"
    valid_uuid d.target_generation "target generation"
    ok tt

  -- `str(uuid4()) if event_id is None else valid_uuid(event_id)`; `fresh` is what `uuid4` gives.
  unfoldable pub event_identifier : Text → Option Text → Result Text
  event_identifier fresh none = ok fresh
  event_identifier fresh (some event) = valid_uuid event "event id"

  -- `begin_identity`
  unfoldable pub begin_identity : ℕ → Text → Option Text → Delivery → Disk → Result (Text × Disk)
  begin_identity now fresh event_id d disk = do
    event ← event_identifier fresh event_id
    check_delivery d
    state_lock disk
    existing ← intents disk
    require (not (any (has_id event) existing)) (message "event id is unavailable")
    refuse_unresolved now (keep (blocks d) existing)
    ok (event, store (existing ++ new_intent now event d ∷ []) disk)

  -- `claim_remote_authorization`
  unfoldable pub claim_remote_authorization : ℕ → Text → Delivery → Disk → Result (Bool × Disk)
  claim_remote_authorization now event d disk = do
    valid_uuid event "event id"
    valid_uuid d.source_generation "source generation"
    valid_name env d.source_alias "source alias"
    valid_uuid d.target_generation "target generation"
    require (is_hex64 d.target_key) (invalid "target key")
    require (is_hex64 d.payload_digest) (invalid "message digest")
    state_lock disk
    existing ← intents disk
    ok (
        if eqb (length (keep (claims event d) existing)) 1
        then (true, store (set_status event remote_authorized (env.iso_time now) existing) disk)
        else (false, disk))

  -- `mark`; its test of the status is the type of the argument.
  unfoldable pub mark : ℕ → Text → Status → Disk → Result Disk
  mark now event status disk = do
    valid_uuid event "event id"
    state_lock disk
    existing ← intents disk
    require_one existing event
    ok (store (set_status event status (env.iso_time now) existing) disk)

  -- What `resolve_by_owner` does with the row it found.
  unfoldable pub resolve_row : ℕ → Text → Intent → Result Bool
  resolve_row now event current = elim current.status [
    | resolved_by_owner ↦ ok false
    | transport_accepted ↦ err (already_decided event current.status)
    | pre_effect_rejected ↦ err (already_decided event current.status)
    | unknown_delivery ↦ ok true
    | _ ↦ do
      time ← parse_timestamp env current.timestamp
      require (leb (time + abandoned_after) now) (too_young event current.status)
      ok true
  ]

  -- `resolve_by_owner`
  unfoldable pub resolve_by_owner : ℕ → Text → Disk → Result (Status × Disk)
  resolve_by_owner now event disk = do
    valid_uuid event "event id"
    state_lock disk
    existing ← intents disk
    current ← require_one existing event
    writes ← resolve_row now event current
    ok (
      current.status,
      if writes
          then store (set_status event resolved_by_owner (env.iso_time now) existing) disk
          else disk,
    )
