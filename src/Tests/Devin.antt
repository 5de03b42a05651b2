-- ===== src/Tests/Devin.antt =====
-- A Devin session with one capability and one subagent.
use cross_agent_chat.Prelude.{
  leb, eqb, eqb_iff, distinct_by, ℕ, zero, ◌-◌, ◌≡◌, refl, subst, true, not, ◌&&◌, Option, none,
  some, [], ◌∷◌,
}
use cross_agent_chat.Core.{Error, err, ok, ◌>>=◌, some-injective}
use cross_agent_chat.Core.Ids.{valid_uuid, devin, valid_session_id}
use cross_agent_chat.Core.StateFile.{absent, read_rows, atomic_json, map_ok}
use cross_agent_chat.Json.{
  Json, real, Fields, end, to_list, of_list, get, keys, member, subset, keys_are, as_str,
}
use cross_agent_chat.Json.Int.{pos}
use cross_agent_chat.Route.{provider_text, session_key}
use cross_agent_chat.HelperStore.{the_only}
use cross_agent_chat.Helper.{is_text}
use cross_agent_chat.Text.{Text, codes, ◌==◌, is_hex64, uuid_re, devin_session_re}
use cross_agent_chat.Text.Uuid.{uuid_str}
use cross_agent_chat.Text.Dict.{lookup, insert, pop, is_empty}
use cross_agent_chat.Capability.{
  chat_send, Floats, tool_text, read_tool, tool_eq, capability_fields, capability_text,
  CapabilityRoot, file_exists, capabilities_lock, Capability, capability_to_dict,
  capability_of_fields, capability_from_object, same_token, capabilities, store_capabilities,
  capability_eq, fresh, has_digest, refusal, revoke_session, arguments_digest_of, take_capability,
  answered, consume,
}
use cross_agent_chat.Capability.Once.{unused, revoking, consume-at_most_once}
use cross_agent_chat.Subagent.{
  Entry, SubagentRoot, fits_key, launches_of_fields, launches, entry_fields, as_bool, entry_of_json,
  entries_of_fields, read_entries, entries, launches_to_fields, entry_to_json, entries_to_fields,
  store_entries, subagents_lock, may_nest, changed, is_evidence, put_entry, forget,
  profile_may_nest, launch_change, Patterns, or_true, was_awaited, awaited_may_nest,
  no_longer_awaited, with_child, launched_change, write_entry, update, launch, launched,
  mark_uncertain,
}
use cross_agent_chat.Subagent.Custody.{
  hold, Boundary, custody_shown, custody, restriction, custody-restriction,
}
use cross_agent_chat.Subagent.Writing.{spares}
use cross_agent_chat.Subagent.Changes.{tool_fits}
use cross_agent_chat.Subagent.Runs.{here, marking, entry_or_new, launched-hold}
use cross_agent_chat.Tests.{zeros, world, event_1, generation_1, computes}

devins : Unit {0}
unfolding computes ◌==◌ is_hex64 uuid_re uuid_str devin_session_re valid_uuid valid_session_id
    read_rows atomic_json map_ok to_list of_list get keys member subset keys_are as_str session_key
    provider_text the_only is_text lookup insert pop is_empty distinct_by tool_text read_tool
    tool_eq capability_fields capability_text capabilities_lock capability_to_dict
    capability_of_fields capability_from_object same_token capabilities store_capabilities
    capability_eq fresh has_digest refusal revoke_session arguments_digest_of take_capability
    answered consume file_exists fits_key launches_of_fields launches entry_fields as_bool
    entry_of_json entries_of_fields read_entries entries launches_to_fields entry_to_json
    entries_to_fields store_entries subagents_lock may_nest changed is_evidence put_entry forget
    profile_may_nest launch_change or_true was_awaited awaited_may_nest no_longer_awaited with_child
    launched_change write_entry update launch launched mark_uncertain spares tool_fits entry_or_new
devins = tt

unfoldable whole : Option Json → Option ℕ
whole (some (real (pos n) zero)) = some n
whole _ = none

whole-real : (n : ℕ) → whole (some (real (pos n) 0)) ≡ some n
unfolding whole
whole-real n = refl

eqb_refl : (n : ℕ) → eqb n n ≡ true
eqb_refl n = (eqb_iff n n).1 refl

-- Whole seconds.
abbrev seconds : Floats
seconds = record {
  Float = ℕ;
  to_json = λ n. real (pos n) 0;
  of_json = whole;
  of_json-to_json = whole-real;
  float_eq = eqb;
  float_eq_refl = eqb_refl;
  is_fresh = λ now at. leb at now && leb (now - at) 120;
  is_expired = λ now at. not (leb (now - at) 120);
}

abbrev devin_1 : Text
devin_1 = codes "devin-session-1"

abbrev compact : Fields → Text
compact fs = []

abbrev capability_1 : Capability seconds
capability_1 = record {
  token_digest = zeros;
  session_id = devin_1;
  generation = generation_1;
  prompt_id = event_1;
  tool_name = chat_send;
  arguments_digest = zeros;
  issued_at = 1000;
}

abbrev capabilities_0 : CapabilityRoot
capabilities_0 = record { is_private = true; capabilities_file = absent }

issued_1 : CapabilityRoot
issued_1 = store_capabilities seconds (capability_1 ∷ []) capabilities_0

taken_1 : CapabilityRoot
taken_1 = store_capabilities seconds [] issued_1

take_1 : take_capability seconds world compact zeros 1100 1100 issued_1 ≡ ok (capability_1, taken_1)
unfolding devins issued_1 taken_1 whole
take_1 = refl

revoke_1 : revoke_session seconds 1105 devin_1 taken_1 ≡ ok taken_1
unfolding devins issued_1 taken_1 whole
revoke_1 = refl

consume-at_most_once_example :
    (e : Error) × (consume seconds world compact zeros chat_send end 1110 1110 taken_1
      ≡ (err e, taken_1))
consume-at_most_once_example =
    consume-at_most_once seconds world compact zeros chat_send end capability_1 1100 1100 1110 1110
      issued_1 taken_1 taken_1 take_1
      (revoking 1105 devin_1 taken_1 taken_1 taken_1 revoke_1 (unused taken_1))

-- An output is the id of a subagent that it reports as started.
unfoldable first_started : Text → Option Text
first_started [] = none
first_started (c ∷ s) = some (c ∷ [])

unfoldable nothing_finished : Text → Option Text
nothing_finished output = none

first_started_fits :
    (output agent : Text) → first_started output ≡ some agent → fits_key agent ≡ true
unfolding first_started fits_key
first_started_fits [] agent h = absurd (cc)
first_started_fits (c ∷ s) agent h = subst (λ (t : Text). fits_key t ≡ true) (some-injective h) refl

abbrev starts : Patterns
starts = record {
  started = first_started;
  finished = nothing_finished;
  started_fits = first_started_fits;
}

abbrev subagents_0 : SubagentRoot
subagents_0 = record { is_private = true; lifecycle_file = absent; uncertain_marks = [] }

abbrev running : Entry
running = record { children = (codes "a", true) ∷ []; awaited = []; uncertain = true }

subagents_1 : SubagentRoot
subagents_1 = store_entries ((zeros, running) ∷ []) subagents_0

key_1 : session_key world devin devin_1 ≡ ok zeros
unfolding devins
key_1 = refl

launched_1 : launched world starts devin_1 none (codes "a") none subagents_0 ≡ ok subagents_1
unfolding devins first_started nothing_finished subagents_1
launched_1 = refl

subagents_2 : SubagentRoot
subagents_2 = record subagents_1 { uncertain_marks = zeros ∷ [] }

mark_2 : mark_uncertain world devin_1 subagents_1 ≡ ok subagents_2
unfolding devins subagents_2 subagents_1
mark_2 = refl

launched-hold_example : custody world devin_1 subagents_2 ≡ ok (some hold)
unfolding devins first_started
launched-hold_example =
    launched-hold world starts devin_1 zeros (codes "a") none (codes "a") none [] subagents_0
      subagents_1 subagents_2 key_1 refl refl refl launched_1
      (marking devin_1 subagents_1 subagents_2 subagents_2 mark_2 (here subagents_2))

custody-restriction_example :
    custody world devin_1 subagents_2
    ≡ (restriction world devin_1 subagents_2 >>= λ (b : Boundary). ok (custody_shown b))
custody-restriction_example = custody-restriction world devin_1 subagents_2
