-- ===== src/Tests/Registry.antt =====
-- The route registry at concrete inputs.
mod Witnesses
use cross_agent_chat.Prelude.{◌≡◌, refl, true, false, none, some, List, [], ◌∷◌}
use cross_agent_chat.Core.Ids.{
  valid_uuid, claude, devin, valid_session_id, valid_device, is_surrogate, is_control, valid_name,
  parse_timestamp, is_name,
}
use cross_agent_chat.Json.Int.{pos, int_eq}
use cross_agent_chat.Route.{
  provider_text, provider_eq, is_devin, take, slice_to, Route, is_positive, session_key,
  alias_suffix, fit_project, friendly_alias, check_owner, check_route,
}
use cross_agent_chat.Core.Paths.{
  split_slash, join_slash, drop_last, normal_parts, leading_slashes, normpath, is_absolute,
  stored_cwd,
}
use cross_agent_chat.Registry.Reading.{IsRoute, IsRegistry, routes-write}
use cross_agent_chat.Text.{codes, ◌==◌, is_hex64, uuid_re, device_re, devin_session_re}
use cross_agent_chat.Core.{ok}
use cross_agent_chat.Json.{null}
use cross_agent_chat.Registry.History.{Call, upserts, reuses, drops, compacts, IsTidy}
use cross_agent_chat.Sender.{runs_as, runs_thread, only, authenticate_sender}
use cross_agent_chat.Tests.{zeros, world, event_1, generation_1, generation_2, computes}
use cross_agent_chat.Text.Uuid.{uuid_str}
use cross_agent_chat.Core.StateFile.{absent, read_rows, atomic_json, map_ok}
use cross_agent_chat.Registry.Lookup.{route_of}
use cross_agent_chat.Registry.{
  Files, has_identity, distinct_identities, in_devin, in_legacy, has_generation,
  prune_owner_anchors, publish_owner_anchor, routes_lock, option_eq, repeats, removes, read_routes,
  routes, devin_rows, write, upsert, upsert_or_reuse_live_owner, remove, compact_dead,
}
use cross_agent_chat.IntentStore.{owned}

program : Unit {0}
unfolding computes ◌==◌ is_hex64 uuid_re uuid_str device_re devin_session_re provider_text
    provider_eq is_devin take slice_to is_positive session_key alias_suffix fit_project
    friendly_alias check_owner check_route split_slash join_slash drop_last normal_parts
    leading_slashes normpath is_absolute stored_cwd valid_uuid valid_session_id valid_device
    valid_name is_surrogate is_control parse_timestamp is_name int_eq has_identity
    distinct_identities in_devin in_legacy has_generation prune_owner_anchors publish_owner_anchor
    routes_lock option_eq repeats removes read_routes routes devin_rows write upsert
    upsert_or_reuse_live_owner remove compact_dead runs_as runs_thread only authenticate_sender
    route_of read_rows map_ok atomic_json
program = tt

-- A Claude session, the same session in its next generation, and a Devin session with an owner.
abbrev pub first : Route
first = record {
  schema_version = pos 1;
  provider = claude;
  session_id = event_1;
  device = codes "mac";
  cwd = codes "/home/me";
  project = codes "project";
  alias = codes "claude@mac:project";
  generation = generation_1;
  pid = pos 10;
  last_seen = 5 ∷ [];
  owner_identity = none;
  profile_root = none;
}

abbrev second : Route
second = record first { generation = generation_2; pid = pos 11 }

abbrev other : Route
other = record first {
  provider = devin;
  session_id = codes "devin-session-1";
  alias = codes "devin@mac:project";
  generation = generation_2;
  owner_identity = some zeros;
}

first-IsRoute : IsRoute world first
unfolding program
first-IsRoute = refl

second-IsRoute : IsRoute world second
unfolding program
second-IsRoute = refl

other-IsRoute : IsRoute world other
unfolding program
other-IsRoute = refl

abbrev both : List Route
both = first ∷ other ∷ []

both-IsRegistry : IsRegistry world both
unfolding program
both-IsRegistry = record { valid = (first-IsRoute, (other-IsRoute, tt)); unique = refl }

abbrev empty : Files
empty = record { is_private = true; routes_file = absent; devin_file = absent; anchors = [] }

files_1 : Files
files_1 = write world both empty

reads_both : routes world files_1 ≡ ok both
unfolding program files_1
reads_both = routes-write world both empty both-IsRegistry

reads_none : routes world empty ≡ ok []
unfolding program
reads_none = refl

lock_1 : routes_lock files_1 ≡ ok tt
unfolding program files_1
lock_1 = refl

empty-IsTidy : IsTidy world empty
unfolding program
empty-IsTidy = record { locked = refl; listed = []; readable = reads_none; owned = refl }

abbrev calls_1 : List Call
calls_1 =
    upserts first (some null)
    ∷ reuses other none
    ∷ drops claude event_1 (pos 10) (some generation_1)
    ∷ compacts (λ r. false)
    ∷ []
