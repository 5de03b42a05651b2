-- ===== src/Tests/Helper.antt =====
-- The native helpers of one Codex task, and the claims of their sends.
use cross_agent_chat.Prelude.{
  distinct_by, ◌≡◌, refl, Bool, true, false, none, some, List, [], ◌∷◌, ◌++◌, arith,
}
use cross_agent_chat.Core.{Error, Result, err, ok}
use cross_agent_chat.Core.Ids.{valid_uuid, codex, valid_device}
use cross_agent_chat.Core.Paths.{
  split_slash, join_slash, drop_last, normal_parts, leading_slashes, normpath, is_absolute,
  stored_cwd, last_part, path_name,
}
use cross_agent_chat.Core.StateFile.{absent, read_rows, atomic_json, map_ok}
use cross_agent_chat.Route.{is_codex, Route}
use cross_agent_chat.Registry.{option_eq}
use cross_agent_chat.Json.{to_list, of_list, get, keys, member, subset, keys_are, as_str}
use cross_agent_chat.Text.{Text, codes, ◌==◌, is_hex64, uuid_re, device_re}
use cross_agent_chat.Text.Uuid.{uuid_str}
use cross_agent_chat.Helper.{
  unknown, registered, Binding, directory_prefix, strip_prefix, check_directory, check_helper,
  check_reserved, check_binding, is_unknown, is_registered, is_text, retire, reserve_binding, fits,
  register_binding,
}
use cross_agent_chat.Helper.Codec.{
  state_text, read_state, binding_fields, registered_fields, helper_entries, binding_to_dict,
  all_texts, binding_text, binding_of_fields, binding_from_dict,
}
use cross_agent_chat.HelperStore.{
  HelperRoot, bad_state, is_active, has_helper, same_original, same_directory, same_nonce,
  same_helper, consistent, bindings, store_bindings, helpers_lock, state_eq, binding_eq, is_of,
  is_helper, has_live_helper, reservable, pick_directory, retire_match, the_only, reserve_at,
  reserve, has_nonce, register,
}
use cross_agent_chat.HelperStore.Agreement.{Placed}
use cross_agent_chat.HelperStore.Runs.{Runs, here, reserving, registering, Sound, Runs-Sound}
use cross_agent_chat.HelperStore.Once.{
  HelperCall, a_reserve, a_register, left_by_register, left_by_reserve, after_call, after_calls,
  register-at_most_once,
}
use cross_agent_chat.HelperStore.Draws.{reserve_returns}
use cross_agent_chat.NativeDispatch.{
  Dispatch, check_dispatch, dispatch_to_dict, dispatch_fields, dispatch_text, dispatch_of_fields,
  dispatch_from_dict, DispatchRoot, dispatches, store_dispatches, is_event, new_dispatch,
  claim_dispatch, has_event,
}
use cross_agent_chat.NativeDispatch.Claims.{done, claiming, claim_dispatch-at_most_once}
use cross_agent_chat.Tests.{zeros, world, event_1, event_2, generation_1, generation_2, computes}
use cross_agent_chat.Tests.Registry.{first}

helpers : Unit {0}
unfolding computes ◌==◌ is_hex64 uuid_re uuid_str device_re valid_uuid valid_device stored_cwd
    path_name split_slash join_slash drop_last normal_parts leading_slashes normpath is_absolute
    last_part read_rows atomic_json map_ok is_codex option_eq to_list of_list get keys member subset
    keys_are as_str strip_prefix check_directory check_helper check_reserved check_binding
    is_unknown is_registered is_text retire reserve_binding fits register_binding state_text
    read_state binding_fields registered_fields helper_entries binding_to_dict all_texts
    binding_text binding_of_fields binding_from_dict is_active has_helper same_original
    same_directory same_nonce same_helper consistent bindings store_bindings helpers_lock state_eq
    binding_eq is_of is_helper has_live_helper reservable pick_directory retire_match the_only
    reserve_at reserve has_nonce register distinct_by Placed check_dispatch dispatch_to_dict
    dispatch_fields dispatch_text dispatch_of_fields dispatch_from_dict dispatches store_dispatches
    is_event new_dispatch claim_dispatch has_event
helpers = tt

abbrev original : Route
original = record first {
  provider = codex;
  owner_identity = some zeros;
  profile_root = some (codes "/home/me/.codex");
}

abbrev place : Text
place = directory_prefix ++ event_2

-- The helper of the task, in the directory that was reserved for it.
abbrev helper : Route
helper = record original {
  session_id = event_2;
  generation = generation_2;
  cwd = codes "/state/" ++ place;
}

abbrev place_of : Text → Text → Text
place_of session generation = codes "/state/" ++ place

abbrev reserved_1 : Binding
reserved_1 = record {
  original_session_id = event_1;
  original_generation = generation_1;
  original_device = codes "mac";
  original_cwd = codes "/home/me";
  original_profile_root = codes "/home/me/.codex";
  account_sha256 = zeros;
  helper_directory = place;
  nonce_sha256 = zeros;
  state = unknown;
  helper_session_id = none;
  helper_generation = none;
}

abbrev bound_1 : Binding
bound_1 = record reserved_1 {
  state = registered;
  helper_session_id = some event_2;
  helper_generation = some generation_2;
}

abbrev root_0 : HelperRoot
root_0 = record { is_private = true; helpers_file = absent }

root_1 : HelperRoot
root_1 = store_bindings (reserved_1 ∷ []) root_0

root_2 : HelperRoot
root_2 = store_bindings (bound_1 ∷ []) root_1

abbrev nobody : Route → Bool
nobody route = false

reads_0 : bindings root_0 ≡ ok []
unfolding helpers
reads_0 = refl

reads_1 : bindings root_1 ≡ ok (reserved_1 ∷ [])
unfolding helpers root_1
reads_1 = refl

reserve_1 :
    reserve world nobody [] original (codes "n") zeros (event_2 ∷ []) root_0
    ≡ some (ok (reserved_1, root_1))
unfolding helpers root_1
reserve_1 = refl

register_1 : register world helper (codes "n") original zeros root_1 ≡ ok (bound_1, root_2)
unfolding helpers root_1 root_2
register_1 = refl

start_0 : Sound world place_of root_0
start_0 = record { listed = []; reads = reads_0; placed = tt }

run_2 : Runs world place_of root_0 root_2
run_2 =
    reserving nobody [] original (codes "n") zeros (event_2 ∷ []) reserved_1 [] root_0 root_1 root_2
      reads_0 refl reserve_1
      (registering helper original (codes "n") zeros bound_1 root_1 root_2 root_2 refl register_1
        (here root_2))

Runs-Sound_example : Sound world place_of root_2
Runs-Sound_example = Runs-Sound world place_of root_0 root_2 run_2 start_0

-- Two calls of the same nonce.
abbrev again : List HelperCall
again =
    a_reserve nobody [] original (codes "n") zeros (event_1 ∷ [])
    ∷ a_register helper (codes "n") original zeros
    ∷ []

register-at_most_once_example :
    (e : Error) × (register world helper (codes "n") original zeros (after_calls world again root_2)
      ≡ err e)
register-at_most_once_example =
    register-at_most_once world helper helper original original (codes "n") zeros zeros bound_1
      root_1 root_2 again register_1

-- A second reservation of the nonce is written, and the file is refused from then on.
reserves_again : bindings (after_calls world again root_2) ≡ err bad_state
unfolding helpers root_1 root_2 after_calls after_call left_by_reserve left_by_register
reserves_again = refl

reserve_returns_example :
    (r : Result (Binding × HelperRoot)) × (reserve world nobody [] original
        (codes "n")
        zeros
        (event_2 ∷ event_1 ∷ [])
        root_1
      ≡ some r)
unfolding helpers
reserve_returns_example =
    reserve_returns world nobody [] original (codes "n") zeros (event_2 ∷ event_1 ∷ []) root_1
      (reserved_1 ∷ []) reads_1 refl (omega arith)

abbrev dispatches_0 : DispatchRoot
dispatches_0 = record { is_private = true; dispatches_file = absent }

abbrev sent : Text → Dispatch
sent event = record {
  event_id = event;
  helper_session_id = event_2;
  helper_generation = generation_2;
  original_session_id = event_1;
  original_generation = generation_1;
  payload_sha256 = zeros;
}

dispatches_1 : DispatchRoot
dispatches_1 = store_dispatches (sent event_1 ∷ []) dispatches_0

dispatches_2 : DispatchRoot
dispatches_2 = store_dispatches (sent event_1 ∷ sent event_2 ∷ []) dispatches_1

claim_1 :
    claim_dispatch world helper original event_1 (codes "hello") dispatches_0
    ≡ ok (sent event_1, dispatches_1)
unfolding helpers dispatches_1
claim_1 = refl

claim_2 :
    claim_dispatch world helper original event_2 (codes "again") dispatches_1
    ≡ ok (sent event_2, dispatches_2)
unfolding helpers dispatches_1 dispatches_2
claim_2 = refl

claim_dispatch-at_most_once_example :
    (has_event event_1 dispatches_2 ≡ ok true)
    × (e : Error) × (claim_dispatch world helper original event_1 (codes "more") dispatches_2
        ≡ err e)
claim_dispatch-at_most_once_example =
    claim_dispatch-at_most_once world helper helper original original event_1 (codes "hello")
      (codes "more") (sent event_1) dispatches_0 dispatches_1 dispatches_2 claim_1
      (claiming helper original event_2 (codes "again") (sent event_2) dispatches_1 dispatches_2
        dispatches_2 claim_2 (done dispatches_2))
