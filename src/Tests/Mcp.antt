-- ===== src/Tests/Mcp.antt =====
-- A session at concrete frames: the theorems, each at an input that meets its hypotheses.
use cross_agent_chat.Prelude.{ℕ, ◌+◌, ◌≡◌, refl, List, [], ◌∷◌, map}
use cross_agent_chat.Json.{
  Json, null, int, str, obj, Fields, end, field, to_list, of_list, get, as_str,
}
use cross_agent_chat.Json.Int.{pos, int_eq}
use cross_agent_chat.Text.{Text, codes, ◌==◌}
use cross_agent_chat.Rpc.{
  number, id_eq, request_id, id_json, Outcome, returned, negative, success, error, as_obj,
  initialize_params_error, params_of, request_fields,
}
use cross_agent_chat.Mcp.{
  is_operational, Frame, dropped, value, new_session, notified, initialize, outcome_response,
  call_dispatch, call_method, handle_request, handle_id, handle_object, handle_one, handle_batch,
  handle, serve_frame, serve,
}
use cross_agent_chat.Mcp.Lifecycle.{IsSafe, serve-IsSafe}
use cross_agent_chat.Mcp.Handshake.{asks_initialize, opens, serve-unopened}
use cross_agent_chat.Mcp.Replies.{id_of, expected_id, expected_ids, handle_batch_ids}

session : Unit {0}
unfolding get as_str to_list of_list int_eq ◌==◌ id_eq request_id id_json success error
    initialize_params_error params_of request_fields as_obj negative new_session notified initialize
    call_dispatch call_method outcome_response handle_request handle_id handle_object handle_one
    handle_batch handle serve_frame serve opens asks_initialize id_of expected_ids expected_id
    is_operational
session = tt

-- A dispatcher that counts its calls.
abbrev counting : Text → Fields → ℕ → Outcome × ℕ
counting method params n = (returned null, n + 1)

abbrev greeting : ℕ → Json
greeting n = obj end

abbrev named : Text → Fields → Json
named method fs =
    obj (field (codes "jsonrpc") (str (codes "2.0")) (field (codes "method") (str method) fs))

abbrev numbered : ℕ → Text → Json → Json
numbered n method params =
    named method (field (codes "id") (int (pos n)) (field (codes "params") params end))

abbrev client : Json
client = obj (
    field (codes "protocolVersion") (str (codes "2025-03-26")) (
      field (codes "capabilities") (obj end) (
        field (codes "clientInfo")
          (obj (
            field (codes "name") (str (codes "c")) (field (codes "version") (str (codes "1")) end)))
          end)))

-- A handshake, a call, and the same id again.
abbrev frames : List Frame
frames =
    value (numbered 1 (codes "initialize") client)
    ∷ value (named (codes "notifications/initialized") end)
    ∷ value (numbered 2 (codes "tools/list") (obj end))
    ∷ value (numbered 2 (codes "tools/list") (obj end))
    ∷ []

runs_once :
    (serve greeting counting frames (new_session 0)).1.dispatched
    ≡ (number (pos 2), codes "tools/list") ∷ []
unfolding session
runs_once = refl

serve-IsSafe_example : IsSafe greeting counting 0 (serve greeting counting frames (new_session 0)).1
serve-IsSafe_example = serve-IsSafe greeting counting 0 frames

abbrev unopened_frames : List Frame
unopened_frames = dropped [] ∷ value (numbered 2 (codes "tools/list") (obj end)) ∷ []

serve-unopened_example :
    ((serve greeting counting unopened_frames (new_session 0)).1.dispatched ≡ [])
    × ((serve greeting counting unopened_frames (new_session 0)).1.world ≡ 0)
unfolding session
serve-unopened_example = serve-unopened greeting counting unopened_frames 0 refl

abbrev batch : List Json
batch =
    numbered 7 (codes "ping") (obj end) ∷ named (codes "notifications/cancelled") end ∷ null ∷ []

handle_batch_ids_example :
    map id_of (handle_batch greeting counting batch (new_session 0)).0 ≡ expected_ids batch
handle_batch_ids_example = handle_batch_ids greeting counting batch (new_session 0)
