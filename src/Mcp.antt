-- ===== src/Mcp.antt =====
-- mcp_server.py: one JSON-RPC session over stdio. `initialize_result` and `dispatch` are what
-- `serve` is given; `dispatch` works on a world of its caller's, and answers with what it returns
-- or how it raises.
pub mod Calls
pub mod Lifecycle
pub mod Handshake
pub mod Replies
use cross_agent_chat.Prelude.{
  if◌then◌else◌, any, Bool, true, false, Option, none, some, List, [], ◌∷◌, ◌++◌,
}
use cross_agent_chat.Json.{
  Json, null, arr, obj, nil, cons, Fields, end, to_list, of_list, get, as_str,
}
use cross_agent_chat.Text.{Text, codes, ◌==◌}
use cross_agent_chat.Rpc.{
  RequestId, id_eq, request_id, id_json, Outcome, returned, method_not_found, refused, failed,
  parse_error, invalid_request, unknown_method, invalid_params, internal_error, success, error,
  no_request, initialize_params_error, params_of, request_fields,
}

pub data Phase : Type 0 where
  await_initialize await_initialized operational : Phase

unfoldable pub is_operational : Phase → Bool
is_operational operational = true
is_operational _ = false

-- A session: its phase, the ids that it has seen, the requests it has dispatched, latest first,
-- and the world of `dispatch`.
pub record Session (World : Type 0) : Type 0 where
  pub phase : Phase
  pub seen_ids : List RequestId
  pub dispatched : List (RequestId × Text)
  pub world : World

-- A frame of the input: dropped with a message, not JSON, or a value.
pub data Frame : Type 0 where
  dropped : Text → Frame
  unreadable : Frame
  value : Json → Frame

-- `_Session.__init__`
unfoldable pub new_session : {World : Type 0} → World → Session World
new_session w = record { phase = await_initialize; seen_ids = []; dispatched = []; world = w }

-- The notification that completes the handshake.
unfoldable pub notified : Fields → Phase → Phase
notified fs await_initialized = elim (as_str (get (codes "method") fs)) [
  | none ↦ await_initialized
  | some method ↦
      if method == codes "notifications/initialized" then operational else await_initialized
]
notified fs phase = phase

module _ {World : Type 0} (initialize_result : World → Json)
    (dispatch : Text → Fields → World → Outcome × World) where
  -- The `initialize` branch.
  unfoldable pub initialize : Bool → RequestId → Fields → Session World → Json × Session World
  initialize in_batch identifier params s =
      if in_batch
      then (
        error (id_json identifier) invalid_request (codes "initialize must not be sent in a batch"),
        s,
      )
      else elim s.phase [
        | await_initialize ↦ elim (initialize_params_error params) [
          | some reason ↦ (error (id_json identifier) invalid_params reason, s)
          | none ↦ (
            success identifier (initialize_result s.world),
            record s { phase = await_initialized },
          )
        ]
        | _ ↦
            (error (id_json identifier) invalid_request (codes "session is already initialized"), s)
      ]

  unfoldable pub outcome_response : RequestId → Outcome → Json
  outcome_response identifier (returned result) = success identifier result
  outcome_response identifier method_not_found =
      error (id_json identifier) unknown_method (codes "method not found")
  outcome_response identifier (refused reason) = error (id_json identifier) invalid_params reason
  outcome_response identifier failed =
      error (id_json identifier) internal_error (codes "internal error")

  -- The call of `dispatch`.
  unfoldable pub call_dispatch : RequestId → Text → Fields → Session World → Json × Session World
  call_dispatch identifier method params s =
      let (outcome, world') = dispatch method params s.world in
      (
        outcome_response identifier outcome,
        record s { dispatched = (identifier, method) ∷ s.dispatched; world = world' },
      )

  -- A request with a method and parameters.
  unfoldable pub call_method :
      Bool → RequestId → Text → Fields → Session World → Json × Session World
  call_method in_batch identifier method params s =
      if method == codes "initialize"
      then initialize in_batch identifier params s
      else if method == codes "ping"
      then (success identifier (obj end), s)
      else if is_operational s.phase
      then call_dispatch identifier method params s
      else (error (id_json identifier) invalid_request (codes "session is not initialized"), s)

  -- A request whose id is new.
  unfoldable pub handle_request : Bool → RequestId → Fields → Session World → Json × Session World
  handle_request in_batch identifier fs s = elim (as_str (get (codes "method") fs)) [
    | none ↦ (error (id_json identifier) invalid_request (codes "invalid request"), s)
    | some method ↦ elim (params_of fs) [
      | none ↦ (error (id_json identifier) invalid_params (codes "invalid params"), s)
      | some params ↦ call_method in_batch identifier method params s
    ]
  ]

  -- A request with an id.
  unfoldable pub handle_id : Bool → Json → Fields → Session World → Json × Session World
  handle_id in_batch identifier fs s = elim (request_id identifier) [
    | none ↦ (no_request, s)
    | some i ↦
        if any (id_eq i) s.seen_ids
        then (error (id_json i) invalid_request (codes "request id was already used"), s)
        else handle_request in_batch i fs (record s { seen_ids = i ∷ s.seen_ids })
  ]

  -- `_handle_one` on an object of the version.
  unfoldable pub handle_object : Bool → Fields → Session World → Option Json × Session World
  handle_object in_batch fs s = elim (get (codes "id") fs) [
    | none ↦ (none, record s { phase = notified fs s.phase })
    | some identifier ↦
        let (response, s') = handle_id in_batch identifier fs s in (some response, s')
  ]

  -- `_handle_one`
  unfoldable pub handle_one : Bool → Json → Session World → Option Json × Session World
  handle_one in_batch element s = elim (request_fields element) [
    | none ↦ (some no_request, s)
    | some fs ↦ handle_object in_batch fs s
  ]

  -- The comprehension over a batch.
  unfoldable pub handle_batch : List Json → Session World → List Json × Session World
  handle_batch [] s = ([], s)
  handle_batch (element ∷ elements) s =
      let (response, s₁) = handle_one true element s in
      let (responses, s₂) = handle_batch elements s₁ in
      (elim response [ none ↦ responses | some r ↦ r ∷ responses ], s₂)

  -- `handle`, with what it emits
  unfoldable pub handle : Json → Session World → List Json × Session World
  handle (arr nil) s = (no_request ∷ [], s)
  handle (arr (cons j js)) s =
      let (responses, s') = handle_batch (to_list (cons j js)) s in
      (elim responses [ [] ↦ [] | response ∷ rest ↦ arr (of_list (response ∷ rest)) ∷ [] ], s')
  handle body s =
      let (response, s') = handle_one false body s in
      (elim response [ none ↦ [] | some r ↦ r ∷ [] ], s')

  -- `serve` on one frame
  unfoldable pub serve_frame : Frame → Session World → List Json × Session World
  serve_frame (dropped reason) s = (error null parse_error reason ∷ [], s)
  serve_frame unreadable s = (error null parse_error (codes "parse error") ∷ [], s)
  serve_frame (value body) s = handle body s

  -- `serve`
  unfoldable pub serve : List Frame → Session World → List Json × Session World
  serve [] s = ([], s)
  serve (frame ∷ frames) s =
      let (emitted, s₁) = serve_frame frame s in
      let (more, s₂) = serve frames s₁ in (emitted ++ more, s₂)
