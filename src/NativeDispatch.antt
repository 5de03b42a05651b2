-- ===== src/NativeDispatch.antt =====
-- native_helper.py `NativeDispatch` and `NativeDispatchStore`: the claims of nested native sends.
pub mod Claims
use cross_agent_chat.Prelude.{any, String, Bool, not, ◌&&◌, List, [], ◌∷◌, ◌++◌, map}
use cross_agent_chat.Core.{Error, message, Result, err, ok, ◌>>=◌, ◌>>◌, require, or_fail, Env}
use cross_agent_chat.Core.Ids.{valid_uuid}
use cross_agent_chat.Core.StateFile.{StateFile, read_rows, atomic_json, map_ok}
use cross_agent_chat.Json.{Json, str, obj, Fields, end, field, get, keys_are, as_str}
use cross_agent_chat.Route.{Route}
use cross_agent_chat.Text.{Text, codes, ◌==◌, is_hex64}
use cross_agent_chat.Helper.Codec.{all_texts}

-- Its state has the one value UNKNOWN.
pub record Dispatch : Type 0 where
  pub event_id : Text
  pub helper_session_id : Text
  pub helper_generation : Text
  pub original_session_id : Text
  pub original_generation : Text
  pub payload_sha256 : Text

abbrev bad_dispatch : Error
bad_dispatch = message "native dispatch is invalid"

-- `__post_init__`, with the dispatch as its value
unfoldable pub check_dispatch : Dispatch → Result Dispatch
check_dispatch d = do
  valid_uuid d.event_id "event id"
  valid_uuid d.helper_session_id "helper session id"
  valid_uuid d.helper_generation "helper generation"
  valid_uuid d.original_session_id "original session id"
  valid_uuid d.original_generation "original generation"
  require (is_hex64 d.payload_sha256) bad_dispatch
  ok d

-- `to_dict`
unfoldable pub dispatch_to_dict : Dispatch → Json
dispatch_to_dict d = obj (
    field (codes "event_id") (str d.event_id) (
      field (codes "helper_session_id") (str d.helper_session_id) (
        field (codes "helper_generation") (str d.helper_generation) (
          field (codes "original_session_id") (str d.original_session_id) (
            field (codes "original_generation") (str d.original_generation) (
              field (codes "payload_sha256") (str d.payload_sha256)
                (field (codes "state") (str (codes "UNKNOWN")) end)))))))

unfoldable pub dispatch_fields : List Text
dispatch_fields =
    codes "event_id"
    ∷ codes "helper_session_id"
    ∷ codes "helper_generation"
    ∷ codes "original_session_id"
    ∷ codes "original_generation"
    ∷ codes "payload_sha256"
    ∷ codes "state"
    ∷ []

unfoldable pub dispatch_text : String → Fields → Result Text
dispatch_text key fs = or_fail (as_str (get (codes key) fs)) bad_dispatch

-- `from_dict` up to the call of the constructor
unfoldable pub dispatch_of_fields : Fields → Result Dispatch
dispatch_of_fields fs = do
  require (keys_are dispatch_fields fs && all_texts fs) bad_dispatch
  state_name ← dispatch_text "state" fs
  require (state_name == codes "UNKNOWN") bad_dispatch
  event_id ← dispatch_text "event_id" fs
  helper_session_id ← dispatch_text "helper_session_id" fs
  helper_generation ← dispatch_text "helper_generation" fs
  original_session_id ← dispatch_text "original_session_id" fs
  original_generation ← dispatch_text "original_generation" fs
  payload_sha256 ← dispatch_text "payload_sha256" fs
  ok (record {
    event_id = event_id;
    helper_session_id = helper_session_id;
    helper_generation = helper_generation;
    original_session_id = original_session_id;
    original_generation = original_generation;
    payload_sha256 = payload_sha256;
  })

-- `from_dict`
unfoldable pub dispatch_from_dict : Json → Result Dispatch
dispatch_from_dict (obj fs) = do d ← dispatch_of_fields fs; check_dispatch d
dispatch_from_dict _ = err bad_dispatch

-- native-dispatches.json
pub record DispatchRoot : Type 0 where
  pub is_private : Bool
  pub dispatches_file : StateFile

abbrev bad_dispatches : Error
bad_dispatches = message "native dispatch state is invalid"

-- `dispatches`
unfoldable pub dispatches : DispatchRoot → Result (List Dispatch)
dispatches root = do
  raw ← read_rows root.dispatches_file bad_dispatches bad_dispatches
  map_ok dispatch_from_dict raw

-- `atomic_json(self.path, [item.to_dict() for item in ds])`
unfoldable pub store_dispatches : List Dispatch → DispatchRoot → DispatchRoot
store_dispatches ds root = record root { dispatches_file = atomic_json (map dispatch_to_dict ds) }

unfoldable pub is_event : Text → Dispatch → Bool
is_event event d = d.event_id == event

module _ (env : Env) where
  -- What `claim` makes of its arguments.
  unfoldable pub new_dispatch : Route → Route → Text → Text → Dispatch
  new_dispatch helper original event body = record {
    event_id = event;
    helper_session_id = helper.session_id;
    helper_generation = helper.generation;
    original_session_id = original.session_id;
    original_generation = original.generation;
    payload_sha256 = env.sha256 body;
  }

  -- `claim`
  unfoldable pub claim_dispatch :
      Route → Route → Text → Text → DispatchRoot → Result (Dispatch × DispatchRoot)
  claim_dispatch helper original event body root = do
    dispatch ← check_dispatch (new_dispatch helper original event body)
    require root.is_private (message "private directory is unsafe")
    existing ← dispatches root
    require (not (any (is_event dispatch.event_id) existing))
        (message "native dispatch is unavailable")
    ok (dispatch, store_dispatches (existing ++ dispatch ∷ []) root)

-- `has_event`
unfoldable pub has_event : Text → DispatchRoot → Result Bool
has_event event root = do
  identifier ← valid_uuid event "event id"
  existing ← dispatches root
  ok (any (is_event identifier) existing)
