-- ===== src/Mcp/Replies.antt =====
-- What a session answers.
use cross_agent_chat.Prelude.{
  ℕ, ◌≡◌, refl, Bool, true, Option, none, some, List, [], ◌∷◌, map, arith,
}
use cross_agent_chat.Json.{Json, null, obj, Fields, get}
use cross_agent_chat.Text.{Text, codes, ◌==◌}
use cross_agent_chat.Rpc.{RequestId, request_id, id_json, Outcome, success, error, request_fields}
use cross_agent_chat.Mcp.{
  Session, initialize, outcome_response, call_dispatch, call_method, handle_request, handle_id,
  handle_object, handle_one, handle_batch,
}

-- The id that a response carries.
unfoldable pub id_of : Json → Json
id_of (obj fs) = elim (get (codes "id") fs) [ none ↦ null | some k ↦ k ]
id_of _ = null

-- The id that answers a message: none for a notification, and `null` for what is no request.
unfoldable pub expected_id : Json → Option Json
expected_id j = elim (request_fields j) [
  | none ↦ some null
  | some fs ↦ elim (get (codes "id") fs) [
    | none ↦ none
    | some k ↦ elim (request_id k) [ none ↦ some null | some i ↦ some (id_json i) ]
  ]
]

unfoldable pub expected_ids : List Json → List Json
expected_ids [] = []
expected_ids (j ∷ js) = elim (expected_id j) [
  | none ↦ expected_ids js
  | some k ↦ k ∷ expected_ids js
]

abbrev option_id : Option Json → Option Json
option_id none = none
option_id (some j) = some (id_of j)

id_of-success : (i : RequestId) (r : Json) → id_of (success i r) ≡ id_json i
unfolding id_of success get ◌==◌
id_of-success i r = refl

id_of-error : (k : Json) (c : ℕ) (m : Text) → id_of (error k c m) ≡ k
unfolding id_of error get ◌==◌
id_of-error k c m = refl

module _ {World : Type 0} (initialize_result : World → Json)
    (dispatch : Text → Fields → World → Outcome × World) where
  id_of-initialize :
      (b : Bool) (i : RequestId) (ps : Fields) (s : Session World)
      → id_of (initialize initialize_result dispatch b i ps s).0 ≡ id_json i
  unfolding initialize
  id_of-initialize b i ps s = grind (arith, id_of-success, id_of-error)

  id_of-outcome :
      (i : RequestId) (o : Outcome)
      → id_of (outcome_response initialize_result dispatch i o) ≡ id_json i
  unfolding outcome_response
  id_of-outcome i o = grind (arith, id_of-success, id_of-error)

  id_of-call_method :
      (b : Bool) (i : RequestId) (m : Text) (ps : Fields) (s : Session World)
      → id_of (call_method initialize_result dispatch b i m ps s).0 ≡ id_json i
  unfolding call_method call_dispatch
  id_of-call_method b i m ps s = grind (
    arith,
    id_of-initialize b i ps s,
    id_of-success,
    id_of-error,
    id_of-outcome i (dispatch m ps s.world).0,
  )

  id_of-handle_request :
      (b : Bool) (i : RequestId) (fs : Fields) (s : Session World)
      → id_of (handle_request initialize_result dispatch b i fs s).0 ≡ id_json i
  unfolding handle_request
  id_of-handle_request b i fs s = grind (arith, id_of-error, id_of-call_method b i)

  handle_one_id :
      (b : Bool) (j : Json) (s : Session World)
      → option_id (handle_one initialize_result dispatch b j s).0 ≡ expected_id j
  unfolding handle_one handle_object handle_id expected_id
  handle_one_id b j s = grind (arith, id_of-error, id_of-handle_request b)

  -- The responses to a batch carry, in its order, the ids of its requests, and `null` for each
  -- element that is no request; a notification has no response.
  pub handle_batch_ids :
      (js : List Json) (s : Session World)
      → map id_of (handle_batch initialize_result dispatch js s).0 ≡ expected_ids js
  unfolding handle_batch expected_ids
  handle_batch_ids [] s = refl
  handle_batch_ids (j ∷ js) s = grind (
    arith,
    handle_one_id true j s,
    handle_batch_ids js (handle_one initialize_result dispatch true j s).1,
  )
