-- ===== src/Mcp/Handshake.antt =====
-- The handshake of a session: only a standalone `initialize` opens it.
use cross_agent_chat.Prelude.{
  any, ◌≡◌, refl, subst, inl, inr, Bool, true, false, not, ◌||◌, none, some, List, [], ◌∷◌, arith,
}
use cross_agent_chat.Json.{
  Json, null, bool, int, real, not_finite, str, arr, obj, nil, cons, Fields, to_list, get, as_str,
}
use cross_agent_chat.Text.{Text, codes, ◌==◌}
use cross_agent_chat.Rpc.{RequestId, Outcome, request_fields}
use cross_agent_chat.Mcp.{
  Phase, await_initialize, is_operational, Session, Frame, dropped, unreadable, value, new_session,
  notified, initialize, call_dispatch, call_method, handle_request, handle_id, handle_object,
  handle_one, handle_batch, handle, serve_frame, serve,
}
use cross_agent_chat.Mcp.Lifecycle.{serve-IsSafe}

-- A message that is an object with the method `initialize`.
unfoldable pub asks_initialize : Json → Bool
asks_initialize (obj fs) = elim (as_str (get (codes "method") fs)) [
  | none ↦ false
  | some method ↦ method == codes "initialize"
]
asks_initialize _ = false

unfoldable pub opens : Frame → Bool
opens (value j) = asks_initialize j
opens _ = false

module _ {World : Type 0} (initialize_result : World → Json)
    (dispatch : Text → Fields → World → Outcome × World) where
  waits-initialize :
      (b : Bool) (i : RequestId) (m : Text) (ps : Fields) (s : Session World)
      → s.phase ≡ await_initialize
      → (b || not (m == codes "initialize")) ≡ true
      → (call_method initialize_result dispatch b i m ps s).1.phase ≡ await_initialize
  unfolding call_method initialize call_dispatch
  waits-initialize b i m ps s h k = ground arith

  waits-request :
      (b : Bool) (i : RequestId) (fs : Fields) (s : Session World)
      → s.phase ≡ await_initialize
      → (b || not (asks_initialize (obj fs))) ≡ true
      → (handle_request initialize_result dispatch b i fs s).1.phase ≡ await_initialize
  unfolding handle_request asks_initialize
  waits-request b i fs s h k = grind (arith, waits-initialize b i)

  waits-notified : (fs : Fields) → notified fs await_initialize ≡ await_initialize
  unfolding notified
  waits-notified fs = refl

  waits-object :
      (b : Bool) (fs : Fields) (s : Session World)
      → s.phase ≡ await_initialize
      → (b || not (asks_initialize (obj fs))) ≡ true
      → (handle_object initialize_result dispatch b fs s).1.phase ≡ await_initialize
  unfolding handle_object handle_id
  waits-object b fs s h k = grind (arith, waits-request b, waits-notified fs)

  waits-one :
      (b : Bool) (j : Json) (s : Session World)
      → s.phase ≡ await_initialize
      → (b || not (asks_initialize j)) ≡ true
      → (handle_one initialize_result dispatch b j s).1.phase ≡ await_initialize
  unfolding handle_one request_fields
  waits-one b j s h k = grind (arith, waits-object b)

  waits-batch :
      (js : List Json) (s : Session World)
      → s.phase ≡ await_initialize
      → (handle_batch initialize_result dispatch js s).1.phase ≡ await_initialize
  unfolding handle_batch
  waits-batch [] s h = h
  waits-batch (j ∷ js) s h = waits-batch js _ (waits-one true j s h refl)

  waits-handle :
      (j : Json) (s : Session World)
      → s.phase ≡ await_initialize
      → asks_initialize j ≡ false
      → (handle initialize_result dispatch j s).1.phase ≡ await_initialize
  unfolding handle
  waits-handle (arr nil) s h k = h
  waits-handle (arr (cons j js)) s h k = waits-batch (to_list (cons j js)) s h
  waits-handle null s h k = waits-one false null s h (rw k refl)
  waits-handle (bool b) s h k = waits-one false (bool b) s h (rw k refl)
  waits-handle (int i) s h k = waits-one false (int i) s h (rw k refl)
  waits-handle (real m e) s h k = waits-one false (real m e) s h (rw k refl)
  waits-handle not_finite s h k = waits-one false not_finite s h (rw k refl)
  waits-handle (str t) s h k = waits-one false (str t) s h (rw k refl)
  waits-handle (obj fs) s h k = waits-one false (obj fs) s h (rw k refl)

  waits-serve :
      (frames : List Frame) (s : Session World)
      → s.phase ≡ await_initialize
      → any opens frames ≡ false
      → (serve initialize_result dispatch frames s).1.phase ≡ await_initialize
  unfolding serve serve_frame opens
  waits-serve [] s h k = h
  waits-serve (dropped m ∷ frames) s h k = waits-serve frames s h k
  waits-serve (unreadable ∷ frames) s h k = waits-serve frames s h k
  waits-serve (value j ∷ frames) s h k =
      waits-serve frames _ (waits-handle j s h (ground arith)) (ground arith)

  -- A new session that is sent no standalone object with the method `initialize`, only batches,
  -- other messages and bad frames, dispatches nothing: the world of `dispatch` stays as it was.
  pub serve-unopened :
      (frames : List Frame) (w : World)
      → any opens frames ≡ false
      → ((serve initialize_result dispatch frames (new_session w)).1.dispatched ≡ [])
        × ((serve initialize_result dispatch frames (new_session w)).1.world ≡ w)
  unfolding new_session is_operational
  serve-unopened frames w k = elim (serve-IsSafe initialize_result dispatch w frames).closed [
    | inl o ↦ absurd (
        let opened : is_operational await_initialize ≡ true =
          subst (λ (p : Phase). is_operational p ≡ true) (waits-serve frames (new_session w) refl k)
            o in
        cc)
    | inr c ↦ c
  ]
