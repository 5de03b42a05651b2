-- ===== src/Mcp/Lifecycle.antt =====
-- What a session dispatches, and when.
use cross_agent_chat.Prelude.{
  Bool-cases, any, ◌≡◌, refl, sym, subst, ◌⊎◌, inl, inr, Bool, true, false, Option, none, some,
  List, [], ◌∷◌, arith,
}
use cross_agent_chat.Text.{Text, codes, ◌==◌}
use cross_agent_chat.Rpc.{RequestId, id_eq, request_id, Outcome, params_of, request_fields}
use cross_agent_chat.Mcp.{
  Phase, await_initialize, await_initialized, is_operational, Session, Frame, dropped, unreadable,
  value, new_session, notified, initialize, call_dispatch, call_method, handle_request, handle_id,
  handle_object, handle_one, handle_batch, handle, serve_frame, serve,
}
use cross_agent_chat.Json.{
  Json, null, bool, int, real, not_finite, str, arr, obj, nil, cons, Fields, to_list, get, as_str,
}
use cross_agent_chat.Mcp.Calls.{distinct_calls, all_seen, fresh-calls, id_eq_refl, all_seen-cons}

module _ {World : Type 0} (initialize_result : World → Json)
    (dispatch : Text → Fields → World → Outcome × World) (w : World) where
  -- A session that started with the world `w`: no id was dispatched twice, each dispatched id is
  -- among those seen, and before the handshake nothing was dispatched and the world is untouched.
  pub record IsSafe (s : Session World) : Type 0 where
    pub unique : distinct_calls s.dispatched ≡ true
    pub recorded : all_seen s.seen_ids s.dispatched ≡ true
    pub closed : (is_operational s.phase ≡ true) ⊎ ((s.dispatched ≡ []) × (s.world ≡ w))

  initialize-cases :
      (b : Bool) (i : RequestId) (ps : Fields) (s : Session World)
      → ((initialize initialize_result dispatch b i ps s).1 ≡ s)
        ⊎ (((initialize initialize_result dispatch b i ps s).1
              ≡ record s { phase = await_initialized })
            × (s.phase ≡ await_initialize))
  unfolding initialize
  initialize-cases b i ps s = ground arith

  initialize-IsSafe :
      (b : Bool) (i : RequestId) (ps : Fields) (s : Session World)
      → IsSafe s
      → IsSafe (initialize initialize_result dispatch b i ps s).1
  initialize-IsSafe b i ps s h = elim (initialize-cases b i ps s) [
    | inl e ↦ subst IsSafe (sym e) h
    | inr e ↦ subst IsSafe (sym e.0) (record {
      unique = h.unique;
      recorded = h.recorded;
      closed = inr (before_handshake s h (rw e.1 (unfold is_operational in refl)));
    })
  ]
    where
      before_handshake :
          (s : Session World)
          → IsSafe s
          → is_operational s.phase ≡ false
          → (s.dispatched ≡ []) × (s.world ≡ w)
      before_handshake s h k = elim h.closed [ inl o ↦ absurd (cc) | inr c ↦ c ]

  call_dispatch-IsSafe :
      (i : RequestId) (m : Text) (ps : Fields) (s : Session World)
      → IsSafe s
      → any (id_eq i) s.seen_ids ≡ false
      → is_operational s.phase ≡ true
      → IsSafe
          (call_dispatch initialize_result dispatch i m ps
            (record s { seen_ids = i ∷ s.seen_ids })).1
  unfolding call_dispatch distinct_calls
  call_dispatch-IsSafe i m ps s h fresh o = record {
    unique = rw (fresh-calls i s.seen_ids s.dispatched h.recorded fresh) h.unique;
    recorded = ground (arith, all_seen-cons i s.seen_ids s.dispatched h.recorded, id_eq_refl i);
    closed = inl o;
  }

  seen-IsSafe :
      (i : RequestId) (s : Session World)
      → IsSafe s
      → IsSafe (record s { seen_ids = i ∷ s.seen_ids })
  seen-IsSafe i s h = record {
    unique = h.unique;
    recorded = all_seen-cons i s.seen_ids s.dispatched h.recorded;
    closed = h.closed;
  }

  call_method-IsSafe :
      (b : Bool) (i : RequestId) (m : Text) (ps : Fields) (s : Session World)
      → IsSafe s
      → any (id_eq i) s.seen_ids ≡ false
      → IsSafe
          (call_method initialize_result dispatch b i m ps
            (record s { seen_ids = i ∷ s.seen_ids })).1
  unfolding call_method
  call_method-IsSafe b i m ps s h fresh = elim (Bool-cases (m == codes "initialize")) [
    | inl e ↦
        rw e (initialize-IsSafe b i ps (record s { seen_ids = i ∷ s.seen_ids }) (seen-IsSafe i s h))
    | inr e ↦ elim (Bool-cases (m == codes "ping")) [
      | inl f ↦ rw (e, f) (seen-IsSafe i s h)
      | inr f ↦ elim (Bool-cases (is_operational s.phase)) [
        | inl g ↦ rw (e, f, g) (call_dispatch-IsSafe i m ps s h fresh g)
        | inr g ↦ rw (e, f, g) (seen-IsSafe i s h)
      ]
    ]
  ]

  handle_request-IsSafe :
      (b : Bool) (i : RequestId) (fs : Fields) (s : Session World)
      → IsSafe s
      → any (id_eq i) s.seen_ids ≡ false
      → IsSafe
          (handle_request initialize_result dispatch b i fs
            (record s { seen_ids = i ∷ s.seen_ids })).1
  unfolding handle_request
  handle_request-IsSafe b i fs s h fresh =
      by_parts (as_str (get (codes "method") fs)) (params_of fs) refl refl
    where
      by_parts :
          (method : Option Text) (params : Option Fields)
          → as_str (get (codes "method") fs) ≡ method
          → params_of fs ≡ params
          → IsSafe
              (handle_request initialize_result dispatch b i fs
                (record s { seen_ids = i ∷ s.seen_ids })).1
      by_parts none params e f = rw (handle_request, e) (seen-IsSafe i s h)
      by_parts (some m) none e f = rw (handle_request, e, f) (seen-IsSafe i s h)
      by_parts (some m) (some ps) e f =
          rw (handle_request, e, f) (call_method-IsSafe b i m ps s h fresh)

  handle_id-IsSafe :
      (b : Bool) (k : Json) (fs : Fields) (s : Session World)
      → IsSafe s
      → IsSafe (handle_id initialize_result dispatch b k fs s).1
  unfolding handle_id
  handle_id-IsSafe b k fs s h = by_id (request_id k) refl
    where
      by_id :
          (o : Option RequestId)
          → request_id k ≡ o
          → IsSafe (handle_id initialize_result dispatch b k fs s).1
      by_id none e = rw (handle_id, e) h
      by_id (some i) e = elim (Bool-cases (any (id_eq i) s.seen_ids)) [
        | inl f ↦ rw (handle_id, e, f) h
        | inr f ↦ rw (handle_id, e, f) (handle_request-IsSafe b i fs s h f)
      ]

  -- A notification moves the phase only from the answered `initialize`.
  notified-cases :
      (fs : Fields) (p : Phase) → (notified fs p ≡ p) ⊎ (is_operational (notified fs p) ≡ true)
  unfolding notified is_operational
  notified-cases fs p = ground arith

  notified-IsSafe :
      (fs : Fields) (s : Session World)
      → IsSafe s
      → IsSafe (record s { phase = notified fs s.phase })
  notified-IsSafe fs s h = record {
    unique = h.unique;
    recorded = h.recorded;
    closed = elim (notified-cases fs s.phase) [ inl e ↦ rw e h.closed | inr o ↦ inl o ];
  }

  handle_object-IsSafe :
      (b : Bool) (fs : Fields) (s : Session World)
      → IsSafe s
      → IsSafe (handle_object initialize_result dispatch b fs s).1
  unfolding handle_object
  handle_object-IsSafe b fs s h = by_key (get (codes "id") fs) refl
    where
      by_key :
          (o : Option Json)
          → get (codes "id") fs ≡ o
          → IsSafe (handle_object initialize_result dispatch b fs s).1
      by_key none e = rw (handle_object, e) (notified-IsSafe fs s h)
      by_key (some k) e = rw (handle_object, e) (handle_id-IsSafe b k fs s h)

  handle_one-IsSafe :
      (b : Bool) (j : Json) (s : Session World)
      → IsSafe s
      → IsSafe (handle_one initialize_result dispatch b j s).1
  unfolding handle_one
  handle_one-IsSafe b j s h = by_fields (request_fields j) refl
    where
      by_fields :
          (o : Option Fields)
          → request_fields j ≡ o
          → IsSafe (handle_one initialize_result dispatch b j s).1
      by_fields none e = rw (handle_one, e) h
      by_fields (some fs) e = rw (handle_one, e) (handle_object-IsSafe b fs s h)

  handle_batch-IsSafe :
      (js : List Json) (s : Session World)
      → IsSafe s
      → IsSafe (handle_batch initialize_result dispatch js s).1
  unfolding handle_batch
  handle_batch-IsSafe [] s h = h
  handle_batch-IsSafe (j ∷ js) s h = handle_batch-IsSafe js _ (handle_one-IsSafe true j s h)

  handle-IsSafe :
      (j : Json) (s : Session World) → IsSafe s → IsSafe (handle initialize_result dispatch j s).1
  unfolding handle
  handle-IsSafe (arr nil) s h = h
  handle-IsSafe (arr (cons j js)) s h = handle_batch-IsSafe (to_list (cons j js)) s h
  handle-IsSafe null s h = handle_one-IsSafe false null s h
  handle-IsSafe (bool b) s h = handle_one-IsSafe false (bool b) s h
  handle-IsSafe (int i) s h = handle_one-IsSafe false (int i) s h
  handle-IsSafe (real m e) s h = handle_one-IsSafe false (real m e) s h
  handle-IsSafe not_finite s h = handle_one-IsSafe false not_finite s h
  handle-IsSafe (str t) s h = handle_one-IsSafe false (str t) s h
  handle-IsSafe (obj fs) s h = handle_one-IsSafe false (obj fs) s h

  run-IsSafe :
      (frames : List Frame) (s : Session World)
      → IsSafe s
      → IsSafe (serve initialize_result dispatch frames s).1
  unfolding serve serve_frame
  run-IsSafe [] s h = h
  run-IsSafe (dropped m ∷ frames) s h = run-IsSafe frames s h
  run-IsSafe (unreadable ∷ frames) s h = run-IsSafe frames s h
  run-IsSafe (value j ∷ frames) s h = run-IsSafe frames _ (handle-IsSafe j s h)

  -- Whatever frames a new session is sent: no request id was dispatched twice, each dispatched id
  -- is among those seen, and a session that is not operational has dispatched nothing and left the
  -- world of `dispatch` as it was.
  pub serve-IsSafe :
      (frames : List Frame) → IsSafe (serve initialize_result dispatch frames (new_session w)).1
  unfolding new_session distinct_calls
  serve-IsSafe frames = run-IsSafe frames (new_session w) new-IsSafe
    where
      new-IsSafe : IsSafe (new_session w)
      new-IsSafe = record { unique = refl; recorded = refl; closed = inr (refl, refl) }
