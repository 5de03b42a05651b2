-- ===== src/NativeDispatch/Claims.antt =====
-- `claim` and `has_event`, and a dispatch against its object.
use cross_agent_chat.Prelude.{
  any, All, any-append, All-append, ◌≡◌, refl, sym, ap, ◌∙◌, subst, true, false, not, List, [], ◌∷◌,
  ◌++◌, arith,
}
use cross_agent_chat.Core.{
  Error, message, Result, err, ok, ◌>>=◌, ◌>>◌, require, Env, >>=-ok, require-ok, ok-injective,
}
use cross_agent_chat.Core.Ids.{valid_uuid, valid_uuid_lem, valid_uuid-ok}
use cross_agent_chat.Core.StateFile.{
  read_rows, read_rows-atomic_json, map_ok, map_ok-map, map_ok-All,
}
use cross_agent_chat.Json.{Json, obj, get, keys, member, subset, keys_are, as_str}
use cross_agent_chat.Route.{Route}
use cross_agent_chat.Text.{Text, ◌==◌, ==_refl, is_hex64}
use cross_agent_chat.Helper.Codec.{all_texts}
use cross_agent_chat.NativeDispatch.{
  Dispatch, check_dispatch, dispatch_to_dict, dispatch_fields, dispatch_text, dispatch_of_fields,
  dispatch_from_dict, DispatchRoot, dispatches, store_dispatches, is_event, new_dispatch,
  claim_dispatch, has_event, bad_dispatches,
}

-- A dispatch that its class accepts.
abbrev IsDispatch : Dispatch → Type 0
IsDispatch d = check_dispatch d ≡ ok d

check_dispatch-ok : (d d' : Dispatch) → check_dispatch d ≡ ok d' → (d' ≡ d)
unfolding check_dispatch
check_dispatch-ok d d' h = ground arith

check_dispatch_event :
    (d d' : Dispatch) → check_dispatch d ≡ ok d' → valid_uuid d.event_id "event id" ≡ ok d.event_id
unfolding check_dispatch
check_dispatch_event d d' h =
    let (e, _) =
      valid_uuid-ok d.event_id "event id"
        (valid_uuid d.helper_session_id "helper session id"
          >> (valid_uuid d.helper_generation "helper generation"
              >> (valid_uuid d.original_session_id "original session id"
                  >> (valid_uuid d.original_generation "original generation"
                      >> (require (is_hex64 d.payload_sha256) (message "native dispatch is invalid")
                          >> ok d)))))
        h in
    valid_uuid_lem d.event_id "event id" ∙ rw e refl

dispatch_from_dict-to_dict :
    (d : Dispatch) → IsDispatch d → dispatch_from_dict (dispatch_to_dict d) ≡ ok d
unfolding dispatch_of_fields dispatch_from_dict dispatch_to_dict dispatch_text all_texts keys_are
    subset member keys get as_str dispatch_fields ◌==◌
dispatch_from_dict-to_dict d h = h

dispatch_from_dict-IsDispatch :
    (j : Json) (d : Dispatch) → dispatch_from_dict j ≡ ok d → IsDispatch d
unfolding dispatch_from_dict
dispatch_from_dict-IsDispatch (obj fs) d h =
    let (c, _, checked) = >>=-ok (dispatch_of_fields fs) check_dispatch h in
    let same = check_dispatch-ok c d checked in rw (← same) at checked
dispatch_from_dict-IsDispatch j d h = absurd (cc)

dispatches-IsDispatch :
    (root : DispatchRoot) (ds : List Dispatch) → dispatches root ≡ ok ds → All IsDispatch ds
unfolding dispatches
dispatches-IsDispatch root ds h =
    let (raw, _, h₁) =
      >>=-ok (read_rows root.dispatches_file bad_dispatches bad_dispatches)
        (map_ok dispatch_from_dict) h in
    map_ok-All IsDispatch dispatch_from_dict dispatch_from_dict-IsDispatch raw ds h₁

dispatches-store_dispatches :
    (ds : List Dispatch) (root : DispatchRoot)
    → All IsDispatch ds
    → dispatches (store_dispatches ds root) ≡ ok ds
unfolding dispatches store_dispatches
dispatches-store_dispatches ds root g = rw (
  read_rows-atomic_json,
  map_ok-map IsDispatch dispatch_from_dict dispatch_to_dict dispatch_from_dict-to_dict ds g,
)

module _ (env : Env) where
  -- What a claim that succeeds checked and wrote.
  record Claimed (event : Text) (root : DispatchRoot) (d : Dispatch) (root' : DispatchRoot)
      : Type 0 where
    existing : List Dispatch
    named : d.event_id ≡ event
    valid : IsDispatch d
    reads : dispatches root ≡ ok existing
    fresh : any (is_event event) existing ≡ false
    written : root' ≡ store_dispatches (existing ++ d ∷ []) root

  -- The end of `claim`.
  abbrev claim_on : List Dispatch → Dispatch → DispatchRoot → Result (Dispatch × DispatchRoot)
  claim_on existing new root =
      require (not (any (is_event new.event_id) existing))
        (message "native dispatch is unavailable")
      >> ok (new, store_dispatches (existing ++ new ∷ []) root)

  claim_dispatch-Claimed :
      (helper original : Route) (event body : Text) (root root' : DispatchRoot) (d : Dispatch)
      → claim_dispatch env helper original event body root ≡ ok (d, root')
      → Claimed event root d root'
  unfolding claim_dispatch new_dispatch
  claim_dispatch-Claimed helper original event body root root' d h =
      let (new, made, h₁) =
        >>=-ok (check_dispatch (new_dispatch env helper original event body))
          (λ (n : Dispatch).
            require root.is_private (message "private directory is unsafe")
            >> (dispatches root >>= λ (existing : List Dispatch). claim_on existing n root))
          h in
      let (_, h₂) =
        require-ok root.is_private (message "private directory is unsafe")
          (dispatches root >>= λ (existing : List Dispatch). claim_on existing new root) h₁ in
      let (existing, reads, h₃) =
        >>=-ok (dispatches root) (λ (existing : List Dispatch). claim_on existing new root) h₂ in
      let (free, h₄) =
        require-ok (not (any (is_event new.event_id) existing))
          (message "native dispatch is unavailable")
          (ok (new, store_dispatches (existing ++ new ∷ []) root)) h₃ in
      let same : new ≡ d = ap (λ (p : Dispatch × DispatchRoot). p.0) (ok-injective h₄) in
      let shape : new ≡ new_dispatch env helper original event body =
        check_dispatch-ok (new_dispatch env helper original event body) new made in
      let named : new.event_id ≡ event = ap (λ (x : Dispatch). x.event_id) shape in
      record {
        existing = existing;
        named = ap (λ (x : Dispatch). x.event_id) (sym same) ∙ named;
        valid =
            subst IsDispatch same
              (subst (λ (x : Dispatch). check_dispatch x ≡ ok new) (sym shape) made);
        reads = reads;
        fresh = subst (λ (t : Text). any (is_event t) existing ≡ false) named (ground arith);
        written =
            sym (ap (λ (p : Dispatch × DispatchRoot). p.1) (ok-injective h₄))
            ∙ ap (λ (x : Dispatch). store_dispatches (existing ++ x ∷ []) root) same;
      }

  -- Claims that succeed, one after another.
  pub data Claims : DispatchRoot → DispatchRoot → Type 0 where
    done : (root : DispatchRoot) → Claims root root
    claiming :
        (helper original : Route) (event body : Text) (d : Dispatch)
        (root root' final : DispatchRoot)
        → claim_dispatch env helper original event body root ≡ ok (d, root')
        → Claims root' final
        → Claims root final

  Claimed-reads :
      (event : Text) (root root' : DispatchRoot) (d : Dispatch)
      → (c : Claimed event root d root') → dispatches root' ≡ ok (c.existing ++ d ∷ [])
  Claimed-reads event root root' d c = rw c.written (
      dispatches-store_dispatches (c.existing ++ d ∷ []) root (
        All-append IsDispatch c.existing (d ∷ []) (dispatches-IsDispatch root c.existing c.reads)
          (c.valid, tt)))

  -- A store that has an event keeps it.
  Claims-has :
      (event : Text) (root final : DispatchRoot)
      → Claims root final
      → (ds : List Dispatch) → dispatches root ≡ ok ds
      → any (is_event event) ds ≡ true
      → (es : List Dispatch) × (dispatches final ≡ ok es) × (any (is_event event) es ≡ true)
  Claims-has event root final (done r) ds reads has = (ds, reads, has)
  Claims-has event root final (claiming helper original event' body d r root' f h rest) ds reads
        has =
      let c = claim_dispatch-Claimed helper original event' body root root' d h in
      let same : ds ≡ c.existing = ok-injective (sym reads ∙ c.reads) in
      Claims-has event root' final rest (c.existing ++ d ∷ []) (Claimed-reads event' root root' d c)
        (any-append (is_event event) c.existing (d ∷ []) ∙ rw (← same, has) refl)

  Claimed-has :
      (event : Text) (root : DispatchRoot) (d : Dispatch) (root' : DispatchRoot)
      → (c : Claimed event root d root') → any (is_event event) (c.existing ++ d ∷ []) ≡ true
  unfolding is_event
  Claimed-has event root d root' c =
      any-append (is_event event) c.existing (d ∷ []) ∙ rw (c.named, ==_refl, c.fresh) refl

  event_valid :
      (event : Text) (root : DispatchRoot) (d : Dispatch) (root' : DispatchRoot)
      → Claimed event root d root'
      → valid_uuid event "event id" ≡ ok event
  event_valid event root d root' c =
      subst (λ (t : Text). valid_uuid t "event id" ≡ ok t) c.named
        (check_dispatch_event d d c.valid)

  known :
      (event : Text) (es : List Dispatch) (root : DispatchRoot)
      → valid_uuid event "event id" ≡ ok event
      → dispatches root ≡ ok es
      → any (is_event event) es ≡ true
      → has_event event root ≡ ok true
  unfolding has_event
  known event es root v reads has = rw (v, reads, has) refl

  -- An event that was claimed is known to `has_event` after any further claims, and every later
  -- claim of it is refused, whoever makes it and whatever its message.
  pub claim_dispatch-at_most_once :
      (helper helper' original original' : Route) (event body body' : Text) (d : Dispatch)
      (root root' final : DispatchRoot)
      → claim_dispatch env helper original event body root ≡ ok (d, root')
      → Claims root' final
      → (has_event event final ≡ ok true)
        × (e : Error) × (claim_dispatch env helper' original' event body' final ≡ err e)
  claim_dispatch-at_most_once helper helper' original original' event body body' d root root' final
        h run =
      let c = claim_dispatch-Claimed helper original event body root root' d h in
      let (es, reads, has) =
        Claims-has event root' final run (c.existing ++ d ∷ []) (Claimed-reads event root root' d c)
          (Claimed-has event root d root' c) in
      let (e, refused) =
        by_answer (claim_dispatch env helper' original' event body' final) refl es reads has in
      (known event es final (event_valid event root d root' c) reads has, e, refused)
    where
      by_answer :
          (r : Result (Dispatch × DispatchRoot))
          → claim_dispatch env helper' original' event body' final ≡ r
          → (es : List Dispatch) → dispatches final ≡ ok es
          → any (is_event event) es ≡ true
          → (e : Error) × (r ≡ err e)
      by_answer (err e) k es reads has = (e, refl)
      by_answer (ok (d', root'')) k es reads has =
          let c = claim_dispatch-Claimed helper' original' event body' final root'' d' k in
          let same : es ≡ c.existing = ok-injective (sym reads ∙ c.reads) in
          absurd (ground (arith, rw same at has, c.fresh))
