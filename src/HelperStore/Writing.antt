-- ===== src/HelperStore/Writing.antt =====
-- The bindings that `reserve` and `register` write, against what was there.
use cross_agent_chat.Prelude.{
  if◌then◌else◌, keep, any, All, ◌≡◌, refl, true, ◌&&◌, Option, none, some, List, [], ◌∷◌, map,
  arith,
}
use cross_agent_chat.Core.{ok}
use cross_agent_chat.Core.StateFile.{map_ok}
use cross_agent_chat.Route.{Route}
use cross_agent_chat.Helper.{
  HelperState, unknown, registered, retired, Binding, check_helper, check_reserved, check_binding,
  is_registered, retire,
}
use cross_agent_chat.Helper.Codec.{IsBinding, check_binding-ok}
use cross_agent_chat.HelperStore.{binding_eq, is_of, retire_match}
use cross_agent_chat.HelperStore.Reading.{among_matches}
use cross_agent_chat.Text.{Text}

-- What `reserve` makes of an earlier binding of the same original.
unfoldable pub retired_of : Route → Binding → Binding
retired_of original b =
    if is_of original b && is_registered b.state then record b { state = retired } else b

reserved_same :
    (b : Binding) (state : HelperState) (session generation : Option Text)
    → check_reserved
        (record b { state = state; helper_session_id = session; helper_generation = generation })
      ≡ check_reserved b
unfolding check_reserved
reserved_same b state session generation = refl

-- A binding with another state and helper.
pub restated-IsBinding :
    (b : Binding) (state : HelperState) (session generation : Option Text)
    → IsBinding b
    → check_helper state session generation ≡ ok tt
    → IsBinding
        (record b { state = state; helper_session_id = session; helper_generation = generation })
unfolding check_binding
restated-IsBinding b state session generation v h =
    rw (reserved_same b state session generation, (check_binding-ok b b v).1, h) refl

registered_helper :
    (state : HelperState) (session generation : Option Text)
    → check_helper state session generation ≡ ok tt
    → is_registered state ≡ true
    → check_helper retired session generation ≡ ok tt
unfolding check_helper is_registered
registered_helper unknown s g h r = absurd (cc)
registered_helper retired s g h r = h
registered_helper registered none g h r = absurd (cc)
registered_helper registered (some s) none h r = absurd (cc)
registered_helper registered (some s) (some g) h r = h

retired-IsBinding :
    (b : Binding)
    → IsBinding b
    → is_registered b.state ≡ true
    → IsBinding (record b { state = retired })
retired-IsBinding b v r =
    restated-IsBinding b retired b.helper_session_id b.helper_generation v (
      registered_helper b.state b.helper_session_id b.helper_generation (check_binding-ok b b v).2
        r)

retire-retired :
    (b : Binding)
    → IsBinding b
    → is_registered b.state ≡ true
    → retire b ≡ ok (record b { state = retired })
unfolding retire
retire-retired b v r = rw (r, retired-IsBinding b v r) refl

retire_match-retired_of :
    (original : Route) (ms : List Binding) (b : Binding)
    → IsBinding b
    → any (binding_eq b) ms ≡ is_of original b
    → retire_match ms b ≡ ok (retired_of original b)
unfolding retire_match retired_of
retire_match-retired_of original ms b v e = ground (arith, retire-retired b v)

map_ok-retire :
    (original : Route) (ms bs : List Binding)
    → All IsBinding bs
    → All (λ b. any (binding_eq b) ms ≡ is_of original b) bs
    → map_ok (retire_match ms) bs ≡ ok (map (retired_of original) bs)
unfolding map_ok
map_ok-retire original ms [] v e = refl
map_ok-retire original ms (b ∷ bs) v e =
    rw (retire_match-retired_of original ms b v.0 e.0, map_ok-retire original ms bs v.1 e.1) refl

-- The loop of `reserve` over the list, on bindings that were read.
pub reserve_kept :
    (original : Route) (bs : List Binding)
    → All IsBinding bs
    → map_ok (retire_match (keep (is_of original) bs)) bs ≡ ok (map (retired_of original) bs)
reserve_kept original bs v =
    map_ok-retire original (keep (is_of original) bs) bs v (among_matches original bs)

pub retired_of-IsBinding :
    (original : Route) (bs : List Binding)
    → All IsBinding bs
    → All IsBinding (map (retired_of original) bs)
unfolding retired_of
retired_of-IsBinding original [] v = tt
retired_of-IsBinding original (b ∷ bs) v =
    (ground (arith, retired-IsBinding b v.0, v.0), retired_of-IsBinding original bs v.1)

pub retired_of_keys :
    (original : Route) (b : Binding)
    → ((retired_of original b).original_session_id ≡ b.original_session_id)
      × ((retired_of original b).original_generation ≡ b.original_generation)
      × ((retired_of original b).helper_directory ≡ b.helper_directory)
      × ((retired_of original b).nonce_sha256 ≡ b.nonce_sha256)
      × ((retired_of original b).helper_session_id ≡ b.helper_session_id)
      × ((retired_of original b).helper_generation ≡ b.helper_generation)
unfolding retired_of
retired_of_keys original b = ground arith
