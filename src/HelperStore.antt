-- ===== src/HelperStore.antt =====
-- native_helper.py `NativeHelperStore`: the bindings of one state root. Each call that writes holds
-- the lock of the helpers, so it is one step.
pub mod Reading
pub mod Writing
pub mod Agreement
pub mod Steps
pub mod Reserving
pub mod Registering
pub mod Runs
pub mod Used
pub mod Once
pub mod Draws
use cross_agent_chat.Prelude.{
  if◌then◌else◌, keep, any, distinct_by, Bool, true, false, not, ◌&&◌, ◌||◌, Option, none, some,
  List, [], ◌∷◌, ◌++◌, map,
}
use cross_agent_chat.Core.{Error, message, Result, err, ok, ◌>>=◌, ◌>>◌, require, Env}
use cross_agent_chat.Core.Paths.{path_name}
use cross_agent_chat.Core.StateFile.{StateFile, read_rows, atomic_json, map_ok}
use cross_agent_chat.Route.{is_codex, Route}
use cross_agent_chat.Registry.{option_eq, routes}
use cross_agent_chat.Helper.{
  HelperState, unknown, registered, retired, Binding, directory_prefix, is_unknown, is_registered,
  is_text, retire, reserve_binding, register_binding,
}
use cross_agent_chat.Helper.Codec.{binding_to_dict, binding_from_dict}
use cross_agent_chat.Text.{Text, ◌==◌}

-- native-helpers.json
pub record HelperRoot : Type 0 where
  pub is_private : Bool
  pub helpers_file : StateFile

abbrev pub bad_state : Error
bad_state = message "native helper state is invalid"

-- `item.state in {"UNKNOWN", "REGISTERED"}`
unfoldable pub is_active : Binding → Bool
is_active b = elim b.state [ retired ↦ false | _ ↦ true ]

-- `item.state in {"REGISTERED", "RETIRED"}`
unfoldable pub has_helper : Binding → Bool
has_helper b = not (is_unknown b.state)

unfoldable pub same_original : Binding → Binding → Bool
same_original a b =
    (a.original_session_id == b.original_session_id)
    && (a.original_generation == b.original_generation)

unfoldable pub same_directory : Binding → Binding → Bool
same_directory a b = a.helper_directory == b.helper_directory

unfoldable pub same_nonce : Binding → Binding → Bool
same_nonce a b = a.nonce_sha256 == b.nonce_sha256

unfoldable pub same_helper : Binding → Binding → Bool
same_helper a b =
    option_eq a.helper_session_id b.helper_session_id
    && option_eq a.helper_generation b.helper_generation

-- The four tests of `bindings` for duplicates.
unfoldable pub consistent : List Binding → Bool
consistent bs =
    (distinct_by same_original (keep is_active bs) && distinct_by same_directory bs)
    && (distinct_by same_nonce bs && distinct_by same_helper (keep has_helper bs))

-- `bindings`
unfoldable pub bindings : HelperRoot → Result (List Binding)
bindings root = do
  raw ← read_rows root.helpers_file bad_state bad_state
  bs ← map_ok binding_from_dict raw
  require (consistent bs) bad_state
  ok bs

-- `atomic_json(self.path, [item.to_dict() for item in bs])`
unfoldable pub store_bindings : List Binding → HelperRoot → HelperRoot
store_bindings bs root = record root { helpers_file = atomic_json (map binding_to_dict bs) }

-- `state_lock(self.root, "native-helpers")`
unfoldable pub helpers_lock : HelperRoot → Result (Unit {0})
helpers_lock root = require root.is_private (message "private directory is unsafe")

unfoldable pub state_eq : HelperState → HelperState → Bool
state_eq unknown unknown = true
state_eq registered registered = true
state_eq retired retired = true
state_eq _ _ = false

-- `item == other`
unfoldable pub binding_eq : Binding → Binding → Bool
binding_eq a b =
    (a.original_session_id == b.original_session_id)
    && (a.original_generation == b.original_generation)
    && (a.original_device == b.original_device)
    && (a.original_cwd == b.original_cwd)
    && (a.original_profile_root == b.original_profile_root)
    && (a.account_sha256 == b.account_sha256)
    && (a.helper_directory == b.helper_directory)
    && (a.nonce_sha256 == b.nonce_sha256)
    && state_eq a.state b.state
    && option_eq a.helper_session_id b.helper_session_id
    && option_eq a.helper_generation b.helper_generation

-- The bindings of an original.
unfoldable pub is_of : Route → Binding → Bool
is_of original b =
    (b.original_session_id == original.session_id) && (b.original_generation == original.generation)

unfoldable pub is_helper : Binding → Route → Bool
is_helper b route =
    is_text b.helper_session_id route.session_id && is_text b.helper_generation route.generation

-- Whether a registered helper of a binding is live; `live` answers `process_is_live` and
-- `cwd_is_available`.
unfoldable pub has_live_helper : (Route → Bool) → List Route → Binding → Bool
has_live_helper live routes b =
    is_registered b.state && any (λ route. is_helper b route && live route) routes

-- The list that `reserve` reads, where nothing forbids a reservation.
unfoldable pub reservable : (Route → Bool) → List Route → Route → HelperRoot → Result (List Binding)
reservable live routes original root = do
  helpers_lock root
  existing ← bindings root
  let matches = keep (is_of original) existing
  require (not (any (λ b. is_unknown b.state) matches || any (has_live_helper live routes) matches))
      (message "native helper bootstrap is unavailable")
  ok existing

-- The loop of `reserve` over what `uuid4` draws; `none` where every draw so far is taken.
unfoldable pub pick_directory : List Binding → List Text → Option Text
pick_directory existing [] = none
pick_directory existing (draw ∷ draws) =
    let rest = pick_directory existing draws in
    if any (λ b. b.helper_directory == directory_prefix ++ draw) existing
    then rest
    else some (directory_prefix ++ draw)

unfoldable pub retire_match : List Binding → Binding → Result Binding
retire_match matches b =
    if any (binding_eq b) matches && is_registered b.state then retire b else ok b

-- `the matches[0]` of exactly one match
unfoldable pub the_only {ℓ} : {A : Type ℓ} → List A → Error → Result A
the_only [] e = err e
the_only (a ∷ rest) e = elim rest [ [] ↦ ok a | _ ∷ _ ↦ err e ]

module _ (env : Env) where
  -- What `reserve` writes.
  unfoldable pub reserve_at :
      Route → Text → Text → Text → List Binding → HelperRoot → Result (Binding × HelperRoot)
  reserve_at original nonce account directory existing root = do
    binding ← reserve_binding env original nonce directory account
    kept ← map_ok (retire_match (keep (is_of original) existing)) existing
    ok (binding, store_bindings (kept ++ binding ∷ []) root)

  -- `reserve`
  unfoldable pub reserve :
      (Route → Bool)
      → List Route
      → Route
      → Text
      → Text
      → List Text
      → HelperRoot
      → Option (Result (Binding × HelperRoot))
  reserve live routes original nonce account draws root =
      elim (reservable live routes original root) [
        | err e ↦ some (err e)
        | ok existing ↦ elim (pick_directory existing draws) [
          | none ↦ none
          | some directory ↦ some (reserve_at original nonce account directory existing root)
        ]
      ]

  unfoldable pub has_nonce : Text → Binding → Bool
  has_nonce nonce b = b.nonce_sha256 == env.sha256 nonce

  -- `register`
  unfoldable pub register : Route → Text → Route → Text → HelperRoot → Result (Binding × HelperRoot)
  register helper nonce original account root = do
    helpers_lock root
    existing ← bindings root
    awaiting ←
        the_only (keep (has_nonce nonce) existing)
          (message "native helper registration is unavailable")
    require (is_of original awaiting && is_codex original.provider)
        (message "native helper original route changed")
    bound ← register_binding env helper nonce account awaiting
    ok (bound, store_bindings (map (λ b. if binding_eq b awaiting then bound else b) existing) root)

  -- `original_for_nonce`
  unfoldable pub original_for_nonce : Text → List Route → HelperRoot → Result Route
  original_for_nonce nonce routes root = do
    existing ← bindings root
    b ←
        the_only (keep (has_nonce nonce) existing)
          (message "native helper registration is unavailable")
    the_only (keep (λ route. is_codex route.provider && is_of route b) routes)
        (message "native helper original route changed")

-- `pending_for_helper`
unfoldable pub pending_for_helper : Route → HelperRoot → Result Bool
pending_for_helper route root = do
  existing ← bindings root
  ok (
      any
        (λ b.
          is_unknown b.state
          && (b.original_device == route.device)
          && is_text route.profile_root b.original_profile_root
          && (path_name route.cwd == b.helper_directory))
        existing)

-- The current route of a binding's original.
unfoldable pub is_original : Binding → Route → Bool
is_original b route =
    is_codex route.provider
    && is_of route b
    && (route.device == b.original_device)
    && is_text route.profile_root b.original_profile_root

-- `original_for_helper`
unfoldable pub original_for_helper : Route → List Route → HelperRoot → Result Route
original_for_helper helper routes root = do
  existing ← bindings root
  b ←
      the_only (keep (λ b. is_registered b.state && is_helper b helper) existing)
        (message "native helper dispatch is unavailable")
  the_only (keep (is_original b) routes) (message "native helper original route changed")

-- The live helper of a binding, in the context of its original.
unfoldable pub is_current_helper : (Route → Bool) → Route → Binding → Route → Bool
is_current_helper live original b route =
    is_codex route.provider
    && is_helper b route
    && (route.device == original.device)
    && option_eq route.profile_root original.profile_root
    && (path_name route.cwd == b.helper_directory)
    && live route

-- `helper_for_original`
unfoldable pub helper_for_original :
    (Route → Bool) → Route → List Route → HelperRoot → Result (Option Route)
helper_for_original live original routes root = do
  existing ← bindings root
  elim (keep (λ b. is_registered b.state && is_of original b) existing) [
    | [] ↦ ok none
    | b ∷ rest ↦ elim rest [
      | _ ∷ _ ↦ err (message "native helper binding is unavailable")
      | [] ↦ elim (keep (is_current_helper live original b) routes) [
        | [] ↦ ok none
        | route ∷ more ↦ elim more [ [] ↦ ok (some route) | _ ∷ _ ↦ ok none ]
      ]
    ]
  ]
