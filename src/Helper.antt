-- ===== src/Helper.antt =====
-- native_helper.py `NativeHelperBinding`: one Codex task and its private helper.
pub mod Codec
use cross_agent_chat.Prelude.{
  eqb, if◌then◌else◌, Bool, true, false, not, ◌&&◌, Option, none, some, [], ◌∷◌,
}
use cross_agent_chat.Core.{Error, message, Result, err, ok, ◌>>=◌, ◌>>◌, require, or_fail, Env}
use cross_agent_chat.Core.Ids.{valid_uuid, valid_device}
use cross_agent_chat.Core.Paths.{stored_cwd, path_name}
use cross_agent_chat.Route.{is_codex, Route}
use cross_agent_chat.Text.{Text, codes, ◌==◌, is_hex64}

pub data HelperState : Type 0 where
  unknown registered retired : HelperState

pub record Binding : Type 0 where
  pub original_session_id : Text
  pub original_generation : Text
  pub original_device : Text
  pub original_cwd : Text
  pub original_profile_root : Text
  pub account_sha256 : Text
  pub helper_directory : Text
  pub nonce_sha256 : Text
  pub state : HelperState
  pub helper_session_id : Option Text
  pub helper_generation : Option Text

abbrev pub bad_binding : Error
bad_binding = message "native helper binding is invalid"

abbrev pub directory_prefix : Text
directory_prefix = codes "cac-native-helper-"

-- `value.removeprefix(prefix)` where `value.startswith(prefix)`.
unfoldable pub strip_prefix : Text → Text → Option Text
strip_prefix [] s = some s
strip_prefix (c ∷ p) [] = none
strip_prefix (c ∷ p) (d ∷ s) = let rest = strip_prefix p s in if eqb c d then rest else none

-- The tests of the helper's directory; the rejection of `valid_uuid` is replaced.
unfoldable pub check_directory : Text → Result (Unit {0})
check_directory directory = do
  require (path_name directory == directory) bad_binding
  identifier ← or_fail (strip_prefix directory_prefix directory) bad_binding
  elim (valid_uuid identifier "helper directory") [ err _ ↦ err bad_binding | ok _ ↦ ok tt ]

-- The tests of the helper's identity.
unfoldable pub check_helper : HelperState → Option Text → Option Text → Result (Unit {0})
check_helper unknown none none = ok tt
check_helper unknown session generation = err bad_binding
check_helper state none generation = err bad_binding
check_helper state (some session) none = err bad_binding
check_helper state (some session) (some generation) = do
  valid_uuid session "helper session id"
  valid_uuid generation "helper generation"
  ok tt

-- The tests of the original and of the reservation.
unfoldable pub check_reserved : Binding → Result (Unit {0})
check_reserved b = do
  valid_uuid b.original_session_id "original session id"
  valid_uuid b.original_generation "original generation"
  valid_device b.original_device
  stored_cwd b.original_cwd
  stored_cwd b.original_profile_root
  check_directory b.helper_directory
  require (is_hex64 b.nonce_sha256) bad_binding
  require (is_hex64 b.account_sha256) bad_binding
  ok tt

-- `__post_init__`, with the binding as its value
unfoldable pub check_binding : Binding → Result Binding
check_binding b = do
  check_reserved b
  check_helper b.state b.helper_session_id b.helper_generation
  ok b

unfoldable pub is_unknown : HelperState → Bool
is_unknown unknown = true
is_unknown _ = false

unfoldable pub is_registered : HelperState → Bool
is_registered registered = true
is_registered _ = false

-- `value == text` for a value that may be `None`.
unfoldable pub is_text : Option Text → Text → Bool
is_text none t = false
is_text (some s) t = s == t

-- `retire`
unfoldable pub retire : Binding → Result Binding
retire b = do
  require (is_registered b.state) bad_binding
  check_binding (record b { state = retired })

module _ (env : Env) where
  -- `reserve`
  unfoldable pub reserve_binding : Route → Text → Text → Text → Result Binding
  reserve_binding original nonce directory account = elim original.profile_root [
    | none ↦ err (message "native helper source is unavailable")
    | some root ↦ do
      require (is_codex original.provider) (message "native helper source is unavailable")
      check_binding (record {
        original_session_id = original.session_id;
        original_generation = original.generation;
        original_device = original.device;
        original_cwd = original.cwd;
        original_profile_root = root;
        account_sha256 = account;
        helper_directory = directory;
        nonce_sha256 = env.sha256 nonce;
        state = unknown;
        helper_session_id = none;
        helper_generation = none;
      })
  ]

  -- The context that a helper shares with its original.
  unfoldable pub fits : Route → Text → Binding → Bool
  fits helper account b =
      not (helper.session_id == b.original_session_id)
      && (helper.device == b.original_device)
      && is_text helper.profile_root b.original_profile_root
      && (path_name helper.cwd == b.helper_directory)
      && (account == b.account_sha256)

  -- `register`
  unfoldable pub register_binding : Route → Text → Text → Binding → Result Binding
  register_binding helper nonce account b = do
    require (is_unknown b.state && is_codex helper.provider)
        (message "native helper registration is unavailable")
    require (fits helper account b) (message "native helper context is invalid")
    require (env.sha256 nonce == b.nonce_sha256) (message "native helper token is invalid")
    check_binding (record b {
      state = registered;
      helper_session_id = some helper.session_id;
      helper_generation = some helper.generation;
    })
