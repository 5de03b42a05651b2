-- ===== src/Route.antt =====
-- core.py `Route`: one generation of one live provider process, its alias and its validation.
use cross_agent_chat.Json.Int.{ℤ, pos, negsuc, int_eq}
pub mod Codec
pub mod Alias
use cross_agent_chat.Prelude.{
  ltb, leb, if◌then◌else◌, length, ℕ, zero, suc, ◌+◌, ◌-◌, ◌≡◌, ◌↔◌, Bool, true, false, Option,
  none, some, [], ◌∷◌, ◌++◌, arith,
}
use cross_agent_chat.Core.{invalid, message, Result, err, ok, ◌>>=◌, ◌>>◌, require, Env}
use cross_agent_chat.Core.Ids.{
  valid_uuid, Provider, claude, codex, devin, valid_session_id, valid_device, valid_name,
  parse_timestamp,
}
use cross_agent_chat.Core.Paths.{stored_cwd}
use cross_agent_chat.Text.{Text, codes, ◌==◌, is_hex64}

unfoldable pub provider_text : Provider → Text
provider_text claude = codes "claude"
provider_text codex = codes "codex"
provider_text devin = codes "devin"

unfoldable pub provider_eq : Provider → Provider → Bool
provider_eq claude claude = true
provider_eq codex codex = true
provider_eq devin devin = true
provider_eq _ _ = false

pub provider_eq_iff : (p q : Provider) → (provider_eq p q ≡ true) ↔ (p ≡ q)
unfolding provider_eq
provider_eq_iff p q = ground arith

unfoldable pub is_devin : Provider → Bool
is_devin devin = true
is_devin _ = false

unfoldable pub is_codex : Provider → Bool
is_codex codex = true
is_codex _ = false

-- `s[:n]` for n that is not negative.
unfoldable pub take : ℕ → Text → Text
take zero s = []
take (suc n) [] = []
take (suc n) (c ∷ s) = c ∷ take n s

-- `s[: a - b]`: a negative bound counts from the end.
unfoldable pub slice_to : ℕ → ℕ → Text → Text
slice_to a b s = if leb b a then take (a - b) s else take (length s - (b - a)) s

abbrev pub alias_digest_length : ℕ
alias_digest_length = 12

abbrev pub max_alias_codepoints : ℕ
max_alias_codepoints = 128

pub record Route : Type 0 where
  pub schema_version : ℤ
  pub provider : Provider
  pub session_id : Text
  pub device : Text
  pub cwd : Text
  pub project : Text
  pub alias : Text
  pub generation : Text
  pub pid : ℤ
  pub last_seen : Text
  pub owner_identity : Option Text
  pub profile_root : Option Text

-- `pid > 0`
unfoldable pub is_positive : ℤ → Bool
is_positive (pos n) = ltb 0 n
is_positive (negsuc n) = false

module _ (env : Env) where
  -- `session_key`
  unfoldable pub session_key : Provider → Text → Result Text
  session_key provider session_id = do
    valid_session_id provider session_id "session id"
    ok (env.sha256 (provider_text provider ++ (b':' ∷ session_id)))

  -- The suffix of an alias: Codex sessions share projects.
  unfoldable pub alias_suffix : Provider → Text → Result Text
  alias_suffix codex session_id = do
    key ← session_key codex session_id
    ok (b':' ∷ take alias_digest_length key)
  alias_suffix _ session_id = ok []

  -- The project of an alias, cut to the room that is left and marked by its digest.
  unfoldable pub fit_project : ℕ → Text → Text
  fit_project available project =
      if ltb available (length project)
      then (let marker = b'~' ∷ take alias_digest_length (env.sha256 project) in
          slice_to available (length marker) project ++ marker)
      else project

  -- `friendly_alias`
  unfoldable pub friendly_alias : Provider → Text → Text → Text → Result Text
  friendly_alias provider device project session_id = do
    exact_device ← valid_device device
    let prefix = provider_text provider ++ (b'@' ∷ (exact_device ++ (b':' ∷ [])))
    suffix ← alias_suffix provider session_id
    exact_project ← valid_name env project "project"
    require (ltb (length prefix + length suffix) max_alias_codepoints) (invalid "route alias")
    let available = max_alias_codepoints - length prefix - length suffix
    let alias = prefix ++ (fit_project available exact_project ++ suffix)
    require (leb (length alias) max_alias_codepoints) (invalid "route alias")
    ok alias

  -- The last three tests of `Route.__post_init__`.
  unfoldable pub check_owner : Option Text → Option Text → Result (Unit {0})
  check_owner none none = ok tt
  check_owner none (some root) = do
    stored_cwd root
    err (message "route profile has no owner identity")
  check_owner (some owner) none = do
    require (is_hex64 owner) (invalid "route owner identity")
    ok tt
  check_owner (some owner) (some root) = do
    require (is_hex64 owner) (invalid "route owner identity")
    stored_cwd root
    ok tt

  -- `Route.__post_init__`, with the route as its value
  unfoldable pub check_route : Route → Result Route
  check_route r = do
    require (int_eq r.schema_version (pos 1)) (message "route schema is unsupported")
    valid_session_id r.provider r.session_id "session id"
    valid_uuid r.generation "route generation"
    valid_device r.device
    stored_cwd r.cwd
    valid_name env r.project "project"
    expected ← friendly_alias r.provider r.device r.project r.session_id
    require (r.alias == expected) (message "route alias conflicts with its identity")
    require (is_positive r.pid) (invalid "route process")
    parse_timestamp env r.last_seen
    check_owner r.owner_identity r.profile_root
    ok r
