-- ===== src/Core/Ids.antt =====
-- core.py: the validators of identities, names and timestamps.
use cross_agent_chat.Prelude.{
  leb, eqb, if◌then◌else◌, Bool-cases, length, any, ℕ, String, ◌≡◌, ◌⊎◌, inl, inr, Bool, true,
  false, not, ◌&&◌, ◌||◌, arith,
}
use cross_agent_chat.Text.{Text, ◌==◌, ==_refl, uuid_re, device_re, devin_session_re}
use cross_agent_chat.Text.Uuid.{uuid_str, uuid_str-uuid_re}
use text.Mathlib.Text.{starts_with}
use cross_agent_chat.Core.{invalid, Result, ok, err, ◌>>=◌, ◌>>◌, require, or_fail, Env}

-- `valid_uuid`
unfoldable pub valid_uuid : Text → String → Result Text
valid_uuid value field = do
  require (uuid_re value) (invalid field)
  canonical ← or_fail (uuid_str value) (invalid field)
  require (canonical == value) (invalid field)
  ok value

-- The second test of `valid_uuid` never fails: exactly what `UUID_RE` matches is accepted.
pub valid_uuid_lem :
    (value : Text) (field : String)
    → valid_uuid value field ≡ (if uuid_re value then ok value else err (invalid field))
unfolding valid_uuid
valid_uuid_lem value field = elim (Bool-cases (uuid_re value)) [
  | inl e ↦ rw (e, uuid_str-uuid_re value e, ==_refl)
  | inr e ↦ rw e
]

pub data Provider : Type 0 where
  claude codex devin : Provider

-- `valid_session_id`
unfoldable pub valid_session_id : Provider → Text → String → Result Text
valid_session_id devin value field = do require (devin_session_re value) (invalid field); ok value
valid_session_id provider value field = valid_uuid value field

-- `valid_device`
unfoldable pub valid_device : Text → Result Text
valid_device value = do require (device_re value) (invalid "device name"); ok value

-- A code point that UTF-8 cannot encode.
unfoldable pub is_surrogate : ℕ → Bool
is_surrogate c = leb 0xD800 c && leb c 0xDFFF

abbrev pub max_name_codepoints : ℕ
max_name_codepoints = 128

module _ (env : Env) where
  -- `category(c).startswith(("C", "Zl", "Zp"))`
  unfoldable pub is_control : ℕ → Bool
  is_control c =
      starts_with (env.category c) "C"
      || starts_with (env.category c) "Zl"
      || starts_with (env.category c) "Zp"

  -- `valid_name`
  unfoldable pub valid_name : Text → String → Result Text
  valid_name value field = do
    require (not (eqb (length value) 0) && leb (length value) max_name_codepoints) (invalid field)
    require (not (any is_surrogate value)) (invalid field)
    require (not (any is_control value)) (invalid field)
    ok value

  -- `_parse_timestamp`
  unfoldable pub parse_timestamp : Text → Result ℕ
  parse_timestamp value = or_fail (env.parse_time value) (invalid "route timestamp")

-- A successful validation in a chain.
pub valid_uuid-ok {κ} :
    {B : Type κ} (value : Text) (field : String) (m : Result B) {b : B}
    → (valid_uuid value field >> m) ≡ ok b
    → (uuid_re value ≡ true) × (m ≡ ok b)
valid_uuid-ok value field m {b} h = go (Bool-cases (uuid_re value))
  where
    go : (uuid_re value ≡ true) ⊎ (uuid_re value ≡ false) → (uuid_re value ≡ true) × (m ≡ ok b)
    go (inl e) = (e, rw (valid_uuid_lem value field, e) at h)
    go (inr e) =
        let bad : Path (Result _) (err (invalid field)) (ok b) =
          rw (valid_uuid_lem value field, e) at h in
        absurd (cc)

-- The tests of `valid_name` as one.
unfoldable pub is_name : Env → Text → Bool
is_name env value =
    (not (eqb (length value) 0) && leb (length value) max_name_codepoints)
    && (not (any is_surrogate value) && not (any (is_control env) value))

-- A name is accepted, unchanged, exactly when it passes the tests.
pub valid_name_lem :
    (env : Env) (value : Text) (field : String)
    → valid_name env value field ≡ (if is_name env value then ok value else err (invalid field))
unfolding valid_name is_name
valid_name_lem env value field = ground arith

pub valid_name-ok {κ} :
    {B : Type κ} (env : Env) (value : Text) (field : String) (m : Result B) {b : B}
    → (valid_name env value field >> m) ≡ ok b
    → (is_name env value ≡ true) × (m ≡ ok b)
valid_name-ok env value field m {b} h = go (Bool-cases (is_name env value))
  where
    go :
        (is_name env value ≡ true) ⊎ (is_name env value ≡ false)
        → (is_name env value ≡ true) × (m ≡ ok b)
    go (inl e) = (e, rw (valid_name_lem env value field, e) at h)
    go (inr e) =
        let bad : Path (Result _) (err (invalid field)) (ok b) =
          rw (valid_name_lem env value field, e) at h in
        absurd (cc)
