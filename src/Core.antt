-- ===== src/Core.antt =====
-- core.py: what the parts of it share. Rejections are values, and what the standard library's
-- tables and digests give is a record of functions.
pub mod Ids
pub mod StateFile
pub mod Paths
pub mod Intent
use cross_agent_chat.Prelude.{ℕ, String, ◌≡◌, refl, Bool, true, false, Option, none, some}
use cross_agent_chat.Text.{Text, is_hex64}

pub data Status : Type 0 where
  pending remote_authorized pre_effect_rejected transport_accepted unknown_delivery
        resolved_by_owner :
      Status

-- `ChatError` by its message: `invalid f` is f"{f} is invalid"; the messages that quote an event
-- carry it.
pub data Error : Type 0 where
  invalid : String → Error
  message : String → Error
  unresolved : Text → Status → Error
  abandoned : Text → Status → Error
  already_decided : Text → Status → Error
  too_young : Text → Status → Error

-- What a validator returns: its value, or the `ChatError` that it raises.
pub data Result {ℓ} (Value : Type ℓ) : Type ℓ where
  err : Error → Result Value
  ok : Value → Result Value

infixl 5 ◌>>=◌ ◌>>◌
-- The next statement runs unless this one raises.
abbrev pub ◌>>=◌ {ℓ ι} : {V : Type ℓ} {W : Type ι} → Result V → (V → Result W) → Result W
err raised >>= continue = err raised
ok value >>= continue = continue value

abbrev pub ◌>>◌ {ℓ ι} : {V : Type ℓ} {W : Type ι} → Result V → Result W → Result W
first >> second = first >>= λ _. second

-- `if not test: fail(message)`
abbrev pub require : Bool → Error → Result (Unit {0})
require true e = ok tt
require false e = err e

abbrev pub or_fail {ℓ} : {A : Type ℓ} → Option A → Error → Result A
or_fail none e = err e
or_fail (some a) e = ok a

-- What the standard library's tables give: `unicodedata.category`, `datetime.fromisoformat`
-- followed by the conversion to UTC (`none` for its `ValueError` and for a naive time),
-- `datetime.isoformat`, and the hexadecimal SHA-256 digest of a text's UTF-8. A time is its
-- number of microseconds since the year 1.
pub record Env : Type 0 where
  pub category : ℕ → String
  pub parse_time : Text → Option ℕ
  pub iso_time : ℕ → Text
  pub sha256 : Text → Text
  pub parse-iso_time : (t : ℕ) → parse_time (iso_time t) ≡ some t
  pub sha256-is_hex64 : (s : Text) → is_hex64 (sha256 s) ≡ true

-- A chain that does not raise ran its first statement.
pub >>=-ok {ℓ ι} :
    {V : Type ℓ} {W : Type ι} (first : Result V) (continue : V → Result W) {w : W}
    → (first >>= continue) ≡ ok w
    → (value : V) × (first ≡ ok value) × (continue value ≡ ok w)
>>=-ok (err raised) continue succeeds = absurd (cc)
>>=-ok (ok value) continue succeeds = (value, refl, succeeds)

pub then_ok {ℓ ι} :
    {V : Type ℓ} {W : Type ι} (first : Result V) (second : Result W) {w : W}
    → (first >> second) ≡ ok w
    → second ≡ ok w
then_ok (err raised) second succeeds = absurd (cc)
then_ok (ok value) second succeeds = succeeds

pub require-ok {κ} :
    {B : Type κ} (test : Bool) (e : Error) (m : Result B) {b : B}
    → (require test e >> m) ≡ ok b
    → (test ≡ true) × (m ≡ ok b)
require-ok true e m h = (refl, h)
require-ok false e m h = absurd (cc)

pub or_fail-ok {ℓ κ} :
    {A : Type ℓ} {B : Type κ} (o : Option A) (e : Error) (f : A → Result B) {b : B}
    → (or_fail o e >>= f) ≡ ok b
    → (a : A) × (o ≡ some a) × (f a ≡ ok b)
or_fail-ok none e f h = absurd (cc)
or_fail-ok (some a) e f h = (a, refl, h)

pub ok-injective {ℓ} : {A : Type ℓ} {a b : A} → ok a ≡ ok b → a ≡ b
ok-injective h = cc

pub some-injective {ℓ} : {A : Type ℓ} {a b : A} → some a ≡ some b → a ≡ b
some-injective h = cc
