-- ===== src/Text.antt =====
-- Python's `str` as the list of its code points, lone surrogates included, and the regular
-- expressions of core.py over it.

pub mod Uuid
pub mod Dict
use Prim.Native.Char.{code}
use cross_agent_chat.Prelude.{
  leb, eqb, if◌then◌else◌, eqb_iff, &&-split, length, all, ℕ, zero, suc, String, ◌≡◌, refl, ◌≢◌,
  ◌↔◌, Bool, true, false, ◌&&◌, ◌||◌, Option, none, some, List, [], ◌∷◌, arith,
}

abbrev pub Text : Type 0
Text = List ℕ

-- A literal of the source as a `str`.
abbrev pub codes : String → Text
codes String.[] = []
codes (String.◌∷◌ c s) = code c ∷ codes s

infix 50 ◌==◌
unfoldable pub ◌==◌ : Text → Text → Bool
[] == [] = true
[] == (d ∷ t) = false
(c ∷ s) == [] = false
(c ∷ s) == (d ∷ t) = eqb c d && (s == t)

pub ==_refl : (s : Text) → (s == s) ≡ true
unfolding ◌==◌
==_refl [] = refl
==_refl (c ∷ s) = ground (arith, ==_refl s, eqb_iff c c)

pub ==-sound : (s t : Text) → (s == t) ≡ true → s ≡ t
unfolding ◌==◌
==-sound [] [] h = refl
==-sound [] (d ∷ t) h = ground arith
==-sound (c ∷ s) [] h = ground arith
==-sound (c ∷ s) (d ∷ t) h =
    let (hc, ht) = &&-split (eqb c d) (s == t) h in cc ((eqb_iff c d).0 hc, ==-sound s t ht)

pub ==_iff : (s t : Text) → ((s == t) ≡ true) ↔ (s ≡ t)
==_iff s t = (==-sound s t, λ e. rw e (==_refl t))

pub ne_of_false : (s t : Text) → (s == t) ≡ false → s ≢ t
ne_of_false s t h e = ground (arith, ==_iff s t)

pub ne-false : (s t : Text) → s ≢ t → (s == t) ≡ false
ne-false s t n = ground (arith, ==_iff s t)

-- `[0-9a-f]`, `[0-9]`, `[A-Za-z0-9]`
unfoldable pub is_digit : ℕ → Bool
is_digit c = leb b'0' c && leb c b'9'

unfoldable pub is_hex_digit : ℕ → Bool
unfolding is_digit
is_hex_digit c = is_digit c || (leb b'a' c && leb c b'f')

unfoldable pub is_alphanumeric : ℕ → Bool
unfolding is_digit
is_alphanumeric c = is_digit c || (leb b'A' c && leb c b'Z') || (leb b'a' c && leb c b'z')

-- `X{n}` at the head of a text: what is left of it.
unfoldable pub class_run : (ℕ → Bool) → ℕ → Text → Option Text
class_run is_in zero s = some s
class_run is_in (suc n) [] = none
class_run is_in (suc n) (c ∷ s) = let rest = class_run is_in n s in if is_in c then rest else none

-- One given character at the head of a text.
unfoldable pub literal : ℕ → Text → Option Text
literal d [] = none
literal d (c ∷ s) = if eqb c d then some s else none

infixl 5 ◌>>=◌
abbrev pub ◌>>=◌ {ℓ κ} : {A : Type ℓ} {B : Type κ} → Option A → (A → Option B) → Option B
none >>= f = none
some a >>= f = f a

-- `\Z`
abbrev pub at_end : Option Text → Bool
at_end none = false
at_end (some []) = true
at_end (some (c ∷ s)) = false

-- `re.fullmatch(r"[0-9a-f]{64}", s)`
unfoldable pub is_hex64 : Text → Bool
unfolding class_run is_hex_digit
is_hex64 s = at_end (class_run is_hex_digit 64 s)

-- `UUID_RE`
unfoldable pub uuid_re : Text → Bool
unfolding class_run literal is_hex_digit
uuid_re s = at_end (do
  s₁ ← class_run is_hex_digit 8 s
  s₂ ← literal b'-' s₁
  s₃ ← class_run is_hex_digit 4 s₂
  s₄ ← literal b'-' s₃
  s₅ ← class_run is_hex_digit 4 s₄
  s₆ ← literal b'-' s₅
  s₇ ← class_run is_hex_digit 4 s₆
  s₈ ← literal b'-' s₇
  class_run is_hex_digit 12 s₈)

-- `SAFE_DEVICE_RE`
unfoldable pub device_re : Text → Bool
unfolding is_alphanumeric
device_re [] = false
device_re (c ∷ s) =
    is_alphanumeric c
    && leb (length s) 62
    && all (λ d. is_alphanumeric d || eqb d b'.' || eqb d b'-') s

-- `DEVIN_SESSION_RE`
unfoldable pub devin_session_re : Text → Bool
unfolding is_alphanumeric
devin_session_re [] = false
devin_session_re (c ∷ s) =
    is_alphanumeric c
    && leb 7 (length s)
    && leb (length s) 127
    && all (λ d. is_alphanumeric d || eqb d b'.' || eqb d b'_' || eqb d b'-') s
