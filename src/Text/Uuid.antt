-- ===== src/Text/Uuid.antt =====
-- `str(UUID(value))`, the canonicality test of core.py `valid_uuid`. The 128-bit number is kept
-- as its 32 hexadecimal digits.
use mathlib.Core.List.{append-nil}
use cross_agent_chat.Prelude.{
  ltb, leb, eqb, if◌then◌else◌, eqb_iff, Bool-cases, &&-split, length, length-append, keep, all,
  keep-append, all-append, ℕ, zero, suc, ◌+◌, ◌-◌, ◌≡◌, refl, ap, ◌∙◌, inl, inr, Bool, true, not,
  ◌&&◌, Option, none, some, List, [], ◌∷◌, ◌++◌, map, arith,
}
use cross_agent_chat.Text.{Text, is_digit, is_hex_digit, class_run, literal, ◌>>=◌, at_end, uuid_re}

-- `int(c, 16)` of one character; `none` is its `ValueError`. Capital digits are left out: the
-- regular expression that is tested before admits none.
unfoldable pub nibble : ℕ → Option ℕ
unfolding is_digit
nibble c =
    if is_digit c
    then some (c - b'0')
    else if leb b'a' c && leb c b'f'
    then some (c - b'a' + 10)
    else none

-- `"%x"` of one digit.
unfoldable pub nibble_text : ℕ → ℕ
nibble_text n = if ltb n 10 then n + b'0' else n - 10 + b'a'

unfoldable pub nibbles : Text → Option (List ℕ)
unfolding nibble
nibbles [] = some []
nibbles (c ∷ s) = do n ← nibble c; ns ← nibbles s; some (n ∷ ns)

-- The first `n` characters, and the rest.
unfoldable pub split_at : ℕ → Text → Text × Text
split_at zero s = ([], s)
split_at (suc n) [] = ([], [])
split_at (suc n) (c ∷ s) = let (p, r) = split_at n s in (c ∷ p, r)

unfoldable pub hyphenated : Text → Text
unfolding split_at
hyphenated s =
    let (a, r₁) = split_at 8 s in
    let (b, r₂) = split_at 4 r₁ in
    let (c, r₃) = split_at 4 r₂ in
    let (d, e) = split_at 4 r₃ in a ++ (b'-' ∷ (b ++ (b'-' ∷ (c ++ (b'-' ∷ (d ++ (b'-' ∷ e)))))))

-- `str(UUID(s))`
unfoldable pub uuid_str : Text → Option Text
unfolding nibbles nibble_text hyphenated
uuid_str s =
    let digits = keep (λ c. not (eqb c b'-')) s in
    if eqb (length digits) 32
    then (do ns ← nibbles digits; some (hyphenated (map nibble_text ns)))
    else none

nibble-text : (c : ℕ) → is_hex_digit c ≡ true → (n : ℕ) × (nibble c ≡ some n) × (nibble_text n ≡ c)
unfolding is_hex_digit nibble nibble_text
nibble-text c h = elim (Bool-cases (is_digit c)) [
  | inl e ↦ (c - b'0', ground arith, ground arith)
  | inr e ↦ (c - b'a' + 10, ground arith, ground arith)
]

nibbles-text :
    (s : Text)
    → all is_hex_digit s ≡ true
    → (ns : List ℕ) × (nibbles s ≡ some ns) × (map nibble_text ns ≡ s)
unfolding nibbles
nibbles-text [] h = ([], refl, refl)
nibbles-text (c ∷ s) h =
    let (hc, hs) = &&-split (is_hex_digit c) (all is_hex_digit s) h in
    let (n, read, shown) = nibble-text c hc in
    let (ns, reads, showns) = nibbles-text s hs in (n ∷ ns, rw (read, reads), cc (shown, showns))

class_run-parts :
    (is_in : ℕ → Bool) (n : ℕ) (s r : Text)
    → class_run is_in n s ≡ some r
    → (a : Text) × (s ≡ a ++ r) × (length a ≡ n) × (all is_in a ≡ true)
unfolding class_run
class_run-parts is_in zero s r h = ([], ground arith, refl, refl)
class_run-parts is_in (suc n) [] r h = absurd (cc)
class_run-parts is_in (suc n) (c ∷ s) r h = elim (Bool-cases (is_in c)) [
  | inl e ↦
      let (a, p, q, w) = class_run-parts is_in n s r (rw (← h, e)) in
      (c ∷ a, ap (◌∷◌ c) p, omega (arith, q), rw (e, w))
  | inr e ↦ absurd (ground arith)
]

literal-parts : (d : ℕ) (s r : Text) → literal d s ≡ some r → s ≡ d ∷ r
unfolding literal
literal-parts d [] r h = absurd (cc)
literal-parts d (c ∷ s) r h = ground (arith, eqb_iff c d)

split_at-append : (a r : Text) → split_at (length a) (a ++ r) ≡ (a, r)
unfolding split_at
split_at-append [] r = refl
split_at-append (c ∷ a) r = rw (split_at-append a r)

-- A field of a UUID: hexadecimal digits, so many.
record Digits (n : ℕ) (a : Text) : Type 0 where
  long : length a ≡ n
  hex : all is_hex_digit a ≡ true

no_hyphen : (a : Text) → all is_hex_digit a ≡ true → keep (λ c. not (eqb c b'-')) a ≡ a
unfolding is_hex_digit is_digit
no_hyphen [] h = refl
no_hyphen (c ∷ a) h =
    let (hc, ha) = &&-split (is_hex_digit c) (all is_hex_digit a) h in
    ground (arith, no_hyphen a ha)

abbrev uuid_text : Text → Text → Text → Text → Text → Text
uuid_text a b c d e = a ++ (b'-' ∷ (b ++ (b'-' ∷ (c ++ (b'-' ∷ (d ++ (b'-' ∷ e)))))))

at_end-bind :
    (m : Option Text) (f : Text → Option Text)
    → at_end (m >>= f) ≡ true
    → (r : Text) × (m ≡ some r) × (at_end (f r) ≡ true)
at_end-bind none f h = absurd (cc)
at_end-bind (some r) f h = (r, refl, h)

-- A run of digits and a hyphen at the head.
field_parts :
    (n : ℕ) (s : Text) (f : Text → Option Text)
    → at_end (class_run is_hex_digit n s >>= λ t. literal b'-' t >>= f) ≡ true
    → (a r : Text) × (s ≡ a ++ (b'-' ∷ r)) × Digits n a × (at_end (f r) ≡ true)
field_parts n s f h =
    let (t, run, h₁) = at_end-bind (class_run is_hex_digit n s) (λ t. literal b'-' t >>= f) h in
    let (r, lit, h₂) = at_end-bind (literal b'-' t) f h₁ in
    let (a, p, q, w) = class_run-parts is_hex_digit n s t run in
    (a, r, p ∙ ap (◌++◌ a) (literal-parts b'-' t r lit), record { long = q; hex = w }, h₂)

last_parts : (n : ℕ) (s : Text) → at_end (class_run is_hex_digit n s) ≡ true → Digits n s
last_parts n s h = go (class_run is_hex_digit n s) refl h
  where
    go : (m : Option Text) → class_run is_hex_digit n s ≡ m → at_end m ≡ true → Digits n s
    go none e k = absurd (cc)
    go (some []) e k =
        let (a, p, q, w) = class_run-parts is_hex_digit n s [] e in
        let p' : s ≡ a = p ∙ append-nil a in rw p' (record { long = q; hex = w })
    go (some (c ∷ r)) e k = absurd (cc)

record Form (s : Text) : Type 0 where
  a : Text
  b : Text
  c : Text
  d : Text
  e : Text
  a8 : Digits 8 a
  b4 : Digits 4 b
  c4 : Digits 4 c
  d4 : Digits 4 d
  e12 : Digits 12 e
  whole : s ≡ uuid_text a b c d e

uuid_re-Form : (s : Text) → uuid_re s ≡ true → Form s
unfolding uuid_re
uuid_re-Form s h =
    let (a, r₁, s₁, a8, h₁) = field_parts 8 s _ h in
    let (b, r₂, s₂, b4, h₂) = field_parts 4 r₁ _ h₁ in
    let (c, r₃, s₃, c4, h₃) = field_parts 4 r₂ _ h₂ in
    let (d, e, s₄, d4, h₄) = field_parts 4 r₃ _ h₃ in
    record {
      a = a;
      b = b;
      c = c;
      d = d;
      e = e;
      a8 = a8;
      b4 = b4;
      c4 = c4;
      d4 = d4;
      e12 = last_parts 12 e h₄;
      whole = cc (s₁, s₂, s₃, s₄);
    }

hyphenated_lem :
    (a b c d e : Text)
    → Digits 8 a
    → Digits 4 b
    → Digits 4 c
    → Digits 4 d
    → hyphenated (a ++ (b ++ (c ++ (d ++ e)))) ≡ uuid_text a b c d e
unfolding hyphenated
hyphenated_lem a b c d e ha hb hc hd =
    rw (cut a 8 ha.long, cut b 4 hb.long, cut c 4 hc.long, cut d 4 hd.long)
  where
    cut : (x : Text) (n : ℕ) → length x ≡ n → {r : Text} → split_at n (x ++ r) ≡ (x, r)
    cut x n h {r} = rw (← h) (split_at-append x r)

hyphens_dropped :
    (a b c d e : Text)
    → Digits 8 a
    → Digits 4 b
    → Digits 4 c
    → Digits 4 d
    → Digits 12 e
    → keep (λ x. not (eqb x b'-')) (uuid_text a b c d e) ≡ a ++ (b ++ (c ++ (d ++ e)))
hyphens_dropped a b c d e ha hb hc hd he = simp (
  keep-append,
  no_hyphen a ha.hex,
  no_hyphen b hb.hex,
  no_hyphen c hc.hex,
  no_hyphen d hd.hex,
  no_hyphen e he.hex,
)

all_fields :
    (a b c d e : Text)
    → Digits 8 a
    → Digits 4 b
    → Digits 4 c
    → Digits 4 d
    → Digits 12 e
    → Digits 32 (a ++ (b ++ (c ++ (d ++ e))))
all_fields a b c d e ha hb hc hd he = record {
  long = simp (length-append, ha.long, hb.long, hc.long, hd.long, he.long);
  hex = simp (all-append, ha.hex, hb.hex, hc.hex, hd.hex, he.hex);
}

-- A text that `UUID_RE` matches is canonical: parsing it and printing it gives it back.
pub uuid_str-uuid_re : (s : Text) → uuid_re s ≡ true → uuid_str s ≡ some s
unfolding uuid_str
uuid_str-uuid_re s h =
    let f = uuid_re-Form s h in
    let ds = all_fields f.a f.b f.c f.d f.e f.a8 f.b4 f.c4 f.d4 f.e12 in
    let (ns, read, shown) = nibbles-text _ ds.hex in
    rw
      (f.whole, hyphens_dropped f.a f.b f.c f.d f.e f.a8 f.b4 f.c4 f.d4 f.e12, ds.long, read, shown)
      (ap some (hyphenated_lem f.a f.b f.c f.d f.e f.a8 f.b4 f.c4 f.d4))
