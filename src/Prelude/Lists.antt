-- ===== src/Prelude/Lists.antt =====
-- Lists with native lengths and Boolean tests: what a comprehension, `any`, `all` and `len` do.
use Prim.Native.Nat.{ℕ, suc, ◌+◌}
use mathlib.Core.Path.{◌≡◌, refl}
use mathlib.Core.Bool.{Bool, true, false, ◌&&◌, ◌||◌}
use mathlib.Core.Logic.{◌≢◌, inl, inr}
use mathlib.Core.List.{List, [], ◌∷◌, ◌++◌}
use native.Mathlib.Omega.{arith}
use cross_agent_chat.Prelude.Tests.{if◌then◌else◌, Bool-cases}

module _ {ℓ} {A : Type ℓ} where
  abbrev pub length : List A → ℕ
  length [] = 0
  length (x ∷ xs) = suc (length xs)

  pub length-append : (xs ys : List A) → length (xs ++ ys) ≡ length xs + length ys
  length-append [] ys = omega arith
  length-append (x ∷ xs) ys = omega (arith, length-append xs ys)

  -- `[x for x in xs if test x]`
  abbrev pub keep : (A → Bool) → List A → List A
  keep test [] = []
  keep test (x ∷ xs) = if test x then x ∷ keep test xs else keep test xs

  -- `any(test x for x in xs)`
  abbrev pub any : (A → Bool) → List A → Bool
  any test [] = false
  any test (x ∷ xs) = test x || any test xs

  -- `all(test x for x in xs)`
  abbrev pub all : (A → Bool) → List A → Bool
  all test [] = true
  all test (x ∷ xs) = test x && all test xs

  -- A predicate that holds at every element.
  abbrev pub All {κ} : (A → Type κ) → List A → Type κ
  All P [] = Unit
  All P (x ∷ xs) = P x × All P xs

  pub keep-append :
      (test : A → Bool) (xs ys : List A) → keep test (xs ++ ys) ≡ keep test xs ++ keep test ys
  keep-append test [] ys = refl
  keep-append test (x ∷ xs) ys = ground (arith, keep-append test xs ys)

  pub any-append :
      (test : A → Bool) (xs ys : List A) → any test (xs ++ ys) ≡ (any test xs || any test ys)
  any-append test [] ys = refl
  any-append test (x ∷ xs) ys = ground (arith, any-append test xs ys)

  pub all-append :
      (test : A → Bool) (xs ys : List A) → all test (xs ++ ys) ≡ (all test xs && all test ys)
  all-append test [] ys = refl
  all-append test (x ∷ xs) ys = ground (arith, all-append test xs ys)

  pub All-append {κ} :
      (P : A → Type κ) (front back : List A) → All P front → All P back → All P (front ++ back)
  All-append P [] back none_left rest = rest
  All-append P (x ∷ front) back (here, more) rest = (here, All-append P front back more rest)

  pub All-keep {κ} :
      (P : A → Type κ) (test : A → Bool) (xs : List A) → All P xs → All P (keep test xs)
  All-keep P test [] h = tt
  All-keep P test (x ∷ xs) h = elim (Bool-cases (test x)) [
    | inl e ↦ rw e (h.0, All-keep P test xs h.1)
    | inr e ↦ rw e (All-keep P test xs h.1)
  ]

  pub keep_none : (test : A → Bool) (xs : List A) → any test xs ≡ false → keep test xs ≡ []
  keep_none test [] h = refl
  keep_none test (x ∷ xs) h = ground (arith, keep_none test xs)

  pub any-of-keep : (test : A → Bool) (xs : List A) → keep test xs ≡ [] → any test xs ≡ false
  any-of-keep test [] h = refl
  any-of-keep test (x ∷ xs) h = ground (arith, any-of-keep test xs)

  pub some_kept : (test : A → Bool) (xs : List A) → any test xs ≡ true → keep test xs ≢ []
  some_kept test xs h e = let none_kept = any-of-keep test xs e in cc

  pub All-kept : (test : A → Bool) (xs : List A) → All (λ x. test x ≡ true) (keep test xs)
  All-kept test [] = tt
  All-kept test (x ∷ xs) = elim (Bool-cases (test x)) [
    | inl e ↦ rw e (e, All-kept test xs)
    | inr e ↦ rw e (All-kept test xs)
  ]
