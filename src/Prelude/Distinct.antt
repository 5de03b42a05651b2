-- ===== src/Prelude/Distinct.antt =====
-- `len(set(keys)) == len(keys)`, by a test that says of two elements whether their keys agree.
use mathlib.Core.Path.{◌≡◌, refl}
use mathlib.Core.Bool.{Bool, true, false, not, ◌&&◌}
use mathlib.Core.Logic.{inl, inr}
use mathlib.Core.List.{List, [], ◌∷◌, ◌++◌, map}
use native.Mathlib.Omega.{arith}
use cross_agent_chat.Prelude.Tests.{Bool-cases}
use cross_agent_chat.Prelude.Lists.{keep, any, All, any-append}

module _ {ℓ} {A : Type ℓ} where
  unfoldable pub distinct_by : (A → A → Bool) → List A → Bool
  distinct_by same [] = true
  distinct_by same (x ∷ xs) = not (any (same x) xs) && distinct_by same xs

  pub any-map :
      (test : A → Bool) (test' : A → Bool) (f : A → A) (xs : List A)
      → ((x : A) → test (f x) ≡ test' x)
      → any test (map f xs) ≡ any test' xs
  any-map test test' f [] h = refl
  any-map test test' f (x ∷ xs) h = ground (arith, h x, any-map test test' f xs h)

  -- A change that keeps the keys.
  pub distinct_by-map :
      (same : A → A → Bool) (f : A → A) (xs : List A)
      → ((x y : A) → same (f x) (f y) ≡ same x y)
      → distinct_by same (map f xs) ≡ distinct_by same xs
  unfolding distinct_by
  distinct_by-map same f [] h = refl
  distinct_by-map same f (x ∷ xs) h =
      ground (arith, any-map (same (f x)) (same x) f xs (h x), distinct_by-map same f xs h)

  pub distinct_by-snoc :
      (same : A → A → Bool) (xs : List A) (y : A)
      → distinct_by same xs ≡ true
      → any (λ x. same x y) xs ≡ false
      → distinct_by same (xs ++ y ∷ []) ≡ true
  unfolding distinct_by
  distinct_by-snoc same [] y h k = refl
  distinct_by-snoc same (x ∷ xs) y h k =
      ground (arith, distinct_by-snoc same xs y, any-append (same x) xs (y ∷ []))

  -- The last of distinct elements has no other's key.
  pub distinct_by_last :
      (same : A → A → Bool) (xs : List A) (y : A)
      → distinct_by same (xs ++ y ∷ []) ≡ true
      → any (λ x. same x y) xs ≡ false
  unfolding distinct_by
  distinct_by_last same [] y h = refl
  distinct_by_last same (x ∷ xs) y h =
      ground (arith, distinct_by_last same xs y, any-append (same x) xs (y ∷ []))

  pub any-keep :
      (test : A → Bool) (p : A → Bool) (xs : List A)
      → any test xs ≡ false
      → any test (keep p xs) ≡ false
  any-keep test p [] h = refl
  any-keep test p (x ∷ xs) h = ground (arith, any-keep test p xs)

  pub distinct_by-keep :
      (same : A → A → Bool) (p : A → Bool) (xs : List A)
      → distinct_by same xs ≡ true
      → distinct_by same (keep p xs) ≡ true
  unfolding distinct_by
  distinct_by-keep same p [] h = refl
  distinct_by-keep same p (x ∷ xs) h =
      ground (arith, distinct_by-keep same p xs, any-keep (same x) p xs)

  pub keep-map :
      (p : A → Bool) (f : A → A) (xs : List A)
      → ((x : A) → p (f x) ≡ p x)
      → keep p (map f xs) ≡ map f (keep p xs)
  keep-map p f [] h = refl
  keep-map p f (x ∷ xs) h = ground (arith, h x, keep-map p f xs h)

  -- A change after which fewer elements pass, the others being as they were.
  pub keep-map_fewer :
      (p q : A → Bool) (f : A → A) (xs : List A)
      → ((x : A) → p (f x) ≡ (p x && q x))
      → ((x : A) → q x ≡ true → f x ≡ x)
      → keep p (map f xs) ≡ keep q (keep p xs)
  keep-map_fewer p q f [] h k = refl
  keep-map_fewer p q f (x ∷ xs) h k = elim (Bool-cases (q x)) [
    | inl e ↦ ground (arith, h x, k x, keep-map_fewer p q f xs h k)
    | inr e ↦ ground (arith, h x, keep-map_fewer p q f xs h k)
  ]

  -- A finer test, on elements of which a predicate holds.
  pub distinct_by-finer {κ} :
      (P : A → Type κ) (same same' : A → A → Bool) (xs : List A)
      → ((x y : A) → P x → P y → same' x y ≡ true → same x y ≡ true)
      → All P xs
      → distinct_by same xs ≡ true
      → distinct_by same' xs ≡ true
  unfolding distinct_by
  distinct_by-finer P same same' [] h a k = refl
  distinct_by-finer P same same' (x ∷ xs) h a k =
      ground (arith, distinct_by-finer P same same' xs h a.1, any_finer xs a.1)
    where
      any_finer : (ys : List A) → All P ys → any (same x) ys ≡ false → any (same' x) ys ≡ false
      any_finer [] b m = refl
      any_finer (y ∷ ys) b m = ground (arith, h x y a.0 b.0, any_finer ys b.1)
