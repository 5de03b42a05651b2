-- ===== src/Text/Dict.antt =====
-- A Python `dict` from texts: its items in their order.
use cross_agent_chat.Prelude.{
  if◌then◌else◌, Bool-cases, keep, All, ◌≡◌, refl, sym, ap, ◌∙◌, subst, inl, inr, Bool, true, false,
  not, Option, none, some, List, [], ◌∷◌,
}
use cross_agent_chat.Text.{Text, ◌==◌, ==_refl, ==_iff, ne_of_false, ne-false}

module _ {ℓ} {V : Type ℓ} where
  -- `d.get(key)`
  unfoldable pub lookup : Text → List (Text × V) → Option V
  lookup k [] = none
  lookup k ((j, v) ∷ d) = let rest = lookup k d in if j == k then some v else rest

  -- `d[key] = value`
  unfoldable pub insert : Text → V → List (Text × V) → List (Text × V)
  insert k v [] = (k, v) ∷ []
  insert k v ((j, w) ∷ d) = let rest = insert k v d in if j == k then (j, v) ∷ d else (j, w) ∷ rest

  -- `d.pop(key, None)`
  unfoldable pub pop : Text → List (Text × V) → List (Text × V)
  pop k d = keep (λ item. not (item.0 == k)) d

  unfoldable pub is_empty : List (Text × V) → Bool
  is_empty [] = true
  is_empty (item ∷ d) = false

  pub lookup-insert : (k : Text) (v : V) (d : List (Text × V)) → lookup k (insert k v d) ≡ some v
  unfolding lookup insert
  lookup-insert k v [] = rw ==_refl refl
  lookup-insert k v ((j, w) ∷ d) = elim (Bool-cases (j == k)) [
    | inl e ↦ rw (e, e) refl
    | inr e ↦ rw (e, e, lookup-insert k v d) refl
  ]

  pub lookup-insert_other :
      (k j : Text) (v : V) (d : List (Text × V))
      → (j == k) ≡ false
      → lookup k (insert j v d) ≡ lookup k d
  unfolding lookup insert
  lookup-insert_other k j v [] n = rw n refl
  lookup-insert_other k j v ((i, w) ∷ d) n = elim (Bool-cases (i == j)) [
    | inl e ↦
        let same : i ≡ j = (==_iff i j).0 e in
        let n' : (i == k) ≡ false = ap (λ (t : Text). t == k) same ∙ n in rw (e, n') refl
    | inr e ↦ rw (e, lookup-insert_other k j v d n) refl
  ]

  -- A filter on the keys that the key passes.
  pub lookup-keep :
      (k : Text) (p : Text → Bool) (d : List (Text × V))
      → p k ≡ true
      → lookup k (keep (λ item. p item.0) d) ≡ lookup k d
  unfolding lookup
  lookup-keep k p [] h = refl
  lookup-keep k p ((j, v) ∷ d) h = elim (Bool-cases (j == k)) [
    | inl e ↦ let passes : p j ≡ true = ap p ((==_iff j k).0 e) ∙ h in rw (passes, e) refl
    | inr e ↦ elim (Bool-cases (p j)) [
      | inl q ↦ rw (q, e, lookup-keep k p d h) refl
      | inr q ↦ rw (q, e, lookup-keep k p d h) refl
    ]
  ]

  pub lookup-pop_other :
      (k j : Text) (d : List (Text × V)) → (j == k) ≡ false → lookup k (pop j d) ≡ lookup k d
  unfolding pop
  lookup-pop_other k j d n =
      lookup-keep k (λ i. not (i == j)) d (rw (ne-false k j (λ e. ne_of_false j k n (sym e))) refl)

  pub insert-All {κ} :
      (P : Text × V → Type κ) (k : Text) (v : V) (d : List (Text × V))
      → P (k, v)
      → All P d
      → All P (insert k v d)
  unfolding insert
  insert-All P k v [] h p = (h, tt)
  insert-All P k v ((j, w) ∷ d) h p = elim (Bool-cases (j == k)) [
    | inl e ↦ rw e (subst (λ (t : Text). P (t, v)) (sym ((==_iff j k).0 e)) h, p.1)
    | inr e ↦ rw e (p.0, insert-All P k v d h p.1)
  ]

  pub keep-All {κ} :
      (P : Text × V → Type κ) (q : Text × V → Bool) (d : List (Text × V))
      → All P d
      → All P (keep q d)
  keep-All P q [] p = tt
  keep-All P q (item ∷ d) p = elim (Bool-cases (q item)) [
    | inl e ↦ rw e (p.0, keep-All P q d p.1)
    | inr e ↦ rw e (keep-All P q d p.1)
  ]

  pub lookup-All {κ} :
      (P : Text × V → Type κ) (k : Text) (v : V) (d : List (Text × V))
      → All P d
      → lookup k d ≡ some v
      → P (k, v)
  unfolding lookup
  lookup-All P k v [] p h = absurd (cc)
  lookup-All P k v ((j, w) ∷ d) p h = elim (Bool-cases (j == k)) [
    | inl e ↦ let same : some w ≡ some v = rw e at h in subst P (cc ((==_iff j k).0 e, same)) p.0
    | inr e ↦ lookup-All P k v d p.1 (rw e at h)
  ]
