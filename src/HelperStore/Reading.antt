-- ===== src/HelperStore/Reading.antt =====
-- The file of the helpers against the list of bindings.
use cross_agent_chat.Prelude.{
  Bool-cases, eq_of_iff, keep, any, All, ◌≡◌, refl, sym, ap, ◌∙◌, subst, inl, inr, true, Option,
  none, some, List, [], ◌∷◌, arith,
}
use cross_agent_chat.Core.{ok, ◌>>=◌, ◌>>◌, require, >>=-ok, require-ok, ok-injective}
use cross_agent_chat.Core.StateFile.{
  read_rows, read_rows-atomic_json, map_ok, map_ok-map, map_ok-All,
}
use cross_agent_chat.Json.{Json}
use cross_agent_chat.Registry.{option_eq}
use cross_agent_chat.Text.{Text, ==_refl, ==_iff}
use cross_agent_chat.Route.{Route}
use cross_agent_chat.Helper.{HelperState, unknown, registered, retired, Binding}
use cross_agent_chat.Helper.Codec.{
  binding_to_dict, binding_from_dict, IsBinding, binding_from_dict-to_dict,
  binding_from_dict-IsBinding,
}
use cross_agent_chat.HelperStore.{
  HelperRoot, consistent, bindings, store_bindings, state_eq, binding_eq, is_of, bad_state,
}

-- The bindings that a file can keep.
pub record AreBindings (bs : List Binding) : Type 0 where
  pub valid : All IsBinding bs
  pub agreeing : consistent bs ≡ true

-- What is stored is read back.
pub bindings-store_bindings :
    (bs : List Binding) (root : HelperRoot)
    → AreBindings bs
    → bindings (store_bindings bs root) ≡ ok bs
unfolding bindings store_bindings
bindings-store_bindings bs root g = rw (
  read_rows-atomic_json,
  map_ok-map IsBinding binding_from_dict binding_to_dict binding_from_dict-to_dict bs g.valid,
  g.agreeing,
)

-- What is stored is read back or not at all, and it is read back only if it agrees.
pub store_bindings-bindings :
    (bs ds : List Binding) (root : HelperRoot)
    → All IsBinding bs
    → bindings (store_bindings bs root) ≡ ok ds
    → (ds ≡ bs) × (consistent bs ≡ true)
unfolding bindings store_bindings
store_bindings-bindings bs ds root v h =
    let h₁ : (require (consistent bs) bad_state >> ok bs) ≡ ok ds =
      rw
        (
          read_rows-atomic_json,
          map_ok-map IsBinding binding_from_dict binding_to_dict binding_from_dict-to_dict bs v,
        )
        at h in
    let (agrees, h₂) = require-ok (consistent bs) bad_state (ok bs) h₁ in
    (sym (ok-injective h₂), agrees)

-- Whatever the file holds, bindings that are read from it are accepted and agree.
pub bindings-AreBindings :
    (root : HelperRoot) (bs : List Binding) → bindings root ≡ ok bs → AreBindings bs
unfolding bindings
bindings-AreBindings root bs h =
    let (raw, _, h₁) =
      >>=-ok (read_rows root.helpers_file bad_state bad_state)
        (λ (raw : List Json). map_ok binding_from_dict raw >>= λ (cs : List Binding).
          require (consistent cs) bad_state >> ok cs)
        h in
    let (cs, decoded, h₂) =
      >>=-ok (map_ok binding_from_dict raw)
        (λ (cs : List Binding). require (consistent cs) bad_state >> ok cs) h₁ in
    let (agrees, h₃) = require-ok (consistent cs) bad_state (ok cs) h₂ in
    subst AreBindings (ok-injective h₃) (record {
      valid = map_ok-All IsBinding binding_from_dict binding_from_dict-IsBinding raw cs decoded;
      agreeing = agrees;
    })

option_eq_refl : (o : Option Text) → option_eq o o ≡ true
unfolding option_eq
option_eq_refl none = refl
option_eq_refl (some s) = ==_refl s

pub option_eq_sound : (o p : Option Text) → option_eq o p ≡ true → o ≡ p
unfolding option_eq
option_eq_sound none none h = refl
option_eq_sound none (some t) h = absurd (cc)
option_eq_sound (some s) none h = absurd (cc)
option_eq_sound (some s) (some t) h = ap some ((==_iff s t).0 h)

state_eq_refl : (s : HelperState) → state_eq s s ≡ true
unfolding state_eq
state_eq_refl unknown = refl
state_eq_refl registered = refl
state_eq_refl retired = refl

state_eq_sound : (s t : HelperState) → state_eq s t ≡ true → s ≡ t
unfolding state_eq
state_eq_sound s t h = ground arith

pub binding_eq_refl : (b : Binding) → binding_eq b b ≡ true
unfolding binding_eq
binding_eq_refl b = simp (==_refl, option_eq_refl, state_eq_refl)

pub binding_eq_sound : (a b : Binding) → binding_eq a b ≡ true → a ≡ b
unfolding binding_eq
binding_eq_sound a b h = ground (
  arith,
  ==_iff a.original_session_id b.original_session_id,
  ==_iff a.original_generation b.original_generation,
  ==_iff a.original_device b.original_device,
  ==_iff a.original_cwd b.original_cwd,
  ==_iff a.original_profile_root b.original_profile_root,
  ==_iff a.account_sha256 b.account_sha256,
  ==_iff a.helper_directory b.helper_directory,
  ==_iff a.nonce_sha256 b.nonce_sha256,
  state_eq_sound a.state b.state,
  option_eq_sound a.helper_session_id b.helper_session_id,
  option_eq_sound a.helper_generation b.helper_generation,
)

pub All-imp {ℓ κ ι} :
    {A : Type ℓ} (P : A → Type κ) (Q : A → Type ι) (xs : List A)
    → ((a : A) → P a → Q a)
    → All P xs
    → All Q xs
All-imp P Q [] f h = tt
All-imp P Q (x ∷ xs) f h = (f x h.0, All-imp P Q xs f h.1)

matched :
    (original : Route) (b : Binding) (bs : List Binding)
    → any (binding_eq b) (keep (is_of original) bs) ≡ true
    → is_of original b ≡ true
matched original b [] h = absurd (cc)
matched original b (c ∷ bs) h = elim (Bool-cases (is_of original c)) [
  | inl e ↦ elim (Bool-cases (binding_eq b c)) [
    | inl f ↦ ap (is_of original) (binding_eq_sound b c f) ∙ e
    | inr f ↦ matched original b bs (ground arith)
  ]
  | inr e ↦ matched original b bs (ground arith)
]

present_in : (bs : List Binding) → All (λ b. any (binding_eq b) bs ≡ true) bs
present_in [] = tt
present_in (b ∷ bs) = (
  rw (binding_eq_refl b) refl,
  All-imp (λ c. any (binding_eq c) bs ≡ true) (λ c. any (binding_eq c) (b ∷ bs) ≡ true) bs
      (λ c h. ground (arith, h)) (present_in bs),
)

kept_match :
    (original : Route) (b : Binding) (bs : List Binding)
    → is_of original b ≡ true
    → any (binding_eq b) bs ≡ true
    → any (binding_eq b) (keep (is_of original) bs) ≡ true
kept_match original b [] o h = h
kept_match original b (c ∷ bs) o h = elim (Bool-cases (binding_eq b c)) [
  | inl e ↦
      let also : is_of original c ≡ true = ap (is_of original) (sym (binding_eq_sound b c e)) ∙ o in
      rw (also, e) refl
  | inr e ↦ let later = kept_match original b bs o (ground arith) in ground arith
]

-- Membership among the matches is the test that they passed.
pub among_matches :
    (original : Route) (bs : List Binding)
    → All (λ b. any (binding_eq b) (keep (is_of original) bs) ≡ is_of original b) bs
among_matches original bs =
    All-imp (λ b. any (binding_eq b) bs ≡ true)
      (λ b. any (binding_eq b) (keep (is_of original) bs) ≡ is_of original b) bs
      (λ b h.
        eq_of_iff (any (binding_eq b) (keep (is_of original) bs)) (is_of original b)
          (matched original b bs) (λ o. kept_match original b bs o h))
      (present_in bs)
