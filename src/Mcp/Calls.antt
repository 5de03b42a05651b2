-- ===== src/Mcp/Calls.antt =====
-- The ids of a session: those seen and those dispatched.
use cross_agent_chat.Prelude.{
  Bool-cases, any, all, ◌≡◌, refl, ap, inl, inr, Bool, true, false, not, ◌&&◌, List, [], ◌∷◌, arith,
}
use cross_agent_chat.Text.{Text, ==_refl, ==-sound}
use cross_agent_chat.Rpc.{RequestId, text, number, id_eq}
use cross_agent_chat.Json.Int.{int_eq_sound, int_eq_refl}

id_eq_sound : (i j : RequestId) → id_eq i j ≡ true → i ≡ j
unfolding id_eq
id_eq_sound (text s) (text t) h = ap text (==-sound s t h)
id_eq_sound (number i) (number j) h = ap number (int_eq_sound i j h)
id_eq_sound (text s) (number j) h = absurd (cc)
id_eq_sound (number i) (text t) h = absurd (cc)

-- No two calls carry one id.
unfoldable pub distinct_calls : List (RequestId × Text) → Bool
distinct_calls [] = true
distinct_calls (c ∷ cs) = not (any (λ d. id_eq c.0 d.0) cs) && distinct_calls cs

abbrev pub all_seen : List RequestId → List (RequestId × Text) → Bool
all_seen ids cs = all (λ c. any (id_eq c.0) ids) cs

pub fresh-calls :
    (i : RequestId) (ids : List RequestId) (cs : List (RequestId × Text))
    → all_seen ids cs ≡ true
    → any (id_eq i) ids ≡ false
    → any (λ d. id_eq i d.0) cs ≡ false
fresh-calls i ids [] h k = refl
fresh-calls i ids (c ∷ cs) h k = elim (Bool-cases (id_eq i c.0)) [
  | inl e ↦ absurd (
      let same : any (id_eq i) ids ≡ any (id_eq c.0) ids =
        ap (λ (x : RequestId). any (id_eq x) ids) (id_eq_sound i c.0 e) in
      ground arith)
  | inr e ↦ ground (arith, fresh-calls i ids cs)
]

pub id_eq_refl : (i : RequestId) → id_eq i i ≡ true
unfolding id_eq
id_eq_refl (text s) = ==_refl s
id_eq_refl (number i) = int_eq_refl i

pub all_seen-cons :
    (i : RequestId) (ids : List RequestId) (cs : List (RequestId × Text))
    → all_seen ids cs ≡ true
    → all_seen (i ∷ ids) cs ≡ true
all_seen-cons i ids [] h = refl
all_seen-cons i ids (c ∷ cs) h = ground (arith, all_seen-cons i ids cs)
