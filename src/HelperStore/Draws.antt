-- ===== src/HelperStore/Draws.antt =====
-- The loop of `reserve` over the names that `uuid4` draws.
use cross_agent_chat.HelperStore.Reserving.{reservable-ok}
use cross_agent_chat.Prelude.{
  Bool-cases, length, keep, any, distinct_by, ◌≤◌, ◌<◌, ◌≡◌, refl, sym, ◌∙◌, inl, inr, Bool, true,
  false, not, none, some, List, [], ◌∷◌, ◌++◌, arith,
}
use cross_agent_chat.Text.{Text, ◌==◌, ==_iff}
use cross_agent_chat.Core.{Result, err, ok, Env}
use cross_agent_chat.Route.{Route}
use cross_agent_chat.Helper.{Binding, directory_prefix}
use cross_agent_chat.HelperStore.{
  HelperRoot, bindings, reservable, pick_directory, reserve_at, reserve,
}

-- Whether a name is taken.
abbrev takes : Text → Binding → Bool
takes draw b = b.helper_directory == directory_prefix ++ draw

-- The bindings that do not have the name.
abbrev others : Text → List Binding → List Binding
others draw bs = keep (λ b. not (takes draw b)) bs

others_at_most : (draw : Text) (bs : List Binding) → length (others draw bs) ≤ length bs
others_at_most draw [] = omega arith
others_at_most draw (b ∷ bs) = ground (arith, others_at_most draw bs)

fewer_others :
    (draw : Text) (bs : List Binding)
    → any (takes draw) bs ≡ true
    → length (others draw bs) < length bs
fewer_others draw [] h = absurd (cc)
fewer_others draw (b ∷ bs) h = ground (arith, fewer_others draw bs, others_at_most draw bs)

append_cancel : (p s t : Text) → p ++ s ≡ p ++ t → s ≡ t
append_cancel [] s t h = h
append_cancel (c ∷ p) s t h = append_cancel p s t (cc)

takes_one :
    (draw draw' : Text) (b : Binding)
    → (draw == draw') ≡ false
    → takes draw b ≡ true
    → takes draw' b ≡ false
takes_one draw draw' b n h = elim (Bool-cases (takes draw' b)) [
  | inr e ↦ e
  | inl e ↦
      let same : draw ≡ draw' = append_cancel directory_prefix draw draw' (
        sym ((==_iff b.helper_directory (directory_prefix ++ draw)).0 h)
        ∙ (==_iff b.helper_directory (directory_prefix ++ draw')).0 e) in
      let yes : (draw == draw') ≡ true = (==_iff draw draw').1 same in absurd (cc)
]

others_take :
    (draw draw' : Text) (bs : List Binding)
    → (draw == draw') ≡ false
    → any (takes draw') (others draw bs) ≡ any (takes draw') bs
others_take draw draw' [] n = refl
others_take draw draw' (b ∷ bs) n = elim (Bool-cases (takes draw b)) [
  | inl e ↦ rw (e, takes_one draw draw' b n e, others_take draw draw' bs n) refl
  | inr e ↦ rw (e, others_take draw draw' bs n) refl
]

-- The bindings that have another name do not matter for the names after it.
pick_others :
    (draw : Text) (draws : List Text) (bs : List Binding)
    → any (λ d. draw == d) draws ≡ false
    → pick_directory (others draw bs) draws ≡ pick_directory bs draws
unfolding pick_directory
pick_others draw [] bs h = refl
pick_others draw (d ∷ draws) bs h =
    let e : (draw == d) ≡ false = ground arith in
    let r : any (λ d. draw == d) draws ≡ false = ground arith in
    rw (others_take draw d bs e, pick_others draw draws bs r) refl

-- Distinct names, more of them than there are bindings, have a free one among them.
pub pick_directory-finds :
    (draws : List Text) (bs : List Binding)
    → distinct_by ◌==◌ draws ≡ true
    → length bs < length draws
    → (directory : Text) × (pick_directory bs draws ≡ some directory)
unfolding pick_directory distinct_by
pick_directory-finds [] bs d l = absurd (omega arith)
pick_directory-finds (draw ∷ draws) bs d l = elim (Bool-cases (any (takes draw) bs)) [
  | inr e ↦ (directory_prefix ++ draw, rw e refl)
  | inl e ↦
      let (directory, found) =
        pick_directory-finds draws (others draw bs) (ground arith)
          (omega (arith, fewer_others draw bs e, l)) in
      (directory, rw e (sym (pick_others draw draws bs (ground arith)) ∙ found))
]

-- `reserve` returns: on a store that reads, of any distinct names that `uuid4` draws it needs at
-- most one more than there are bindings.
pub reserve_returns :
    (env : Env) (live : Route → Bool) (routes : List Route) (original : Route)
    (nonce account : Text) (draws : List Text) (root : HelperRoot) (bs : List Binding)
    → bindings root ≡ ok bs
    → distinct_by ◌==◌ draws ≡ true
    → length bs < length draws
    → (r : Result (Binding × HelperRoot)) × (reserve env live routes original nonce account draws
          root
        ≡ some r)
unfolding reserve
reserve_returns env live routes original nonce account draws root bs reads d l =
    by_list (reservable live routes original root) refl
  where
    by_list :
        (r : Result (List Binding))
        → reservable live routes original root ≡ r
        → (answer : Result (Binding × HelperRoot)) × (elim r [
          | err e ↦ some (err e)
          | ok existing ↦ elim (pick_directory existing draws) [
            | none ↦ none
            | some directory ↦ some (reserve_at env original nonce account directory existing root)
          ]
        ]
            ≡ some answer)
    by_list (err x) e = (err x, refl)
    by_list (ok cs) e =
        let same = (reservable-ok env live routes original root bs cs reads e).0 in
        let (directory, found) = pick_directory-finds draws cs d (rw same l) in
        (reserve_at env original nonce account directory cs root, rw found refl)
