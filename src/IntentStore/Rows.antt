-- ===== src/IntentStore/Rows.antt =====
-- The rows of the store as a table from event ids.
use mathlib.Core.Option
use cross_agent_chat.Json.{member}
use cross_agent_chat.Prelude.{
  eqb, if◌then◌else◌, Bool-cases, length, keep, any, keep_none, ◌≡◌, refl, ◌∙◌, subst, inl, inr,
  true, false, ◌||◌, Option, none, some, List, [], ◌∷◌, ◌++◌, arith,
}
use cross_agent_chat.Core.{Status, message, or_fail}
use cross_agent_chat.Core.Intent.{Intent}
use cross_agent_chat.IntentStore.{
  distinct, event_ids, Delivery, claims, has_id, set_status, require_one,
}
use cross_agent_chat.Text.{Text, ◌==◌, ==-sound, ==_iff}

-- The row of an event.
unfoldable pub row_of : Text → List Intent → Option Intent
row_of event [] = none
row_of event (i ∷ is) = if has_id event i then some i else row_of event is

abbrev pub restamp : Status → Text → Intent → Intent
restamp s t i = record i { status = s; timestamp = t }

pub has_id_sound : (event : Text) (i : Intent) → has_id event i ≡ true → i.event_id ≡ event
unfolding has_id
has_id_sound event i h = ==-sound i.event_id event h

pub any-member :
    (event : Text) (rows : List Intent) → any (has_id event) rows ≡ member event (event_ids rows)
unfolding member has_id
any-member event [] = refl
any-member event (i ∷ is) = rw (any-member event is)

pub row_of-none :
    (event : Text) (rows : List Intent) → any (has_id event) rows ≡ false → row_of event rows ≡ none
unfolding row_of
row_of-none event [] h = refl
row_of-none event (i ∷ is) h = ground (arith, row_of-none event is)

pub absent-of-row_of :
    (event : Text) (rows : List Intent) → row_of event rows ≡ none → any (has_id event) rows ≡ false
unfolding row_of
absent-of-row_of event [] h = refl
absent-of-row_of event (i ∷ is) h = ground (arith, absent-of-row_of event is)

pub row_of-has_id :
    (event : Text) (rows : List Intent) (i : Intent)
    → row_of event rows ≡ some i
    → i.event_id ≡ event
unfolding row_of
row_of-has_id event [] i h = absurd (cc)
row_of-has_id event (j ∷ is) i h = elim (Bool-cases (has_id event j)) [
  | inl e ↦
      let p : j ≡ i = ground arith in
      subst (λ (k : Intent). k.event_id ≡ event) p (has_id_sound event j e)
  | inr e ↦ row_of-has_id event is i (ground arith)
]

pub row_of-append :
    (event : Text) (rows : List Intent) (i : Intent)
    → row_of event (rows ++ i ∷ []) ≡ (elim (row_of event rows) [
      | none ↦ if has_id event i then some i else none
      | some j ↦ some j
    ])
unfolding row_of
row_of-append event [] i = refl
row_of-append event (j ∷ is) i = ground (arith, row_of-append event is i)

pub event_ids-set_status :
    (event : Text) (s : Status) (time : Text) (rows : List Intent)
    → event_ids (set_status event s time rows) ≡ event_ids rows
unfolding set_status
event_ids-set_status event s time [] = refl
event_ids-set_status event s time (i ∷ is) = ground (arith, event_ids-set_status event s time is)

-- Setting a status changes that event's row and no other.
pub row_of-set_status :
    (key event : Text) (s : Status) (time : Text) (rows : List Intent)
    → row_of key (set_status event s time rows)
      ≡ (if event == key then Option.map (restamp s time) (row_of key rows) else row_of key rows)
unfolding row_of set_status has_id
row_of-set_status key event s time [] = ground arith
row_of-set_status key event s time (i ∷ is) = ground (
  arith,
  row_of-set_status key event s time is,
  ==_iff i.event_id event,
  ==_iff i.event_id key,
  ==_iff event key,
)

member-snoc : (k j : Text) (ks : List Text) → member k (ks ++ j ∷ []) ≡ (member k ks || j == k)
unfolding member
member-snoc k j [] = ground arith
member-snoc k j (i ∷ ks) = ground (arith, member-snoc k j ks)

pub distinct-snoc :
    (k : Text) (ks : List Text)
    → distinct ks ≡ true
    → member k ks ≡ false
    → distinct (ks ++ k ∷ []) ≡ true
unfolding distinct member
distinct-snoc k [] h m = refl
distinct-snoc k (j ∷ ks) h m =
    ground (arith, member-snoc j k ks, distinct-snoc k ks, ==_iff j k, ==_iff k j)

pub alone :
    (event : Text) (i : Intent) (is : List Intent)
    → distinct (event_ids (i ∷ is)) ≡ true
    → has_id event i ≡ true
    → any (has_id event) is ≡ false
unfolding distinct
alone event i is h e = any-member event is ∙ rw (← has_id_sound event i e) (ground (arith))

-- Where event ids are distinct, the rows of an event are its row or none.
pub keep-row_of :
    (event : Text) (rows : List Intent)
    → distinct (event_ids rows) ≡ true
    → keep (has_id event) rows ≡ (elim (row_of event rows) [ none ↦ [] | some i ↦ i ∷ [] ])
unfolding row_of distinct
keep-row_of event [] h = refl
keep-row_of event (i ∷ is) h = elim (Bool-cases (has_id event i)) [
  | inl e ↦ rw (e, keep_none (has_id event) is (alone event i is h e))
  | inr e ↦ rw (e, keep-row_of event is (ground arith))
]

pub require_one-row_of :
    (event : Text) (rows : List Intent)
    → distinct (event_ids rows) ≡ true
    → require_one rows event ≡ or_fail (row_of event rows) (message "intent is unavailable")
unfolding require_one
require_one-row_of event rows h = ground (arith, keep-row_of event rows h)

no_claims :
    (event : Text) (d : Delivery) (rows : List Intent)
    → any (has_id event) rows ≡ false
    → keep (claims event d) rows ≡ []
unfolding claims has_id
no_claims event d [] h = refl
no_claims event d (i ∷ is) h = ground (arith, no_claims event d is)

not_claims :
    (event : Text) (d : Delivery) (i : Intent) → has_id event i ≡ false → claims event d i ≡ false
unfolding claims has_id
not_claims event d i h = ground arith

-- The test of `claim_remote_authorization`, on the event's row.
pub length-claims :
    (event : Text) (d : Delivery) (rows : List Intent)
    → distinct (event_ids rows) ≡ true
    → length (keep (claims event d) rows)
      ≡ (elim (row_of event rows) [ none ↦ 0 | some i ↦ if claims event d i then 1 else 0 ])
unfolding distinct row_of
length-claims event d [] h = refl
length-claims event d (i ∷ is) h = elim (Bool-cases (has_id event i)) [
  | inl e ↦ rw (e, no_claims event d is (alone event i is h e)) (ground arith)
  | inr e ↦ rw (e, not_claims event d i e) (length-claims event d is (ground arith))
]

-- The row that a successful claim found.
pub claimed_row :
    (event : Text) (d : Delivery) (rows : List Intent)
    → distinct (event_ids rows) ≡ true
    → eqb (length (keep (claims event d) rows)) 1 ≡ true
    → (i : Intent) × (row_of event rows ≡ some i) × (claims event d i ≡ true)
claimed_row event d rows w h = ground (arith, length-claims event d rows w)
