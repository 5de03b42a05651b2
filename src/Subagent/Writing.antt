-- ===== src/Subagent/Writing.antt =====
-- What `_update` writes for one session, and what it leaves of the others.
use cross_agent_chat.Prelude.{
  Bool-cases, All, ◌≡◌, refl, inl, inr, Bool, true, false, not, ◌||◌, Option, none, some, List, [],
  ◌∷◌,
}
use cross_agent_chat.Json.{member}
use cross_agent_chat.Text.{Text, ◌==◌, ==_refl}
use cross_agent_chat.Text.Dict.{
  lookup, pop, is_empty, lookup-insert, lookup-insert_other, lookup-keep, lookup-pop_other,
  insert-All, keep-All,
}
use cross_agent_chat.Subagent.{Launches, Entry, Entries, changed, is_evidence, put_entry, forget}
use cross_agent_chat.Subagent.Codec.{Fits, IsItem}

-- An entry in which a subagent runs that may nest.
abbrev pub Nests : Text → Entry → Type 0
Nests agent e = lookup agent e.children ≡ some true

-- A change that loses no key that `_launches` accepts.
abbrev pub KeepsFits : (Launches → Launches → Launches × Launches × Bool) → Type 0
KeepsFits change =
    (e : Entry)
    → Fits e.children
    → Fits e.awaited
    → Fits (changed change e).children × Fits (changed change e).awaited

-- Whether a session is among those that an update keeps.
unfoldable pub spares : Text → Text → Option (List Text) → Bool
spares updated key none = true
spares updated key (some live_keys) = key == updated || member key live_keys

pub spares_self : (key : Text) (live_keys : Option (List Text)) → spares key key live_keys ≡ true
unfolding spares
spares_self key none = refl
spares_self key (some live_keys) = rw ==_refl refl

pub nonempty-lookup :
    (k : Text) (b : Bool) (ls : Launches) → lookup k ls ≡ some b → is_empty ls ≡ false
unfolding lookup is_empty
nonempty-lookup k b [] h = absurd (cc)
nonempty-lookup k b (item ∷ ls) h = refl

pub Nests-is_evidence : (agent : Text) (e : Entry) → Nests agent e → is_evidence e ≡ true
unfolding is_evidence
Nests-is_evidence agent e h = rw (nonempty-lookup agent true e.children h) refl

pub lookup-forget :
    (key updated : Text) (live_keys : Option (List Text)) (es : Entries)
    → spares updated key live_keys ≡ true
    → lookup key (forget updated live_keys es) ≡ lookup key es
unfolding forget spares
lookup-forget key updated none es h = refl
lookup-forget key updated (some live_keys) es h =
    lookup-keep key (λ k. k == updated || member k live_keys) es h

pub lookup-put_other :
    (key updated : Text) (e : Entry) (es : Entries)
    → (updated == key) ≡ false
    → lookup key (put_entry updated e es) ≡ lookup key es
unfolding put_entry
lookup-put_other key updated e es n = elim (Bool-cases (is_evidence e)) [
  | inl c ↦ rw c (lookup-insert_other key updated e es n)
  | inr c ↦ rw c (lookup-pop_other key updated es n)
]

pub lookup-put_same :
    (key : Text) (e : Entry) (es : Entries)
    → is_evidence e ≡ true
    → lookup key (put_entry key e es) ≡ some e
unfolding put_entry
lookup-put_same key e es c = rw c (lookup-insert key e es)

pub put-All :
    (key : Text) (e : Entry) (es : Entries)
    → IsItem (key, e)
    → All IsItem es
    → All IsItem (put_entry key e es)
unfolding put_entry pop
put-All key e es v p = elim (Bool-cases (is_evidence e)) [
  | inl c ↦ rw c (insert-All IsItem key e es v p)
  | inr c ↦ rw c (keep-All IsItem (λ item. not (item.0 == key)) es p)
]

pub forget-All :
    (key : Text) (live_keys : Option (List Text)) (es : Entries)
    → All IsItem es
    → All IsItem (forget key live_keys es)
unfolding forget
forget-All key none es p = p
forget-All key (some live_keys) es p =
    keep-All IsItem (λ item. item.0 == key || member item.0 live_keys) es p
