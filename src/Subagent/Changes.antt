-- ===== src/Subagent/Changes.antt =====
-- What a launch, its return and a report of its end change of the launches that are known.
use cross_agent_chat.Prelude.{
  ◌≡◌, refl, ◌∙◌, Bool, true, false, not, Option, none, some, [], ◌∷◌, arith,
}
use cross_agent_chat.Helper.{is_text}
use cross_agent_chat.Text.{Text, ◌==◌}
use cross_agent_chat.Text.Dict.{
  lookup, insert, pop, lookup-insert, lookup-insert_other, lookup-pop_other, insert-All, keep-All,
}
use cross_agent_chat.Subagent.{
  Launches, Entry, fits_key, may_nest, changed, profile_may_nest, launch_change, Patterns,
  awaited_may_nest, no_longer_awaited, with_child, launched_change, read_change,
}
use cross_agent_chat.Subagent.Codec.{Fits}
use cross_agent_chat.Subagent.Writing.{Nests, KeepsFits}

unfoldable pub tool_fits : Option Text → Bool
tool_fits none = true
tool_fits (some tool_use) = fits_key tool_use

pub insert-Fits :
    (k : Text) (b : Bool) (ls : Launches) → fits_key k ≡ true → Fits ls → Fits (insert k b ls)
insert-Fits k b ls h f = insert-All (λ item. fits_key item.0 ≡ true) k b ls h f

pub pop-Fits : (k : Text) (ls : Launches) → Fits ls → Fits (pop k ls)
unfolding pop
pop-Fits k ls f = keep-All (λ item. fits_key item.0 ≡ true) (λ item. not (item.0 == k)) ls f

pub launch-KeepsFits :
    (tool_use profile : Option Text)
    → tool_fits tool_use ≡ true
    → KeepsFits (launch_change tool_use profile)
unfolding launch_change tool_fits changed
launch-KeepsFits none profile h e c a = (c, a)
launch-KeepsFits (some tool_use) profile h e c a =
    (c, insert-Fits tool_use (profile_may_nest profile) e.awaited h a)

pub launch-Nests :
    (tool_use profile : Option Text) (agent : Text) (e : Entry)
    → Nests agent e
    → Nests agent (changed (launch_change tool_use profile) e)
unfolding launch_change changed
launch-Nests none profile agent e n = n
launch-Nests (some tool_use) profile agent e n = n

pub awaited-Fits :
    (tool_use : Option Text) (ls : Launches) → Fits ls → Fits (no_longer_awaited tool_use ls)
unfolding no_longer_awaited
awaited-Fits none ls f = f
awaited-Fits (some tool_use) ls f = pop-Fits tool_use ls f

pub child-Fits :
    (agent : Option Text) (nests : Bool) (ls : Launches)
    → tool_fits agent ≡ true
    → Fits ls
    → Fits (with_child agent nests ls)
unfolding with_child tool_fits
child-Fits none nests ls h f = f
child-Fits (some agent) nests ls h f = insert-Fits agent nests ls h f

pub started_fits_any :
    (patterns : Patterns) (output : Text) → tool_fits (patterns.started output) ≡ true
unfolding tool_fits
started_fits_any patterns output = by_start (patterns.started output) refl
  where
    by_start : (o : Option Text) → patterns.started output ≡ o → tool_fits o ≡ true
    by_start none e = refl
    by_start (some agent) e = patterns.started_fits output agent e

pub launched-KeepsFits :
    (patterns : Patterns) (tool_use : Option Text) (output : Text)
    → KeepsFits (launched_change patterns tool_use output)
unfolding launched_change changed
launched-KeepsFits patterns tool_use output e c a = (
  child-Fits (patterns.started output) (awaited_may_nest tool_use e.awaited) e.children
      (started_fits_any patterns output) c,
  awaited-Fits tool_use e.awaited a,
)

pub child-kept :
    (started : Option Text) (nests : Bool) (agent : Text) (ls : Launches)
    → is_text started agent ≡ false
    → lookup agent ls ≡ some true
    → lookup agent (with_child started nests ls) ≡ some true
unfolding with_child is_text
child-kept none nests agent ls h n = n
child-kept (some other) nests agent ls h n = lookup-insert_other agent other nests ls h ∙ n

pub launched-Nests :
    (patterns : Patterns) (tool_use : Option Text) (output agent : Text) (e : Entry)
    → is_text (patterns.started output) agent ≡ false
    → Nests agent e
    → Nests agent (changed (launched_change patterns tool_use output) e)
unfolding launched_change changed
launched-Nests patterns tool_use output agent e h n =
    child-kept (patterns.started output) (awaited_may_nest tool_use e.awaited) agent e.children h n

pub start-Nests :
    (patterns : Patterns) (tool_use : Option Text) (output agent : Text) (e : Entry)
    → patterns.started output ≡ some agent
    → awaited_may_nest tool_use e.awaited ≡ true
    → Nests agent (changed (launched_change patterns tool_use output) e)
unfolding launched_change changed with_child
start-Nests patterns tool_use output agent e started n =
    rw (started, n) (lookup-insert agent true e.children)

pub read-KeepsFits : (agent : Text) → KeepsFits (read_change agent)
unfolding read_change changed
read-KeepsFits agent e c a = (pop-Fits agent e.children c, a)

pub read-Nests :
    (ended agent : Text) (e : Entry)
    → (ended == agent) ≡ false
    → Nests agent e
    → Nests agent (changed (read_change ended) e)
unfolding read_change changed
read-Nests ended agent e h n = lookup-pop_other agent ended e.children h ∙ n

pub nests-may_nest : (k : Text) (ls : Launches) → lookup k ls ≡ some true → may_nest ls ≡ true
unfolding lookup may_nest
nests-may_nest k [] h = absurd (cc)
nests-may_nest k ((j, b) ∷ ls) h = ground (arith, nests-may_nest k ls)
