-- ===== src/Subagent.antt =====
-- devin.py `DevinSubagentStore`: what is known of the subagents of each Devin session, and how far
-- it limits delivery to the session.
pub mod Codec
pub mod Custody
pub mod Writing
pub mod Held
pub mod Changes
pub mod Runs
use cross_agent_chat.Prelude.{
  ltb, leb, if◌then◌else◌, length, keep, any, ◌≡◌, Bool, true, false, not, ◌&&◌, ◌||◌, Option, none,
  some, List, [], ◌∷◌,
}
use cross_agent_chat.Core.{Error, message, Result, err, ok, ◌>>=◌, ◌>>◌, require, or_fail, Env}
use cross_agent_chat.Core.Ids.{devin}
use cross_agent_chat.Core.StateFile.{StateFile, absent, present}
use cross_agent_chat.Json.{Json, bool, obj, Fields, end, field, get, member, keys_are}
use cross_agent_chat.Route.{session_key}
use cross_agent_chat.Text.{Text, codes, ◌==◌, is_hex64}
use cross_agent_chat.Text.Dict.{lookup, insert, pop, is_empty}

-- Each unfinished launch, and whether its profile may nest.
abbrev pub Launches : Type 0
Launches = List (Text × Bool)

-- One session: subagents that run, launches that have not returned, and whether evidence was lost.
pub record Entry : Type 0 where
  pub children : Launches
  pub awaited : Launches
  pub uncertain : Bool

abbrev pub Entries : Type 0
Entries = List (Text × Entry)

-- devin-subagent-lifecycle.v2.json, and the names of the files in devin-subagent-uncertain/.
pub record SubagentRoot : Type 0 where
  pub is_private : Bool
  pub lifecycle_file : StateFile
  pub uncertain_marks : List Text

abbrev pub bad_subagents : Error
bad_subagents = message "Devin subagent state is invalid"

-- `0 < len(key) <= 256`
unfoldable pub fits_key : Text → Bool
fits_key k = ltb 0 (length k) && leb (length k) 256

unfoldable pub launches_of_fields : Fields → Result Launches
launches_of_fields end = ok []
launches_of_fields (field k (bool b) fs) = do
  require (fits_key k) bad_subagents
  rest ← launches_of_fields fs
  ok ((k, b) ∷ rest)
launches_of_fields (field k v fs) = err bad_subagents

-- `_launches`
unfoldable pub launches : Option Json → Result Launches
launches (some (obj fs)) = launches_of_fields fs
launches _ = err bad_subagents

unfoldable pub entry_fields : List Text
entry_fields = codes "children" ∷ codes "pending" ∷ codes "uncertain" ∷ []

unfoldable pub as_bool : Option Json → Option Bool
as_bool (some (bool b)) = some b
as_bool _ = none

unfoldable pub entry_of_json : Json → Result Entry
entry_of_json (obj fs) = do
  require (keys_are entry_fields fs) bad_subagents
  uncertain ← or_fail (as_bool (get (codes "uncertain") fs)) bad_subagents
  children ← launches (get (codes "children") fs)
  awaited ← launches (get (codes "pending") fs)
  ok (record { children = children; awaited = awaited; uncertain = uncertain })
entry_of_json _ = err bad_subagents

unfoldable pub entries_of_fields : Fields → Result Entries
entries_of_fields end = ok []
entries_of_fields (field k v fs) = do
  require (is_hex64 k) bad_subagents
  entry ← entry_of_json v
  rest ← entries_of_fields fs
  ok ((k, entry) ∷ rest)

unfoldable pub read_entries : StateFile → Result Entries
read_entries absent = ok []
read_entries (present false content) = err (message "private file is unsafe")
read_entries (present true (some (obj fs))) = entries_of_fields fs
read_entries (present true content) = err bad_subagents

-- `_entries`
unfoldable pub entries : SubagentRoot → Result Entries
entries root = read_entries root.lifecycle_file

unfoldable pub launches_to_fields : Launches → Fields
launches_to_fields [] = end
launches_to_fields ((k, b) ∷ ls) = field k (bool b) (launches_to_fields ls)

unfoldable pub entry_to_json : Entry → Json
entry_to_json e = obj (
    field (codes "children") (obj (launches_to_fields e.children)) (
      field (codes "pending") (obj (launches_to_fields e.awaited))
        (field (codes "uncertain") (bool e.uncertain) end)))

unfoldable pub entries_to_fields : Entries → Fields
entries_to_fields [] = end
entries_to_fields ((k, e) ∷ es) = field k (entry_to_json e) (entries_to_fields es)

-- `atomic_json(self.path, entries)`
unfoldable pub store_entries : Entries → SubagentRoot → SubagentRoot
store_entries es root = record root {
  lifecycle_file = present true (some (obj (entries_to_fields es)));
}

-- `state_lock(self.root, "devin-subagents")`
unfoldable pub subagents_lock : SubagentRoot → Result (Unit {0})
subagents_lock root = require root.is_private (message "private directory is unsafe")

-- `any(launches.values())`
unfoldable pub may_nest : Launches → Bool
may_nest ls = any (λ item. item.1) ls

-- What `change` does to an entry: its launches, and whether evidence was lost.
unfoldable pub changed : (Launches → Launches → Launches × Launches × Bool) → Entry → Entry
changed change e =
    let (children, awaited, lost) = change e.children e.awaited in
    record { children = children; awaited = awaited; uncertain = e.uncertain || lost }

-- Whether there is something to keep of an entry.
unfoldable pub is_evidence : Entry → Bool
is_evidence e = not (is_empty e.children) || not (is_empty e.awaited) || e.uncertain

unfoldable pub put_entry : Text → Entry → Entries → Entries
put_entry key e es = if is_evidence e then insert key e es else pop key es

-- Only a session that no longer has a live route is forgotten.
unfoldable pub forget : Text → Option (List Text) → Entries → Entries
forget key none es = es
forget key (some live_keys) es = keep (λ item. item.0 == key || member item.0 live_keys) es

abbrev pub no_evidence : Entry
no_evidence = record { children = []; awaited = []; uncertain = false }

-- `profile not in DEVIN_NON_NESTING_PROFILES`, `none` for a profile that is no text
unfoldable pub profile_may_nest : Option Text → Bool
profile_may_nest none = true
profile_may_nest (some p) = not (p == codes "subagent_explore" || p == codes "subagent_general")

-- `change` of `launch`
unfoldable pub launch_change :
    Option Text → Option Text → Launches → Launches → Launches × Launches × Bool
launch_change none profile children awaited = (children, awaited, true)
launch_change (some tool_use) profile children awaited =
    (children, insert tool_use (profile_may_nest profile) awaited, false)

-- What the two patterns find in the output of a tool: the id that `_SUBAGENT_STARTED.search` and
-- `_SUBAGENT_FINISHED.match` capture. An id has from 1 to 64 characters.
pub record Patterns : Type 0 where
  pub started : Text → Option Text
  pub finished : Text → Option Text
  pub started_fits : (output agent : Text) → started output ≡ some agent → fits_key agent ≡ true

unfoldable pub is_some : Option Text → Bool
is_some none = false
is_some (some t) = true

unfoldable pub or_true : Option Bool → Bool
or_true none = true
or_true (some b) = b

unfoldable pub was_awaited : Option Text → Launches → Bool
was_awaited none awaited = false
was_awaited (some tool_use) awaited = elim (lookup tool_use awaited) [
  | none ↦ false
  | some b ↦ true
]

unfoldable pub awaited_may_nest : Option Text → Launches → Bool
awaited_may_nest none awaited = true
awaited_may_nest (some tool_use) awaited = or_true (lookup tool_use awaited)

unfoldable pub no_longer_awaited : Option Text → Launches → Launches
no_longer_awaited none awaited = awaited
no_longer_awaited (some tool_use) awaited = pop tool_use awaited

unfoldable pub with_child : Option Text → Bool → Launches → Launches
with_child none nests children = children
with_child (some agent) nests children = insert agent nests children

module _ (patterns : Patterns) where
  -- `change` of `launched`
  unfoldable pub launched_change :
      Option Text → Text → Launches → Launches → Launches × Launches × Bool
  launched_change tool_use output children awaited = (
    with_child (patterns.started output) (awaited_may_nest tool_use awaited) children,
    no_longer_awaited tool_use awaited,
    not (was_awaited tool_use awaited)
        || (not (is_some (patterns.started output)) && not (is_some (patterns.finished output))),
  )

-- `change` of `read`
unfoldable pub read_change : Text → Launches → Launches → Launches × Launches × Bool
read_change agent children awaited = (pop agent children, awaited, false)

module _ (env : Env) where
  -- The write of `_update`.
  unfoldable pub write_entry :
      Text
      → (Launches → Launches → Launches × Launches × Bool)
      → Option (List Text)
      → Entries
      → Entry
      → SubagentRoot
      → SubagentRoot
  write_entry key change live_keys es e root =
      store_entries (forget key live_keys (put_entry key (changed change e) es)) root

  -- `_update`
  unfoldable pub update :
      Text
      → (Launches → Launches → Launches × Launches × Bool)
      → Option (List Text)
      → Bool
      → SubagentRoot
      → Result SubagentRoot
  update session change live_keys create root = do
    key ← session_key env devin session
    subagents_lock root
    es ← entries root
    elim (lookup key es) [
      | some e ↦ ok (write_entry key change live_keys es e root)
      | none ↦ ok (if create then write_entry key change live_keys es no_evidence root else root)
    ]

  -- `launch`
  unfoldable pub launch :
      Text → Option Text → Option Text → Option (List Text) → SubagentRoot → Result SubagentRoot
  launch session tool_use profile live_keys root =
      update session (launch_change tool_use profile) live_keys true root

  -- `launched`
  unfoldable pub launched :
      Patterns → Text → Option Text → Text → Option (List Text) → SubagentRoot → Result SubagentRoot
  launched patterns session tool_use output live_keys root =
      update session (launched_change patterns tool_use output) live_keys true root

  -- Whether an output reports that an agent finished.
  unfoldable pub reports : Patterns → Text → Text → Bool
  reports patterns agent output = elim (patterns.finished output) [
    | none ↦ false
    | some found ↦ found == agent
  ]

  -- `read`, with `none` for an agent id that is no text
  unfoldable pub read_subagent :
      Patterns → Text → Option Text → Text → Option (List Text) → SubagentRoot → Result SubagentRoot
  read_subagent patterns session none output live_keys root = ok root
  read_subagent patterns session (some agent) output live_keys root =
      let updated = update session (read_change agent) live_keys false root in
      if reports patterns agent output then updated else ok root

  -- `mark_uncertain`, where the mark can be made
  unfoldable pub mark_uncertain : Text → SubagentRoot → Result SubagentRoot
  mark_uncertain session root = do
    key ← session_key env devin session
    ok (record root { uncertain_marks = key ∷ root.uncertain_marks })

  -- The first statement of `clear`, which stays done where the rest fails.
  unfoldable pub unmark : Text → SubagentRoot → SubagentRoot
  unmark key root = record root {
    uncertain_marks = keep (λ k. not (k == key)) root.uncertain_marks;
  }

  -- The rest of `clear`.
  unfoldable pub clear_entry : Text → SubagentRoot → Result SubagentRoot
  clear_entry key root = do
    subagents_lock root
    es ← entries root
    ok (elim (lookup key es) [ none ↦ root | some e ↦ store_entries (pop key es) root ])

  -- The state where the rest of `clear` failed, or what it left.
  unfoldable pub cleared : SubagentRoot → Result SubagentRoot → Result (Unit {0}) × SubagentRoot
  cleared root (err e) = (err e, root)
  cleared root (ok root') = (ok tt, root')

  -- `clear`, with what it raises
  unfoldable pub clear : Text → SubagentRoot → Result (Unit {0}) × SubagentRoot
  clear session root = elim (session_key env devin session) [
    | err e ↦ (err e, root)
    | ok key ↦ cleared (unmark key root) (clear_entry key (unmark key root))
  ]
