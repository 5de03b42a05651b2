-- ===== src/Subagent/Runs.antt =====
-- `_update` and the other calls of the store, for one subagent of one session.
use cross_agent_chat.Prelude.{
  Bool-cases, keep, All, ◌≡◌, refl, ◌∙◌, subst, inl, inr, Bool, true, false, not, ◌&&◌, Option,
  none, some, List, ◌∷◌, arith,
}
use cross_agent_chat.Core.{Result, err, ok, ◌>>=◌, ◌>>◌, Env, >>=-ok, then_ok, ok-injective}
use cross_agent_chat.Core.Ids.{devin}
use cross_agent_chat.Route.{session_key}
use cross_agent_chat.Helper.{is_text}
use cross_agent_chat.Text.{Text, ◌==◌, ==_iff}
use cross_agent_chat.Text.Dict.{lookup, pop, lookup-pop_other, keep-All, lookup-All}
use cross_agent_chat.Subagent.{
  Launches, Entry, Entries, SubagentRoot, entries, store_entries, subagents_lock, changed,
  no_evidence, launch_change, Patterns, awaited_may_nest, launched_change, read_change, write_entry,
  update, launch, launched, reports, read_subagent, mark_uncertain, unmark, clear_entry, cleared,
  clear,
}
use cross_agent_chat.Subagent.Codec.{IsItem, entries-store_entries, entries-IsItem}
use cross_agent_chat.Subagent.Writing.{Nests, spares}
use cross_agent_chat.Subagent.Held.{HasChild, write-HasChild, update-HasChild}
use cross_agent_chat.Subagent.Custody.{hold, custody_of, custody}
use cross_agent_chat.IntentStore.{mark}
use cross_agent_chat.Subagent.Changes.{
  tool_fits, launch-KeepsFits, launch-Nests, launched-KeepsFits, launched-Nests, start-Nests,
  read-KeepsFits, read-Nests, nests-may_nest,
}

removed : (k : Text) (es : Entries) → All IsItem es → All IsItem (pop k es)
unfolding pop
removed k es p = keep-All IsItem (λ item. not (item.0 == k)) es p

module _ (env : Env) (patterns : Patterns) where
  -- Calls of the store, for any sessions, that succeed, spare the session and are not the end of
  -- its subagent: no output reports that the agent finished or starts another with its id, and the
  -- session is not cleared. The tool use of a launch has an id that the file can keep, or none.
  pub data Runs (key agent : Text) : SubagentRoot → SubagentRoot → Type 0 where
    here : (root : SubagentRoot) → Runs key agent root root
    launching :
        (session updated : Text) (tool_use profile : Option Text) (live_keys : Option (List Text))
        (root root' final : SubagentRoot)
        → session_key env devin session ≡ ok updated
        → spares updated key live_keys ≡ true
        → tool_fits tool_use ≡ true
        → launch env session tool_use profile live_keys root ≡ ok root'
        → Runs key agent root' final
        → Runs key agent root final
    returning :
        (session updated : Text) (tool_use : Option Text) (output : Text)
        (live_keys : Option (List Text)) (root root' final : SubagentRoot)
        → session_key env devin session ≡ ok updated
        → spares updated key live_keys ≡ true
        → (updated == key && is_text (patterns.started output) agent) ≡ false
        → launched env patterns session tool_use output live_keys root ≡ ok root'
        → Runs key agent root' final
        → Runs key agent root final
    reading :
        (session updated ended output : Text) (live_keys : Option (List Text))
        (root root' final : SubagentRoot)
        → session_key env devin session ≡ ok updated
        → spares updated key live_keys ≡ true
        → (updated == key && (ended == agent && reports env patterns agent output)) ≡ false
        → read_subagent env patterns session (some ended) output live_keys root ≡ ok root'
        → Runs key agent root' final
        → Runs key agent root final
    marking :
        (session : Text) (root root' final : SubagentRoot)
        → mark_uncertain env session root ≡ ok root'
        → Runs key agent root' final
        → Runs key agent root final
    clearing :
        (session updated : Text) (root final : SubagentRoot)
        → session_key env devin session ≡ ok updated
        → (updated == key) ≡ false
        → Runs key agent (clear env session root).1 final
        → Runs key agent root final

  -- The marks do not matter for the entries.
  marked-HasChild :
      (key agent : Text) (marks : List Text) (root : SubagentRoot)
      → HasChild key agent root
      → HasChild key agent (record root { uncertain_marks = marks })
  unfolding entries
  marked-HasChild key agent marks root c = record {
    listed = c.listed;
    entry = c.entry;
    reads = c.reads;
    found = c.found;
    nests = c.nests;
  }

  other_agent :
      (updated key agent ended output : Text)
      → (updated == key && (ended == agent && reports env patterns agent output)) ≡ false
      → reports env patterns ended output ≡ true
      → (updated == key) ≡ true
      → (ended == agent) ≡ false
  other_agent updated key agent ended output q e same = elim (Bool-cases (ended == agent)) [
    | inr n ↦ n
    | inl n ↦
        let r : reports env patterns agent output ≡ true =
          subst (λ (t : Text). reports env patterns t output ≡ true) ((==_iff ended agent).0 n) e in
        absurd (ground arith)
  ]

  read-HasChild :
      (session updated key agent ended output : Text) (live_keys : Option (List Text))
      (root root' : SubagentRoot)
      → session_key env devin session ≡ ok updated
      → spares updated key live_keys ≡ true
      → (updated == key && (ended == agent && reports env patterns agent output)) ≡ false
      → read_subagent env patterns session (some ended) output live_keys root ≡ ok root'
      → HasChild key agent root
      → HasChild key agent root'
  unfolding read_subagent
  read-HasChild session updated key agent ended output live_keys root root' k s q h c =
      elim (Bool-cases (reports env patterns ended output)) [
        | inr e ↦ subst (HasChild key agent) (ok-injective (rw e at h)) c
        | inl e ↦
            update-HasChild env session updated key agent (read_change ended) live_keys false root
              root' k s (read-KeepsFits ended)
              (λ same e'.
                read-Nests ended agent e' (other_agent updated key agent ended output q e same))
              (rw e at h) c
      ]

  clear_entry-HasChild :
      (key agent updated : Text) (root root' : SubagentRoot)
      → (updated == key) ≡ false
      → clear_entry env updated root ≡ ok root'
      → HasChild key agent root
      → HasChild key agent root'
  unfolding clear_entry
  clear_entry-HasChild key agent updated root root' n h c =
      let h₁ = then_ok (subagents_lock root) (entries root >>= λ (es : Entries). cleared es) h in
      let h₂ : cleared c.listed ≡ ok root' = rw c.reads at h₁ in
      by_entry (lookup updated c.listed) (ok-injective h₂)
    where
      left : Option Entry → Entries → SubagentRoot
      left o es = elim o [ none ↦ root | some e ↦ store_entries (pop updated es) root ]

      cleared : Entries → Result SubagentRoot
      cleared es = ok (left (lookup updated es) es)

      by_entry : (o : Option Entry) → left o c.listed ≡ root' → HasChild key agent root'
      by_entry none g = subst (HasChild key agent) g c
      by_entry (some e) g = subst (HasChild key agent) g (record {
        listed = pop updated c.listed;
        entry = c.entry;
        reads =
            entries-store_entries (pop updated c.listed) root
              (removed updated c.listed (entries-IsItem root c.listed c.reads));
        found = lookup-pop_other key updated c.listed n ∙ c.found;
        nests = c.nests;
      })

  clear-HasChild :
      (session updated key agent : Text) (root : SubagentRoot)
      → session_key env devin session ≡ ok updated
      → (updated == key) ≡ false
      → HasChild key agent root
      → HasChild key agent (clear env session root).1
  unfolding clear unmark cleared
  clear-HasChild session updated key agent root k n c =
      rw (clear, k) (by_entry (clear_entry env updated (unmark env updated root)) refl)
    where
      unmarked : HasChild key agent (unmark env updated root)
      unmarked =
          marked-HasChild key agent (keep (λ m. not (m == updated)) root.uncertain_marks) root c

      by_entry :
          (r : Result SubagentRoot)
          → clear_entry env updated (unmark env updated root) ≡ r
          → HasChild key agent (cleared env (unmark env updated root) r).1
      by_entry (err e) h = unmarked
      by_entry (ok root') h =
          clear_entry-HasChild key agent updated (unmark env updated root) root' n h unmarked

  mark-HasChild :
      (session key agent : Text) (root root' : SubagentRoot)
      → mark_uncertain env session root ≡ ok root'
      → HasChild key agent root
      → HasChild key agent root'
  unfolding mark_uncertain
  mark-HasChild session key agent root root' h c =
      let (mark, _, h₁) =
        >>=-ok (session_key env devin session)
          (λ (k : Text). ok (record root { uncertain_marks = k ∷ root.uncertain_marks })) h in
      subst (HasChild key agent) (ok-injective h₁)
        (marked-HasChild key agent (mark ∷ root.uncertain_marks) root c)

  Runs-HasChild :
      (key agent : Text) (root final : SubagentRoot)
      → Runs key agent root final
      → HasChild key agent root
      → HasChild key agent final
  unfolding launch launched
  Runs-HasChild key agent root final (here r) c = c
  Runs-HasChild key agent root final
        (launching session updated tool_use profile live_keys r root' f k s fit h rest) c =
      Runs-HasChild key agent root' final rest (
        update-HasChild env session updated key agent (launch_change tool_use profile) live_keys
          true root root' k s (launch-KeepsFits tool_use profile fit)
          (λ same e. launch-Nests tool_use profile agent e) h c)
  Runs-HasChild key agent root final
        (returning session updated tool_use output live_keys r root' f k s q h rest) c =
      Runs-HasChild key agent root' final rest (
        update-HasChild env session updated key agent (launched_change patterns tool_use output)
          live_keys true root root' k s (launched-KeepsFits patterns tool_use output)
          (λ same e. launched-Nests patterns tool_use output agent e (ground arith)) h c)
  Runs-HasChild key agent root final
        (reading session updated ended output live_keys r root' f k s q h rest) c =
      Runs-HasChild key agent root' final rest
        (read-HasChild session updated key agent ended output live_keys root root' k s q h c)
  Runs-HasChild key agent root final (marking session r root' f h rest) c =
      Runs-HasChild key agent root' final rest (mark-HasChild session key agent root root' h c)
  Runs-HasChild key agent root final (clearing session updated r f k n rest) c =
      Runs-HasChild key agent (clear env session root).1 final rest
        (clear-HasChild session updated key agent root k n c)

  held :
      (session key agent : Text) (root : SubagentRoot)
      → session_key env devin session ≡ ok key
      → HasChild key agent root
      → custody env session root ≡ ok (some hold)
  unfolding custody custody_of
  held session key agent root k c =
      let nests = nests-may_nest agent c.entry.children c.nests in
      rw (k, c.reads, c.found, nests) (ground arith)

  -- The entry of a session, a new one where there is none.
  unfoldable pub entry_or_new : Option Entry → Entry
  entry_or_new none = no_evidence
  entry_or_new (some e) = e

  start-HasChild :
      (session key agent : Text) (tool_use : Option Text) (output : Text)
      (live_keys : Option (List Text)) (es : Entries) (root root' : SubagentRoot)
      → session_key env devin session ≡ ok key
      → entries root ≡ ok es
      → awaited_may_nest tool_use (entry_or_new (lookup key es)).awaited ≡ true
      → patterns.started output ≡ some agent
      → launched env patterns session tool_use output live_keys root ≡ ok root'
      → HasChild key agent root'
  unfolding launched update entry_or_new
  start-HasChild session key agent tool_use output live_keys es root root' k reads nests started h =
      let h₁ : (subagents_lock root >> (entries root >>= λ (ds : Entries). written ds)) ≡ ok root' =
        rw k at h in
      let h₂ = then_ok (subagents_lock root) (entries root >>= λ (ds : Entries). written ds) h₁ in
      let h₃ : written es ≡ ok root' = rw reads at h₂ in by_entry (lookup key es) refl nests h₃
    where
      change : Launches → Launches → Launches × Launches × Bool
      change = launched_change patterns tool_use output

      after : Option Entry → Entries → Result SubagentRoot
      after o ds = elim o [
        | some e ↦ ok (write_entry env key change live_keys ds e root)
        | none ↦ ok (write_entry env key change live_keys ds no_evidence root)
      ]

      written : Entries → Result SubagentRoot
      written ds = after (lookup key ds) ds

      starts :
          (e : Entry) → awaited_may_nest tool_use e.awaited ≡ true → Nests agent (changed change e)
      starts e n = start-Nests patterns tool_use output agent e started n

      by_entry :
          (o : Option Entry)
          → lookup key es ≡ o
          → awaited_may_nest tool_use (entry_or_new o).awaited ≡ true
          → after o es ≡ ok root'
          → HasChild key agent root'
      by_entry (some e) found n g =
          let item = lookup-All IsItem key e es (entries-IsItem root es reads) found in
          subst (HasChild key agent) (ok-injective g) (
            write-HasChild env session key agent change live_keys es e root k reads
              (launched-KeepsFits patterns tool_use output) item.children_fit item.awaited_fit
              (starts e n))
      by_entry none found n g = subst (HasChild key agent) (ok-injective g) (
          write-HasChild env session key agent change live_keys es no_evidence root k reads
            (launched-KeepsFits patterns tool_use output) tt tt (starts no_evidence n))

  -- A subagent whose profile may nest, or whose launch was not observed, holds its session from the
  -- successful report of its start on a store that reads: after any further calls that are in
  -- `Runs`, `custody` is `hold`. These are successful calls of `launch`, `launched`, `read` for some
  -- agent, `mark_uncertain` and of `clear` for any sessions, where no output reports that this
  -- agent finished or starts another with its id, its session is not cleared, an update that is
  -- given the live sessions has this one among them or is of this one, and the tool use of a launch
  -- has no id or one of 1 to 256 characters.
  pub launched-hold :
      (session key agent : Text) (tool_use : Option Text) (output : Text)
      (live_keys : Option (List Text)) (es : Entries) (root root' final : SubagentRoot)
      → session_key env devin session ≡ ok key
      → entries root ≡ ok es
      → awaited_may_nest tool_use (entry_or_new (lookup key es)).awaited ≡ true
      → patterns.started output ≡ some agent
      → launched env patterns session tool_use output live_keys root ≡ ok root'
      → Runs key agent root' final
      → custody env session final ≡ ok (some hold)
  launched-hold session key agent tool_use output live_keys es root root' final k reads nests
        started h run =
      held session key agent final k (
        Runs-HasChild key agent root' final run (
          start-HasChild session key agent tool_use output live_keys es root root' k reads nests
            started h))
