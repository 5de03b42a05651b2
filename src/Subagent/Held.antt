-- ===== src/Subagent/Held.antt =====
-- An entry in which a subagent runs that may nest, under `_update`.
use cross_agent_chat.Prelude.{
  if◌then◌else◌, Bool-cases, All, ◌≡◌, refl, sym, ap, ◌∙◌, subst, inl, inr, Bool, true, false,
  Option, none, some, List, ◌∷◌, ◌++◌,
}
use cross_agent_chat.Core.{Result, ok, ◌>>=◌, ◌>>◌, Env, then_ok, ok-injective, some-injective}
use cross_agent_chat.Core.Ids.{devin, valid_session_id}
use cross_agent_chat.Route.{provider_text, session_key}
use cross_agent_chat.Text.{Text, ◌==◌, ==_iff, is_hex64}
use cross_agent_chat.Text.Dict.{lookup, lookup-All}
use cross_agent_chat.Subagent.{
  Launches, Entry, Entries, SubagentRoot, entries, subagents_lock, changed, put_entry, forget,
  no_evidence, write_entry, update,
}
use cross_agent_chat.Subagent.Codec.{Fits, IsItem, entries-store_entries, entries-IsItem}
use cross_agent_chat.Subagent.Writing.{
  Nests, KeepsFits, spares, spares_self, Nests-is_evidence, lookup-forget, lookup-put_other,
  lookup-put_same, put-All, forget-All,
}

-- A store that reads, and has a subagent of a session that may nest.
pub record HasChild (key agent : Text) (root : SubagentRoot) : Type 0 where
  pub listed : Entries
  pub entry : Entry
  pub reads : entries root ≡ ok listed
  pub found : lookup key listed ≡ some entry
  pub nests : Nests agent entry

module _ (env : Env) where
  key-is_hex64 : (session key : Text) → session_key env devin session ≡ ok key → is_hex64 key ≡ true
  unfolding session_key
  key-is_hex64 session key h =
      let same = ok-injective (then_ok (valid_session_id devin session "session id") _ h) in
      subst (λ (t : Text). is_hex64 t ≡ true) same
        (env.sha256-is_hex64 (provider_text devin ++ (b':' ∷ session)))

  -- What is written for an entry that is accepted.
  write-reads :
      (key : Text) (change : Launches → Launches → Launches × Launches × Bool)
      (live_keys : Option (List Text)) (es : Entries) (e : Entry) (root : SubagentRoot)
      → is_hex64 key ≡ true
      → KeepsFits change
      → Fits e.children
      → Fits e.awaited
      → All IsItem es
      → entries (write_entry env key change live_keys es e root)
        ≡ ok (forget key live_keys (put_entry key (changed change e) es))
  unfolding write_entry
  write-reads key change live_keys es e root k f c a p =
      let (c', a') = f e c a in
      entries-store_entries (forget key live_keys (put_entry key (changed change e) es)) root (
        forget-All key live_keys (put_entry key (changed change e) es) (
          put-All key (changed change e) es
            (record { hashed = k; children_fit = c'; awaited_fit = a' }) p))

  -- An entry that is written with the child.
  pub write-HasChild :
      (session key agent : Text) (change : Launches → Launches → Launches × Launches × Bool)
      (live_keys : Option (List Text)) (es : Entries) (e : Entry) (root : SubagentRoot)
      → session_key env devin session ≡ ok key
      → entries root ≡ ok es
      → KeepsFits change
      → Fits e.children
      → Fits e.awaited
      → Nests agent (changed change e)
      → HasChild key agent (write_entry env key change live_keys es e root)
  write-HasChild session key agent change live_keys es e root k reads f fc fa n = record {
    listed = forget key live_keys (put_entry key (changed change e) es);
    entry = changed change e;
    reads =
        write-reads key change live_keys es e root (key-is_hex64 session key k) f fc fa
          (entries-IsItem root es reads);
    found =
        lookup-forget key key live_keys (put_entry key (changed change e) es)
          (spares_self key live_keys)
        ∙ lookup-put_same key (changed change e) es (Nests-is_evidence agent (changed change e) n);
    nests = n;
  }

  -- An update keeps the child: one of another session that spares this one, or one of this session
  -- that does not end the child.
  pub update-HasChild :
      (session updated key agent : Text) (change : Launches → Launches → Launches × Launches × Bool)
      (live_keys : Option (List Text)) (create : Bool) (root root' : SubagentRoot)
      → session_key env devin session ≡ ok updated
      → spares updated key live_keys ≡ true
      → KeepsFits change
      → ((updated == key) ≡ true → (e : Entry) → Nests agent e → Nests agent (changed change e))
      → update env session change live_keys create root ≡ ok root'
      → HasChild key agent root
      → HasChild key agent root'
  unfolding update
  update-HasChild session updated key agent change live_keys create root root' k s f n h c =
      let h₁ : (subagents_lock root >> (entries root >>= λ (es : Entries). written es)) ≡ ok root' =
        rw k at h in
      let h₂ = then_ok (subagents_lock root) (entries root >>= λ (es : Entries). written es) h₁ in
      let h₃ : written c.listed ≡ ok root' = rw c.reads at h₂ in
      by_entry (lookup updated c.listed) refl h₃
    where
      after : Option Entry → Entries → Result SubagentRoot
      after o es = elim o [
        | some e ↦ ok (write_entry env updated change live_keys es e root)
        | none ↦
            ok (
              if create then write_entry env updated change live_keys es no_evidence root else root)
      ]

      written : Entries → Result SubagentRoot
      written es = after (lookup updated es) es

      accepted : All IsItem c.listed
      accepted = entries-IsItem root c.listed c.reads

      wrote :
          (e : Entry)
          → Fits e.children
          → Fits e.awaited
          → ((updated == key) ≡ true → Nests agent e)
          → write_entry env updated change live_keys c.listed e root ≡ root'
          → HasChild key agent root'
      wrote e fc fa was w =
          let reads =
            write-reads updated change live_keys c.listed e root (key-is_hex64 session updated k) f
              fc fa accepted in
          elim (Bool-cases (updated == key)) [
            | inl same ↦
                subst (λ (t : Text). HasChild t agent root') ((==_iff updated key).0 same)
                  (subst (HasChild updated agent) w (
                    write-HasChild session updated agent change live_keys c.listed e root k c.reads
                      f fc fa (n same e (was same))))
            | inr other ↦ record {
              listed = forget updated live_keys (put_entry updated (changed change e) c.listed);
              entry = c.entry;
              reads = ap entries (sym w) ∙ reads;
              found =
                  lookup-forget key updated live_keys
                    (put_entry updated (changed change e) c.listed) s
                  ∙ lookup-put_other key updated (changed change e) c.listed other
                  ∙ c.found;
              nests = c.nests;
            }
          ]

      of_found :
          (e : Entry) → lookup updated c.listed ≡ some e → (updated == key) ≡ true → Nests agent e
      of_found e found same =
          let at_key : lookup key c.listed ≡ some e =
            subst (λ (t : Text). lookup t c.listed ≡ some e) ((==_iff updated key).0 same) found in
          let one : c.entry ≡ e = some-injective (sym c.found ∙ at_key) in
          subst (Nests agent) one c.nests

      missing : lookup updated c.listed ≡ none → (updated == key) ≡ true → Nests agent no_evidence
      missing found same =
          let at_key : lookup key c.listed ≡ none =
            subst (λ (t : Text). lookup t c.listed ≡ none) ((==_iff updated key).0 same) found in
          absurd (cc (at_key, c.found))

      by_create :
          (b : Bool)
          → ((updated == key) ≡ true → Nests agent no_evidence)
          → ok (
              if b
              then write_entry env updated change live_keys c.listed no_evidence root
              else root)
            ≡ ok root'
          → HasChild key agent root'
      by_create true was g = wrote no_evidence tt tt was (ok-injective g)
      by_create false was g = subst (HasChild key agent) (ok-injective g) c

      by_entry :
          (o : Option Entry)
          → lookup updated c.listed ≡ o
          → after o c.listed ≡ ok root'
          → HasChild key agent root'
      by_entry (some e) found g =
          let item = lookup-All IsItem updated e c.listed accepted found in
          wrote e item.children_fit item.awaited_fit (λ same. of_found e found same)
            (ok-injective g)
      by_entry none found g = by_create create (λ same. missing found same) g
