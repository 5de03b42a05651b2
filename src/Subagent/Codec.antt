-- ===== src/Subagent/Codec.antt =====
-- The entries of the lifecycle file against what is written to it.
use cross_agent_chat.Prelude.{All, ◌≡◌, refl, subst, Bool, true, false, Option, none, some, [], ◌∷◌}
use cross_agent_chat.Core.{Result, ok, ◌>>=◌, or_fail, >>=-ok, require-ok, ok-injective}
use cross_agent_chat.Core.StateFile.{StateFile, absent, present}
use cross_agent_chat.Json.{Json, bool, obj, Fields, end, field, get, keys, member, subset, keys_are}
use cross_agent_chat.Text.{Text, codes, ◌==◌, is_hex64}
use cross_agent_chat.Subagent.{
  Launches, Entry, Entries, SubagentRoot, bad_subagents, fits_key, launches_of_fields, launches,
  entry_fields, as_bool, entry_of_json, entries_of_fields, read_entries, entries,
  launches_to_fields, entry_to_json, entries_to_fields, store_entries,
}

-- Keys that `_launches` accepts.
abbrev pub Fits : Launches → Type 0
Fits ls = All (λ item. fits_key item.0 ≡ true) ls

-- An item that `_entries` accepts.
pub record IsItem (item : Text × Entry) : Type 0 where
  pub hashed : is_hex64 item.0 ≡ true
  pub children_fit : Fits item.1.children
  pub awaited_fit : Fits item.1.awaited

launches_round : (ls : Launches) → Fits ls → launches_of_fields (launches_to_fields ls) ≡ ok ls
unfolding launches_of_fields launches_to_fields
launches_round [] h = refl
launches_round ((k, b) ∷ ls) h = rw (h.0, launches_round ls h.1) refl

entry_round :
    (e : Entry) → Fits e.children → Fits e.awaited → entry_of_json (entry_to_json e) ≡ ok e
unfolding entry_of_json entry_to_json launches as_bool keys_are subset member keys get entry_fields
    ◌==◌
entry_round e c a = rw (launches_round e.children c, launches_round e.awaited a) refl

entries_round : (es : Entries) → All IsItem es → entries_of_fields (entries_to_fields es) ≡ ok es
unfolding entries_of_fields entries_to_fields
entries_round [] h = refl
entries_round ((k, e) ∷ es) h =
    rw (h.0.hashed, entry_round e h.0.children_fit h.0.awaited_fit, entries_round es h.1) refl

-- What is stored is read back.
pub entries-store_entries :
    (es : Entries) (root : SubagentRoot) → All IsItem es → entries (store_entries es root) ≡ ok es
unfolding entries store_entries read_entries
entries-store_entries es root h = entries_round es h

launches_of_fields-Fits : (fs : Fields) (ls : Launches) → launches_of_fields fs ≡ ok ls → Fits ls
unfolding launches_of_fields
launches_of_fields-Fits end ls h = subst Fits (ok-injective h) tt
launches_of_fields-Fits (field k (bool b) fs) ls h =
    let (fit, h₁) =
      require-ok (fits_key k) bad_subagents
        (launches_of_fields fs >>= λ (rest : Launches). ok ((k, b) ∷ rest)) h in
    let (rest, reads, h₂) =
      >>=-ok (launches_of_fields fs) (λ (rest : Launches). ok ((k, b) ∷ rest)) h₁ in
    subst Fits (ok-injective h₂) (fit, launches_of_fields-Fits fs rest reads)
launches_of_fields-Fits (field k v fs) ls h = absurd (cc)

launches-Fits : (j : Option Json) (ls : Launches) → launches j ≡ ok ls → Fits ls
unfolding launches
launches-Fits (some (obj fs)) ls h = launches_of_fields-Fits fs ls h
launches-Fits j ls h = absurd (cc)

abbrev made : Launches → Launches → Bool → Result Entry
made children awaited u = ok (record { children = children; awaited = awaited; uncertain = u })

-- The end of the decoding.
abbrev rest_of : Fields → Bool → Result Entry
rest_of fs u = launches (get (codes "children") fs) >>= λ (children : Launches).
    launches (get (codes "pending") fs) >>= λ (awaited : Launches). made children awaited u

entry_of_json-Fits :
    (j : Json) (e : Entry) → entry_of_json j ≡ ok e → Fits e.children × Fits e.awaited
unfolding entry_of_json
entry_of_json-Fits (obj fs) e h =
    let (_, h₁) =
      require-ok (keys_are entry_fields fs) bad_subagents
        (or_fail (as_bool (get (codes "uncertain") fs)) bad_subagents >>= λ (u : Bool).
          rest_of fs u)
        h in
    let (u, _, h₂) =
      >>=-ok (or_fail (as_bool (get (codes "uncertain") fs)) bad_subagents)
        (λ (u : Bool). rest_of fs u) h₁ in
    let (children, c, h₃) =
      >>=-ok (launches (get (codes "children") fs))
        (λ (children : Launches).
          launches (get (codes "pending") fs) >>= λ (awaited : Launches). made children awaited u)
        h₂ in
    let (awaited, a, h₄) =
      >>=-ok (launches (get (codes "pending") fs)) (λ (awaited : Launches). made children awaited u)
        h₃ in
    subst (λ (x : Entry). Fits x.children × Fits x.awaited) (ok-injective h₄)
      (
        launches-Fits (get (codes "children") fs) children c,
        launches-Fits (get (codes "pending") fs) awaited a,
      )
entry_of_json-Fits j e h = absurd (cc)

entries_of_fields-IsItem :
    (fs : Fields) (es : Entries) → entries_of_fields fs ≡ ok es → All IsItem es
unfolding entries_of_fields
entries_of_fields-IsItem end es h = subst (All IsItem) (ok-injective h) tt
entries_of_fields-IsItem (field k v fs) es h =
    let (hashed, h₁) =
      require-ok (is_hex64 k) bad_subagents
        (entry_of_json v >>= λ (e : Entry).
          entries_of_fields fs >>= λ (rest : Entries). ok ((k, e) ∷ rest))
        h in
    let (e, one, h₂) =
      >>=-ok (entry_of_json v)
        (λ (e : Entry). entries_of_fields fs >>= λ (rest : Entries). ok ((k, e) ∷ rest)) h₁ in
    let (rest, reads, h₃) =
      >>=-ok (entries_of_fields fs) (λ (rest : Entries). ok ((k, e) ∷ rest)) h₂ in
    let (c, a) = entry_of_json-Fits v e one in
    subst (All IsItem) (ok-injective h₃) (
      record { hashed = hashed; children_fit = c; awaited_fit = a },
      entries_of_fields-IsItem fs rest reads,
    )

-- What is read was accepted.
pub entries-IsItem : (root : SubagentRoot) (es : Entries) → entries root ≡ ok es → All IsItem es
unfolding entries read_entries
entries-IsItem root es h = by_file root.lifecycle_file h
  where
    by_file : (f : StateFile) → read_entries f ≡ ok es → All IsItem es
    by_file absent g = subst (All IsItem) (ok-injective g) tt
    by_file (present false content) g = absurd (cc)
    by_file (present true none) g = absurd (cc)
    by_file (present true (some (obj fs))) g = entries_of_fields-IsItem fs es g
    by_file (present true (some j)) g = absurd (cc)
