-- ===== src/IntentStore/Reading.antt =====
-- What the intents file holds: rows that are written can be read, and what is read is valid.
use cross_agent_chat.Prelude.{All, ◌≡◌, subst, true, List}
use cross_agent_chat.Core.{message, ok, ◌>>◌, require, Env, >>=-ok, require-ok, ok-injective}
use cross_agent_chat.Core.Intent.{Intent, intent_schema, intent_from_object, intent_to_dict}
use cross_agent_chat.Core.Intent.RoundTrip.{
  IsValid, intent_from_object-to_dict, intent_from_object-IsValid,
}
use cross_agent_chat.Core.StateFile.{
  read_rows, read_rows-atomic_json, map_ok, map_ok-map, map_ok-All,
}
use cross_agent_chat.IntentStore.{Disk, distinct, event_ids, intents_of_raw, intents, store}
use cross_agent_chat.Json.{Json}

module _ (env : Env) where
  -- The rows that the store keeps: each valid, no two with one event id.
  pub record Wellformed (rows : List Intent) : Type 0 where
    pub valid : All (IsValid env) rows
    pub unique : distinct (event_ids rows) ≡ true

  -- Well-formed rows are read back as they were written.
  pub intents-store :
      (rows : List Intent) (disk : Disk)
      → Wellformed rows
      → intents env (store env rows disk) ≡ ok rows
  unfolding intents store intents_of_raw
  intents-store rows disk w = rw (
    read_rows-atomic_json,
    map_ok-map (IsValid env) (intent_from_object env) intent_to_dict
        (intent_from_object-to_dict env) rows w.valid,
    w.unique,
  )

  intents_of_raw-Wellformed :
      (raw : List Json) (rows : List Intent) → intents_of_raw env raw ≡ ok rows → Wellformed rows
  unfolding intents_of_raw
  intents_of_raw-Wellformed raw rows h =
      let duplicates = message "intent state contains duplicate events" in
      let (rows', read, h₁) =
        >>=-ok (map_ok (intent_from_object env) raw)
          (λ (rs : List Intent). require (distinct (event_ids rs)) duplicates >> ok rs) h in
      let (unique, h₂) = require-ok (distinct (event_ids rows')) duplicates (ok rows') h₁ in
      subst Wellformed (ok-injective h₂) (record {
        valid =
            map_ok-All (IsValid env) (intent_from_object env) (intent_from_object-IsValid env) raw
              rows' read;
        unique = unique;
      })

  -- Whatever the file holds, the rows that are read from it are well formed.
  pub intents-Wellformed :
      (disk : Disk) (rows : List Intent) → intents env disk ≡ ok rows → Wellformed rows
  unfolding intents
  intents-Wellformed disk rows h =
      let (raw, _, h₁) =
        >>=-ok (read_rows disk.intents_file (message "intent state is invalid") intent_schema)
          (intents_of_raw env) h in
      intents_of_raw-Wellformed raw rows h₁
