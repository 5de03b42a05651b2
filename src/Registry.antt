-- ===== src/Registry.antt =====
-- core.py `Registry`: the routes of one state root, Devin's in a file of their own, and the owner
-- anchors beside them. Every operation that writes holds the lock of the routes, so it is one
-- step; a rejection comes before the write and leaves the files as they were. Removing an anchor
-- file, and writing one, succeeds.
pub mod Reading
pub mod Updates
pub mod Lookup
pub mod Reuse
pub mod History
use cross_agent_chat.Json.Int.{ℤ, int_eq}
use cross_agent_chat.Prelude.{
  eqb, if◌then◌else◌, is_some, length, keep, any, all, Bool, true, false, not, ◌&&◌, Option, none,
  some, List, [], ◌∷◌, ◌++◌, map,
}
use cross_agent_chat.Core.{Error, message, Result, ok, ◌>>=◌, ◌>>◌, require, Env}
use cross_agent_chat.Core.Ids.{Provider}
use cross_agent_chat.Core.StateFile.{StateFile, absent, read_rows, atomic_json, map_ok}
use cross_agent_chat.Json.{Json}
use cross_agent_chat.Route.{provider_eq, is_devin, Route}
use cross_agent_chat.Text.{Text, ◌==◌}
use cross_agent_chat.Route.Codec.{route_from_object, route_to_dict}

-- routes.json, devin-routes.json, and the generations that have an owner-<generation>.json with
-- its document.
pub record Files : Type 0 where
  pub is_private : Bool
  pub routes_file : StateFile
  pub devin_file : StateFile
  pub anchors : List (Text × Json)

-- `(item.provider, item.session_id) == (provider, session_id)`
unfoldable pub has_identity : Provider → Text → Route → Bool
has_identity provider session_id r = provider_eq r.provider provider && (r.session_id == session_id)

abbrev pub same_identity : Route → Route → Bool
same_identity r = has_identity r.provider r.session_id

-- `len({(item.provider, item.session_id) ...}) == len(routes)`
unfoldable pub distinct_identities : List Route → Bool
distinct_identities [] = true
distinct_identities (r ∷ rs) = not (any (same_identity r) rs) && distinct_identities rs

unfoldable pub in_devin : Route → Bool
in_devin r = is_devin r.provider

unfoldable pub in_legacy : Route → Bool
in_legacy r = not (is_devin r.provider)

abbrev bad_text : Error
bad_text = message "route registry is invalid"

abbrev bad_shape : Error
bad_shape = message "route registry schema is unsupported"

-- `item.generation for item in retained`
unfoldable pub has_generation : Text → Route → Bool
has_generation generation r = r.generation == generation

-- `_prune_owner_anchors`
unfoldable pub prune_owner_anchors : List Route → List (Text × Json) → List (Text × Json)
prune_owner_anchors retained = keep (λ a. any (has_generation a.0) retained)

-- `_publish_owner_anchor`
unfoldable pub publish_owner_anchor : Route → Option Json → List (Text × Json) → List (Text × Json)
publish_owner_anchor route none anchors = anchors
publish_owner_anchor route (some anchor) anchors =
    (route.generation, anchor) ∷ keep (λ a. not (a.0 == route.generation)) anchors

-- `state_lock(root, "routes")`
unfoldable pub routes_lock : Files → Result (Unit {0})
routes_lock files = require files.is_private (message "private directory is unsafe")

unfoldable pub option_eq : Option Text → Option Text → Bool
option_eq none none = true
option_eq (some s) (some t) = s == t
option_eq _ _ = false

-- The live generation that an identical hook repeats.
unfoldable pub repeats : Route → Route → Bool
repeats route item =
    same_identity route item
    && (item.device == route.device)
    && (item.cwd == route.cwd)
    && int_eq item.pid route.pid
    && is_some item.owner_identity
    && option_eq item.owner_identity route.owner_identity

-- What `remove` drops.
unfoldable pub removes : Provider → Text → ℤ → Option Text → Route → Bool
removes provider session_id pid generation item =
    has_identity provider session_id item
    && int_eq item.pid pid
    && (elim generation [ none ↦ true | some g ↦ item.generation == g ])

module _ (env : Env) where
  -- `_read` of one file, `allowed` being the test of the provider.
  unfoldable pub read_routes : StateFile → (Route → Bool) → Error → Result (List Route)
  read_routes file allowed wrong = do
    raw ← read_rows file bad_text bad_shape
    rs ← map_ok (route_from_object env) raw
    require (all allowed rs) wrong
    ok rs

  -- `routes`
  unfoldable pub routes : Files → Result (List Route)
  routes files = do
    legacy ←
        read_routes files.routes_file in_legacy
          (message "legacy route registry contains unsupported provider")
    others ←
        read_routes files.devin_file in_devin
          (message "Devin route registry contains unsupported provider")
    require (distinct_identities (legacy ++ others))
        (message "route registry contains duplicate identities")
    ok (legacy ++ others)

  -- The file of the Devin routes is removed when there is none.
  unfoldable pub devin_rows : List Route → StateFile
  devin_rows [] = absent
  devin_rows (r ∷ rs) = atomic_json (map route_to_dict (r ∷ rs))

  -- `_write`
  unfoldable pub write : List Route → Files → Files
  write rs files = record files {
    routes_file = atomic_json (map route_to_dict (keep in_legacy rs));
    devin_file = devin_rows (keep in_devin rs);
    anchors = prune_owner_anchors rs files.anchors;
  }

  -- `upsert`
  unfoldable pub upsert : Route → Option Json → Files → Result Files
  upsert route anchor files = do
    routes_lock files
    found ← routes files
    let existing = keep (λ item. not (same_identity route item)) found
    ok (
        write (existing ++ route ∷ [])
          (record files { anchors = publish_owner_anchor route anchor files.anchors }))

  -- `upsert_or_reuse_live_owner`
  unfoldable pub upsert_or_reuse_live_owner : Route → Option Json → Files → Result (Route × Files)
  upsert_or_reuse_live_owner route anchor files = do
    routes_lock files
    existing ← routes files
    let retained = keep (λ item. not (same_identity route item)) existing
    let replaced =
        write (retained ++ route ∷ [])
          (record files { anchors = publish_owner_anchor route anchor files.anchors })
    ok (elim (keep (repeats route) existing) [
      | [] ↦ (route, replaced)
      | one ∷ rest ↦ elim rest [ [] ↦ (one, files) | _ ∷ _ ↦ (route, replaced) ]
    ])

  -- `remove`
  unfoldable pub remove : Provider → Text → ℤ → Option Text → Files → Result Files
  remove provider session_id pid generation files = do
    routes_lock files
    existing ← routes files
    ok (write (keep (λ item. not (removes provider session_id pid generation item)) existing) files)

  -- `compact_dead`; `live` answers `process_is_live`.
  unfoldable pub compact_dead : (Route → Bool) → Files → Result (List Route × Files)
  compact_dead live files = do
    routes_lock files
    existing ← routes files
    let retained = keep live existing
    ok (
      retained,
      if eqb (length retained) (length existing)
          then record files { anchors = prune_owner_anchors retained files.anchors }
          else write retained files,
    )
