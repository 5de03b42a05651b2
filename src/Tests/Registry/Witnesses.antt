-- ===== src/Tests/Registry/Witnesses.antt =====
-- The theorems on routes and the registry, each at an input that meets its hypotheses.
use cross_agent_chat.Prelude.{length, keep, ◌≤◌, ◌≡◌, refl, ◌↔◌, not, none, some, List}
use cross_agent_chat.Core.{message, err, ok}
use cross_agent_chat.Core.Ids.{claude, codex, devin}
use cross_agent_chat.Json.Int.{pos}
use cross_agent_chat.Json.{null}
use cross_agent_chat.Route.{is_devin, max_alias_codepoints, Route, friendly_alias}
use cross_agent_chat.Route.Codec.{route_from_object, route_to_dict, route_from_object-to_dict}
use cross_agent_chat.Route.Alias.{friendly_alias_lem}
use cross_agent_chat.Registry.{
  Files, removes, routes, write, upsert, upsert_or_reuse_live_owner, remove, compact_dead,
}
use cross_agent_chat.Registry.Reading.{arranged, routes-write}
use cross_agent_chat.Registry.Lookup.{route_of}
use cross_agent_chat.Registry.Updates.{Puts, Drops, upsert_lem, remove_lem, compact_dead_lem}
use cross_agent_chat.Registry.Reuse.{standing, upsert_or_reuse_live_owner_lem}
use cross_agent_chat.Registry.History.{calls, IsCall, IsTidy, calls-IsTidy}
use cross_agent_chat.Sender.{authenticate_sender}
use cross_agent_chat.Sender.Exact.{IsOnly, IsSender, IsNamed, authenticate_sender_lem}
use cross_agent_chat.Tests.{world, event_1, generation_1}
use cross_agent_chat.Tests.Registry.{
  program, second, other, first-IsRoute, second-IsRoute, other-IsRoute, both, both-IsRegistry,
  empty, files_1, reads_both, lock_1, empty-IsTidy, calls_1,
}
use cross_agent_chat.Text.{Text, codes}

upsert_lem_example :
    (files' : Files) × (rs' : List Route) × (upsert world second (some null) files_1 ≡ ok files')
    × (routes world files' ≡ ok rs')
    × Puts second both rs'
upsert_lem_example =
    upsert_lem world second (some null) files_1 both lock_1 reads_both second-IsRoute

upsert_or_reuse_live_owner_lem_example :
    (files' : Files) × (rs' : List Route) × (upsert_or_reuse_live_owner world other none files_1
      ≡ ok (standing other (route_of other.provider other.session_id both), files'))
    × (routes world files' ≡ ok rs')
    × Puts (standing other (route_of other.provider other.session_id both)) both rs'
upsert_or_reuse_live_owner_lem_example =
    upsert_or_reuse_live_owner_lem world other none files_1 both lock_1 reads_both other-IsRoute

remove_lem_example :
    (files' : Files) × (rs' : List Route) × (remove world claude event_1
        (pos 10)
        (some generation_1)
        files_1
      ≡ ok files')
    × (routes world files' ≡ ok rs')
    × Drops (removes claude event_1 (pos 10) (some generation_1)) both rs'
remove_lem_example =
    remove_lem world claude event_1 (pos 10) (some generation_1) files_1 both lock_1 reads_both

compact_dead_lem_example :
    (files' : Files) × (rs' : List Route) × (compact_dead world (λ r. is_devin r.provider) files_1
      ≡ ok (keep (λ r. is_devin r.provider) both, files'))
    × (routes world files' ≡ ok rs')
    × Drops (λ r. not (is_devin r.provider)) both rs'
compact_dead_lem_example =
    compact_dead_lem world (λ r. is_devin r.provider) files_1 both lock_1 reads_both

calls-IsTidy_example :
    (files' : Files) × (calls world calls_1 empty ≡ ok files') × IsTidy world files'
unfolding IsCall
calls-IsTidy_example =
    calls-IsTidy world calls_1 empty (first-IsRoute, (other-IsRoute, (tt, (tt, tt)))) empty-IsTidy

routes-write_example : routes world (write world both empty) ≡ ok (arranged both)
routes-write_example = routes-write world both empty both-IsRegistry

route_from_object-to_dict_example : route_from_object world (route_to_dict other) ≡ ok other
route_from_object-to_dict_example = route_from_object-to_dict world other other-IsRoute

friendly_alias_lem_example :
    (alias : Text) × (friendly_alias world codex (codes "mac") (codes "project") event_1 ≡ ok alias)
    × (length alias ≤ max_alias_codepoints)
unfolding program
friendly_alias_lem_example =
    friendly_alias_lem world codex (codes "mac") (codes "project") event_1 refl refl refl

authenticates_first :
    authenticate_sender both codex (pos 10) (some event_1)
    ≡ err (message "exact Codex sender is unavailable")
unfolding program
authenticates_first = refl

authenticates_other : authenticate_sender both devin (pos 10) none ≡ ok other
unfolding program
authenticates_other = refl

authenticate_sender_lem_example :
    (authenticate_sender both devin (pos 10) none ≡ ok other)
    ↔ (IsNamed devin none × IsOnly (IsSender devin (pos 10) none) both other)
authenticate_sender_lem_example = authenticate_sender_lem both devin (pos 10) none other
