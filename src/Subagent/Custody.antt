-- ===== src/Subagent/Custody.antt =====
-- `custody` and `restriction`: how far delivery to a session is limited.
use cross_agent_chat.Prelude.{if◌then◌else◌, ◌≡◌, refl, ◌||◌, Option, none, some, arith}
use cross_agent_chat.Core.{Result, ok, ◌>>=◌, Env}
use cross_agent_chat.Core.Ids.{devin}
use cross_agent_chat.Json.{member}
use cross_agent_chat.Route.{session_key}
use cross_agent_chat.Text.{Text}
use cross_agent_chat.Text.Dict.{lookup}
use cross_agent_chat.Subagent.{Entry, SubagentRoot, entries, may_nest}

pub data Custody : Type 0 where
  root_tools hold : Custody

-- `DevinCurrentBoundary`
pub data Boundary : Type 0 where
  unrestricted root_tools_only next_prompt_custom_subagent next_prompt_unobserved_launch : Boundary

unfoldable pub custody_of : Option Entry → Option Custody
custody_of none = none
custody_of (some e) =
    if e.uncertain || may_nest e.children || may_nest e.awaited then some hold else some root_tools

unfoldable pub boundary_of : Option Entry → Boundary
boundary_of none = unrestricted
boundary_of (some e) =
    if e.uncertain
    then next_prompt_unobserved_launch
    else if may_nest e.children || may_nest e.awaited
    then next_prompt_custom_subagent
    else root_tools_only

-- What a restriction says of the custody.
unfoldable pub custody_shown : Boundary → Option Custody
custody_shown unrestricted = none
custody_shown root_tools_only = some root_tools
custody_shown next_prompt_custom_subagent = some hold
custody_shown next_prompt_unobserved_launch = some hold

shown : (o : Option Entry) → custody_of o ≡ custody_shown (boundary_of o)
unfolding custody_of boundary_of custody_shown
shown none = refl
shown (some e) = ground arith

module _ (env : Env) where
  -- `custody`
  unfoldable pub custody : Text → SubagentRoot → Result (Option Custody)
  custody session root = do
    key ← session_key env devin session
    (if member key root.uncertain_marks
        then ok (some hold)
        else (do es ← entries root; ok (custody_of (lookup key es))))

  -- `restriction`
  unfoldable pub restriction : Text → SubagentRoot → Result Boundary
  restriction session root = do
    key ← session_key env devin session
    (if member key root.uncertain_marks
        then ok next_prompt_unobserved_launch
        else (do es ← entries root; ok (boundary_of (lookup key es))))

  -- `restriction` refines `custody` and changes nothing of it: for every session and every state,
  -- readable or not, `custody` is what the boundary that `restriction` reports stands for, and the
  -- one raises what the other raises.
  pub custody-restriction :
      (session : Text) (root : SubagentRoot)
      → custody session root ≡ (restriction session root >>= λ (b : Boundary). ok (custody_shown b))
  unfolding custody restriction custody_shown
  custody-restriction session root = grind (arith, shown)
