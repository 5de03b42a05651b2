-- ===== src/Sender.antt =====
-- core.py `authenticate_sender`: the route of the process that calls.
pub mod Exact
use cross_agent_chat.Prelude.{keep, Bool, ◌&&◌, Option, none, some, List, [], ◌∷◌}
use cross_agent_chat.Core.{Error, message, Result, err, ok, ◌>>=◌}
use cross_agent_chat.Core.Ids.{valid_uuid, Provider, claude, codex, devin}
use cross_agent_chat.Json.Int.{ℤ, int_eq}
use cross_agent_chat.Route.{provider_eq, Route}
use cross_agent_chat.Text.{Text, ◌==◌}

-- `item.provider == provider and item.pid == parent_pid`
unfoldable pub runs_as : Provider → ℤ → Route → Bool
runs_as provider pid r = provider_eq r.provider provider && int_eq r.pid pid

-- The test of a Codex sender, with the host's thread.
unfoldable pub runs_thread : ℤ → Text → Route → Bool
runs_thread pid thread r = runs_as codex pid r && (r.session_id == thread)

-- `matches[0]` of exactly one match
unfoldable pub only : List Route → Error → Result Route
only [] e = err e
only (r ∷ rs) e = elim rs [ [] ↦ ok r | _ ∷ _ ↦ err e ]

-- `authenticate_sender`; its last rejection, of another provider, is the type of the argument.
unfoldable pub authenticate_sender : List Route → Provider → ℤ → Option Text → Result Route
authenticate_sender routes claude pid thread =
    only (keep (runs_as claude pid) routes) (message "exact Claude sender is unavailable")
authenticate_sender routes devin pid thread =
    only (keep (runs_as devin pid) routes) (message "exact Devin sender is unavailable")
authenticate_sender routes codex pid thread = elim thread [
  | none ↦ err (message "Codex host thread identity is required")
  | some value ↦ do
    identifier ← valid_uuid value "Codex host thread identity"
    only (keep (runs_thread pid identifier) routes) (message "exact Codex sender is unavailable")
]
