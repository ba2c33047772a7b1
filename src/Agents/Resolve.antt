-- ===== src/Agents/Resolve.antt =====
-- `resolve_target`, `live_for_session` and `close_agent` of `MultiAgentControl`.
use kiliax.Prelude.{true, ◌&&◌, Option, none, some, if◌then◌else◌, is_empty}
use mathlib.Core.Option
use kiliax.Text.{Text, codes, text_eq, trim}
use kiliax.Text.Table.{lookup, map_values}
use kiliax.Result.{ok, err, ok_or, ◌>>=◌}
use kiliax.Session.Store.Load.{parse_session_id}
use kiliax.Agents.Paths.{
  AgentError, Checked, root_path, resolve_agent_path, path_matches_prefix, scoped_path_key,
}
use kiliax.Agents.State.{MultiAgentIdentity, AgentEntry, MultiAgentState}

module _ {L : Type 0} where
  -- The entry of a session that is not closed.
  unfoldable pub open_identity : Text → MultiAgentState L → Option MultiAgentIdentity
  open_identity session_id state = elim (lookup session_id state.by_session) [
    | none ↦ none
    | some e ↦ if e.identity.closed then none else some e.identity
  ]

  -- The part of `resolve_target` by the path.
  unfoldable pub resolve_by_path :
      MultiAgentIdentity → Text → MultiAgentState L → Checked MultiAgentIdentity
  resolve_by_path current target state = do
    path ← resolve_agent_path current.agent_path target
    session_id ←
        ok_or (AgentError.not_found path)
          (lookup (scoped_path_key current.root_session_id path) state.session_by_path)
    if is_empty session_id
        then err (AgentError.still_created path)
        else ok_or (AgentError.not_found path) (open_identity session_id state)

  unfoldable pub resolve_target :
      MultiAgentIdentity → Text → MultiAgentState L → Checked MultiAgentIdentity
  resolve_target current target state =
      let t = trim target in
      if is_empty t
      then err AgentError.empty_target
      else elim (Option.bind (parse_session_id t) (λ id. open_identity id state)) [
        | some identity ↦ ok identity
        | none ↦ resolve_by_path current t state
      ]

  unfoldable pub live_for_session : Text → MultiAgentState L → Option L
  live_for_session session_id state = Option.bind (lookup session_id state.by_session) (λ e. e.live)

  -- Closes the entry where it lies under the target.
  unfoldable pub close_under : MultiAgentIdentity → AgentEntry L → AgentEntry L
  close_under target e =
      if text_eq e.identity.root_session_id target.root_session_id
        && path_matches_prefix e.identity.agent_path target.agent_path
      then record e { identity = record e.identity { closed = true }; live = none }
      else e

  -- The status that is returned, and the state; the lock is let go between the steps, and here they are
  -- one; closing the live sessions themselves is left out.
  unfoldable pub close_agent :
      (L → Text)
      → MultiAgentIdentity
      → Text
      → MultiAgentState L
      → Checked (Text × MultiAgentState L)
  close_agent multi_agent_status current target state = do
    target ← resolve_target current target state
    if text_eq target.agent_path root_path
        then err AgentError.root_not_spawned
        else ok (
          elim (live_for_session target.session_id state) [
            | none ↦ codes "closed"
            | some live ↦ multi_agent_status live
          ],
          record state { by_session = map_values (close_under target) state.by_session },
        )
