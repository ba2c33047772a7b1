-- ===== src/Agents/State.antt =====
-- The state of `MultiAgentControl` and the operations that change it. `L` stands for a live session, and
-- what a live session tells of its status is a parameter.
use kiliax.Prelude.{
  ℕ, suc, Bool, ◌&&◌, not, List, [], ◌∷◌, Option, none, some, if◌then◌else◌, is_empty, is_some, leb,
  ltb,
}
use mathlib.Core.Option
use kiliax.Text.{Text, text_eq}
use kiliax.Text.Table.{Table, lookup, insert, remove}
use kiliax.Result.{ok, err, ◌>>=◌}
use kiliax.Agents.Paths.{
  AgentError, Checked, root_path, validate_task_name, join_agent_path, agent_depth, scoped_path_key,
}

pub record MultiAgentIdentity : Type 0 where
  pub session_id : Text
  pub root_session_id : Text
  pub parent_session_id : Option Text
  pub agent_path : Text
  pub closed : Bool

pub record AgentEntry (L : Type 0) : Type 0 where
  pub identity : MultiAgentIdentity
  pub live : Option L
  pub last_task_message : Option Text

-- crates/kiliax-core/src/tools/builtin/multi_agents.rs
pub record MailboxUpdate : Type 0 where
  pub from : Text
  pub to : Text
  pub session_id : Text
  pub status : Text
  pub message : Text

pub data MailboxItem : Type 0 where
  message update : MailboxUpdate → MailboxItem

-- With the counter of the `watch` channel that wakes those who wait.
pub record MultiAgentState (L : Type 0) : Type 0 where
  pub by_session : Table (AgentEntry L)
  pub session_by_path : Table Text
  pub mailbox : Table (List MailboxItem)
  pub mailbox_version : ℕ

abbrev pub path_key : MultiAgentIdentity → Text
path_key identity = scoped_path_key identity.root_session_id identity.agent_path

abbrev pub default_root_identity : Text → Bool → MultiAgentIdentity
default_root_identity session_id closed = record {
  session_id = session_id;
  root_session_id = session_id;
  parent_session_id = none;
  agent_path = root_path;
  closed = closed;
}

module _ {L : Type 0} where
  abbrev pub empty : MultiAgentState L
  empty = record { by_session = []; session_by_path = []; mailbox = []; mailbox_version = 0 }

  unfoldable pub register_live_agent :
      MultiAgentIdentity → L → MultiAgentState L → MultiAgentState L
  register_live_agent identity live state = record state {
    session_by_path = insert (path_key identity) identity.session_id state.session_by_path;
    by_session =
        insert identity.session_id
          (record {
            identity = identity;
            live = some live;
            last_task_message =
                Option.bind (lookup identity.session_id state.by_session)
                  (λ e. e.last_task_message);
          })
          state.by_session;
  }

  -- The count of the agents of a root that are not closed, the root left out.
  unfoldable pub count_active : Text → Table (AgentEntry L) → ℕ
  count_active root_key [] = 0
  count_active root_key ((k, e) ∷ entries) =
      let rest = count_active root_key entries in
      if text_eq e.identity.root_session_id root_key
        && not (text_eq e.identity.agent_path root_path)
        && not e.identity.closed
      then suc rest
      else rest

  unfoldable pub reserve_spawn :
      MultiAgentIdentity → Text → ℕ → ℕ → MultiAgentState L → Checked (Text × MultiAgentState L)
  reserve_spawn parent task_name max_concurrent_agents_per_root max_depth state = do
    _ ← validate_task_name task_name
    child_path ← join_agent_path parent.agent_path task_name
    if ltb max_depth (agent_depth child_path)
        then err (AgentError.depth_exceeded (agent_depth child_path) max_depth)
        else if is_some
            (lookup (scoped_path_key parent.root_session_id child_path) state.session_by_path)
        then err (AgentError.already_exists child_path)
        else if leb max_concurrent_agents_per_root
            (count_active parent.root_session_id state.by_session)
        then err (AgentError.limit_reached max_concurrent_agents_per_root)
        else ok (
          child_path,
          record state {
            session_by_path =
                insert (scoped_path_key parent.root_session_id child_path) [] state.session_by_path;
          },
        )

  unfoldable pub release_reserved_path : Text → Text → MultiAgentState L → MultiAgentState L
  release_reserved_path root_session_id path state =
      elim (lookup (scoped_path_key root_session_id path) state.session_by_path) [
        | none ↦ state
        | some session_id ↦
            if is_empty session_id
            then record state {
              session_by_path = remove (scoped_path_key root_session_id path) state.session_by_path;
            }
            else state
      ]

  unfoldable pub set_last_task_message : Text → Text → MultiAgentState L → MultiAgentState L
  set_last_task_message session_id text state = elim (lookup session_id state.by_session) [
    | none ↦ state
    | some e ↦ record state {
      by_session = insert session_id (record e { last_task_message = some text }) state.by_session;
    }
  ]
