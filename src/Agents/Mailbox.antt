-- ===== src/Agents/Mailbox.antt =====
-- The mailboxes of `MultiAgentControl`.
use kiliax.Prelude.{
  ◌+◌, List, [], ◌∷◌, ◌++◌, none, some, if◌then◌else◌, is_empty, min, ◌^◌, ◌-◌, map,
}
use mathlib.Core.Option
use kiliax.Text.{Text, codes, trim}
use kiliax.Text.Table.{lookup, insert, remove}
use kiliax.Result.{ok, err}
use kiliax.Agents.Paths.{AgentError, Checked}
use kiliax.Agents.State.{MultiAgentIdentity, MailboxUpdate, MailboxItem, MultiAgentState}

-- The loop over the queue: the messages, and what is kept.
unfoldable pub take_messages : List MailboxItem → List MailboxUpdate × List MailboxItem
take_messages [] = ([], [])
take_messages (MailboxItem.message u ∷ items) =
    let (out, keep) = take_messages items in (u ∷ out, keep)
take_messages (MailboxItem.update u ∷ items) =
    let (out, keep) = take_messages items in (out, MailboxItem.update u ∷ keep)

abbrev pub item_update : MailboxItem → MailboxUpdate
item_update (MailboxItem.message u) = u
item_update (MailboxItem.update u) = u

module _ {L : Type 0} where
  -- `bump_mailbox`
  unfoldable pub bump_mailbox : MultiAgentState L → MultiAgentState L
  bump_mailbox state = record state {
    mailbox_version = min (state.mailbox_version + 1) (2 ^ 64 - 1);
  }

  abbrev pub push_item : Text → MailboxItem → MultiAgentState L → MultiAgentState L
  push_item session_id item state = record state {
    mailbox =
        insert session_id (Option.get_or (lookup session_id state.mailbox) [] ++ (item ∷ []))
          state.mailbox;
  }

  unfoldable pub queue_message :
      MultiAgentIdentity
      → MultiAgentIdentity
      → Text
      → MultiAgentState L
      → Checked (MultiAgentState L)
  queue_message from to text state =
      if is_empty (trim text)
      then err AgentError.empty_message
      else ok (
          bump_mailbox (
            push_item to.session_id
              (MailboxItem.message (record {
                from = from.agent_path;
                to = to.agent_path;
                session_id = from.session_id;
                status = codes "message";
                message = text;
              }))
              state))

  unfoldable pub drain_messages_for_run :
      Text → MultiAgentState L → List MailboxUpdate × MultiAgentState L
  drain_messages_for_run session_id state = elim (lookup session_id state.mailbox) [
    | none ↦ ([], state)
    | some queue ↦
        let (out, keep) = take_messages queue in
        (out, record state { mailbox = insert session_id keep state.mailbox })
  ]

  -- The lock is let go between the reading of the parent's entry and the push; here they are one step.
  unfoldable pub notify_finished :
      MultiAgentIdentity → Text → Text → MultiAgentState L → MultiAgentState L
  notify_finished identity status text state = elim identity.parent_session_id [
    | none ↦ state
    | some parent_session_id ↦ elim (lookup parent_session_id state.by_session) [
      | none ↦ state
      | some parent ↦ bump_mailbox (
          push_item parent_session_id
            (MailboxItem.update (record {
              from = identity.agent_path;
              to = parent.identity.agent_path;
              session_id = identity.session_id;
              status = status;
              message = text;
            }))
            state)
    ]
  ]

  unfoldable pub drain_mailbox : Text → MultiAgentState L → List MailboxUpdate × MultiAgentState L
  drain_mailbox session_id state = (
    map item_update (Option.get_or (lookup session_id state.mailbox) []),
    record state { mailbox = remove session_id state.mailbox },
  )
