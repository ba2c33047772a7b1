-- ===== src/Session/Apply.antt =====
-- `apply_event` of crates/kiliax-core/src/session.rs. The clock that the code reads for a goal's
-- `updated_at` is the argument `now`.
use kiliax.Prelude.{
  ℕ, zero, suc, saturating_add, false, List, [], ◌∷◌, ◌++◌, Option, none, some, max, length, set,
  take, leb, ◌==◌, if◌then◌else◌,
}
use kiliax.Text.{Text}
use kiliax.Protocol.{Message, UserMessageContent}
use kiliax.Session.State.{SessionMeta, SessionGoal, SessionEvent, SessionState, ContextCheckpoint}
use kiliax.Session.Title.{title_of}

-- `message_ids.iter().position(|id| *id == message_id)`
unfoldable pub position : ℕ → List ℕ → Option ℕ
position k [] = none
position k (id ∷ ids) =
    let rest = position k ids in
    if id == k then some 0 else (elim rest [ none ↦ none | some i ↦ some (suc i) ])

unfoldable pub with_title : SessionMeta → Option Text → SessionMeta
with_title meta none = meta
with_title meta (some t) = record meta { title = some t }

unfoldable pub retitle : SessionMeta → UserMessageContent → SessionMeta
unfolding with_title
retitle meta content = with_title meta (title_of content)

unfoldable pub add_usage : Text → ℕ → ℕ → Option SessionGoal → Option SessionGoal
add_usage now time tokens none = none
add_usage now time tokens (some goal) = some (record goal {
  time_used_seconds = saturating_add goal.time_used_seconds time;
  tokens_used = saturating_add goal.tokens_used tokens;
  updated_at = now;
})

module _ {J : Type 0} where
  -- The title after a new message: a session without one takes it from a visible user message.
  unfoldable pub first_title : Option Text → Message J → SessionMeta → SessionMeta
  unfolding retitle
  first_title none (Message.user content false) meta = retitle meta content
  first_title _ _ meta = meta

  unfoldable pub push_message : SessionState J → Message J → ℕ → SessionState J
  unfolding first_title
  push_message state message seq = record state {
    messages = state.messages ++ message ∷ [];
    message_ids = state.message_ids ++ seq ∷ [];
    meta = record (first_title state.meta.title message state.meta) {
      message_count = length (state.messages ++ message ∷ []);
    };
  }

  -- An edit of the first message gives the session a new title.
  unfoldable pub edited_title : ℕ → Message J → SessionMeta → SessionMeta
  unfolding retitle
  edited_title zero (Message.user content false) meta = retitle meta content
  edited_title _ _ meta = meta

  unfoldable pub edit_at : SessionState J → Option ℕ → Message J → SessionState J
  unfolding edited_title
  edit_at state none message = state
  edit_at state (some idx) message = record state {
    messages = set state.messages idx message;
    meta = edited_title idx message state.meta;
  }

  unfoldable pub edit_message : SessionState J → ℕ → Message J → SessionState J
  unfolding edit_at
  edit_message state message_id message =
      edit_at state (position message_id state.message_ids) message

  -- A checkpoint of the context that covers a removed message is dropped.
  unfoldable pub checkpoint_after : ℕ → Option (ContextCheckpoint J) → Option (ContextCheckpoint J)
  checkpoint_after message_id none = none
  checkpoint_after message_id (some c) = if leb message_id c.base_message_id then none else some c

  unfoldable pub truncate_at : SessionState J → ℕ → Option ℕ → SessionState J
  unfolding checkpoint_after
  truncate_at state message_id none = state
  truncate_at state message_id (some idx) = record state {
    messages = take (suc idx) state.messages;
    message_ids = take (suc idx) state.message_ids;
    meta = record state.meta {
      message_count = length (take (suc idx) state.messages);
      last_finish_reason = none;
      last_error = none;
    };
    checkpoint = checkpoint_after message_id state.checkpoint;
  }

  unfoldable pub truncate_after : SessionState J → ℕ → SessionState J
  unfolding truncate_at
  truncate_after state message_id =
      truncate_at state message_id (position message_id state.message_ids)

  -- The two assignments before the `match`.
  unfoldable pub touch : SessionState J → ℕ → ℕ → SessionState J
  touch state ts_ms seq = record state {
    meta = record state.meta {
      updated_at_ms = max state.meta.updated_at_ms ts_ms;
      last_seq = max state.meta.last_seq seq;
    };
  }

  unfoldable pub dispatch : Text → SessionState J → SessionEvent J → ℕ → SessionState J
  unfolding add_usage
  dispatch now state (SessionEvent.message m) seq = push_message state m seq
  dispatch now state (SessionEvent.message_edit id m) seq = edit_message state id m
  dispatch now state (SessionEvent.truncate_after id) seq = truncate_after state id
  dispatch now state (SessionEvent.context_checkpoint c) seq = record state { checkpoint = some c }
  dispatch now state (SessionEvent.finish reason) seq = record state {
    meta = record state.meta { last_finish_reason = reason };
  }
  dispatch now state (SessionEvent.error e) seq = record state {
    meta = record state.meta { last_error = some e };
  }
  dispatch now state (SessionEvent.goal_set goal) seq = record state {
    meta = record state.meta { goal = some goal };
  }
  dispatch now state SessionEvent.goal_cleared seq = record state {
    meta = record state.meta { goal = none };
  }
  dispatch now state (SessionEvent.goal_completed goal) seq = record state {
    meta = record state.meta { goal = some goal };
  }
  dispatch now state (SessionEvent.goal_usage time tokens) seq = record state {
    meta = record state.meta { goal = add_usage now time tokens state.meta.goal };
  }

  unfoldable pub apply_event : Text → SessionState J → SessionEvent J → ℕ → ℕ → SessionState J
  apply_event now state event ts_ms seq = dispatch now (touch state ts_ms seq) event seq
