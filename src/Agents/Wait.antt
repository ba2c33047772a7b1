-- ===== src/Agents/Wait.antt =====
-- `wait_for_updates` of `MultiAgentControl`, in turns between which other tasks perform operations.
pub mod Calm
pub mod Delivers
use kiliax.Prelude.{
  ℕ, zero, suc, ◌+◌, ◌-◌, ◌^◌, ◌≤◌, ◌<◌, ◌≡◌, ◌⊎◌, refl, ap, ◌∙◌, sym, subst, Bool, true, false,
  not, List, [], ◌∷◌, ◌++◌, Option, none, some, if◌then◌else◌, is_empty, length, ◌==◌, arith, min,
  map, Bool-cases, Option-cases, inl, inr, ==_iff, or_false,
}
use mathlib.Core.Option
use kiliax.Text.{Text, text_eq, trim}
use kiliax.Text.Equal.{text_eq-≡, text_eq-same}
use kiliax.Text.Table.{
  Table, lookup, insert, remove, lookup-insert-same, lookup-insert-other, lookup-remove-same,
  lookup-remove-other,
}
use kiliax.Result.{Result, ok, err, unless-ok, bind-ok}
use kiliax.Agents.State.{
  MultiAgentIdentity, MultiAgentState, MailboxItem, MailboxUpdate, register_live_agent,
  reserve_spawn, release_reserved_path, set_last_task_message,
}
use kiliax.Agents.Resolve.{close_agent, resolve_target}
use kiliax.Agents.Mailbox.{
  take_messages, queue_message, drain_messages_for_run, notify_finished, drain_mailbox,
  bump_mailbox, push_item, item_update,
}
use kiliax.Agents.Mail.{items_of, drain-items}
use kiliax.Agents.Paths.{AgentError, root_path, scoped_path_key}
use kiliax.Agents.Steps.Held.{reserve_spawn-ok}

-- An operation with its arguments.
pub data Op (L : Type 0) : Type 0 where
  register : MultiAgentIdentity → L → Op L
  reserve : MultiAgentIdentity → Text → ℕ → ℕ → Op L
  release set_task : Text → Text → Op L
  queue : MultiAgentIdentity → MultiAgentIdentity → Text → Op L
  deliver drain_all : Text → Op L
  notify : MultiAgentIdentity → Text → Text → Op L
  close : MultiAgentIdentity → Text → Op L

-- An operation that fails changes nothing.
abbrev pub or_same {ℓ κ} : {E A : Type ℓ} {S : Type κ} → (A → S) → S → Result E A → S
or_same f s (ok a) = f a
or_same f s (err e) = s

-- Where the waiting task stands in the loop: before its drain, before its look at the clock, in
-- `changed`, or returned, with `timed_out` and the updates.
pub data Phase : Type 0 where
  draining checking sleeping : Phase
  returned : Bool → List MailboxUpdate → Phase

-- With the version that the receiver has seen last, and the state that the tasks share.
pub record Waiter (L : Type 0) : Type 0 where
  pub seen : ℕ
  pub phase : Phase
  pub state : MultiAgentState L

-- What happens next: another task performs an operation, or the waiting task goes on, with its deadline
-- over or not.
pub data Event (L : Type 0) : Type 0 where
  other : Op L → Event L
  own : Bool → Event L

module _ {L : Type 0} where
  unfoldable pub perform : (L → Text) → Op L → MultiAgentState L → MultiAgentState L
  perform status (Op.register identity live) s = register_live_agent identity live s
  perform status (Op.reserve parent name limit depth) s =
      or_same (λ r. r.1) s (reserve_spawn parent name limit depth s)
  perform status (Op.release root path) s = release_reserved_path root path s
  perform status (Op.set_task id text) s = set_last_task_message id text s
  perform status (Op.queue from to text) s = or_same (λ t. t) s (queue_message from to text s)
  perform status (Op.deliver id) s = (drain_messages_for_run id s).1
  perform status (Op.drain_all id) s = (drain_mailbox id s).1
  perform status (Op.notify identity st text) s = notify_finished identity st text s
  perform status (Op.close current target) s =
      or_same (λ r. r.1) s (close_agent status current target s)

  -- From the subscription on.
  unfoldable pub wait_for_updates : MultiAgentState L → Waiter L
  wait_for_updates s = record { seen = s.mailbox_version; phase = Phase.draining; state = s }

  unfoldable pub drain_turn : Text → Waiter L → Waiter L
  drain_turn id w = record w {
    phase =
        if is_empty (drain_mailbox id w.state).0
        then Phase.checking
        else Phase.returned false (drain_mailbox id w.state).0;
    state = (drain_mailbox id w.state).1;
  }

  -- `timeout_at(deadline, rx.changed())`: a change is looked for before the clock.
  unfoldable pub sleep_turn : Bool → Waiter L → Waiter L
  sleep_turn over w =
      if not (w.state.mailbox_version == w.seen)
      then record w { seen = w.state.mailbox_version; phase = Phase.draining }
      else if over
      then record w { phase = Phase.returned true [] }
      else w

  -- The task goes on by one turn, from where it stands.
  abbrev pub turn_from : Phase → Text → Bool → Waiter L → Waiter L
  turn_from Phase.draining id over w = drain_turn id w
  turn_from Phase.checking id over w = record w {
    phase = if over then Phase.returned true [] else Phase.sleeping;
  }
  turn_from Phase.sleeping id over w = sleep_turn over w
  turn_from (Phase.returned b updates) id over w = w

  unfoldable pub turn : Text → Bool → Waiter L → Waiter L
  turn id over w = turn_from w.phase id over w

  unfoldable pub run_events : (L → Text) → Text → List (Event L) → Waiter L → Waiter L
  run_events status id [] w = w
  run_events status id (Event.other op ∷ events) w =
      run_events status id events (record w { state = perform status op w.state })
  run_events status id (Event.own over ∷ events) w = run_events status id events (turn id over w)
