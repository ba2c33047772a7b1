-- ===== src/Agents/Tests.antt =====
-- Agents at concrete inputs. A live session is a text, which is its status.
use kiliax.Prelude.{
  ◌+◌, ◌-◌, ◌^◌, arith, ◌≡◌, ◌<◌, refl, true, false, List, inr, [], ◌∷◌, ◌++◌, none, some,
  ℕ_discrete,
}
use mathlib.Core.Option
use kiliax.Text.{
  Text, codes, Text-discrete, trim, trim_start, is_whitespace, strip_prefix, starts_with,
}
use kiliax.Text.Split.{split, trim_end}
use kiliax.Text.Table.{lookup, insert, remove, map_values}
use kiliax.Result.{ok}
use kiliax.Session.Store.Load.{parse_session_id}
use kiliax.Agents.Paths.{
  scoped_path_key, validate_task_name, validate_agent_path, validate_segments, resolve_agent_path,
  path_matches_prefix,
}
use kiliax.Agents.State.{
  MultiAgentIdentity, AgentEntry, MultiAgentState, MailboxItem, empty, default_root_identity,
  path_key, register_live_agent,
}
use kiliax.Agents.Resolve.{
  open_identity, resolve_by_path, resolve_target, live_for_session, close_agent, close_under,
}
use kiliax.Agents.Mailbox.{queue_message, drain_messages_for_run, drain_mailbox, bump_mailbox}
use kiliax.Agents.Steps.{Step, Reachable}
use kiliax.Agents.Steps.Leads.{Reachable-leads}
use kiliax.Agents.Wait.{
  Op, Phase, Waiter, Event, perform, drain_turn, turn, run_events, wait_for_updates,
}
use kiliax.Agents.Wait.Delivers.{Delivers, three_turns, wait_for_updates-Delivers}
use kiliax.Agents.Close.{IsWithin, close_agent-unresolvable}
use kiliax.Agents.Mail.{sent, queue_message-drain}

abbrev status : Text → Text
status live = live

abbrev root : MultiAgentIdentity
root = default_root_identity (codes "r") false

abbrev child : MultiAgentIdentity
child = record {
  session_id = codes "c";
  root_session_id = codes "r";
  parent_session_id = some (codes "r");
  agent_path = codes "/root/a";
  closed = false;
}

abbrev with_root : MultiAgentState Text
with_root = register_live_agent root (codes "idle") empty

abbrev with_child : MultiAgentState Text
with_child = register_live_agent child (codes "busy") with_root

reached : Reachable status with_child
unfolding register_live_agent lookup insert scoped_path_key Option.bind Text-discrete ℕ_discrete
reached =
    Reachable.next with_root with_child
      (Reachable.next empty with_root Reachable.start
        (Step.register root (codes "idle") empty refl))
      (Step.register child (codes "busy") with_root refl)

abbrev child_entry : AgentEntry Text
child_entry = record { identity = child; live = some (codes "busy"); last_task_message = none }

-- A session that is resumed at the path of another.
abbrev resumed : MultiAgentIdentity
resumed = record child { session_id = codes "d" }

abbrev with_two : MultiAgentState Text
with_two = register_live_agent resumed (codes "idle") with_child

reached_two : Reachable status with_two
reached_two =
    Reachable.next with_child with_two reached
      (Step.register resumed (codes "idle") with_child refl)

found_first : lookup (codes "c") with_two.by_session ≡ some child_entry
unfolding register_live_agent lookup insert Option.bind Text-discrete ℕ_discrete
found_first = refl

Reachable-leads_example :
    (owner : Text) × (f : AgentEntry Text) × (lookup (path_key child) with_two.session_by_path
      ≡ some owner)
    × (lookup owner with_two.by_session ≡ some f)
    × (f.identity.session_id ≡ owner)
Reachable-leads_example =
    Reachable-leads status with_two reached_two (codes "c") child_entry found_first

-- Both agents have the one path.
two_at_one_path :
    (lookup (codes "c") with_two.by_session ≡ some child_entry)
    × (lookup (path_key child) with_two.session_by_path ≡ some (codes "d"))
unfolding register_live_agent lookup insert scoped_path_key Option.bind Text-discrete ℕ_discrete
two_at_one_path = (refl, refl)

abbrev reserved : Text × MultiAgentState Text
reserved = (
  codes "/root/b",
  record with_child {
    session_by_path =
        insert (scoped_path_key (codes "r") (codes "/root/b")) [] with_child.session_by_path;
  },
)

abbrev reserved_next : Text × MultiAgentState Text
reserved_next = (
  codes "/root/d",
  record reserved.1 {
    session_by_path =
        insert (scoped_path_key (codes "r") (codes "/root/d")) [] reserved.1.session_by_path;
  },
)

abbrev after_close : Text × MultiAgentState Text
after_close = (
  codes "busy",
  record with_child { by_session = map_values (close_under child) with_child.by_session },
)

resolves : resolve_target root (codes "a") with_child ≡ ok child
unfolding resolve_target resolve_by_path resolve_agent_path validate_agent_path validate_segments
    validate_task_name open_identity parse_session_id trim trim_start is_whitespace trim_end
    strip_prefix starts_with split register_live_agent lookup insert scoped_path_key Option.bind
    Text-discrete ℕ_discrete
resolves = refl

closes : close_agent status root (codes "a") with_child ≡ ok after_close
unfolding close_agent live_for_session resolve_target resolve_by_path resolve_agent_path
    validate_agent_path validate_segments validate_task_name open_identity parse_session_id trim
    trim_start is_whitespace trim_end strip_prefix starts_with split register_live_agent lookup
    insert scoped_path_key Option.bind Text-discrete ℕ_discrete
closes = refl

root_left : resolve_target root (codes "r") after_close.1 ≡ ok root
unfolding resolve_target open_identity close_under map_values path_matches_prefix parse_session_id
    trim trim_start is_whitespace strip_prefix register_live_agent lookup insert scoped_path_key
    Option.bind Text-discrete ℕ_discrete
root_left = refl

close_agent-unresolvable_example : ¬ (IsWithin child root)
close_agent-unresolvable_example =
    close_agent-unresolvable status root (codes "a") with_child after_close child root (codes "r")
      root closes resolves root_left

abbrev with_message : MultiAgentState Text
with_message = record with_child {
  mailbox = (codes "c", MailboxItem.message (sent root child (codes "hi")) ∷ []) ∷ [];
  mailbox_version = 1;
}

queued : queue_message root child (codes "hi") with_child ≡ ok with_message
unfolding queue_message bump_mailbox trim trim_start is_whitespace register_live_agent lookup insert
queued = refl

queue_message-drain_example :
    (drain_messages_for_run (codes "c") with_message).0
    ≡ (drain_messages_for_run (codes "c") with_child).0 ++ (sent root child (codes "hi") ∷ [])
queue_message-drain_example =
    queue_message-drain root child (codes "hi") with_child with_message queued

-- The task has drained, and sleeps; then a message arrives.
abbrev while_asleep : List (Event Text)
while_asleep =
    Event.own false ∷ Event.own false ∷ Event.other (Op.queue root child (codes "hi")) ∷ []

abbrev asleep : Waiter Text
asleep = record {
  seen = 0;
  phase = Phase.sleeping;
  state = record with_message {
    mailbox = (codes "c", MailboxItem.message (sent root child (codes "hi")) ∷ []) ∷ [];
  };
}

falls_asleep : run_events status (codes "c") while_asleep (wait_for_updates with_child) ≡ asleep
unfolding run_events turn drain_turn drain_mailbox wait_for_updates perform queue_message
    bump_mailbox trim trim_start is_whitespace register_live_agent lookup insert remove
falls_asleep = refl

few : with_child.mailbox_version + 3 < 2 ^ 64 - 1
unfolding register_live_agent
few = omega arith

wait_for_updates-Delivers_example :
    Delivers
      (MailboxItem.message (sent root child (codes "hi")) ∷ [])
      (three_turns (codes "c") true asleep)
unfolding lookup Text-discrete ℕ_discrete
wait_for_updates-Delivers_example =
    wait_for_updates-Delivers status (codes "c") with_child while_asleep true asleep few
      falls_asleep refl (inr refl) refl
