-- ===== src/Agents/Wait/Calm.antt =====
-- What the operations of other tasks do to a mailbox and to the counter of the mailboxes.
use kiliax.Prelude.{
  ℕ, ◌+◌, ◌-◌, ◌^◌, ◌≤◌, ◌<◌, ◌≡◌, ◌⊎◌, refl, ap, ◌∙◌, sym, subst, true, false, List, [], is_empty,
  ◌==◌, arith, min, Bool-cases, Option-cases, inl, inr, ==_iff,
}
use mathlib.Core.Option
use kiliax.Text.{Text, text_eq, trim}
use kiliax.Text.Equal.{text_eq-≡}
use kiliax.Text.Table.{lookup, lookup-insert-other, lookup-remove-same, lookup-remove-other}
use kiliax.Result.{Result, ok, err, unless-ok, bind-ok}
use kiliax.Agents.State.{
  MultiAgentIdentity, MultiAgentState, MailboxItem, register_live_agent, reserve_spawn,
  release_reserved_path, set_last_task_message,
}
use kiliax.Agents.Resolve.{close_agent, resolve_target}
use kiliax.Agents.Mailbox.{
  take_messages, queue_message, drain_messages_for_run, notify_finished, drain_mailbox,
  bump_mailbox,
}
use kiliax.Agents.Mail.{items_of, drain-items}
use kiliax.Agents.Paths.{AgentError, root_path, scoped_path_key}
use kiliax.Agents.Steps.Held.{reserve_spawn-ok}
use kiliax.Agents.Wait.{Op, or_same, perform}

take_none : (items : List MailboxItem) → items ≡ [] → (take_messages items).1 ≡ []
unfolding take_messages
take_none items h = ap (λ q. (take_messages q).1) h

not_less : (a b : ℕ) → a < b → b ≡ a → ⊥
not_less a b h e = omega arith

pub version_eq : (a b : ℕ) → a == b ≡ true → a ≡ b
version_eq a b h = (==_iff a b).0 h

module _ {L : Type 0} where
  -- The version rises by at most one, and while it stays an empty mailbox stays empty.
  abbrev pub IsCalm : Text → MultiAgentState L → MultiAgentState L → Type 0
  IsCalm id s t =
      (s.mailbox_version ≤ t.mailbox_version)
      × (t.mailbox_version ≤ s.mailbox_version + 1)
      × ((s.mailbox_version < t.mailbox_version) ⊎ (items_of id s ≡ [] → items_of id t ≡ []))

  same-IsCalm :
      (id : Text) (s t : MultiAgentState L)
      → t.mailbox ≡ s.mailbox
      → t.mailbox_version ≡ s.mailbox_version
      → IsCalm id s t
  same-IsCalm id s t m v =
      (omega arith, omega arith, inr (λ h. ap (λ b. Option.get_or (lookup id b) []) m ∙ h))

  bump-IsCalm :
      (id : Text) (s t : MultiAgentState L)
      → s.mailbox_version < 2 ^ 64 - 1
      → t.mailbox_version ≡ min (s.mailbox_version + 1) (2 ^ 64 - 1)
      → IsCalm id s t
  bump-IsCalm id s t b v = (omega arith, omega arith, inl (omega arith))

  or_same-IsCalm :
      {E A : Type 0} (id : Text) (s : MultiAgentState L) (f : A → MultiAgentState L)
      (x : Result E A)
      → ((a : A) → x ≡ ok a → IsCalm id s (f a))
      → IsCalm id s (or_same f s x)
  or_same-IsCalm id s f (ok a) h = h a refl
  or_same-IsCalm id s f (err e) h = same-IsCalm id s s refl refl

  release-IsCalm :
      (id root path : Text) (s : MultiAgentState L)
      → IsCalm id s (release_reserved_path root path s)
  unfolding release_reserved_path
  release-IsCalm id root path s =
      elim (Option-cases (lookup (scoped_path_key root path) s.session_by_path)) [
        | inl n ↦
            same-IsCalm id s (release_reserved_path root path s)
              (rw (n, release_reserved_path) refl) (rw (n, release_reserved_path) refl)
        | inr (o, n) ↦ elim (Bool-cases (is_empty o)) [
          | inl e ↦
              same-IsCalm id s (release_reserved_path root path s)
                (rw (n, e, release_reserved_path) refl) (rw (n, e, release_reserved_path) refl)
          | inr e ↦
              same-IsCalm id s (release_reserved_path root path s)
                (rw (n, e, release_reserved_path) refl) (rw (n, e, release_reserved_path) refl)
        ]
      ]

  set_task-IsCalm :
      (id i text : Text) (s : MultiAgentState L) → IsCalm id s (set_last_task_message i text s)
  unfolding set_last_task_message
  set_task-IsCalm id i text s = elim (Option-cases (lookup i s.by_session)) [
    | inl n ↦
        same-IsCalm id s (set_last_task_message i text s) (rw (n, set_last_task_message) refl)
          (rw (n, set_last_task_message) refl)
    | inr (e, n) ↦
        same-IsCalm id s (set_last_task_message i text s) (rw (n, set_last_task_message) refl)
          (rw (n, set_last_task_message) refl)
  ]

  -- An operation on a mailbox that leaves an empty one empty, and the others as they are.
  mailbox-IsCalm :
      (id i : Text) (s t : MultiAgentState L)
      → t.mailbox_version ≡ s.mailbox_version
      → (items_of i s ≡ [] → items_of i t ≡ [])
      → (text_eq id i ≡ false → items_of id t ≡ items_of id s)
      → IsCalm id s t
  mailbox-IsCalm id i s t v h k = (
    omega arith,
    omega arith,
    inr (λ e. elim (Bool-cases (text_eq id i)) [
      | inl q ↦
          let same : i ≡ id = sym (text_eq-≡ id i q) in
          subst (λ j. items_of j t ≡ []) same (h (ap (λ j. items_of j s) same ∙ e))
      | inr q ↦ k q ∙ e
    ]),
  )

  deliver-other :
      (id i : Text) (s : MultiAgentState L)
      → text_eq id i ≡ false
      → items_of id (drain_messages_for_run i s).1 ≡ items_of id s
  unfolding drain_messages_for_run
  deliver-other id i s q = elim (Option-cases (lookup i s.mailbox)) [
    | inl n ↦ rw (n, drain_messages_for_run) refl
    | inr (b, n) ↦
        rw (n, drain_messages_for_run)
          (ap (λ o. Option.get_or o []) (lookup-insert-other id i (take_messages b).1 s.mailbox q))
  ]

  deliver-version :
      (i : Text) (s : MultiAgentState L)
      → (drain_messages_for_run i s).1.mailbox_version ≡ s.mailbox_version
  unfolding drain_messages_for_run
  deliver-version i s = elim (Option-cases (lookup i s.mailbox)) [
    | inl n ↦ rw (n, drain_messages_for_run) refl
    | inr (b, n) ↦ rw (n, drain_messages_for_run) refl
  ]

  notify-IsCalm :
      (id : Text) (identity : MultiAgentIdentity) (st text : Text) (s : MultiAgentState L)
      → s.mailbox_version < 2 ^ 64 - 1
      → IsCalm id s (notify_finished identity st text s)
  unfolding notify_finished bump_mailbox
  notify-IsCalm id identity st text s b = elim (Option-cases identity.parent_session_id) [
    | inl n ↦
        same-IsCalm id s (notify_finished identity st text s) (rw (n, notify_finished) refl)
          (rw (n, notify_finished) refl)
    | inr (i, n) ↦ elim (Option-cases (lookup i s.by_session)) [
      | inl k ↦
          same-IsCalm id s (notify_finished identity st text s) (rw (n, k, notify_finished) refl)
            (rw (n, k, notify_finished) refl)
      | inr (e, k) ↦
          bump-IsCalm id s (notify_finished identity st text s) b (rw (n, k, notify_finished) refl)
    ]
  ]

  pub perform-IsCalm :
      (status : L → Text) (id : Text) (op : Op L) (s : MultiAgentState L)
      → s.mailbox_version < 2 ^ 64 - 1
      → IsCalm id s (perform status op s)
  unfolding perform register_live_agent drain_mailbox queue_message close_agent bump_mailbox
  perform-IsCalm status id (Op.register identity live) s b =
      same-IsCalm id s (register_live_agent identity live s) refl refl
  perform-IsCalm status id (Op.reserve parent name limit depth) s b =
      or_same-IsCalm id s (λ r. r.1) (reserve_spawn parent name limit depth s)
        (λ r h.
          let (p, d, n, l, q) = reserve_spawn-ok parent name limit depth s r h in
          same-IsCalm id s r.1 (ap (λ t. t.mailbox) q) (ap (λ t. t.mailbox_version) q))
  perform-IsCalm status id (Op.release root path) s b = release-IsCalm id root path s
  perform-IsCalm status id (Op.set_task i text) s b = set_task-IsCalm id i text s
  perform-IsCalm status id (Op.queue from to text) s b =
      or_same-IsCalm id s (λ t. t) (queue_message from to text s)
        (λ t h.
          let (q, e) = unless-ok (is_empty (trim text)) AgentError.empty_message _ t h in
          bump-IsCalm id s t b (ap (λ t. t.mailbox_version) (sym q)))
  perform-IsCalm status id (Op.deliver i) s b =
      mailbox-IsCalm id i s (drain_messages_for_run i s).1 (deliver-version i s)
        (λ h. drain-items i s ∙ take_none (items_of i s) h) (deliver-other id i s)
  perform-IsCalm status id (Op.drain_all i) s b =
      mailbox-IsCalm id i s (drain_mailbox i s).1 refl
        (λ h. ap (λ o. Option.get_or o []) (lookup-remove-same i s.mailbox))
        (λ q. ap (λ o. Option.get_or o []) (lookup-remove-other id i s.mailbox q))
  perform-IsCalm status id (Op.notify identity st text) s b = notify-IsCalm id identity st text s b
  perform-IsCalm status id (Op.close current target) s b =
      or_same-IsCalm id s (λ r. r.1) (close_agent status current target s)
        (λ r h.
          let (t, a, v) = bind-ok (resolve_target current target s) _ r h in
          let (q, e) =
            unless-ok (text_eq t.agent_path root_path) AgentError.root_not_spawned _ r v in
          same-IsCalm id s r.1 (ap (λ (r : Text × MultiAgentState L). r.1.mailbox) (sym q))
            (ap (λ (r : Text × MultiAgentState L). r.1.mailbox_version) (sym q)))
