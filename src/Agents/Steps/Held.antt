-- ===== src/Agents/Steps/Held.antt =====
-- Every step of `MultiAgentControl` keeps the paths of the registered agents held.
use kiliax.Prelude.{
  ℕ, ◌≡◌, refl, ap, ◌∙◌, sym, subst, Bool, true, false, [], Option, none, some, if◌then◌else◌,
  is_empty, is_some, Bool-cases, Option-cases, inl, inr, none-some, some_injective, leb, ltb,
}
use mathlib.Core.Option
use kiliax.Agents.Steps.{
  Step, Reachable, IsOwned, IsHeld, AllOwned, true-false, path_changed, IsOwned-insert,
  register-AllOwned,
}
use kiliax.Text.{Text}
use kiliax.Text.Table.{
  Table, lookup, insert, lookup-insert-other, lookup-remove-other, lookup-map_values,
}
use kiliax.Result.{ok, bind-ok, ok_injective, guard-ok}
use kiliax.Agents.Paths.{scoped_path_key, validate_task_name, join_agent_path, agent_depth}
use kiliax.Agents.State.{
  MultiAgentIdentity, AgentEntry, MultiAgentState, path_key, reserve_spawn, release_reserved_path,
  set_last_task_message, count_active,
}
use kiliax.Agents.Resolve.{close_agent, close_under, resolve_target}
use kiliax.Agents.Mailbox.{
  queue_message, drain_messages_for_run, notify_finished, drain_mailbox, bump_mailbox,
}

is_some-none : (o : Option Text) → is_some o ≡ false → o ≡ none
is_some-none none h = refl
is_some-none (some t) h = cc

same_if {ℓ κ} :
    {A : Type ℓ} {B : Type κ} (f : A → B) (b : Bool) (x y : A)
    → f x ≡ f y
    → f (if b then x else y) ≡ f y
same_if f true x y h = h
same_if f false x y h = refl

module _ {L : Type 0} where
  -- The path is the parent's with the name, not too deep, free, and the limit is not reached; it is taken
  -- with no session yet.
  abbrev pub Reserved :
      MultiAgentIdentity → Text → ℕ → ℕ → MultiAgentState L → Text × MultiAgentState L → Type 0
  Reserved parent name limit depth s r =
      (join_agent_path parent.agent_path name ≡ ok r.0)
      × (ltb depth (agent_depth r.0) ≡ false)
      × (lookup (scoped_path_key parent.root_session_id r.0) s.session_by_path ≡ none)
      × (leb limit (count_active parent.root_session_id s.by_session) ≡ false)
      × (r.1 ≡ record s {
        session_by_path = insert (scoped_path_key parent.root_session_id r.0) [] s.session_by_path;
      })

  pub reserve_spawn-ok :
      (parent : MultiAgentIdentity) (name : Text) (limit depth : ℕ) (s : MultiAgentState L)
      (r : Text × MultiAgentState L)
      → reserve_spawn parent name limit depth s ≡ ok r
      → Reserved parent name limit depth s r
  unfolding reserve_spawn
  reserve_spawn-ok parent name limit depth s r h =
      let (u, a, t) = bind-ok (validate_task_name name) _ r h in
      let (path, b, v) = bind-ok (join_agent_path parent.agent_path name) _ r t in
      let (c, w) = guard-ok (ltb depth (agent_depth path)) _ _ r v in
      let (d, x) =
        guard-ok (is_some (lookup (scoped_path_key parent.root_session_id path) s.session_by_path))
          _ _ r w in
      let (l, y) =
        guard-ok (leb limit (count_active parent.root_session_id s.by_session)) _ _ r x in
      subst (Reserved parent name limit depth s) (ok_injective _ r y)
        (b, c, is_some-none _ d, l, refl)

  -- The properties of a step.
  reserve-AllOwned :
      (parent : MultiAgentIdentity) (name : Text) (limit depth : ℕ) (s : MultiAgentState L)
      (r : Text × MultiAgentState L)
      → reserve_spawn parent name limit depth s ≡ ok r
      → AllOwned s
      → AllOwned r.1
  reserve-AllOwned parent name limit depth s r h o =
      let (a, b, n, c, e) = reserve_spawn-ok parent name limit depth s r h in
      let key : Text = scoped_path_key parent.root_session_id r.0 in
      path_changed s r.1 key (ap (λ t. t.by_session) e) (λ held. none-some held.0 (sym n ∙ held.2))
        (λ p k.
          ap (λ t. lookup p t.session_by_path) e ∙ lookup-insert-other p key [] s.session_by_path k)
        o

  release-AllOwned :
      (root path : Text) (s : MultiAgentState L)
      → AllOwned s
      → AllOwned (release_reserved_path root path s)
  unfolding release_reserved_path
  release-AllOwned root path s o =
      let key : Text = scoped_path_key root path in
      elim (Option-cases (lookup key s.session_by_path)) [
        | inl n ↦ rw (n, release_reserved_path) o
        | inr (id, n) ↦ elim (Bool-cases (is_empty id)) [
          | inl e ↦
              rw (n, e, release_reserved_path)
                (path_changed s _ key refl
                  (λ held.
                    true-false
                      (sym e ∙ ap is_empty (some_injective id held.0 (sym n ∙ held.2)) ∙ held.1))
                  (λ p k. lookup-remove-other p key s.session_by_path k) o)
          | inr e ↦ rw (n, e, release_reserved_path) o
        ]
      ]

  set_task-AllOwned :
      (id text : Text) (s : MultiAgentState L)
      → AllOwned s
      → AllOwned (set_last_task_message id text s)
  unfolding set_last_task_message AllOwned
  set_task-AllOwned id text s o q = elim (Option-cases (lookup id s.by_session)) [
    | inl n ↦ rw (n, set_last_task_message) (o q)
    | inr (e, n) ↦
        rw (n, set_last_task_message)
          (IsOwned-insert s.session_by_path s.by_session id
            (record e { last_task_message = some text }) q
            (subst (IsOwned s.session_by_path id) n (o id)) (λ t. o q))
  ]

  -- Closing an agent leaves its session and its path.
  close_under-same {κ} :
      {B : Type κ} (f : AgentEntry L → B) (target : MultiAgentIdentity) (e : AgentEntry L)
      → f (record e { identity = record e.identity { closed = true }; live = none }) ≡ f e
      → f (close_under target e) ≡ f e
  unfolding close_under
  close_under-same f target e h = same_if f _ _ e h

  close_under-IsOwned :
      (by_path : Table Text) (target : MultiAgentIdentity) (q : Text) (o : Option (AgentEntry L))
      → IsOwned by_path q o
      → IsOwned by_path q (Option.map (close_under target) o)
  close_under-IsOwned by_path target q none h = tt
  close_under-IsOwned by_path target q (some e) h = (
    close_under-same (λ e. e.identity.session_id) target e refl ∙ h.0,
    h.1,
    subst (IsHeld by_path) (sym (close_under-same (λ e. path_key e.identity) target e refl)) h.2,
  )

  queue-AllOwned :
      (from to : MultiAgentIdentity) (text : Text) (s t : MultiAgentState L)
      → queue_message from to text s ≡ ok t
      → AllOwned s
      → AllOwned t
  unfolding queue_message bump_mailbox AllOwned
  queue-AllOwned from to text s t h o =
      let (b, v) = guard-ok _ _ _ t h in subst AllOwned (ok_injective _ t v) o

  drain-AllOwned :
      (id : Text) (s : MultiAgentState L) → AllOwned s → AllOwned (drain_messages_for_run id s).1
  unfolding drain_messages_for_run AllOwned
  drain-AllOwned id s o = elim (Option-cases (lookup id s.mailbox)) [
    | inl n ↦ rw (n, drain_messages_for_run) o
    | inr (q, n) ↦ rw (n, drain_messages_for_run) o
  ]

  notify-AllOwned :
      (identity : MultiAgentIdentity) (st text : Text) (s : MultiAgentState L)
      → AllOwned s
      → AllOwned (notify_finished identity st text s)
  unfolding notify_finished bump_mailbox AllOwned
  notify-AllOwned identity st text s o = elim (Option-cases identity.parent_session_id) [
    | inl n ↦ rw (n, notify_finished) o
    | inr (id, n) ↦ elim (Option-cases (lookup id s.by_session)) [
      | inl k ↦ rw (n, k, notify_finished) o
      | inr (e, k) ↦ rw (n, k, notify_finished) o
    ]
  ]

module _ {L : Type 0} (status : L → Text) where
  close-AllOwned :
      (current : MultiAgentIdentity) (target : Text) (s : MultiAgentState L)
      (r : Text × MultiAgentState L)
      → close_agent status current target s ≡ ok r
      → AllOwned s
      → AllOwned r.1
  unfolding close_agent AllOwned
  close-AllOwned current target s r h o q =
      let (t, a, u) = bind-ok (resolve_target current target s) _ r h in
      let (b, v) = guard-ok _ _ _ r u in
      subst
        (λ (r : Text × MultiAgentState L). IsOwned r.1.session_by_path q (lookup q r.1.by_session))
        (ok_injective _ r v)
        (subst (IsOwned s.session_by_path q)
          (sym (lookup-map_values (close_under t) q s.by_session))
          (close_under-IsOwned s.session_by_path t q (lookup q s.by_session) (o q)))

  Step-AllOwned : (s t : MultiAgentState L) → Step status s t → AllOwned s → AllOwned t
  unfolding drain_mailbox AllOwned
  Step-AllOwned s t (Step.register identity live _ n) o = register-AllOwned identity live s n o
  Step-AllOwned s t (Step.reserve parent name limit depth _ r h) o =
      reserve-AllOwned parent name limit depth s r h o
  Step-AllOwned s t (Step.release root path _) o = release-AllOwned root path s o
  Step-AllOwned s t (Step.set_task id text _) o = set_task-AllOwned id text s o
  Step-AllOwned s t (Step.queue from to text _ _ h) o = queue-AllOwned from to text s t h o
  Step-AllOwned s t (Step.deliver id _) o = drain-AllOwned id s o
  Step-AllOwned s t (Step.notify identity st text _) o = notify-AllOwned identity st text s o
  Step-AllOwned s t (Step.wait id _) o = o
  Step-AllOwned s t (Step.close current target _ r h) o = close-AllOwned current target s r h o

  pub Reachable-AllOwned : (s : MultiAgentState L) → Reachable status s → AllOwned s
  unfolding AllOwned lookup
  Reachable-AllOwned s Reachable.start = λ q. tt
  Reachable-AllOwned t (Reachable.next s _ r step) = Step-AllOwned s t step (Reachable-AllOwned s r)
