-- ===== src/Agents/Steps/Leads.antt =====
-- Every step of `MultiAgentControl` keeps the registered sessions registered, and the paths that are held
-- lead to them.
use kiliax.Prelude.{
  ℕ, ◌≡◌, refl, ap, ◌∙◌, sym, subst, true, false, [], Option, none, some, is_empty, is_some,
  Bool-cases, Option-cases, inl, inr, none-some, some_injective,
}
use mathlib.Core.Option
use kiliax.Text.{Text, text_eq}
use kiliax.Text.Equal.{text_eq-≡}
use kiliax.Text.Table.{
  Table, lookup, insert, lookup-insert-same, lookup-insert-other, lookup-remove-same,
  lookup-remove-other, lookup-map_values,
}
use kiliax.Result.{ok, bind-ok, ok_injective, guard-ok}
use kiliax.Agents.Paths.{scoped_path_key}
use kiliax.Agents.State.{
  MultiAgentIdentity, AgentEntry, MultiAgentState, path_key, register_live_agent, reserve_spawn,
  release_reserved_path, set_last_task_message,
}
use kiliax.Agents.Resolve.{close_agent, close_under, resolve_target}
use kiliax.Agents.Mailbox.{
  queue_message, drain_messages_for_run, notify_finished, drain_mailbox, bump_mailbox,
}
use kiliax.Agents.Steps.{Step, Reachable, IsOwned, AllOwned, true-false}
use kiliax.Agents.Steps.Held.{reserve_spawn-ok, Reachable-AllOwned}

is_some-some : {A : Type 0} (o : Option A) → is_some o ≡ true → (a : A) × (o ≡ some a)
is_some-some none h = cc
is_some-some (some a) h = (a, refl)

map-is_some :
    {A : Type 0} (f : A → A) (o : Option A) → is_some o ≡ true → is_some (Option.map f o) ≡ true
map-is_some f none h = h
map-is_some f (some a) h = refl

module _ {L : Type 0} where
  abbrev pub IsRegistered : Text → MultiAgentState L → Type 0
  IsRegistered id s = is_some (lookup id s.by_session) ≡ true

  unfoldable pub AllLead : MultiAgentState L → Type 0
  AllLead s =
      (key owner : Text)
      → lookup key s.session_by_path ≡ some owner
      → is_empty owner ≡ false
      → IsRegistered owner s

  insert-IsRegistered :
      (id key : Text) (e : AgentEntry L) (table : Table (AgentEntry L))
      → is_some (lookup id table) ≡ true
      → is_some (lookup id (insert key e table)) ≡ true
  insert-IsRegistered id key e table h = elim (Bool-cases (text_eq id key)) [
    | inl t ↦
        ap (λ k. is_some (lookup k (insert key e table))) (text_eq-≡ id key t)
        ∙ ap is_some (lookup-insert-same key e table)
    | inr t ↦ ap is_some (lookup-insert-other id key e table t) ∙ h
  ]

  register-AllLead :
      (identity : MultiAgentIdentity) (live : L) (s : MultiAgentState L)
      → AllLead s
      → AllLead (register_live_agent identity live s)
  unfolding AllLead register_live_agent
  register-AllLead identity live s h key owner l n =
      elim (Bool-cases (text_eq key (path_key identity))) [
        | inl e ↦
            let same : key ≡ path_key identity = text_eq-≡ key (path_key identity) e in
            let q : identity.session_id ≡ owner = some_injective _ _ (
              sym (
                ap
                  (λ k. lookup k (insert (path_key identity) identity.session_id s.session_by_path))
                  same
                ∙ lookup-insert-same (path_key identity) identity.session_id s.session_by_path)
              ∙ l) in
            subst (λ o. IsRegistered o (register_live_agent identity live s)) q
              (ap is_some (lookup-insert-same identity.session_id _ s.by_session))
        | inr e ↦ insert-IsRegistered owner identity.session_id _ s.by_session (
            h key owner
              (sym (
                  lookup-insert-other key (path_key identity) identity.session_id s.session_by_path
                    e)
                ∙ l)
              n)
      ]

  -- A path is taken with no session, or freed.
  unowned-AllLead :
      (s t : MultiAgentState L) (key : Text)
      → t.by_session ≡ s.by_session
      → ((owner : Text) → lookup key t.session_by_path ≡ some owner → is_empty owner ≡ true)
      → ((p : Text)
          → text_eq p key ≡ false
          → lookup p t.session_by_path ≡ lookup p s.session_by_path)
      → AllLead s
      → AllLead t
  unfolding AllLead
  unowned-AllLead s t key b u k h p owner l n = elim (Bool-cases (text_eq p key)) [
    | inl e ↦
        elim (true-false (
          sym (u owner (ap (λ q. lookup q t.session_by_path) (sym (text_eq-≡ p key e)) ∙ l))
          ∙ n)) [ ]
    | inr e ↦ ap (λ table. is_some (lookup owner table)) b ∙ h p owner (sym (k p e) ∙ l) n
  ]

  reserve-AllLead :
      (parent : MultiAgentIdentity) (name : Text) (limit depth : ℕ) (s : MultiAgentState L)
      (r : Text × MultiAgentState L)
      → reserve_spawn parent name limit depth s ≡ ok r
      → AllLead s
      → AllLead r.1
  reserve-AllLead parent name limit depth s r h o =
      let (a, b, n, c, e) = reserve_spawn-ok parent name limit depth s r h in
      let key : Text = scoped_path_key parent.root_session_id r.0 in
      unowned-AllLead s r.1 key (ap (λ t. t.by_session) e)
        (λ owner l. sym (
          ap is_empty (
            some_injective _ _ (
              sym (lookup-insert-same key [] s.session_by_path)
              ∙ sym (ap (λ t. lookup key t.session_by_path) e)
              ∙ l))))
        (λ p k.
          ap (λ t. lookup p t.session_by_path) e ∙ lookup-insert-other p key [] s.session_by_path k)
        o

  release-AllLead :
      (root path : Text) (s : MultiAgentState L)
      → AllLead s
      → AllLead (release_reserved_path root path s)
  unfolding release_reserved_path
  release-AllLead root path s o =
      let key : Text = scoped_path_key root path in
      elim (Option-cases (lookup key s.session_by_path)) [
        | inl n ↦ rw (n, release_reserved_path) o
        | inr (id, n) ↦ elim (Bool-cases (is_empty id)) [
          | inl e ↦
              rw (n, e, release_reserved_path)
                (unowned-AllLead s _ key refl
                  (λ owner l.
                    elim (none-some owner (sym (lookup-remove-same key s.session_by_path) ∙ l)) [ ])
                  (λ p k. lookup-remove-other p key s.session_by_path k) o)
          | inr e ↦ rw (n, e, release_reserved_path) o
        ]
      ]

  set_task-AllLead :
      (id text : Text) (s : MultiAgentState L)
      → AllLead s
      → AllLead (set_last_task_message id text s)
  unfolding set_last_task_message AllLead
  set_task-AllLead id text s o = elim (Option-cases (lookup id s.by_session)) [
    | inl n ↦ rw (n, set_last_task_message) o
    | inr (e, n) ↦
        rw (n, set_last_task_message)
          (λ key owner l k. insert-IsRegistered owner id _ s.by_session (o key owner l k))
  ]

  queue-AllLead :
      (from to : MultiAgentIdentity) (text : Text) (s t : MultiAgentState L)
      → queue_message from to text s ≡ ok t
      → AllLead s
      → AllLead t
  unfolding queue_message bump_mailbox AllLead
  queue-AllLead from to text s t h o =
      let (b, v) = guard-ok _ _ _ t h in subst AllLead (ok_injective _ t v) o

  drain-AllLead :
      (id : Text) (s : MultiAgentState L) → AllLead s → AllLead (drain_messages_for_run id s).1
  unfolding drain_messages_for_run AllLead
  drain-AllLead id s o = elim (Option-cases (lookup id s.mailbox)) [
    | inl n ↦ rw (n, drain_messages_for_run) o
    | inr (q, n) ↦ rw (n, drain_messages_for_run) o
  ]

  notify-AllLead :
      (identity : MultiAgentIdentity) (st text : Text) (s : MultiAgentState L)
      → AllLead s
      → AllLead (notify_finished identity st text s)
  unfolding notify_finished bump_mailbox AllLead
  notify-AllLead identity st text s o = elim (Option-cases identity.parent_session_id) [
    | inl n ↦ rw (n, notify_finished) o
    | inr (id, n) ↦ elim (Option-cases (lookup id s.by_session)) [
      | inl k ↦ rw (n, k, notify_finished) o
      | inr (e, k) ↦ rw (n, k, notify_finished) o
    ]
  ]

module _ {L : Type 0} (status : L → Text) where
  close-AllLead :
      (current : MultiAgentIdentity) (target : Text) (s : MultiAgentState L)
      (r : Text × MultiAgentState L)
      → close_agent status current target s ≡ ok r
      → AllLead s
      → AllLead r.1
  unfolding close_agent AllLead
  close-AllLead current target s r h o =
      let (t, a, u) = bind-ok (resolve_target current target s) _ r h in
      let (b, v) = guard-ok _ _ _ r u in
      subst (λ (r : Text × MultiAgentState L). AllLead r.1) (ok_injective _ r v)
        (λ key owner l n.
          ap is_some (lookup-map_values (close_under t) owner s.by_session)
          ∙ map-is_some (close_under t) (lookup owner s.by_session) (o key owner l n))

  Step-AllLead : (s t : MultiAgentState L) → Step status s t → AllLead s → AllLead t
  unfolding drain_mailbox AllLead
  Step-AllLead s t (Step.register identity live _ n) o = register-AllLead identity live s o
  Step-AllLead s t (Step.reserve parent name limit depth _ r h) o =
      reserve-AllLead parent name limit depth s r h o
  Step-AllLead s t (Step.release root path _) o = release-AllLead root path s o
  Step-AllLead s t (Step.set_task id text _) o = set_task-AllLead id text s o
  Step-AllLead s t (Step.queue from to text _ _ h) o = queue-AllLead from to text s t h o
  Step-AllLead s t (Step.deliver id _) o = drain-AllLead id s o
  Step-AllLead s t (Step.notify identity st text _) o = notify-AllLead identity st text s o
  Step-AllLead s t (Step.wait id _) o = o
  Step-AllLead s t (Step.close current target _ r h) o = close-AllLead current target s r h o

  Reachable-AllLead : (s : MultiAgentState L) → Reachable status s → AllLead s
  unfolding AllLead lookup
  Reachable-AllLead s Reachable.start = λ key owner l n. elim (none-some owner l) [ ]
  Reachable-AllLead t (Reachable.next s _ r step) = Step-AllLead s t step (Reachable-AllLead s r)

  -- In every state that the steps of the control reach, the path of a registered agent, open or closed,
  -- leads to a session that is registered under its own identifier: no path of an agent is free, only
  -- reserved or left to a session that is not there. Sessions with an empty identifier, which no session
  -- has, do not register; a session may register at the path of another, and then holds it.
  pub Reachable-leads :
      (s : MultiAgentState L)
      → Reachable status s
      → (a : Text) (e : AgentEntry L) → lookup a s.by_session ≡ some e
      → (owner : Text) × (f : AgentEntry L) × (lookup (path_key e.identity) s.session_by_path
          ≡ some owner)
        × (lookup owner s.by_session ≡ some f)
        × (f.identity.session_id ≡ owner)
  unfolding AllLead AllOwned
  Reachable-leads s r a e h =
      let o : IsOwned s.session_by_path a (some e) =
        subst (IsOwned s.session_by_path a) h (Reachable-AllOwned status s r a) in
      let (owner, n, l) = o.2 in
      let (f, k) =
        is_some-some (lookup owner s.by_session)
          (Reachable-AllLead s r (path_key e.identity) owner l n) in
      let p : IsOwned s.session_by_path owner (some f) =
        subst (IsOwned s.session_by_path owner) k (Reachable-AllOwned status s r owner) in
      (owner, f, l, k, p.0)
