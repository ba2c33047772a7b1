-- ===== src/Agents/Steps.antt =====
-- The steps of `MultiAgentControl`, and what holds in every state that they reach: the path of a registered
-- agent is held.
pub mod Held
pub mod Leads
use kiliax.Prelude.{
  ℕ, ◌≡◌, ◌≢◌, refl, ap, ◌∙◌, sym, subst, Bool, true, false, ◌||◌, List, [], ◌∷◌, Option, none,
  some, if◌then◌else◌, is_empty, is_some, arith, Bool-cases, Option-cases, inl, inr, none-some,
  some_injective, leb, ltb, or_false,
}
use mathlib.Core.Option
use kiliax.Text.{Text, text_eq}
use kiliax.Text.Equal.{text_eq-≡, text_eq-same, text_eq-false}
use kiliax.Text.Table.{
  Table, lookup, insert, remove, map_values, lookup-insert-same, lookup-insert-other,
  lookup-remove-other, lookup-map_values,
}
use kiliax.Result.{Result, ok, err, ok_or, ◌>>=◌, bind-ok, err-ok, ok_injective, guard-ok}
use kiliax.Agents.Paths.{
  AgentError, Checked, scoped_path_key, validate_task_name, join_agent_path, agent_depth,
}
use kiliax.Agents.State.{
  MultiAgentIdentity, AgentEntry, MultiAgentState, path_key, empty, register_live_agent,
  reserve_spawn, release_reserved_path, set_last_task_message, count_active,
}
use kiliax.Agents.Resolve.{close_agent, close_under, resolve_target}
use kiliax.Agents.Mailbox.{
  queue_message, drain_messages_for_run, notify_finished, drain_mailbox, bump_mailbox, push_item,
}

pub true-false : true ≡ false → ⊥
true-false h = cc

-- A session holds the path: it is not free, and not only reserved.
abbrev pub IsHeld : Table Text → Text → Type 0
IsHeld by_path key = (owner : Text) × (is_empty owner ≡ false) × (lookup key by_path ≡ some owner)

-- A path that is inserted with a session is held, and so are those that were.
IsHeld-insert :
    (paths : Table Text) (key owner : Text)
    → is_empty owner ≡ false
    → (p : Text) → IsHeld paths p
    → IsHeld (insert key owner paths) p
IsHeld-insert paths key owner n p (o, k, l) = elim (Bool-cases (text_eq p key)) [
  | inl e ↦
      let same : p ≡ key = text_eq-≡ p key e in
      (
        owner,
        n,
        ap (λ p. lookup p (insert key owner paths)) same ∙ lookup-insert-same key owner paths,
      )
  | inr e ↦ (o, k, lookup-insert-other p key owner paths e ∙ l)
]

module _ {L : Type 0} where
  -- The entry under a key is that session's, and the session owns the entry's path.
  abbrev pub IsOwned : Table Text → Text → Option (AgentEntry L) → Type 0
  IsOwned by_path q none = Unit
  IsOwned by_path q (some e) =
      (e.identity.session_id ≡ q) × (is_empty q ≡ false) × IsHeld by_path (path_key e.identity)

  unfoldable pub AllOwned : MultiAgentState L → Type 0
  AllOwned s = (q : Text) → IsOwned s.session_by_path q (lookup q s.by_session)

  -- A change of the paths that leaves the owned ones.
  IsOwned-paths :
      (old new : Table Text) (q : Text) (o : Option (AgentEntry L))
      → ((key : Text) → IsHeld old key → IsHeld new key)
      → IsOwned old q o
      → IsOwned new q o
  IsOwned-paths old new q none k h = tt
  IsOwned-paths old new q (some e) k h = (h.0, h.1, k (path_key e.identity) h.2)

  pub IsOwned-insert :
      (by_path : Table Text) (by_session : Table (AgentEntry L)) (key : Text) (e : AgentEntry L)
      (q : Text)
      → IsOwned by_path key (some e)
      → (text_eq q key ≡ false → IsOwned by_path q (lookup q by_session))
      → IsOwned by_path q (lookup q (insert key e by_session))
  IsOwned-insert by_path by_session key e q o h = elim (Bool-cases (text_eq q key)) [
    | inl t ↦
        subst (λ k. IsOwned by_path k (lookup k (insert key e by_session)))
          (sym (text_eq-≡ q key t))
          (subst (IsOwned by_path key) (sym (lookup-insert-same key e by_session)) o)
    | inr t ↦ subst (IsOwned by_path q) (sym (lookup-insert-other q key e by_session t)) (h t)
  ]

  pub register-AllOwned :
      (identity : MultiAgentIdentity) (live : L) (s : MultiAgentState L)
      → is_empty identity.session_id ≡ false
      → AllOwned s
      → AllOwned (register_live_agent identity live s)
  unfolding AllOwned register_live_agent
  register-AllOwned identity live s n h q =
      let paths : Table Text = insert (path_key identity) identity.session_id s.session_by_path in
      IsOwned-insert paths s.by_session identity.session_id _ q
        (
          refl,
          n,
          (
            identity.session_id,
            n,
            lookup-insert-same (path_key identity) identity.session_id s.session_by_path,
          ),
        )
        (λ t.
          IsOwned-paths s.session_by_path paths q (lookup q s.by_session)
            (IsHeld-insert s.session_by_path (path_key identity) identity.session_id n) (h q))

  -- A path that is not held is changed.
  pub path_changed :
      (s t : MultiAgentState L) (key : Text)
      → t.by_session ≡ s.by_session
      → ¬ (IsHeld s.session_by_path key)
      → ((p : Text)
          → text_eq p key ≡ false
          → lookup p t.session_by_path ≡ lookup p s.session_by_path)
      → AllOwned s
      → AllOwned t
  unfolding AllOwned
  path_changed s t key b n k h q =
      subst (λ e. IsOwned t.session_by_path q (lookup q e)) (sym b)
        (IsOwned-paths s.session_by_path t.session_by_path q (lookup q s.by_session)
          (λ p held. elim (Bool-cases (text_eq p key)) [
            | inl c ↦ elim (n (subst (IsHeld s.session_by_path) (text_eq-≡ p key c) held)) [ ]
            | inr c ↦ (held.0, held.1, k p c ∙ held.2)
          ])
          (h q))

module _ {L : Type 0} (status : L → Text) where
  -- A session registers under its identifier, which is not empty, at whatever path it has.
  pub data Step : MultiAgentState L → MultiAgentState L → Type 0 where
    register :
        (identity : MultiAgentIdentity) (live : L) (s : MultiAgentState L)
        → is_empty identity.session_id ≡ false
        → Step s (register_live_agent identity live s)
    reserve :
        (parent : MultiAgentIdentity) (name : Text) (limit depth : ℕ) (s : MultiAgentState L)
        (r : Text × MultiAgentState L)
        → reserve_spawn parent name limit depth s ≡ ok r
        → Step s r.1
    release :
        (root path : Text) (s : MultiAgentState L) → Step s (release_reserved_path root path s)
    set_task : (id text : Text) (s : MultiAgentState L) → Step s (set_last_task_message id text s)
    queue :
        (from to : MultiAgentIdentity) (text : Text) (s t : MultiAgentState L)
        → queue_message from to text s ≡ ok t
        → Step s t
    deliver : (id : Text) (s : MultiAgentState L) → Step s (drain_messages_for_run id s).1
    notify :
        (identity : MultiAgentIdentity) (st text : Text) (s : MultiAgentState L)
        → Step s (notify_finished identity st text s)
    wait : (id : Text) (s : MultiAgentState L) → Step s (drain_mailbox id s).1
    close :
        (current : MultiAgentIdentity) (target : Text) (s : MultiAgentState L)
        (r : Text × MultiAgentState L)
        → close_agent status current target s ≡ ok r
        → Step s r.1

  pub data Reachable : MultiAgentState L → Type 0 where
    start : Reachable empty
    next : (s t : MultiAgentState L) → Reachable s → Step s t → Reachable t
