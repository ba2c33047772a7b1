-- ===== src/Agents/Close.antt =====
-- What `close_agent` closes cannot be resolved any more.
use kiliax.Prelude.{
  ◌∷◌, ◌++◌, arith, ◌≡◌, refl, ap, ◌∙◌, sym, Bool, true, false, ◌&&◌, ◌⊎◌, ap₂, Option, none, some,
  if◌then◌else◌, is_empty, Bool-cases, Option-cases, inl, inr, none-some, some_injective,
}
use mathlib.Core.Option
use kiliax.Text.{Text, text_eq, trim, starts_with}
use kiliax.Text.Table.{Table, lookup, map_values, lookup-map_values}
use kiliax.Result.{ok, ok_or, bind-ok, ok_injective, guard-ok, ok_or-ok}
use kiliax.Session.Store.Load.{parse_session_id}
use kiliax.Agents.Paths.{
  AgentError, Checked, scoped_path_key, path_matches_prefix, resolve_agent_path, root_path,
}
use kiliax.Agents.Steps.{true-false}
use kiliax.Agents.State.{MultiAgentIdentity, AgentEntry, MultiAgentState}
use kiliax.Agents.Resolve.{open_identity, resolve_by_path, resolve_target, close_under, close_agent}
use kiliax.Text.Equal.{text_eq-same}
use kiliax.Compact.Summary.{strip_prefix-append}

-- The test of the code for an agent at the target or under it.
abbrev pub is_under : MultiAgentIdentity → MultiAgentIdentity → Bool
is_under target i =
    text_eq i.root_session_id target.root_session_id
    && path_matches_prefix i.agent_path target.agent_path

-- The path itself, or a path that goes on after it.
abbrev pub IsAtOrUnder : Text → Text → Type 0
IsAtOrUnder path prefix = (path ≡ prefix) ⊎ ((rest : Text) × (path ≡ prefix ++ (b'/' ∷ rest)))

under-matches : (p rest : Text) → path_matches_prefix (p ++ (b'/' ∷ rest)) p ≡ true
unfolding path_matches_prefix starts_with
under-matches p rest = rw (strip_prefix-append p (b'/' ∷ rest)) (ground arith)

IsAtOrUnder-matches :
    (path prefix : Text) → IsAtOrUnder path prefix → path_matches_prefix path prefix ≡ true
unfolding path_matches_prefix
IsAtOrUnder-matches path prefix (inl e) =
    rw (ap (text_eq path) (sym e) ∙ text_eq-same path) (ground arith)
IsAtOrUnder-matches path prefix (inr (rest, e)) =
    ap (λ p. path_matches_prefix p prefix) e ∙ under-matches prefix rest

-- An agent of the target's root at the target's path or under it.
abbrev pub IsWithin : MultiAgentIdentity → MultiAgentIdentity → Type 0
IsWithin target i =
    (i.root_session_id ≡ target.root_session_id) × IsAtOrUnder i.agent_path target.agent_path

is_under-IsWithin : (target i : MultiAgentIdentity) → IsWithin target i → is_under target i ≡ true
is_under-IsWithin target i (e, p) =
    rw
      (
        ap (text_eq i.root_session_id) (sym e) ∙ text_eq-same i.root_session_id,
        IsAtOrUnder-matches i.agent_path target.agent_path p,
      )
      refl

unless-some {ℓ} :
    {A : Type ℓ} (b : Bool) (x y : A)
    → (if b then none else some x) ≡ some y
    → (b ≡ false) × (x ≡ y)
unless-some true x y h = elim (none-some y h) [ ]
unless-some false x y h = (refl, some_injective x y h)

bind-some {ℓ κ} :
    {A : Type ℓ} {B : Type κ} (o : Option A) (f : A → Option B) (b : B)
    → Option.bind o f ≡ some b
    → (a : A) × (f a ≡ some b)
unfolding Option.bind
bind-some none f b h = elim (none-some b h) [ ]
bind-some (some a) f b h = (a, h)

first-ok :
    (o : Option MultiAgentIdentity) (x : Checked MultiAgentIdentity) (u : MultiAgentIdentity)
    → elim o [ some i ↦ ok i | none ↦ x ] ≡ ok u
    → (o ≡ some u) ⊎ (x ≡ ok u)
first-ok none x u h = inr h
first-ok (some i) x u h = inl (ap some (ok_injective i u h))

module _ {L : Type 0} where
  open_identity-ok :
      (q : Text) (s : MultiAgentState L) (u : MultiAgentIdentity)
      → open_identity q s ≡ some u
      → (e : AgentEntry L) × (lookup q s.by_session ≡ some e)
        × (e.identity ≡ u)
        × (e.identity.closed ≡ false)
  unfolding open_identity
  open_identity-ok q s u h = elim (Option-cases (lookup q s.by_session)) [
    | inl n ↦ elim (none-some u (rw (n, open_identity) at h)) [ ]
    | inr (e, n) ↦
        let (c, same) = unless-some e.identity.closed e.identity u (rw (n, open_identity) at h) in
        (e, n, same, c)
  ]

  resolve_by_path-ok :
      (current : MultiAgentIdentity) (target : Text) (s : MultiAgentState L)
      (u : MultiAgentIdentity)
      → resolve_by_path current target s ≡ ok u
      → (q : Text) × (open_identity q s ≡ some u)
  unfolding resolve_by_path
  resolve_by_path-ok current target s u h =
      let (path, a, t) = bind-ok (resolve_agent_path current.agent_path target) _ u h in
      let (id, b, v) =
        bind-ok
          (ok_or (AgentError.not_found path)
            (lookup (scoped_path_key current.root_session_id path) s.session_by_path))
          _ u t in
      let (e, w) = guard-ok (is_empty id) _ _ u v in
      (id, ok_or-ok (AgentError.not_found path) (open_identity id s) u w)

  resolve_target-ok :
      (current : MultiAgentIdentity) (target : Text) (s : MultiAgentState L)
      (u : MultiAgentIdentity)
      → resolve_target current target s ≡ ok u
      → (q : Text) × (open_identity q s ≡ some u)
  unfolding resolve_target
  resolve_target-ok current target s u h =
      let (e, k) = guard-ok (is_empty (trim target)) _ _ u h in
      elim (first-ok (Option.bind (parse_session_id (trim target)) (λ id. open_identity id s))
        (resolve_by_path current (trim target) s) u k) [
          | inl m ↦ bind-some (parse_session_id (trim target)) _ u m
          | inr m ↦ resolve_by_path-ok current (trim target) s u m
        ]

  close_under-open :
      (target : MultiAgentIdentity) (e : AgentEntry L)
      → (close_under target e).identity.closed ≡ false
      → (is_under target e.identity ≡ false) × (close_under target e ≡ e)
  unfolding close_under
  close_under-open target e h = elim (Bool-cases (is_under target e.identity)) [
    | inl k ↦ elim (true-false (rw k at h)) [ ]
    | inr k ↦ (k, rw k)
  ]

  map_close :
      (target : MultiAgentIdentity) (q : Text) (table : Table (AgentEntry L)) (e : AgentEntry L)
      → lookup q (map_values (close_under target) table) ≡ some e
      → e.identity.closed ≡ false
      → is_under target e.identity ≡ false
  map_close target q table e h c =
      let k : Option.map (close_under target) (lookup q table) ≡ some e =
        sym (lookup-map_values (close_under target) q table) ∙ h in
      elim (Option-cases (lookup q table)) [
        | inl n ↦ elim (none-some e (rw n at k)) [ ]
        | inr (d, n) ↦
            let same : close_under target d ≡ e = some_injective _ _ (rw n at k) in
            let (u, v) = close_under-open target d (ap (λ e. e.identity.closed) same ∙ c) in
            sym (ap (λ e. is_under target e.identity) (sym v ∙ same)) ∙ u
      ]

  close_agent-is_under :
      (status : L → Text) (current : MultiAgentIdentity) (target : Text) (s : MultiAgentState L)
      (r : Text × MultiAgentState L) (closed : MultiAgentIdentity) (other : MultiAgentIdentity)
      (name : Text) (u : MultiAgentIdentity)
      → close_agent status current target s ≡ ok r
      → resolve_target current target s ≡ ok closed
      → resolve_target other name r.1 ≡ ok u
      → is_under closed u ≡ false
  unfolding close_agent
  close_agent-is_under status current target s r closed other name u h k l =
      let (t, a, v) = bind-ok (resolve_target current target s) _ r h in
      let (b, w) = guard-ok (text_eq t.agent_path root_path) (AgentError.root_not_spawned) _ r v in
      let same : t ≡ closed = ok_injective t closed (sym a ∙ k) in
      let (q, i) = resolve_target-ok other name r.1 u l in
      let (e, n, j, c) = open_identity-ok q r.1 u i in
      let m : lookup q (map_values (close_under t) s.by_session) ≡ some e =
        ap (λ (r : Text × MultiAgentState L). lookup q r.1.by_session) (ok_injective _ r w) ∙ n in
      sym (ap₂ is_under same j) ∙ map_close t q s.by_session e m c

  -- After an agent is closed, no target of any agent resolves to an agent of its root at its path or
  -- at a path under it.
  pub close_agent-unresolvable :
      (status : L → Text) (current : MultiAgentIdentity) (target : Text) (s : MultiAgentState L)
      (r : Text × MultiAgentState L) (closed : MultiAgentIdentity) (other : MultiAgentIdentity)
      (name : Text) (u : MultiAgentIdentity)
      → close_agent status current target s ≡ ok r
      → resolve_target current target s ≡ ok closed
      → resolve_target other name r.1 ≡ ok u
      → ¬ (IsWithin closed u)
  close_agent-unresolvable status current target s r closed other name u h k l within = true-false (
      sym (is_under-IsWithin closed u within)
      ∙ close_agent-is_under status current target s r closed other name u h k l)
