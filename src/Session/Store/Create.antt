-- ===== src/Session/Store/Create.antt =====
-- `create` and the goal operations of crates/kiliax-core/src/session.rs.
use mathlib.Core.Option
use kiliax.Prelude.{
  ℕ, suc, ◌+◌, ◌≤◌, ◌≡◌, refl, ap, sym, subst, ◌∙◌, Bool, true, false, List, [], ◌∷◌, ◌++◌, Option,
  none, some, map, All, length, arith, is_empty, append-nil, append_assoc, if◌then◌else◌,
}
use kiliax.Text.{Text, trim}
use kiliax.Protocol.{Message}
use kiliax.Session.State.{
  SessionMeta, SessionGoal, SessionGoalStatus, SessionEvent, SessionEventLine, SessionState,
  SessionError, session_schema_version,
}
use kiliax.Session.Title.{derive_title, project_prompt_from_messages}
use kiliax.Session.Ids.{Rises}
use kiliax.Session.Store.Disk.{Json, Result, ok, err, Dir, Faults, Step, append_raw}
use kiliax.Session.Store.Record.{snapshot_of, record_event}
use kiliax.Session.Store.Load.{state_of}
use kiliax.Session.Store.Settle.{settle}
use kiliax.Session.Store.Recover.{Durable, on_disk, replay_all-none, append_raw-on_disk}

-- What the caller and the clock give to `create`.
pub record NewSession : Type 0 where
  pub id : Text
  pub now : ℕ
  pub agent : Text
  pub model_id : Option Text
  pub config_path : Option Text
  pub workspace_root : Option Text
  pub extra_workspace_roots : List Text
  pub cache_key : Text

-- `1..=last_seq`, from `n`.
unfoldable pub ids_from : {J : Type 0} → ℕ → List (Message J) → List ℕ
ids_from n [] = []
ids_from n (m ∷ ms) = n ∷ ids_from (n + 1) ms

module _ {J : Type 0} where
  unfoldable pub seed_lines : ℕ → ℕ → List (Message J) → List (SessionEventLine J)
  seed_lines now n [] = []
  seed_lines now n (m ∷ ms) =
      record {
        schema_version = session_schema_version;
        seq = n;
        ts_ms = now;
        event = SessionEvent.message m;
      }
      ∷ seed_lines now (n + 1) ms

  unfoldable pub initial_meta : NewSession → List (Message J) → SessionMeta
  initial_meta new ms = record {
    schema_version = session_schema_version;
    id = new.id;
    created_at_ms = new.now;
    updated_at_ms = new.now;
    agent = new.agent;
    model_id = new.model_id;
    config_path = new.config_path;
    workspace_root = new.workspace_root;
    extra_workspace_roots = new.extra_workspace_roots;
    mcp_servers = [];
    skills = none;
    custom_tools = none;
    title = derive_title ms;
    last_finish_reason = none;
    last_error = none;
    prompt_cache_key = some new.cache_key;
    project_prompt = some (Option.get_or (project_prompt_from_messages ms) []);
    goal = none;
    root_session_id = none;
    parent_session_id = none;
    agent_path = none;
    agent_role = none;
    closed = false;
    last_seq = length ms;
    last_snapshot_seq = length ms;
    message_count = length ms;
  }

  unfoldable pub initial_state : NewSession → List (Message J) → SessionState J
  unfolding initial_meta
  initial_state new ms = record {
    meta = initial_meta new ms;
    messages = ms;
    message_ids = ids_from 1 ms;
    checkpoint = none;
  }

suc-shift : (n k : ℕ) → n + suc k ≡ n + 1 + k
suc-shift n k = omega arith

module _ {J : Type 0} (json : Json J) where
  open json use {Raw, event_to, snapshot_to}

  -- The lines of the initial messages, appended one by one; the file is there also without any.
  unfoldable pub seed_log : List (Raw × Bool) → List (SessionEventLine J) → List (Raw × Bool)
  seed_log written [] = written
  seed_log written (l ∷ ls) = seed_log (append_raw json written (event_to l) true) ls

  -- `create`, where no write fails.
  unfoldable pub create : NewSession → List (Message J) → Dir json × SessionState J
  unfolding seed_log
  create new ms =
      let s = initial_state new ms in
      (
        record {
          meta_file = some s.meta;
          snapshot_file = some (snapshot_to (snapshot_of json s));
          log = some (seed_log [] (seed_lines new.now 1 ms));
        },
        s,
      )

  seed_log-on_disk :
      (done ls : List (SessionEventLine J))
      → seed_log (on_disk json done) ls ≡ on_disk json (done ++ ls)
  unfolding seed_log
  seed_log-on_disk done [] = ap (on_disk json) (sym (append-nil done))
  seed_log-on_disk done (l ∷ ls) =
      rw (append_raw-on_disk json done l)
        (seed_log-on_disk (done ++ l ∷ []) ls ∙ ap (on_disk json) (append_assoc done (l ∷ []) ls))

  seed_lines-schemas :
      (now n : ℕ) (ms : List (Message J)) → All (λ l. l.schema_version ≤ 4) (seed_lines now n ms)
  unfolding seed_lines
  seed_lines-schemas now n [] = tt
  seed_lines-schemas now n (m ∷ ms) = (omega arith, seed_lines-schemas now (n + 1) ms)

  seed_lines-numbered :
      (now n k : ℕ) (ms : List (Message J))
      → n + length ms ≤ k + 1
      → All (λ l. l.seq ≤ k) (seed_lines now n ms)
  unfolding seed_lines
  seed_lines-numbered now n k [] h = tt
  seed_lines-numbered now n k (m ∷ ms) h =
      (omega arith, seed_lines-numbered now (n + 1) k ms (omega arith))

  ids_from-Rises : (n : ℕ) (ms : List (Message J)) → Rises n (ids_from (n + 1) ms) (n + length ms)
  unfolding ids_from
  ids_from-Rises n [] = omega arith
  ids_from-Rises n (m ∷ ms) =
      (omega arith, rw (suc-shift n (length ms)) (ids_from-Rises (n + 1) ms))

  length-ids_from : (n : ℕ) (ms : List (Message J)) → length ms ≡ length (ids_from n ms)
  unfolding ids_from
  length-ids_from n [] = refl
  length-ids_from n (m ∷ ms) = ap suc (length-ids_from (n + 1) ms)

  zero_plus : (n : ℕ) → 0 + n ≡ n
  zero_plus n = omega arith

  pub create-Durable :
      (new : NewSession) (ms : List (Message J)) → Durable json (create new ms).0 (create new ms).1
  unfolding create initial_state snapshot_of state_of
  create-Durable new ms = record {
    lines = seed_lines new.now 1 ms;
    snapshot = snapshot_of json (initial_state new ms);
    logged = ap some (seed_log-on_disk [] (seed_lines new.now 1 ms));
    saved = refl;
    snapshot_schema = omega arith;
    snapshot_paired = sym (length-ids_from 1 ms);
    line_schemas = seed_lines-schemas new.now 1 ms;
    numbered = seed_lines-numbered new.now 1 (length ms) ms (omega arith);
    behind = omega arith;
    consistent = record {
      paired = length-ids_from 1 ms;
      counted = refl;
      rising = subst (λ k. Rises 0 (ids_from 1 ms) k) (zero_plus (length ms)) (ids_from-Rises 0 ms);
    };
    replayed = λ clock. ap settle (
        replay_all-none clock (length ms) (seed_lines new.now 1 ms)
          (state_of (snapshot_of json (initial_state new ms)))
          (seed_lines-numbered new.now 1 (length ms) ms (omega arith)));
  }

  -- The log of a new session tells its messages, in their order and with their ids.
  abbrev pub IsHistory : List (SessionEventLine J) → SessionState J → Type 0
  IsHistory lines s =
      (map (λ l. l.event) lines ≡ map SessionEvent.message s.messages)
      × (map (λ l. l.seq) lines ≡ s.message_ids)

  seed_lines-events :
      (now n : ℕ) (ms : List (Message J))
      → map (λ l. l.event) (seed_lines now n ms) ≡ map SessionEvent.message ms
  unfolding seed_lines
  seed_lines-events now n [] = refl
  seed_lines-events now n (m ∷ ms) =
      ap (◌∷◌ (SessionEvent.message m)) (seed_lines-events now (n + 1) ms)

  seed_lines-ids :
      (now n : ℕ) (ms : List (Message J)) → map (λ l. l.seq) (seed_lines now n ms) ≡ ids_from n ms
  unfolding seed_lines ids_from
  seed_lines-ids now n [] = refl
  seed_lines-ids now n (m ∷ ms) = ap (◌∷◌ n) (seed_lines-ids now (n + 1) ms)

  -- A new session, whose writes all succeed, holds the given messages and is on disk as it is in
  -- memory; its log is whole lines that alone tell each of the messages, in their order and with
  -- their ids.
  pub create_complete :
      (new : NewSession) (ms : List (Message J))
      → Durable json (create new ms).0 (create new ms).1
        × ((create new ms).1.messages ≡ ms)
        × (lines : List (SessionEventLine J)) × ((create new ms).0.log ≡ some (on_disk json lines))
        × IsHistory lines (create new ms).1
  unfolding create initial_state
  create_complete new ms = (
    create-Durable new ms,
    refl,
    seed_lines new.now 1 ms,
    ap some (seed_log-on_disk [] (seed_lines new.now 1 ms)),
    (seed_lines-events new.now 1 ms, seed_lines-ids new.now 1 ms),
  )

  -- `set_goal`: an error, or the step and the goal.
  unfoldable pub set_goal :
      ℕ
      → Faults json
      → ℕ
      → Text
      → Dir json
      → SessionState J
      → Text
      → Result (Step json × SessionGoal)
  set_goal every f ts now d s objective =
      let goal : SessionGoal = record {
        objective = trim objective;
        status = SessionGoalStatus.active;
        session_id = s.meta.id;
        time_used_seconds = 0;
        created_at = now;
        updated_at = now;
        tokens_used = 0;
      } in
      if is_empty (trim objective)
      then err SessionError.invalid_id
      else ok (record_event json every f ts now d s (SessionEvent.goal_set goal), goal)

  -- `complete_goal` and `add_goal_usage`: nothing is recorded where there is no goal.
  unfoldable pub complete_goal :
      ℕ → Faults json → ℕ → Text → Dir json → SessionState J → Step json × Option SessionGoal
  complete_goal every f ts now d s = elim s.meta.goal [
    | none ↦ (record { dir = d; state = s; error = none }, none)
    | some g ↦
        let goal = record g { status = SessionGoalStatus.complete; updated_at = now } in
        (record_event json every f ts now d s (SessionEvent.goal_completed goal), some goal)
  ]

  unfoldable pub add_goal_usage :
      ℕ → Faults json → ℕ → Text → Dir json → SessionState J → ℕ → ℕ → Step json
  add_goal_usage every f ts now d s time tokens = elim s.meta.goal [
    | none ↦ record { dir = d; state = s; error = none }
    | some g ↦ record_event json every f ts now d s (SessionEvent.goal_usage time tokens)
  ]
