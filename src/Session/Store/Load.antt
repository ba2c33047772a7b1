-- ===== src/Session/Store/Load.antt =====
-- `load` of crates/kiliax-core/src/session.rs: the snapshot, and the log after it.
use mathlib.Core.Option
use kiliax.Prelude.{
  ℕ, Bool, ◌&&◌, ◌||◌, List, [], ◌∷◌, Option, none, some, length, all, is_empty, ltb, leb, ◌==◌,
  if◌then◌else◌,
}
use kiliax.Text.{Text, trim}
use kiliax.Session.State.{
  SessionEventLine, SessionState, SessionSnapshot, SessionError, session_schema_version,
}
use kiliax.Session.Title.{project_prompt_from_messages}
use kiliax.Session.Apply.{apply_event}
use kiliax.Session.Store.Disk.{Json, Result, ok, err, ◌>>=◌, Dir, Faults, Step}
use kiliax.Session.Store.Record.{checkpoint}

-- `SessionId::parse`
abbrev is_id_char : ℕ → Bool
is_id_char c =
    (leb b'a' c && leb c b'z')
    || (leb b'A' c && leb c b'Z')
    || (leb b'0' c && leb c b'9')
    || c == b'-'
    || c == b'_'

unfoldable pub parse_session_id : Text → Option Text
parse_session_id s =
    let t = trim s in if is_empty t then none else if all is_id_char t then some t else none

unfoldable pub state_of : {J : Type 0} → SessionSnapshot J → SessionState J
state_of sn = record {
  meta = record sn.meta { schema_version = session_schema_version };
  messages = sn.messages;
  message_ids = sn.message_ids;
  checkpoint = sn.checkpoint;
}

-- What the reader of the log does with a line.
pub data Verdict (J : Type 0) : Type 0 where
  skip stop : Verdict J
  fail : SessionError → Verdict J
  apply : SessionEventLine J → Verdict J

module _ {J : Type 0} (json : Json J) where
  open json use {Raw, is_blank, event_from, snapshot_from}

  unfoldable pub verdict : ℕ → Raw → Bool → Verdict J
  verdict snapshot_seq raw newline = if is_blank raw then skip else elim (event_from raw) [
    | none ↦ if newline then fail SessionError.deserialize else stop
    | some l ↦
        if ltb session_schema_version l.schema_version
        then fail (SessionError.unsupported_schema l.schema_version)
        else if leb l.seq snapshot_seq
        then skip
        else apply l
  ]

  -- The loop of `replay_events_after_snapshot`; `clock` is what the clock reads at each event.
  unfoldable pub replay :
      (ℕ → Text) → ℕ → List (Raw × Bool) → SessionState J → Result (SessionState J)
  replay clock snapshot_seq [] s = ok s
  replay clock snapshot_seq ((raw, newline) ∷ lines) s = elim (verdict snapshot_seq raw newline) [
    | skip ↦ replay clock snapshot_seq lines s
    | stop ↦ ok s
    | fail e ↦ err e
    | apply l ↦ replay clock snapshot_seq lines (apply_event (clock l.seq) s l.event l.ts_ms l.seq)
  ]

  unfoldable pub replay_events_after_snapshot :
      (ℕ → Text) → Dir json → SessionState J → Result (SessionState J)
  unfolding replay
  replay_events_after_snapshot clock d s =
      replay clock s.meta.last_snapshot_seq (Option.get_or d.log []) s

  unfoldable pub read_snapshot : Dir json → Result (SessionSnapshot J)
  read_snapshot d = elim d.snapshot_file [
    | none ↦ err SessionError.not_found
    | some raw ↦ elim (snapshot_from raw) [
      | none ↦ err SessionError.deserialize
      | some sn ↦
          if ltb session_schema_version sn.schema_version
          then err (SessionError.unsupported_schema sn.schema_version)
          else ok sn
    ]
  ]

  -- What the environment gives to `load`: the clock, a fresh cache key, the project prompt that
  -- `capture_project_prompt` of prompt.rs reads, and how the writes end.
  pub record Env : Type 0 where
    pub clock : ℕ → Text
    pub fresh_key : Text
    pub captured_prompt : Option Text
    pub key_write_fails : Bool
    pub prompt_faults : Faults json
    pub rebuild_faults : Faults json

  abbrev with_key : Env → SessionState J → SessionState J
  with_key env s = elim s.meta.prompt_cache_key [
    | some k ↦ s
    | none ↦ record s { meta = record s.meta { prompt_cache_key = some env.fresh_key } }
  ]

  -- The write of the metadata after a key was made; its error is ignored.
  unfoldable pub ensure_key : Env → Dir json → SessionState J → Dir json × SessionState J
  ensure_key env d s = elim s.meta.prompt_cache_key [
    | some k ↦ (d, s)
    | none ↦ (
      if env.key_write_fails then d else record d { meta_file = some (with_key env s).meta },
      with_key env s,
    )
  ]

  abbrev first_prompt : Option Text → Option Text → Text
  first_prompt (some p) captured = p
  first_prompt none (some p) = p
  first_prompt none none = []

  step_result : Step json → Result (Dir json × SessionState J)
  step_result st = elim st.error [ none ↦ ok (st.dir, st.state) | some e ↦ err e ]

  unfoldable pub ensure_project_prompt :
      Env → Dir json → SessionState J → Result (Dir json × SessionState J)
  unfolding step_result
  ensure_project_prompt env d s = elim s.meta.project_prompt [
    | some p ↦ ok (d, s)
    | none ↦
        let p = first_prompt (project_prompt_from_messages s.messages) env.captured_prompt in
        step_result (
          checkpoint json env.prompt_faults d
            (record s { meta = record s.meta { project_prompt = some p } }))
  ]

  -- The state from which a log is replayed when the snapshot is out of step.
  unfoldable pub emptied : SessionState J → SessionState J
  emptied s = record {
    meta = record s.meta {
      last_seq = 0;
      last_snapshot_seq = 0;
      message_count = 0;
      last_finish_reason = none;
      last_error = none;
      goal = none;
    };
    messages = [];
    message_ids = [];
    checkpoint = none;
  }

  unfoldable pub rebuild : Env → Dir json → SessionState J → Result (Dir json × SessionState J)
  rebuild env d s = do
    rebuilt ← replay_events_after_snapshot env.clock d (emptied s)
    (d1, s1) ← ensure_project_prompt env d (with_key env rebuilt)
    let st = checkpoint json env.rebuild_faults d1 s1
    ok (st.dir, st.state)

  unfoldable pub resume : Env → Dir json → SessionState J → Result (Dir json × SessionState J)
  resume env d s = do
    replayed ← replay_events_after_snapshot env.clock d s
    let (d1, s1) = ensure_key env d replayed
    ensure_project_prompt env d1 s1

  unfoldable pub recover : Env → Dir json → SessionSnapshot J → Result (Dir json × SessionState J)
  recover env d sn =
      if length sn.message_ids == length sn.messages
      then resume env d (state_of sn)
      else rebuild env d (state_of sn)

  unfoldable pub load : Env → Dir json → Text → Result (Dir json × SessionState J)
  load env d id = elim (parse_session_id id) [
    | none ↦ err SessionError.invalid_id
    | some _ ↦ do sn ← read_snapshot d; recover env d sn
  ]
