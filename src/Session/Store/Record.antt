-- ===== src/Session/Store/Record.antt =====
-- `record_event` and `checkpoint` of crates/kiliax-core/src/session.rs.
use kiliax.Prelude.{ℕ, ◌+◌, ◌-◌, true, false, none, some, leb, if◌then◌else◌}
use kiliax.Text.{Text}
use kiliax.Session.State.{
  SessionEvent, SessionEventLine, SessionState, SessionSnapshot, SessionError,
  session_schema_version,
}
use kiliax.Session.Apply.{apply_event}
use kiliax.Session.Store.Disk.{Json, Append, Dir, Faults, Step, append_event_line}

unfoldable pub set_schema : {J : Type 0} → SessionState J → SessionState J
set_schema s = record s { meta = record s.meta { schema_version = session_schema_version } }

module _ {J : Type 0} (json : Json J) where
  open json use {Raw, event_to, snapshot_to}

  unfoldable pub snapshot_of : SessionState J → SessionSnapshot J
  snapshot_of s = record {
    schema_version = session_schema_version;
    meta = s.meta;
    messages = s.messages;
    message_ids = s.message_ids;
    checkpoint = s.checkpoint;
  }

  unfoldable pub checkpointed : SessionState J → SessionState J
  checkpointed s = record s {
    meta = record s.meta {
      last_snapshot_seq = s.meta.last_seq;
      schema_version = session_schema_version;
    };
  }

  -- `checkpoint`: the snapshot, then the metadata; each is replaced as a whole or not at all.
  unfoldable pub checkpoint : Faults json → Dir json → SessionState J → Step json
  unfolding checkpointed snapshot_of
  checkpoint f d s =
      let s' = checkpointed s in
      let d' = record d { snapshot_file = some (snapshot_to (snapshot_of s')) } in
      if f.snapshot_fails
      then record { dir = d; state = s'; error = some SessionError.io }
      else if f.second_meta_fails
      then record { dir = d'; state = s'; error = some SessionError.io }
      else record { dir = record d' { meta_file = some s'.meta }; state = s'; error = none }

  -- `record_event` after the line is in the log.
  unfoldable pub after_append : ℕ → Faults json → Dir json → SessionState J → Step json
  after_append every f d s =
      if f.meta_fails
      then record { dir = d; state = s; error = some SessionError.io }
      else (let d' = record d { meta_file = some s.meta } in
          if leb every (s.meta.last_seq - s.meta.last_snapshot_seq)
          then checkpoint f d' s
          else record { dir = d'; state = s; error = none })

  unfoldable pub next_line : SessionState J → ℕ → SessionEvent J → SessionEventLine J
  next_line s ts event = record {
    schema_version = session_schema_version;
    seq = s.meta.last_seq + 1;
    ts_ms = ts;
    event = event;
  }

  -- `record_event`; `ts` and `now` are the readings of the clock.
  unfoldable pub record_event :
      ℕ → Faults json → ℕ → Text → Dir json → SessionState J → SessionEvent J → Step json
  unfolding append_event_line next_line
  record_event every f ts now d s event =
      let s0 = set_schema s in
      let raw = event_to (next_line s0 ts event) in
      elim f.append [
        | Append.failed ↦ record { dir = d; state = s0; error = some SessionError.io }
        | Append.torn t ↦ record {
          dir = append_event_line json d t false;
          state = s0;
          error = some SessionError.io;
        }
        | Append.written ↦
            after_append every f (append_event_line json d raw true)
              (apply_event now s0 event ts (s0.meta.last_seq + 1))
      ]
