-- ===== src/Session/Store/Torn.antt =====
-- A line that a write has left in part: crates/kiliax-core/src/session.rs reads over it at the end of
-- the log, and the next line continues it.
use mathlib.Core.Option
use kiliax.Prelude.{
  ℕ, ◌≡◌, ◌≢◌, ◌⊎◌, refl, ap, ◌∙◌, Bool, true, false, List, [], ◌∷◌, ◌++◌, none, some, All, length,
  leb, ◌==◌, Option-cases, Bool-cases, inl, inr, arith, ◌≤◌,
}
use kiliax.Text.{Text}
use kiliax.Session.State.{
  SessionEvent, SessionEventLine, SessionState, SessionSnapshot, SessionError,
}
use kiliax.Session.Apply.{apply_event}
use kiliax.Session.Store.Disk.{
  Json, Result, ok, err, Append, Dir, Faults, append_raw, append_event_line,
}
use kiliax.Session.Store.Record.{set_schema, after_append, checkpoint, next_line, record_event}
use kiliax.Session.Store.Load.{
  Env, verdict, state_of, parse_session_id, read_snapshot, replay, replay_events_after_snapshot,
  resume, rebuild, recover, load, emptied,
}
use kiliax.Session.Store.Recover.{Durable, on_disk, replay_all, verdict-event_to}

Result-cases :
    {A : Type 0} (r : Result A) → ((a : A) × (r ≡ ok a)) ⊎ ((e : SessionError) × (r ≡ err e))
Result-cases (ok a) = inl (a, refl)
Result-cases (err e) = inr (e, refl)

ok-ne-err : {A : Type 0} (a : A) (e : SessionError) (r : Result A) → r ≡ err e → r ≢ ok a
ok-ne-err a e r p q = cc

module _ {J : Type 0} (json : Json J) where
  open json use {Raw, is_blank, glue, event_to, event_from}

  -- A line in the middle of the log that does not parse.
  pub record Jammed (d : Dir json) : Type 0 where
    pub before : List (SessionEventLine J)
    pub line : Raw
    pub after : List (Raw × Bool)
    pub logged : d.log ≡ some (on_disk json before ++ (line, true) ∷ after)
    pub line_schemas : All (λ l. l.schema_version ≤ 4) before
    pub not_blank : is_blank line ≡ false
    pub unreadable : event_from line ≡ none

  replay-append :
      (clock : ℕ → Text) (n : ℕ) (ls : List (SessionEventLine J)) (tail : List (Raw × Bool))
      (s : SessionState J)
      → All (λ l. l.schema_version ≤ 4) ls
      → replay json clock n (on_disk json ls ++ tail) s
        ≡ replay json clock n tail (replay_all clock n ls s)
  unfolding replay
  replay-append clock n [] tail s h = refl
  replay-append clock n (l ∷ ls) tail s h = elim (Bool-cases (leb l.seq n)) [
    | inl old ↦
        rw (verdict-event_to json n l h.0, old, replay) (replay-append clock n ls tail s h.1)
    | inr new ↦
        rw (verdict-event_to json n l h.0, new, replay)
          (replay-append clock n ls tail (apply_event (clock l.seq) s l.event l.ts_ms l.seq) h.1)
  ]

  replay-Jammed :
      (clock : ℕ → Text) (d : Dir json) (s : SessionState J)
      → Jammed d
      → replay_events_after_snapshot json clock d s ≡ err SessionError.deserialize
  unfolding replay_events_after_snapshot replay verdict
  replay-Jammed clock d s j = simp (
    j.logged,
    replay-append clock s.meta.last_snapshot_seq j.before ((j.line, true) ∷ j.after) s
        j.line_schemas,
    replay,
    j.not_blank,
    j.unreadable,
    verdict,
  )

  recover-Jammed :
      (env : Env json) (d : Dir json) (sn : SessionSnapshot J)
      → Jammed d
      → recover json env d sn ≡ err SessionError.deserialize
  unfolding recover resume rebuild
  recover-Jammed env d sn j = elim (Bool-cases (length sn.message_ids == length sn.messages)) [
    | inl e ↦ simp (e, replay-Jammed env.clock d (state_of sn) j)
    | inr e ↦ simp (e, replay-Jammed env.clock d (emptied json (state_of sn)) j)
  ]

  -- A session is not loaded while its log is jammed: a complete line of it, which is not blank and
  -- stands after readable lines, does not parse.
  pub load-Jammed :
      (env : Env json) (d : Dir json) (id : Text) (r : Dir json × SessionState J)
      → Jammed d
      → load json env d id ≢ ok r
  unfolding load
  load-Jammed env d id r j = elim (Option-cases (parse_session_id id)) [
    | inl e ↦ ok-ne-err r SessionError.invalid_id _ (rw (e, load))
    | inr (t, e) ↦ elim (Result-cases (read_snapshot json d)) [
      | inl (sn, f) ↦
          ok-ne-err r SessionError.deserialize _ (simp (e, f, load) (recover-Jammed env d sn j))
      | inr (x, f) ↦ ok-ne-err r x _ (simp (e, f, load))
    ]
  ]

  append-Jammed :
      (before : List (Raw × Bool)) (line : Raw) (after : List (Raw × Bool)) (raw : Raw) (nl : Bool)
      → (rest : List (Raw × Bool)) × (append_raw json (before ++ (line, true) ∷ after) raw nl
          ≡ before ++ (line, true) ∷ rest)
  unfolding append_raw
  append-Jammed [] line [] raw nl = ((raw, nl) ∷ [], refl)
  append-Jammed [] line (x ∷ after) raw nl = (append_raw json (x ∷ after) raw nl, refl)
  append-Jammed (b ∷ []) line after raw nl =
      let (rest, e) = append-Jammed [] line after raw nl in (rest, ap (◌∷◌ b) e)
  append-Jammed (b ∷ c ∷ before) line after raw nl =
      let (rest, e) = append-Jammed (c ∷ before) line after raw nl in (rest, ap (◌∷◌ b) e)

  append-torn :
      (before : List (Raw × Bool)) (t raw : Raw) (nl : Bool)
      → append_raw json (before ++ (t, false) ∷ []) raw nl ≡ before ++ (glue t raw, nl) ∷ []
  unfolding append_raw
  append-torn [] t raw nl = refl
  append-torn (b ∷ []) t raw nl = refl
  append-torn (b ∷ c ∷ before) t raw nl = ap (◌∷◌ b) (append-torn (c ∷ before) t raw nl)

  append-whole :
      (ls : List (SessionEventLine J)) (t : Raw) (nl : Bool)
      → append_raw json (on_disk json ls) t nl ≡ on_disk json ls ++ (t, nl) ∷ []
  unfolding append_raw
  append-whole [] t nl = refl
  append-whole (l ∷ []) t nl = refl
  append-whole (l ∷ k ∷ ls) t nl = ap (◌∷◌ (event_to l, true)) (append-whole (k ∷ ls) t nl)

  checkpoint-log :
      (f : Faults json) (d : Dir json) (s : SessionState J)
      → (checkpoint json f d s).dir.log ≡ d.log
  unfolding checkpoint
  checkpoint-log f d s = ground arith

  after_append-log :
      (every : ℕ) (f : Faults json) (d : Dir json) (s : SessionState J)
      → (after_append json every f d s).dir.log ≡ d.log
  unfolding after_append
  after_append-log every f d s =
      ground (arith, checkpoint-log f (record d { meta_file = some s.meta }) s)

  -- What recording does to the log.
  record_event-log :
      (every : ℕ) (f : Faults json) (ts : ℕ) (now : Text) (d : Dir json) (s : SessionState J)
      (e : SessionEvent J)
      → f.append ≡ Append.written
      → (record_event json every f ts now d s e).dir.log
        ≡ some (
            append_raw json
              (Option.get_or d.log [])
              (event_to (next_line json (set_schema s) ts e))
              true)
  unfolding record_event append_event_line
  record_event-log every f ts now d s e w = simp (w, record_event) (after_append-log every f _ _)

  torn_event-log :
      (every : ℕ) (f : Faults json) (ts : ℕ) (now : Text) (d : Dir json) (s : SessionState J)
      (e : SessionEvent J) (t : Raw)
      → f.append ≡ Append.torn t
      → (record_event json every f ts now d s e).dir.log
        ≡ some (append_raw json (Option.get_or d.log []) t false)
  unfolding record_event append_event_line
  torn_event-log every f ts now d s e t w = simp (w, record_event)

  -- The two texts stand on one line.
  pub record_after_torn-Jammed :
      (every : ℕ) (f g : Faults json) (ts ts' : ℕ) (now now' : Text) (d : Dir json)
      (s s' : SessionState J) (e e' : SessionEvent J) (t : Raw)
      → Durable json d s
      → f.append ≡ Append.torn t
      → g.append ≡ Append.written
      → is_blank (glue t (event_to (next_line json (set_schema s') ts' e'))) ≡ false
      → event_from (glue t (event_to (next_line json (set_schema s') ts' e'))) ≡ none
      → Jammed
          (record_event json every g ts' now'
            (record_event json every f ts now d s e).dir
            s'
            e').dir
  record_after_torn-Jammed every f g ts ts' now now' d s s' e e' t h torn written nb un = record {
    before = h.lines;
    line = glue t (event_to (next_line json (set_schema s') ts' e'));
    after = [];
    logged =
        record_event-log every g ts' now' (record_event json every f ts now d s e).dir s' e' written
        ∙ simp (
          torn_event-log every f ts now d s e t torn,
          h.logged,
          append-whole h.lines t false,
          append-torn (on_disk json h.lines) t,
        );
    line_schemas = h.line_schemas;
    not_blank = nb;
    unreadable = un;
  }

  -- A jammed log stays jammed when a later event is recorded, whose line is written as a whole.
  pub record_event-Jammed :
      (every : ℕ) (g : Faults json) (ts : ℕ) (now : Text) (d : Dir json) (s : SessionState J)
      (e : SessionEvent J)
      → g.append ≡ Append.written
      → Jammed d
      → Jammed (record_event json every g ts now d s e).dir
  record_event-Jammed every g ts now d s e w j =
      let (rest, q) =
        append-Jammed (on_disk json j.before) j.line j.after
          (event_to (next_line json (set_schema s) ts e)) true in
      record {
        before = j.before;
        line = j.line;
        after = rest;
        logged = record_event-log every g ts now d s e w ∙ simp (j.logged, q);
        line_schemas = j.line_schemas;
        not_blank = j.not_blank;
        unreadable = j.unreadable;
      }

  -- When the write of a line stops in the middle, and a later event is recorded without a fault, the
  -- session is not loaded any more, where the part that was written and the later line do not parse as
  -- one line, which is not blank; nor is it loaded after one event more, whose line is written whole.
  pub load-after_torn :
      (every : ℕ) (f g h : Faults json) (ts ts' ts'' : ℕ) (now now' now'' : Text) (d : Dir json)
      (s s' s'' : SessionState J) (e e' e'' : SessionEvent J) (t : Raw)
      → Durable json d s
      → f.append ≡ Append.torn t
      → g.append ≡ Append.written
      → h.append ≡ Append.written
      → is_blank (glue t (event_to (next_line json (set_schema s') ts' e'))) ≡ false
      → event_from (glue t (event_to (next_line json (set_schema s') ts' e'))) ≡ none
      → (env : Env json) (id : Text) (r : Dir json × SessionState J)
      → let later : Dir json =
          (record_event json every g ts' now'
            (record_event json every f ts now d s e).dir
            s'
            e').dir in
        (load json env later id ≢ ok r)
        × (load json env (record_event json every h ts'' now'' later s'' e'').dir id ≢ ok r)
  load-after_torn every f g h ts ts' ts'' now now' now'' d s s' s'' e e' e'' t u torn w w' nb un env
        id r =
      let j = record_after_torn-Jammed every f g ts ts' now now' d s s' e e' t u torn w nb un in
      (
        load-Jammed env _ id r j,
        load-Jammed env _ id r (record_event-Jammed every h ts'' now'' _ s'' e'' w' j),
      )
