-- ===== src/Session/Store/Recover.antt =====
-- What has been recorded is found again: crates/kiliax-core/src/session.rs, `record_event` and
-- `load`.
use kiliax.Prelude.{
  ℕ, ◌+◌, ◌≤◌, ◌<◌, ◌≡◌, refl, ap, sym, ◌∙◌, Bool, true, List, [], ◌∷◌, ◌++◌, Option, some, map,
  length, All, All-append, arith, leb, le→leb, if◌then◌else◌, Bool-cases, inl, inr, max,
}
use kiliax.Text.{Text}
use kiliax.Session.State.{
  SessionMeta, SessionEvent, SessionEventLine, SessionState, SessionSnapshot,
}
use kiliax.Session.Apply.{apply_event}
use kiliax.Session.Ids.{IsConsistent, apply_event-IsConsistent, apply_event-last_seq}
use kiliax.Session.Store.Disk.{Json, ok, Dir, Faults, append_raw, append_event_line}
use kiliax.Session.Store.Record.{set_schema, snapshot_of, checkpointed, checkpoint, next_line}
use kiliax.Session.Store.Load.{Verdict, state_of, verdict, replay}
use kiliax.Session.Store.Settle.{settle, settle-apply_event}

module _ {J : Type 0} where
  -- The state after the lines of a log above a number.
  abbrev pub replay_all :
      (ℕ → Text) → ℕ → List (SessionEventLine J) → SessionState J → SessionState J
  replay_all clock n [] s = s
  replay_all clock n (l ∷ ls) s =
      replay_all clock n ls
        (if leb l.seq n then s else apply_event (clock l.seq) s l.event l.ts_ms l.seq)

  apply_event-settled :
      (now later : Text) (s t : SessionState J) (e : SessionEvent J) (ts seq : ℕ)
      → settle s ≡ settle t
      → settle (apply_event now s e ts seq) ≡ settle (apply_event later t e ts seq)
  apply_event-settled now later s t e ts seq h =
      settle-apply_event now s e ts seq
      ∙ (ap (λ u. settle (apply_event [] u e ts seq)) h ∙ sym (settle-apply_event later t e ts seq))

  replay_all-append :
      (clock : ℕ → Text) (n : ℕ) (ls : List (SessionEventLine J)) (l : SessionEventLine J)
      (s : SessionState J)
      → n < l.seq
      → replay_all clock n (ls ++ l ∷ []) s
        ≡ apply_event (clock l.seq) (replay_all clock n ls s) l.event l.ts_ms l.seq
  replay_all-append clock n [] l s h = ground arith
  replay_all-append clock n (k ∷ ls) l s h = replay_all-append clock n ls l _ h

  -- Lines up to the number are passed over.
  pub replay_all-none :
      (clock : ℕ → Text) (n : ℕ) (ls : List (SessionEventLine J)) (s : SessionState J)
      → All (λ l. l.seq ≤ n) ls
      → replay_all clock n ls s ≡ s
  replay_all-none clock n [] s h = refl
  replay_all-none clock n (l ∷ ls) s h = rw (le→leb l.seq n h.0) (replay_all-none clock n ls s h.1)

module _ {J : Type 0} (json : Json J) where
  open json use {Raw, event_to, event_from, is_blank-event_to, event_from-event_to}

  abbrev pub on_disk : List (SessionEventLine J) → List (Raw × Bool)
  on_disk = map (λ l. (event_to l, true))

  pub append_raw-on_disk :
      (ls : List (SessionEventLine J)) (l : SessionEventLine J)
      → append_raw json (on_disk ls) (event_to l) true ≡ on_disk (ls ++ l ∷ [])
  unfolding append_raw
  append_raw-on_disk [] l = refl
  append_raw-on_disk (k ∷ []) l = refl
  append_raw-on_disk (k ∷ k' ∷ ls) l = ap (◌∷◌ (event_to k, true)) (append_raw-on_disk (k' ∷ ls) l)

  pub verdict-event_to :
      (n : ℕ) (l : SessionEventLine J)
      → l.schema_version ≤ 4
      → verdict json n (event_to l) true ≡ (if leb l.seq n then Verdict.skip else Verdict.apply l)
  unfolding verdict
  verdict-event_to n l h = rw (is_blank-event_to l, event_from-event_to l) (ground arith)

  -- A log of whole lines with a known schema is replayed as the events that were written: those with
  -- a number above `n` are applied in order, on any state.
  pub replay-on_disk :
      (clock : ℕ → Text) (n : ℕ) (ls : List (SessionEventLine J)) (s : SessionState J)
      → All (λ l. l.schema_version ≤ 4) ls
      → replay json clock n (on_disk ls) s ≡ ok (replay_all clock n ls s)
  unfolding replay
  replay-on_disk clock n [] s h = refl
  replay-on_disk clock n (l ∷ ls) s h = elim (Bool-cases (leb l.seq n)) [
    | inl old ↦ rw (verdict-event_to n l h.0, old, replay) (replay-on_disk clock n ls s h.1)
    | inr new ↦
        rw (verdict-event_to n l h.0, new, replay)
          (replay-on_disk clock n ls (apply_event (clock l.seq) s l.event l.ts_ms l.seq) h.1)
  ]

  -- The directory `d` holds all of the session `s`.
  pub record Durable (d : Dir json) (s : SessionState J) : Type 0 where
    pub lines : List (SessionEventLine J)
    pub snapshot : SessionSnapshot J
    pub logged : d.log ≡ some (on_disk lines)
    pub saved : d.snapshot_file ≡ some (json.snapshot_to snapshot)
    pub snapshot_schema : snapshot.schema_version ≤ 4
    pub snapshot_paired : length snapshot.message_ids ≡ length snapshot.messages
    pub line_schemas : All (λ l. l.schema_version ≤ 4) lines
    pub numbered : All (λ l. l.seq ≤ s.meta.last_seq) lines
    pub behind : snapshot.meta.last_snapshot_seq ≤ s.meta.last_seq
    pub consistent : IsConsistent s
    pub replayed :
        (clock : ℕ → Text)
        → settle (replay_all clock snapshot.meta.last_snapshot_seq lines (state_of snapshot))
          ≡ settle s

  seqs_mono :
      (k n : ℕ) (ls : List (SessionEventLine J))
      → k ≤ n
      → All (λ l. l.seq ≤ k) ls
      → All (λ l. l.seq ≤ n) ls
  seqs_mono k n [] le h = tt
  seqs_mono k n (l ∷ ls) le h = (omega arith, seqs_mono k n ls le h.1)

  pub set_schema-Durable :
      (d : Dir json) (s : SessionState J) → Durable d s → Durable d (set_schema s)
  unfolding set_schema
  set_schema-Durable d s h = record {
    lines = h.lines;
    snapshot = h.snapshot;
    logged = h.logged;
    saved = h.saved;
    snapshot_schema = h.snapshot_schema;
    snapshot_paired = h.snapshot_paired;
    line_schemas = h.line_schemas;
    numbered = h.numbered;
    behind = h.behind;
    consistent = record {
      paired = h.consistent.paired;
      counted = h.consistent.counted;
      rising = h.consistent.rising;
    };
    replayed = h.replayed;
  }

  pub meta_file-Durable :
      (d : Dir json) (s : SessionState J) (m : Option SessionMeta)
      → Durable d s
      → Durable (record d { meta_file = m }) s
  meta_file-Durable d s m h = record {
    lines = h.lines;
    snapshot = h.snapshot;
    logged = h.logged;
    saved = h.saved;
    snapshot_schema = h.snapshot_schema;
    snapshot_paired = h.snapshot_paired;
    line_schemas = h.line_schemas;
    numbered = h.numbered;
    behind = h.behind;
    consistent = h.consistent;
    replayed = h.replayed;
  }

  -- A line that is in the log counts, whatever happens next.
  pub append-Durable :
      (now : Text) (ts : ℕ) (e : SessionEvent J) (d : Dir json) (s : SessionState J)
      → Durable d s
      → Durable
          (append_event_line json d (event_to (next_line json s ts e)) true)
          (apply_event now s e ts (s.meta.last_seq + 1))
  unfolding append_event_line next_line
  append-Durable now ts e d s h = record {
    lines = h.lines ++ l ∷ [];
    snapshot = h.snapshot;
    logged = rw (h.logged, append_raw-on_disk h.lines l);
    saved = h.saved;
    snapshot_schema = h.snapshot_schema;
    snapshot_paired = h.snapshot_paired;
    line_schemas =
        All-append (λ k. k.schema_version ≤ 4) h.lines _ h.line_schemas (omega arith, tt);
    numbered =
        All-append (λ k. k.seq ≤ (apply_event now s e ts (s.meta.last_seq + 1)).meta.last_seq)
          h.lines _ (seqs_mono s.meta.last_seq _ h.lines (omega (arith, grown)) h.numbered)
          (omega (arith, grown), tt);
    behind = omega (arith, grown, h.behind);
    consistent =
        apply_event-IsConsistent now s e ts (s.meta.last_seq + 1) h.consistent (omega arith);
    replayed = λ clock.
        rw
          (replay_all-append clock h.snapshot.meta.last_snapshot_seq h.lines l (state_of h.snapshot)
            above)
          (apply_event-settled _ now _ s e ts (s.meta.last_seq + 1) (h.replayed clock));
  }
    where
      l : SessionEventLine J
      l = record { schema_version = 4; seq = s.meta.last_seq + 1; ts_ms = ts; event = e }

      grown :
          (apply_event now s e ts (s.meta.last_seq + 1)).meta.last_seq
          ≡ max s.meta.last_seq (s.meta.last_seq + 1)
      grown = apply_event-last_seq now s e ts (s.meta.last_seq + 1)

      above : h.snapshot.meta.last_snapshot_seq < s.meta.last_seq + 1
      above = omega (arith, h.behind)

  checkpointed-Durable :
      (d : Dir json) (s : SessionState J) → Durable d s → Durable d (checkpointed json s)
  unfolding checkpointed
  checkpointed-Durable d s h = record {
    lines = h.lines;
    snapshot = h.snapshot;
    logged = h.logged;
    saved = h.saved;
    snapshot_schema = h.snapshot_schema;
    snapshot_paired = h.snapshot_paired;
    line_schemas = h.line_schemas;
    numbered = h.numbered;
    behind = h.behind;
    consistent = record {
      paired = h.consistent.paired;
      counted = h.consistent.counted;
      rising = h.consistent.rising;
    };
    replayed = h.replayed;
  }

  -- A fresh snapshot covers the whole log.
  snapshot-Durable :
      (d : Dir json) (s : SessionState J)
      → Durable d s
      → Durable
          (record d {
            snapshot_file = some (json.snapshot_to (snapshot_of json (checkpointed json s)));
          })
          (checkpointed json s)
  unfolding checkpointed snapshot_of state_of
  snapshot-Durable d s h = record {
    lines = h.lines;
    snapshot = snapshot_of json (checkpointed json s);
    logged = h.logged;
    saved = refl;
    snapshot_schema = omega arith;
    snapshot_paired = sym h.consistent.paired;
    line_schemas = h.line_schemas;
    numbered = h.numbered;
    behind = omega arith;
    consistent = record {
      paired = h.consistent.paired;
      counted = h.consistent.counted;
      rising = h.consistent.rising;
    };
    replayed = λ clock. ap settle (
        replay_all-none clock s.meta.last_seq h.lines
          (state_of (snapshot_of json (checkpointed json s))) h.numbered);
  }

  pub checkpoint-Durable :
      (f : Faults json) (d : Dir json) (s : SessionState J)
      → Durable d s
      → let st = checkpoint json f d s in Durable st.dir st.state
  unfolding checkpoint
  checkpoint-Durable f d s h = elim (Bool-cases f.snapshot_fails) [
    | inl e ↦ rw e (checkpointed-Durable d s h)
    | inr e ↦ elim (Bool-cases f.second_meta_fails) [
      | inl g ↦ rw (e, g) (snapshot-Durable d s h)
      | inr g ↦ rw (e, g) (meta_file-Durable _ (checkpointed json s) _ (snapshot-Durable d s h))
    ]
  ]
