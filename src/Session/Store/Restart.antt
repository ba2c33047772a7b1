-- ===== src/Session/Store/Restart.antt =====
-- A restart between two calls, or in the middle of one: crates/kiliax-core/src/session.rs.
use kiliax.Prelude.{
  ℕ, ◌-◌, ◌≤◌, ◌≡◌, refl, ap, ◌∙◌, true, false, some, length, arith, ltb, leb, ◌==◌, ==_iff,
  Bool-cases, inl, inr,
}
use kiliax.Text.{Text}
use kiliax.Session.State.{SessionEvent, SessionState, SessionSnapshot}
use kiliax.Session.Store.Disk.{Json, ok, Append, Dir, Faults}
use kiliax.Session.Store.Record.{set_schema, after_append, record_event}
use kiliax.Session.Store.Load.{
  Env, state_of, parse_session_id, read_snapshot, replay_events_after_snapshot, ensure_key,
  ensure_project_prompt, resume, recover, load,
}
use kiliax.Session.Store.Settle.{settle}
use kiliax.Session.Store.Recover.{
  Durable, replay_all, replay-on_disk, append-Durable, checkpoint-Durable, meta_file-Durable,
  set_schema-Durable,
}

module _ {J : Type 0} (json : Json J) where
  open json use {Raw, event_to, event_from, is_blank, glue}

  -- The write of the line happens as a whole or not at all.
  abbrev pub IsWhole : Append Raw → Type 0
  IsWhole Append.written = Unit
  IsWhole Append.failed = Unit
  IsWhole (Append.torn t) = ⊥

  after_append-Durable :
      (every : ℕ) (f : Faults json) (d : Dir json) (s : SessionState J)
      → Durable json d s
      → let st = after_append json every f d s in Durable json st.dir st.state
  unfolding after_append
  after_append-Durable every f d s h = elim (Bool-cases f.meta_fails) [
    | inl e ↦ simp e h
    | inr e ↦ elim (Bool-cases (leb every (s.meta.last_seq - s.meta.last_snapshot_seq))) [
      | inl due ↦ simp (e, due) (checkpoint-Durable json f _ s (meta_file-Durable json d s _ h))
      | inr early ↦ simp (e, early) (meta_file-Durable json d s _ h)
    ]
  ]

  record_with :
      (a : Append Raw) (every : ℕ) (f : Faults json) (ts : ℕ) (now : Text) (d : Dir json)
      (s : SessionState J) (e : SessionEvent J)
      → f.append ≡ a
      → IsWhole a
      → Durable json d s
      → let st = record_event json every f ts now d s e in Durable json st.dir st.state
  unfolding record_event
  record_with Append.written every f ts now d s e p w h =
      rw (p, record_event)
        (after_append-Durable every f _ _
          (append-Durable json now ts e d (set_schema s) (set_schema-Durable json d s h)))
  record_with Append.failed every f ts now d s e p w h =
      rw (p, record_event) (set_schema-Durable json d s h)
  record_with (Append.torn t) every f ts now d s e p w h = absurd w

  -- Recording an event keeps the directory and the state in memory in step, whichever of its writes
  -- fail, as long as the line of the log is written as a whole or not at all.
  pub record_event-Durable :
      (every : ℕ) (f : Faults json) (ts : ℕ) (now : Text) (d : Dir json) (s : SessionState J)
      (e : SessionEvent J)
      → IsWhole f.append
      → Durable json d s
      → let st = record_event json every f ts now d s e in Durable json st.dir st.state
  record_event-Durable every f ts now d s e w h = record_with f.append every f ts now d s e refl w h

  pub ensured :
      (env : Env json) (d : Dir json) (t : SessionState J) (k p : Text)
      → t.meta.prompt_cache_key ≡ some k
      → t.meta.project_prompt ≡ some p
      → ensure_project_prompt json env (ensure_key json env d t).0 (ensure_key json env d t).1
        ≡ ok (d, t)
  unfolding ensure_key ensure_project_prompt
  ensured env d t k p hk hp = simp (hk, hp, ensure_key, ensure_project_prompt)

  pub read_snapshot-saved :
      (d : Dir json) (sn : SessionSnapshot J)
      → d.snapshot_file ≡ some (json.snapshot_to sn)
      → sn.schema_version ≤ 4
      → read_snapshot json d ≡ ok sn
  unfolding read_snapshot
  read_snapshot-saved d sn e le =
      let new : ltb 4 sn.schema_version ≡ false = ground arith in
      simp (e, json.snapshot_from-snapshot_to sn, new, read_snapshot)

  resume-Durable :
      (env : Env json) (d : Dir json) (s : SessionState J) (h : Durable json d s) (k p : Text)
      → let t =
          replay_all env.clock h.snapshot.meta.last_snapshot_seq h.lines (state_of h.snapshot) in
        t.meta.prompt_cache_key ≡ some k
        → t.meta.project_prompt ≡ some p
        → resume json env d (state_of h.snapshot) ≡ ok (d, t)
  unfolding resume replay_events_after_snapshot state_of
  resume-Durable env d s h k p hk hp =
      simp
        (
          h.logged,
          replay-on_disk json env.clock h.snapshot.meta.last_snapshot_seq h.lines
              (state_of h.snapshot) h.line_schemas,
        )
        (ensured env d
          (replay_all env.clock h.snapshot.meta.last_snapshot_seq h.lines (state_of h.snapshot)) k p
          hk hp)

  -- A session that the directory holds is loaded again as it was in memory, but for the moment of
  -- the goal's last update, the place of the last snapshot and the schema version, which becomes the
  -- current one; `id` is any valid id, and the session has its cache key and its project prompt.
  pub load-Durable :
      (env : Env json) (d : Dir json) (s : SessionState J) (id valid k p : Text)
      → Durable json d s
      → parse_session_id id ≡ some valid
      → s.meta.prompt_cache_key ≡ some k
      → s.meta.project_prompt ≡ some p
      → (t : SessionState J) × (load json env d id ≡ ok (d, t)) × (settle t ≡ settle s)
  unfolding load recover
  load-Durable env d s id valid k p h hid hk hp = (t, loaded, h.replayed env.clock)
    where
      t : SessionState J
      t = replay_all env.clock h.snapshot.meta.last_snapshot_seq h.lines (state_of h.snapshot)

      same : settle t ≡ settle s
      same = h.replayed env.clock

      paired : (length h.snapshot.message_ids == length h.snapshot.messages) ≡ true
      paired = (==_iff _ _).1 h.snapshot_paired

      loaded : load json env d id ≡ ok (d, t)
      loaded =
          simp (hid, read_snapshot-saved d h.snapshot h.saved h.snapshot_schema, paired, load)
            (resume-Durable env d s h k p (ap (λ u. u.meta.prompt_cache_key) same ∙ hk)
              (ap (λ u. u.meta.project_prompt) same ∙ hp))
