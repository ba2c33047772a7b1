-- ===== src/Session/Entries.antt =====
-- The abstract view of a session: its messages as a list of entries, each under its number. Events
-- are list operations on it, and `apply_event` of crates/kiliax-core/src/session.rs implements them
-- on two vectors and positions.
use kiliax.Prelude.{
  ℕ, zero, suc, ◌≤◌, ◌<◌, ◌≡◌, refl, ap, true, false, List, [], ◌∷◌, ◌++◌, none, some, map, set,
  take, arith, ◌==◌, leb, if◌then◌else◌, Option-cases, inl, inr, any, retain, ◌∙◌, map-append,
}
use kiliax.Text.{Text}
use kiliax.Protocol.{Message}
use kiliax.Session.State.{SessionState, SessionEvent, SessionMessageEntry}
use kiliax.Session.Apply.{
  position, push_message, edit_message, truncate_after, touch, dispatch, apply_event, edit_at,
  truncate_at,
}
use kiliax.Session.Ids.{Rises, IsConsistent}

module _ {J : Type 0} where
  abbrev pub numbers : List (SessionMessageEntry J) → List ℕ
  numbers = map (λ e. e.seq)

  abbrev pub bodies : List (SessionMessageEntry J) → List (Message J)
  bodies = map (λ e. e.message)

  -- The entry `id` gets a new message.
  abbrev pub edit_entry :
      ℕ → Message J → List (SessionMessageEntry J) → List (SessionMessageEntry J)
  edit_entry id m [] = []
  edit_entry id m (e ∷ es) =
      (if e.seq == id then record e { message = m } else e) ∷ edit_entry id m es

  -- Entries above `id` go, if there is an entry `id`.
  abbrev pub truncate_entries : ℕ → List (SessionMessageEntry J) → List (SessionMessageEntry J)
  truncate_entries id es = if any (λ e. e.seq == id) es then retain (λ e. leb e.seq id) es else es

  unfoldable pub entries_after :
      List (SessionMessageEntry J) → SessionEvent J → ℕ → ℕ → List (SessionMessageEntry J)
  entries_after es (SessionEvent.message m) ts seq =
      es ++ record { seq = seq; ts_ms = ts; message = m } ∷ []
  entries_after es (SessionEvent.message_edit id m) ts seq = edit_entry id m es
  entries_after es (SessionEvent.truncate_after id) ts seq = truncate_entries id es
  entries_after es _ ts seq = es

  -- The state holds the messages of the entries, under their numbers.
  pub record Shows (s : SessionState J) (es : List (SessionMessageEntry J)) : Type 0 where
    pub ids : s.message_ids ≡ numbers es
    pub messages : s.messages ≡ bodies es

  -- Numbers above `lo` are not `id`, for `id ≤ lo`.
  edit_entry-above :
      (id lo hi : ℕ) (m : Message J) (es : List (SessionMessageEntry J))
      → Rises lo (numbers es) hi
      → id ≤ lo
      → edit_entry id m es ≡ es
  edit_entry-above id lo hi m [] h le = refl
  edit_entry-above id lo hi m (e ∷ es) h le = ground (arith, edit_entry-above id e.seq hi m es h.1)

  retain-above :
      (id lo hi : ℕ) (es : List (SessionMessageEntry J))
      → Rises lo (numbers es) hi
      → id ≤ lo
      → retain (λ e. leb e.seq id) es ≡ []
  retain-above id lo hi [] h le = refl
  retain-above id lo hi (e ∷ es) h le = ground (arith, retain-above id e.seq hi es h.1)

  edit_at-entries :
      (id lo hi : ℕ) (m : Message J) (es : List (SessionMessageEntry J)) (i : ℕ)
      → Rises lo (numbers es) hi
      → position id (numbers es) ≡ some i
      → (set (bodies es) i m ≡ bodies (edit_entry id m es))
        × (numbers es ≡ numbers (edit_entry id m es))
  unfolding position
  edit_at-entries id lo hi m [] i h p = cc
  edit_at-entries id lo hi m (e ∷ es) zero h p =
      ground (arith, edit_entry-above id e.seq hi m es h.1)
  edit_at-entries id lo hi m (e ∷ es) (suc i) h p =
      ground (arith, edit_at-entries id e.seq hi m es i h.1)

  edit-absent :
      (id : ℕ) (m : Message J) (es : List (SessionMessageEntry J))
      → position id (numbers es) ≡ none
      → edit_entry id m es ≡ es
  unfolding position
  edit-absent id m [] p = refl
  edit-absent id m (e ∷ es) p = ground (arith, edit-absent id m es)

  truncate-absent :
      (id : ℕ) (es : List (SessionMessageEntry J))
      → position id (numbers es) ≡ none
      → any (λ e. e.seq == id) es ≡ false
  unfolding position
  truncate-absent id [] p = refl
  truncate-absent id (e ∷ es) p = ground (arith, truncate-absent id es)

  truncate-present :
      (id lo hi : ℕ) (es : List (SessionMessageEntry J)) (i : ℕ)
      → Rises lo (numbers es) hi
      → position id (numbers es) ≡ some i
      → (any (λ e. e.seq == id) es ≡ true)
        × (take (suc i) es ≡ retain (λ e. leb e.seq id) es)
        × (lo < id)
  unfolding position
  truncate-present id lo hi [] i h p = cc
  truncate-present id lo hi (e ∷ es) zero h p = ground (arith, retain-above id e.seq hi es h.1)
  truncate-present id lo hi (e ∷ es) (suc i) h p =
      ground (arith, truncate-present id e.seq hi es i h.1)

  take-map {ℓ} :
      {B : Type ℓ} (f : SessionMessageEntry J → B) (n : ℕ) (es : List (SessionMessageEntry J))
      → take n (map f es) ≡ map f (take n es)
  take-map f zero es = refl
  take-map f (suc n) [] = refl
  take-map f (suc n) (e ∷ es) = ap (◌∷◌ (f e)) (take-map f n es)

  push-Shows :
      (s : SessionState J) (es : List (SessionMessageEntry J)) (m : Message J) (ts seq : ℕ)
      → Shows s es
      → Shows (push_message s m seq) (es ++ record { seq = seq; ts_ms = ts; message = m } ∷ [])
  unfolding push_message
  push-Shows s es m ts seq h = record {
    ids = rw (h.ids, map-append);
    messages = rw (h.messages, map-append);
  }

  edit-Shows :
      (s : SessionState J) (es : List (SessionMessageEntry J)) (id hi : ℕ) (m : Message J)
      → Shows s es
      → Rises 0 (numbers es) hi
      → Shows (edit_message s id m) (edit_entry id m es)
  unfolding edit_message edit_at
  edit-Shows s es id hi m h r = elim (Option-cases (position id (numbers es))) [
    | inl e ↦ rw (h.ids, e, edit_at, edit-absent id m es e) h
    | inr (i, e) ↦
        let (b, n) = edit_at-entries id 0 hi m es i r e in
        rw (h.ids, e, edit_at) (record { ids = h.ids ∙ n; messages = rw h.messages b })
  ]

  truncate-Shows :
      (s : SessionState J) (es : List (SessionMessageEntry J)) (id hi : ℕ)
      → Shows s es
      → Rises 0 (numbers es) hi
      → Shows (truncate_after s id) (truncate_entries id es)
  unfolding truncate_after truncate_at
  truncate-Shows s es id hi h r = elim (Option-cases (position id (numbers es))) [
    | inl e ↦ rw (h.ids, e, truncate_at, truncate-absent id es e) h
    | inr (i, e) ↦
        let (a, t, _) = truncate-present id 0 hi es i r e in
        rw (h.ids, e, truncate_at, a, ← t)
          (record { ids = rw (h.ids, take-map); messages = rw (h.messages, take-map) })
  ]

  -- `apply_event` on a consistent state does to the messages and their ids what the event does to
  -- the list of entries: a message is added with its number, an edit replaces the entry with its id,
  -- a truncation removes what follows the entry with its id, and no other event changes anything.
  pub apply_event-Shows :
      (now : Text) (s : SessionState J) (es : List (SessionMessageEntry J)) (e : SessionEvent J)
      (ts seq : ℕ)
      → IsConsistent s
      → Shows s es
      → Shows (apply_event now s e ts seq) (entries_after es e ts seq)
  unfolding apply_event dispatch touch entries_after
  apply_event-Shows now s es (SessionEvent.message m) ts seq c h =
      push-Shows (touch s ts seq) es m ts seq (record { ids = h.ids; messages = h.messages })
  apply_event-Shows now s es (SessionEvent.message_edit id m) ts seq c h =
      edit-Shows (touch s ts seq) es id s.meta.last_seq m
        (record { ids = h.ids; messages = h.messages }) (rw h.ids at c.rising)
  apply_event-Shows now s es (SessionEvent.truncate_after id) ts seq c h =
      truncate-Shows (touch s ts seq) es id s.meta.last_seq
        (record { ids = h.ids; messages = h.messages }) (rw h.ids at c.rising)
  apply_event-Shows now s es _ ts seq c h = record { ids = h.ids; messages = h.messages }
