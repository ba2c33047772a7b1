-- ===== src/Session/Page/Correct.antt =====
-- The page read backwards from the log is the page of the session's entries.
use mathlib.Core.List.{reverse, reverse-append}
use kiliax.Prelude.{
  ℕ, suc, ◌≤◌, ◌<◌, ◌≡◌, ◌≢◌, refl, Bool, true, false, not, ◌&&◌, ◌||◌, List, [], ◌∷◌, ◌++◌, Option,
  none, some, length, length-append, any, retain, arith, ltb, leb, ◌==◌, if◌then◌else◌, Bool-cases,
  Option-cases, inl, inr, append_assoc,
}
use kiliax.Protocol.{Message}
use kiliax.Session.State.{SessionEvent, SessionEventLine, SessionMessageEntry}
use kiliax.Session.Entries.{entries_after, edit_entry}
use kiliax.Session.Page.{
  Scan, is_deleted_by_later_truncate, lower_cutoff, is_display_message, lookup_edit, or_insert,
  remove_edit, collect, edited, handle_event,
}

module _ {J : Type 0} where
  -- The entries that a log leaves, given newest line first.
  abbrev pub entries_of : List (SessionEventLine J) → List (SessionMessageEntry J)
  entries_of [] = []
  entries_of (l ∷ ls) = entries_after (entries_of ls) l.event l.ts_ms l.seq

  -- The numbers fall along the lines, below `bound`, and a truncation names an entry that is there.
  abbrev pub Falls : ℕ → List (SessionEventLine J) → Type 0
  Falls bound [] = Unit
  Falls bound (l ∷ ls) = (l.seq < bound) × Falls l.seq ls

  abbrev pub targeted : List (SessionMessageEntry J) → SessionEvent J → Bool
  targeted es (SessionEvent.truncate_after id) = any (λ e. e.seq == id) es
  targeted es _ = true

  abbrev pub Targeted : List (SessionEventLine J) → Type 0
  Targeted [] = Unit
  Targeted (l ∷ ls) = (targeted (entries_of ls) l.event ≡ true) × Targeted ls

  abbrev pub AllBelow : ℕ → List (SessionMessageEntry J) → Type 0
  AllBelow k [] = Unit
  AllBelow k (e ∷ es) = (e.seq < k) × AllBelow k es

  AllBelow-mono :
      (k n : ℕ) (es : List (SessionMessageEntry J)) → k ≤ n → AllBelow k es → AllBelow n es
  AllBelow-mono k n [] h b = tt
  AllBelow-mono k n (e ∷ es) h b = (omega arith, AllBelow-mono k n es h b.1)

  AllBelow-append :
      (k : ℕ) (xs ys : List (SessionMessageEntry J))
      → AllBelow k xs
      → AllBelow k ys
      → AllBelow k (xs ++ ys)
  AllBelow-append k [] ys h g = g
  AllBelow-append k (x ∷ xs) ys h g = (h.0, AllBelow-append k xs ys h.1 g)

  AllBelow-edit :
      (k id : ℕ) (m : Message J) (es : List (SessionMessageEntry J))
      → AllBelow k es
      → AllBelow k (edit_entry id m es)
  AllBelow-edit k id m [] h = tt
  AllBelow-edit k id m (e ∷ es) h = ground (arith, AllBelow-edit k id m es h.1)

  AllBelow-retain :
      (k : ℕ) (p : SessionMessageEntry J → Bool) (es : List (SessionMessageEntry J))
      → AllBelow k es
      → AllBelow k (retain p es)
  AllBelow-retain k p [] h = tt
  AllBelow-retain k p (e ∷ es) h = ground (arith, AllBelow-retain k p es h.1)

  entries_after-AllBelow :
      (es : List (SessionMessageEntry J)) (e : SessionEvent J) (ts seq k : ℕ)
      → AllBelow seq es
      → seq < k
      → AllBelow k (entries_after es e ts seq)
  unfolding entries_after
  entries_after-AllBelow es (SessionEvent.message m) ts seq k b lt =
      AllBelow-append k es _ (AllBelow-mono seq k es (omega arith) b) (lt, tt)
  entries_after-AllBelow es (SessionEvent.message_edit id m) ts seq k b lt =
      AllBelow-edit k id m es (AllBelow-mono seq k es (omega arith) b)
  entries_after-AllBelow es (SessionEvent.truncate_after id) ts seq k b lt =
      elim (Bool-cases (any (λ e. e.seq == id) es)) [
        | inl h ↦
            rw h (AllBelow-retain k (λ e. leb e.seq id) es (AllBelow-mono seq k es (omega arith) b))
        | inr h ↦ rw h (AllBelow-mono seq k es (omega arith) b)
      ]
  entries_after-AllBelow es _ ts seq k b lt = AllBelow-mono seq k es (omega arith) b

  pub entries_of-AllBelow :
      (ls : List (SessionEventLine J)) (k : ℕ) → Falls k ls → AllBelow k (entries_of ls)
  entries_of-AllBelow [] k f = tt
  entries_of-AllBelow (l ∷ ls) k f =
      entries_after-AllBelow (entries_of ls) l.event l.ts_ms l.seq k
        (entries_of-AllBelow ls l.seq f.1) f.0

module _ {J : Type 0} (before : ℕ) where
  -- What the reader shows of an entry, after the lines that it has seen.
  abbrev pub seen :
      List (ℕ × Message J) → Option ℕ → List (SessionMessageEntry J) → List (SessionMessageEntry J)
  seen edits cutoff [] = []
  seen edits cutoff (e ∷ es) =
      let m = edited edits e.seq e.message in
      if not (leb before e.seq || is_deleted_by_later_truncate e.seq cutoff) && is_display_message m
      then record e { message = m } ∷ seen edits cutoff es
      else seen edits cutoff es

  seen-append :
      (edits : List (ℕ × Message J)) (cutoff : Option ℕ) (xs ys : List (SessionMessageEntry J))
      → seen edits cutoff (xs ++ ys) ≡ seen edits cutoff xs ++ seen edits cutoff ys
  seen-append edits cutoff [] ys = refl
  seen-append edits cutoff (x ∷ xs) ys = ground (arith, seen-append edits cutoff xs ys)

  lookup-or_insert :
      (id k : ℕ) (m : Message J) (edits : List (ℕ × Message J))
      → lookup_edit k (or_insert id m edits)
        ≡ elim (lookup_edit k edits) [ some n ↦ some n | none ↦ if id == k then some m else none ]
  unfolding or_insert lookup_edit
  lookup-or_insert id k m edits = elim (Option-cases (lookup_edit id edits)) [
    | inl e ↦ ground arith
    | inr (n, e) ↦ ground arith
  ]

  lookup-remove :
      (id k : ℕ) (edits : List (ℕ × Message J))
      → id ≢ k
      → lookup_edit k (remove_edit id edits) ≡ lookup_edit k edits
  unfolding remove_edit lookup_edit
  lookup-remove id k [] h = refl
  lookup-remove id k ((j, m) ∷ edits) h = ground (arith, lookup-remove id k edits h)

  seen-remove :
      (id : ℕ) (edits : List (ℕ × Message J)) (cutoff : Option ℕ)
      (es : List (SessionMessageEntry J))
      → AllBelow id es
      → seen (remove_edit id edits) cutoff es ≡ seen edits cutoff es
  unfolding edited
  seen-remove id edits cutoff [] b = refl
  seen-remove id edits cutoff (e ∷ es) b =
      rw (lookup-remove id e.seq edits (omega arith), seen-remove id edits cutoff es b.1)

  -- An edit of the entries is an edit that the reader remembers.
  seen-edit :
      (id : ℕ) (m : Message J) (edits : List (ℕ × Message J)) (cutoff : Option ℕ)
      (es : List (SessionMessageEntry J))
      → (ltb id before && not (is_deleted_by_later_truncate id cutoff)) ≡ true
      → seen edits cutoff (edit_entry id m es) ≡ seen (or_insert id m edits) cutoff es
  unfolding edited
  seen-edit id m edits cutoff [] h = refl
  seen-edit id m edits cutoff (e ∷ es) h =
      ground (arith, lookup-or_insert id e.seq m edits, seen-edit id m edits cutoff es)

  -- An edit that the reader ignores is of an entry that it does not show.
  seen-ignored :
      (id : ℕ) (m : Message J) (edits : List (ℕ × Message J)) (cutoff : Option ℕ)
      (es : List (SessionMessageEntry J))
      → (ltb id before && not (is_deleted_by_later_truncate id cutoff)) ≡ false
      → seen edits cutoff (edit_entry id m es) ≡ seen edits cutoff es
  unfolding edited is_deleted_by_later_truncate
  seen-ignored id m edits cutoff [] h = refl
  seen-ignored id m edits cutoff (e ∷ es) h = ground (arith, seen-ignored id m edits cutoff es)

  seen-truncate :
      (id : ℕ) (edits : List (ℕ × Message J)) (cutoff : Option ℕ)
      (es : List (SessionMessageEntry J))
      → seen edits cutoff (retain (λ e. leb e.seq id) es)
        ≡ seen edits (some (lower_cutoff id cutoff)) es
  unfolding is_deleted_by_later_truncate lower_cutoff
  seen-truncate id edits cutoff [] = refl
  seen-truncate id edits none (e ∷ es) = ground (arith, seen-truncate id edits none es)
  seen-truncate id edits (some c) (e ∷ es) = ground (arith, seen-truncate id edits (some c) es)

  -- The entries, newest first, behind what has been collected.
  abbrev pub answer : Scan J → List (SessionMessageEntry J) → List (SessionMessageEntry J)
  answer scan es = scan.collected ++ reverse (seen scan.latest_edits scan.cutoff es)

  seen-last :
      (edits : List (ℕ × Message J)) (cutoff : Option ℕ) (es : List (SessionMessageEntry J))
      (e : SessionMessageEntry J)
      → reverse (seen edits cutoff (es ++ e ∷ []))
        ≡ reverse (seen edits cutoff (e ∷ [])) ++ reverse (seen edits cutoff es)
  seen-last edits cutoff es e =
      rw (seen-append edits cutoff es (e ∷ []))
        (reverse-append (seen edits cutoff es) (seen edits cutoff (e ∷ [])))

  handle_message-answer :
      (limit : ℕ) (scan : Scan J) (es : List (SessionMessageEntry J)) (m : Message J) (seq ts : ℕ)
      → ltb limit (length scan.collected) ≡ false
      → AllBelow seq es
      → answer (handle_event before limit scan (SessionEvent.message m) seq ts) es
        ≡ answer scan (es ++ record { seq = seq; ts_ms = ts; message = m } ∷ [])
  unfolding handle_event collect
  handle_message-answer limit scan es m seq ts room b =
      rw
        (
          room,
          seen-last scan.latest_edits scan.cutoff es
              (record { seq = seq; ts_ms = ts; message = m }),
        )
        (elim (Bool-cases (leb before seq || is_deleted_by_later_truncate seq scan.cutoff)) [
          | inl gone ↦ rw gone
          | inr stays ↦ elim (Bool-cases (is_display_message (edited scan.latest_edits seq m))) [
            | inl shown ↦
                rw (stays, shown, seen-remove seq scan.latest_edits scan.cutoff es b)
                  (append_assoc scan.collected _ _)
            | inr hidden ↦ rw (stays, hidden, seen-remove seq scan.latest_edits scan.cutoff es b)
          ]
        ])

  pub handle-answer :
      (limit : ℕ) (scan : Scan J) (es : List (SessionMessageEntry J)) (e : SessionEvent J)
      (seq ts : ℕ)
      → ltb limit (length scan.collected) ≡ false
      → AllBelow seq es
      → targeted es e ≡ true
      → answer (handle_event before limit scan e seq ts) es
        ≡ answer scan (entries_after es e ts seq)
  unfolding handle_event entries_after
  handle-answer limit scan es (SessionEvent.message m) seq ts room b t =
      handle_message-answer limit scan es m seq ts room b
  handle-answer limit scan es (SessionEvent.message_edit id m) seq ts room b t =
      elim (Bool-cases (ltb id before && not (is_deleted_by_later_truncate id scan.cutoff))) [
        | inl kept ↦ rw (kept, seen-edit id m scan.latest_edits scan.cutoff es kept)
        | inr ignored ↦ rw (ignored, seen-ignored id m scan.latest_edits scan.cutoff es ignored)
      ]
  handle-answer limit scan es (SessionEvent.truncate_after id) seq ts room b t =
      rw (t, seen-truncate id scan.latest_edits scan.cutoff es)
  handle-answer limit scan es _ seq ts room b t = refl

  pub handle-room :
      (limit : ℕ) (scan : Scan J) (e : SessionEvent J) (seq ts : ℕ)
      → ltb limit (length scan.collected) ≡ false
      → length (handle_event before limit scan e seq ts).collected ≤ suc limit
  unfolding handle_event collect
  handle-room limit scan (SessionEvent.message m) seq ts room = ground (
    arith,
    length-append scan.collected
        (record { seq = seq; ts_ms = ts; message = edited scan.latest_edits seq m } ∷ []),
  )
  handle-room limit scan (SessionEvent.message_edit id m) seq ts room = ground arith
  handle-room limit scan _ seq ts room = ground arith
