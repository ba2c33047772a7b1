-- ===== src/Session/Ids.antt =====
-- The message ids of a session: one for each message, rising, and none above the last sequence
-- number.
use kiliax.Prelude.{
  ℕ, zero, suc, ◌≤◌, ◌<◌, ◌≡◌, refl, ap, ◌∙◌, false, List, [], ◌∷◌, ◌++◌, Option, none, some,
  length, length-append, length-set, take, max, arith,
}
use kiliax.Text.{Text}
use kiliax.Protocol.{Message}
use kiliax.Session.State.{SessionState, SessionMeta, SessionEvent}
use kiliax.Session.Apply.{
  push_message, edit_message, truncate_after, touch, dispatch, apply_event, first_title,
  edited_title, with_title, edit_at, truncate_at,
}

-- `Rises lo ids hi`: the ids rise strictly from above `lo` up to `hi`.
abbrev pub Rises : ℕ → List ℕ → ℕ → Type 0
Rises lo [] hi = lo ≤ hi
Rises lo (id ∷ ids) hi = (lo < id) × Rises id ids hi

pub Rises-append :
    (lo : ℕ) (ids : List ℕ) (hi k : ℕ) → Rises lo ids hi → hi < k → Rises lo (ids ++ k ∷ []) k
Rises-append lo [] hi k h lt = (omega arith, omega arith)
Rises-append lo (id ∷ ids) hi k h lt = (h.0, Rises-append id ids hi k h.1 lt)

pub Rises-mono : (lo : ℕ) (ids : List ℕ) (hi k : ℕ) → Rises lo ids hi → hi ≤ k → Rises lo ids k
Rises-mono lo [] hi k h le = omega arith
Rises-mono lo (id ∷ ids) hi k h le = (h.0, Rises-mono id ids hi k h.1 le)

Rises-le : (lo : ℕ) (ids : List ℕ) (hi : ℕ) → Rises lo ids hi → lo ≤ hi
Rises-le lo [] hi h = h
Rises-le lo (id ∷ ids) hi h = omega (arith, Rises-le id ids hi h.1)

pub Rises-take : (lo n : ℕ) (ids : List ℕ) (hi : ℕ) → Rises lo ids hi → Rises lo (take n ids) hi
Rises-take lo zero ids hi h = Rises-le lo ids hi h
Rises-take lo (suc n) [] hi h = h
Rises-take lo (suc n) (id ∷ ids) hi h = (h.0, Rises-take id n ids hi h.1)

length-take-both {ℓ κ} :
    {A : Type ℓ} {B : Type κ} (n : ℕ) (xs : List A) (ys : List B)
    → length xs ≡ length ys
    → length (take n xs) ≡ length (take n ys)
length-take-both zero xs ys h = refl
length-take-both (suc n) [] [] h = refl
length-take-both (suc n) [] (y ∷ ys) h = absurd (omega arith)
length-take-both (suc n) (x ∷ xs) [] h = absurd (omega arith)
length-take-both (suc n) (x ∷ xs) (y ∷ ys) h = ap suc (length-take-both n xs ys (omega arith))

pub record IsConsistent {J : Type 0} (s : SessionState J) : Type 0 where
  pub paired : length s.messages ≡ length s.message_ids
  pub counted : s.meta.message_count ≡ length s.messages
  pub rising : Rises 0 s.message_ids s.meta.last_seq

-- What a change of the title leaves alone.
with_title-same :
    (meta : SessionMeta) (t : Option Text)
    → ((with_title meta t).message_count ≡ meta.message_count)
      × ((with_title meta t).last_seq ≡ meta.last_seq)
unfolding with_title
with_title-same meta none = (refl, refl)
with_title-same meta (some t) = (refl, refl)

module _ {J : Type 0} where
  touch-IsConsistent :
      (s : SessionState J) (ts seq : ℕ)
      → IsConsistent s
      → s.meta.last_seq < seq
      → IsConsistent (touch s ts seq) × ((touch s ts seq).meta.last_seq ≡ seq)
  unfolding touch
  touch-IsConsistent s ts seq c lt = (
    record {
      paired = c.paired;
      counted = c.counted;
      rising =
          Rises-mono 0 s.message_ids s.meta.last_seq (max s.meta.last_seq seq) c.rising
            (omega arith);
    },
    omega arith,
  )

  touch-rising :
      (s : SessionState J) (ts seq : ℕ)
      → IsConsistent s
      → Rises 0 (touch s ts seq).message_ids s.meta.last_seq
  unfolding touch
  touch-rising s ts seq c = c.rising

  first_title-last_seq :
      (t : Option Text) (m : Message J) (meta : SessionMeta)
      → (first_title t m meta).last_seq ≡ meta.last_seq
  unfolding first_title
  first_title-last_seq none (Message.user content false) meta = (with_title-same meta _).1
  first_title-last_seq _ _ meta = refl

  edited_title-same :
      (idx : ℕ) (m : Message J) (meta : SessionMeta)
      → ((edited_title idx m meta).message_count ≡ meta.message_count)
        × ((edited_title idx m meta).last_seq ≡ meta.last_seq)
  unfolding edited_title
  edited_title-same zero (Message.user content false) meta = with_title-same meta _
  edited_title-same _ _ meta = (refl, refl)

  edit_at-IsConsistent :
      (s : SessionState J) (o : Option ℕ) (m : Message J)
      → IsConsistent s
      → IsConsistent (edit_at s o m)
  unfolding edit_at
  edit_at-IsConsistent s none m c = c
  edit_at-IsConsistent s (some idx) m c = record {
    paired = omega (arith, length-set s.messages idx m, c.paired);
    counted =
        omega (arith, length-set s.messages idx m, c.counted, (edited_title-same idx m s.meta).0);
    rising = rw (edited_title-same idx m s.meta).1 c.rising;
  }

  truncate_at-IsConsistent :
      (s : SessionState J) (id : ℕ) (o : Option ℕ)
      → IsConsistent s
      → IsConsistent (truncate_at s id o)
  unfolding truncate_at
  truncate_at-IsConsistent s id none c = c
  truncate_at-IsConsistent s id (some idx) c = record {
    paired = length-take-both (suc idx) s.messages s.message_ids c.paired;
    counted = refl;
    rising = Rises-take 0 (suc idx) s.message_ids s.meta.last_seq c.rising;
  }

  push_message-IsConsistent :
      (s : SessionState J) (m : Message J) (old seq : ℕ)
      → IsConsistent s
      → Rises 0 s.message_ids old
      → old < seq
      → s.meta.last_seq ≡ seq
      → IsConsistent (push_message s m seq)
  unfolding push_message
  push_message-IsConsistent s m old seq c rising lt e = record {
    paired = omega (
      arith,
      length-append s.messages (m ∷ []),
      length-append s.message_ids (seq ∷ []),
      c.paired,
    );
    counted = refl;
    rising =
        rw (first_title-last_seq s.meta.title m s.meta ∙ e)
          (Rises-append 0 s.message_ids old seq rising lt);
  }

  -- Every event that is numbered above the last one keeps one id for each message, the ids rising
  -- and none above the last sequence number, and the message count right.
  pub apply_event-IsConsistent :
      (now : Text) (s : SessionState J) (e : SessionEvent J) (ts seq : ℕ)
      → IsConsistent s
      → s.meta.last_seq < seq
      → IsConsistent (apply_event now s e ts seq)
  unfolding apply_event dispatch edit_message truncate_after
  apply_event-IsConsistent now s (SessionEvent.message m) ts seq c lt =
      let (t, l) = touch-IsConsistent s ts seq c lt in
      push_message-IsConsistent (touch s ts seq) m s.meta.last_seq seq t (touch-rising s ts seq c)
        lt l
  apply_event-IsConsistent now s (SessionEvent.message_edit id m) ts seq c lt =
      edit_at-IsConsistent (touch s ts seq) _ m (touch-IsConsistent s ts seq c lt).0
  apply_event-IsConsistent now s (SessionEvent.truncate_after id) ts seq c lt =
      truncate_at-IsConsistent (touch s ts seq) id _ (touch-IsConsistent s ts seq c lt).0
  apply_event-IsConsistent now s _ ts seq c lt =
      let (t, l) = touch-IsConsistent s ts seq c lt in
      record { paired = t.paired; counted = t.counted; rising = t.rising }

  edit_at-last_seq :
      (s : SessionState J) (o : Option ℕ) (m : Message J)
      → (edit_at s o m).meta.last_seq ≡ s.meta.last_seq
  unfolding edit_at
  edit_at-last_seq s none m = refl
  edit_at-last_seq s (some idx) m = (edited_title-same idx m s.meta).1

  truncate_at-last_seq :
      (s : SessionState J) (id : ℕ) (o : Option ℕ)
      → (truncate_at s id o).meta.last_seq ≡ s.meta.last_seq
  unfolding truncate_at
  truncate_at-last_seq s id none = refl
  truncate_at-last_seq s id (some idx) = refl

  pub apply_event-last_seq :
      (now : Text) (s : SessionState J) (e : SessionEvent J) (ts seq : ℕ)
      → (apply_event now s e ts seq).meta.last_seq ≡ max s.meta.last_seq seq
  unfolding apply_event dispatch edit_message truncate_after touch push_message
  apply_event-last_seq now s (SessionEvent.message m) ts seq = first_title-last_seq s.meta.title m _
  apply_event-last_seq now s (SessionEvent.message_edit id m) ts seq = edit_at-last_seq _ _ m
  apply_event-last_seq now s (SessionEvent.truncate_after id) ts seq = truncate_at-last_seq _ id _
  apply_event-last_seq now s _ ts seq = refl
