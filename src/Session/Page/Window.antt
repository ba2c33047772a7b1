-- ===== src/Session/Page/Window.antt =====
-- A page is a window of the visible entries: the last `limit` before `before`.
use mathlib.Core.List.{reverse, reverse-cons, reverse-reverse, head?}
use mathlib.Core.Option
use kiliax.Prelude.{
  ℕ, ap₂, if◌then◌else◌, zero, suc, ◌^◌, ◌-◌, ◌≤◌, ◌<◌, ◌≡◌, refl, ap, sym, subst, ◌∙◌, not, drop,
  length-append, take-nil, ◌⊎◌, ◌&&◌, List, [], ◌∷◌, ◌++◌, Option, none, length, take, retain,
  arith, ltb, leb, max, length-take, Bool-cases, inl, inr, append-nil,
}
use kiliax.Session.State.{SessionEventLine, SessionMessageEntry, SessionMessagePage}
use kiliax.Session.Page.{
  Scan, is_display_message, is_deleted_by_later_truncate, edited, lookup_edit, handle_event,
  scan_lines, finish_page, read_message_page,
}
use kiliax.Session.Page.Correct.{
  entries_of, Falls, Targeted, seen, answer, handle-answer, handle-room, entries_of-AllBelow,
}

take_all {ℓ} :
    {A : Type ℓ} (items : List A) (limit : ℕ) → length items ≤ limit → take limit items ≡ items
take_all [] zero room = refl
take_all [] (suc limit) room = refl
take_all (item ∷ items) zero room = absurd (omega arith)
take_all (item ∷ items) (suc limit) room = ap (◌∷◌ item) (take_all items limit (omega arith))

take-append_of_full {ℓ} :
    {A : Type ℓ} (n : ℕ) (xs ys : List A) → length xs ≡ n → take n (xs ++ ys) ≡ xs
take-append_of_full zero [] ys h = refl
take-append_of_full zero (x ∷ xs) ys h = absurd (omega arith)
take-append_of_full (suc n) [] ys h = absurd (omega arith)
take-append_of_full (suc n) (x ∷ xs) ys h = ap (◌∷◌ x) (take-append_of_full n xs ys (omega arith))

take-take-suc {ℓ} : {A : Type ℓ} (n : ℕ) (xs : List A) → take n (take (suc n) xs) ≡ take n xs
take-take-suc zero xs = refl
take-take-suc (suc n) [] = refl
take-take-suc (suc n) (x ∷ xs) = ap (◌∷◌ x) (take-take-suc n xs)

more-take {ℓ} :
    {A : Type ℓ} (n : ℕ) (xs : List A) → ltb n (length (take (suc n) xs)) ≡ ltb n (length xs)
more-take n xs = rw (length-take (suc n) xs) (ground arith)

length-reverse {ℓ} : {A : Type ℓ} (xs : List A) → length (reverse xs) ≡ length xs
length-reverse [] = refl
length-reverse (x ∷ xs) =
    rw (reverse-cons x xs) (length-append (reverse xs) (x ∷ []) ∙ omega (arith, length-reverse xs))

take-append-short {ℓ} :
    {A : Type ℓ} (n : ℕ) (xs ys : List A) → n ≤ length xs → take n (xs ++ ys) ≡ take n xs
take-append-short zero xs ys h = refl
take-append-short (suc n) [] ys h = absurd (omega arith)
take-append-short (suc n) (x ∷ xs) ys h = ap (◌∷◌ x) (take-append-short n xs ys (omega arith))

below-or-above : (a b : ℕ) → (a ≤ b) ⊎ (b < a)
below-or-above a b = ground arith

-- The first of a list backwards are its last.
reverse-take-reverse {ℓ} :
    {A : Type ℓ} (n : ℕ) (xs : List A) → reverse (take n (reverse xs)) ≡ drop (length xs - n) xs
reverse-take-reverse {A = A} n [] =
    let k : length {A = A} [] - n ≡ 0 = omega arith in rw k (ap reverse (take-nil n))
reverse-take-reverse n (x ∷ xs) = elim (below-or-above n (length xs)) [
  | inl h ↦
      let k : length (x ∷ xs) - n ≡ suc (length xs - n) = omega arith in
      rw (k, reverse-cons x xs)
        (ap reverse (take-append-short n (reverse xs) (x ∷ []) (omega (arith, length-reverse xs)))
          ∙ reverse-take-reverse n xs)
  | inr h ↦
      let k : length (x ∷ xs) - n ≡ 0 = omega arith in
      rw (k, take_all (reverse (x ∷ xs)) n (omega (arith, length-reverse (x ∷ xs))))
        (reverse-reverse (x ∷ xs))
]

module _ {J : Type 0} where
  -- The scan collects what it would show of the entries, newest first, one more than the limit at
  -- most: stopping early loses nothing that the page needs.
  scan_lines-collected :
      (before limit bound : ℕ) (ls : List (SessionEventLine J)) (scan : Scan J)
      → Falls bound ls
      → Targeted ls
      → length scan.collected ≤ suc limit
      → (scan_lines before limit ls scan).collected
        ≡ take (suc limit) (answer before scan (entries_of ls))
  unfolding scan_lines
  scan_lines-collected before limit bound [] scan f t room =
      rw (append-nil scan.collected) (sym (take_all scan.collected (suc limit) room))
  scan_lines-collected before limit bound (l ∷ ls) scan f t room =
      elim (Bool-cases (ltb limit (length scan.collected))) [
        | inl full ↦ rw full (sym (take-append_of_full (suc limit) scan.collected _ (ground arith)))
        | inr open_ ↦ rw open_ (
            scan_lines-collected before limit l.seq ls
              (handle_event before limit scan l.event l.seq l.ts_ms) f.1 t.1
              (handle-room before limit scan l.event l.seq l.ts_ms open_)
            ∙ ap (take (suc limit)) (
                handle-answer before limit scan (entries_of ls) l.event l.seq l.ts_ms open_
                  (entries_of-AllBelow ls l.seq f.1) t.0))
      ]

  -- The entries before `before` that are shown to a user.
  abbrev pub visible : ℕ → List (SessionMessageEntry J) → List (SessionMessageEntry J)
  visible before = retain (λ e. not (leb before e.seq) && is_display_message e.message)

  seen-visible :
      (before : ℕ) (es : List (SessionMessageEntry J)) → seen before [] none es ≡ visible before es
  unfolding edited lookup_edit is_deleted_by_later_truncate
  seen-visible before [] = refl
  seen-visible before (e ∷ es) = ground (arith, seen-visible before es)

  finish_page-take :
      (n : ℕ) (xs : List (SessionMessageEntry J))
      → finish_page n (take (suc n) xs) ≡ finish_page n xs
  unfolding finish_page
  finish_page-take n xs = rw (take-take-suc n xs, more-take n xs)

  page-visible :
      (lines : List (SessionEventLine J)) (limit bound : ℕ) (before : Option ℕ)
      → Falls bound (reverse lines)
      → Targeted (reverse lines)
      → read_message_page lines limit before
        ≡ finish_page
            (max limit 1)
            (reverse (visible (Option.get_or before (2 ^ 64 - 1)) (entries_of (reverse lines))))
  unfolding read_message_page
  page-visible lines limit bound before f t =
      rw
        (scan_lines-collected (Option.get_or before (2 ^ 64 - 1)) (max limit 1) bound
          (reverse lines) (record { latest_edits = []; cutoff = none; collected = [] }) f t
          (omega arith))
        (finish_page-take (max limit 1) _
          ∙ ap (λ xs. finish_page (max limit 1) (reverse xs))
              (seen-visible _ (entries_of (reverse lines))))

  -- The last `n` of the entries, oldest first, and where there are more the number of the first of
  -- them, from which to go on.
  abbrev pub IsPage : ℕ → List (SessionMessageEntry J) → SessionMessagePage J → Type 0
  IsPage n shown page =
      (page.items ≡ drop (length shown - n) shown)
      × (page.next_before ≡ (
          if ltb n (length shown)
          then Option.map (λ e. e.seq) (head? (drop (length shown - n) shown))
          else none))

  finish_page-IsPage :
      (n : ℕ) (shown : List (SessionMessageEntry J))
      → IsPage n shown (finish_page n (reverse shown))
  unfolding finish_page
  finish_page-IsPage n shown =
      let items : reverse (take n (reverse shown)) ≡ drop (length shown - n) shown =
        reverse-take-reverse n shown in
      (
        items,
        ap₂ (λ k l. if ltb n k then Option.map (λ e. e.seq) (head? l) else none)
            (length-reverse shown) items,
      )

  -- A page read backwards from the log holds the last `limit` visible entries of the session with
  -- a number below `before`, the oldest first, where a limit of 0 is taken for 1; if there are more, the
  -- number of the oldest on the page is the one from which to go on, and otherwise there is none; where
  -- sequence numbers rise along the log and each truncation names an entry that is there.
  pub read_message_page-visible :
      (lines : List (SessionEventLine J)) (limit bound : ℕ) (before : Option ℕ)
      → Falls bound (reverse lines)
      → Targeted (reverse lines)
      → IsPage
          (max limit 1)
          (visible (Option.get_or before (2 ^ 64 - 1)) (entries_of (reverse lines)))
          (read_message_page lines limit before)
  read_message_page-visible lines limit bound before f t =
      subst (IsPage (max limit 1) _) (sym (page-visible lines limit bound before f t))
        (finish_page-IsPage (max limit 1) _)
