-- ===== src/Patch/Parse/Printed/Content.antt =====
-- The content of an added file, as `parse_patch` puts it together from its lines.
use kiliax.Prelude.{ℕ, ◌≡◌, refl, ap, sym, ◌∙◌, false, List, [], ◌∷◌, ◌++◌, is_empty, append_assoc}
use kiliax.Text.{Text}
use kiliax.Text.Split.{ends_with}
use kiliax.Patch.Lines.{line_feed, join_lines}
use kiliax.Patch.Parse.{content_text}
use kiliax.Patch.Parse.Printed.{EndsFilled, print_lines}

filled-append : (t : Text) (c : ℕ) (s : Text) → is_empty (t ++ (c ∷ s)) ≡ false
filled-append [] c s = refl
filled-append (x ∷ t) c s = refl

ends_with-cons : (c x : ℕ) (s : Text) → is_empty s ≡ false → ends_with c (x ∷ s) ≡ ends_with c s
unfolding ends_with
ends_with-cons c x [] h = cc
ends_with-cons c x (y ∷ s) h = refl

ends_with-append :
    (c : ℕ) (t s : Text)
    → is_empty s ≡ false
    → ends_with c s ≡ false
    → ends_with c (t ++ (c ∷ s)) ≡ false
ends_with-append c [] s n h = ends_with-cons c c s n ∙ h
ends_with-append c (x ∷ t) s n h =
    ends_with-cons c x (t ++ (c ∷ s)) (filled-append t c s) ∙ ends_with-append c t s n h

-- The content that is put together is that of the lines, where the last one is not empty.
join-filled :
    (t : Text) (texts : List Text)
    → EndsFilled (t ∷ texts)
    → (print_lines (t ∷ texts) ≡ join_lines (t ∷ texts) ++ (line_feed ∷ []))
      × (is_empty (join_lines (t ∷ texts)) ≡ false)
      × (ends_with line_feed (join_lines (t ∷ texts)) ≡ false)
unfolding join_lines
join-filled t [] (e, f) = (refl, e, f)
join-filled t (u ∷ texts) h =
    let (a, b, c) = join-filled u texts h in
    (
      ap (λ s. t ++ (line_feed ∷ s)) a
          ∙ sym (append_assoc t (line_feed ∷ join_lines (u ∷ texts)) (line_feed ∷ [])),
      filled-append t line_feed (join_lines (u ∷ texts)),
      ends_with-append line_feed t (join_lines (u ∷ texts)) b c,
    )

pub content_text-filled :
    (texts : List Text) → EndsFilled texts → content_text texts ≡ print_lines texts
unfolding content_text join_lines
content_text-filled [] h = refl
content_text-filled (t ∷ texts) h = let (a, b, c) = join-filled t texts h in rw (b, c) (sym a)
