-- ===== src/Patch/Parse/Printed/Reads.antt =====
-- The loops of `parse_patch` on the lines of a printed patch.
use kiliax.Prelude.{
  ℕ, zero, suc, ◌≤◌, ◌<◌, ◌≡◌, ◌≢◌, refl, ap, ◌∙◌, Bool, true, false, ◌||◌, List, [], ◌∷◌, ◌++◌,
  Option, none, some, length, map, arith, ◌==◌, Bool-cases, inl, inr, All, some_injective,
  length-append, ==_iff,
}
use kiliax.Text.Equal.{text_eq-differ}
use kiliax.Text.{Text, codes, text_eq, trim, strip_prefix, starts_with, is_whitespace, trim_start}
use kiliax.Result.{ok}
use kiliax.Patch.Hunks.{HunkLine, UpdateHunk}
use kiliax.Patch.Plan.{PatchOp}
use kiliax.Patch.Parse.{
  ParseError, hunk_prefix, add_prefix, delete_prefix, update_prefix, move_prefix, end_patch,
  ends_file, path_of, added_content, hunk_line, hunk_body, hunk_header, parse_hunks, parse_move,
  parse_add, parse_delete, parse_update, parse_op,
}
use kiliax.Patch.Parse.Printed.Content.{content_text-filled}
use kiliax.Patch.Parse.Printed.{
  FilePart, labelled, print_hunk_line, print_header, print_hunks, print_move, print_part,
  print_parts, op_of, IsTrimmed, IsTrimmedOption, IsWritable, EndsFilled, print_lines,
}

-- What a loop stops at: the first line starts with `*** `.
abbrev pub IsStopped : List Text → Type 0
IsStopped [] = Unit
IsStopped (l ∷ lines) = starts_with (codes "*** ") l ≡ true

trim_space : (s : Text) → trim (b' ' ∷ s) ≡ trim s
unfolding trim trim_start is_whitespace
trim_space s = refl

path_of-labelled : (e : ParseError) (s : Text) → IsTrimmed s → path_of e (b' ' ∷ s) ≡ ok s
unfolding path_of
path_of-labelled e s h = rw (trim_space s ∙ h.1, h.0) refl

ends_file-plain : (c : ℕ) (s : Text) → c ≢ b'*' → ends_file (c ∷ s) ≡ false
unfolding ends_file starts_with
ends_file-plain c s h = elim (Bool-cases (b'*' == c)) [
  | inl e ↦ elim (h (grind (arith, ==_iff))) [ ]
  | inr e ↦ rw (e, text_eq-differ 0 (c ∷ s) end_patch (λ k. h (some_injective c b'*' k)))
]

ends_file-stopped : (l : Text) → starts_with (codes "*** ") l ≡ true → ends_file l ≡ true
unfolding ends_file
ends_file-stopped l h = rw h refl

added_content-printed :
    (texts : List Text) (rest : List Text)
    → IsStopped rest
    → added_content (map (◌∷◌ b'+') texts ++ rest) ≡ ok (texts, rest)
unfolding added_content strip_prefix
added_content-printed [] [] h = refl
added_content-printed [] (l ∷ rest) h = rw (ends_file-stopped l h) refl
added_content-printed (t ∷ texts) rest h =
    rw (ends_file-plain b'+' t (λ h. omega arith), added_content-printed texts rest h) refl

hunk_line-printed : (l : HunkLine) → hunk_line (print_hunk_line l) ≡ ok l
unfolding hunk_line
hunk_line-printed (HunkLine.context s) = refl
hunk_line-printed (HunkLine.add s) = refl
hunk_line-printed (HunkLine.del s) = refl

ends_hunk-printed :
    (l : HunkLine)
    → starts_with hunk_prefix (print_hunk_line l) || ends_file (print_hunk_line l) ≡ false
unfolding starts_with
ends_hunk-printed (HunkLine.context s) = ends_file-plain b' ' s (λ h. omega arith)
ends_hunk-printed (HunkLine.add s) = ends_file-plain b'+' s (λ h. omega arith)
ends_hunk-printed (HunkLine.del s) = ends_file-plain b'-' s (λ h. omega arith)

-- What a hunk stops at.
abbrev pub EndsHunk : List Text → Type 0
EndsHunk [] = Unit
EndsHunk (l ∷ lines) = starts_with hunk_prefix l || ends_file l ≡ true

hunk_body-printed :
    (body : List HunkLine) (rest : List Text)
    → EndsHunk rest
    → hunk_body (map print_hunk_line body ++ rest) ≡ ok (body, rest)
unfolding hunk_body
hunk_body-printed [] [] h = refl
hunk_body-printed [] (l ∷ rest) h = rw h refl
hunk_body-printed (l ∷ body) rest h =
    rw (ends_hunk-printed l, hunk_line-printed l, hunk_body-printed body rest h) refl

header_none : hunk_header hunk_prefix ≡ none
unfolding hunk_header strip_prefix trim trim_start
header_none = refl

hunk_header-printed : (o : Option Text) → IsTrimmedOption o → hunk_header (print_header o) ≡ o
unfolding hunk_header strip_prefix
hunk_header-printed none h = header_none
hunk_header-printed (some s) h = rw (trim_space s ∙ h.1, h.0) refl

starts-header : (o : Option Text) → starts_with hunk_prefix (print_header o) ≡ true
unfolding starts_with
starts-header none = refl
starts-header (some s) = refl

ends_file-header : (o : Option Text) → ends_file (print_header o) ≡ false
ends_file-header none = ends_file-plain b'@' _ (λ h. omega arith)
ends_file-header (some s) = ends_file-plain b'@' _ (λ h. omega arith)

or_true : (a b : Bool) → b ≡ true → a || b ≡ true
or_true a b h = ground arith

-- The fuel that is left for the lines after a hunk.
fewer : (xs ys : List Text) (n : ℕ) → suc (length (xs ++ ys)) < suc n → length ys < n
fewer xs ys n h = omega (arith, length-append xs ys)

print_hunks-ends :
    (hunks : List UpdateHunk) (rest : List Text)
    → IsStopped rest
    → EndsHunk (print_hunks hunks rest)
print_hunks-ends [] [] h = tt
print_hunks-ends [] (l ∷ rest) h = or_true _ _ (ends_file-stopped l h)
print_hunks-ends (k ∷ hunks) rest h = rw (starts-header k.header) refl

parse_hunks-printed :
    (hunks : List UpdateHunk) (rest : List Text) (fuel : ℕ)
    → IsStopped rest
    → All (λ h. IsTrimmedOption h.header) hunks
    → length (print_hunks hunks rest) < fuel
    → parse_hunks fuel (print_hunks hunks rest) ≡ ok (hunks, rest)
unfolding parse_hunks
parse_hunks-printed hunks rest zero h k f = elim f [ ]
parse_hunks-printed [] [] (suc fuel) h k f = refl
parse_hunks-printed [] (l ∷ rest) (suc fuel) h k f = rw (ends_file-stopped l h) refl
parse_hunks-printed (u ∷ hunks) rest (suc fuel) h k f =
    rw
      (
        ends_file-header u.header,
        starts-header u.header,
        hunk_body-printed u.lines (print_hunks hunks rest) (print_hunks-ends hunks rest h),
        parse_hunks-printed hunks rest fuel h k.1 (fewer (map print_hunk_line u.lines) _ fuel f),
        hunk_header-printed u.header k.0,
      )
      refl

starts-move : (o : Option Text) → strip_prefix move_prefix (print_header o) ≡ none
unfolding strip_prefix
starts-move none = refl
starts-move (some s) = refl

-- A line that is no move: one that starts a hunk, a file or the end.
abbrev pub NoMove : List Text → Type 0
NoMove [] = Unit
NoMove (l ∷ lines) = strip_prefix move_prefix l ≡ none

print_hunks-NoMove :
    (hunks : List UpdateHunk) (rest : List Text) → NoMove rest → NoMove (print_hunks hunks rest)
print_hunks-NoMove [] rest h = h
print_hunks-NoMove (k ∷ hunks) rest h = starts-move k.header

parse_move-printed :
    (o : Option Text) (rest : List Text)
    → NoMove rest
    → IsTrimmedOption o
    → parse_move (print_move o rest) ≡ ok (o, rest)
unfolding parse_move strip_prefix
parse_move-printed none [] n h = refl
parse_move-printed none (l ∷ rest) n h = rw (n, parse_move) refl
parse_move-printed (some s) rest n h = rw (path_of-labelled ParseError.missing_move_path s h) refl

print_move-length : (o : Option Text) (rest : List Text) → length rest ≤ length (print_move o rest)
print_move-length none rest = omega arith
print_move-length (some s) rest = omega arith

print_hunks-length :
    (hunks : List UpdateHunk) (rest : List Text) → length rest ≤ length (print_hunks hunks rest)
print_hunks-length [] rest = omega arith
print_hunks-length (k ∷ hunks) rest = omega (
  arith,
  print_hunks-length hunks rest,
  length-append (map print_hunk_line k.lines) (print_hunks hunks rest),
)

pub print_parts-IsStopped : (parts : List FilePart) → IsStopped (print_parts parts)
unfolding starts_with
print_parts-IsStopped [] = refl
print_parts-IsStopped (FilePart.added path texts ∷ parts) = refl
print_parts-IsStopped (FilePart.deleted path ∷ parts) = refl
print_parts-IsStopped (FilePart.updated path move_to hunks ∷ parts) = refl

pub print_parts-NoMove : (parts : List FilePart) → NoMove (print_parts parts)
unfolding strip_prefix
print_parts-NoMove [] = refl
print_parts-NoMove (FilePart.added path texts ∷ parts) = refl
print_parts-NoMove (FilePart.deleted path ∷ parts) = refl
print_parts-NoMove (FilePart.updated path move_to hunks ∷ parts) = refl

parse_add-printed :
    (path : Text) (texts rest : List Text)
    → IsTrimmed path × EndsFilled texts
    → IsStopped rest
    → parse_add (b' ' ∷ path) (map (◌∷◌ b'+') texts ++ rest)
      ≡ ok (PatchOp.add_file path (print_lines texts), rest)
unfolding parse_add
parse_add-printed path texts rest h k =
    rw (path_of-labelled ParseError.missing_path path h.0, added_content-printed texts rest k)
      (ap (λ content. ok (PatchOp.add_file path content, rest)) (content_text-filled texts h.1))

parse_delete-printed :
    (path : Text) (rest : List Text)
    → IsTrimmed path
    → parse_delete (b' ' ∷ path) rest ≡ ok (PatchOp.delete_file path, rest)
unfolding parse_delete
parse_delete-printed path rest h = rw (path_of-labelled ParseError.missing_path path h) refl

parse_update-printed :
    (path : Text) (move_to : Option Text) (hunks : List UpdateHunk) (rest : List Text) (fuel : ℕ)
    → IsWritable (FilePart.updated path move_to hunks)
    → IsStopped rest
    → NoMove rest
    → length (print_hunks hunks rest) < fuel
    → parse_update fuel (b' ' ∷ path) (print_move move_to (print_hunks hunks rest))
      ≡ ok (PatchOp.update_file path move_to hunks, rest)
unfolding parse_update
parse_update-printed path move_to hunks rest fuel h k n f =
    rw
      (
        path_of-labelled ParseError.missing_path path h.0,
        parse_move-printed move_to (print_hunks hunks rest) (print_hunks-NoMove hunks rest n) h.1,
        parse_hunks-printed hunks rest fuel k h.2 f,
      )
      refl

pub parse_part-printed :
    (part : FilePart) (rest : List Text) (fuel : ℕ)
    → IsWritable part
    → IsStopped rest
    → NoMove rest
    → length (print_part part rest) < suc fuel
    → (line : Text) × (lines : List Text) × (print_part part rest ≡ line ∷ lines)
      × (text_eq line end_patch ≡ false)
      × (parse_op (suc fuel) line lines ≡ ok (op_of part, rest))
      × (length rest < fuel)
unfolding parse_op strip_prefix
parse_part-printed (FilePart.added path texts) rest fuel h k n f = (
  labelled add_prefix path,
  map (◌∷◌ b'+') texts ++ rest,
  refl,
  text_eq-differ 4 _ end_patch (λ e. let k : 65 ≡ 69 = some_injective _ _ e in omega arith),
  parse_add-printed path texts rest h k,
  fewer (map (◌∷◌ b'+') texts) rest fuel f,
)
parse_part-printed (FilePart.deleted path) rest fuel h k n f = (
  labelled delete_prefix path,
  rest,
  refl,
  text_eq-differ 4 _ end_patch (λ e. let k : 68 ≡ 69 = some_injective _ _ e in omega arith),
  parse_delete-printed path rest h,
  omega arith,
)
parse_part-printed (FilePart.updated path move_to hunks) rest fuel h k n f =
    let m : length (print_hunks hunks rest) ≤ length (print_move move_to (print_hunks hunks rest)) =
      print_move-length move_to (print_hunks hunks rest) in
    (
      labelled update_prefix path,
      print_move move_to (print_hunks hunks rest),
      refl,
      text_eq-differ 4 _ end_patch (λ e. let k : 85 ≡ 69 = some_injective _ _ e in omega arith),
      parse_update-printed path move_to hunks rest (suc fuel) h k n (omega arith),
      omega (arith, print_hunks-length hunks rest),
    )
