-- ===== src/Patch/Parse/Printed/Whole.antt =====
-- A printed patch is read back whole.
use kiliax.Prelude.{
  or_false, ℕ, zero, suc, ◌<◌, ◌≡◌, refl, ap, ◌∙◌, true, false, List, [], ◌∷◌, ◌++◌, length, map,
  arith, ◌==◌, any, All,
}
use kiliax.Text.Equal.{text_eq-same}
use kiliax.Text.{Text}
use kiliax.Result.{ok}
use kiliax.Text.Split.{split, trim_end}
use kiliax.Patch.Lines.{line_feed, carriage_return, pop_empty}
use kiliax.Patch.Parse.{parse_ops, parse_lines, parse_patch, begin_patch, end_patch}
use kiliax.Patch.Parse.Printed.{
  FilePart, print_parts, op_of, IsWritable, print_lines, print_patch, IsLine,
}
use kiliax.Patch.Parse.Printed.Reads.{print_parts-IsStopped, print_parts-NoMove, parse_part-printed}

parse_ops-printed :
    (parts : List FilePart) (fuel : ℕ)
    → All IsWritable parts
    → length (print_parts parts) < fuel
    → parse_ops fuel (print_parts parts) ≡ ok (map op_of parts)
unfolding parse_ops
parse_ops-printed parts zero h f = elim f [ ]
parse_ops-printed [] (suc fuel) h f = rw (text_eq-same end_patch) refl
parse_ops-printed (p ∷ parts) (suc fuel) h f =
    let (line, lines, e, t, o, l) =
      parse_part-printed p (print_parts parts) fuel h.0 (print_parts-IsStopped parts)
        (print_parts-NoMove parts) f in
    ap (parse_ops (suc fuel)) e ∙ rw (t, o, parse_ops-printed parts fuel h.1 l) refl

==_same : (c : ℕ) → c == c ≡ true
==_same c = ground arith

split_line :
    (c : ℕ) (l s : Text) → any (λ x. x == c) l ≡ false → split c (l ++ (c ∷ s)) ≡ l ∷ split c s
unfolding split
split_line c [] s h = rw (==_same c) refl
split_line c (x ∷ l) s h =
    let (a, b) = or_false (x == c) (any (λ x. x == c) l) h in rw (a, split_line c l s b) refl

split_lines :
    (lines : List Text)
    → All IsLine lines
    → split line_feed (print_lines lines) ≡ lines ++ ([] ∷ [])
unfolding split
split_lines [] h = refl
split_lines (l ∷ lines) h =
    split_line line_feed l (print_lines lines) h.0.0 ∙ ap (λ ls. l ∷ ls) (split_lines lines h.1)

pop_empty_last : (lines : List Text) → pop_empty (lines ++ ([] ∷ [])) ≡ lines
unfolding pop_empty
pop_empty_last [] = refl
pop_empty_last (l ∷ []) = refl
pop_empty_last (l ∷ m ∷ lines) = ap (λ ls. l ∷ ls) (pop_empty_last (m ∷ lines))

trim_lines : (lines : List Text) → All IsLine lines → map (trim_end carriage_return) lines ≡ lines
trim_lines [] h = refl
trim_lines (l ∷ lines) h = rw (h.0.1, trim_lines lines h.1) refl

-- A patch written out is read back: each file that it adds, deletes, or updates with its hunks becomes
-- the operation that says so, and the content of an added file is each of its lines with a line feed;
-- where no printed line has a line feed in it or a carriage return at its end, the last line of an added
-- file is not empty, and paths and headers are not empty and have no white space at their ends.
pub parse_patch-print_patch :
    (parts : List FilePart)
    → All IsWritable parts
    → All IsLine (begin_patch ∷ print_parts parts)
    → parse_patch (print_patch parts) ≡ ok (map op_of parts)
unfolding parse_patch parse_lines
parse_patch-print_patch parts h k =
    let lines : List Text = begin_patch ∷ print_parts parts in
    ap parse_lines (
      ap (λ ls. map (trim_end carriage_return) (pop_empty ls)) (split_lines lines k)
      ∙ ap (map (trim_end carriage_return)) (pop_empty_last lines)
      ∙ trim_lines lines k)
    ∙ rw (text_eq-same begin_patch)
        (parse_ops-printed parts (suc (length (print_parts parts))) h (omega arith))
