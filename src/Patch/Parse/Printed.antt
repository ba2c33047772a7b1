-- ===== src/Patch/Parse/Printed.antt =====
-- A patch written out: its parts, the lines of each, and what they have to be like for
-- `parse_patch` to read them back.
pub mod Content
pub mod Reads
pub mod Whole
use kiliax.Prelude.{
  ℕ, zero, suc, ◌+◌, ◌≤◌, ◌<◌, ◌≡◌, ◌≢◌, refl, ap, ◌∙◌, sym, Bool, true, false, ◌||◌, not, List, [],
  ◌∷◌, ◌++◌, Option, none, some, is_empty, length, map, if◌then◌else◌, arith, ◌==◌, Bool-cases,
  Option-cases, inl, inr, any, All, some_injective, length-append, ==_iff, get_elem?,
}
use kiliax.Text.{
  Text, codes, text_eq, trim, strip_prefix, starts_with, Text-discrete, is_whitespace, trim_start,
}
use kiliax.Result.{Result, ok, err, ok_or, ◌>>=◌}
use kiliax.Patch.Hunks.{HunkLine, UpdateHunk}
use kiliax.Text.Split.{split, trim_end, ends_with}
use kiliax.Patch.Lines.{line_feed, carriage_return, pop_empty}
use kiliax.Patch.Plan.{PatchOp}
use kiliax.Patch.Parse.{
  ParseError, Parsed, hunk_prefix, add_prefix, delete_prefix, update_prefix, move_prefix, end_patch,
  begin_patch, ends_file, path_of, added_content, content_text, hunk_line, hunk_body, hunk_header,
  parse_hunks, parse_move, parse_add, parse_delete, parse_update, parse_op, parse_ops, parse_lines,
  parse_patch,
}

-- One file of a patch: added with its lines, deleted, or updated.
pub data FilePart : Type 0 where
  added : Text → List Text → FilePart
  deleted : Text → FilePart
  updated : Text → Option Text → List UpdateHunk → FilePart

-- A line of the patch: a prefix, a space and a text.
abbrev pub labelled : Text → Text → Text
labelled prefix s = prefix ++ (b' ' ∷ s)

abbrev pub print_hunk_line : HunkLine → Text
print_hunk_line (HunkLine.context s) = b' ' ∷ s
print_hunk_line (HunkLine.add s) = b'+' ∷ s
print_hunk_line (HunkLine.del s) = b'-' ∷ s

abbrev pub print_header : Option Text → Text
print_header none = hunk_prefix
print_header (some s) = labelled hunk_prefix s

abbrev pub print_hunks : List UpdateHunk → List Text → List Text
print_hunks [] rest = rest
print_hunks (h ∷ hunks) rest =
    print_header h.header ∷ (map print_hunk_line h.lines ++ print_hunks hunks rest)

abbrev pub print_move : Option Text → List Text → List Text
print_move none rest = rest
print_move (some dest) rest = labelled move_prefix dest ∷ rest

abbrev pub print_part : FilePart → List Text → List Text
print_part (FilePart.added path texts) rest =
    labelled add_prefix path ∷ (map (◌∷◌ b'+') texts ++ rest)
print_part (FilePart.deleted path) rest = labelled delete_prefix path ∷ rest
print_part (FilePart.updated path move_to hunks) rest =
    labelled update_prefix path ∷ print_move move_to (print_hunks hunks rest)

abbrev pub print_parts : List FilePart → List Text
print_parts [] = end_patch ∷ []
print_parts (p ∷ parts) = print_part p (print_parts parts)

-- A text of lines, each with a line feed.
abbrev pub print_lines : List Text → Text
print_lines [] = []
print_lines (l ∷ lines) = l ++ (line_feed ∷ print_lines lines)

-- What a part says: an added file holds each of its lines, with a line feed.
abbrev pub op_of : FilePart → PatchOp
op_of (FilePart.added path texts) = PatchOp.add_file path (print_lines texts)
op_of (FilePart.deleted path) = PatchOp.delete_file path
op_of (FilePart.updated path move_to hunks) = PatchOp.update_file path move_to hunks

-- The last of the lines is there and is not empty, or there are none.
abbrev pub EndsFilled : List Text → Type 0
EndsFilled [] = Unit
EndsFilled (t ∷ []) = (is_empty t ≡ false) × (ends_with line_feed t ≡ false)
EndsFilled (t ∷ u ∷ texts) = EndsFilled (u ∷ texts)

-- A path or a header as it is read back: not empty, and without white space at its ends.
abbrev pub IsTrimmed : Text → Type 0
IsTrimmed s = (is_empty s ≡ false) × (trim s ≡ s)

abbrev pub IsTrimmedOption : Option Text → Type 0
IsTrimmedOption none = Unit
IsTrimmedOption (some s) = IsTrimmed s

abbrev pub IsWritable : FilePart → Type 0
IsWritable (FilePart.added path texts) = IsTrimmed path × EndsFilled texts
IsWritable (FilePart.deleted path) = IsTrimmed path
IsWritable (FilePart.updated path move_to hunks) =
    IsTrimmed path × IsTrimmedOption move_to × All (λ h. IsTrimmedOption h.header) hunks

abbrev pub print_patch : List FilePart → Text
print_patch parts = print_lines (begin_patch ∷ print_parts parts)

-- A line: no line feed in it, and no carriage return at its end.
abbrev pub IsLine : Text → Type 0
IsLine l = (any (λ c. c == line_feed) l ≡ false) × (trim_end carriage_return l ≡ l)
