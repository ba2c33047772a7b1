-- ===== src/Patch/Parse.antt =====
-- `parse_patch` of crates/kiliax-core/src/tools/builtin/apply_patch.rs. Every line that the code
-- looks at has its carriage returns trimmed first.
pub mod Fuel
pub mod Printed
use kiliax.Prelude.{
  ℕ, zero, suc, Bool, true, false, ◌||◌, not, List, [], ◌∷◌, ◌++◌, map, Option, none, some,
  is_empty, length, if◌then◌else◌, ◌==◌,
}
use mathlib.Core.Option
use kiliax.Text.{Text, codes, text_eq, trim, strip_prefix, starts_with}
use kiliax.Result.{Result, ok, err, ok_or, ◌>>=◌}
use kiliax.Patch.Hunks.{HunkLine, UpdateHunk}
use kiliax.Text.Split.{split, trim_end, ends_with}
use kiliax.Patch.Lines.{line_feed, carriage_return, join_lines, pop_empty}
use kiliax.Patch.Plan.{PatchOp}

pub data ParseError : Type 0 where
  missing_begin expected_begin missing_path expected_plus missing_move_path : ParseError
  expected_header unexpected_line : Text → ParseError
  empty_hunk_line missing_end out_of_fuel : ParseError
  invalid_prefix : ℕ → ParseError

abbrev pub Parsed : Type 0 → Type 0
Parsed A = Result ParseError A

abbrev pub begin_patch : Text
begin_patch = codes "*** Begin Patch"

abbrev pub end_patch : Text
end_patch = codes "*** End Patch"

abbrev pub add_prefix : Text
add_prefix = codes "*** Add File:"

abbrev pub delete_prefix : Text
delete_prefix = codes "*** Delete File:"

abbrev pub update_prefix : Text
update_prefix = codes "*** Update File:"

abbrev pub move_prefix : Text
move_prefix = codes "*** Move to:"

abbrev pub hunk_prefix : Text
hunk_prefix = codes "@@"

-- The lines that end the part of one file.
unfoldable pub ends_file : Text → Bool
ends_file l = starts_with (codes "*** ") l || text_eq l end_patch

-- The trimmed path after a prefix, which may not be empty.
unfoldable pub path_of : ParseError → Text → Parsed Text
path_of missing rest = if is_empty (trim rest) then err missing else ok (trim rest)

-- The loop over the lines of an added file: the lines, and what is left.
unfoldable pub added_content : List Text → Parsed (List Text × List Text)
added_content [] = ok ([], [])
added_content (l ∷ lines) =
    let rest = added_content lines in
    if ends_file l then ok ([], l ∷ lines) else do
      text ← ok_or ParseError.expected_plus (strip_prefix (codes "+") l)
      (texts, left) ← rest
      ok (text ∷ texts, left)

unfoldable pub content_text : List Text → Text
content_text texts =
    let content = join_lines texts in
    if is_empty content || ends_with line_feed content then content else content ++ (line_feed ∷ [])

-- The `match prefix`.
unfoldable pub hunk_line : Text → Parsed HunkLine
hunk_line [] = err ParseError.empty_hunk_line
hunk_line (prefix ∷ rest) =
    if prefix == b' '
    then ok (HunkLine.context rest)
    else if prefix == b'+'
    then ok (HunkLine.add rest)
    else if prefix == b'-'
    then ok (HunkLine.del rest)
    else err (ParseError.invalid_prefix prefix)

-- The loop over the lines of a hunk.
unfoldable pub hunk_body : List Text → Parsed (List HunkLine × List Text)
hunk_body [] = ok ([], [])
hunk_body (l ∷ lines) =
    let rest = hunk_body lines in
    if starts_with hunk_prefix l || ends_file l
    then ok ([], l ∷ lines)
    else do line ← hunk_line l; (body, left) ← rest; ok (line ∷ body, left)

unfoldable pub hunk_header : Text → Option Text
hunk_header l =
    let header = trim (Option.get_or (strip_prefix hunk_prefix l) []) in
    if is_empty header then none else some header

-- The loop over the hunks of an updated file.
unfoldable pub parse_hunks : ℕ → List Text → Parsed (List UpdateHunk × List Text)
parse_hunks zero lines = err ParseError.out_of_fuel
parse_hunks (suc fuel) [] = ok ([], [])
parse_hunks (suc fuel) (l ∷ lines) =
    if ends_file l
    then ok ([], l ∷ lines)
    else if not (starts_with hunk_prefix l)
    then err (ParseError.expected_header l)
    else do
      (body, left) ← hunk_body lines
      (hunks, left) ← parse_hunks fuel left
      ok (record { header = hunk_header l; lines = body } ∷ hunks, left)

unfoldable pub parse_move : List Text → Parsed (Option Text × List Text)
parse_move [] = ok (none, [])
parse_move (l ∷ lines) = elim (strip_prefix move_prefix l) [
  | none ↦ ok (none, l ∷ lines)
  | some rest ↦ do dest ← path_of ParseError.missing_move_path rest; ok (some dest, lines)
]

unfoldable pub parse_add : Text → List Text → Parsed (PatchOp × List Text)
parse_add rest lines = do
  path ← path_of ParseError.missing_path rest
  (texts, left) ← added_content lines
  ok (PatchOp.add_file path (content_text texts), left)

unfoldable pub parse_delete : Text → List Text → Parsed (PatchOp × List Text)
parse_delete rest lines = do
  path ← path_of ParseError.missing_path rest
  ok (PatchOp.delete_file path, lines)

unfoldable pub parse_update : ℕ → Text → List Text → Parsed (PatchOp × List Text)
parse_update fuel rest lines = do
  path ← path_of ParseError.missing_path rest
  (move_to, left) ← parse_move lines
  (hunks, left) ← parse_hunks fuel left
  ok (PatchOp.update_file path move_to hunks, left)

-- An operation from its first line on.
unfoldable pub parse_op : ℕ → Text → List Text → Parsed (PatchOp × List Text)
parse_op fuel line lines = elim (strip_prefix add_prefix line) [
  | some rest ↦ parse_add rest lines
  | none ↦ elim (strip_prefix delete_prefix line) [
    | some rest ↦ parse_delete rest lines
    | none ↦ elim (strip_prefix update_prefix line) [
      | some rest ↦ parse_update fuel rest lines
      | none ↦ err (ParseError.unexpected_line line)
    ]
  ]
]

-- The loop over the operations.
unfoldable pub parse_ops : ℕ → List Text → Parsed (List PatchOp)
parse_ops zero lines = err ParseError.out_of_fuel
parse_ops (suc fuel) [] = err ParseError.missing_end
parse_ops (suc fuel) (line ∷ lines) =
    if text_eq line end_patch
    then ok []
    else do (op, left) ← parse_op (suc fuel) line lines; ops ← parse_ops fuel left; ok (op ∷ ops)

unfoldable pub parse_lines : List Text → Parsed (List PatchOp)
parse_lines [] = err ParseError.missing_begin
parse_lines (first ∷ lines) =
    if text_eq first begin_patch
    then parse_ops (suc (length lines)) lines
    else err ParseError.expected_begin

unfoldable pub parse_patch : Text → Parsed (List PatchOp)
parse_patch input = parse_lines (map (trim_end carriage_return) (pop_empty (split line_feed input)))
