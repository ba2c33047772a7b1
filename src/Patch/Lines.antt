-- ===== src/Patch/Lines.antt =====
-- Lines of a text: `split`, `join`, `lines` and `trim_end_matches` of Rust strings, and
-- `apply_update_hunks` of crates/kiliax-core/src/tools/builtin/apply_patch.rs on a text.
use kiliax.Prelude.{
  ℕ, Bool, List, [], ◌∷◌, ◌++◌, map, Option, none, some, if◌then◌else◌, is_empty, ◌==◌,
}
use kiliax.Text.{Text}
use kiliax.Text.Split.{split, trim_end, ends_with}
use kiliax.Patch.Hunks.{UpdateHunk, apply_hunks}

abbrev pub line_feed : ℕ
line_feed = b'\n'

abbrev pub carriage_return : ℕ
carriage_return = b'\r'

-- `join("\n")`
unfoldable pub join_lines : List Text → Text
join_lines [] = []
join_lines (l ∷ []) = l
join_lines (l ∷ m ∷ ls) = l ++ (line_feed ∷ join_lines (m ∷ ls))

-- `if lines.last().is_some_and(|l| l.is_empty()) { lines.pop(); }`
unfoldable pub pop_empty : List Text → List Text
pop_empty [] = []
pop_empty (l ∷ []) = if is_empty l then [] else l ∷ []
pop_empty (l ∷ m ∷ ls) = l ∷ pop_empty (m ∷ ls)

-- The lines of the file that a patch works on.
unfoldable pub file_lines : Text → List Text
file_lines original =
    let lines = map (trim_end carriage_return) (split line_feed original) in
    if ends_with line_feed original then pop_empty lines else lines

-- The text of the lines, with the line feed that the file ended with.
unfoldable pub file_text : Bool → List Text → Text
file_text had_trailing_newline lines =
    if had_trailing_newline then join_lines lines ++ (line_feed ∷ []) else join_lines lines

-- No result where a hunk's context is not found.
unfoldable pub apply_update_hunks : Text → List UpdateHunk → Option Text
apply_update_hunks original hunks = elim (apply_hunks (file_lines original) 0 hunks) [
  | none ↦ none
  | some lines ↦ some (file_text (ends_with line_feed original) lines)
]

-- `str::lines`: pieces that end with a line feed, or with a carriage return and a line feed; no
-- piece after the last line feed.
unfoldable pub strip_one : ℕ → Text → Text
strip_one c [] = []
strip_one c (x ∷ []) = if x == c then [] else x ∷ []
strip_one c (x ∷ y ∷ s) = x ∷ strip_one c (y ∷ s)

unfoldable pub strip_ended : List Text → List Text
strip_ended [] = []
strip_ended (l ∷ []) = if is_empty l then [] else l ∷ []
strip_ended (l ∷ m ∷ ls) = strip_one carriage_return l ∷ strip_ended (m ∷ ls)

unfoldable pub str_lines : Text → List Text
str_lines s = strip_ended (split line_feed s)
