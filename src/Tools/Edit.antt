-- ===== src/Tools/Edit.antt =====
-- The replacement of a unique text of crates/kiliax-core/src/tools/builtin/edit_file.rs. The texts that
-- are tried after the given one (`replacement_candidates`) are an argument.
pub mod Once
use kiliax.Prelude.{
  ℕ, zero, suc, ◌+◌, Bool, true, false, ◌||◌, ◌&&◌, not, List, [], ◌∷◌, ◌++◌, Option, none, some,
  is_some, if◌then◌else◌, is_empty, length, take, drop, any, ◌==◌,
}
use mathlib.Core.Option
use kiliax.Text.{Text, codes, text_eq, strip_prefix, starts_with}
use kiliax.Result.{Result, ok, err, ◌>>=◌}

pub data EditError : Type 0 where
  identical not_found multiple_matches : EditError

-- `str::find`, `str::rfind` and `str::contains`, by the place among the characters.
unfoldable pub find : Text → Text → Option ℕ
find pattern [] = if is_empty pattern then some 0 else none
find pattern (c ∷ s) =
    let rest = find pattern s in if starts_with pattern (c ∷ s) then some 0 else Option.map suc rest

unfoldable pub rfind : Text → Text → Option ℕ
rfind pattern [] = if is_empty pattern then some 0 else none
rfind pattern (c ∷ s) = elim (rfind pattern s) [
  | some i ↦ some (suc i)
  | none ↦ if starts_with pattern (c ∷ s) then some 0 else none
]

-- `str::replace` of a text that is not empty; each round takes a character away.
unfoldable pub replace : ℕ → Text → Text → Text → Text
replace zero pattern new s = s
replace (suc fuel) pattern new [] = []
replace (suc fuel) pattern new (c ∷ s) = elim (strip_prefix pattern (c ∷ s)) [
  | some rest ↦ new ++ replace fuel pattern new rest
  | none ↦ c ∷ replace fuel pattern new s
]

abbrev pub same_place : Option ℕ → ℕ → Bool
same_place none i = false
same_place (some j) i = j == i

-- The loop over the candidates.
unfoldable pub replace_from : Text → Text → Bool → Bool → List Text → Result EditError Text
replace_from content new_string replace_all was_not_found [] =
    err (if was_not_found then EditError.not_found else EditError.multiple_matches)
replace_from content new_string replace_all was_not_found (search ∷ candidates) =
    let later = replace_from content new_string replace_all false candidates in
    let unseen = replace_from content new_string replace_all was_not_found candidates in
    elim (find search content) [
      | none ↦ unseen
      | some index ↦
          if replace_all
          then ok (replace (length content) search new_string content)
          else if not (same_place (rfind search content) index)
          then later
          else ok (take index content ++ new_string ++ drop (index + length search) content)
    ]

-- `push_candidate`
unfoldable pub push_candidate : List Text → Text → List Text
push_candidate out value =
    if not (is_empty value) && not (any (λ existing. text_eq existing value) out)
    then out ++ (value ∷ [])
    else out

-- The candidates begin with the text itself.
unfoldable pub replace_content :
    (Text → Text → List Text) → Text → Text → Text → Bool → Result EditError Text
replace_content other_candidates content old_string new_string replace_all =
    if text_eq old_string new_string
    then err EditError.identical
    else replace_from content new_string replace_all true
        (push_candidate [] old_string ++ other_candidates content old_string)

pub record TextWithBom : Type 0 where
  pub bom : Bool
  pub text : Text

-- `TextWithBom::split`
unfoldable pub split_bom : Text → TextWithBom
split_bom text = elim (strip_prefix (0xfeff ∷ []) text) [
  | some rest ↦ record { bom = true; text = rest }
  | none ↦ record { bom = false; text = text }
]

unfoldable pub join_bom : Text → Bool → Text
join_bom text bom = if bom then 0xfeff ∷ text else text

unfoldable pub normalize_line_endings : Text → Text
normalize_line_endings text = replace (length text) (codes "\r\n") (codes "\n") text

-- `detect_line_ending`: whether it is a carriage return and a line feed.
unfoldable pub has_crlf : Text → Bool
has_crlf text = is_some (find (codes "\r\n") text)

unfoldable pub convert_to_line_ending : Text → Bool → Text
convert_to_line_ending text crlf =
    if crlf then replace (length text) (codes "\n") (codes "\r\n") text else text

-- The new text of a file that is there.
unfoldable pub edit_text :
    (Text → Text → List Text) → Text → Text → Text → Bool → Result EditError Text
edit_text other_candidates raw old_string new_string replace_all =
    let source = split_bom raw in
    let crlf = has_crlf source.text in
    let old = convert_to_line_ending (normalize_line_endings old_string) crlf in
    let next = split_bom (convert_to_line_ending (normalize_line_endings new_string) crlf) in
    if text_eq old_string new_string then err EditError.identical else do
      content_new ← replace_content other_candidates source.text old next.text replace_all
      ok (join_bom content_new (source.bom || next.bom))
