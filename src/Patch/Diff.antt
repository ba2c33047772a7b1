-- ===== src/Patch/Diff.antt =====
-- `diff_ops`, `diff_hunks` and `small_unified_diff` of
-- crates/kiliax-core/src/tools/builtin/apply_patch.rs: the diff that a patch reports.
pub mod Longest
use kiliax.Prelude.{
  ℕ, zero, suc, ◌+◌, ◌-◌, ◌≡◌, refl, ap, Bool, true, false, ◌||◌, List, [], ◌∷◌, ◌++◌, map, Option,
  none, some, max, min, if◌then◌else◌, leb, ltb, is_empty, length, take, drop, get_elem?, decimal,
  arith, saturating_add,
}
use mathlib.Core.Option
use kiliax.Text.{Text, codes, text_eq}
use kiliax.Patch.Lines.{join_lines, str_lines}

pub data DiffOpKind : Type 0 where
  eq del add : DiffOpKind

pub record DiffOp : Type 0 where
  pub kind : DiffOpKind
  pub text : Text

abbrev pub kept : Text → DiffOp
kept t = record { kind = DiffOpKind.eq; text = t }

abbrev pub deleted : Text → DiffOp
deleted t = record { kind = DiffOpKind.del; text = t }

abbrev pub added : Text → DiffOp
added t = record { kind = DiffOpKind.add; text = t }

-- The entry `dp[i][j]` of the table, for what is left of the two texts from `i` and `j` on.
unfoldable pub table : List Text → List Text → ℕ
table [] new = 0
table (x ∷ old) [] = 0
table (x ∷ old) (y ∷ new) =
    if text_eq x y then table old new + 1 else max (table old (y ∷ new)) (table (x ∷ old) new)

-- The three loops over what is left of the two texts.
unfoldable pub diff_ops : List Text → List Text → List DiffOp
diff_ops [] new = map added new
diff_ops (x ∷ old) [] = map deleted (x ∷ old)
diff_ops (x ∷ old) (y ∷ new) =
    let both = diff_ops old new in
    let without_old = diff_ops old (y ∷ new) in
    let without_new = diff_ops (x ∷ old) new in
    if text_eq x y
    then kept x ∷ both
    else if leb (table (x ∷ old) new) (table old (y ∷ new))
    then deleted x ∷ without_old
    else added y ∷ without_new

abbrev pub is_change : DiffOp → Bool
is_change op = elim op.kind [ eq ↦ false | _ ↦ true ]

unfoldable pub count_kind : (DiffOpKind → Bool) → List DiffOp → ℕ
count_kind p [] = 0
count_kind p (op ∷ ops) = (if p op.kind then 1 else 0) + count_kind p ops

abbrev pub is_add : DiffOpKind → Bool
is_add DiffOpKind.add = true
is_add _ = false

abbrev pub is_del : DiffOpKind → Bool
is_del DiffOpKind.del = true
is_del _ = false

-- `change_indices`, from the index `idx` on.
unfoldable pub change_indices : ℕ → List DiffOp → List ℕ
change_indices idx [] = []
change_indices idx (op ∷ ops) =
    let rest = change_indices (suc idx) ops in if is_change op then idx ∷ rest else rest

pub record DiffHunk : Type 0 where
  pub start : ℕ
  pub end : ℕ
  pub old_start : ℕ
  pub old_len : ℕ
  pub new_start : ℕ
  pub new_len : ℕ

-- The loop that merges the ranges around the changes, with the current range.
unfoldable pub merge_ranges : ℕ → ℕ → ℕ × ℕ → List ℕ → List (ℕ × ℕ)
merge_ranges context total current [] = current ∷ []
merge_ranges context total (from, to) (idx ∷ indices) =
    let start = idx - context in
    let end = min (idx + context + 1) total in
    let merged = merge_ranges context total (from, max to end) indices in
    let separate = (from, to) ∷ merge_ranges context total (start, end) indices in
    if leb start to then merged else separate

-- `old_pos[i]` and `new_pos[i]`: the lines of the two texts among the first `i` operations.
abbrev pub old_pos : List DiffOp → ℕ → ℕ
old_pos ops i = count_kind (λ k. if is_add k then false else true) (take i ops)

abbrev pub new_pos : List DiffOp → ℕ → ℕ
new_pos ops i = count_kind (λ k. if is_del k then false else true) (take i ops)

abbrev pub hunk_at : List DiffOp → ℕ × ℕ → DiffHunk
hunk_at ops (start, end) = record {
  start = start;
  end = end;
  old_start = old_pos ops start + 1;
  old_len = old_pos ops end - old_pos ops start;
  new_start = new_pos ops start + 1;
  new_len = new_pos ops end - new_pos ops start;
}

unfoldable pub diff_hunks : List DiffOp → List ℕ → ℕ → List DiffHunk
diff_hunks ops [] context = []
diff_hunks ops (first ∷ indices) context = map (hunk_at ops) (
    merge_ranges context (length ops) (first - context, min (first + context + 1) (length ops))
      indices)

pub record UnifiedDiff : Type 0 where
  pub text : Text
  pub added_lines : ℕ
  pub removed_lines : ℕ

unfoldable pub op_line : DiffOp → Text
op_line op = elim op.kind [ eq ↦ b' ' ∷ op.text | del ↦ b'-' ∷ op.text | add ↦ b'+' ∷ op.text ]

unfoldable pub hunk_lines : List DiffOp → DiffHunk → List Text
hunk_lines ops h =
    (codes "@@ -"
      ++ decimal h.old_start
      ++ codes ","
      ++ decimal h.old_len
      ++ codes " +"
      ++ decimal h.new_start
      ++ codes ","
      ++ decimal h.new_len
      ++ codes " @@")
    ∷ map op_line (take (h.end - h.start) (drop h.start ops))

unfoldable pub all_hunk_lines : List DiffOp → List DiffHunk → List Text
all_hunk_lines ops [] = []
all_hunk_lines ops (h ∷ hunks) = hunk_lines ops h ++ all_hunk_lines ops hunks

unfoldable pub diff_text : Text → List DiffOp → List Text
diff_text path ops =
    (codes "diff --git a/" ++ path ++ codes " b/" ++ path)
    ∷ (codes "--- a/" ++ path)
    ∷ (codes "+++ b/" ++ path)
    ∷ all_hunk_lines ops (diff_hunks ops (change_indices 0 ops) 3)

-- No diff for equal texts, for long ones and for many changes.
unfoldable pub small_unified_diff : Text → Text → Text → Option UnifiedDiff
small_unified_diff old new path =
    let ops = diff_ops (str_lines old) (str_lines new) in
    let added_lines = count_kind is_add ops in
    let removed_lines = count_kind is_del ops in
    let out_lines = diff_text path ops in
    if text_eq old new
    then none
    else if ltb 2000 (length (str_lines old)) || ltb 2000 (length (str_lines new))
    then none
    else if ltb 80 (added_lines + removed_lines)
    then none
    else if ltb 180 (length out_lines)
    then none
    else some (record {
      text = join_lines out_lines;
      added_lines = added_lines;
      removed_lines = removed_lines;
    })
