-- ===== src/Patch/Parse/Fuel.antt =====
-- The loops of `parse_patch` end: each of their rounds consumes a line, so that the fuel of
-- `parse_lines`, which is the number of the lines, is enough.
use kiliax.Prelude.{
  ℕ, zero, suc, ◌≤◌, ◌<◌, ◌≡◌, ◌≢◌, refl, Bool, true, false, ◌||◌, not, List, [], ◌∷◌, Option, none,
  some, is_empty, length, if◌then◌else◌, arith, ◌==◌,
}
use kiliax.Text.{Text, codes, text_eq, trim, strip_prefix, starts_with}
use kiliax.Result.{ok, err, ok_or, ◌>>=◌}
use kiliax.Patch.Hunks.{HunkLine}
use kiliax.Patch.Plan.{PatchOp}
use kiliax.Patch.Parse.{
  ParseError, Parsed, hunk_prefix, add_prefix, delete_prefix, update_prefix, move_prefix, end_patch,
  begin_patch, ends_file, path_of, added_content, hunk_line, hunk_body, parse_hunks, parse_move,
  parse_add, parse_delete, parse_update, parse_op, parse_ops, parse_lines, parse_patch,
}

-- A result with the property, or an error that the code has too.
abbrev Fair : {A : Type 0} → (A → Type 0) → Parsed A → Type 0
Fair P (ok a) = P a
Fair P (err e) = e ≢ ParseError.out_of_fuel

abbrev AtMost : {A : Type 0} → ℕ → A × List Text → Type 0
AtMost n (a, left) = length left ≤ n

bind-Fair :
    {A : Type 0} {B : Type 0} (P : A → Type 0) (Q : B → Type 0) (x : Parsed A) (f : A → Parsed B)
    → Fair P x
    → ((a : A) → P a → Fair Q (f a))
    → Fair Q (x >>= f)
bind-Fair P Q (ok a) f h k = k a h
bind-Fair P Q (err e) f h k = h

if-Fair :
    {A : Type 0} (P : A → Type 0) (b : Bool) (x y : Parsed A)
    → Fair P x
    → (b ≡ false → Fair P y)
    → Fair P (if b then x else y)
if-Fair P true x y h k = h
if-Fair P false x y h k = k refl

option-Fair :
    {A B : Type 0} (P : A → Type 0) (o : Option B) (x : Parsed A) (f : B → Parsed A)
    → Fair P x
    → ((b : B) → Fair P (f b))
    → Fair P (elim o [ none ↦ x | some b ↦ f b ])
option-Fair P none x f h k = h
option-Fair P (some b) x f h k = k b

ok_or-Fair :
    {A : Type 0} (e : ParseError) (o : Option A)
    → e ≢ ParseError.out_of_fuel
    → Fair (λ (a : A). Unit) (ok_or e o)
ok_or-Fair e none h = h
ok_or-Fair e (some a) h = tt

path_of-Fair :
    (e : ParseError) (s : Text)
    → e ≢ ParseError.out_of_fuel
    → Fair (λ (t : Text). Unit) (path_of e s)
unfolding path_of
path_of-Fair e s h = if-Fair (λ t. Unit) (is_empty (trim s)) _ _ h (λ _. tt)

added_content-Fair : (lines : List Text) → Fair (AtMost (length lines)) (added_content lines)
unfolding added_content
added_content-Fair [] = omega arith
added_content-Fair (l ∷ lines) =
    if-Fair (AtMost (length (l ∷ lines))) (ends_file l) _ _ (omega arith) (λ _.
      bind-Fair (λ t. Unit) _ (ok_or ParseError.expected_plus (strip_prefix (codes "+") l)) _
        (ok_or-Fair _ _ (λ h. cc))
        (λ t _.
          bind-Fair (AtMost (length lines)) _ (added_content lines) _ (added_content-Fair lines)
            (λ r h. omega arith)))

hunk_line-Fair : (l : Text) → Fair (λ (h : HunkLine). Unit) (hunk_line l)
unfolding hunk_line
hunk_line-Fair [] = λ h. cc
hunk_line-Fair (c ∷ l) =
    if-Fair (λ h. Unit) (c == b' ') _ _ tt
      (λ _.
        if-Fair (λ h. Unit) (c == b'+') _ _ tt
          (λ _. if-Fair (λ h. Unit) (c == b'-') _ _ tt (λ _ h. cc)))

hunk_body-Fair : (lines : List Text) → Fair (AtMost (length lines)) (hunk_body lines)
unfolding hunk_body
hunk_body-Fair [] = omega arith
hunk_body-Fair (l ∷ lines) =
    if-Fair (AtMost (length (l ∷ lines))) (starts_with hunk_prefix l || ends_file l)
      (ok ([], l ∷ lines)) _ (omega arith)
      (λ _.
        bind-Fair (λ t. Unit) _ (hunk_line l) _ (hunk_line-Fair l)
          (λ t _.
            bind-Fair (AtMost (length lines)) _ (hunk_body lines) _ (hunk_body-Fair lines)
              (λ r h. omega arith)))

parse_hunks-Fair :
    (fuel : ℕ) (lines : List Text)
    → length lines < fuel
    → Fair (AtMost (length lines)) (parse_hunks fuel lines)
unfolding parse_hunks
parse_hunks-Fair zero lines h = elim h [ ]
parse_hunks-Fair (suc fuel) [] h = omega arith
parse_hunks-Fair (suc fuel) (l ∷ lines) h =
    if-Fair (AtMost (length (l ∷ lines))) (ends_file l) (ok ([], l ∷ lines)) _ (omega arith) (λ _.
      if-Fair (AtMost (length (l ∷ lines))) (not (starts_with hunk_prefix l))
        (err (ParseError.expected_header l)) _ (λ h. cc)
        (λ _. bind-Fair (AtMost (length lines)) _ (hunk_body lines) _ (hunk_body-Fair lines) (λ r k.
          bind-Fair (AtMost (length r.1)) _ (parse_hunks fuel r.1) _
            (parse_hunks-Fair fuel r.1 (omega arith)) (λ s m. omega arith))))

parse_move-Fair : (lines : List Text) → Fair (AtMost (length lines)) (parse_move lines)
unfolding parse_move
parse_move-Fair [] = omega arith
parse_move-Fair (l ∷ lines) =
    option-Fair (AtMost (length (l ∷ lines))) (strip_prefix move_prefix l) (ok (none, l ∷ lines)) _
      (omega arith)
      (λ rest.
        bind-Fair (λ t. Unit) _ (path_of ParseError.missing_move_path rest) _
          (path_of-Fair _ rest (λ h. cc)) (λ t _. omega arith))

parse_op-Fair :
    (fuel : ℕ) (line : Text) (lines : List Text)
    → length lines < fuel
    → Fair (AtMost (length lines)) (parse_op fuel line lines)
unfolding parse_op parse_add parse_delete parse_update
parse_op-Fair fuel line lines h =
    let P : PatchOp × List Text → Type 0 = AtMost (length lines) in
    option-Fair P (strip_prefix add_prefix line) _ (λ rest. parse_add rest lines)
      (option-Fair P (strip_prefix delete_prefix line) _ (λ rest. parse_delete rest lines)
        (option-Fair P (strip_prefix update_prefix line) (err (ParseError.unexpected_line line))
          (λ rest. parse_update fuel rest lines) (λ h. cc)
          (λ rest.
            bind-Fair (λ t. Unit) P (path_of ParseError.missing_path rest) _
              (path_of-Fair _ rest (λ h. cc))
              (λ t _.
                bind-Fair (AtMost (length lines)) P (parse_move lines) _ (parse_move-Fair lines)
                  (λ m k.
                    bind-Fair (AtMost (length m.1)) P (parse_hunks fuel m.1) _
                      (parse_hunks-Fair fuel m.1 (omega arith)) (λ r i. omega arith)))))
        (λ rest.
          bind-Fair (λ t. Unit) P (path_of ParseError.missing_path rest) _
            (path_of-Fair _ rest (λ h. cc)) (λ t _. omega arith)))
      (λ rest.
        bind-Fair (λ t. Unit) P (path_of ParseError.missing_path rest) _
          (path_of-Fair _ rest (λ h. cc))
          (λ t _.
            bind-Fair (AtMost (length lines)) P (added_content lines) _ (added_content-Fair lines)
              (λ r k. k)))

parse_ops-Fair :
    (fuel : ℕ) (lines : List Text)
    → length lines < fuel
    → Fair (λ (ops : List PatchOp). Unit) (parse_ops fuel lines)
unfolding parse_ops
parse_ops-Fair zero lines h = elim h [ ]
parse_ops-Fair (suc fuel) [] h = λ h. cc
parse_ops-Fair (suc fuel) (line ∷ lines) h =
    if-Fair (λ ops. Unit) (text_eq line end_patch) (ok []) _ tt
      (λ _.
        bind-Fair (AtMost (length lines)) (λ ops. Unit) (parse_op (suc fuel) line lines) _
          (parse_op-Fair (suc fuel) line lines (omega arith))
          (λ r k.
            bind-Fair (λ ops. Unit) (λ ops. Unit) (parse_ops fuel r.1) _
              (parse_ops-Fair fuel r.1 (omega arith)) (λ ops _. tt)))

parse_lines-Fair : (lines : List Text) → Fair (λ (ops : List PatchOp). Unit) (parse_lines lines)
unfolding parse_lines
parse_lines-Fair [] = λ h. cc
parse_lines-Fair (first ∷ lines) =
    if-Fair (λ ops. Unit) (text_eq first begin_patch) _ (err ParseError.expected_begin)
      (parse_ops-Fair (suc (length lines)) lines (omega arith)) (λ _ h. cc)

Fair-fuel : {A : Type 0} (P : A → Type 0) (x : Parsed A) → Fair P x → x ≢ err ParseError.out_of_fuel
Fair-fuel P (ok a) h e = cc
Fair-fuel P (err e) h k = h (cc)

-- The parser ends on every input: the number of the lines is fuel enough for each of its loops.
pub parse_patch-ends : (input : Text) → parse_patch input ≢ err ParseError.out_of_fuel
unfolding parse_patch
parse_patch-ends input = Fair-fuel (λ ops. Unit) _ (parse_lines-Fair _)
