-- ===== src/Patch/Hunks.antt =====
-- The hunks of a patch: `find_subsequence` and `apply_update_hunks` of
-- crates/kiliax-core/src/tools/builtin/apply_patch.rs, on the lines of the file.
use kiliax.Prelude.{
  and_true, ℕ, zero, suc, ◌+◌, ◌-◌, ◌≡◌, refl, ap, ap₂, ◌∙◌, sym, Bool, true, false, ◌&&◌, ◌||◌,
  List, [], ◌∷◌, ◌++◌, Option, none, some, min, is_empty, ltb, leb, if◌then◌else◌, arith, take,
  drop, length, take-append-drop, Bool-cases, Option-cases, inl, inr, none-some, some_injective,
}
use kiliax.Text.Equal.{text_eq-≡}
use kiliax.Text.{Text, text_eq}

pub data HunkLine : Type 0 where
  context add del : Text → HunkLine

pub record UpdateHunk : Type 0 where
  pub header : Option Text
  pub lines : List HunkLine

-- The lines that a hunk expects, and those that it puts in their place.
unfoldable pub before_of : List HunkLine → List Text
before_of [] = []
before_of (HunkLine.context s ∷ ls) = s ∷ before_of ls
before_of (HunkLine.del s ∷ ls) = s ∷ before_of ls
before_of (HunkLine.add s ∷ ls) = before_of ls

unfoldable pub after_of : List HunkLine → List Text
after_of [] = []
after_of (HunkLine.context s ∷ ls) = s ∷ after_of ls
after_of (HunkLine.del s ∷ ls) = after_of ls
after_of (HunkLine.add s ∷ ls) = s ∷ after_of ls

-- The loop over `needle`: the lines from `i` on are those of the needle.
unfoldable pub stands_at : List Text → List Text → Bool
stands_at [] lines = true
stands_at (n ∷ ns) [] = false
stands_at (n ∷ ns) (l ∷ ls) = text_eq l n && stands_at ns ls

-- The loop over `count` places from `i` on.
unfoldable pub search_from : List Text → List Text → ℕ → ℕ → Option ℕ
search_from haystack needle i zero = none
search_from haystack needle i (suc count) =
    let rest = search_from haystack needle (suc i) count in
    if stands_at needle (drop i haystack) then some i else rest

unfoldable pub find_subsequence : List Text → ℕ → List Text → Option ℕ
find_subsequence haystack start needle =
    if is_empty needle
    then some (min start (length haystack))
    else if ltb (length haystack) (length needle) || leb (length haystack) start
    then none
    else search_from haystack needle start (length haystack - length needle + 1 - start)

-- The place of a hunk: from the cursor on, and then from the start.
unfoldable pub place_of : List Text → ℕ → List Text → Option ℕ
place_of lines cursor before =
    if is_empty before
    then some (min cursor (length lines))
    else elim (find_subsequence lines cursor before) [
      | some p ↦ some p
      | none ↦ find_subsequence lines 0 before
    ]

-- The loop over the hunks: the lines and the cursor; no result where a context is not found.
unfoldable pub apply_hunks : List Text → ℕ → List UpdateHunk → Option (List Text)
apply_hunks lines cursor [] = some lines
apply_hunks lines cursor (h ∷ hunks) = elim (place_of lines cursor (before_of h.lines)) [
  | none ↦ none
  | some pos ↦
      let after = after_of h.lines in
      apply_hunks
        (take pos lines
          ++ after
          ++ drop (min (pos + length (before_of h.lines)) (length lines)) lines)
        (pos + length after) hunks
]

stands_at-prefix : (ns ls : List Text) → stands_at ns ls ≡ true → ls ≡ ns ++ drop (length ns) ls
unfolding stands_at
stands_at-prefix [] ls h = refl
stands_at-prefix (n ∷ ns) [] h = cc
stands_at-prefix (n ∷ ns) (l ∷ ls) h =
    let (e, k) = and_true (text_eq l n) (stands_at ns ls) h in
    ap₂ (◌∷◌) (text_eq-≡ l n e) (stands_at-prefix ns ls k)

step_here :
    (hs ns : List Text) (i count : ℕ)
    → stands_at ns (drop i hs) ≡ true
    → search_from hs ns i (suc count) ≡ some i
unfolding search_from
step_here hs ns i count e = rw e refl

step_on :
    (hs ns : List Text) (i count : ℕ)
    → stands_at ns (drop i hs) ≡ false
    → search_from hs ns i (suc count) ≡ search_from hs ns (suc i) count
unfolding search_from
step_on hs ns i count e = rw e refl

search_from-stands :
    (hs ns : List Text) (i count p : ℕ)
    → search_from hs ns i count ≡ some p
    → stands_at ns (drop p hs) ≡ true
unfolding search_from
search_from-stands hs ns i zero p h = cc
search_from-stands hs ns i (suc count) p h = elim (Bool-cases (stands_at ns (drop i hs))) [
  | inl e ↦ rw (some_injective p i (sym h ∙ step_here hs ns i count e)) e
  | inr e ↦ search_from-stands hs ns (suc i) count p (sym (step_on hs ns i count e) ∙ h)
]

find_out :
    (hs : List Text) (n : Text) (ns : List Text) (start : ℕ)
    → ltb (length hs) (suc (length ns)) || leb (length hs) start ≡ true
    → find_subsequence hs start (n ∷ ns) ≡ none
unfolding find_subsequence
find_out hs n ns start e = rw (find_subsequence, e) refl

find_in :
    (hs : List Text) (n : Text) (ns : List Text) (start : ℕ)
    → ltb (length hs) (suc (length ns)) || leb (length hs) start ≡ false
    → find_subsequence hs start (n ∷ ns)
      ≡ search_from hs (n ∷ ns) start (length hs - suc (length ns) + 1 - start)
unfolding find_subsequence
find_in hs n ns start e = rw (find_subsequence, e) refl

find_subsequence-stands :
    (hs ns : List Text) (start p : ℕ)
    → find_subsequence hs start ns ≡ some p
    → stands_at ns (drop p hs) ≡ true
unfolding find_subsequence stands_at
find_subsequence-stands hs [] start p h = refl
find_subsequence-stands hs (n ∷ ns) start p h =
    elim (Bool-cases (ltb (length hs) (suc (length ns)) || leb (length hs) start)) [
      | inl e ↦ elim (none-some p (sym (find_out hs n ns start e) ∙ h)) [ ]
      | inr e ↦ search_from-stands hs (n ∷ ns) start _ p (sym (find_in hs n ns start e) ∙ h)
    ]

place_again :
    (lines : List Text) (cursor : ℕ) (b : Text) (before : List Text)
    → find_subsequence lines cursor (b ∷ before) ≡ none
    → place_of lines cursor (b ∷ before) ≡ find_subsequence lines 0 (b ∷ before)
unfolding place_of
place_again lines cursor b before e = rw (place_of, e) refl

place_first :
    (lines : List Text) (cursor : ℕ) (b : Text) (before : List Text) (q : ℕ)
    → find_subsequence lines cursor (b ∷ before) ≡ some q
    → place_of lines cursor (b ∷ before) ≡ some q
unfolding place_of
place_first lines cursor b before q e = rw (place_of, e) refl

hunk_out :
    (lines : List Text) (cursor : ℕ) (u : UpdateHunk) (hunks : List UpdateHunk)
    → place_of lines cursor (before_of u.lines) ≡ none
    → apply_hunks lines cursor (u ∷ hunks) ≡ none
unfolding apply_hunks
hunk_out lines cursor u hunks e = rw (apply_hunks, e) refl

hunk_in :
    (lines : List Text) (cursor : ℕ) (u : UpdateHunk) (hunks : List UpdateHunk) (p : ℕ)
    → place_of lines cursor (before_of u.lines) ≡ some p
    → apply_hunks lines cursor (u ∷ hunks)
      ≡ apply_hunks
          (take p lines
            ++ after_of u.lines
            ++ drop (min (p + length (before_of u.lines)) (length lines)) lines)
          (p + length (after_of u.lines))
          hunks
unfolding apply_hunks
hunk_in lines cursor u hunks p e = rw (apply_hunks, e) refl

place_of-stands :
    (lines : List Text) (cursor : ℕ) (before : List Text) (p : ℕ)
    → place_of lines cursor before ≡ some p
    → stands_at before (drop p lines) ≡ true
unfolding place_of stands_at
place_of-stands lines cursor [] p h = refl
place_of-stands lines cursor (b ∷ before) p h =
    elim (Option-cases (find_subsequence lines cursor (b ∷ before))) [
      | inl e ↦
          find_subsequence-stands lines (b ∷ before) 0 p
            (sym (place_again lines cursor b before e) ∙ h)
      | inr (q, e) ↦
          find_subsequence-stands lines (b ∷ before) cursor p
            (e ∙ sym (place_first lines cursor b before q e) ∙ h)
    ]

min_zero : (n : ℕ) → min 0 n ≡ 0
min_zero n = omega arith

min-suc : (m n : ℕ) → min (suc m) (suc n) ≡ suc (min m n)
min-suc m n = omega arith

min_nil : (m : ℕ) → min (suc m) 0 ≡ 0
min_nil m = omega arith

drop-min : (n : ℕ) (xs : List Text) → drop (min n (length xs)) xs ≡ drop n xs
drop-min zero xs = ap (λ k. drop k xs) (min_zero (length xs))
drop-min (suc n) [] = ap (λ k. drop {A = Text} k []) (min_nil n)
drop-min (suc n) (x ∷ xs) = ap (λ k. drop k (x ∷ xs)) (min-suc n (length xs)) ∙ drop-min n xs

zero_plus : (n : ℕ) → 0 + n ≡ n
zero_plus n = omega arith

suc-plus : (m n : ℕ) → suc m + n ≡ suc (m + n)
suc-plus m n = omega arith

drop_nil : (n : ℕ) → drop {A = Text} n [] ≡ []
drop_nil zero = refl
drop_nil (suc n) = refl

drop-plus : (p k : ℕ) (xs : List Text) → drop (p + k) xs ≡ drop k (drop p xs)
drop-plus zero k xs = ap (λ n. drop n xs) (zero_plus k)
drop-plus (suc p) k [] = drop_nil (suc p + k) ∙ sym (drop_nil k)
drop-plus (suc p) k (x ∷ xs) = ap (λ n. drop n (x ∷ xs)) (suc-plus p k) ∙ drop-plus p k xs

-- The hunks, one after the other, each replace the lines that they expect, wherever these stand.
abbrev pub Patches : List UpdateHunk → List Text → List Text → Type 0
Patches [] lines out = lines ≡ out
Patches (h ∷ hunks) lines out =
    (pre : List Text) × (rest : List Text) × (lines ≡ pre ++ (before_of h.lines ++ rest))
    × Patches hunks (pre ++ after_of h.lines ++ rest) out

-- Where hunks apply, each of them has replaced just the lines that it expects by its own, in order.
pub apply_hunks-Patches :
    (hunks : List UpdateHunk) (lines : List Text) (cursor : ℕ) (out : List Text)
    → apply_hunks lines cursor hunks ≡ some out
    → Patches hunks lines out
unfolding apply_hunks
apply_hunks-Patches [] lines cursor out h = some_injective lines out h
apply_hunks-Patches (u ∷ hunks) lines cursor out h =
    elim (Option-cases (place_of lines cursor (before_of u.lines))) [
      | inl e ↦ elim (none-some out (sym (hunk_out lines cursor u hunks e) ∙ h)) [ ]
      | inr (p, e) ↦ (
        take p lines,
        drop (length (before_of u.lines)) (drop p lines),
        sym (take-append-drop p lines)
            ∙ ap (λ t. take p lines ++ t)
                (stands_at-prefix (before_of u.lines) (drop p lines)
                  (place_of-stands lines cursor (before_of u.lines) p e)),
        apply_hunks-Patches hunks _ _ out (
            ap
              (λ t.
                apply_hunks (take p lines ++ after_of u.lines ++ t) (p + length (after_of u.lines))
                  hunks)
              (sym (
                drop-min (p + length (before_of u.lines)) lines
                ∙ drop-plus p (length (before_of u.lines)) lines))
            ∙ sym (hunk_in lines cursor u hunks p e)
            ∙ h),
      )
    ]
