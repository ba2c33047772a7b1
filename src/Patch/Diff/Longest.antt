-- ===== src/Patch/Diff/Longest.antt =====
-- The diff of two texts keeps a longest common subsequence of their lines.
use kiliax.Prelude.{
  ℕ, ◌+◌, ◌≤◌, ◌≡◌, refl, ap, ap₂, ◌∙◌, sym, false, List, [], ◌∷◌, map, max, leb, leb→le, ◌<◌,
  length, arith, Bool-cases, inl, inr,
}
use kiliax.Text.Equal.{text_eq-≡}
use kiliax.Text.{Text, text_eq}
use kiliax.Patch.Diff.{DiffOpKind, DiffOp, added, deleted, table, diff_ops}

-- The lines that the operations take from the old text, put into the new one, and keep.
abbrev pub old_lines : List DiffOp → List Text
old_lines [] = []
old_lines (op ∷ ops) = elim op.kind [
  | DiffOpKind.eq ↦ op.text ∷ old_lines ops
  | DiffOpKind.del ↦ op.text ∷ old_lines ops
  | DiffOpKind.add ↦ old_lines ops
]

abbrev pub new_lines : List DiffOp → List Text
new_lines [] = []
new_lines (op ∷ ops) = elim op.kind [
  | DiffOpKind.eq ↦ op.text ∷ new_lines ops
  | DiffOpKind.del ↦ new_lines ops
  | DiffOpKind.add ↦ op.text ∷ new_lines ops
]

abbrev pub kept_lines : List DiffOp → List Text
kept_lines [] = []
kept_lines (op ∷ ops) = elim op.kind [
  | DiffOpKind.eq ↦ op.text ∷ kept_lines ops
  | DiffOpKind.del ↦ kept_lines ops
  | DiffOpKind.add ↦ kept_lines ops
]

pub data IsSubsequence : List Text → List Text → Type 0 where
  empty : IsSubsequence [] []
  skip : {xs ys : List Text} {y : Text} → IsSubsequence xs ys → IsSubsequence xs (y ∷ ys)
  keep :
      {xs ys : List Text} {x y : Text}
      → x ≡ y
      → IsSubsequence xs ys
      → IsSubsequence (x ∷ xs) (y ∷ ys)

text_ne : (a b : Text) → text_eq a b ≡ false → a ≡ b → ⊥
text_ne a b h e = ground arith

IsSubsequence-tail :
    {x : Text} {xs ys : List Text} → IsSubsequence (x ∷ xs) ys → IsSubsequence xs ys
IsSubsequence-tail (skip s) = skip (IsSubsequence-tail s)
IsSubsequence-tail (keep e s) = skip s

-- The step of the table at equal lines.
same :
    (x y : Text) (old new cs : List Text)
    → IsSubsequence cs (x ∷ old)
    → IsSubsequence cs (y ∷ new)
    → ((ds : List Text) → IsSubsequence ds old → IsSubsequence ds new → length ds ≤ table old new)
    → length cs ≤ table old new + 1
same x y old new cs (skip s) (skip t) h = omega (arith, h cs s t)
same x y old new (c ∷ cs) (skip s) (keep e t) h = omega (arith, h cs (IsSubsequence-tail s) t)
same x y old new (c ∷ cs) (keep e s) (skip t) h = omega (arith, h cs s (IsSubsequence-tail t))
same x y old new (c ∷ cs) (keep e s) (keep f t) h = omega (arith, h cs s t)

-- The step at lines that differ.
differs :
    (x y : Text) (old new cs : List Text)
    → text_eq x y ≡ false
    → IsSubsequence cs (x ∷ old)
    → IsSubsequence cs (y ∷ new)
    → (IsSubsequence cs old → length cs ≤ table old (y ∷ new))
    → (IsSubsequence cs new → length cs ≤ table (x ∷ old) new)
    → length cs ≤ max (table old (y ∷ new)) (table (x ∷ old) new)
differs x y old new cs ne (skip s) t h k = omega (arith, h s)
differs x y old new (c ∷ cs) ne (keep e s) (skip t) h k = omega (arith, k t)
differs x y old new (c ∷ cs) ne (keep e s) (keep f t) h k = elim (text_ne x y ne (sym e ∙ f)) [ ]

table-longest :
    (old new cs : List Text)
    → IsSubsequence cs old
    → IsSubsequence cs new
    → length cs ≤ table old new
unfolding table
table-longest [] new [] empty t = omega arith
table-longest [] new (_ ∷ _) s t = elim s [ ]
table-longest (x ∷ old) [] [] s empty = omega arith
table-longest (x ∷ old) [] (_ ∷ _) s t = elim t [ ]
table-longest (x ∷ old) (y ∷ new) cs s t = elim (Bool-cases (text_eq x y)) [
  | inl e ↦ rw e (same x y old new cs s t (table-longest old new))
  | inr e ↦ rw e (
      differs x y old new cs e s t (λ s. table-longest old (y ∷ new) cs s t)
        (table-longest (x ∷ old) new cs s))
]

all-added :
    (new : List Text)
    → (old_lines (map added new) ≡ [])
      × (new_lines (map added new) ≡ new)
      × (kept_lines (map added new) ≡ [])
all-added [] = (refl, refl, refl)
all-added (y ∷ new) = let (a, b, c) = all-added new in (a, ap (◌∷◌ y) b, c)

all-deleted :
    (old : List Text)
    → (old_lines (map deleted old) ≡ old)
      × (new_lines (map deleted old) ≡ [])
      × (kept_lines (map deleted old) ≡ [])
all-deleted [] = (refl, refl, refl)
all-deleted (x ∷ old) = let (a, b, c) = all-deleted old in (ap (◌∷◌ x) a, b, c)

table_nil : (old : List Text) → table old [] ≡ 0
unfolding table
table_nil [] = refl
table_nil (x ∷ old) = refl

leb→lt : (a b : ℕ) → leb a b ≡ false → b < a
leb→lt a b h = ground arith

diff_ops-lines :
    (old new : List Text)
    → (old_lines (diff_ops old new) ≡ old)
      × (new_lines (diff_ops old new) ≡ new)
      × (length (kept_lines (diff_ops old new)) ≡ table old new)
unfolding diff_ops table
diff_ops-lines [] new = let (a, b, c) = all-added new in (a, b, ap length c)
diff_ops-lines (x ∷ old) [] = let (a, b, c) = all-deleted (x ∷ old) in (a, b, ap length c)
diff_ops-lines (x ∷ old) (y ∷ new) =
    let (a, b, c) = diff_ops-lines old new in
    let (d, e, f) = diff_ops-lines old (y ∷ new) in
    let (g, h, k) = diff_ops-lines (x ∷ old) new in
    elim (Bool-cases (text_eq x y)) [
      | inl t ↦ rw t (ap (◌∷◌ x) a, ap₂ (◌∷◌) (text_eq-≡ x y t) b, omega arith)
      | inr t ↦ elim (Bool-cases (leb (table (x ∷ old) new) (table old (y ∷ new)))) [
        | inl l ↦
            rw (t, l)
              (
                ap (◌∷◌ x) d,
                e,
                omega (arith, f, leb→le (table (x ∷ old) new) (table old (y ∷ new)) l),
              )
        | inr l ↦
            rw (t, l)
              (
                g,
                ap (◌∷◌ y) h,
                omega (arith, k, leb→lt (table (x ∷ old) new) (table old (y ∷ new)) l),
              )
      ]
    ]

-- The diff of two lists of lines is a diff of them: what it keeps and deletes is the old list, what
-- it keeps and adds is the new one. It keeps as many lines as any common subsequence `cs` has.
pub diff_ops-longest :
    (old new cs : List Text)
    → IsSubsequence cs old
    → IsSubsequence cs new
    → (old_lines (diff_ops old new) ≡ old)
      × (new_lines (diff_ops old new) ≡ new)
      × (length cs ≤ length (kept_lines (diff_ops old new)))
diff_ops-longest old new cs s t =
    let (a, b, c) = diff_ops-lines old new in (a, b, omega (arith, c, table-longest old new cs s t))
