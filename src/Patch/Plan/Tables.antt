-- ===== src/Patch/Plan/Tables.antt =====
-- The planned paths as a table: what is found after an insertion and after an assignment, and that no
-- path is planned twice.
use kiliax.Prelude.{
  ◌≡◌, refl, ap, ◌∙◌, sym, Bool, true, false, [], ◌∷◌, Option, none, some, if◌then◌else◌, arith,
  Bool-cases, inl, inr,
}
use mathlib.Core.Option
use kiliax.Text.Equal.{text_eq-≡}
use kiliax.Text.{Text, text_eq}
use kiliax.Patch.Disk.{PlannedPathState}
use kiliax.Patch.Plan.{Paths, find_path, text_before, insert_path, set_current}

abbrev pub with_current : Option Text → PlannedPathState → PlannedPathState
with_current content s = record s { current = content }

pub text_eq-congr : (q path p : Text) → text_eq path p ≡ true → text_eq q path ≡ text_eq q p
text_eq-congr q path p h = ap (text_eq q) (text_eq-≡ path p h)

-- A text that is equal to two texts makes them equal.
text_eq-two :
    (q path p : Text) → text_eq path p ≡ false → text_eq q p ≡ true → text_eq q path ≡ false
text_eq-two q path p e k = ground arith

text_eq-flip : (a b : Text) → text_eq a b ≡ false → text_eq b a ≡ false
text_eq-flip a b h = ground arith

none_else {ℓ} :
    {A : Type ℓ} (b : Bool) (a : A) (x : Option A)
    → (if b then some a else x) ≡ none
    → (b ≡ false) × (x ≡ none)
none_else true a x h = cc
none_else false a x h = (refl, h)

one_if {ℓ} :
    {A : Type ℓ} (q path p : Text) (x y z : A)
    → text_eq path p ≡ false
    → (if text_eq q p then x else if text_eq q path then y else z)
      ≡ (if text_eq q path then y else if text_eq q p then x else z)
one_if q path p x y z e = elim (Bool-cases (text_eq q p)) [
  | inl k ↦ rw k (rw (text_eq-two q path p e k) refl)
  | inr k ↦ rw k refl
]

pub find_path-insert :
    (path : Text) (state : PlannedPathState) (paths : Paths) (q : Text)
    → find_path path paths ≡ none
    → find_path q (insert_path path state paths)
      ≡ (if text_eq q path then some state else find_path q paths)
unfolding find_path insert_path
find_path-insert path state [] q h = refl
find_path-insert path state ((p, s) ∷ paths) q h =
    let (k, t) = none_else (text_eq path p) s (find_path path paths) h in
    elim (Bool-cases (text_before path p)) [
      | inl e ↦ rw e refl
      | inr e ↦ rw e (
          ap (λ r. if text_eq q p then some s else r) (find_path-insert path state paths q t)
          ∙ one_if q path p (some s) (some state) (find_path q paths) k)
    ]

map_if {ℓ} :
    {A : Type ℓ} (f : A → A) (b : Bool) (a : A) (x : Option A)
    → Option.map f (if b then some a else x) ≡ (if b then some (f a) else Option.map f x)
map_if f true a x = refl
map_if f false a x = refl

if_same {ℓ} :
    {A : Type ℓ} (b : Bool) (x y z : A)
    → (if b then x else z) ≡ (if b then x else if b then y else z)
if_same true x y z = refl
if_same false x y z = refl

both_none {ℓ} : {A : Type ℓ} (x : Option A) (b : Bool) → x ≡ (if b then x else x)
both_none x true = refl
both_none x false = refl

pub find_path-set :
    (path : Text) (content : Option Text) (paths : Paths) (q : Text)
    → find_path q (set_current path content paths) ≡ (
        if text_eq q path
        then Option.map (with_current content) (find_path path paths)
        else find_path q paths)
unfolding find_path set_current
find_path-set path content [] q = both_none none (text_eq q path)
find_path-set path content ((p, s) ∷ paths) q = elim (Bool-cases (text_eq path p)) [
  | inl e ↦ rw e (rw (text_eq-congr q path p e) (if_same (text_eq q p) _ _ _))
  | inr e ↦ rw e (
      ap (λ r. if text_eq q p then some s else r) (find_path-set path content paths q)
      ∙ one_if q path p (some s) _ (find_path q paths) e)
]

-- No path is planned twice.
abbrev pub IsDistinct : Paths → Type 0
IsDistinct [] = Unit
IsDistinct ((p, s) ∷ paths) = (find_path p paths ≡ none) × IsDistinct paths

pub insert-IsDistinct :
    (path : Text) (state : PlannedPathState) (paths : Paths)
    → find_path path paths ≡ none
    → IsDistinct paths
    → IsDistinct (insert_path path state paths)
unfolding insert_path find_path
insert-IsDistinct path state [] n h = (refl, tt)
insert-IsDistinct path state ((p, s) ∷ paths) n h =
    let (k, t) = none_else (text_eq path p) s (find_path path paths) n in
    elim (Bool-cases (text_before path p)) [
      | inl e ↦ rw e (n, h)
      | inr e ↦ rw e (
        find_path-insert path state paths p t ∙ rw (text_eq-flip path p k) (h.0),
        insert-IsDistinct path state paths t h.1,
      )
    ]

find_path-set-none :
    (path : Text) (content : Option Text) (paths : Paths) (q : Text)
    → find_path q paths ≡ none
    → find_path q (set_current path content paths) ≡ none
find_path-set-none path content paths q n =
    find_path-set path content paths q ∙ elim (Bool-cases (text_eq q path)) [
      | inl e ↦ rw e (
          ap (Option.map (with_current content))
            (ap (λ p. find_path p paths) (sym (text_eq-≡ q path e)) ∙ n))
      | inr e ↦ rw e n
    ]

pub set-IsDistinct :
    (path : Text) (content : Option Text) (paths : Paths)
    → IsDistinct paths
    → IsDistinct (set_current path content paths)
unfolding set_current
set-IsDistinct path content [] h = tt
set-IsDistinct path content ((p, s) ∷ paths) h = elim (Bool-cases (text_eq path p)) [
  | inl e ↦ rw e h
  | inr e ↦
      rw e (find_path-set-none path content paths p h.0, set-IsDistinct path content paths h.1)
]
