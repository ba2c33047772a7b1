-- ===== src/Tools/Paths/Nearest.antt =====
-- What `nearest_existing_ancestor` finds.
use kiliax.Prelude.{
  ℕ, zero, suc, ◌-◌, ◌≡◌, ◌⊎◌, ap, ◌∙◌, sym, true, false, List, [], ◌∷◌, some, length, take,
  is_empty, arith, min, take-nil, length-take, ◌≤◌, ◌<◌, Option, none, Bool-cases, inl, inr,
}
use kiliax.Tools.Paths.{FilePath, FileSystem, ancestor, parent, nearest_from}

take_congr {ℓ} : {A : Type ℓ} (m n : ℕ) (xs : List A) → m ≡ n → take m xs ≡ take n xs
take_congr m n xs h = ap (λ i. take i xs) h

take-take {ℓ} : {A : Type ℓ} (m n : ℕ) (xs : List A) → take m (take n xs) ≡ take (min m n) xs
take-take zero n xs = take_congr zero (min zero n) xs (omega arith)
take-take (suc m) zero xs = take_congr zero (min (suc m) zero) xs (omega arith)
take-take (suc m) (suc n) [] = sym (take-nil (min (suc m) (suc n)))
take-take (suc m) (suc n) (x ∷ xs) =
    ap (λ l. x ∷ l) (take-take m n xs)
    ∙ take_congr (suc (min m n)) (min (suc m) (suc n)) (x ∷ xs) (omega arith)

take-all {ℓ} : {A : Type ℓ} (n : ℕ) (xs : List A) → length xs ≤ n → take n xs ≡ xs
take-all n [] h = take-nil n
take-all zero (x ∷ xs) h = absurd (omega arith)
take-all (suc n) (x ∷ xs) h = ap (λ l. x ∷ l) (take-all n xs (omega arith))

empty-length {ℓ} : {A : Type ℓ} (xs : List A) → is_empty xs ≡ true → length xs ≤ 0
empty-length [] h = omega arith
empty-length (x ∷ xs) h = cc

filled-length {ℓ} : {A : Type ℓ} (xs : List A) → is_empty xs ≡ false → 0 < length xs
filled-length [] h = cc
filled-length (x ∷ xs) h = omega arith

below-or-above : (a b : ℕ) → (a ≤ b) ⊎ (b < a)
below-or-above a b = ground arith

ancestor-ancestor :
    (m n : ℕ) (path : FilePath) → ancestor m (ancestor n path) ≡ ancestor (min m n) path
ancestor-ancestor m n path =
    ap (λ cs. record path { components = cs }) (take-take m n path.components)

ancestor-all : (n : ℕ) (path : FilePath) → length path.components ≤ n → ancestor n path ≡ path
ancestor-all n path h = ap (λ cs. record path { components = cs }) (take-all n path.components h)

-- The path above a path has the ancestors of that path, but for the path itself.
ancestor-above :
    (m : ℕ) (path : FilePath)
    → m ≤ length path.components - 1
    → ancestor m (ancestor (length path.components - 1) path) ≡ ancestor m path
ancestor-above m path h =
    ancestor-ancestor m (length path.components - 1) path
    ∙ ap (λ cs. record path { components = cs })
        (take_congr (min m (length path.components - 1)) m path.components (omega arith))

module _ (fs : FileSystem) where
  open fs use {exists, canonicalize}

  -- The longest of the path's ancestors, the path itself among them, that exists.
  abbrev pub IsNearest : FilePath → FilePath → Type 0
  IsNearest path up =
      (n : ℕ) × (up ≡ ancestor n path)
      × (exists up ≡ true)
      × ((m : ℕ) → n < m → m ≤ length path.components → exists (ancestor m path) ≡ false)

  abbrev pub NoneExists : FilePath → Type 0
  NoneExists path = (m : ℕ) → exists (ancestor m path) ≡ false

  pub self : (cursor : FilePath) → exists cursor ≡ true → IsNearest cursor cursor
  self cursor e = (
    length cursor.components,
    sym (ancestor-all (length cursor.components) cursor (omega arith)),
    e,
    λ m more all. absurd (omega arith),
  )

  all-missing :
      (m : ℕ) (cursor : FilePath)
      → exists cursor ≡ false
      → length cursor.components ≤ m
      → exists (ancestor m cursor) ≡ false
  all-missing m cursor e h = ap exists (ancestor-all m cursor h) ∙ e

  -- From the path above on, where the path does not exist.
  IsNearest-above :
      (cursor up : FilePath)
      → exists cursor ≡ false
      → 0 < length cursor.components
      → IsNearest (ancestor (length cursor.components - 1) cursor) up
      → IsNearest cursor up
  IsNearest-above cursor up e k (n, l, t, between) =
      let d : ℕ = length cursor.components - 1 in
      (
        min n d,
        l ∙ ancestor-ancestor n d cursor,
        t,
        λ m more all. elim (below-or-above m d) [
          | inl h ↦
              sym (ap exists (ancestor-above m cursor h))
              ∙ between m (omega arith) (omega (arith, length-take d cursor.components))
          | inr h ↦ all-missing m cursor e (omega arith)
        ],
      )

  NoneExists-above :
      (cursor : FilePath)
      → exists cursor ≡ false
      → NoneExists (ancestor (length cursor.components - 1) cursor)
      → NoneExists cursor
  NoneExists-above cursor e none_above m = elim (below-or-above m (length cursor.components - 1)) [
    | inl h ↦ sym (ap exists (ancestor-above m cursor h)) ∙ none_above m
    | inr h ↦ all-missing m cursor e (omega arith)
  ]

  -- What the search says.
  abbrev pub Searched : FilePath → Option FilePath → Type 0
  Searched path none = NoneExists path
  Searched path (some up) = IsNearest path up

  Searched-above :
      (cursor : FilePath) (o : Option FilePath)
      → exists cursor ≡ false
      → 0 < length cursor.components
      → Searched (ancestor (length cursor.components - 1) cursor) o
      → Searched cursor o
  Searched-above cursor none e k h = NoneExists-above cursor e h
  Searched-above cursor (some up) e k h = IsNearest-above cursor up e k h

  pub nearest_from-Searched :
      (n : ℕ) (cursor : FilePath)
      → length cursor.components ≤ n
      → Searched cursor (nearest_from fs n cursor)
  unfolding nearest_from parent
  nearest_from-Searched zero cursor h = elim (Bool-cases (exists cursor)) [
    | inl e ↦ rw (e, nearest_from) (self cursor e)
    | inr e ↦ rw (e, nearest_from) (λ m. all-missing m cursor e (omega arith))
  ]
  nearest_from-Searched (suc n) cursor h = elim (Bool-cases (exists cursor)) [
    | inl e ↦ rw (e, nearest_from) (self cursor e)
    | inr e ↦ elim (Bool-cases (is_empty cursor.components)) [
      | inl k ↦
          rw (e, k, nearest_from)
            (λ m. all-missing m cursor e (omega (arith, empty-length cursor.components k)))
      | inr k ↦
          let above : FilePath = ancestor (length cursor.components - 1) cursor in
          rw (e, k, nearest_from)
            (Searched-above cursor (nearest_from fs n above) e (filled-length cursor.components k) (
              nearest_from-Searched n above
                (omega (arith, length-take (length cursor.components - 1) cursor.components))))
    ]
  ]
