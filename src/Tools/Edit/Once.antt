-- ===== src/Tools/Edit/Once.antt =====
-- What a single replacement does.
use kiliax.Prelude.{
  ℕ, suc, ◌+◌, ◌≡◌, ◌≢◌, All, refl, ap, ap₂, ◌∙◌, sym, subst, Bool, true, false, not, List, [], ◌∷◌,
  ◌++◌, Option, none, some, if◌then◌else◌, is_empty, length, take, drop, ◌==◌, arith, Bool-cases,
  Option-cases, inl, inr, none-some, some_injective, and_true, ==_iff,
}
use mathlib.Core.Option
use kiliax.Text.{Text, text_eq, starts_with}
use kiliax.Result.{ok, ok_injective, err-ok, guard-ok}
use kiliax.Tools.Edit.{
  EditError, find, rfind, same_place, push_candidate, replace_from, replace_content,
}

-- At how many places of a text another one stands.
abbrev pub occurrences : Text → Text → ℕ
occurrences pattern [] = if is_empty pattern then 1 else 0
occurrences pattern (c ∷ s) = (if starts_with pattern (c ∷ s) then 1 else 0) + occurrences pattern s

not-false : (b : Bool) → not b ≡ false → b ≡ true
not-false b h = ground arith

suc-zero : (n : ℕ) → suc n ≡ 0 → ⊥
suc-zero n h = omega arith

suc_injective : (m n : ℕ) → suc m ≡ suc n → m ≡ n
suc_injective m n h = omega arith

starts_with-split : (p s : Text) → starts_with p s ≡ true → s ≡ p ++ drop (length p) s
unfolding starts_with
starts_with-split [] s h = refl
starts_with-split (x ∷ p) [] h = cc
starts_with-split (x ∷ p) (c ∷ s) h =
    let (a, b) = and_true (x == c) (starts_with p s) h in
    ap₂ (λ y l. y ∷ l) (sym ((==_iff x c).0 a)) (starts_with-split p s b)

plus_suc : (j n : ℕ) → suc (j + n) ≡ suc j + n
plus_suc j n = omega arith

map-some : (o : Option ℕ) (i : ℕ) → Option.map suc o ≡ some i → (j : ℕ) × (o ≡ some j) × (suc j ≡ i)
map-some none i h = elim (none-some i h) [ ]
map-some (some j) i h = (j, refl, some_injective (suc j) i h)

drop_plus {ℓ} : {A : Type ℓ} (m n : ℕ) (xs : List A) → m ≡ n → drop m xs ≡ drop n xs
drop_plus m n xs h = ap (λ k. drop k xs) h

find-split : (p s : Text) (i : ℕ) → find p s ≡ some i → s ≡ take i s ++ p ++ drop (i + length p) s
unfolding find
find-split [] [] i h =
    subst (λ i. ◌≡◌ {A = Text} [] (take i [] ++ [] ++ drop (i + 0) [])) (some_injective 0 i h) refl
find-split (x ∷ p) [] i h = elim (none-some i h) [ ]
find-split p (c ∷ s) i h = elim (Bool-cases (starts_with p (c ∷ s))) [
  | inl e ↦
      subst (λ i. (c ∷ s) ≡ take i (c ∷ s) ++ p ++ drop (i + length p) (c ∷ s))
        (some_injective 0 i (rw (e, find) at h))
        (starts_with-split p (c ∷ s) e
          ∙ ap (λ l. p ++ l) (drop_plus (length p) (0 + length p) (c ∷ s) (omega arith)))
  | inr e ↦
      let (j, f, q) = map-some (find p s) i (rw (e, find) at h) in
      subst (λ i. (c ∷ s) ≡ take i (c ∷ s) ++ p ++ drop (i + length p) (c ∷ s)) q
        (ap (λ l. c ∷ l)
          (find-split p s j f
            ∙ ap (λ l. take j s ++ p ++ l) (ap (λ k. drop k (c ∷ s)) (plus_suc j (length p)))))
]

rfind-none : (p s : Text) → rfind p s ≡ none → occurrences p s ≡ 0
unfolding rfind
rfind-none [] [] h = elim (none-some 0 (sym h)) [ ]
rfind-none (x ∷ p) [] h = refl
rfind-none p (c ∷ s) h = elim (Option-cases (rfind p s)) [
  | inl n ↦ elim (Bool-cases (starts_with p (c ∷ s))) [
    | inl e ↦ elim (none-some 0 (sym (rw (n, e, rfind) at h))) [ ]
    | inr e ↦ rw e (omega (arith, rfind-none p s n))
  ]
  | inr (j, n) ↦ elim (none-some (suc j) (sym (rw (n, rfind) at h))) [ ]
]

find-rfind : (p s : Text) (i : ℕ) → find p s ≡ some i → rfind p s ≡ some i → occurrences p s ≡ 1
unfolding find rfind
find-rfind [] [] i h k = refl
find-rfind (x ∷ p) [] i h k = elim (none-some i h) [ ]
find-rfind p (c ∷ s) i h k = elim (Bool-cases (starts_with p (c ∷ s))) [
  | inl e ↦ elim (Option-cases (rfind p s)) [
    | inl n ↦ rw e (omega (arith, rfind-none p s n))
    | inr (j, n) ↦
        elim (suc-zero j (
          some_injective _ _ (rw (n, rfind) at k)
          ∙ sym (some_injective _ _ (rw (e, find) at h)))) [ ]
  ]
  | inr e ↦
      let (j, f, q) = map-some (find p s) i (rw (e, find) at h) in
      elim (Option-cases (rfind p s)) [
        | inl n ↦ elim (none-some i (rw (n, e, rfind) at k)) [ ]
        | inr (l, n) ↦
            let same : l ≡ j =
              suc_injective l j (some_injective _ _ (rw (n, rfind) at k) ∙ sym q) in
            rw e (omega (arith, find-rfind p s j f (n ∙ ap some same)))
      ]
]

same_place-≡ : (o : Option ℕ) (i : ℕ) → not (same_place o i) ≡ false → o ≡ some i
same_place-≡ none i h = cc
same_place-≡ (some j) i h = ap some ((==_iff j i).0 (not-false (j == i) h))

one_more-zero : (n : ℕ) → 1 + n ≡ 0 → ⊥
one_more-zero n h = omega arith

one_more-one : (n : ℕ) → 1 + n ≡ 1 → n ≡ 0
one_more-one n h = omega arith

none_more : (n m : ℕ) → 0 + n ≡ m → n ≡ m
none_more n m h = omega arith

rfind-occurrences : (p s : Text) → occurrences p s ≡ 0 → rfind p s ≡ none
unfolding rfind
rfind-occurrences [] [] h = elim (suc-zero 0 h) [ ]
rfind-occurrences (x ∷ p) [] h = refl
rfind-occurrences p (c ∷ s) h = elim (Bool-cases (starts_with p (c ∷ s))) [
  | inl e ↦ elim (one_more-zero (occurrences p s) (rw e at h)) [ ]
  | inr e ↦ rw (rfind-occurrences p s (none_more (occurrences p s) 0 (rw e at h)), e, rfind) refl
]

find-none : (p s : Text) → find p s ≡ none → occurrences p s ≡ 0
unfolding find
find-none [] [] h = elim (none-some 0 (sym h)) [ ]
find-none (x ∷ p) [] h = refl
find-none p (c ∷ s) h = elim (Bool-cases (starts_with p (c ∷ s))) [
  | inl e ↦ elim (none-some 0 (sym (rw (e, find) at h))) [ ]
  | inr e ↦ elim (Option-cases (find p s)) [
    | inl n ↦ rw e (ap (λ k. 0 + k) (find-none p s n))
    | inr (j, n) ↦ elim (none-some (suc j) (sym (rw (e, n, find) at h))) [ ]
  ]
]

-- The only place is the first and the last.
rfind-find : (p s : Text) (i : ℕ) → find p s ≡ some i → occurrences p s ≡ 1 → rfind p s ≡ some i
unfolding find rfind
rfind-find [] [] i h k = h
rfind-find (x ∷ p) [] i h k = elim (none-some i h) [ ]
rfind-find p (c ∷ s) i h k = elim (Bool-cases (starts_with p (c ∷ s))) [
  | inl e ↦
      let n : rfind p s ≡ none =
        rfind-occurrences p s (one_more-one (occurrences p s) (rw e at k)) in
      rw (n, e, rfind) (rw (e, find) at h)
  | inr e ↦
      let (j, f, q) = map-some (find p s) i (rw (e, find) at h) in
      rw (rfind-find p s j f (none_more (occurrences p s) 1 (rw e at k)), rfind) (ap some q)
]

same_place-some : (i : ℕ) → not (same_place (some i) i) ≡ true → ⊥
same_place-some i h = ground arith

-- None of the texts stands at just one place.
abbrev pub NoneOnce : Text → List Text → Type 0
NoneOnce content = All (λ search. occurrences search content ≢ 1)

-- The first of the candidates that stands at just one place of the content is replaced there.
abbrev pub ReplacedOnce : List Text → Text → Text → Text → Type 0
ReplacedOnce candidates content new_string out =
    (passed : List Text) × (search : Text) × (later : List Text) × (before : Text) × (after : Text)
    × (candidates ≡ passed ++ (search ∷ later))
    × NoneOnce content passed
    × (occurrences search content ≡ 1)
    × (content ≡ before ++ search ++ after)
    × (out ≡ before ++ new_string ++ after)

passes :
    (first content new_string out : Text) (candidates : List Text)
    → occurrences first content ≢ 1
    → ReplacedOnce candidates content new_string out
    → ReplacedOnce (first ∷ candidates) content new_string out
passes first content new out candidates n (passed, one, later, before, after, e, p, o, c, r) =
    (first ∷ passed, one, later, before, after, ap (λ l. first ∷ l) e, (n, p), o, c, r)

zero-one : (n : ℕ) → n ≡ 0 → n ≢ 1
zero-one n h k = omega arith

replace_from-once :
    (content new_string : Text) (was_not_found : Bool) (candidates : List Text) (out : Text)
    → replace_from content new_string false was_not_found candidates ≡ ok out
    → ReplacedOnce candidates content new_string out
unfolding replace_from
replace_from-once content new_string b [] out h = elim (err-ok _ out h) [ ]
replace_from-once content new_string b (search ∷ candidates) out h =
    elim (Option-cases (find search content)) [
      | inl n ↦
          passes search content new_string out candidates (zero-one _ (find-none search content n))
            (replace_from-once content new_string b candidates out (rw (n, replace_from) at h))
      | inr (i, n) ↦ elim (Bool-cases (not (same_place (rfind search content) i))) [
        | inl e ↦
            passes search content new_string out candidates
              (λ k.
                same_place-some i
                  (subst (λ o. not (same_place o i) ≡ true) (rfind-find search content i n k) e))
              (replace_from-once content new_string false candidates out
                (rw (n, e, replace_from) at h))
        | inr e ↦ (
          [],
          search,
          candidates,
          take i content,
          drop (i + length search) content,
          refl,
          tt,
          find-rfind search content i n (same_place-≡ (rfind search content) i e),
          find-split search content i n,
          sym (ok_injective _ out (rw (n, e, replace_from) at h)),
        )
      ]
    ]

push_candidate-first :
    (old : Text) → push_candidate [] old ≡ (if is_empty old then [] else old ∷ [])
unfolding push_candidate
push_candidate-first [] = refl
push_candidate-first (c ∷ old) = refl

-- A single replacement that succeeds replaces the first of the texts that stands in the content at just
-- one place, of the given one, where it is not empty, and the other candidates after it; everything
-- before and after that place is left.
pub replace_content-once :
    (other_candidates : Text → Text → List Text) (content old_string new_string out : Text)
    → replace_content other_candidates content old_string new_string false ≡ ok out
    → ReplacedOnce
        ((if is_empty old_string then [] else old_string ∷ [])
          ++ other_candidates content old_string)
        content
        new_string
        out
unfolding replace_content
replace_content-once other content old new out h =
    let (e, k) = guard-ok (text_eq old new) EditError.identical _ out h in
    subst (λ l. ReplacedOnce (l ++ other content old) content new out) (push_candidate-first old)
      (replace_from-once content new true _ out k)
