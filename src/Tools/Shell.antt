-- ===== src/Tools/Shell.antt =====
-- `ShellPermissions` and `is_prefix` of crates/kiliax-core/src/tools/mod.rs: which shell commands an
-- agent may run. A command is the groups of words between its operators.
use kiliax.Prelude.{
  and_true, or_right, ℕ, suc, ◌≡◌, refl, sym, ap₂, ◌∙◌, ◌⊎◌, Bool, true, false, ◌&&◌, ◌||◌, not,
  List, [], ◌∷◌, ◌++◌, ltb, if◌then◌else◌, arith, any, all, is_empty, length, All, Bool-cases, inl,
  inr,
}
use kiliax.Text.Equal.{text_eq-≡}
use kiliax.Text.{Text, text_eq}

pub data ShellPermissions : Type 0 where
  deny_all allow_all : ShellPermissions
  allow_list : List (List Text) → ShellPermissions

-- `prefix.iter().zip(tokens).all(|(a, b)| a == b)`
unfoldable pub zip_equal : List Text → List Text → Bool
zip_equal (a ∷ more) (b ∷ bs) = text_eq a b && zip_equal more bs
zip_equal _ _ = true

unfoldable pub is_prefix : List Text → List Text → Bool
is_prefix prefix command_tokens =
    if is_empty prefix || ltb (length command_tokens) (length prefix)
    then false
    else zip_equal prefix command_tokens

unfoldable pub allows_all : ShellPermissions → List (List Text) → Bool
allows_all ShellPermissions.deny_all command_groups = false
allows_all ShellPermissions.allow_all command_groups = true
allows_all (ShellPermissions.allow_list prefixes) command_groups =
    not (is_empty command_groups)
    && all (λ tokens. any (λ p. is_prefix p tokens) prefixes) command_groups

-- `tokens` starts with `prefix`.
abbrev pub StartsWith : List Text → List Text → Type 0
StartsWith prefix tokens = (rest : List Text) × (tokens ≡ prefix ++ rest)

-- One of the prefixes, not an empty one, starts the words.
abbrev pub IsListed : List (List Text) → List Text → Type 0
IsListed [] tokens = ⊥
IsListed (p ∷ ps) tokens = ((is_empty p ≡ false) × StartsWith p tokens) ⊎ IsListed ps tokens

not_shorter : (n : ℕ) → ltb 0 (suc n) ≡ false → ⊥
not_shorter n h = ground arith

ltb-suc : (m n : ℕ) → ltb (suc m) (suc n) ≡ false → ltb m n ≡ false
ltb-suc m n h = ground arith

zip_equal-StartsWith :
    (p tokens : List Text)
    → ltb (length tokens) (length p) ≡ false
    → zip_equal p tokens ≡ true
    → StartsWith p tokens
unfolding zip_equal
zip_equal-StartsWith [] tokens hl h = (tokens, refl)
zip_equal-StartsWith (a ∷ more) [] hl h = elim (not_shorter (length more) hl) [ ]
zip_equal-StartsWith (a ∷ more) (b ∷ bs) hl h =
    let (ha, hm) = and_true (text_eq a b) (zip_equal more bs) h in
    let (rest, e) = zip_equal-StartsWith more bs (ltb-suc (length bs) (length more) hl) hm in
    (rest, ap₂ (◌∷◌) (sym (text_eq-≡ a b ha)) e)

true-false : false ≡ true → ⊥
true-false h = cc

is_prefix-short :
    (a : Text) (p tokens : List Text)
    → ltb (length tokens) (suc (length p)) ≡ true
    → is_prefix (a ∷ p) tokens ≡ false
unfolding is_prefix
is_prefix-short a p tokens e = rw (is_prefix, e) refl

is_prefix-long :
    (a : Text) (p tokens : List Text)
    → ltb (length tokens) (suc (length p)) ≡ false
    → is_prefix (a ∷ p) tokens ≡ zip_equal (a ∷ p) tokens
unfolding is_prefix
is_prefix-long a p tokens e = rw (is_prefix, e) refl

is_prefix-StartsWith :
    (p tokens : List Text) → is_prefix p tokens ≡ true → (is_empty p ≡ false) × StartsWith p tokens
unfolding is_prefix
is_prefix-StartsWith [] tokens h = cc
is_prefix-StartsWith (a ∷ more) tokens h =
    elim (Bool-cases (ltb (length tokens) (suc (length more)))) [
      | inl e ↦ elim (true-false (sym (is_prefix-short a more tokens e) ∙ h)) [ ]
      | inr e ↦ (
        refl,
        zip_equal-StartsWith (a ∷ more) tokens e (sym (is_prefix-long a more tokens e) ∙ h),
      )
    ]

any-IsListed :
    (ps : List (List Text)) (tokens : List Text)
    → any (λ p. is_prefix p tokens) ps ≡ true
    → IsListed ps tokens
any-IsListed [] tokens h = cc
any-IsListed (p ∷ ps) tokens h = elim (Bool-cases (is_prefix p tokens)) [
  | inl e ↦ inl (is_prefix-StartsWith p tokens e)
  | inr e ↦ inr (any-IsListed ps tokens (or_right (is_prefix p tokens) _ e h))
]

all-IsListed :
    (ps groups : List (List Text))
    → all (λ tokens. any (λ p. is_prefix p tokens) ps) groups ≡ true
    → All (IsListed ps) groups
all-IsListed ps [] h = tt
all-IsListed ps (g ∷ gs) h =
    let (hg, hs) = and_true (any (λ p. is_prefix p g) ps) _ h in
    (any-IsListed ps g hg, all-IsListed ps gs hs)

-- A command that an allow list lets through has a group of words, and each of its groups starts with
-- one of the listed prefixes, which is not empty.
pub allows_all-IsListed :
    (ps groups : List (List Text))
    → allows_all (ShellPermissions.allow_list ps) groups ≡ true
    → (is_empty groups ≡ false) × All (IsListed ps) groups
unfolding allows_all
allows_all-IsListed ps [] h = cc
allows_all-IsListed ps (g ∷ gs) h = (refl, all-IsListed ps (g ∷ gs) h)
