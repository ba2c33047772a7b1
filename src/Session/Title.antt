-- ===== src/Session/Title.antt =====
-- Titles: `truncate_title`, `derive_title` and `project_prompt_from_messages` of
-- crates/kiliax-core/src/session.rs.
use kiliax.Prelude.{
  ℕ, zero, suc, ◌+◌, ◌-◌, ◌≤◌, ◌≡◌, refl, Bool, true, false, ◌++◌, List, [], ◌∷◌, Option, none,
  some, is_empty, leb, leb→le, ◌==◌, if◌then◌else◌, arith, Bool-cases, inl, inr, ◌⊎◌,
}
use kiliax.Text.{Text, codes, trim, trim_start, starts_with, byte_len, len_utf8}
use kiliax.Protocol.{Message, UserMessageContent, first_text}

-- The longest prefix of whole characters within `n` bytes: the slice `[..n]` at a boundary.
unfoldable pub slice_to : Text → ℕ → Text
slice_to [] n = []
slice_to (c ∷ s) n = if leb (len_utf8 c) n then c ∷ slice_to s (n - len_utf8 c) else []

-- `str::is_char_boundary`; elsewhere a slice panics.
unfoldable pub is_char_boundary : Text → ℕ → Bool
is_char_boundary s n = byte_len (slice_to s n) == n

-- `while cut > 0 && !input.is_char_boundary(cut) { cut -= 1; }`
unfoldable pub cut_down : Text → ℕ → ℕ
cut_down s zero = zero
cut_down s (suc cut) =
    let lower = cut_down s cut in if is_char_boundary s (suc cut) then suc cut else lower

abbrev pub max_title_bytes : ℕ
max_title_bytes = 80

unfoldable pub truncate_title : Text → Text
truncate_title input =
    let s = trim input in
    if leb (byte_len s) max_title_bytes
    then s
    else slice_to s (cut_down s max_title_bytes) ++ codes "…"

-- The title that a visible user message gives.
unfoldable pub title_of : UserMessageContent → Option Text
title_of content = elim (first_text content) [
  | none ↦ none
  | some t ↦ if is_empty (trim t) then none else some (truncate_title (trim t))
]

module _ {J : Type 0} where
  unfoldable pub derive_title : List (Message J) → Option Text
  derive_title [] = none
  derive_title (Message.user content false ∷ ms) = elim (title_of content) [
    | some t ↦ some t
    | none ↦ derive_title ms
  ]
  derive_title (m ∷ ms) = derive_title ms

  unfoldable pub project_prompt_from_messages : List (Message J) → Option Text
  project_prompt_from_messages [] = none
  project_prompt_from_messages (Message.system content ∷ ms) =
      let rest = project_prompt_from_messages ms in
      if starts_with (codes "# Project Instructions") (trim_start content)
      then some content
      else rest
  project_prompt_from_messages (m ∷ ms) = project_prompt_from_messages ms

boundary_zero : (s : Text) → is_char_boundary s 0 ≡ true
unfolding is_char_boundary slice_to byte_len len_utf8
boundary_zero [] = refl
boundary_zero (c ∷ s) = ground arith

cut_down-boundary : (s : Text) (n : ℕ) → is_char_boundary s (cut_down s n) ≡ true
unfolding cut_down
cut_down-boundary s zero = boundary_zero s
cut_down-boundary s (suc n) = ground (arith, cut_down-boundary s n)

cut_down-le : (s : Text) (n : ℕ) → cut_down s n ≤ n
unfolding cut_down
cut_down-le s zero = omega arith
cut_down-le s (suc n) = ground (arith, cut_down-le s n)

slice_to-le : (s : Text) (n : ℕ) → byte_len (slice_to s n) ≤ n
unfolding slice_to byte_len
slice_to-le [] n = omega arith
slice_to-le (c ∷ s) n = ground (arith, slice_to-le s (n - len_utf8 c))

byte_len-append : (s t : Text) → byte_len (s ++ t) ≡ byte_len s + byte_len t
unfolding byte_len
byte_len-append [] t = omega arith
byte_len-append (c ∷ s) t = omega (arith, byte_len-append s t)

ellipsis_bytes : byte_len (codes "…") ≡ 3
unfolding byte_len len_utf8
ellipsis_bytes = refl

-- A title is the trimmed text, or a prefix of it that ends at a character boundary, so that the
-- slice does not panic, and an ellipsis; it takes at most 83 bytes.
pub truncate_title_lem :
    (s : Text)
    → (byte_len (truncate_title s) ≤ 83)
      × ((truncate_title s ≡ trim s)
          ⊎ ((n : ℕ) × (n ≤ 80)
              × (is_char_boundary (trim s) n ≡ true)
              × (truncate_title s ≡ slice_to (trim s) n ++ codes "…")))
unfolding truncate_title
truncate_title_lem s = elim (Bool-cases (leb (byte_len (trim s)) max_title_bytes)) [
  | inl short ↦ (rw short (omega (arith, leb→le _ _ short)), inl (rw short))
  | inr long ↦ (
    rw long (
        omega (
          arith,
          byte_len-append (slice_to (trim s) (cut_down (trim s) 80)) (codes "…"),
          slice_to-le (trim s) (cut_down (trim s) 80),
          cut_down-le (trim s) 80,
          ellipsis_bytes,
        )),
    inr (cut_down (trim s) 80, cut_down-le (trim s) 80, cut_down-boundary (trim s) 80, rw long),
  )
]
