-- ===== src/Text/Split.antt =====
-- `split`, `trim_end_matches` and `ends_with` of Rust strings, with a character for the pattern.
use kiliax.Prelude.{ℕ, Bool, false, ◌&&◌, List, [], ◌∷◌, if◌then◌else◌, is_empty, ◌==◌}
use kiliax.Text.{Text}

-- A character before the first of the pieces.
abbrev pub onto_first : ℕ → List Text → List Text
onto_first c [] = (c ∷ []) ∷ []
onto_first c (piece ∷ pieces) = (c ∷ piece) ∷ pieces

-- `str::split(c)`
unfoldable pub split : ℕ → Text → List Text
split c [] = [] ∷ []
split c (x ∷ s) = let rest = split c s in if x == c then [] ∷ rest else onto_first x rest

-- `trim_end_matches(c)`
unfoldable pub trim_end : ℕ → Text → Text
trim_end c [] = []
trim_end c (x ∷ s) = let rest = trim_end c s in if is_empty rest && x == c then [] else x ∷ rest

unfoldable pub ends_with : ℕ → Text → Bool
ends_with c [] = false
ends_with c (x ∷ []) = x == c
ends_with c (x ∷ y ∷ s) = ends_with c (y ∷ s)
