-- ===== src/Compact/Truncate.antt =====
-- `truncate_middle_with_token_budget` of crates/kiliax-core/src/compact.rs.
pub mod Cuts
pub mod Ends
use kiliax.Prelude.{
  ℕ, ◌+◌, ◌-◌, ◌*◌, ◌/◌, ◌≤◌, ◌<◌, ◌≡◌, refl, ap, ap₂, ◌∙◌, ◌⊎◌, sym, Bool, true, false, [], ◌∷◌,
  ◌++◌, max, is_empty, leb, ltb, le→leb, inl, inr, not, ◌&&◌, if◌then◌else◌, arith, max_u64,
  decimal, append_assoc, ◌==◌,
}
use kiliax.Text.{Text, codes, byte_len, len_utf8}
use kiliax.Session.Title.{slice_to}
use kiliax.Compact.Tokens.{
  approx_token_count, approx_bytes_for_tokens, approx_tokens_from_byte_count,
}

-- The rest of the string after the longest prefix of whole characters within `n` bytes: the
-- slice `[n..]` at a boundary.
unfoldable pub slice_from : Text → ℕ → Text
slice_from [] n = []
slice_from (c ∷ s) n = if leb (len_utf8 c) n then slice_from s (n - len_utf8 c) else c ∷ s

-- The marker that takes the place of the middle.
unfoldable pub marker : ℕ → Text
marker tokens = codes "…" ++ decimal tokens ++ codes " tokens truncated…"

pub record Cut : Type 0 where
  pub prefix_end : ℕ
  pub suffix_start : ℕ
  pub suffix_started : Bool

-- The body of the loop: the character between the bytes `idx` and `char_end`.
unfoldable pub next_cut : ℕ → ℕ → ℕ → ℕ → Cut → Cut
next_cut left_budget tail_start_target idx char_end cut =
    if leb char_end left_budget
    then record cut { prefix_end = char_end }
    else if leb tail_start_target idx && not cut.suffix_started
    then record cut { suffix_start = idx; suffix_started = true }
    else cut

-- The loop over `s.char_indices()`, at the byte `idx`.
unfoldable pub find_cut : ℕ → ℕ → ℕ → Text → Cut → Cut
find_cut left_budget tail_start_target idx [] cut = cut
find_cut left_budget tail_start_target idx (ch ∷ s) cut =
    find_cut left_budget tail_start_target (idx + len_utf8 ch) s
      (next_cut left_budget tail_start_target idx (idx + len_utf8 ch) cut)

-- What is left of `s` in `max_bytes` bytes, a positive number.
unfoldable pub keep_ends : Text → ℕ → Text
keep_ends s max_bytes =
    let left_budget = max_bytes / 2 in
    let cut =
      find_cut left_budget (byte_len s - (max_bytes - left_budget)) 0 s
        (record { prefix_end = 0; suffix_start = byte_len s; suffix_started = false }) in
    let suffix_start = max cut.suffix_start cut.prefix_end in
    slice_to s cut.prefix_end
    ++ marker (approx_tokens_from_byte_count (byte_len s - max_bytes))
    ++ slice_from s suffix_start

unfoldable pub truncate_middle_with_token_budget : Text → ℕ → Text
truncate_middle_with_token_budget s max_tokens =
    let max_bytes = approx_bytes_for_tokens max_tokens in
    if is_empty s
    then []
    else if ltb 0 max_bytes && leb (byte_len s) max_bytes
    then s
    else if max_bytes == 0
    then marker (approx_token_count s)
    else keep_ends s max_bytes
