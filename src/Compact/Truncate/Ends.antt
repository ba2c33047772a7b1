-- ===== src/Compact/Truncate/Ends.antt =====
-- What a truncation keeps: whole characters of both ends, within the budget.
use kiliax.Prelude.{
  ℕ, ◌+◌, ◌-◌, ◌*◌, ◌/◌, ◌≤◌, ◌<◌, ◌≡◌, refl, ap, ◌∙◌, ◌⊎◌, sym, false, [], ◌∷◌, ◌++◌, max, inl,
  inr, arith, max_u64, append_assoc,
}
use kiliax.Text.{Text, byte_len}
use kiliax.Session.Title.{slice_to}
use kiliax.Compact.Tokens.{approx_bytes_for_tokens, approx_tokens_from_byte_count}
use kiliax.Compact.Truncate.{
  slice_from, marker, Cut, find_cut, keep_ends, truncate_middle_with_token_budget,
}
use kiliax.Compact.Truncate.Cuts.{
  cut_at, find_cut-splits, ≤-or-<, slice_to-append, slice_from-append,
}

byte_len-append : (a b : Text) → byte_len (a ++ b) ≡ byte_len a + byte_len b
unfolding byte_len
byte_len-append [] b = omega arith
byte_len-append (c ∷ a) b = omega (arith, byte_len-append a b)

byte_len-three : (a b c : Text) → byte_len (a ++ b ++ c) ≡ byte_len a + byte_len b + byte_len c
byte_len-three a b c = omega (arith, byte_len-append (a ++ b) c, byte_len-append a b)

-- The slices at the ends of a split.
slices :
    (s f m a k : Text) (cut : Cut)
    → s ≡ f ++ m ++ a
    → cut.prefix_end ≡ 0 + byte_len f
    → cut.suffix_start ≡ 0 + byte_len f + byte_len m
    → slice_to s cut.prefix_end ++ k ++ slice_from s (max cut.suffix_start cut.prefix_end)
      ≡ f ++ k ++ a
slices s f m a k cut e hp hs =
    rw (e, to_prefix, to_suffix, from_prefix, slice_from-append (f ++ m) a)
  where
    to_prefix : cut.prefix_end ≡ byte_len f
    to_prefix = omega arith

    to_suffix : max cut.suffix_start (byte_len f) ≡ byte_len (f ++ m)
    to_suffix = omega (arith, byte_len-append f m)

    from_prefix : slice_to (f ++ m ++ a) (byte_len f) ≡ f
    from_prefix =
        ap (λ t. slice_to t (byte_len f)) (append_assoc f m a) ∙ slice_to-append f (m ++ a)

-- As much of both ends as fits: whole characters of the beginning within `n` bytes, and of the end
-- within `m` bytes, where a character more, of four bytes, fits on neither side.
abbrev pub FillsBoth : ℕ → ℕ → Text → Text → Type 0
FillsBoth n m before after =
    (byte_len before ≤ n)
    × (n < byte_len before + 4)
    × (byte_len after ≤ m)
    × (m < byte_len after + 4)

-- Truncation to a positive budget of `n` bytes that the text is longer than keeps whole characters
-- of both ends, half of the budget each, and puts the marker between them.
pub keep_ends-splits :
    (s : Text) (n : ℕ)
    → n < byte_len s
    → (before : Text) × (middle : Text) × (after : Text) × (s ≡ before ++ middle ++ after)
      × FillsBoth (n / 2) (n - n / 2) before after
      × (keep_ends s n ≡ before ++ marker (approx_tokens_from_byte_count (byte_len s - n)) ++ after)
unfolding keep_ends
keep_ends-splits s n h =
    let (b, m, a, flag, e, hb, hc, ha, hd, eq) =
      find_cut-splits (n / 2) (byte_len s - (n - n / 2)) 0 s (omega arith) (omega arith)
        (omega arith) in
    let total : byte_len s ≡ byte_len b + byte_len m + byte_len a =
      ap byte_len e ∙ byte_len-three b m a in
    (
      b,
      m,
      a,
      e,
      (omega arith, omega arith, omega arith, omega arith),
      slices s b m a _ (at (byte_len s)) e
          (ap (λ k. (at k).prefix_end) (sym (zero_plus (byte_len s))) ∙ ap (λ c. c.prefix_end) eq)
          (ap (λ k. (at k).suffix_start) (sym (zero_plus (byte_len s)))
            ∙ ap (λ c. c.suffix_start) eq),
    )
  where
    at : ℕ → Cut
    at k = find_cut (n / 2) (byte_len s - (n - n / 2)) 0 s (cut_at 0 k false)

    zero_plus : (k : ℕ) → 0 + k ≡ k
    zero_plus k = omega arith

truncate-within :
    (c : ℕ) (s : Text) (t : ℕ)
    → 0 < t
    → byte_len (c ∷ s) ≤ t * 4
    → t * 4 ≤ max_u64
    → truncate_middle_with_token_budget (c ∷ s) t ≡ c ∷ s
unfolding truncate_middle_with_token_budget approx_bytes_for_tokens
truncate-within c s t ht h hm = ground arith

approx_bytes-exact : (t : ℕ) → t * 4 ≤ max_u64 → approx_bytes_for_tokens t ≡ t * 4
unfolding approx_bytes_for_tokens
approx_bytes-exact t h = omega arith

truncate-beyond :
    (c : ℕ) (s : Text) (t : ℕ)
    → 0 < t
    → t * 4 < byte_len (c ∷ s)
    → t * 4 ≤ max_u64
    → truncate_middle_with_token_budget (c ∷ s) t ≡ keep_ends (c ∷ s) (t * 4)
unfolding truncate_middle_with_token_budget
truncate-beyond c s t ht h hm = rw (approx_bytes-exact t hm) (ground arith)

twice : (t : ℕ) → t * 4 / 2 ≡ t * 2
twice t = omega arith

rest_twice : (t : ℕ) → t * 4 - t * 2 ≡ t * 2
rest_twice t = omega arith

-- A text that is longer than a budget of `t` tokens, `t` positive, keeps whole characters of both
-- ends, of each at most `2 * t` bytes and so many that fewer than four bytes are left, and the marker
-- stands between them with the number of tokens removed; a text within the budget is kept. The bytes
-- of the budget are at most the largest `usize`.
pub truncate_middle-splits :
    (s : Text) (t : ℕ)
    → 0 < t
    → t * 4 ≤ max_u64
    → ((byte_len s ≤ t * 4) × (truncate_middle_with_token_budget s t ≡ s))
      ⊎ ((before : Text) × (middle : Text) × (after : Text) × (s ≡ before ++ middle ++ after)
          × FillsBoth (t * 2) (t * 2) before after
          × (truncate_middle_with_token_budget s t
              ≡ before ++ marker (approx_tokens_from_byte_count (byte_len s - t * 4)) ++ after))
unfolding truncate_middle_with_token_budget byte_len
truncate_middle-splits [] t ht hm = inl (omega arith, refl)
truncate_middle-splits (c ∷ s) t ht hm = elim (≤-or-< (byte_len (c ∷ s)) (t * 4)) [
  | inl h ↦ inl (h, truncate-within c s t ht h hm)
  | inr h ↦
      let (b, m, a, e, hb, eq) = keep_ends-splits (c ∷ s) (t * 4) h in
      inr (b, m, a, e, rw (twice t, rest_twice t) at hb, truncate-beyond c s t ht h hm ∙ eq)
]
