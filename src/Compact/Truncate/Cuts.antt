-- ===== src/Compact/Truncate/Cuts.antt =====
-- The places at which a truncation cuts: the loop over the characters, and slices there.
use kiliax.Prelude.{
  ℕ, ◌+◌, ◌-◌, ◌≤◌, ◌<◌, ◌≡◌, refl, ap, ap₂, ◌∙◌, ◌⊎◌, sym, Bool, true, false, [], ◌∷◌, ◌++◌,
  le→leb, inl, inr, arith,
}
use kiliax.Text.{Text, byte_len, len_utf8}
use kiliax.Session.Title.{slice_to}
use kiliax.Compact.Truncate.{slice_from, Cut, next_cut, find_cut}

width : (c : ℕ) → 0 < len_utf8 c
unfolding len_utf8
width c = ground arith

narrow : (c : ℕ) → len_utf8 c ≤ 4
unfolding len_utf8
narrow c = ground arith

plus_minus : (a b : ℕ) → a + b - a ≡ b
plus_minus a b = omega arith

-- Slices at the end of a prefix of whole characters.
pub slice_to-append : (a b : Text) → slice_to (a ++ b) (byte_len a) ≡ a
unfolding slice_to byte_len
slice_to-append [] [] = refl
slice_to-append [] (c ∷ b) = ground (arith, width c)
slice_to-append (c ∷ a) b =
    rw
      (
        le→leb (len_utf8 c) (len_utf8 c + byte_len a) (omega arith),
        plus_minus (len_utf8 c) (byte_len a),
      )
      (ap (◌∷◌ c) (slice_to-append a b))

pub slice_from-append : (a b : Text) → slice_from (a ++ b) (byte_len a) ≡ b
unfolding slice_from byte_len
slice_from-append [] [] = refl
slice_from-append [] (c ∷ b) = ground (arith, width c)
slice_from-append (c ∷ a) b =
    rw
      (
        le→leb (len_utf8 c) (len_utf8 c + byte_len a) (omega arith),
        plus_minus (len_utf8 c) (byte_len a),
      )
      (slice_from-append a b)

next_cut-started :
    (l t idx end p e : ℕ)
    → l < end
    → next_cut l t idx end (record { prefix_end = p; suffix_start = e; suffix_started = true })
      ≡ record { prefix_end = p; suffix_start = e; suffix_started = true }
unfolding next_cut
next_cut-started l t idx end p e h = ground arith

-- Once the suffix has started, nothing moves.
find_cut-started :
    (l t idx : ℕ) (s : Text) (p e : ℕ)
    → l < idx
    → find_cut l t idx s (record { prefix_end = p; suffix_start = e; suffix_started = true })
      ≡ record { prefix_end = p; suffix_start = e; suffix_started = true }
unfolding find_cut
find_cut-started l t idx [] p e h = refl
find_cut-started l t idx (c ∷ s) p e h =
    ap (find_cut l t (idx + len_utf8 c) s)
      (next_cut-started l t idx (idx + len_utf8 c) p e (omega arith))
    ∙ find_cut-started l t (idx + len_utf8 c) s p e (omega arith)

abbrev pub cut_at : ℕ → ℕ → Bool → Cut
cut_at p e b = record { prefix_end = p; suffix_start = e; suffix_started = b }

-- The cases of the body, before the suffix has started.
next_cut-prefix :
    (l t idx end p e : ℕ) → end ≤ l → next_cut l t idx end (cut_at p e false) ≡ cut_at end e false
unfolding next_cut
next_cut-prefix l t idx end p e h = ground arith

next_cut-start :
    (l t idx end p e : ℕ)
    → l < end
    → t ≤ idx
    → next_cut l t idx end (cut_at p e false) ≡ cut_at p idx true
unfolding next_cut
next_cut-start l t idx end p e h k = ground arith

next_cut-keep :
    (l t idx end p e : ℕ)
    → l < end
    → idx < t
    → next_cut l t idx end (cut_at p e false) ≡ cut_at p e false
unfolding next_cut
next_cut-keep l t idx end p e h k = ground arith

regroup : (a b c : ℕ) → a + (b + c) ≡ a + b + c
regroup a b c = omega arith

plus_zero : (a : ℕ) → a ≡ a + 0
plus_zero a = omega arith

pub ≤-or-< : (a b : ℕ) → (a ≤ b) ⊎ (b < a)
≤-or-< a b = ground arith

-- After the prefix, the suffix starts at the first character from the target on.
find_cut-after :
    (l t idx : ℕ) (s : Text) (p : ℕ)
    → l < idx
    → idx < t + 4
    → t ≤ idx + byte_len s
    → (middle : Text) × (after : Text) × (b : Bool) × (s ≡ middle ++ after)
      × (t ≤ idx + byte_len middle)
      × (idx + byte_len middle < t + 4)
      × (find_cut l t idx s (cut_at p (idx + byte_len s) false)
          ≡ cut_at p (idx + byte_len middle) b)
unfolding find_cut byte_len
find_cut-after l t idx [] p hl hu ht = ([], [], false, refl, ht, omega arith, refl)
find_cut-after l t idx (c ∷ s) p hl hu ht = elim (≤-or-< t idx) [
  | inl h ↦ (
    [],
    c ∷ s,
    true,
    refl,
    omega arith,
    omega arith,
    ap (find_cut l t (idx + len_utf8 c) s)
          (next_cut-start l t idx (idx + len_utf8 c) p _ (omega arith) h)
        ∙ find_cut-started l t (idx + len_utf8 c) s p idx (omega arith)
        ∙ ap (λ k. cut_at p k true) (plus_zero idx),
  )
  | inr h ↦
      let (m, a, b, e, ha, hb, eq) =
        find_cut-after l t (idx + len_utf8 c) s p (omega arith) (omega (arith, narrow c))
          (omega arith) in
      (
        c ∷ m,
        a,
        b,
        ap (◌∷◌ c) e,
        omega arith,
        omega arith,
        ap (find_cut l t (idx + len_utf8 c) s) (
              next_cut-keep l t idx (idx + len_utf8 c) p _ (omega arith) h
              ∙ ap (λ k. cut_at p k false) (regroup idx (len_utf8 c) (byte_len s)))
            ∙ eq
            ∙ ap (λ k. cut_at p k b) (sym (regroup idx (len_utf8 c) (byte_len m))),
      )
]

-- The prefix, and then the suffix: neither could take another character.
pub find_cut-splits :
    (l t idx : ℕ) (s : Text)
    → idx ≤ l
    → l < t
    → t ≤ idx + byte_len s
    → (before : Text) × (middle : Text) × (after : Text) × (b : Bool) × (s
        ≡ before ++ middle ++ after)
      × (idx + byte_len before ≤ l)
      × (l < idx + byte_len before + 4)
      × (t ≤ idx + byte_len before + byte_len middle)
      × (idx + byte_len before + byte_len middle < t + 4)
      × (find_cut l t idx s (cut_at idx (idx + byte_len s) false)
          ≡ cut_at (idx + byte_len before) (idx + byte_len before + byte_len middle) b)
unfolding find_cut byte_len
find_cut-splits l t idx [] hl hlt ht = absurd (omega arith)
find_cut-splits l t idx (c ∷ s) hl hlt ht = elim (≤-or-< (idx + len_utf8 c) l) [
  | inl h ↦
      let (f, m, a, b, e, hf, hg, ha, hb, eq) =
        find_cut-splits l t (idx + len_utf8 c) s h hlt (omega arith) in
      (
        c ∷ f,
        m,
        a,
        b,
        ap (◌∷◌ c) e,
        omega arith,
        omega arith,
        omega arith,
        omega arith,
        ap (find_cut l t (idx + len_utf8 c) s) (
              next_cut-prefix l t idx (idx + len_utf8 c) idx _ h
              ∙ ap (λ k. cut_at (idx + len_utf8 c) k false) (regroup idx (len_utf8 c) (byte_len s)))
            ∙ eq
            ∙ ap (λ k. cut_at k (k + byte_len m) b) (sym (regroup idx (len_utf8 c) (byte_len f))),
      )
  | inr h ↦
      let (m, a, b, e, ha, hb, eq) =
        find_cut-after l t (idx + len_utf8 c) s idx h (omega (arith, narrow c)) (omega arith) in
      (
        [],
        c ∷ m,
        a,
        b,
        ap (◌∷◌ c) e,
        omega arith,
        omega (arith, narrow c),
        omega arith,
        omega arith,
        ap (find_cut l t (idx + len_utf8 c) s) (
              next_cut-keep l t idx (idx + len_utf8 c) idx _ h (omega arith)
              ∙ ap (λ k. cut_at idx k false) (regroup idx (len_utf8 c) (byte_len s)))
            ∙ eq
            ∙ ap₂ (λ k n. cut_at k n b) (plus_zero idx)
                (sym (regroup idx (len_utf8 c) (byte_len m))
                  ∙ ap (λ k. k + byte_len (c ∷ m)) (plus_zero idx)),
      )
]
