-- ===== src/Text/Equal.antt =====
-- The equality test of texts.
use kiliax.Prelude.{ℕ, ◌≡◌, ◌≢◌, ap, sym, ◌∙◌, true, false, arith, get_elem?}
use kiliax.Text.{Text, text_eq}

pub text_eq-≡ : (a b : Text) → text_eq a b ≡ true → a ≡ b
text_eq-≡ a b h = ground arith

pub text_eq-same : (a : Text) → text_eq a a ≡ true
text_eq-same a = ground arith

pub text_eq-false : (a b : Text) → a ≢ b → text_eq a b ≡ false
text_eq-false a b h = ground arith

-- Two texts that differ at a place.
pub text_eq-differ : (i : ℕ) (a b : Text) → get_elem? a i ≢ get_elem? b i → text_eq a b ≡ false
text_eq-differ i a b h = text_eq-false a b (λ e. h (ap (λ s. get_elem? s i) e))

pub text_eq-through :
    (q a b : Text) → text_eq q a ≡ false → text_eq a b ≡ true → text_eq q b ≡ false
text_eq-through q a b h k = sym (ap (text_eq q) (text_eq-≡ a b k)) ∙ h
