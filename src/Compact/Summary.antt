-- ===== src/Compact/Summary.antt =====
-- The mark of a summary message: `is_summary_message` and `summary_text` of
-- crates/kiliax-core/src/compact.rs.
use kiliax.Prelude.{◌≡◌, refl, Bool, true, false, [], ◌∷◌, ◌++◌, none, some, arith}
use kiliax.Text.{Text, codes, strip_prefix, starts_with}

-- prompts/compact/summary_prefix.md
unfoldable pub summary_prefix : Text
summary_prefix =
    codes
      "Another language model started to solve this problem and produced a summary of its thinking process. You also have access to the state of the tools that were used by that language model. Use this to build on the work that has already been done and avoid duplicating work. Here is the summary produced by the other language model, use the information in this summary to assist with your own analysis:"
    ++ b'\n' ∷ []

unfoldable pub is_summary_message : Text → Bool
is_summary_message text = elim (strip_prefix summary_prefix text) [
  | none ↦ false
  | some rest ↦ starts_with (codes "\n") rest
]

unfoldable pub summary_text : Text → Text
summary_text summary_suffix = summary_prefix ++ b'\n' ∷ summary_suffix

pub strip_prefix-append : (p s : Text) → strip_prefix p (p ++ s) ≡ some s
unfolding strip_prefix
strip_prefix-append [] s = refl
strip_prefix-append (c ∷ p) s = ground (arith, strip_prefix-append p s)

-- A summary is recognised as one.
pub is_summary_message-summary_text : (s : Text) → is_summary_message (summary_text s) ≡ true
unfolding is_summary_message summary_text starts_with
is_summary_message-summary_text s =
    rw (strip_prefix-append summary_prefix (b'\n' ∷ s), is_summary_message)
