-- ===== src/Compact/Drop/Lengths.antt =====
-- Dropping the oldest message of a context leaves a shorter one.
use kiliax.Prelude.{
  ℕ, zero, suc, none-some, some_injective, ◌≤◌, ◌<◌, ◌≡◌, refl, ap, ◌∙◌, sym, inl, inr, Bool, List,
  [], ◌∷◌, Option, none, some, arith, take, drop, length, get_elem?, Option-cases, length-append,
  take-append-drop,
}
use kiliax.Text.{Text}
use kiliax.Protocol.{Message, ToolCall}
use kiliax.Compact.Drop.{
  find_index, remove_at, is_item, remove_results, remove_matching_tool_results_at, calls_tool,
  remove_results_of, remove_matching_assistant_tool_call, remove_pair,
  drop_oldest_non_preamble_item_preserving_tool_pair,
}

module _ {J : Type 0} where
  length-remove_results :
      (calls : List ToolCall) (ms : List (Message J)) → length (remove_results calls ms) ≤ length ms
  unfolding remove_results
  length-remove_results calls [] = omega arith
  length-remove_results calls (Message.tool id c ∷ ms) =
      ground (arith, length-remove_results calls ms)
  length-remove_results calls (m ∷ ms) = omega arith

  length-remove_matching :
      (ms : List (Message J)) (i : ℕ) (calls : List ToolCall)
      → length (remove_matching_tool_results_at ms i calls) ≤ length ms
  unfolding remove_matching_tool_results_at
  length-remove_matching ms i [] = omega arith
  length-remove_matching ms i (c ∷ cs) = omega (
    arith,
    length-append (take i ms) (remove_results (c ∷ cs) (drop i ms)),
    length-remove_results (c ∷ cs) (drop i ms),
    length-append (take i ms) (drop i ms),
    ap length (take-append-drop i ms),
  )

  length-remove_results_of :
      (removed : Option (Message J)) (i : ℕ) (ms : List (Message J))
      → length (remove_results_of removed i ms) ≤ length ms
  length-remove_results_of (some (Message.assistant c r ts u p)) i ms =
      length-remove_matching ms i ts
  length-remove_results_of _ i ms = omega arith

  length-remove_at : (i : ℕ) (ms : List (Message J)) → length (remove_at i ms) ≤ length ms
  length-remove_at zero [] = omega arith
  length-remove_at (suc i) [] = omega arith
  length-remove_at zero (m ∷ ms) = omega arith
  length-remove_at (suc i) (m ∷ ms) = omega (arith, length-remove_at i ms)

  length-remove_assistant :
      (ms : List (Message J)) (id : Text)
      → length (remove_matching_assistant_tool_call ms id) ≤ length ms
  unfolding remove_matching_assistant_tool_call
  length-remove_assistant ms id = elim (Option-cases (find_index (calls_tool id) ms)) [
    | inl e ↦ rw (remove_matching_assistant_tool_call, e) (omega arith)
    | inr (k, e) ↦
        rw (remove_matching_assistant_tool_call, e)
          (omega (
            arith,
            length-remove_results_of (get_elem? ms k) k (remove_at k ms),
            length-remove_at k ms,
          ))
  ]

  length-remove_pair :
      (removed : Option (Message J)) (i : ℕ) (ms : List (Message J))
      → length (remove_pair removed i ms) ≤ length ms
  unfolding remove_pair
  length-remove_pair (some (Message.tool id c)) i ms = length-remove_assistant ms id
  length-remove_pair (some (Message.assistant c r ts u p)) i ms = length-remove_matching ms i ts
  length-remove_pair _ i ms = omega arith

  find_index-suc :
      (p : Message J → Bool) (m : Message J) (ms : List (Message J)) (i : ℕ)
      → find_index p (m ∷ ms) ≡ some (suc i)
      → find_index p ms ≡ some i
  unfolding find_index
  find_index-suc p m ms i h = ground arith

  find_index-remove_at :
      (p : Message J → Bool) (ms : List (Message J)) (i : ℕ)
      → find_index p ms ≡ some i
      → length (remove_at i ms) < length ms
  unfolding find_index
  find_index-remove_at p [] i h = cc
  find_index-remove_at p (m ∷ ms) zero h = omega arith
  find_index-remove_at p (m ∷ ms) (suc i) h =
      omega (arith, find_index-remove_at p ms i (find_index-suc p m ms i h))

  drop_oldest-at :
      (ms : List (Message J)) (i : ℕ)
      → find_index is_item ms ≡ some i
      → drop_oldest_non_preamble_item_preserving_tool_pair ms
        ≡ some (remove_pair (get_elem? ms i) i (remove_at i ms))
  unfolding drop_oldest_non_preamble_item_preserving_tool_pair
  drop_oldest-at ms i e = rw (drop_oldest_non_preamble_item_preserving_tool_pair, e) refl

  drop_oldest-none :
      (ms : List (Message J))
      → find_index is_item ms ≡ none
      → drop_oldest_non_preamble_item_preserving_tool_pair ms ≡ none
  unfolding drop_oldest_non_preamble_item_preserving_tool_pair
  drop_oldest-none ms e = rw (drop_oldest_non_preamble_item_preserving_tool_pair, e) refl

  -- Each drop leaves a shorter context.
  pub drop_oldest-Shorter :
      (ms left : List (Message J))
      → drop_oldest_non_preamble_item_preserving_tool_pair ms ≡ some left
      → length left < length ms
  drop_oldest-Shorter ms left h = elim (Option-cases (find_index is_item ms)) [
    | inl e ↦ elim (none-some left (sym (drop_oldest-none ms e) ∙ h)) [ ]
    | inr (i, e) ↦ omega (
      arith,
      ap length (some_injective left _ (sym h ∙ drop_oldest-at ms i e)),
      length-remove_pair (get_elem? ms i) i (remove_at i ms),
      find_index-remove_at is_item ms i e,
    )
  ]
