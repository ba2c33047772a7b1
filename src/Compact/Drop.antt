-- ===== src/Compact/Drop.antt =====
-- The messages that a compaction request leaves out: `drop_oldest_non_preamble_item_preserving_tool_pair`
-- and `run_compaction` of crates/kiliax-core/src/compact.rs.
pub mod Pairs
pub mod Lengths
pub mod Run
use kiliax.Prelude.{
  ℕ, zero, suc, ◌+◌, ◌-◌, ◌≤◌, ◌<◌, ◌≡◌, refl, ap, ◌∙◌, sym, ◌⊎◌, inl, inr, Bool, true, false, List,
  [], ◌∷◌, ◌++◌, Option, none, some, is_empty, leb, if◌then◌else◌, arith, any, take, drop, length,
  get_elem?, Option-cases, Acc, Shorter, shorter_acc, length-append, take-append-drop,
}
use kiliax.Text.{Text, text_eq}
use kiliax.Protocol.{Message, ToolCall, UserMessageContent}
use kiliax.History.{sanitize_history_for_next_request}
use kiliax.Compact.Tokens.{approx_token_count}
use kiliax.Compact.Truncate.{truncate_middle_with_token_budget}

abbrev pub compact_tool_output_max_tokens : ℕ
compact_tool_output_max_tokens = 4000

module _ {ℓ} {A : Type ℓ} where
  -- `Iterator::position` and `Vec::remove`.
  unfoldable pub find_index : (A → Bool) → List A → Option ℕ
  find_index p [] = none
  find_index p (x ∷ xs) =
      let rest = find_index p xs in
      if p x then some 0 else (elim rest [ none ↦ none | some i ↦ some (suc i) ])

  abbrev pub remove_at : ℕ → List A → List A
  remove_at i xs = take i xs ++ drop (suc i) xs

-- `expected.contains(id)`, for the set of the calls' ids
abbrev pub expects : List ToolCall → Text → Bool
expects calls id = any (λ call. text_eq call.id id) calls

module _ {J : Type 0} where
  abbrev pub is_preamble : Message J → Bool
  is_preamble (Message.system c) = true
  is_preamble (Message.developer c) = true
  is_preamble _ = false

  abbrev pub is_item : Message J → Bool
  is_item m = if is_preamble m then false else true

  -- The loop of `remove_matching_tool_results_at`, over the messages from `idx` on.
  unfoldable pub remove_results : List ToolCall → List (Message J) → List (Message J)
  remove_results calls (Message.tool id c ∷ ms) =
      let rest = remove_results calls ms in
      if expects calls id then rest else Message.tool id c ∷ rest
  remove_results calls ms = ms

  unfoldable pub remove_matching_tool_results_at :
      List (Message J) → ℕ → List ToolCall → List (Message J)
  remove_matching_tool_results_at messages start_idx calls =
      if is_empty calls
      then messages
      else take start_idx messages ++ remove_results calls (drop start_idx messages)

  abbrev pub calls_tool : Text → Message J → Bool
  calls_tool id (Message.assistant c r tool_calls u p) = any (λ call. text_eq call.id id) tool_calls
  calls_tool id _ = false

  -- What is done after the message `removed` has left the place `idx`, in `drop_oldest…` for an
  -- assistant message, and in `remove_matching_assistant_tool_call`.
  abbrev pub remove_results_of : Option (Message J) → ℕ → List (Message J) → List (Message J)
  remove_results_of (some (Message.assistant c r tool_calls u p)) idx messages =
      remove_matching_tool_results_at messages idx tool_calls
  remove_results_of _ idx messages = messages

  unfoldable pub remove_matching_assistant_tool_call : List (Message J) → Text → List (Message J)
  remove_matching_assistant_tool_call messages id = elim (find_index (calls_tool id) messages) [
    | none ↦ messages
    | some idx ↦ remove_results_of (get_elem? messages idx) idx (remove_at idx messages)
  ]

  -- The `match removed`.
  unfoldable pub remove_pair : Option (Message J) → ℕ → List (Message J) → List (Message J)
  remove_pair (some (Message.tool id c)) idx messages =
      remove_matching_assistant_tool_call messages id
  remove_pair removed idx messages = remove_results_of removed idx messages

  -- `None` where the code returns false and leaves the messages as they are.
  unfoldable pub drop_oldest_non_preamble_item_preserving_tool_pair :
      List (Message J) → Option (List (Message J))
  drop_oldest_non_preamble_item_preserving_tool_pair messages = elim (find_index is_item messages) [
    | none ↦ none
    | some idx ↦ some (remove_pair (get_elem? messages idx) idx (remove_at idx messages))
  ]

  unfoldable pub truncate_tool_outputs_for_compaction : List (Message J) → List (Message J)
  truncate_tool_outputs_for_compaction [] = []
  truncate_tool_outputs_for_compaction (Message.tool id content ∷ ms) =
      Message.tool id (
        if leb (approx_token_count content) compact_tool_output_max_tokens
        then content
        else truncate_middle_with_token_budget content compact_tool_output_max_tokens)
      ∷ truncate_tool_outputs_for_compaction ms
  truncate_tool_outputs_for_compaction (m ∷ ms) = m ∷ truncate_tool_outputs_for_compaction ms

  unfoldable pub prepare_messages_for_compaction : List (Message J) → List (Message J)
  prepare_messages_for_compaction messages =
      truncate_tool_outputs_for_compaction (sanitize_history_for_next_request messages).0
