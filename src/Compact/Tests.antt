-- ===== src/Compact/Tests.antt =====
-- Compaction at concrete inputs.
use kiliax.Prelude.{
  ℕ, zero, Bool, true, false, ◌≡◌, List, [], ◌∷◌, ◌++◌, none, some, ◌-◌, ◌*◌, ◌≤◌, ◌⊎◌, min,
  max_u64, arith, length, All, map, retain, not, is_empty, suc,
}
use mathlib.Core.List.{reverse}
use kiliax.Text.{Text, codes, byte_len, trim}
use kiliax.Protocol.{Message, ToolCall, UserMessageContent}
use kiliax.History.Clean.{IsClean}
use kiliax.Compact.Summary.{summary_text}
use kiliax.Compact.Tokens.{
  estimate_context_tokens, estimate_context_tokens-sum, history_tokens,
  approx_tokens_from_byte_count,
}
use kiliax.Compact.Truncate.Ends.{FillsBoth, truncate_middle-splits}
use kiliax.Compact.Truncate.{truncate_middle_with_token_budget, marker}
use kiliax.Compact.Select.{
  build_compacted_user_history, build_compacted-prefix, total, IsFull, first_cut, visible_user,
  compact_user_message_max_tokens,
}
use kiliax.Compact.Drop.{prepare_messages_for_compaction}
use kiliax.Compact.Drop.Run.{
  ChatResult, response, failure, run_compaction, run_compaction-length, run_compaction-IsClean,
}

abbrev question : Message ℕ
question = Message.user (UserMessageContent.text (codes "hi")) false

abbrev call : ToolCall
call = record { id = codes "a"; name = codes "read_file"; arguments = codes "{}" }

abbrev asks : Message ℕ
asks = Message.assistant none none (call ∷ []) none none

abbrev rules : Message ℕ
rules = Message.system (codes "be brief")

abbrev context : List (Message ℕ)
context = rules ∷ asks ∷ Message.tool (codes "a") (codes "ok") ∷ question ∷ []

estimate_context_tokens-sum_example :
    estimate_context_tokens context ≡ min (history_tokens context) max_u64
estimate_context_tokens-sum_example = estimate_context_tokens-sum context

truncate_middle-splits_example :
    ((byte_len (codes "0123456789") ≤ 1 * 4)
      × (truncate_middle_with_token_budget (codes "0123456789") 1 ≡ codes "0123456789"))
    ⊎ ((before : Text) × (middle : Text) × (after : Text) × (codes "0123456789"
          ≡ before ++ middle ++ after)
        × FillsBoth (1 * 2) (1 * 2) before after
        × (truncate_middle_with_token_budget (codes "0123456789") 1
            ≡ before
              ++ marker (approx_tokens_from_byte_count (byte_len (codes "0123456789") - 1 * 4))
              ++ after))
truncate_middle-splits_example =
    truncate_middle-splits (codes "0123456789") 1 (omega arith) (omega arith)

abbrev texts : List Text
texts = codes "one" ∷ codes "two" ∷ []

build_compacted-prefix_example :
    (kept : List Text) × (older : List Text) × (reverse texts ≡ kept ++ older)
    × (total kept ≤ compact_user_message_max_tokens)
    × IsFull (compact_user_message_max_tokens - total kept) older
    × (build_compacted_user_history {J = ℕ} texts (codes "done")
        ≡ map visible_user (
            retain
              (λ m. not (is_empty (trim m)))
              (reverse (kept ++ first_cut (compact_user_message_max_tokens - total kept) older)))
          ++ visible_user (summary_text (codes "done")) ∷ [])
build_compacted-prefix_example = build_compacted-prefix texts (codes "done")

-- A model whose context window is exceeded by the first request.
abbrev chat : ℕ → List (Message ℕ) → ChatResult ℕ Bool
chat zero ms = failure true
chat (suc n) ms = response (Message.assistant (some (codes "done")) none [] none none)

abbrev exceeded : Bool → Bool
exceeded e = e

run_compaction-length_example :
    length (run_compaction (codes "Summarise.") exceeded chat context).sent
    ≤ suc (length (prepare_messages_for_compaction context))
run_compaction-length_example = run_compaction-length (codes "Summarise.") exceeded chat context

run_compaction-IsClean_example :
    All IsClean (run_compaction (codes "Summarise.") exceeded chat context).sent
run_compaction-IsClean_example = run_compaction-IsClean (codes "Summarise.") exceeded chat context
