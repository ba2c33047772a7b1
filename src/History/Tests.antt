-- ===== src/History/Tests.antt =====
-- The repair of a history at concrete inputs.
use kiliax.Prelude.{ℕ, true, false, ◌≡◌, refl, List, [], ◌∷◌, none}
use kiliax.Text.{codes}
use kiliax.Protocol.{Message, ToolCall, UserMessageContent}
use kiliax.History.{sanitize_history_for_next_request, unchanged, assistant_has_wire_output}
use kiliax.History.Clean.{IsClean, sanitize-IsClean}
use kiliax.History.Stable.{sanitize_of_IsClean}
use kiliax.History.Kept.{spoken, spoken-sanitize, Balanced, sanitize-Balanced}

abbrev question : Message ℕ
question = Message.user (UserMessageContent.text (codes "hi")) false

abbrev call : ToolCall
call = record { id = codes "a"; name = codes "read_file"; arguments = codes "{}" }

abbrev asks : Message ℕ
asks = Message.assistant none none (call ∷ []) none none

-- An orphan, a call without its result, and an empty assistant message.
abbrev broken : List (Message ℕ)
broken =
    Message.tool (codes "z") (codes "?")
    ∷ asks
    ∷ question
    ∷ Message.assistant none none [] none none
    ∷ []

abbrev answered : List (Message ℕ)
answered = question ∷ asks ∷ Message.tool (codes "a") (codes "ok") ∷ []

sanitize-IsClean_example : IsClean (sanitize_history_for_next_request broken).0
sanitize-IsClean_example = sanitize-IsClean broken

spoken-sanitize_example : spoken (sanitize_history_for_next_request broken).0 ≡ spoken broken
spoken-sanitize_example = spoken-sanitize broken

sanitize-Balanced_example : Balanced broken (sanitize_history_for_next_request broken)
sanitize-Balanced_example = sanitize-Balanced broken

wire : assistant_has_wire_output none (call ∷ []) ≡ true
unfolding assistant_has_wire_output
wire = refl

sanitize_of_IsClean_example : sanitize_history_for_next_request answered ≡ (answered, unchanged)
sanitize_of_IsClean_example = sanitize_of_IsClean answered (wire, (refl, tt))
