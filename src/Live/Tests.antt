-- ===== src/Live/Tests.antt =====
-- A live session at concrete inputs.
use kiliax.Prelude.{ℕ, ◌≡◌, refl, false, List, [], ◌∷◌, some, drop}
use kiliax.Text.{codes}
use kiliax.Protocol.{Message, UserMessageContent}
use kiliax.Session.State.{ContextCheckpoint}
use kiliax.Live.Preamble.{
  preamble_end, current_preamble, replace_preamble_with_ids, build_model_context_messages,
  build_model_context_messages_with_preamble,
}
use kiliax.Live.Preamble.Context.{replace_preamble_with_ids-context}

abbrev J : Type 0
J = Unit

abbrev system_message : Message J
system_message = Message.system (codes "old")

abbrev hello : Message J
hello = Message.user (UserMessageContent.text (codes "hello")) false

abbrev messages : List (Message J)
messages = system_message ∷ hello ∷ []

abbrev ids : List ℕ
ids = 1 ∷ 2 ∷ []

abbrev preamble : List (Message J)
preamble = Message.system (codes "new") ∷ Message.system (codes "more") ∷ []

abbrev saved : ContextCheckpoint J
saved = record { base_message_id = 1; messages = hello ∷ []; reason = codes "auto" }

no_developer : current_preamble (drop (preamble_end messages) messages) ≡ []
unfolding current_preamble preamble_end
no_developer = refl

replace_preamble_with_ids-context_example :
    build_model_context_messages
      (replace_preamble_with_ids messages ids 2 preamble).messages
      (replace_preamble_with_ids messages ids 2 preamble).message_ids
      (some saved)
    ≡ build_model_context_messages_with_preamble messages ids (some saved) (some preamble)
replace_preamble_with_ids-context_example =
    replace_preamble_with_ids-context messages ids 2 preamble (some saved) refl refl no_developer
