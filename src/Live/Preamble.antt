-- ===== src/Live/Preamble.antt =====
-- crates/kiliax-server/src/state/preamble.rs, and the context for the model of
-- crates/kiliax-server/src/state/live_session.rs. Sequence numbers are plain numbers.
pub mod Context
use kiliax.Prelude.{
  ℕ, zero, suc, ◌+◌, Bool, true, false, ◌&&◌, not, List, [], ◌∷◌, ◌++◌, Option, none, some,
  if◌then◌else◌, map, length, take, drop, min, ltb, is_empty, get_elem?, retain, any,
}
use mathlib.Core.Option
use kiliax.Text.{Text, codes, trim}
use kiliax.Protocol.{Message, UserMessageContent, UserContentPart}
use kiliax.Session.State.{ContextCheckpoint}
use kiliax.Agents.State.{MailboxUpdate}

-- `Iterator::zip`
abbrev pub zip {ℓ κ} : {A : Type ℓ} {B : Type κ} → List A → List B → List (A × B)
zip [] ys = []
zip (x ∷ xs) [] = []
zip (x ∷ xs) (y ∷ ys) = (x, y) ∷ zip xs ys

module _ {J : Type 0} where
  abbrev pub is_system : Message J → Bool
  is_system (Message.system s) = true
  is_system _ = false

  -- The place of the first message that is no system message.
  unfoldable pub preamble_end : List (Message J) → ℕ
  preamble_end [] = 0
  preamble_end (m ∷ ms) = let rest = preamble_end ms in if is_system m then suc rest else 0

  unfoldable pub replace_preamble : List (Message J) → List (Message J) → List (Message J)
  replace_preamble messages new_preamble = new_preamble ++ drop (preamble_end messages) messages

  abbrev pub is_preamble_message : Message J → Bool
  is_preamble_message (Message.system s) = true
  is_preamble_message (Message.developer s) = true
  is_preamble_message _ = false

  -- `take_while`
  unfoldable pub current_preamble : List (Message J) → List (Message J)
  current_preamble [] = []
  current_preamble (m ∷ ms) =
      let rest = current_preamble ms in if is_preamble_message m then m ∷ rest else []

  abbrev pub is_after : ℕ → Message J × ℕ → Bool
  is_after base (m, id) = ltb base id && not (is_preamble_message m)

  unfoldable pub build_model_context_messages_with_preamble :
      List (Message J)
      → List ℕ
      → Option (ContextCheckpoint J)
      → Option (List (Message J))
      → List (Message J)
  build_model_context_messages_with_preamble transcript message_ids none none = transcript
  build_model_context_messages_with_preamble transcript message_ids none (some preamble) =
      replace_preamble transcript preamble
  build_model_context_messages_with_preamble transcript message_ids (some checkpoint)
        override_preamble =
      Option.get_or override_preamble (current_preamble transcript)
      ++ checkpoint.messages
      ++ map (λ p. p.0) (retain (is_after checkpoint.base_message_id) (zip transcript message_ids))

  unfoldable pub build_model_context_messages :
      List (Message J) → List ℕ → Option (ContextCheckpoint J) → List (Message J)
  build_model_context_messages transcript message_ids checkpoint =
      build_model_context_messages_with_preamble transcript message_ids checkpoint none

-- The loop over the new preamble from `idx` on: its ids, and the last number given.
unfoldable pub replacement_ids : ℕ → List ℕ → ℕ → ℕ → ℕ → List ℕ × ℕ
replacement_ids end message_ids idx zero last_seq = ([], last_seq)
replacement_ids end message_ids idx (suc count) last_seq =
    if ltb idx end && ltb idx (length message_ids)
    then (let (ids, last) = replacement_ids end message_ids (suc idx) count last_seq in
        (Option.get_or (get_elem? message_ids idx) 0 ∷ ids, last))
    else (let (ids, last) = replacement_ids end message_ids (suc idx) count (last_seq + 1) in
        ((last_seq + 1) ∷ ids, last))

-- The messages, their ids and the last number that are left.
pub record Replaced (J : Type 0) : Type 0 where
  pub messages : List (Message J)
  pub message_ids : List ℕ
  pub last_seq : ℕ

unfoldable pub replace_preamble_with_ids :
    {J : Type 0} → List (Message J) → List ℕ → ℕ → List (Message J) → Replaced J
replace_preamble_with_ids messages message_ids last_seq new_preamble =
    let end = preamble_end messages in
    let (ids, last) = replacement_ids end message_ids 0 (length new_preamble) last_seq in
    record {
      messages = new_preamble ++ drop end messages;
      message_ids = ids ++ drop (min end (length message_ids)) message_ids;
      last_seq = last;
    }

unfoldable pub append_text_to_user_content : UserMessageContent → Text → UserMessageContent
append_text_to_user_content content text = if is_empty (trim text) then content else elim content [
  | UserMessageContent.text existing ↦
      UserMessageContent.text
        (if is_empty (trim existing) then text else text ++ codes "\n\n" ++ existing)
  | UserMessageContent.parts parts ↦ UserMessageContent.parts (UserContentPart.text text ∷ parts)
]

abbrev pub is_filled_part : UserContentPart → Bool
is_filled_part (UserContentPart.text s) = not (is_empty (trim s))
is_filled_part _ = true

unfoldable pub user_content_has_input : UserMessageContent → Bool
user_content_has_input (UserMessageContent.text s) = not (is_empty (trim s))
user_content_has_input (UserMessageContent.parts parts) = any is_filled_part parts

-- The loop over the messages.
unfoldable pub render_each : List MailboxUpdate → Text
render_each [] = []
render_each (m ∷ messages) =
    codes "\nFrom " ++ m.from ++ codes ":\n" ++ trim m.message ++ codes "\n" ++ render_each messages

unfoldable pub render_mailbox_messages : List MailboxUpdate → Text
render_mailbox_messages messages =
    if is_empty messages
    then []
    else codes "<inter_agent_messages>" ++ render_each messages ++ codes "</inter_agent_messages>"
