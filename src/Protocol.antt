-- ===== src/Protocol.antt =====
-- crates/kiliax-llm/src/types.rs: the messages of a conversation. `J` stands for `serde_json::Value`.
mod Tests
pub mod Wire
use kiliax.Prelude.{
  ℕ, Bool, true, false, not, List, [], ◌∷◌, ◌++◌, map, Option, none, some, is_empty, if◌then◌else◌,
}
use kiliax.Text.{Text, codes, trim, starts_with}

pub record ToolCall : Type 0 where
  pub id : Text
  pub name : Text
  pub arguments : Text

pub record TokenUsage : Type 0 where
  pub prompt_tokens : ℕ
  pub completion_tokens : ℕ
  pub total_tokens : ℕ
  pub cached_tokens : Option ℕ

pub data ImageDetail : Type 0 where
  auto low high : ImageDetail

pub data UserContentPart : Type 0 where
  text : Text → UserContentPart
  image : Text → Option Text → Option ImageDetail → UserContentPart
  file : Text → Text → Text → UserContentPart

pub data UserMessageContent : Type 0 where
  text : Text → UserMessageContent
  parts : List UserContentPart → UserMessageContent

pub data ProviderMessageMetadata (J : Type 0) : Type 0 where
  open_ai_responses : List J → ProviderMessageMetadata J
  anthropic : List J → ProviderMessageMetadata J

-- An assistant message holds its content, reasoning content, tool calls, usage and provider
-- metadata; a tool message the id of the call that it answers, and the result.
pub data Message (J : Type 0) : Type 0 where
  developer : Text → Message J
  system : Text → Message J
  user : UserMessageContent → Bool → Message J
  assistant :
      Option Text
      → Option Text
      → List ToolCall
      → Option TokenUsage
      → Option (ProviderMessageMetadata J)
      → Message J
  tool : Text → Text → Message J

first_part_text : List UserContentPart → Option Text
first_part_text [] = none
first_part_text (UserContentPart.text s ∷ ps) = some s
first_part_text (UserContentPart.image p f d ∷ ps) = first_part_text ps
first_part_text (UserContentPart.file f t d ∷ ps) = first_part_text ps

-- `UserMessageContent::first_text`
unfoldable pub first_text : UserMessageContent → Option Text
unfolding first_part_text
first_text (UserMessageContent.text s) = some s
first_text (UserMessageContent.parts ps) = first_part_text ps

-- The closure `.map(str::trim).filter(|s| !s.is_empty())` of `content_label`.
trimmed_label : Option Text → Option Text
trimmed_label none = none
trimmed_label (some s) = if is_empty (trim s) then none else some (trim s)

path_label : Option Text → Text → Text
path_label none fallback = fallback
path_label (some p) fallback = if starts_with (codes "data:") p then fallback else p

unfoldable pub content_label : Option Text → Option Text → Text → Text
unfolding trimmed_label path_label
content_label filename path fallback = elim (trimmed_label filename) [
  | some name ↦ name
  | none ↦ path_label (trimmed_label path) fallback
]

part_text : UserContentPart → Text
part_text (UserContentPart.text s) = s
part_text (UserContentPart.image path filename detail) =
    codes "[image: " ++ content_label filename (some path) (codes "uploaded image") ++ codes "]"
part_text (UserContentPart.file filename media_type contents) =
    codes "[file: " ++ content_label (some filename) none (codes "uploaded file") ++ codes "]"

-- The loop of `display_text`: a line feed before every part but the first.
more_parts_text : List UserContentPart → Text
unfolding part_text
more_parts_text [] = []
more_parts_text (p ∷ ps) = b'\n' ∷ (part_text p ++ more_parts_text ps)

unfoldable pub display_text : UserMessageContent → Text
unfolding more_parts_text content_label
display_text (UserMessageContent.text s) = s
display_text (UserMessageContent.parts []) = []
display_text (UserMessageContent.parts (p ∷ ps)) = part_text p ++ more_parts_text ps
