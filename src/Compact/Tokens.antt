-- ===== src/Compact/Tokens.antt =====
-- Token estimates: `approx_token_count`, `estimate_context_tokens` and
-- `context_tokens_for_auto_compact` of crates/kiliax-core/src/compact.rs.
use kiliax.Prelude.{
  ℕ, ◌+◌, ◌-◌, ◌*◌, ◌/◌, ◌≤◌, ◌≡◌, refl, ap, ◌∙◌, sym, Bool, true, false, List, [], ◌∷◌, Option,
  none, some, min, if◌then◌else◌, arith, saturating_add, max_u64,
}
use mathlib.Core.List.{reverse}
use kiliax.Text.{Text, byte_len}
use kiliax.Protocol.{Message, UserMessageContent, UserContentPart, ToolCall, TokenUsage}

pub data AutoCompactTokenSource : Type 0 where
  provider_usage estimate : AutoCompactTokenSource

pub record AutoCompactTokenCount : Type 0 where
  pub tokens : ℕ
  pub source : AutoCompactTokenSource

abbrev pub approx_bytes_per_token : ℕ
approx_bytes_per_token = 4

unfoldable pub approx_token_count : Text → ℕ
approx_token_count text =
    saturating_add (byte_len text) (approx_bytes_per_token - 1) / approx_bytes_per_token

-- `approx_bytes_for_tokens`: `saturating_mul`
unfoldable pub approx_bytes_for_tokens : ℕ → ℕ
approx_bytes_for_tokens tokens = min (tokens * approx_bytes_per_token) max_u64

unfoldable pub approx_tokens_from_byte_count : ℕ → ℕ
approx_tokens_from_byte_count bytes =
    saturating_add bytes (approx_bytes_per_token - 1) / approx_bytes_per_token

-- `total = total.saturating_add(approx_token_count(text))`
abbrev count : ℕ → Text → ℕ
count total text = saturating_add total (approx_token_count text)

-- The loop over the parts, with `total` and `saw_text`.
estimate_parts : ℕ → Bool → List UserContentPart → ℕ
estimate_parts total saw_text [] = if saw_text then total else saturating_add total 1
estimate_parts total saw_text (UserContentPart.text t ∷ ps) = estimate_parts (count total t) true ps
estimate_parts total saw_text (UserContentPart.image p f d ∷ ps) = estimate_parts total saw_text ps
estimate_parts total saw_text (UserContentPart.file f t d ∷ ps) = estimate_parts total saw_text ps

estimate_calls : ℕ → List ToolCall → ℕ
estimate_calls total [] = total
estimate_calls total (call ∷ calls) =
    estimate_calls (count (count total call.name) call.arguments) calls

estimate_content : ℕ → Option Text → ℕ
estimate_content total none = total
estimate_content total (some text) = count total text

-- The estimates as plain sums.
texts_tokens : List UserContentPart → ℕ
texts_tokens [] = 0
texts_tokens (UserContentPart.text t ∷ ps) = approx_token_count t + texts_tokens ps
texts_tokens (p ∷ ps) = texts_tokens ps

has_text_part : List UserContentPart → Bool
has_text_part [] = false
has_text_part (UserContentPart.text t ∷ ps) = true
has_text_part (p ∷ ps) = has_text_part ps

calls_tokens : List ToolCall → ℕ
calls_tokens [] = 0
calls_tokens (c ∷ cs) = approx_token_count c.name + approx_token_count c.arguments + calls_tokens cs

content_tokens : Option Text → ℕ
content_tokens none = 0
content_tokens (some t) = approx_token_count t

saturating_twice :
    (a b c d : ℕ) → b + c ≡ d → saturating_add (saturating_add a b) c ≡ saturating_add a d
unfolding saturating_add
saturating_twice a b c d h = omega arith

saturating_zero : (a : ℕ) → a ≤ max_u64 → saturating_add a 0 ≡ a
unfolding saturating_add
saturating_zero a h = omega arith

saturating_le : (a b : ℕ) → saturating_add a b ≤ max_u64
unfolding saturating_add
saturating_le a b = omega arith

parts_total :
    (total : ℕ) (saw : Bool) (ps : List UserContentPart)
    → total ≤ max_u64
    → estimate_parts total saw ps
      ≡ saturating_add total
          (texts_tokens ps + (if saw then 0 else if has_text_part ps then 0 else 1))
unfolding estimate_parts texts_tokens has_text_part
parts_total total true [] h = sym (saturating_zero total h)
parts_total total false [] h = refl
parts_total total true (UserContentPart.text t ∷ ps) h =
    parts_total (count total t) true ps (saturating_le total (approx_token_count t))
    ∙ saturating_twice total (approx_token_count t) (texts_tokens ps + 0) _ (omega arith)
parts_total total false (UserContentPart.text t ∷ ps) h =
    parts_total (count total t) true ps (saturating_le total (approx_token_count t))
    ∙ saturating_twice total (approx_token_count t) (texts_tokens ps + 0) _ (omega arith)
parts_total total saw (UserContentPart.image p f d ∷ ps) h = parts_total total saw ps h
parts_total total saw (UserContentPart.file f t d ∷ ps) h = parts_total total saw ps h

zero_plus : (n : ℕ) → n ≡ 0 + n
zero_plus n = omega arith

calls_total :
    (total : ℕ) (cs : List ToolCall)
    → total ≤ max_u64
    → estimate_calls total cs ≡ saturating_add total (calls_tokens cs)
unfolding estimate_calls calls_tokens
calls_total total [] h = sym (saturating_zero total h)
calls_total total (c ∷ cs) h =
    calls_total (count (count total c.name) c.arguments) cs
      (saturating_le (count total c.name) (approx_token_count c.arguments))
    ∙ saturating_twice (count total c.name) (approx_token_count c.arguments) (calls_tokens cs) _
        refl
    ∙ saturating_twice total (approx_token_count c.name) _ _ (omega arith)

module _ {J : Type 0} where
  -- The `match msg` of `estimate_context_tokens`.
  estimate_message : ℕ → Message J → ℕ
  unfolding estimate_parts estimate_calls estimate_content
  estimate_message total (Message.developer content) = count total content
  estimate_message total (Message.system content) = count total content
  estimate_message total (Message.user (UserMessageContent.text text) hidden) = count total text
  estimate_message total (Message.user (UserMessageContent.parts ps) hidden) =
      estimate_parts total false ps
  estimate_message total (Message.assistant content r tool_calls u p) =
      estimate_calls (estimate_content total content) tool_calls
  estimate_message total (Message.tool tool_call_id content) =
      count (count total tool_call_id) content

  estimate_from : ℕ → List (Message J) → ℕ
  estimate_from total [] = total
  estimate_from total (m ∷ ms) = estimate_from (estimate_message total m) ms

  unfoldable pub estimate_context_tokens : List (Message J) → ℕ
  unfolding estimate_message estimate_from
  estimate_context_tokens messages = estimate_from 0 messages

  -- The loop over `messages.iter().rev()`.
  first_usage : List (Message J) → Option TokenUsage
  first_usage [] = none
  first_usage (Message.assistant c r t (some usage) p ∷ ms) = some usage
  first_usage (m ∷ ms) = first_usage ms

  unfoldable pub context_tokens_for_auto_compact : List (Message J) → AutoCompactTokenCount
  unfolding first_usage
  context_tokens_for_auto_compact messages = elim (first_usage (reverse messages)) [
    | some usage ↦ record {
      tokens = usage.prompt_tokens;
      source = AutoCompactTokenSource.provider_usage;
    }
    | none ↦ record {
      tokens = estimate_context_tokens messages;
      source = AutoCompactTokenSource.estimate;
    }
  ]

  -- The tokens of a message, as a plain sum.
  unfoldable pub message_tokens : Message J → ℕ
  unfolding texts_tokens has_text_part calls_tokens content_tokens
  message_tokens (Message.developer t) = approx_token_count t
  message_tokens (Message.system t) = approx_token_count t
  message_tokens (Message.user (UserMessageContent.text t) h) = approx_token_count t
  message_tokens (Message.user (UserMessageContent.parts ps) h) =
      texts_tokens ps + (if has_text_part ps then 0 else 1)
  message_tokens (Message.assistant c r ts u p) = content_tokens c + calls_tokens ts
  message_tokens (Message.tool id c) = approx_token_count id + approx_token_count c

  abbrev pub history_tokens : List (Message J) → ℕ
  history_tokens [] = 0
  history_tokens (m ∷ ms) = message_tokens m + history_tokens ms

  message_total :
      (total : ℕ) (m : Message J)
      → total ≤ max_u64
      → estimate_message total m ≡ saturating_add total (message_tokens m)
  unfolding estimate_message estimate_content content_tokens message_tokens
  message_total total (Message.developer t) h = refl
  message_total total (Message.system t) h = refl
  message_total total (Message.user (UserMessageContent.text t) hidden) h = refl
  message_total total (Message.user (UserMessageContent.parts ps) hidden) h =
      parts_total total false ps h
  message_total total (Message.assistant none r ts u p) h =
      calls_total total ts h ∙ ap (saturating_add total) (zero_plus (calls_tokens ts))
  message_total total (Message.assistant (some t) r ts u p) h =
      calls_total (count total t) ts (saturating_le total (approx_token_count t))
      ∙ saturating_twice total (approx_token_count t) (calls_tokens ts) _ refl
  message_total total (Message.tool id c) h =
      saturating_twice total (approx_token_count id) (approx_token_count c) _ refl

  estimate_le : (total : ℕ) (m : Message J) → total ≤ max_u64 → estimate_message total m ≤ max_u64
  unfolding saturating_add
  estimate_le total m h = omega (arith, message_total total m h)

  from_total :
      (total : ℕ) (ms : List (Message J))
      → total ≤ max_u64
      → estimate_from total ms ≡ saturating_add total (history_tokens ms)
  unfolding estimate_from
  from_total total [] h = sym (saturating_zero total h)
  from_total total (m ∷ ms) h =
      from_total (estimate_message total m) ms (estimate_le total m h)
      ∙ ap (λ t. saturating_add t (history_tokens ms)) (message_total total m h)
      ∙ saturating_twice total (message_tokens m) (history_tokens ms) _ refl

  -- The estimate of a context is the sum of its messages' estimates, or the largest `usize` where
  -- the sum is more.
  pub estimate_context_tokens-sum :
      (ms : List (Message J)) → estimate_context_tokens ms ≡ min (history_tokens ms) max_u64
  unfolding estimate_context_tokens saturating_add
  estimate_context_tokens-sum ms = omega (arith, from_total 0 ms (omega arith))
