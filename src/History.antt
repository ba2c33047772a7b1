-- ===== src/History.antt =====
-- crates/kiliax-core/src/history.rs: the repair of a history before it is sent to a provider.
-- A message is taken from the front of the queue in each round; the rounds recur on the length of
-- the queue.
mod Tests
pub mod Clean
pub mod Stable
pub mod Kept
use kiliax.Prelude.{
  ℕ, suc, ◌+◌, ◌≤◌, ◌<◌, Bool, true, false, not, ◌&&◌, ◌||◌, List, [], ◌∷◌, ◌++◌, map, Option, none,
  some, Acc, Shorter, shorter_acc, length, all, is_empty, ltb, if◌then◌else◌, arith, ◌≡◌, refl,
  Bool-cases, inl, inr,
}
use Prim.Native.Nat.{suc-le-suc}
use kiliax.Text.{Text, codes, trim, text_eq}
use kiliax.Protocol.{Message, ToolCall, TokenUsage, ProviderMessageMetadata}

pub record SanitizeReport : Type 0 where
  pub dropped_empty_assistant : ℕ
  pub dropped_orphan_tool : ℕ
  pub inserted_missing_tool_result : ℕ

abbrev pub unchanged : SanitizeReport
unchanged = record {
  dropped_empty_assistant = 0;
  dropped_orphan_tool = 0;
  inserted_missing_tool_result = 0;
}

-- `SanitizeReport::changed`
unfoldable pub changed : SanitizeReport → Bool
changed r =
    ltb 0 r.dropped_empty_assistant
    || ltb 0 r.dropped_orphan_tool
    || ltb 0 r.inserted_missing_tool_result

has_text : Option Text → Bool
has_text none = false
has_text (some c) = not (is_empty (trim c))

unfoldable pub assistant_has_wire_output : Option Text → List ToolCall → Bool
unfolding has_text
assistant_has_wire_output content tool_calls = has_text content || not (is_empty tool_calls)

abbrev pub missing_result : Text
missing_result = codes "error: missing tool response message (repaired)"

-- What one round pushes, what it adds to the report, and the queue that it leaves.
pub record Round (J : Type 0) : Type 0 where
  pub pushed : List (Message J)
  pub counted : SanitizeReport
  pub queue : List (Message J)

abbrev pub ids : List ToolCall → List Text
ids = map (λ call. call.id)

abbrev pub plus : SanitizeReport → SanitizeReport → SanitizeReport
plus a b = record {
  dropped_empty_assistant = a.dropped_empty_assistant + b.dropped_empty_assistant;
  dropped_orphan_tool = a.dropped_orphan_tool + b.dropped_orphan_tool;
  inserted_missing_tool_result = a.inserted_missing_tool_result + b.inserted_missing_tool_result;
}

module _ {J : Type 0} where
  unfoldable pub assistant_message_has_wire_output : Message J → Bool
  assistant_message_has_wire_output (Message.assistant content r tool_calls u p) =
      assistant_has_wire_output content tool_calls
  assistant_message_has_wire_output _ = false

  unfoldable pub assistant_message_is_empty : Message J → Bool
  assistant_message_is_empty (Message.assistant content r tool_calls u p) =
      not (assistant_has_wire_output content tool_calls)
  assistant_message_is_empty _ = false

  abbrev pub is_tool : Message J → Bool
  is_tool (Message.tool id c) = true
  is_tool _ = false

  abbrev pub has_tool_calls : Message J → Bool
  has_tool_calls (Message.assistant content r tool_calls u p) = not (is_empty tool_calls)
  has_tool_calls _ = false

  -- The inner `while`: the tool messages and the others, up to the next assistant message.
  unfoldable pub split_segment :
      List (Message J) → List (Message J) × List (Message J) × List (Message J)
  split_segment [] = ([], [], [])
  split_segment (Message.assistant c r t u p ∷ q) = ([], [], Message.assistant c r t u p ∷ q)
  split_segment (Message.tool id c ∷ q) =
      let (tools, others, rest) = split_segment q in (Message.tool id c ∷ tools, others, rest)
  split_segment (m ∷ q) = let (tools, others, rest) = split_segment q in (tools, m ∷ others, rest)

  -- The `for slot in remaining.iter_mut()` loop: `slot.take()` at the first answer to `id`.
  unfoldable pub take_slot :
      Text → List (Option (Message J)) → Option (Message J) × List (Option (Message J))
  take_slot id [] = (none, [])
  take_slot id (some (Message.tool j c) ∷ slots) =
      let (picked, rest) = take_slot id slots in
      if text_eq j id
      then (some (Message.tool j c), none ∷ slots)
      else (picked, some (Message.tool j c) ∷ rest)
  take_slot id (slot ∷ slots) = let (picked, rest) = take_slot id slots in (picked, slot ∷ rest)

  -- The `for expected_id` loop: the results in the order of the calls, how many were inserted, and
  -- the slots that are left.
  unfoldable pub pick_results :
      List Text → List (Option (Message J)) → List (Message J) × ℕ × List (Option (Message J))
  pick_results [] slots = ([], 0, slots)
  pick_results (id ∷ ids) slots =
      let (picked, left) = take_slot id slots in
      let (results, inserted, rest) = pick_results ids left in
      elim picked [
        | some m ↦ (m ∷ results, inserted, rest)
        | none ↦ (Message.tool id missing_result ∷ results, suc inserted, rest)
      ]

  unfoldable pub count_some : List (Option (Message J)) → ℕ
  count_some [] = 0
  count_some (none ∷ slots) = count_some slots
  count_some (some m ∷ slots) = suc (count_some slots)

  -- The arm of an assistant message with tool calls.
  unfoldable pub answer_calls : Message J → List ToolCall → List (Message J) → Round J
  answer_calls msg tool_calls q =
      let (tools, others, rest) = split_segment q in
      let (results, inserted, left) = pick_results (ids tool_calls) (map some tools) in
      record {
        pushed = msg ∷ (results ++ others);
        counted = record {
          dropped_empty_assistant = 0;
          dropped_orphan_tool = count_some left;
          inserted_missing_tool_result = inserted;
        };
        queue = rest;
      }

  -- The `match msg` of one round.
  unfoldable pub sanitize_round : Message J → List (Message J) → Round J
  sanitize_round (Message.assistant c r (t ∷ ts) u p) q =
      answer_calls (Message.assistant c r (t ∷ ts) u p) (t ∷ ts) q
  sanitize_round (Message.assistant c r [] u p) q =
      if assistant_message_is_empty (Message.assistant c r [] u p)
      then record {
        pushed = [];
        counted = record unchanged { dropped_empty_assistant = 1 };
        queue = q;
      }
      else record { pushed = Message.assistant c r [] u p ∷ []; counted = unchanged; queue = q }
  sanitize_round (Message.tool id c) q = record {
    pushed = [];
    counted = record unchanged { dropped_orphan_tool = 1 };
    queue = q;
  }
  sanitize_round m q = record { pushed = m ∷ []; counted = unchanged; queue = q }

  split_segment-le : (q : List (Message J)) → length (split_segment q).2 ≤ length q
  unfolding split_segment
  split_segment-le [] = omega arith
  split_segment-le (Message.assistant c r t u p ∷ q) = omega arith
  split_segment-le (m ∷ q) = omega (arith, split_segment-le q)

  pub sanitize_round-le :
      (m : Message J) (q : List (Message J)) → length (sanitize_round m q).queue ≤ length q
  unfolding sanitize_round answer_calls
  sanitize_round-le (Message.assistant c r (t ∷ ts) u p) q = split_segment-le q
  sanitize_round-le (Message.assistant c r [] u p) q = ground arith
  sanitize_round-le m q = omega arith

  abbrev pub join : Round J → List (Message J) × SanitizeReport → List (Message J) × SanitizeReport
  join r (out, report) = (r.pushed ++ out, plus r.counted report)

  next_round :
      (q : List (Message J))
      → ((q' : List (Message J)) → length q' < length q → List (Message J) × SanitizeReport)
      → List (Message J) × SanitizeReport
  next_round [] again = ([], unchanged)
  next_round (m ∷ q) again =
      let r = sanitize_round m q in join r (again r.queue (suc-le-suc (sanitize_round-le m q)))

  -- `while let Some(msg) = queue.pop_front()`
  unfoldable pub drain : (q : List (Message J)) → Acc Shorter q → List (Message J) × SanitizeReport
  unfolding next_round
  drain q (Acc.intro _ smaller) = next_round q (λ q' h. drain q' (smaller q' h))

  abbrev pub needs_no_repair : Message J → Bool
  needs_no_repair m =
      not (assistant_message_is_empty m) && not (has_tool_calls m) && not (is_tool m)

  -- The repaired messages, and the report.
  unfoldable pub sanitize_history_for_next_request :
      List (Message J) → List (Message J) × SanitizeReport
  sanitize_history_for_next_request messages =
      if all needs_no_repair messages
      then (messages, unchanged)
      else drain messages (shorter_acc messages)

  -- Induction on the rounds.
  pub drain-induction {ℓ} :
      (P : List (Message J) → List (Message J) × SanitizeReport → Type ℓ)
      → P [] ([], unchanged)
      → ((m : Message J) (q : List (Message J)) (r : List (Message J) × SanitizeReport)
          → P (sanitize_round m q).queue r
          → P (m ∷ q) (join (sanitize_round m q) r))
      → (q : List (Message J)) (w : Acc Shorter q) → P q (drain q w)
  unfolding drain
  drain-induction P base step [] (Acc.intro _ smaller) = base
  drain-induction P base step (m ∷ q) (Acc.intro _ smaller) = step m q _ (
      drain-induction P base step (sanitize_round m q).queue
        (smaller (sanitize_round m q).queue (suc-le-suc (sanitize_round-le m q))))
