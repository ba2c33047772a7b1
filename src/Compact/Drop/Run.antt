-- ===== src/Compact/Drop/Run.antt =====
-- `run_compaction` of crates/kiliax-core/src/compact.rs. The model that summarises is a parameter:
-- its answer may differ from one request to the next, so it is given the number of the request.
use kiliax.Prelude.{
  ℕ, suc, none-some, some_injective, ◌≤◌, ◌<◌, ◌≡◌, refl, subst, ◌∙◌, sym, inl, inr, Bool, false,
  List, [], ◌∷◌, ◌++◌, Option, none, some, if◌then◌else◌, arith, length, Bool-cases, Acc, Shorter,
  shorter_acc, All,
}
use kiliax.Text.{Text}
use kiliax.Protocol.{Message, UserMessageContent}
use kiliax.Compact.Drop.{
  drop_oldest_non_preamble_item_preserving_tool_pair, prepare_messages_for_compaction,
  truncate_tool_outputs_for_compaction,
}
use kiliax.History.{ids}
use kiliax.History.Clean.{CleanFrom, IsClean, sanitize-IsClean}
use kiliax.Compact.Drop.Lengths.{drop_oldest-Shorter}
use kiliax.Compact.Drop.Pairs.{drop_oldest-IsClean}

-- What `llm.chat` gives: the message of the response, or an error, which exceeds the context window
-- or not.
pub data ChatResult (J : Type 0) (E : Type 0) : Type 0 where
  response : Message J → ChatResult J E
  failure : E → ChatResult J E

pub data Summary (E : Type 0) : Type 0 where
  summary : Text → Summary E
  failed : E → Summary E

-- The requests that are sent, and how they end.
pub record Compaction (J : Type 0) (E : Type 0) : Type 0 where
  pub sent : List (List (Message J))
  pub outcome : Summary E

module _ {J : Type 0} (summarization_prompt : Text) {E : Type 0}
    (is_context_window_exceeded : E → Bool) (chat : ℕ → List (Message J) → ChatResult J E) where
  abbrev pub request : List (Message J) → List (Message J)
  request working =
      working ++ Message.user (UserMessageContent.text summarization_prompt) false ∷ []

  unfoldable pub summary_of : Message J → Text
  summary_of (Message.assistant (some content) r t u p) = content
  summary_of _ = []

  -- The loop ends, without a retry.
  abbrev ends : List (Message J) → Summary E → Compaction J E
  ends working o = record { sent = request working ∷ []; outcome = o }

  abbrev continues : List (Message J) → Compaction J E → Compaction J E
  continues working rest = record { sent = request working ∷ rest.sent; outcome = rest.outcome }

  -- The error `e`, where the context window is exceeded: what dropping the oldest message gave.
  unfoldable pub retry :
      (e : E) (working : List (Message J)) (dropped : Option (List (Message J)))
      → ((left : List (Message J)) → dropped ≡ some left → Compaction J E)
      → Compaction J E
  retry e working none again = ends working (failed e)
  retry e working (some left) again = continues working (again left refl)

  -- The `match` on the answer; `again` is the next round.
  unfoldable pub answered :
      ChatResult J E
      → (working : List (Message J))
      → ((left : List (Message J)) → length left < length working → Compaction J E)
      → Compaction J E
  answered (response m) working again = ends working (summary (summary_of m))
  answered (failure e) working again =
      let retried =
        retry e working (drop_oldest_non_preamble_item_preserving_tool_pair working)
          (λ left h. again left (drop_oldest-Shorter working left h)) in
      if is_context_window_exceeded e then retried else ends working (failed e)

  unfoldable pub compact_from :
      (n : ℕ) (working : List (Message J)) → Acc Shorter working → Compaction J E
  compact_from n working (Acc.intro _ smaller) =
      answered (chat n (request working)) working
        (λ left h. compact_from (suc n) left (smaller left h))

  -- The requests, in order, and how they end.
  unfoldable pub run_compaction : List (Message J) → Compaction J E
  run_compaction messages =
      let working = prepare_messages_for_compaction messages in
      compact_from 0 working (shorter_acc working)

  -- What holds where the loop ends, and passes from a round to the one before, holds of the loop.
  module _ (P : List (Message J) → Compaction J E → Type 0)
      (stop : (working : List (Message J)) (o : Summary E) → P working (ends working o))
      (step : (working left : List (Message J)) (r : Compaction J E)
        → drop_oldest_non_preamble_item_preserving_tool_pair working ≡ some left
        → P left r
        → P working (continues working r)) where
    retry-induction :
        (e : E) (working : List (Message J)) (dropped : Option (List (Message J)))
        → drop_oldest_non_preamble_item_preserving_tool_pair working ≡ dropped
        → (again : (left : List (Message J)) → dropped ≡ some left → Compaction J E)
        → ((left : List (Message J)) (h : dropped ≡ some left) → P left (again left h))
        → P working (retry e working dropped again)
    unfolding retry
    retry-induction e working none d again h = stop working (failed e)
    retry-induction e working (some left) d again h = step working left _ d (h left refl)

    answered-induction :
        (a : ChatResult J E) (working : List (Message J))
        → (again : (left : List (Message J)) → length left < length working → Compaction J E)
        → ((left : List (Message J)) (h : length left < length working) → P left (again left h))
        → P working (answered a working again)
    unfolding answered
    answered-induction (response m) working again h = stop working (summary (summary_of m))
    answered-induction (failure e) working again h =
        elim (Bool-cases (is_context_window_exceeded e)) [
          | inl x ↦ rw x (
              retry-induction e working _ refl _
                (λ left k. h left (drop_oldest-Shorter working left k)))
          | inr x ↦ rw x (stop working (failed e))
        ]

    compact_from-induction :
        (n : ℕ) (working : List (Message J)) (w : Acc Shorter working)
        → P working (compact_from n working w)
    unfolding compact_from
    compact_from-induction n working (Acc.intro _ smaller) =
        answered-induction (chat n (request working)) working _
          (λ left h. compact_from-induction (suc n) left (smaller left h))

  -- A compaction sends at most one request more than its prepared context has messages.
  pub run_compaction-length :
      (messages : List (Message J))
      → length (run_compaction messages).sent
        ≤ suc (length (prepare_messages_for_compaction messages))
  unfolding run_compaction
  run_compaction-length messages =
      compact_from-induction (λ working r. length r.sent ≤ suc (length working))
        (λ working o. omega arith)
        (λ working left r h ih. omega (arith, drop_oldest-Shorter working left h)) 0 _ _

  CleanFrom-request :
      (pending : List Text) (ms : List (Message J))
      → CleanFrom pending ms
      → CleanFrom pending (request ms)
  CleanFrom-request [] [] h = tt
  CleanFrom-request [] (Message.assistant c r t u p ∷ ms) h =
      (h.0, CleanFrom-request (ids t) ms h.1)
  CleanFrom-request [] (Message.tool id c ∷ ms) h = elim h [ ]
  CleanFrom-request [] (m ∷ ms) h = CleanFrom-request [] ms h
  CleanFrom-request (id ∷ pending) [] h = elim h [ ]
  CleanFrom-request (id ∷ pending) (Message.tool j c ∷ ms) h =
      (h.0, CleanFrom-request pending ms h.1)
  CleanFrom-request (id ∷ pending) (m ∷ ms) h = elim h [ ]

  CleanFrom-truncate :
      (pending : List Text) (ms : List (Message J))
      → CleanFrom pending ms
      → CleanFrom pending (truncate_tool_outputs_for_compaction ms)
  unfolding truncate_tool_outputs_for_compaction
  CleanFrom-truncate [] [] h = tt
  CleanFrom-truncate [] (Message.assistant c r t u p ∷ ms) h =
      (h.0, CleanFrom-truncate (ids t) ms h.1)
  CleanFrom-truncate [] (Message.tool id c ∷ ms) h = elim h [ ]
  CleanFrom-truncate [] (m ∷ ms) h = CleanFrom-truncate [] ms h
  CleanFrom-truncate (id ∷ pending) [] h = elim h [ ]
  CleanFrom-truncate (id ∷ pending) (Message.tool j c ∷ ms) h =
      (h.0, CleanFrom-truncate pending ms h.1)
  CleanFrom-truncate (id ∷ pending) (m ∷ ms) h = elim h [ ]

  IsClean-left :
      (working left : List (Message J))
      → drop_oldest_non_preamble_item_preserving_tool_pair working ≡ some left
      → IsClean working
      → IsClean left
  IsClean-left working left h hc = elim (drop_oldest-IsClean working hc) [
    | inl (hp, e) ↦ elim (none-some left (sym e ∙ h)) [ ]
    | inr (pre, m, rest, e, hp, hm, eq, clean) ↦
        subst IsClean (some_injective _ _ (sym eq ∙ h)) clean
  ]

  -- Every request of a compaction is a clean history, whatever the messages are.
  pub run_compaction-IsClean :
      (messages : List (Message J)) → All IsClean (run_compaction messages).sent
  unfolding run_compaction prepare_messages_for_compaction
  run_compaction-IsClean messages =
      compact_from-induction (λ working r. IsClean working → All IsClean r.sent)
        (λ working o hc. (CleanFrom-request [] working hc, tt))
        (λ working left r h ih hc.
          (CleanFrom-request [] working hc, ih (IsClean-left working left h hc)))
        0 _ _ (CleanFrom-truncate [] _ (sanitize-IsClean messages))
