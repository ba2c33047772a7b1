-- ===== src/History/Clean.antt =====
-- What a provider accepts: crates/kiliax-core/src/history.rs puts every history into this form.
use kiliax.Prelude.{
  true, List, [], ◌∷◌, ◌++◌, map, Option, some, shorter_acc, all, arith, ◌≡◌, refl, ap, Bool-cases,
  Option-cases, inl, inr, ◌∙◌, append_assoc,
}
use kiliax.Text.{Text}
use kiliax.Protocol.{Message}
use kiliax.History.{
  SanitizeReport, ids, assistant_has_wire_output, assistant_message_is_empty, split_segment,
  take_slot, pick_results, answer_calls, sanitize_round, join, needs_no_repair,
  sanitize_history_for_next_request, drain-induction,
}

module _ {J : Type 0} where
  -- `CleanFrom pending ms`: the results of the `pending` calls stand first, in the order of the
  -- calls; after them no tool message stands alone, and no assistant message is empty.
  abbrev pub CleanFrom : List Text → List (Message J) → Type 0
  CleanFrom [] [] = Unit
  CleanFrom [] (Message.assistant c r t u p ∷ ms) =
      (assistant_has_wire_output c t ≡ true) × CleanFrom (ids t) ms
  CleanFrom [] (Message.tool id c ∷ ms) = ⊥
  CleanFrom [] (m ∷ ms) = CleanFrom [] ms
  CleanFrom (id ∷ rest) [] = ⊥
  CleanFrom (id ∷ rest) (Message.tool j c ∷ ms) = (j ≡ id) × CleanFrom rest ms
  CleanFrom (id ∷ rest) (m ∷ ms) = ⊥

  abbrev pub IsClean : List (Message J) → Type 0
  IsClean = CleanFrom []

  pub take_slot-answers :
      (id : Text) (slots : List (Option (Message J))) (m : Message J)
      → (take_slot id slots).0 ≡ some m
      → (c : Text) × (m ≡ Message.tool id c)
  unfolding take_slot
  take_slot-answers id [] m h = cc
  take_slot-answers id (some (Message.tool j c) ∷ slots) m h =
      ground (arith, take_slot-answers id slots m)
  take_slot-answers id (slot ∷ slots) m h = take_slot-answers id slots m h

  pick_results-CleanFrom :
      (pending : List Text) (slots : List (Option (Message J))) (tail : List (Message J))
      → CleanFrom [] tail
      → CleanFrom pending ((pick_results pending slots).0 ++ tail)
  unfolding pick_results
  pick_results-CleanFrom [] slots tail h = h
  pick_results-CleanFrom (id ∷ pending) slots tail h = elim (Option-cases (take_slot id slots).0) [
    | inl e ↦
        rw (e, pick_results) (refl, pick_results-CleanFrom pending (take_slot id slots).1 tail h)
    | inr (m, e) ↦
        let (c, f) = take_slot-answers id slots m e in
        rw (e ∙ ap some f, pick_results)
          (refl, pick_results-CleanFrom pending (take_slot id slots).1 tail h)
  ]

  -- The tail of a clean history, cut at an assistant message, may follow any segment.
  segment-CleanFrom :
      (q tail : List (Message J)) → CleanFrom [] tail → CleanFrom [] ((split_segment q).1 ++ tail)
  unfolding split_segment
  segment-CleanFrom [] tail h = h
  segment-CleanFrom (Message.assistant c r t u p ∷ q) tail h = h
  segment-CleanFrom (Message.tool id c ∷ q) tail h = segment-CleanFrom q tail h
  segment-CleanFrom (m ∷ q) tail h = segment-CleanFrom q tail h

  round-CleanFrom :
      (m : Message J) (q : List (Message J)) (r : List (Message J) × SanitizeReport)
      → CleanFrom [] r.0
      → CleanFrom [] (join (sanitize_round m q) r).0
  unfolding sanitize_round answer_calls assistant_has_wire_output assistant_message_is_empty
  round-CleanFrom (Message.assistant c r (t ∷ ts) u p) q (out, report) h = (
    ground arith,
    rw append_assoc (
        pick_results-CleanFrom (ids (t ∷ ts)) (map some (split_segment q).0) _
          (segment-CleanFrom q out h)),
  )
  round-CleanFrom (Message.assistant c r [] u p) q (out, report) h = ground arith
  round-CleanFrom (Message.tool id c) q r h = h
  round-CleanFrom m q r h = h

  unchanged-CleanFrom : (ms : List (Message J)) → all needs_no_repair ms ≡ true → CleanFrom [] ms
  unfolding assistant_message_is_empty assistant_has_wire_output
  unchanged-CleanFrom [] h = tt
  unchanged-CleanFrom (Message.assistant c r (t ∷ ts) u p ∷ ms) h = ground arith
  unchanged-CleanFrom (Message.assistant c r [] u p ∷ ms) h = ground (arith, unchanged-CleanFrom ms)
  unchanged-CleanFrom (Message.tool id c ∷ ms) h = cc
  unchanged-CleanFrom (m ∷ ms) h = unchanged-CleanFrom ms h

  -- Whatever the history, the repaired one is clean: the results of each assistant message's calls
  -- follow it in the order of the calls, no other result stands anywhere, and no assistant message
  -- is empty.
  pub sanitize-IsClean : (ms : List (Message J)) → IsClean (sanitize_history_for_next_request ms).0
  unfolding sanitize_history_for_next_request
  sanitize-IsClean ms = elim (Bool-cases (all needs_no_repair ms)) [
    | inl e ↦ rw e (unchanged-CleanFrom ms e)
    | inr e ↦
        rw e (drain-induction (λ q r. CleanFrom [] r.0) tt round-CleanFrom ms (shorter_acc ms))
  ]
