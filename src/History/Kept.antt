-- ===== src/History/Kept.antt =====
-- What the repair keeps, and what its report counts.
use kiliax.Prelude.{
  ℕ, suc, ◌+◌, not, ◌&&◌, List, [], ◌∷◌, ◌++◌, map, Option, none, some, shorter_acc, length,
  length-append, all, if◌then◌else◌, arith, ◌≡◌, refl, ap, Bool-cases, Option-cases, inl, inr, ◌∙◌,
}
use kiliax.Text.{Text}
use kiliax.Protocol.{Message}
use kiliax.History.{
  SanitizeReport, ids, assistant_message_is_empty, is_tool, split_segment, take_slot, pick_results,
  count_some, answer_calls, sanitize_round, join, needs_no_repair,
  sanitize_history_for_next_request, drain-induction,
}
use kiliax.History.Clean.{take_slot-answers}

abbrev one_if {ℓ} : {A : Type ℓ} → Option A → ℕ
one_if none = 0
one_if (some a) = 1

module _ {J : Type 0} where
  -- The messages of the conversation: all but tool results and empty assistant messages.
  abbrev pub spoken : List (Message J) → List (Message J)
  spoken [] = []
  spoken (m ∷ ms) =
      if not (is_tool m) && not (assistant_message_is_empty m) then m ∷ spoken ms else spoken ms

  spoken-append : (xs ys : List (Message J)) → spoken (xs ++ ys) ≡ spoken xs ++ spoken ys
  spoken-append [] ys = refl
  spoken-append (x ∷ xs) ys = ground (arith, spoken-append xs ys)

  spoken-results :
      (pending : List Text) (slots : List (Option (Message J)))
      → spoken (pick_results pending slots).0 ≡ []
  unfolding pick_results
  spoken-results [] slots = refl
  spoken-results (id ∷ pending) slots = elim (Option-cases (take_slot id slots).0) [
    | inl e ↦ rw (e, pick_results) (spoken-results pending (take_slot id slots).1)
    | inr (m, e) ↦
        let (c, f) = take_slot-answers id slots m e in
        rw (e ∙ ap some f, pick_results) (spoken-results pending (take_slot id slots).1)
  ]

  spoken-split :
      (q : List (Message J)) → spoken q ≡ spoken (split_segment q).1 ++ spoken (split_segment q).2
  unfolding split_segment assistant_message_is_empty
  spoken-split [] = refl
  spoken-split (Message.assistant c r t u p ∷ q) = refl
  spoken-split (Message.tool id c ∷ q) = spoken-split q
  spoken-split (m ∷ q) = ap (◌∷◌ m) (spoken-split q)

  round-spoken :
      (m : Message J) (q : List (Message J)) (r : List (Message J) × SanitizeReport)
      → spoken r.0 ≡ spoken (sanitize_round m q).queue
      → spoken (join (sanitize_round m q) r).0 ≡ spoken (m ∷ q)
  unfolding sanitize_round answer_calls
  round-spoken (Message.assistant c r (t ∷ ts) u p) q s h = ground (
    arith,
    spoken-append (pick_results (ids (t ∷ ts)) (map some (split_segment q).0)).0
        (split_segment q).1,
    spoken-results (ids (t ∷ ts)) (map some (split_segment q).0),
    spoken-append
        ((pick_results (ids (t ∷ ts)) (map some (split_segment q).0)).0 ++ (split_segment q).1) s.0,
    spoken-split q,
  )
  round-spoken (Message.assistant c r [] u p) q s h = ground arith
  round-spoken (Message.tool id c) q r h = h
  round-spoken m q r h = ground arith

  -- The repair keeps every message but tool results and empty assistant messages, in order.
  pub spoken-sanitize :
      (ms : List (Message J)) → spoken (sanitize_history_for_next_request ms).0 ≡ spoken ms
  unfolding sanitize_history_for_next_request
  spoken-sanitize ms = elim (Bool-cases (all needs_no_repair ms)) [
    | inl e ↦ rw e
    | inr e ↦
        rw e (drain-induction (λ q r. spoken r.0 ≡ spoken q) refl round-spoken ms (shorter_acc ms))
  ]

  length-split :
      (q : List (Message J))
      → length (split_segment q).0 + length (split_segment q).1 + length (split_segment q).2
        ≡ length q
  unfolding split_segment
  length-split [] = omega arith
  length-split (Message.assistant c r t u p ∷ q) = omega arith
  length-split (Message.tool id c ∷ q) = omega (arith, length-split q)
  length-split (m ∷ q) = omega (arith, length-split q)

  count_some-take_slot :
      (id : Text) (slots : List (Option (Message J)))
      → count_some (take_slot id slots).1 + one_if (take_slot id slots).0 ≡ count_some slots
  unfolding take_slot count_some
  count_some-take_slot id [] = omega arith
  count_some-take_slot id (some (Message.tool j c) ∷ slots) =
      ground (arith, count_some-take_slot id slots)
  count_some-take_slot id (none ∷ slots) = omega (arith, count_some-take_slot id slots)
  count_some-take_slot id (slot ∷ slots) = omega (arith, count_some-take_slot id slots)

  count-pick_results :
      (pending : List Text) (slots : List (Option (Message J)))
      → let r = pick_results pending slots in length r.0 + count_some r.2 ≡ count_some slots + r.1
  unfolding pick_results
  count-pick_results [] slots = omega arith
  count-pick_results (id ∷ pending) slots =
      ground
        (arith, count-pick_results pending (take_slot id slots).1, count_some-take_slot id slots)

  count_some-map : (ms : List (Message J)) → count_some (map some ms) ≡ length ms
  unfolding count_some
  count_some-map [] = refl
  count_some-map (m ∷ ms) = ap suc (count_some-map ms)

  -- The messages that stay and the ones dropped, against the ones given and the ones inserted.
  abbrev pub Balanced : List (Message J) → List (Message J) × SanitizeReport → Type 0
  Balanced ms (out, report) =
      length out + report.dropped_empty_assistant + report.dropped_orphan_tool
      ≡ length ms + report.inserted_missing_tool_result

  round-Balanced :
      (m : Message J) (q : List (Message J)) (r : List (Message J) × SanitizeReport)
      → Balanced (sanitize_round m q).queue r
      → Balanced (m ∷ q) (join (sanitize_round m q) r)
  unfolding sanitize_round answer_calls
  round-Balanced (Message.assistant c r (t ∷ ts) u p) q (out, report) h = omega (
    arith,
    length-append (pick_results (ids (t ∷ ts)) (map some (split_segment q).0)).0
        (split_segment q).1,
    length-append
        ((pick_results (ids (t ∷ ts)) (map some (split_segment q).0)).0 ++ (split_segment q).1) out,
    count-pick_results (ids (t ∷ ts)) (map some (split_segment q).0),
    count_some-map (split_segment q).0,
    length-split q,
  )
  round-Balanced (Message.assistant c r [] u p) q (out, report) h = ground arith
  round-Balanced (Message.tool id c) q r h = omega arith
  round-Balanced m q r h = omega arith

  -- The repaired history and the messages that the report counts as dropped are as many as the
  -- messages before and the results that the report counts as inserted.
  pub sanitize-Balanced :
      (ms : List (Message J)) → Balanced ms (sanitize_history_for_next_request ms)
  unfolding sanitize_history_for_next_request
  sanitize-Balanced ms = elim (Bool-cases (all needs_no_repair ms)) [
    | inl e ↦ rw e (omega arith)
    | inr e ↦ rw e (drain-induction Balanced (omega arith) round-Balanced ms (shorter_acc ms))
  ]
