-- ===== src/History/Stable.antt =====
-- A history that needs no repair passes unchanged, so a second repair changes nothing.
use kiliax.Prelude.{
  true, false, List, [], ◌∷◌, ◌++◌, map, Option, none, some, shorter_acc, all, arith, ◌≡◌, refl, ap,
  Bool-cases, inl, inr, append_assoc,
}
use kiliax.Text.{Text}
use kiliax.Protocol.{Message, TokenUsage, ProviderMessageMetadata}
use kiliax.History.{
  SanitizeReport, unchanged, ids, assistant_has_wire_output, assistant_message_is_empty,
  split_segment, take_slot, pick_results, count_some, answer_calls, sanitize_round, join,
  needs_no_repair, sanitize_history_for_next_request, drain-induction,
}
use kiliax.History.Clean.{CleanFrom, IsClean, sanitize-IsClean}

module _ {J : Type 0} where
  tools-nil : (q : List (Message J)) → CleanFrom [] q → (split_segment q).0 ≡ []
  unfolding split_segment
  tools-nil [] h = refl
  tools-nil (Message.assistant c r t u p ∷ q) h = refl
  tools-nil (Message.tool id c ∷ q) h = absurd h
  tools-nil (m ∷ q) h = tools-nil q h

  split-append :
      (pending : List Text) (q : List (Message J))
      → CleanFrom pending q
      → (split_segment q).0 ++ ((split_segment q).1 ++ (split_segment q).2) ≡ q
  unfolding split_segment
  split-append [] [] h = refl
  split-append [] (Message.assistant c r t u p ∷ q) h = refl
  split-append [] (Message.tool id c ∷ q) h = absurd h
  split-append [] (m ∷ q) h =
      rw (tools-nil q h) (ap (◌∷◌ m) (rw (tools-nil q h) at (split-append [] q h)))
  split-append (id ∷ pending) [] h = absurd h
  split-append (id ∷ pending) (Message.tool j c ∷ q) h =
      ap (◌∷◌ (Message.tool j c)) (split-append pending q h.1)
  split-append (id ∷ pending) (m ∷ q) h = absurd h

  split-rest :
      (pending : List Text) (q : List (Message J))
      → CleanFrom pending q
      → CleanFrom [] (split_segment q).2
  unfolding split_segment
  split-rest [] [] h = tt
  split-rest [] (Message.assistant c r t u p ∷ q) h = h
  split-rest [] (Message.tool id c ∷ q) h = absurd h
  split-rest [] (m ∷ q) h = split-rest [] q h
  split-rest (id ∷ pending) [] h = absurd h
  split-rest (id ∷ pending) (Message.tool j c ∷ q) h = split-rest pending q h.1
  split-rest (id ∷ pending) (m ∷ q) h = absurd h

  -- A slot that has been taken is passed over.
  pick_results-none :
      (pending : List Text) (slots : List (Option (Message J)))
      → pick_results pending (none ∷ slots) ≡ (
        (pick_results pending slots).0,
        (pick_results pending slots).1,
        none ∷ (pick_results pending slots).2,
      )
  unfolding pick_results take_slot
  pick_results-none [] slots = refl
  pick_results-none (id ∷ pending) slots =
      ground (arith, pick_results-none pending (take_slot id slots).1)

  take_slot-head :
      (id j c : Text) (slots : List (Option (Message J)))
      → j ≡ id
      → take_slot id (some (Message.tool j c) ∷ slots) ≡ (some (Message.tool j c), none ∷ slots)
  unfolding take_slot
  take_slot-head id j c slots e = ground arith

  pick_results-exact :
      (pending : List Text) (q : List (Message J))
      → CleanFrom pending q
      → let r = pick_results pending (map some (split_segment q).0) in
        (r.0 ≡ (split_segment q).0) × (r.1 ≡ 0) × (count_some r.2 ≡ 0)
  unfolding split_segment pick_results count_some
  pick_results-exact [] q h = rw (tools-nil q h) (refl, refl, refl)
  pick_results-exact (id ∷ pending) [] h = absurd h
  pick_results-exact (id ∷ pending) (Message.tool j c ∷ q) h =
      let (er, ei, ec) = pick_results-exact pending q h.1 in
      ground (
        arith,
        take_slot-head id j c (map some (split_segment q).0) h.0,
        pick_results-none pending (map some (split_segment q).0),
        er,
        ei,
        ec,
      )
  pick_results-exact (id ∷ pending) (m ∷ q) h = absurd h

  wire-not-empty :
      (c r : Option Text) (u : Option TokenUsage) (p : Option (ProviderMessageMetadata J))
      → assistant_has_wire_output c [] ≡ true
      → assistant_message_is_empty (Message.assistant c r [] u p) ≡ false
  unfolding assistant_message_is_empty
  wire-not-empty c r u p h = rw h

  round-stable :
      (m : Message J) (q : List (Message J)) (r : List (Message J) × SanitizeReport)
      → (CleanFrom [] (sanitize_round m q).queue → r ≡ ((sanitize_round m q).queue, unchanged))
      → CleanFrom [] (m ∷ q)
      → join (sanitize_round m q) r ≡ (m ∷ q, unchanged)
  unfolding sanitize_round answer_calls
  round-stable (Message.assistant c r (t ∷ ts) u p) q s ih h =
      let (er, ei, ec) = pick_results-exact (ids (t ∷ ts)) q h.1 in
      rw (
        ih (split-rest (ids (t ∷ ts)) q h.1),
        er,
        ei,
        ec,
        append_assoc,
        split-append (ids (t ∷ ts)) q h.1,
      )
  round-stable (Message.assistant c r [] u p) q s ih h =
      let e = wire-not-empty c r u p h.0 in ground (arith, e, ih (rw e h.1))
  round-stable (Message.tool id c) q r ih h = absurd h
  round-stable m q r ih h = rw (ih h)

  -- A clean history passes unchanged, with nothing to report.
  pub sanitize_of_IsClean :
      (ms : List (Message J)) → IsClean ms → sanitize_history_for_next_request ms ≡ (ms, unchanged)
  unfolding sanitize_history_for_next_request
  sanitize_of_IsClean ms h = elim (Bool-cases (all needs_no_repair ms)) [
    | inl e ↦ rw e
    | inr e ↦ rw e (
        drain-induction (λ q r. CleanFrom [] q → r ≡ (q, unchanged)) (λ _. refl) round-stable ms
          (shorter_acc ms) h)
  ]

  -- Repairing the repaired history changes nothing.
  pub sanitize_idem :
      (ms : List (Message J))
      → let out = (sanitize_history_for_next_request ms).0 in
        sanitize_history_for_next_request out ≡ (out, unchanged)
  sanitize_idem ms = sanitize_of_IsClean _ (sanitize-IsClean ms)
