-- ===== src/Compact/Drop/Pairs.antt =====
-- Dropping the oldest message of a context keeps its leading preamble, and the pairs of calls and
-- results.
use kiliax.Prelude.{
  ◌≡◌, refl, ap, subst, ◌∙◌, sym, ◌⊎◌, inl, inr, Bool, true, false, ◌||◌, List, [], ◌∷◌, ◌++◌, none,
  some, arith, take, drop, length, get_elem?, All,
}
use kiliax.Text.{Text, text_eq}
use kiliax.Protocol.{Message, ToolCall}
use kiliax.History.{ids}
use kiliax.History.Clean.{CleanFrom, IsClean}
use kiliax.Compact.Drop.{
  find_index, remove_at, is_item, expects, remove_results, remove_matching_tool_results_at,
  remove_pair, drop_oldest_non_preamble_item_preserving_tool_pair,
}

text_eq_refl : (t : Text) → text_eq t t ≡ true
text_eq_refl t = ground arith

AllExpected : List ToolCall → List Text → Type 0
AllExpected calls = All (λ id. expects calls id ≡ true)

or_true : (a b : Bool) → b ≡ true → a || b ≡ true
or_true true b h = refl
or_true false b h = h

expected-more :
    (c : ToolCall) (calls : List ToolCall) (pending : List Text)
    → AllExpected calls pending
    → AllExpected (c ∷ calls) pending
unfolding AllExpected
expected-more c calls [] h = tt
expected-more c calls (id ∷ pending) h =
    (or_true (text_eq c.id id) _ h.0, expected-more c calls pending h.1)

expected_ids : (calls : List ToolCall) → AllExpected calls (ids calls)
unfolding AllExpected
expected_ids [] = tt
expected_ids (c ∷ calls) =
    (rw (text_eq_refl c.id) refl, expected-more c calls (ids calls) (expected_ids calls))

module _ {J : Type 0} where
  -- Only system and developer messages.
  abbrev pub IsPreamble : List (Message J) → Type 0
  IsPreamble [] = Unit
  IsPreamble (Message.system c ∷ ms) = IsPreamble ms
  IsPreamble (Message.developer c ∷ ms) = IsPreamble ms
  IsPreamble (m ∷ ms) = ⊥

  -- What stays of the messages after the one that is dropped, where that is not a tool message.
  abbrev pub after_item : Message J → List (Message J) → List (Message J)
  after_item (Message.assistant c r ts u p) rest = remove_results ts rest
  after_item _ rest = rest

  abbrev pub IsSpeech : Message J → Type 0
  IsSpeech (Message.user c h) = Unit
  IsSpeech (Message.assistant c r ts u p) = Unit
  IsSpeech _ = ⊥

  find_index-preamble :
      (pre : List (Message J)) (m : Message J) (rest : List (Message J))
      → IsPreamble pre
      → is_item m ≡ true
      → find_index is_item (pre ++ m ∷ rest) ≡ some (length pre)
  unfolding find_index
  find_index-preamble [] m rest hp hm = rw hm refl
  find_index-preamble (Message.system c ∷ pre) m rest hp hm =
      rw (find_index-preamble pre m rest hp hm) refl
  find_index-preamble (Message.developer c ∷ pre) m rest hp hm =
      rw (find_index-preamble pre m rest hp hm) refl
  find_index-preamble (n ∷ pre) m rest hp hm = elim hp [ ]

  find_index-none : (ms : List (Message J)) → IsPreamble ms → find_index is_item ms ≡ none
  unfolding find_index
  find_index-none [] h = refl
  find_index-none (Message.system c ∷ ms) h = rw (find_index-none ms h) refl
  find_index-none (Message.developer c ∷ ms) h = rw (find_index-none ms h) refl
  find_index-none (m ∷ ms) h = elim h [ ]

  -- Every context is a preamble, or splits at its first other message.
  split_item :
      (ms : List (Message J))
      → IsPreamble ms
        ⊎ ((pre : List (Message J)) × (m : Message J) × (rest : List (Message J)) × (ms
              ≡ pre ++ m ∷ rest)
            × IsPreamble pre
            × (is_item m ≡ true))
  split_item [] = inl tt
  split_item (Message.system c ∷ ms) = elim (split_item ms) [
    | inl h ↦ inl h
    | inr (pre, m, rest, e, hp, hm) ↦
        inr (Message.system c ∷ pre, m, rest, ap (◌∷◌ (Message.system c)) e, hp, hm)
  ]
  split_item (Message.developer c ∷ ms) = elim (split_item ms) [
    | inl h ↦ inl h
    | inr (pre, m, rest, e, hp, hm) ↦
        inr (Message.developer c ∷ pre, m, rest, ap (◌∷◌ (Message.developer c)) e, hp, hm)
  ]
  split_item (Message.user c h ∷ ms) = inr ([], Message.user c h, ms, refl, tt, refl)
  split_item (Message.assistant c r t u p ∷ ms) =
      inr ([], Message.assistant c r t u p, ms, refl, tt, refl)
  split_item (Message.tool id c ∷ ms) = inr ([], Message.tool id c, ms, refl, tt, refl)

  get_elem?-at :
      (pre : List (Message J)) (m : Message J) (rest : List (Message J))
      → get_elem? (pre ++ m ∷ rest) (length pre) ≡ some m
  get_elem?-at [] m rest = refl
  get_elem?-at (n ∷ pre) m rest = get_elem?-at pre m rest

  remove_at-at :
      (pre : List (Message J)) (m : Message J) (rest : List (Message J))
      → remove_at (length pre) (pre ++ m ∷ rest) ≡ pre ++ rest
  remove_at-at [] m rest = refl
  remove_at-at (n ∷ pre) m rest = ap (◌∷◌ n) (remove_at-at pre m rest)

  take-at : (pre rest : List (Message J)) → take (length pre) (pre ++ rest) ≡ pre
  take-at [] rest = refl
  take-at (n ∷ pre) rest = ap (◌∷◌ n) (take-at pre rest)

  drop-at : (pre rest : List (Message J)) → drop (length pre) (pre ++ rest) ≡ rest
  drop-at [] rest = refl
  drop-at (n ∷ pre) rest = drop-at pre rest

  remove_results-none : (ms : List (Message J)) → remove_results [] ms ≡ ms
  unfolding remove_results
  remove_results-none [] = refl
  remove_results-none (Message.tool id c ∷ ms) =
      ap (◌∷◌ (Message.tool id c)) (remove_results-none ms)
  remove_results-none (m ∷ ms) = refl

  remove_matching-at :
      (pre rest : List (Message J)) (calls : List ToolCall)
      → remove_matching_tool_results_at (pre ++ rest) (length pre) calls
        ≡ pre ++ remove_results calls rest
  unfolding remove_matching_tool_results_at
  remove_matching-at pre rest [] = ap (◌++◌ pre) (sym (remove_results-none rest))
  remove_matching-at pre rest (c ∷ cs) = rw (take-at pre rest, drop-at pre rest) refl

  remove_pair-at :
      (pre : List (Message J)) (m : Message J) (rest : List (Message J))
      → IsSpeech m
      → remove_pair (some m) (length pre) (pre ++ rest) ≡ pre ++ after_item m rest
  unfolding remove_pair
  remove_pair-at pre (Message.user c h) rest hm = refl
  remove_pair-at pre (Message.assistant c r ts u p) rest hm = remove_matching-at pre rest ts
  remove_pair-at pre (Message.tool id c) rest hm = elim hm [ ]
  remove_pair-at pre (Message.system c) rest hm = elim hm [ ]
  remove_pair-at pre (Message.developer c) rest hm = elim hm [ ]

  speech-item : (m : Message J) → IsSpeech m → is_item m ≡ true
  speech-item (Message.user c h) hm = refl
  speech-item (Message.assistant c r ts u p) hm = refl
  speech-item (Message.tool id c) hm = elim hm [ ]
  speech-item (Message.system c) hm = elim hm [ ]
  speech-item (Message.developer c) hm = elim hm [ ]

  -- Where the first message `m` after the preamble `pre` is a user or an assistant message, it is
  -- dropped, with the results of its calls that stand directly after it; all else stays.
  pub drop_oldest-speech :
      (pre : List (Message J)) (m : Message J) (rest : List (Message J))
      → IsPreamble pre
      → IsSpeech m
      → drop_oldest_non_preamble_item_preserving_tool_pair (pre ++ m ∷ rest)
        ≡ some (pre ++ after_item m rest)
  unfolding drop_oldest_non_preamble_item_preserving_tool_pair
  drop_oldest-speech pre m rest hp hm =
      rw
        (
          drop_oldest_non_preamble_item_preserving_tool_pair,
          find_index-preamble pre m rest hp (speech-item m hm),
          get_elem?-at pre m rest,
          remove_at-at pre m rest,
        )
        (ap some (remove_pair-at pre m rest hm))

  CleanFrom-preamble :
      (pre rest : List (Message J)) → IsPreamble pre → IsClean (pre ++ rest) ≡ IsClean rest
  CleanFrom-preamble [] rest hp = refl
  CleanFrom-preamble (Message.system c ∷ pre) rest hp = CleanFrom-preamble pre rest hp
  CleanFrom-preamble (Message.developer c ∷ pre) rest hp = CleanFrom-preamble pre rest hp
  CleanFrom-preamble (m ∷ pre) rest hp = elim hp [ ]

  remove_results-IsClean :
      (calls : List ToolCall) (pending : List Text) (ms : List (Message J))
      → AllExpected calls pending
      → CleanFrom pending ms
      → IsClean (remove_results calls ms)
  unfolding remove_results AllExpected
  remove_results-IsClean calls [] [] ha hc = hc
  remove_results-IsClean calls [] (Message.tool id c ∷ ms) ha hc = elim hc [ ]
  remove_results-IsClean calls [] (m ∷ ms) ha hc = hc
  remove_results-IsClean calls (id ∷ pending) [] ha hc = elim hc [ ]
  remove_results-IsClean calls (id ∷ pending) (Message.tool j c ∷ ms) ha hc =
      rw (ap (expects calls) hc.0 ∙ ha.0) (remove_results-IsClean calls pending ms ha.1 hc.1)
  remove_results-IsClean calls (id ∷ pending) (m ∷ ms) ha hc = elim hc [ ]

  IsClean-after :
      (m : Message J) (rest : List (Message J))
      → is_item m ≡ true
      → IsClean (m ∷ rest)
      → IsSpeech m × IsClean (after_item m rest)
  IsClean-after (Message.user c h) rest hm hc = (tt, hc)
  IsClean-after (Message.assistant c r ts u p) rest hm hc =
      (tt, remove_results-IsClean ts (ids ts) rest (expected_ids ts) hc.1)
  IsClean-after (Message.tool id c) rest hm hc = elim hc [ ]
  IsClean-after (Message.system c) rest hm hc = cc
  IsClean-after (Message.developer c) rest hm hc = cc

  drop_oldest-preamble :
      (ms : List (Message J))
      → IsPreamble ms
      → drop_oldest_non_preamble_item_preserving_tool_pair ms ≡ none
  unfolding drop_oldest_non_preamble_item_preserving_tool_pair
  drop_oldest-preamble ms h =
      rw (drop_oldest_non_preamble_item_preserving_tool_pair, find_index-none ms h) refl

  pub drop_oldest-IsClean :
      (ms : List (Message J))
      → IsClean ms
      → (IsPreamble ms × (drop_oldest_non_preamble_item_preserving_tool_pair ms ≡ none))
        ⊎ ((pre : List (Message J)) × (m : Message J) × (rest : List (Message J)) × (ms
              ≡ pre ++ m ∷ rest)
            × IsPreamble pre
            × IsSpeech m
            × (drop_oldest_non_preamble_item_preserving_tool_pair ms
                ≡ some (pre ++ after_item m rest))
            × IsClean (pre ++ after_item m rest))
  drop_oldest-IsClean ms hc = elim (split_item ms) [
    | inl h ↦ inl (h, drop_oldest-preamble ms h)
    | inr (pre, m, rest, e, hp, hm) ↦
        let (speech, clean) =
          IsClean-after m rest hm
            (subst (λ A. A) (CleanFrom-preamble pre (m ∷ rest) hp) (subst IsClean e hc)) in
        inr (
          pre,
          m,
          rest,
          e,
          hp,
          speech,
          ap drop_oldest_non_preamble_item_preserving_tool_pair e
              ∙ drop_oldest-speech pre m rest hp speech,
          subst (λ A. A) (sym (CleanFrom-preamble pre (after_item m rest) hp)) clean,
        )
  ]
