-- ===== src/Compact/Select.antt =====
-- What a compaction keeps: `collect_real_user_texts`, `user_content_to_text_for_compaction`,
-- `build_compacted_user_history` and `find_preamble_cutoff_id` of crates/kiliax-core/src/compact.rs.
use kiliax.Prelude.{
  ℕ, suc, ◌+◌, ◌-◌, ◌≤◌, ◌<◌, ◌≡◌, refl, ap, subst, ◌∙◌, sym, ◌⊎◌, inl, inr, false, List, [], ◌∷◌,
  ◌++◌, Option, none, some, map, length, is_empty, leb, leb→le, if◌then◌else◌, arith, retain, not,
  Bool-cases, ◌==◌, ◌||◌,
}
use mathlib.Core.List.{reverse}
use kiliax.Text.{Text, codes, trim}
use kiliax.Protocol.{Message, UserMessageContent, UserContentPart}
use kiliax.Compact.Summary.{is_summary_message, summary_text}
use kiliax.Compact.Tokens.{approx_token_count}
use kiliax.Compact.Truncate.{truncate_middle_with_token_budget}

-- The loop over the parts.
unfoldable pub join_texts : Text → List UserContentPart → Text
join_texts out [] = out
join_texts out (UserContentPart.text t ∷ ps) =
    join_texts
      (if is_empty (trim t)
        then out
        else if is_empty out
        then out ++ t
        else (out ++ b'\n' ∷ []) ++ t)
      ps
join_texts out (p ∷ ps) = join_texts out ps

unfoldable pub user_content_to_text_for_compaction : UserMessageContent → Text
user_content_to_text_for_compaction (UserMessageContent.text t) = t
user_content_to_text_for_compaction (UserMessageContent.parts ps) =
    let out = join_texts [] ps in if is_empty out then codes "[image]" else out

abbrev pub compact_user_message_max_tokens : ℕ
compact_user_message_max_tokens = 20000

-- The loop over `user_messages.iter().rev()`, given reversed: what is pushed, in order.
unfoldable pub select_messages : ℕ → List Text → List Text
select_messages remaining [] = []
select_messages remaining (message ∷ older) =
    let tokens = approx_token_count message in
    let rest = select_messages (remaining - tokens) older in
    if remaining == 0
    then []
    else if leb tokens remaining
    then message ∷ rest
    else truncate_middle_with_token_budget message remaining ∷ []

-- What the loop of `collect_real_user_texts` pushes for a message that is not hidden.
unfoldable pub real_text : UserMessageContent → List Text
real_text content =
    let text = user_content_to_text_for_compaction content in
    if is_summary_message text || is_empty (trim text) then [] else trim text ∷ []

-- The tokens of a list of texts.
abbrev pub total : List Text → ℕ
total [] = 0
total (t ∷ ts) = approx_token_count t + total ts

-- What is left of the first text that does not fit into `left` tokens.
unfoldable pub first_cut : ℕ → List Text → List Text
first_cut left [] = []
first_cut left (t ∷ ts) = if left == 0 then [] else truncate_middle_with_token_budget t left ∷ []

-- The first text does not fit.
abbrev pub IsFull : ℕ → List Text → Type 0
IsFull left [] = Unit
IsFull left (t ∷ ts) = (left ≡ 0) ⊎ (left < approx_token_count t)

minus_zero : (n : ℕ) → n - 0 ≡ n
minus_zero n = omega arith

minus_minus : (a b c : ℕ) → a - b - c ≡ a - (b + c)
minus_minus a b c = omega arith

select_messages-prefix :
    (remaining : ℕ) (newest : List Text)
    → (kept : List Text) × (older : List Text) × (newest ≡ kept ++ older)
      × (total kept ≤ remaining)
      × IsFull (remaining - total kept) older
      × (select_messages remaining newest ≡ kept ++ first_cut (remaining - total kept) older)
unfolding select_messages first_cut
select_messages-prefix remaining [] = ([], [], refl, omega arith, tt, refl)
select_messages-prefix remaining (t ∷ ts) = elim (Bool-cases (remaining == 0)) [
  | inl z ↦ ([], t ∷ ts, refl, omega arith, inl (ground arith), rw (minus_zero remaining, z))
  | inr z ↦ elim (Bool-cases (leb (approx_token_count t) remaining)) [
    | inl h ↦
        let (kept, older, e, ht, hf, eq) =
          select_messages-prefix (remaining - approx_token_count t) ts in
        (
          t ∷ kept,
          older,
          ap (◌∷◌ t) e,
          omega (arith, leb→le (approx_token_count t) remaining h),
          subst (λ k. IsFull k older) (minus_minus remaining (approx_token_count t) (total kept))
              hf,
          rw (z, h)
              (ap (◌∷◌ t) (
                eq
                ∙ ap (λ k. kept ++ first_cut k older)
                    (minus_minus remaining (approx_token_count t) (total kept)))),
        )
    | inr h ↦ ([], t ∷ ts, refl, omega arith, inr (ground arith), rw (minus_zero remaining, z, h))
  ]
]

abbrev pub last_of : Option ℕ → List ℕ → Option ℕ
last_of last [] = last
last_of last (id ∷ ids) = last_of (some id) ids

no_zero : (n : ℕ) → 0 ≡ suc n → ⊥
no_zero n h = omega arith

module _ {J : Type 0} where
  unfoldable pub collect_real_user_texts : List (Message J) → List Text
  collect_real_user_texts [] = []
  collect_real_user_texts (Message.user content false ∷ ms) =
      real_text content ++ collect_real_user_texts ms
  collect_real_user_texts (m ∷ ms) = collect_real_user_texts ms

  abbrev pub visible_user : Text → Message J
  visible_user t = Message.user (UserMessageContent.text t) false

  unfoldable pub build_compacted_user_history : List Text → Text → List (Message J)
  build_compacted_user_history user_messages summary_suffix =
      map visible_user (
        retain (λ m. not (is_empty (trim m)))
          (reverse (select_messages compact_user_message_max_tokens (reverse user_messages))))
      ++ visible_user (summary_text summary_suffix) ∷ []

  -- The loop of `find_preamble_cutoff_id`, with `last`.
  cutoff_from : Option ℕ → List (Message J) → List ℕ → Option ℕ
  cutoff_from last (Message.system c ∷ ms) (id ∷ ids) = cutoff_from (some id) ms ids
  cutoff_from last (Message.developer c ∷ ms) (id ∷ ids) = cutoff_from (some id) ms ids
  cutoff_from last ms ids = last

  unfoldable pub find_preamble_cutoff_id : List (Message J) → List ℕ → Option ℕ
  unfolding cutoff_from
  find_preamble_cutoff_id messages message_ids = cutoff_from none messages message_ids

  -- A compaction keeps the newest user messages whose tokens fit into the limit of 20000, the first
  -- one that does not fit truncated to what is left of the limit, all in the order of the
  -- conversation and without blank texts, and puts the summary last.
  pub build_compacted-prefix :
      (us : List Text) (suffix : Text)
      → (kept : List Text) × (older : List Text) × (reverse us ≡ kept ++ older)
        × (total kept ≤ compact_user_message_max_tokens)
        × IsFull (compact_user_message_max_tokens - total kept) older
        × (build_compacted_user_history us suffix
            ≡ map visible_user (
                retain
                  (λ m. not (is_empty (trim m)))
                  (reverse
                    (kept ++ first_cut (compact_user_message_max_tokens - total kept) older)))
              ++ visible_user (summary_text suffix) ∷ [])
  unfolding build_compacted_user_history
  build_compacted-prefix us suffix =
      let (kept, older, e, ht, hf, eq) =
        select_messages-prefix compact_user_message_max_tokens (reverse us) in
      (
        kept,
        older,
        e,
        ht,
        hf,
        ap
            (λ texts.
              map visible_user (retain (λ m. not (is_empty (trim m))) (reverse texts))
              ++ visible_user (summary_text suffix) ∷ [])
            eq,
      )

  abbrev pub AllPreamble : List (Message J) → Type 0
  AllPreamble [] = Unit
  AllPreamble (Message.system c ∷ ms) = AllPreamble ms
  AllPreamble (Message.developer c ∷ ms) = AllPreamble ms
  AllPreamble (m ∷ ms) = ⊥

  -- The first message, where there is one, is neither a system nor a developer message.
  abbrev pub StartsPlain : List (Message J) → Type 0
  StartsPlain (Message.system c ∷ ms) = ⊥
  StartsPlain (Message.developer c ∷ ms) = ⊥
  StartsPlain ms = Unit

  cutoff_from-last :
      (last : Option ℕ) (pre rest : List (Message J)) (ids more : List ℕ)
      → AllPreamble pre
      → StartsPlain rest
      → length pre ≡ length ids
      → cutoff_from last (pre ++ rest) (ids ++ more) ≡ last_of last ids
  unfolding cutoff_from
  cutoff_from-last last [] [] [] more hp hr hl = refl
  cutoff_from-last last [] (Message.user c h ∷ rest) [] more hp hr hl = refl
  cutoff_from-last last [] (Message.assistant c r t u p ∷ rest) [] more hp hr hl = refl
  cutoff_from-last last [] (Message.tool id c ∷ rest) [] more hp hr hl = refl
  cutoff_from-last last [] (Message.system c ∷ rest) [] more hp hr hl = elim hr [ ]
  cutoff_from-last last [] (Message.developer c ∷ rest) [] more hp hr hl = elim hr [ ]
  cutoff_from-last last [] rest (id ∷ ids) more hp hr hl = elim (no_zero (length ids) hl) [ ]
  cutoff_from-last last (Message.system c ∷ pre) rest (id ∷ ids) more hp hr hl =
      cutoff_from-last (some id) pre rest ids more hp hr (omega arith)
  cutoff_from-last last (Message.developer c ∷ pre) rest (id ∷ ids) more hp hr hl =
      cutoff_from-last (some id) pre rest ids more hp hr (omega arith)
  cutoff_from-last last (Message.system c ∷ pre) rest [] more hp hr hl =
      elim (no_zero (length pre) (sym hl)) [ ]
  cutoff_from-last last (Message.developer c ∷ pre) rest [] more hp hr hl =
      elim (no_zero (length pre) (sym hl)) [ ]
  cutoff_from-last last (m ∷ pre) rest ids more hp hr hl = elim hp [ ]

  -- The cutoff is the last id of the leading system and developer messages `pre`, or none where
  -- there are none; `rest` does not start with such a message.
  pub find_preamble_cutoff_id-last :
      (pre rest : List (Message J)) (ids more : List ℕ)
      → AllPreamble pre
      → StartsPlain rest
      → length pre ≡ length ids
      → find_preamble_cutoff_id (pre ++ rest) (ids ++ more) ≡ last_of none ids
  unfolding find_preamble_cutoff_id
  find_preamble_cutoff_id-last = cutoff_from-last none
