-- ===== src/Live/Preamble/Context.antt =====
-- A new preamble keeps the conversation, and the context that the model sees is the one that it would see
-- with the preamble passed beside the transcript.
use kiliax.Prelude.{
  ℕ, zero, suc, ◌+◌, ◌≡◌, refl, ap, ap₂, ◌∙◌, sym, Bool, true, false, ◌&&◌, List, [], ◌∷◌, ◌++◌,
  Option, none, some, map, length, drop, min, ltb, retain, all, arith, Bool-cases, inl, inr,
  length-append, and_true, ◌≤◌,
}
use kiliax.Protocol.{Message}
use kiliax.Session.State.{ContextCheckpoint}
use kiliax.Live.Preamble.{
  zip, is_system, preamble_end, replace_preamble, is_preamble_message, current_preamble, is_after,
  build_model_context_messages_with_preamble, build_model_context_messages, replacement_ids,
  replace_preamble_with_ids,
}

length-replacement_ids :
    (end : ℕ) (ids : List ℕ) (idx count last : ℕ)
    → length (replacement_ids end ids idx count last).0 ≡ count
unfolding replacement_ids
length-replacement_ids end ids idx zero last = refl
length-replacement_ids end ids idx (suc count) last =
    elim (Bool-cases (ltb idx end && ltb idx (length ids))) [
      | inl e ↦
          rw (e, replacement_ids) (ap suc (length-replacement_ids end ids (suc idx) count last))
      | inr e ↦
          rw (e, replacement_ids)
            (ap suc (length-replacement_ids end ids (suc idx) count (last + 1)))
    ]

zero-suc : (n : ℕ) → 0 ≡ suc n → ⊥
zero-suc n h = omega arith

zip-append {ℓ κ} :
    {A : Type ℓ} {B : Type κ} (xs : List A) (ys : List B) (us : List A) (vs : List B)
    → length xs ≡ length ys
    → zip (xs ++ us) (ys ++ vs) ≡ zip xs ys ++ zip us vs
zip-append [] [] us vs h = refl
zip-append [] (y ∷ ys) us vs h = elim (zero-suc (length ys) h) [ ]
zip-append (x ∷ xs) [] us vs h = elim (zero-suc (length xs) (sym h)) [ ]
zip-append (x ∷ xs) (y ∷ ys) us vs h = ap (λ l. (x, y) ∷ l) (zip-append xs ys us vs (omega arith))

length-drop {ℓ κ} :
    {A : Type ℓ} {B : Type κ} (n : ℕ) (xs : List A) (ys : List B)
    → length xs ≡ length ys
    → length (drop n xs) ≡ length (drop n ys)
length-drop zero xs ys h = h
length-drop (suc n) [] [] h = refl
length-drop (suc n) [] (y ∷ ys) h = omega arith
length-drop (suc n) (x ∷ xs) [] h = omega arith
length-drop (suc n) (x ∷ xs) (y ∷ ys) h = length-drop n xs ys (omega arith)

zip-dropped {ℓ κ} :
    {A : Type ℓ} {B : Type κ} (n : ℕ) (xs : List A) → ◌≡◌ {A = List (A × B)} (zip xs (drop n [])) []
zip-dropped zero [] = refl
zip-dropped zero (x ∷ xs) = refl
zip-dropped (suc n) [] = refl
zip-dropped (suc n) (x ∷ xs) = refl

drop_congr {ℓ} : {A : Type ℓ} (m n : ℕ) (xs : List A) → m ≡ n → drop m xs ≡ drop n xs
drop_congr m n xs h = ap (λ i. drop i xs) h

retain-append {ℓ} :
    {A : Type ℓ} (p : A → Bool) (xs ys : List A) → retain p (xs ++ ys) ≡ retain p xs ++ retain p ys
retain-append p [] ys = refl
retain-append p (x ∷ xs) ys = elim (Bool-cases (p x)) [
  | inl e ↦ rw e (ap (λ l. x ∷ l) (retain-append p xs ys))
  | inr e ↦ rw e (retain-append p xs ys)
]

module _ {J : Type 0} where
  -- The part of a conversation after its preamble, with the ids.
  abbrev pub rest_of : List (Message J) → List ℕ → List (Message J × ℕ)
  rest_of messages ids =
      zip (drop (preamble_end messages) messages) (drop (preamble_end messages) ids)

  preamble_end-le : (messages : List (Message J)) → preamble_end messages ≤ length messages
  unfolding preamble_end
  preamble_end-le [] = omega arith
  preamble_end-le (m ∷ ms) = elim (Bool-cases (is_system m)) [
    | inl e ↦ rw e (omega (arith, preamble_end-le ms))
    | inr e ↦ rw e (omega arith)
  ]

  system-is_after :
      (base : ℕ) (m : Message J) (id : ℕ) → is_system m ≡ true → is_after base (m, id) ≡ false
  system-is_after base (Message.developer s) id h = cc
  system-is_after base (Message.system s) id h = ground arith
  system-is_after base (Message.user c b) id h = cc
  system-is_after base (Message.assistant c r t u p) id h = cc
  system-is_after base (Message.tool i c) id h = cc

  system-is_preamble : (m : Message J) → is_system m ≡ true → is_preamble_message m ≡ true
  system-is_preamble (Message.developer s) h = refl
  system-is_preamble (Message.system s) h = refl
  system-is_preamble (Message.user c b) h = cc
  system-is_preamble (Message.assistant c r t u p) h = cc
  system-is_preamble (Message.tool i c) h = cc

  -- System messages are not among those after a checkpoint.
  retain-system :
      (base : ℕ) (new : List (Message J)) (ids : List ℕ)
      → all is_system new ≡ true
      → retain (is_after base) (zip new ids) ≡ []
  retain-system base [] ids h = refl
  retain-system base (m ∷ new) [] h = refl
  retain-system base (m ∷ new) (id ∷ ids) h =
      let (a, b) = and_true (is_system m) (all is_system new) h in
      rw (system-is_after base m id a) (retain-system base new ids b)

  retain-rest :
      (base : ℕ) (messages : List (Message J)) (ids : List ℕ)
      → retain (is_after base) (zip messages ids) ≡ retain (is_after base) (rest_of messages ids)
  unfolding preamble_end
  retain-rest base [] ids = refl
  retain-rest base (m ∷ ms) [] =
      ap (retain (is_after base))
        (sym (zip-dropped (preamble_end (m ∷ ms)) (drop (preamble_end (m ∷ ms)) (m ∷ ms))))
  retain-rest base (m ∷ ms) (id ∷ ids) = elim (Bool-cases (is_system m)) [
    | inl e ↦ rw (e, system-is_after base m id e, preamble_end) (retain-rest base ms ids)
    | inr e ↦ rw (e, preamble_end) refl
  ]

  current_preamble-append :
      (new rest : List (Message J))
      → all is_system new ≡ true
      → current_preamble rest ≡ []
      → current_preamble (new ++ rest) ≡ new
  unfolding current_preamble
  current_preamble-append [] rest h k = k
  current_preamble-append (m ∷ new) rest h k =
      let (a, b) = and_true (is_system m) (all is_system new) h in
      rw (system-is_preamble m a) (ap (λ l. m ∷ l) (current_preamble-append new rest b k))

  module _ (messages : List (Message J)) (ids : List ℕ) (last_seq : ℕ)
      (new : List (Message J)) where
    given : List ℕ
    given = (replacement_ids (preamble_end messages) ids 0 (length new) last_seq).0

    replaced-zip :
        length messages ≡ length ids
        → (zip
              (replace_preamble_with_ids messages ids last_seq new).messages
              (replace_preamble_with_ids messages ids last_seq new).message_ids
            ≡ zip new given ++ rest_of messages ids)
          × (length (replace_preamble_with_ids messages ids last_seq new).messages
              ≡ length (replace_preamble_with_ids messages ids last_seq new).message_ids)
    unfolding replace_preamble_with_ids given
    replaced-zip h =
        let end : ℕ = preamble_end messages in
        let l : length new ≡ length given =
          sym (length-replacement_ids end ids 0 (length new) last_seq) in
        let d : drop (min end (length ids)) ids ≡ drop end ids =
          drop_congr (min end (length ids)) end ids (omega (arith, preamble_end-le messages)) in
        rw d (
          zip-append new given (drop end messages) (drop end ids) l,
          length-append new (drop end messages)
              ∙ omega (arith, length-drop end messages ids h)
              ∙ sym (length-append given (drop end ids)),
        )

    -- The context for the model is the same whether a preamble of system messages replaces that of the
    -- transcript, with identifiers of its own, or is passed beside the transcript, with a checkpoint or
    -- without; where there is an identifier for each message, and no developer message stands right after the
    -- system messages of the transcript.
    pub replace_preamble_with_ids-context :
        (checkpoint : Option (ContextCheckpoint J))
        → length messages ≡ length ids
        → all is_system new ≡ true
        → current_preamble (drop (preamble_end messages) messages) ≡ []
        → build_model_context_messages
            (replace_preamble_with_ids messages ids last_seq new).messages
            (replace_preamble_with_ids messages ids last_seq new).message_ids
            checkpoint
          ≡ build_model_context_messages_with_preamble messages ids checkpoint (some new)
    unfolding replace_preamble_with_ids build_model_context_messages
        build_model_context_messages_with_preamble replace_preamble
    replace_preamble_with_ids-context none h s k = refl
    replace_preamble_with_ids-context (some c) h s k =
        let (z, l) = replaced-zip h in
        ap₂ (λ preamble rest. preamble ++ c.messages ++ map (λ p. p.0) rest)
          (current_preamble-append new (drop (preamble_end messages) messages) s k)
          (ap (retain (is_after c.base_message_id)) z
            ∙ retain-append (is_after c.base_message_id) (zip new given) (rest_of messages ids)
            ∙ ap (λ l. l ++ retain (is_after c.base_message_id) (rest_of messages ids))
                (retain-system c.base_message_id new given s)
            ∙ sym (retain-rest c.base_message_id messages ids))
