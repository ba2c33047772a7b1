-- ===== src/Tools/CallIds.antt =====
-- `normalize_tool_call_ids` of crates/kiliax-core/src/runtime/tool_calls.rs.
use kiliax.Prelude.{
  ℕ, suc, ◌+◌, ◌≡◌, refl, ap, false, ◌||◌, List, [], ◌∷◌, ◌++◌, if◌then◌else◌, any, is_empty,
  decimal,
}
use kiliax.Text.{Text, codes, text_eq, trim}
use kiliax.Protocol.{ToolCall}

unfoldable pub generated_id : ℕ → ℕ → Text
generated_id step idx = codes "call_step" ++ decimal (step + 1) ++ codes "_" ++ decimal idx

-- The id that the loop gives to the call at `idx`.
unfoldable pub normal_id : ℕ → ℕ → List Text → Text → Text
normal_id step idx used id =
    if is_empty (trim id) || any (λ u. text_eq u (trim id)) used
    then generated_id step idx
    else trim id

-- The loop, with the index and the ids used.
normalize_from : ℕ → ℕ → List Text → List ToolCall → List ToolCall
normalize_from step idx used [] = []
normalize_from step idx used (call ∷ calls) =
    let id = normal_id step idx used call.id in
    record call { id = id } ∷ normalize_from step (suc idx) (id ∷ used) calls

unfoldable pub normalize_tool_call_ids : ℕ → List ToolCall → List ToolCall
unfolding normalize_from
normalize_tool_call_ids step tool_calls = normalize_from step 0 [] tool_calls

-- Ids that are trimmed, not empty, not in `used` and not repeated.
abbrev pub AreNormal : List Text → List ToolCall → Type 0
AreNormal used [] = Unit
AreNormal used (call ∷ calls) =
    (trim call.id ≡ call.id)
    × (is_empty call.id ≡ false)
    × (any (λ u. text_eq u call.id) used ≡ false)
    × AreNormal (call.id ∷ used) calls

normal_id-kept :
    (step idx : ℕ) (used : List Text) (id : Text)
    → trim id ≡ id
    → is_empty id ≡ false
    → any (λ u. text_eq u id) used ≡ false
    → normal_id step idx used id ≡ id
unfolding normal_id
normal_id-kept step idx used id ht he hu = rw (ht, he, hu) refl

normalize_from-normal :
    (step idx : ℕ) (used : List Text) (calls : List ToolCall)
    → AreNormal used calls
    → normalize_from step idx used calls ≡ calls
unfolding normalize_from
normalize_from-normal step idx used [] h = refl
normalize_from-normal step idx used (call ∷ calls) h =
    rw (normal_id-kept step idx used call.id h.0 h.1 h.2)
      (ap (◌∷◌ call) (normalize_from-normal step (suc idx) (call.id ∷ used) calls h.3))

-- Ids that are trimmed, not empty and not repeated are kept.
pub normalize_tool_call_ids-normal :
    (step : ℕ) (calls : List ToolCall)
    → AreNormal [] calls
    → normalize_tool_call_ids step calls ≡ calls
unfolding normalize_tool_call_ids
normalize_tool_call_ids-normal step calls = normalize_from-normal step 0 [] calls
