-- ===== src/Tools/Groups.antt =====
-- `tool_parallelism` of crates/kiliax-core/src/tools/mod.rs and tools/custom.rs, and
-- `group_tool_calls` of crates/kiliax-core/src/runtime/tool_calls.rs. The custom tools that are
-- found on disk are a parameter: by its name, whether a tool says that it is parallel.
use kiliax.Prelude.{
  ℕ, suc, ◌≤◌, ◌<◌, ◌≡◌, refl, ap, ◌∙◌, Bool, true, false, ◌&&◌, ◌||◌, not, List, [], ◌∷◌, ◌++◌,
  Option, none, some, if◌then◌else◌, leb, ◌==◌, arith, any, all, is_empty, length, Acc, Shorter,
  shorter_acc, All, Bool-cases, inl, inr,
}
use Prim.Native.Nat.{suc-le-suc}
use kiliax.Text.{Text, codes, text_eq, starts_with, strip_prefix}
use kiliax.Protocol.{ToolCall}

pub data ToolParallelism : Type 0 where
  parallel exclusive : ToolParallelism

unfoldable pub is_parallel : ToolParallelism → Bool
is_parallel ToolParallelism.parallel = true
is_parallel ToolParallelism.exclusive = false

abbrev pub custom_prefix : Text
custom_prefix = codes "custom__"

-- `u8::is_ascii_alphanumeric`; the bytes of other characters are not in its range.
unfoldable pub is_ascii_alphanumeric : ℕ → Bool
is_ascii_alphanumeric c =
    (leb b'0' c && leb c b'9') || (leb b'a' c && leb c b'z') || (leb b'A' c && leb c b'Z')

unfoldable pub is_valid_tool_name : Text → Bool
is_valid_tool_name name =
    not (is_empty name) && all (λ c. is_ascii_alphanumeric c || c == b'_' || c == b'-') name

-- `custom::parse_exposed_tool_name`
unfoldable pub parse_exposed_tool_name : Text → Option Text
parse_exposed_tool_name name = elim (strip_prefix custom_prefix name) [
  | none ↦ none
  | some n ↦ if is_valid_tool_name n then some n else none
]

-- The names in the first arm of `tool_parallelism`.
abbrev pub parallel_tools : List Text
parallel_tools =
    codes "read_file"
    ∷ codes "list_dir"
    ∷ codes "grep_files"
    ∷ codes "view_image"
    ∷ codes "web_search"
    ∷ codes "shell_command"
    ∷ codes "write_stdin"
    ∷ codes "spawn_agent"
    ∷ codes "send_message"
    ∷ codes "followup_task"
    ∷ codes "list_agents"
    ∷ []

pub data ToolCallGroup : Type 0 where
  exclusive : ToolCall → ToolCallGroup
  parallel : List ToolCall → ToolCallGroup

-- The calls of the groups.
abbrev pub flatten : List ToolCallGroup → List ToolCall
flatten [] = []
flatten (ToolCallGroup.exclusive c ∷ gs) = c ∷ flatten gs
flatten (ToolCallGroup.parallel cs ∷ gs) = cs ++ flatten gs

pub one_less : (n : ℕ) → n < suc n
one_less n = omega arith

module _ (discovered : Text → Option Bool) where
  -- `custom::tool_parallelism`
  unfoldable pub custom_parallelism : Text → ToolParallelism
  custom_parallelism exposed = elim (parse_exposed_tool_name exposed) [
    | none ↦ ToolParallelism.exclusive
    | some name ↦ elim (discovered name) [
      | none ↦ ToolParallelism.exclusive
      | some flag ↦ if flag then ToolParallelism.parallel else ToolParallelism.exclusive
    ]
  ]

  unfoldable pub tool_parallelism : Text → ToolParallelism
  tool_parallelism tool_name =
      if starts_with custom_prefix tool_name
      then custom_parallelism tool_name
      else if any (text_eq tool_name) parallel_tools
      then ToolParallelism.parallel
      else ToolParallelism.exclusive

  abbrev pub runs_parallel : ToolCall → Bool
  runs_parallel call = is_parallel (tool_parallelism call.name)

  -- The inner `while`: the calls up to the first that is not parallel, and the others.
  unfoldable pub span_parallel : List ToolCall → List ToolCall × List ToolCall
  span_parallel [] = ([], [])
  span_parallel (call ∷ calls) =
      let (run, rest) = span_parallel calls in
      if runs_parallel call then (call ∷ run, rest) else ([], call ∷ calls)

  pub span_parallel-le : (calls : List ToolCall) → length (span_parallel calls).1 ≤ length calls
  unfolding span_parallel
  span_parallel-le [] = omega arith
  span_parallel-le (call ∷ calls) = ground (arith, span_parallel-le calls)

  -- The body of the outer `while`; `again` is the rest of the loop.
  unfoldable pub next_group :
      (calls : List ToolCall)
      → ((rest : List ToolCall) → length rest < length calls → List ToolCallGroup)
      → List ToolCallGroup
  next_group [] again = []
  next_group (call ∷ calls) again =
      let together =
        ToolCallGroup.parallel (call ∷ (span_parallel calls).0)
        ∷ again (span_parallel calls).1 (suc-le-suc (span_parallel-le calls)) in
      let alone = ToolCallGroup.exclusive call ∷ again calls (one_less (length calls)) in
      if runs_parallel call then together else alone

  unfoldable pub group_from : (calls : List ToolCall) → Acc Shorter calls → List ToolCallGroup
  group_from calls (Acc.intro _ smaller) =
      next_group calls (λ rest h. group_from rest (smaller rest h))

  unfoldable pub group_tool_calls : List ToolCall → List ToolCallGroup
  group_tool_calls tool_calls = group_from tool_calls (shorter_acc tool_calls)

  -- No group of parallel calls starts here.
  abbrev pub StartsAlone : List ToolCallGroup → Type 0
  StartsAlone (ToolCallGroup.parallel cs ∷ gs) = ⊥
  StartsAlone gs = Unit

  -- A call that is not parallel stands alone, and a run of parallel calls is one group: it is not
  -- empty, and another kind of group follows.
  abbrev pub IsGrouping : List ToolCallGroup → Type 0
  IsGrouping [] = Unit
  IsGrouping (ToolCallGroup.exclusive c ∷ gs) = (runs_parallel c ≡ false) × IsGrouping gs
  IsGrouping (ToolCallGroup.parallel cs ∷ gs) =
      (is_empty cs ≡ false) × All (λ c. runs_parallel c ≡ true) cs × StartsAlone gs × IsGrouping gs

  -- The calls after a run of parallel calls do not start with a parallel one.
  abbrev pub StopsAt : List ToolCall → Type 0
  StopsAt [] = Unit
  StopsAt (c ∷ cs) = runs_parallel c ≡ false

  span_parallel-splits :
      (calls : List ToolCall)
      → (((span_parallel calls).0 ++ (span_parallel calls).1) ≡ calls)
        × All (λ c. runs_parallel c ≡ true) (span_parallel calls).0
        × StopsAt (span_parallel calls).1
  unfolding span_parallel
  span_parallel-splits [] = (refl, tt, tt)
  span_parallel-splits (call ∷ calls) = elim (Bool-cases (runs_parallel call)) [
    | inl e ↦ let (h, hp, hs) = span_parallel-splits calls in rw e (ap (◌∷◌ call) h, (e, hp), hs)
    | inr e ↦ rw e (refl, tt, e)
  ]

  group_from-alone :
      (calls : List ToolCall) (w : Acc Shorter calls)
      → StopsAt calls
      → StartsAlone (group_from calls w)
  unfolding group_from next_group
  group_from-alone [] (Acc.intro _ smaller) h = tt
  group_from-alone (c ∷ cs) (Acc.intro _ smaller) h = rw h tt

  group_from-IsGrouping :
      (calls : List ToolCall) (w : Acc Shorter calls)
      → IsGrouping (group_from calls w) × (flatten (group_from calls w) ≡ calls)
  unfolding group_from next_group
  group_from-IsGrouping [] (Acc.intro _ smaller) = (tt, refl)
  group_from-IsGrouping (c ∷ cs) (Acc.intro _ smaller) =
      let after = suc-le-suc (span_parallel-le cs) in
      let (h, hp, hs) = span_parallel-splits cs in
      let (hg, hf) =
        group_from-IsGrouping (span_parallel cs).1 (smaller (span_parallel cs).1 after) in
      let (kg, kf) = group_from-IsGrouping cs (smaller cs (one_less (length cs))) in
      elim (Bool-cases (runs_parallel c)) [
        | inl e ↦ rw e (
          (
            refl,
            (e, hp),
            group_from-alone (span_parallel cs).1 (smaller (span_parallel cs).1 after) hs,
            hg,
          ),
          ap (λ t. c ∷ ((span_parallel cs).0 ++ t)) hf ∙ ap (◌∷◌ c) h,
        )
        | inr e ↦ rw e ((e, kg), ap (◌∷◌ c) kf)
      ]

  -- The groups are the calls in order: calls that are not parallel stand alone, and each longest
  -- run of parallel calls is one group.
  pub group_tool_calls-IsGrouping :
      (calls : List ToolCall)
      → IsGrouping (group_tool_calls calls) × (flatten (group_tool_calls calls) ≡ calls)
  unfolding group_tool_calls
  group_tool_calls-IsGrouping calls = group_from-IsGrouping calls (shorter_acc calls)
