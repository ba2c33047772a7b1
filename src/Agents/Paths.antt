-- ===== src/Agents/Paths.antt =====
-- The paths of agents: the free functions of crates/kiliax-server/src/state/multi_agent.rs.
use kiliax.Prelude.{
  ℕ, zero, suc, Bool, false, ◌&&◌, ◌||◌, not, List, [], ◌∷◌, ◌++◌, none, some, if◌then◌else◌,
  is_empty, length, all, leb, ◌==◌,
}
use kiliax.Text.{Text, codes, text_eq, trim, strip_prefix, starts_with}
use kiliax.Text.Split.{split, trim_end}
use kiliax.Result.{Result, ok, err, ◌>>=◌}

-- The errors, by what their texts say.
pub data AgentError : Type 0 where
  invalid_task_name no_root_prefix trailing_slash empty_path : AgentError
  depth_exceeded : ℕ → ℕ → AgentError
  limit_reached : ℕ → AgentError
  empty_target empty_message root_not_spawned : AgentError
  already_exists not_found still_created : Text → AgentError

abbrev pub Checked : Type 0 → Type 0
Checked A = Result AgentError A

abbrev pub root_path : Text
root_path = codes "/root"

-- Of bytes in the code; no byte of a scalar value above the ASCII ones is one of these.
abbrev pub is_task_char : ℕ → Bool
is_task_char b = (leb b'a' b && leb b b'z') || (leb b'0' b && leb b b'9') || b == b'_'

unfoldable pub validate_task_name : Text → Checked Unit
validate_task_name task_name =
    let name = trim task_name in
    if is_empty name || not (all is_task_char name) then err AgentError.invalid_task_name else ok tt

-- The loop over the segments.
unfoldable pub validate_segments : List Text → Checked Unit
validate_segments [] = ok tt
validate_segments (s ∷ segments) = validate_task_name s >>= λ _. validate_segments segments

unfoldable pub validate_agent_path : Text → Checked Unit
validate_agent_path path =
    if text_eq path root_path then ok tt else elim (strip_prefix (codes "/root/") path) [
      | none ↦ err AgentError.no_root_prefix
      | some rest ↦
          if is_empty rest
          then err AgentError.trailing_slash
          else validate_segments (split b'/' rest)
    ]

unfoldable pub join_agent_path : Text → Text → Checked Text
join_agent_path parent task_name = do
  _ ← validate_agent_path parent
  _ ← validate_task_name task_name
  ok (
      if text_eq parent root_path
      then root_path ++ (b'/' ∷ task_name)
      else parent ++ (b'/' ∷ task_name))

unfoldable pub resolve_agent_path : Text → Text → Checked Text
resolve_agent_path current target = do
  _ ← validate_agent_path current
  let target = trim_end b'/' (trim target)
  if is_empty target then err AgentError.empty_path else do
    let path =
        if starts_with (codes "/") target
        then target
        else if text_eq current root_path
        then root_path ++ (b'/' ∷ target)
        else current ++ (b'/' ∷ target)
    _ ← validate_agent_path path
    ok path

-- `trim_start_matches` of a text that is not empty: it is taken away at most as many times as the text
-- has characters.
unfoldable pub trim_start_matches : ℕ → Text → Text → Text
trim_start_matches zero pattern s = s
trim_start_matches (suc fuel) pattern s = elim (strip_prefix pattern s) [
  | none ↦ s
  | some rest ↦ trim_start_matches fuel pattern rest
]

abbrev pub count_filled : List Text → ℕ
count_filled [] = 0
count_filled (s ∷ segments) =
    if is_empty s then count_filled segments else suc (count_filled segments)

unfoldable pub agent_depth : Text → ℕ
agent_depth path =
    if text_eq path root_path
    then 0
    else count_filled (split b'/' (trim_start_matches (length path) (codes "/root/") path))

unfoldable pub path_matches_prefix : Text → Text → Bool
path_matches_prefix path prefix =
    text_eq prefix root_path
    || text_eq path prefix
    || elim (strip_prefix prefix path) [ none ↦ false | some s ↦ starts_with (codes "/") s ]

unfoldable pub scoped_path_key : Text → Text → Text
scoped_path_key root_session_id path = root_session_id ++ (0 ∷ path)
