-- ===== src/Tools/Policy.antt =====
-- crates/kiliax-core/src/tools/policy.rs: which of the tools that edit files a model is given.
use kiliax.Prelude.{
  or_right, ◌+◌, ◌≡◌, refl, ap, subst, ℕ_discrete, sym, Bool, true, false, ◌&&◌, ◌||◌, not, [], ◌∷◌,
  map, Option, none, some, is_some, if◌then◌else◌, leb, ◌==◌, any, Bool-cases, inl, inr,
}
use kiliax.Text.Equal.{text_eq-≡}
use kiliax.Text.{Text, codes, text_eq, Text-discrete, starts_with, trim}

pub data FileEditTools : Type 0 where
  apply_patch write_edit : FileEditTools

-- What follows the last `/`: `rsplit('/').next()`.
unfoldable pub last_segment : Text → Text
last_segment [] = []
last_segment (c ∷ s) =
    let rest = last_segment s in
    if any (λ d. d == b'/') s then rest else if c == b'/' then s else c ∷ s

-- `str::to_ascii_lowercase`
unfoldable pub to_ascii_lowercase : Text → Text
to_ascii_lowercase = map (λ c. if leb b'A' c && leb c b'Z' then c + 32 else c)

unfoldable pub is_gpt5_family : Text → Bool
is_gpt5_family model_id =
    starts_with (codes "gpt-5") (to_ascii_lowercase (trim (last_segment model_id)))

-- `ToolPolicy::for_model_id`; the policy has one field.
unfoldable pub for_model_id : Text → FileEditTools
for_model_id model_id =
    if is_gpt5_family model_id then FileEditTools.apply_patch else FileEditTools.write_edit

abbrev pub is_write_or_edit : Text → Bool
is_write_or_edit tool_name =
    text_eq tool_name (codes "write_file") || text_eq tool_name (codes "edit_file")

-- The `match self.file_edit_tools` of `allows_tool_name`.
unfoldable pub allowed_by : FileEditTools → Text → Bool
allowed_by FileEditTools.apply_patch tool_name = not (is_write_or_edit tool_name)
allowed_by FileEditTools.write_edit tool_name = not (text_eq tool_name (codes "apply_patch"))

unfoldable pub allows_tool_name : FileEditTools → Text → Bool
allows_tool_name policy tool_name =
    if starts_with (codes "mcp__") tool_name
    then true
    else if starts_with (codes "custom__") tool_name
    then true
    else allowed_by policy tool_name

unfoldable pub denial_message : FileEditTools → Text → Option Text
denial_message FileEditTools.apply_patch tool_name =
    if is_write_or_edit tool_name
    then some (codes "tool is disabled for this model; use apply_patch to edit files")
    else none
denial_message FileEditTools.write_edit tool_name =
    if text_eq tool_name (codes "apply_patch")
    then some (codes "tool is disabled for this model; use write_file/edit_file to edit files")
    else none

pub data BuiltinToolId : Type 0 where
  read_file list_dir grep_files view_image web_search shell_command write_stdin write_file :
      BuiltinToolId
  edit_file apply_patch update_plan : BuiltinToolId

-- `BuiltinToolId::name`
unfoldable pub name : BuiltinToolId → Text
name BuiltinToolId.read_file = codes "read_file"
name BuiltinToolId.list_dir = codes "list_dir"
name BuiltinToolId.grep_files = codes "grep_files"
name BuiltinToolId.view_image = codes "view_image"
name BuiltinToolId.web_search = codes "web_search"
name BuiltinToolId.shell_command = codes "shell_command"
name BuiltinToolId.write_stdin = codes "write_stdin"
name BuiltinToolId.write_file = codes "write_file"
name BuiltinToolId.edit_file = codes "edit_file"
name BuiltinToolId.apply_patch = codes "apply_patch"
name BuiltinToolId.update_plan = codes "update_plan"

unfoldable pub allows_builtin : FileEditTools → BuiltinToolId → Bool
allows_builtin FileEditTools.apply_patch BuiltinToolId.write_file = false
allows_builtin FileEditTools.apply_patch BuiltinToolId.edit_file = false
allows_builtin FileEditTools.apply_patch tool = true
allows_builtin FileEditTools.write_edit BuiltinToolId.apply_patch = false
allows_builtin FileEditTools.write_edit tool = true

-- The name is not one of an MCP tool or of a custom tool.
IsInternal : Text → Type 0
IsInternal n = (starts_with (codes "mcp__") n ≡ false) × (starts_with (codes "custom__") n ≡ false)

write_or_edit-IsInternal : (n : Text) → is_write_or_edit n ≡ true → IsInternal n
unfolding IsInternal starts_with
write_or_edit-IsInternal n h = elim (Bool-cases (text_eq n (codes "write_file"))) [
  | inl e ↦ subst IsInternal (sym (text_eq-≡ n (codes "write_file") e)) (refl, refl)
  | inr e ↦
      subst IsInternal
        (sym (text_eq-≡ n (codes "edit_file") (or_right (text_eq n (codes "write_file")) _ e h)))
        (refl, refl)
]

apply_patch-IsInternal : (n : Text) → text_eq n (codes "apply_patch") ≡ true → IsInternal n
unfolding IsInternal starts_with
apply_patch-IsInternal n h =
    subst IsInternal (sym (text_eq-≡ n (codes "apply_patch") h)) (refl, refl)

always : (a b : Bool) → (if a then true else if b then true else true) ≡ true
always true b = refl
always false true = refl
always false false = refl

-- A call is refused with a message exactly where its tool is not allowed.
pub denial_message-allows :
    (policy : FileEditTools) (tool_name : Text)
    → is_some (denial_message policy tool_name) ≡ not (allows_tool_name policy tool_name)
unfolding allows_tool_name denial_message allowed_by IsInternal
denial_message-allows FileEditTools.apply_patch n = elim (Bool-cases (is_write_or_edit n)) [
  | inl e ↦
      let (a, b) = write_or_edit-IsInternal n e in
      rw (denial_message, allows_tool_name, allowed_by, a, b, e) refl
  | inr e ↦
      rw (denial_message, allows_tool_name, allowed_by, e)
        (ap not (sym (always (starts_with (codes "mcp__") n) (starts_with (codes "custom__") n))))
]
denial_message-allows FileEditTools.write_edit n =
    elim (Bool-cases (text_eq n (codes "apply_patch"))) [
      | inl e ↦
          let (a, b) = apply_patch-IsInternal n e in
          rw (denial_message, allows_tool_name, allowed_by, a, b, e) refl
      | inr e ↦
          rw (denial_message, allows_tool_name, allowed_by, e)
            (ap not
              (sym (always (starts_with (codes "mcp__") n) (starts_with (codes "custom__") n))))
    ]

-- A tool is offered by its id exactly where a call of it by its name is allowed.
pub allows_builtin-name :
    (policy : FileEditTools) (tool : BuiltinToolId)
    → allows_tool_name policy (name tool) ≡ allows_builtin policy tool
unfolding allows_tool_name allows_builtin name starts_with Text-discrete allowed_by ℕ_discrete
allows_builtin-name FileEditTools.apply_patch BuiltinToolId.read_file = refl
allows_builtin-name FileEditTools.apply_patch BuiltinToolId.list_dir = refl
allows_builtin-name FileEditTools.apply_patch BuiltinToolId.grep_files = refl
allows_builtin-name FileEditTools.apply_patch BuiltinToolId.view_image = refl
allows_builtin-name FileEditTools.apply_patch BuiltinToolId.web_search = refl
allows_builtin-name FileEditTools.apply_patch BuiltinToolId.shell_command = refl
allows_builtin-name FileEditTools.apply_patch BuiltinToolId.write_stdin = refl
allows_builtin-name FileEditTools.apply_patch BuiltinToolId.write_file = refl
allows_builtin-name FileEditTools.apply_patch BuiltinToolId.edit_file = refl
allows_builtin-name FileEditTools.apply_patch BuiltinToolId.apply_patch = refl
allows_builtin-name FileEditTools.apply_patch BuiltinToolId.update_plan = refl
allows_builtin-name FileEditTools.write_edit BuiltinToolId.read_file = refl
allows_builtin-name FileEditTools.write_edit BuiltinToolId.list_dir = refl
allows_builtin-name FileEditTools.write_edit BuiltinToolId.grep_files = refl
allows_builtin-name FileEditTools.write_edit BuiltinToolId.view_image = refl
allows_builtin-name FileEditTools.write_edit BuiltinToolId.web_search = refl
allows_builtin-name FileEditTools.write_edit BuiltinToolId.shell_command = refl
allows_builtin-name FileEditTools.write_edit BuiltinToolId.write_stdin = refl
allows_builtin-name FileEditTools.write_edit BuiltinToolId.write_file = refl
allows_builtin-name FileEditTools.write_edit BuiltinToolId.edit_file = refl
allows_builtin-name FileEditTools.write_edit BuiltinToolId.apply_patch = refl
allows_builtin-name FileEditTools.write_edit BuiltinToolId.update_plan = refl
