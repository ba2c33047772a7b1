-- ===== src/Tools/Tests.antt =====
-- The tools at concrete inputs.
use kiliax.Prelude.{
  any, Bool, true, false, ◌≡◌, refl, List, [], ◌∷◌, Option, none, some, is_empty, All, map,
  ℕ_discrete,
}
use mathlib.Core.List.{Mem}
use kiliax.Result.{ok}
use kiliax.Text.Split.{split}
use kiliax.Tools.Edit.{replace_content, replace_from, push_candidate, find, rfind}
use kiliax.Tools.Edit.Once.{ReplacedOnce, replace_content-once}
use kiliax.Tools.Paths.{
  FilePath, Component, FileSystem, path_of_text, all_components, later_components, join,
  is_parent_dir, path_starts_with, canonical_roots, checked_path, resolve_path_under_roots,
}
use kiliax.Tools.Paths.Confined.{IsLookedAt, resolve_path_under_roots-confined}
use kiliax.Text.{starts_with, Text, codes, Text-discrete}
use kiliax.Protocol.{ToolCall}
use kiliax.Session.State.{SessionMcpServerSetting}
use kiliax.Tools.Groups.{group_tool_calls, IsGrouping, flatten, group_tool_calls-IsGrouping}
use kiliax.Tools.Shell.{
  ShellPermissions, allows_all, is_prefix, zip_equal, IsListed, allows_all-IsListed,
}
use kiliax.Tools.Overrides.{
  McpServerConfig, apply_mcp_enable_overrides, apply_mcp_enable_overrides-last, overridden,
  first_unknown, last_override, with_enable,
}

abbrev reads : ToolCall
reads = record { id = codes "a"; name = codes "read_file"; arguments = codes "{}" }

abbrev patches : ToolCall
patches = record { id = codes "b"; name = codes "apply_patch"; arguments = codes "{}" }

abbrev calls : List ToolCall
calls = reads ∷ patches ∷ reads ∷ []

-- No custom tools.
abbrev discovered : Text → Option Bool
discovered n = none

group_tool_calls-IsGrouping_example :
    IsGrouping discovered (group_tool_calls discovered calls)
    × (flatten (group_tool_calls discovered calls) ≡ calls)
group_tool_calls-IsGrouping_example = group_tool_calls-IsGrouping discovered calls

abbrev prefixes : List (List Text)
prefixes = (codes "git" ∷ codes "status" ∷ []) ∷ []

abbrev command : List (List Text)
command = (codes "git" ∷ codes "status" ∷ codes "-s" ∷ []) ∷ []

allowed : allows_all (ShellPermissions.allow_list prefixes) command ≡ true
unfolding allows_all is_prefix zip_equal Text-discrete ℕ_discrete
allowed = refl

allows_all-IsListed_example : (is_empty command ≡ false) × All (IsListed prefixes) command
allows_all-IsListed_example = allows_all-IsListed prefixes command allowed

abbrev servers : List McpServerConfig
servers = record { name = codes "one"; enable = true; command = codes "echo"; args = [] } ∷ []

abbrev turned_off : List SessionMcpServerSetting
turned_off = record { id = codes "one"; enable = false } ∷ []

apply_mcp_enable_overrides-last_example :
    apply_mcp_enable_overrides servers turned_off
    ≡ overridden
        (first_unknown (map (λ s. s.name) servers) turned_off)
        (map (λ s. with_enable s (last_override s.name turned_off s.enable)) servers)
apply_mcp_enable_overrides-last_example = apply_mcp_enable_overrides-last servers turned_off

-- A workspace that exists with what is in it.
abbrev workspace_root : FilePath
workspace_root = record { is_absolute = true; components = Component.normal (codes "w") ∷ [] }

abbrev files : FileSystem
files = record { exists = λ p. path_starts_with p workspace_root; canonicalize = λ p. some p }

abbrev source_file : FilePath
source_file = record {
  is_absolute = true;
  components = Component.normal (codes "w") ∷ Component.normal (codes "a") ∷ [];
}

let_through :
    resolve_path_under_roots files workspace_root (codes "./a") (workspace_root ∷ [])
    ≡ ok source_file
unfolding resolve_path_under_roots canonical_roots checked_path path_of_text all_components
    later_components join split starts_with path_starts_with Text-discrete ℕ_discrete
let_through = refl

resolve_path_under_roots-confined_example :
    (any is_parent_dir source_file.components ≡ false)
    × (looked : FilePath) × (real : FilePath) × (root : FilePath) × (real_root : FilePath)
    × IsLookedAt files workspace_root source_file looked
    × (files.canonicalize looked ≡ some real)
    × Mem root (workspace_root ∷ [])
    × (files.canonicalize root ≡ some real_root)
    × (path_starts_with real real_root ≡ true)
resolve_path_under_roots-confined_example =
    resolve_path_under_roots-confined files workspace_root (codes "./a") (workspace_root ∷ [])
      source_file let_through

-- No other candidates.
abbrev no_candidates : Text → Text → List Text
no_candidates content old = []

edited :
    replace_content no_candidates (codes "abc") (codes "b") (codes "xy") false ≡ ok (codes "axyc")
unfolding replace_content replace_from push_candidate find rfind starts_with Text-discrete
    ℕ_discrete
edited = refl

replace_content-once_example :
    ReplacedOnce (codes "b" ∷ []) (codes "abc") (codes "xy") (codes "axyc")
replace_content-once_example =
    replace_content-once no_candidates (codes "abc") (codes "b") (codes "xy") (codes "axyc") edited
