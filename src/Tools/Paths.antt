-- ===== src/Tools/Paths.antt =====
-- The rules for paths of crates/kiliax-core/src/tools/builtin/common.rs, on Unix paths. What the file
-- system says of a path (`symlink_metadata`, `canonicalize`) is a parameter.
pub mod Nearest
pub mod Confined
use kiliax.Prelude.{
  ℕ, zero, suc, ◌-◌, Bool, true, false, ◌&&◌, not, List, [], ◌∷◌, ◌++◌, Option, none, some,
  if◌then◌else◌, any, map, length, take, is_empty,
}
use kiliax.Text.{Text, codes, text_eq, starts_with}
use kiliax.Text.Split.{split}
use kiliax.Result.{Result, ok, err, ok_or, ◌>>=◌}

-- `std::path::Component`, but for the root.
pub data Component : Type 0 where
  cur_dir parent_dir : Component
  normal : Text → Component

-- `std::path::Path`, by its components.
pub record FilePath : Type 0 where
  pub is_absolute : Bool
  pub components : List Component

abbrev pub component_of : Text → Component
component_of s =
    if text_eq s (codes ".")
    then Component.cur_dir
    else if text_eq s (codes "..")
    then Component.parent_dir
    else Component.normal s

-- The pieces after the first: empty ones and `.` are left out.
unfoldable pub later_components : List Text → List Component
later_components [] = []
later_components (s ∷ pieces) =
    let rest = later_components pieces in
    if is_empty s then rest else if text_eq s (codes ".") then rest else component_of s ∷ rest

unfoldable pub all_components : List Text → List Component
all_components [] = []
all_components (s ∷ pieces) =
    if is_empty s then later_components pieces else component_of s ∷ later_components pieces

-- `Path::new`
unfoldable pub path_of_text : Text → FilePath
path_of_text s = record {
  is_absolute = starts_with (codes "/") s;
  components = all_components (split b'/' s);
}

-- A `.` at the start of a path that another is put before is left out.
abbrev pub drop_cur_dir : List Component → List Component
drop_cur_dir (Component.cur_dir ∷ cs) = cs
drop_cur_dir cs = cs

-- `join` of a relative path.
unfoldable pub join : FilePath → FilePath → FilePath
join base input = record base {
  components =
      if is_empty base.components && not base.is_absolute
      then input.components
      else base.components ++ drop_cur_dir input.components;
}

abbrev pub is_parent_dir : Component → Bool
is_parent_dir Component.parent_dir = true
is_parent_dir _ = false

abbrev pub component_eq : Component → Component → Bool
component_eq Component.cur_dir Component.cur_dir = true
component_eq Component.parent_dir Component.parent_dir = true
component_eq (Component.normal s) (Component.normal t) = text_eq s t
component_eq _ _ = false

abbrev pub components_start : List Component → List Component → Bool
components_start [] cs = true
components_start (r ∷ root) [] = false
components_start (r ∷ root) (c ∷ cs) = component_eq r c && components_start root cs

abbrev pub same_kind : Bool → Bool → Bool
same_kind true b = b
same_kind false b = not b

-- `path.starts_with(root)`
unfoldable pub path_starts_with : FilePath → FilePath → Bool
path_starts_with path root =
    same_kind path.is_absolute root.is_absolute && components_start root.components path.components

-- The path of the first components.
abbrev pub ancestor : ℕ → FilePath → FilePath
ancestor n path = record path { components = take n path.components }

-- `parent`
unfoldable pub parent : FilePath → Option FilePath
parent path =
    if is_empty path.components then none else some (ancestor (length path.components - 1) path)

pub data PathError : Type 0 where
  parent_dir_in out_of_roots : PathError
  io : PathError

pub record FileSystem : Type 0 where
  pub exists : FilePath → Bool
  pub canonicalize : FilePath → Option FilePath

module _ (fs : FileSystem) where
  open fs use {exists, canonicalize}

  -- The loop; a path has as many ancestors as components.
  unfoldable pub nearest_from : ℕ → FilePath → Option FilePath
  nearest_from zero cursor = if exists cursor then some cursor else none
  nearest_from (suc n) cursor =
      if exists cursor
      then some cursor
      else elim (parent cursor) [ none ↦ none | some up ↦ nearest_from n up ]

  unfoldable pub nearest_existing_ancestor : FilePath → Option FilePath
  nearest_existing_ancestor path = nearest_from (length path.components) path

  -- The loop over the roots: those that do not exist are passed over.
  unfoldable pub canonical_roots : List FilePath → Result PathError (List FilePath)
  canonical_roots [] = ok []
  canonical_roots (root ∷ roots) = if not (exists root) then canonical_roots roots else do
    first ← ok_or PathError.io (canonicalize root)
    rest ← canonical_roots roots
    ok (first ∷ rest)

  unfoldable pub checked_path : FilePath → FilePath → FilePath
  checked_path base_root candidate =
      if exists candidate
      then candidate
      else elim (nearest_existing_ancestor candidate) [ none ↦ base_root | some up ↦ up ]

  unfoldable pub resolve_path_under_roots :
      FilePath → Text → List FilePath → Result PathError FilePath
  resolve_path_under_roots base_root path allowed_roots =
      let input = path_of_text path in
      let candidate = if input.is_absolute then input else join base_root input in
      if any is_parent_dir candidate.components then err PathError.parent_dir_in else do
        roots ← canonical_roots allowed_roots
        check_path ← ok_or PathError.io (canonicalize (checked_path base_root candidate))
        if not (any (path_starts_with check_path) roots)
            then err PathError.out_of_roots
            else ok candidate

  unfoldable pub resolve_workspace_path :
      FilePath → List FilePath → Text → Result PathError FilePath
  resolve_workspace_path workspace_root extra_workspace_roots path =
      resolve_path_under_roots workspace_root path (workspace_root ∷ extra_workspace_roots)

  -- `skill_roots` are those of crates/kiliax-core/src/tools/skills.rs.
  unfoldable pub resolve_read_path :
      FilePath → List FilePath → List FilePath → Text → Result PathError FilePath
  resolve_read_path workspace_root extra_workspace_roots skill_roots path =
      resolve_path_under_roots workspace_root path
        ((workspace_root ∷ extra_workspace_roots) ++ skill_roots)
