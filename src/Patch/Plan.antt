-- ===== src/Patch/Plan.antt =====
-- `plan_patch` and `ensure_planned_path` of crates/kiliax-core/src/tools/builtin/apply_patch.rs. The
-- rules for paths (tools/builtin/common.rs) and the reading of a file are parameters.
pub mod Tables
pub mod Run
pub mod Ops
use kiliax.Prelude.{
  ℕ, ◌≡◌, refl, ap, ◌∙◌, sym, Bool, true, false, List, [], ◌∷◌, ◌++◌, Option, none, some, is_some,
  if◌then◌else◌, ltb, ◌==◌,
}
use mathlib.Core.Option
use kiliax.Text.{Text, codes, text_eq}
use kiliax.Result.{Result, ok, err, ok_or, ◌>>=◌}
use kiliax.Patch.Hunks.{UpdateHunk}
use kiliax.Patch.Lines.{apply_update_hunks}
use kiliax.Patch.Diff.{UnifiedDiff, small_unified_diff}
use kiliax.Patch.Disk.{PlannedPathState}

pub data PatchOp : Type 0 where
  add_file : Text → Text → PatchOp
  delete_file : Text → PatchOp
  update_file : Text → Option Text → List UpdateHunk → PatchOp

-- The paths as the patch spells them.
pub data PlanError : Type 0 where
  invalid_path io already_exists missing move_exists context_not_found : Text → PlanError

abbrev pub Planned {ℓ} : Type ℓ → Type ℓ
Planned A = Result PlanError A

pub record PatchedFile : Type 0 where
  pub action : Text
  pub path : Text
  pub moved_to : Option Text
  pub diff : Option Text
  pub added_lines : Option ℕ
  pub removed_lines : Option ℕ

-- `planned_paths`, by the path as the patch spells it.
abbrev pub Paths : Type 0
Paths = List (Text × PlannedPathState)

unfoldable pub find_path : Text → Paths → Option PlannedPathState
find_path path [] = none
find_path path ((p, state) ∷ paths) =
    let rest = find_path path paths in if text_eq path p then some state else rest

-- The order of `BTreeMap<String, _>`: of the scalar values, which is that of the bytes.
unfoldable pub text_before : Text → Text → Bool
text_before [] [] = false
text_before [] (b ∷ t) = true
text_before (a ∷ s) [] = false
text_before (a ∷ s) (b ∷ t) =
    let rest = text_before s t in if ltb a b then true else if a == b then rest else false

-- `BTreeMap::insert` of a path that is not there.
unfoldable pub insert_path : Text → PlannedPathState → Paths → Paths
insert_path path state [] = (path, state) ∷ []
insert_path path state ((p, s) ∷ paths) =
    if text_before path p
    then (path, state) ∷ (p, s) ∷ paths
    else (p, s) ∷ insert_path path state paths

-- `get_mut(path)`, with an assignment to `current`.
unfoldable pub set_current : Text → Option Text → Paths → Paths
set_current path content [] = []
set_current path content ((p, s) ∷ paths) =
    if text_eq path p
    then (p, record s { current = content }) ∷ paths
    else (p, s) ∷ set_current path content paths

abbrev pub patched_file : Text → Text → Option Text → Option UnifiedDiff → PatchedFile
patched_file action path moved_to diff = record {
  action = action;
  path = path;
  moved_to = moved_to;
  diff = Option.map (λ d. d.text) diff;
  added_lines = Option.map (λ d. d.added_lines) diff;
  removed_lines = Option.map (λ d. d.removed_lines) diff;
}

-- What the rules for paths give for a path, and what reading an absolute path gives: the text where
-- there is a file.
pub record Workspace : Type 0 where
  pub resolve : Text → Option Text
  pub read_optional_text : Text → Option (Option Text)

module _ (workspace : Workspace) where
  open workspace use {resolve, read_optional_text}

  unfoldable pub fresh_state : Text → Planned PlannedPathState
  fresh_state path = elim (resolve path) [
    | none ↦ err (PlanError.invalid_path path)
    | some abs ↦ elim (read_optional_text abs) [
      | none ↦ err (PlanError.io path)
      | some initial ↦ ok (record { abs = abs; initial = initial; current = initial })
    ]
  ]

  -- The paths with `path` among them, and its state.
  unfoldable pub ensure_planned_path : Paths → Text → Planned (Paths × PlannedPathState)
  ensure_planned_path paths path = elim (find_path path paths) [
    | some state ↦ ok (paths, state)
    | none ↦ do state ← fresh_state path; ok (insert_path path state paths, state)
  ]

  unfoldable pub plan_add : Paths → Text → Text → Planned (Paths × PatchedFile)
  plan_add paths path content = do
    (paths, state) ← ensure_planned_path paths path
    if is_some state.current
        then err (PlanError.already_exists path)
        else ok (
          set_current path (some content) paths,
          patched_file (codes "add") path none (small_unified_diff [] content path),
        )

  unfoldable pub plan_delete : Paths → Text → Planned (Paths × PatchedFile)
  plan_delete paths path = do
    (paths, state) ← ensure_planned_path paths path
    old ← ok_or (PlanError.missing path) state.current
    ok (
      set_current path none paths,
      patched_file (codes "delete") path none (small_unified_diff old [] path),
    )

  -- The paths with `dest` among them, where it is another path than `path` and nothing is there.
  unfoldable pub prepare_dest : Paths → Text → Text → Planned Paths
  prepare_dest paths path dest =
      if text_eq dest path
      then ok paths
      else (ensure_planned_path paths dest >>= λ r.
          if is_some r.1.current then err (PlanError.move_exists dest) else ok r.0)

  -- An update with a `dest`: the new text goes there.
  unfoldable pub plan_move : Paths → Text → Text → Text → Planned Paths
  plan_move paths path dest new = do
    paths ← prepare_dest paths path dest
    (paths, state) ← ensure_planned_path (set_current path none paths) dest
    ok (set_current dest (some new) paths)

  -- The part of an update after the hunks: where the new text goes.
  unfoldable pub plan_text : Paths → Text → Text → Option Text → Planned Paths
  plan_text paths path new none = ok (set_current path (some new) paths)
  plan_text paths path new (some dest) = plan_move paths path dest new

  unfoldable pub plan_update :
      Paths → Text → Option Text → List UpdateHunk → Planned (Paths × PatchedFile)
  plan_update paths path move_to hunks = do
    (paths, state) ← ensure_planned_path paths path
    old ← ok_or (PlanError.missing path) state.current
    new ← ok_or (PlanError.context_not_found path) (apply_update_hunks old hunks)
    paths ← plan_text paths path new move_to
    ok (
      paths,
      patched_file (codes "update") path move_to
          (small_unified_diff old new (Option.get_or move_to path)),
    )

  -- The `match op`.
  unfoldable pub plan_op : Paths → PatchOp → Planned (Paths × PatchedFile)
  plan_op paths (PatchOp.add_file path content) = plan_add paths path content
  plan_op paths (PatchOp.delete_file path) = plan_delete paths path
  plan_op paths (PatchOp.update_file path move_to hunks) = plan_update paths path move_to hunks

  unfoldable pub plan_from : Paths → List PatchOp → Planned (Paths × List PatchedFile)
  plan_from paths [] = ok (paths, [])
  plan_from paths (op ∷ ops) = do
    (paths, file) ← plan_op paths op
    (paths, files) ← plan_from paths ops
    ok (paths, file ∷ files)

  unfoldable pub plan_patch : List PatchOp → Planned (Paths × List PatchedFile)
  plan_patch ops = plan_from [] ops
