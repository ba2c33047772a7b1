-- ===== src/Patch/Tests.antt =====
-- Patches at concrete inputs.
use kiliax.Prelude.{
  ℕ, ◌≡◌, ◌≢◌, refl, sym, ap, ◌∙◌, true, List, [], ◌∷◌, ◌++◌, subst, Option, none, some, All, map,
  length, ℕ_discrete, some_injective, ◌≤◌, if◌then◌else◌,
}
use kiliax.Text.{
  Text, codes, text_eq, Text-discrete, trim, trim_start, is_whitespace, strip_prefix, starts_with,
}
use kiliax.Text.Split.{split, trim_end, ends_with}
use kiliax.Result.{Result, ok, err, ok_injective}
use kiliax.Patch.Hunks.{
  HunkLine, UpdateHunk, before_of, after_of, stands_at, search_from, find_subsequence, place_of,
  apply_hunks, Patches, apply_hunks-Patches,
}
use kiliax.Patch.Lines.{pop_empty}
use kiliax.Patch.Diff.{small_unified_diff}
use kiliax.Patch.Diff.{diff_ops}
use kiliax.Patch.Diff.Longest.{
  empty, skip, keep, old_lines, new_lines, kept_lines, diff_ops-longest,
}
use kiliax.Patch.Disk.{
  Disk, Write, write_content, after_write, apply_from, apply_planned_paths, changed,
}
use kiliax.Patch.Plan.{
  PatchOp, PatchedFile, Paths, Workspace, patched_file, plan_patch, plan_from, plan_op, plan_delete,
  set_current, insert_path, find_path, ensure_planned_path, fresh_state,
}
use kiliax.Patch.Plan.Run.{run_ops, on_disk, Follows}
use kiliax.Patch.Plan.Ops.{plan_patch-run}
use kiliax.Patch.Parse.{
  ParseError, parse_patch, parse_lines, parse_ops, parse_op, parse_delete, path_of, begin_patch,
}
use kiliax.Patch.Parse.Fuel.{parse_patch-ends}
use kiliax.Patch.Parse.Printed.{FilePart, op_of, print_parts, print_patch, IsLine}
use kiliax.Patch.Parse.Printed.Whole.{parse_patch-print_patch}
use kiliax.Patch.Execute.{
  Surroundings, ToolError, execute, execute-undone, prepare, report, apply_plan, workspace_of,
}
use kiliax.Patch.Execute.Succeeds.{IsSpelled, execute-run}
use kiliax.Tools.Paths.{
  Component, FilePath, PathError, FileSystem, path_of_text, all_components, later_components, join,
  path_starts_with, canonical_roots, checked_path, resolve_path_under_roots, resolve_workspace_path,
}

abbrev patch : List UpdateHunk
patch =
    record {
      header = none;
      lines =
          HunkLine.context (codes "a") ∷ HunkLine.del (codes "b") ∷ HunkLine.add (codes "c") ∷ [];
    }
    ∷ []

abbrev file : List Text
file = codes "x" ∷ codes "a" ∷ codes "b" ∷ []

abbrev patched : List Text
patched = codes "x" ∷ codes "a" ∷ codes "c" ∷ []

applies : apply_hunks file 0 patch ≡ some patched
unfolding apply_hunks before_of after_of place_of find_subsequence search_from stands_at
    Text-discrete ℕ_discrete
applies = refl

apply_hunks-Patches_example : Patches patch file patched
apply_hunks-Patches_example = apply_hunks-Patches patch file 0 patched applies

parse_patch-ends_example :
    parse_patch (codes "*** Begin Patch\n*** Add File: a") ≢ err ParseError.out_of_fuel
parse_patch-ends_example = parse_patch-ends (codes "*** Begin Patch\n*** Add File: a")

abbrev parts : List FilePart
parts =
    FilePart.added (codes "a") (codes "x" ∷ [])
    ∷ FilePart.updated (codes "b") (some (codes "c"))
        (record { header = none; lines = HunkLine.del (codes "y") ∷ [] } ∷ [])
    ∷ []

trimmed_a : trim (codes "a") ≡ codes "a"
unfolding trim trim_start is_whitespace
trimmed_a = refl

trimmed_b : trim (codes "b") ≡ codes "b"
unfolding trim trim_start is_whitespace
trimmed_b = refl

trimmed_c : trim (codes "c") ≡ codes "c"
unfolding trim trim_start is_whitespace
trimmed_c = refl

lines : All IsLine (begin_patch ∷ print_parts parts)
unfolding trim_end
lines = (
  (refl, refl),
  (
    (refl, refl),
    (
      (refl, refl),
      ((refl, refl), ((refl, refl), ((refl, refl), ((refl, refl), ((refl, refl), tt))))),
    ),
  ),
)

parse_patch-print_patch_example : parse_patch (print_patch parts) ≡ ok (map op_of parts)
unfolding ends_with
parse_patch-print_patch_example =
    parse_patch-print_patch parts
      (((refl, trimmed_a), (refl, refl)), (((refl, trimmed_b), (refl, trimmed_c), (tt, tt)), tt))
      lines

abbrev old_lines_of : List Text
old_lines_of = codes "a" ∷ codes "b" ∷ []

abbrev new_lines_of : List Text
new_lines_of = codes "b" ∷ codes "c" ∷ []

diff_ops-longest_example :
    (old_lines (diff_ops old_lines_of new_lines_of) ≡ old_lines_of)
    × (new_lines (diff_ops old_lines_of new_lines_of) ≡ new_lines_of)
    × (length (codes "b" ∷ []) ≤ length (kept_lines (diff_ops old_lines_of new_lines_of)))
diff_ops-longest_example =
    diff_ops-longest old_lines_of new_lines_of (codes "b" ∷ []) (skip (keep refl empty))
      (keep refl (skip empty))

-- A disk with the file `a`, and each path itself for its absolute path.
abbrev one_file : Disk
one_file = λ p. if text_eq p (codes "a") then some (codes "x") else none

abbrev on_one_file : Workspace
on_one_file = record { resolve = λ p. some p; read_optional_text = λ p. some (one_file p) }

abbrev deletes : List PatchOp
deletes = PatchOp.delete_file (codes "a") ∷ []

abbrev deleted_plan : Paths
deleted_plan =
    (codes "a", record { abs = codes "a"; initial = some (codes "x"); current = none }) ∷ []

abbrev deleted_files : List PatchedFile
deleted_files =
    patched_file (codes "delete") (codes "a") none (small_unified_diff (codes "x") [] (codes "a"))
    ∷ []

planned : plan_patch on_one_file deletes ≡ ok (deleted_plan, deleted_files)
unfolding plan_patch plan_from plan_op plan_delete ensure_planned_path fresh_state find_path
    insert_path set_current Text-discrete ℕ_discrete
planned = refl

plan_patch-run_example :
    (files : Disk) × (run_ops (on_disk on_one_file) deletes ≡ some files)
    × Follows on_one_file deleted_plan files
plan_patch-run_example = plan_patch-run on_one_file deletes (deleted_plan, deleted_files) planned

abbrev delete_text : Text
delete_text = codes "*** Begin Patch\n*** Delete File: a\n*** End Patch"

abbrev around : (ℕ → Write) → Surroundings
around writes = record {
  resolve = λ p. some p;
  read_optional_text = λ disk p. some (disk p);
  parse_args = λ s. some s;
  writes = writes;
  restores = λ n. Write.done;
}

-- The removal fails and leaves half of the file.
abbrev failing : Surroundings
failing = around (λ n. Write.broken (some (codes "half")))

failed : (execute failing true delete_text one_file).result ≡ err ToolError.write_failed
unfolding execute prepare apply_plan report parse_patch parse_lines parse_ops parse_op parse_delete
    path_of trim trim_start is_whitespace strip_prefix split trim_end pop_empty apply_planned_paths
    apply_from after_write write_content changed plan_patch plan_from plan_op plan_delete
    ensure_planned_path fresh_state find_path insert_path set_current Text-discrete ℕ_discrete
failed = refl

execute-undone_example :
    (execute failing true delete_text one_file).disk (codes "a") ≡ one_file (codes "a")
execute-undone_example =
    execute-undone failing true delete_text one_file ToolError.write_failed
      (λ path content h. sym (some_injective _ _ h)) (λ n. refl) failed (codes "a")

abbrev working : Surroundings
working = around (λ n. Write.done)

-- A path of the workspace as text.
abbrev display : List Component → Text
display [] = []
display (Component.normal s ∷ cs) = b'/' ∷ (s ++ display cs)
display (c ∷ cs) = display cs

abbrev absolute_text : Result PathError FilePath → Option Text
absolute_text (ok path) = some (display path.components)
absolute_text (err e) = none

abbrev workspace_root : FilePath
workspace_root = record { is_absolute = true; components = Component.normal (codes "w") ∷ [] }

abbrev all_there : FileSystem
all_there = record { exists = λ p. true; canonicalize = λ p. some p }

-- The workspace's own rules for paths: `a`, `./a` and `/w/a` stand for one file.
abbrev in_workspace : Surroundings
in_workspace = record working {
  resolve = λ p. absolute_text (resolve_workspace_path all_there workspace_root [] p);
}

abbrev file_of_workspace : Disk
file_of_workspace = λ p. if text_eq p (codes "/w/a") then some (codes "x") else none

two_spellings : in_workspace.resolve (codes "./a") ≡ in_workspace.resolve (codes "a")
unfolding resolve_workspace_path resolve_path_under_roots canonical_roots checked_path path_of_text
    all_components later_components join split starts_with path_starts_with Text-discrete ℕ_discrete
two_spellings = refl

abbrev plan_in_workspace : Paths
plan_in_workspace =
    (codes "a", record { abs = codes "/w/a"; initial = some (codes "x"); current = none }) ∷ []

prepared :
    prepare in_workspace true delete_text file_of_workspace ≡ ok (plan_in_workspace, deleted_files)
unfolding prepare parse_patch parse_lines parse_ops parse_op parse_delete path_of trim trim_start
    is_whitespace strip_prefix split trim_end pop_empty plan_patch plan_from plan_op plan_delete
    ensure_planned_path fresh_state find_path insert_path set_current resolve_workspace_path
    resolve_path_under_roots canonical_roots checked_path path_of_text all_components
    later_components join starts_with path_starts_with Text-discrete ℕ_discrete
prepared = refl

spelling_of_a :
    (r : Paths × List PatchedFile)
    → prepare in_workspace true delete_text file_of_workspace ≡ ok r
    → IsSpelled in_workspace.resolve (codes "a") r.0
spelling_of_a r h =
    subst (λ (r : Paths × List PatchedFile). IsSpelled in_workspace.resolve (codes "a") r.0)
      (ok_injective (plan_in_workspace, deleted_files) r (sym prepared ∙ h)) ((λ k. refl), tt)

deletes_in_workspace :
    (execute in_workspace true delete_text file_of_workspace).result ≡ ok deleted_files
unfolding execute prepare apply_plan report parse_patch parse_lines parse_ops parse_op parse_delete
    path_of trim trim_start is_whitespace strip_prefix split trim_end pop_empty apply_planned_paths
    apply_from after_write write_content changed plan_patch plan_from plan_op plan_delete
    ensure_planned_path fresh_state find_path insert_path set_current resolve_workspace_path
    resolve_path_under_roots canonical_roots checked_path path_of_text all_components
    later_components join starts_with path_starts_with Text-discrete ℕ_discrete
deletes_in_workspace = refl

resolves_a : in_workspace.resolve (codes "a") ≡ some (codes "/w/a")
unfolding resolve_workspace_path resolve_path_under_roots canonical_roots checked_path path_of_text
    all_components later_components join split starts_with path_starts_with Text-discrete ℕ_discrete
resolves_a = refl

reads_a : file_of_workspace (codes "/w/a") ≡ some (codes "x")
unfolding Text-discrete ℕ_discrete
reads_a = refl

execute-run_example :
    (true ≡ true)
    × (patch : Text) × (ops : List PatchOp) × (files : Disk) × (in_workspace.parse_args delete_text
        ≡ some patch)
    × (parse_patch patch ≡ ok ops)
    × (run_ops (on_disk (workspace_of in_workspace file_of_workspace)) ops ≡ some files)
    × ((execute in_workspace true delete_text file_of_workspace).disk (codes "/w/a")
        ≡ files (codes "a"))
execute-run_example =
    execute-run in_workspace true delete_text file_of_workspace deleted_files (codes "a")
      (codes "/w/a") (some (codes "x")) spelling_of_a (λ path content h. sym (some_injective _ _ h))
      deletes_in_workspace resolves_a (ap some reads_a)
