-- ===== src/Patch/Execute/Succeeds.antt =====
-- What is on disk after a patch that succeeds.
use kiliax.Prelude.{
  ◌≡◌, refl, ap, ◌∙◌, sym, subst, Bool, true, false, List, [], ◌∷◌, Option, none, some,
  if◌then◌else◌, Bool-cases, Option-cases, inl, inr, arith, retain, some_injective, none-some, All,
}
use kiliax.Text.{Text, text_eq}
use kiliax.Text.Equal.{text_eq-≡, text_eq-same, text_eq-false}
use kiliax.Result.{Result, ok, err, ok_or, bind-ok, err-ok, ok_or-ok}
use kiliax.Patch.Disk.{
  Disk, PlannedPathState, Applied, apply_planned_paths, apply_planned_paths-last, changed,
  same_content, last_write,
}
use kiliax.Patch.Plan.{PatchOp, PatchedFile, Paths, Workspace, find_path, plan_patch}
use kiliax.Patch.Plan.Tables.{IsDistinct}
use kiliax.Patch.Plan.Run.{IsRead, AreRead, Follows, view, on_disk, run_ops}
use kiliax.Patch.Plan.Ops.{plan_patch-run}
use kiliax.Patch.Parse.{parse_patch}
use kiliax.Patch.Execute.{
  ToolError, Surroundings, map_err, workspace_of, prepare, states_of, report, apply_plan, execute,
  map_err-ok,
}

-- What a planned state leaves at its path, where `content` was there before.
abbrev written_or : Option Text → Option PlannedPathState → Option Text
written_or content none = content
written_or content (some s) = if changed s then s.current else content

same_content-≡ : (a b : Option Text) → same_content a b ≡ true → a ≡ b
same_content-≡ none none h = refl
same_content-≡ none (some b) h = cc
same_content-≡ (some a) none h = cc
same_content-≡ (some a) (some b) h = ap some (text_eq-≡ a b h)

true-false : true ≡ false → ⊥
true-false h = cc

changed-same : (s : PlannedPathState) → changed s ≡ false → s.initial ≡ s.current
unfolding changed
changed-same s h = same_content-≡ s.initial s.current (ground arith)

last_write-cons :
    (abs : Text) (s : PlannedPathState) (states : List PlannedPathState) (content : Option Text)
    → last_write abs (retain changed (s ∷ states)) content
      ≡ last_write abs
          (retain changed states)
          (if text_eq abs s.abs then written_or content (some s) else content)
last_write-cons abs s states content = elim (Bool-cases (changed s)) [
  | inl e ↦ rw e refl
  | inr e ↦ elim (Bool-cases (text_eq abs s.abs)) [
    | inl k ↦ rw (e, k) refl
    | inr k ↦ rw (e, k) refl
  ]
]

-- A planned path that stands for the same file as `path` is spelled as it is.
abbrev pub IsSpelled : (Text → Option Text) → Text → Paths → Type 0
IsSpelled resolve path = All (λ p. resolve p.0 ≡ resolve path → p.0 ≡ path)

module _ (workspace : Workspace) where
  abs-differ :
      (p q a b : Text)
      → (workspace.resolve q ≡ workspace.resolve p → q ≡ p)
      → workspace.resolve p ≡ some a
      → workspace.resolve q ≡ some b
      → text_eq p q ≡ false
      → text_eq a b ≡ false
  abs-differ p q a b one h k n = text_eq-false a b (λ e.
      true-false
        (sym (text_eq-same p) ∙ ap (text_eq p) (sym (one (k ∙ ap some (sym e) ∙ sym h))) ∙ n))

  last_write-planned :
      (paths : Paths) (path abs : Text) (content : Option Text)
      → AreRead workspace paths
      → IsDistinct paths
      → IsSpelled workspace.resolve path paths
      → workspace.resolve path ≡ some abs
      → last_write abs (retain changed (states_of paths)) content
        ≡ written_or content (find_path path paths)
  unfolding find_path IsRead
  last_write-planned [] path abs content r d one h = refl
  last_write-planned ((p, s) ∷ paths) path abs content r d one h =
      last_write-cons abs s (states_of paths) content ∙ elim (Bool-cases (text_eq path p)) [
        | inl e ↦
            let same : path ≡ p = text_eq-≡ path p e in
            let k : abs ≡ s.abs = some_injective _ _ (sym h ∙ ap workspace.resolve same ∙ r.0.0) in
            let t : text_eq abs s.abs ≡ true = sym (ap (text_eq abs) k) ∙ text_eq-same abs in
            rw (t, e)
              (last_write-planned paths path abs (written_or content (some s)) r.1 d.1 one.1 h
                ∙ ap (written_or (written_or content (some s)))
                    (ap (λ q. find_path q paths) same ∙ d.0))
        | inr e ↦
            rw (abs-differ path p abs s.abs one.0 h r.0.0 e, e)
              (last_write-planned paths path abs content r.1 d.1 one.1 h)
      ]

  find-IsRead :
      (paths : Paths) (path : Text) (s : PlannedPathState)
      → AreRead workspace paths
      → find_path path paths ≡ some s
      → IsRead workspace (path, s)
  unfolding find_path IsRead
  find-IsRead [] path s r e = elim (none-some s e) [ ]
  find-IsRead ((p, t) ∷ paths) path s r e = elim (Bool-cases (text_eq path p)) [
    | inl k ↦
        subst (λ s. IsRead workspace (path, s)) (some_injective t s (rw k at e))
          (ap workspace.resolve (text_eq-≡ path p k) ∙ r.0.0, r.0.1)
    | inr k ↦ find-IsRead paths path s r.1 (rw k at e)
  ]

  written_or-view :
      (disk : Disk) (paths : Paths) (path abs : Text) (content : Option Text)
      → ((path : Text) (content : Option Text)
          → workspace.read_optional_text path ≡ some content
          → content ≡ disk path)
      → AreRead workspace paths
      → workspace.resolve path ≡ some abs
      → workspace.read_optional_text abs ≡ some content
      → written_or (disk abs) (find_path path paths) ≡ view workspace paths path
  unfolding view IsRead
  written_or-view disk paths path abs content k r h c = elim (Option-cases (find_path path paths)) [
    | inl e ↦ rw e (sym (k abs content c) ∙ sym (rw (h, c, on_disk) refl))
    | inr (s, e) ↦ elim (Bool-cases (changed s)) [
      | inl b ↦ rw (e, b) refl
      | inr b ↦
          let (a, i) = find-IsRead paths path s r e in
          let same : abs ≡ s.abs = some_injective _ _ (sym h ∙ a) in
          rw (e, b) (ap disk same ∙ sym (k s.abs s.initial i) ∙ changed-same s b)
    ]
  ]

report-ok :
    (applied : Applied) (files out : List PatchedFile)
    → (report applied files).result ≡ ok out
    → applied.ok ≡ true
unfolding report
report-ok applied files out h = elim (Bool-cases applied.ok) [
  | inl e ↦ e
  | inr e ↦ elim (err-ok ToolError.write_failed out (rw (e, report) at h)) [ ]
]

apply_plan-ok :
    (around : Surroundings) (disk : Disk) (x : Result ToolError (Paths × List PatchedFile))
    (out : List PatchedFile)
    → (apply_plan around disk x).result ≡ ok out
    → (r : Paths × List PatchedFile) × (x ≡ ok r)
      × ((path : Text)
          → (apply_plan around disk x).disk path
            ≡ last_write path (retain changed (states_of r.0)) (disk path))
unfolding apply_plan report
apply_plan-ok around disk (err e) out h = elim (err-ok e out h) [ ]
apply_plan-ok around disk (ok (paths, files)) out h =
    let applied = apply_planned_paths around.writes around.restores disk (states_of paths) in
    (
      (paths, files),
      refl,
      apply_planned_paths-last around.writes around.restores disk (states_of paths)
          (report-ok applied files out h),
    )

prepare-ok :
    (around : Surroundings) (file_write : Bool) (arguments : Text) (disk : Disk)
    (r : Paths × List PatchedFile)
    → prepare around file_write arguments disk ≡ ok r
    → (file_write ≡ true)
      × (patch : Text) × (ops : List PatchOp) × (around.parse_args arguments ≡ some patch)
      × (parse_patch patch ≡ ok ops)
      × (plan_patch (workspace_of around disk) ops ≡ ok r)
unfolding prepare
prepare-ok around false arguments disk r h = elim (err-ok _ r h) [ ]
prepare-ok around true arguments disk r h =
    let (patch, a, t) =
      bind-ok (ok_or ToolError.invalid_args (around.parse_args arguments)) _ r h in
    let (ops, b, u) = bind-ok (map_err ToolError.invalid_patch (parse_patch patch)) _ r t in
    (refl, patch, ops, ok_or-ok _ _ patch a, map_err-ok _ _ ops b, map_err-ok _ _ r u)

-- Where the tool succeeds, it has the permission, the arguments hold a patch that parses, its operations
-- can be run one after the other on the files as they were, and a path whose file could be read holds
-- at the end what that run leaves there; where reading a file gives what is on disk, and the patch names
-- the file of that path, if it does, only as that path spells it.
pub execute-run :
    (around : Surroundings) (file_write : Bool) (arguments : Text) (disk : Disk)
    (out : List PatchedFile) (path abs : Text) (content : Option Text)
    → ((r : Paths × List PatchedFile)
        → prepare around file_write arguments disk ≡ ok r
        → IsSpelled around.resolve path r.0)
    → ((path : Text) (content : Option Text)
        → around.read_optional_text disk path ≡ some content
        → content ≡ disk path)
    → (execute around file_write arguments disk).result ≡ ok out
    → around.resolve path ≡ some abs
    → around.read_optional_text disk abs ≡ some content
    → (file_write ≡ true)
      × (patch : Text) × (ops : List PatchOp) × (files : Disk) × (around.parse_args arguments
          ≡ some patch)
      × (parse_patch patch ≡ ok ops)
      × (run_ops (on_disk (workspace_of around disk)) ops ≡ some files)
      × ((execute around file_write arguments disk).disk abs ≡ files path)
unfolding execute Follows
execute-run around file_write arguments disk out path abs content one k h i j =
    let (r, p, d) = apply_plan-ok around disk (prepare around file_write arguments disk) out h in
    let (w, patch, ops, a, b, c) = prepare-ok around file_write arguments disk r p in
    let (files, g, f) = plan_patch-run (workspace_of around disk) ops r c in
    (
      w,
      patch,
      ops,
      files,
      a,
      b,
      g,
      d abs
          ∙ last_write-planned (workspace_of around disk) r.0 path abs (disk abs) f.0 f.1 (one r p)
              i
          ∙ written_or-view (workspace_of around disk) disk r.0 path abs content k f.0 i j
          ∙ f.2 path,
    )
