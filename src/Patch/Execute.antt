-- ===== src/Patch/Execute.antt =====
-- `execute` of crates/kiliax-core/src/tools/builtin/apply_patch.rs: the permission, the patch, the
-- plan, and its application. The rules for paths, the reading of the arguments (serde_json) and of a
-- file, and how the writes end are parameters.
pub mod Succeeds
use kiliax.Prelude.{
  ℕ, ◌≡◌, refl, ap, ◌∙◌, sym, Bool, true, false, not, List, [], ◌∷◌, map, Option, none, some,
  if◌then◌else◌, All, Bool-cases, inl, inr,
}
use kiliax.Text.{Text}
use kiliax.Result.{Result, ok, err, ok_or, ◌>>=◌, bind-ok, err-ok}
use kiliax.Patch.Disk.{
  Disk, PlannedPathState, Write, Applied, apply_planned_paths, apply_planned_paths-undone, ReadFrom,
}
use kiliax.Patch.Plan.{PatchOp, PlanError, PatchedFile, Paths, Workspace, plan_patch}
use kiliax.Patch.Plan.Run.{IsRead, AreRead, Follows}
use kiliax.Patch.Plan.Ops.{plan_patch-run}
use kiliax.Patch.Parse.{ParseError, parse_patch}

pub data ToolError : Type 0 where
  permission_denied invalid_args write_failed : ToolError
  invalid_patch : ParseError → ToolError
  not_planned : PlanError → ToolError

-- What the tool finds around it.
pub record Surroundings : Type 0 where
  pub resolve : Text → Option Text
  pub read_optional_text : Disk → Text → Option (Option Text)
  pub parse_args : Text → Option Text
  pub writes : ℕ → Write
  pub restores : ℕ → Write

-- What is on disk when the tool returns, and what it returns.
pub record Executed : Type 0 where
  pub disk : Disk
  pub result : Result ToolError (List PatchedFile)

-- `map_err`
abbrev pub map_err : {E A : Type 0} → (E → ToolError) → Result E A → Result ToolError A
map_err f (ok a) = ok a
map_err f (err e) = err (f e)

-- The files as the plan finds them.
abbrev pub workspace_of : Surroundings → Disk → Workspace
workspace_of around disk = record {
  resolve = around.resolve;
  read_optional_text = around.read_optional_text disk;
}

-- The steps before anything is written.
unfoldable pub prepare :
    Surroundings → Bool → Text → Disk → Result ToolError (Paths × List PatchedFile)
prepare around file_write arguments disk =
    if not file_write then err ToolError.permission_denied else do
      patch ← ok_or ToolError.invalid_args (around.parse_args arguments)
      ops ← map_err ToolError.invalid_patch (parse_patch patch)
      map_err ToolError.not_planned (plan_patch (workspace_of around disk) ops)

-- The states of the planned paths, in their order.
abbrev pub states_of : Paths → List PlannedPathState
states_of = map (λ p. p.1)

unfoldable pub report : Applied → List PatchedFile → Executed
report applied files = record {
  disk = applied.disk;
  result = if applied.ok then ok files else err ToolError.write_failed;
}

-- The application of a plan, where there is one.
unfoldable pub apply_plan :
    Surroundings → Disk → Result ToolError (Paths × List PatchedFile) → Executed
apply_plan around disk (err e) = record { disk = disk; result = err e }
apply_plan around disk (ok (paths, files)) =
    report (apply_planned_paths around.writes around.restores disk (states_of paths)) files

unfoldable pub execute : Surroundings → Bool → Text → Disk → Executed
execute around file_write arguments disk =
    apply_plan around disk (prepare around file_write arguments disk)

pub map_err-ok :
    {E A : Type 0} (f : E → ToolError) (x : Result E A) (a : A) → map_err f x ≡ ok a → x ≡ ok a
map_err-ok f (ok b) a h = cc
map_err-ok f (err e) a h = elim (err-ok (f e) a h) [ ]

module _ (around : Surroundings) (disk : Disk) where
  pub AreRead-ReadFrom :
      (paths : Paths)
      → ((path : Text) (content : Option Text)
          → around.read_optional_text disk path ≡ some content
          → content ≡ disk path)
      → AreRead (workspace_of around disk) paths
      → ReadFrom disk (states_of paths)
  unfolding IsRead
  AreRead-ReadFrom [] k h = tt
  AreRead-ReadFrom ((p, s) ∷ paths) k h = (k s.abs s.initial h.0.1, AreRead-ReadFrom paths k h.1)

  prepare-ReadFrom :
      (file_write : Bool) (arguments : Text) (r : Paths × List PatchedFile)
      → ((path : Text) (content : Option Text)
          → around.read_optional_text disk path ≡ some content
          → content ≡ disk path)
      → prepare around file_write arguments disk ≡ ok r
      → ReadFrom disk (states_of r.0)
  unfolding prepare Follows
  prepare-ReadFrom false arguments r k h = elim (err-ok _ r h) [ ]
  prepare-ReadFrom true arguments r k h =
      let (patch, a, t) =
        bind-ok (ok_or ToolError.invalid_args (around.parse_args arguments)) _ r h in
      let (ops, b, u) = bind-ok (map_err ToolError.invalid_patch (parse_patch patch)) _ r t in
      let (files, v, w) = plan_patch-run (workspace_of around disk) ops r (map_err-ok _ _ r u) in
      AreRead-ReadFrom r.0 k w.0

  report-undone :
      (applied : Applied) (files : List PatchedFile) (e : ToolError)
      → (applied.ok ≡ false → (path : Text) → applied.disk path ≡ disk path)
      → (report applied files).result ≡ err e
      → (path : Text) → (report applied files).disk path ≡ disk path
  unfolding report
  report-undone applied files e h k path = elim (Bool-cases applied.ok) [
    | inl b ↦ elim (err-ok e files (sym k ∙ rw b refl)) [ ]
    | inr b ↦ h b path
  ]

  apply_plan-undone :
      (x : Result ToolError (Paths × List PatchedFile)) (e : ToolError)
      → ((n : ℕ) → around.restores n ≡ Write.done)
      → ((r : Paths × List PatchedFile) → x ≡ ok r → ReadFrom disk (states_of r.0))
      → (apply_plan around disk x).result ≡ err e
      → (path : Text) → (apply_plan around disk x).disk path ≡ disk path
  unfolding apply_plan
  apply_plan-undone (err d) e w r h path = refl
  apply_plan-undone (ok (paths, files)) e w r h path =
      report-undone (apply_planned_paths around.writes around.restores disk (states_of paths)) files
        e
        (apply_planned_paths-undone around.writes around.restores disk (states_of paths)
          (r (paths, files) refl) w)
        h path

-- Where the tool returns an error, whether of the permission, the arguments, the patch, the plan or a
-- write that fails half way, every path is as it was; where reading a file gives what is on disk and the
-- writes that put the files back succeed.
pub execute-undone :
    (around : Surroundings) (file_write : Bool) (arguments : Text) (disk : Disk) (e : ToolError)
    → ((path : Text) (content : Option Text)
        → around.read_optional_text disk path ≡ some content
        → content ≡ disk path)
    → ((n : ℕ) → around.restores n ≡ Write.done)
    → (execute around file_write arguments disk).result ≡ err e
    → (path : Text) → (execute around file_write arguments disk).disk path ≡ disk path
unfolding execute
execute-undone around file_write arguments disk e r w h path =
    apply_plan-undone around disk (prepare around file_write arguments disk) e w
      (λ p. prepare-ReadFrom around disk file_write arguments p r) h path
