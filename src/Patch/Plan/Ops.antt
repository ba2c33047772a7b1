-- ===== src/Patch/Plan/Ops.antt =====
-- Each operation of a patch, planned and run on the files.
use kiliax.Prelude.{
  ◌≡◌, ◌⊎◌, refl, ap, subst, ◌∙◌, sym, true, false, List, [], ◌∷◌, Option, none, some, is_some,
  Bool-cases, inl, inr,
}
use kiliax.Text.{Text, text_eq}
use kiliax.Result.{ok, ok_or, bind-ok, ok_injective, unless-ok, ok_or-ok}
use kiliax.Patch.Hunks.{UpdateHunk}
use kiliax.Patch.Lines.{apply_update_hunks}
use kiliax.Patch.Disk.{Disk, PlannedPathState, put}
use kiliax.Patch.Plan.{
  PatchOp, PlanError, plan_text, PatchedFile, Paths, find_path, set_current, Workspace,
  ensure_planned_path, plan_add, plan_delete, prepare_dest, plan_move, plan_update, plan_op,
  plan_from, plan_patch,
}
use kiliax.Patch.Plan.Run.{
  run_op, run_ops, moved, replaced, patched, Follows, view, on_disk, set-Follows, ensure-Follows,
  ensure-find,
}

module _ (workspace : Workspace) where
  plan_add-run :
      (path content : Text) (paths : Paths) (r : Paths × PatchedFile) (files : Disk)
      → plan_add workspace paths path content ≡ ok r
      → Follows workspace paths files
      → (later : Disk) × (run_op files (PatchOp.add_file path content) ≡ some later)
        × Follows workspace r.0 later
  unfolding plan_add
  plan_add-run path content paths r files e h =
      let (p, g, t) = bind-ok (ensure_planned_path workspace paths path) _ r e in
      let (k, c, f) = ensure-Follows workspace path paths p files g h in
      let (q, u) = unless-ok (is_some p.1.current) _ _ r t in
      (
        put files path (some content),
        rw (ap is_some (sym c) ∙ u) refl,
        subst (λ (r : Paths × PatchedFile). Follows workspace r.0 (put files path (some content))) q
            (set-Follows workspace path (some content) p.0 p.1 files f k),
      )

  plan_delete-run :
      (path : Text) (paths : Paths) (r : Paths × PatchedFile) (files : Disk)
      → plan_delete workspace paths path ≡ ok r
      → Follows workspace paths files
      → (later : Disk) × (run_op files (PatchOp.delete_file path) ≡ some later)
        × Follows workspace r.0 later
  unfolding plan_delete
  plan_delete-run path paths r files e h =
      let (p, g, t) = bind-ok (ensure_planned_path workspace paths path) _ r e in
      let (k, c, f) = ensure-Follows workspace path paths p files g h in
      let (old, a, u) = bind-ok (ok_or (PlanError.missing path) p.1.current) _ r t in
      (
        put files path none,
        rw (sym c ∙ ok_or-ok _ _ old a) refl,
        subst (λ (r : Paths × PatchedFile). Follows workspace r.0 (put files path none))
            (ok_injective _ r u) (set-Follows workspace path none p.0 p.1 files f k),
      )

  prepare_dest-run :
      (path dest : Text) (paths r : Paths) (state : PlannedPathState) (files : Disk)
      → prepare_dest workspace paths path dest ≡ ok r
      → find_path path paths ≡ some state
      → Follows workspace paths files
      → Follows workspace r files
        × (find_path path r ≡ some state)
        × ((text_eq dest path ≡ true) ⊎ (is_some (files dest) ≡ false))
  unfolding prepare_dest
  prepare_dest-run path dest paths r state files e f h = elim (Bool-cases (text_eq dest path)) [
    | inl k ↦
        subst
          (λ r.
            Follows workspace r files
            × (find_path path r ≡ some state)
            × ((text_eq dest path ≡ true) ⊎ (is_some (files dest) ≡ false)))
          (ok_injective paths r (rw k at e)) (h, f, inl k)
    | inr k ↦
        let (p, g, t) = bind-ok (ensure_planned_path workspace paths dest) _ r (rw k at e) in
        let (l, c, i) = ensure-Follows workspace dest paths p files g h in
        let (q, u) = unless-ok (is_some p.1.current) _ _ r t in
        subst
          (λ r.
            Follows workspace r files
            × (find_path path r ≡ some state)
            × ((text_eq dest path ≡ true) ⊎ (is_some (files dest) ≡ false)))
          q (l, ensure-find workspace dest paths p path state g f, inr (ap is_some (sym c) ∙ u))
  ]

  moved-free :
      (files : Disk) (path dest new : Text)
      → (text_eq dest path ≡ true) ⊎ (is_some (files dest) ≡ false)
      → moved files path dest new ≡ some (put (put files path none) dest (some new))
  moved-free files path dest new (inl h) = rw h refl
  moved-free files path dest new (inr h) = elim (Bool-cases (text_eq dest path)) [
    | inl k ↦ rw k refl
    | inr k ↦ rw (k, h) refl
  ]

  plan_move-run :
      (path dest new : Text) (paths r : Paths) (state : PlannedPathState) (files : Disk)
      → plan_move workspace paths path dest new ≡ ok r
      → find_path path paths ≡ some state
      → Follows workspace paths files
      → (later : Disk) × (moved files path dest new ≡ some later) × Follows workspace r later
  unfolding plan_move
  plan_move-run path dest new paths r state files e f h =
      let (ps, g, t) = bind-ok (prepare_dest workspace paths path dest) _ r e in
      let (k, l, m) = prepare_dest-run path dest paths ps state files g f h in
      let (p, i, u) =
        bind-ok (ensure_planned_path workspace (set_current path none ps) dest) _ r t in
      let (v, c, w) =
        ensure-Follows workspace dest (set_current path none ps) p (put files path none) i
          (set-Follows workspace path none ps state files l k) in
      (
        put (put files path none) dest (some new),
        moved-free files path dest new m,
        subst (λ r. Follows workspace r (put (put files path none) dest (some new)))
            (ok_injective _ r u)
            (set-Follows workspace dest (some new) p.0 p.1 (put files path none) w v),
      )

  plan_text-run :
      (path new : Text) (move_to : Option Text) (paths r : Paths) (state : PlannedPathState)
      (files : Disk)
      → plan_text workspace paths path new move_to ≡ ok r
      → find_path path paths ≡ some state
      → Follows workspace paths files
      → (later : Disk) × (replaced files path move_to (some new) ≡ some later)
        × Follows workspace r later
  unfolding plan_text
  plan_text-run path new none paths r state files e f h = (
    put files path (some new),
    refl,
    subst (λ r. Follows workspace r (put files path (some new))) (ok_injective _ r e)
        (set-Follows workspace path (some new) paths state files f h),
  )
  plan_text-run path new (some dest) paths r state files e f h =
      plan_move-run path dest new paths r state files e f h

  plan_update-run :
      (path : Text) (move_to : Option Text) (hunks : List UpdateHunk) (paths : Paths)
      (r : Paths × PatchedFile) (files : Disk)
      → plan_update workspace paths path move_to hunks ≡ ok r
      → Follows workspace paths files
      → (later : Disk) × (run_op files (PatchOp.update_file path move_to hunks) ≡ some later)
        × Follows workspace r.0 later
  unfolding plan_update
  plan_update-run path move_to hunks paths r files e h =
      let (p, g, t) = bind-ok (ensure_planned_path workspace paths path) _ r e in
      let (k, c, f) = ensure-Follows workspace path paths p files g h in
      let (old, a, u) = bind-ok (ok_or (PlanError.missing path) p.1.current) _ r t in
      let (new, b, v) =
        bind-ok (ok_or (PlanError.context_not_found path) (apply_update_hunks old hunks)) _ r u in
      let (ps, d, w) = bind-ok (plan_text workspace p.0 path new move_to) _ r v in
      let (later, q, l) = plan_text-run path new move_to p.0 ps p.1 files d f k in
      (
        later,
        ap (λ o. replaced files path move_to (patched o hunks)) (sym c ∙ ok_or-ok _ _ old a)
            ∙ ap (replaced files path move_to) (ok_or-ok _ _ new b)
            ∙ q,
        subst (λ (r : Paths × PatchedFile). Follows workspace r.0 later) (ok_injective _ r w) l,
      )

  plan_op-run :
      (op : PatchOp) (paths : Paths) (r : Paths × PatchedFile) (files : Disk)
      → plan_op workspace paths op ≡ ok r
      → Follows workspace paths files
      → (later : Disk) × (run_op files op ≡ some later) × Follows workspace r.0 later
  unfolding plan_op
  plan_op-run (PatchOp.add_file path content) = plan_add-run path content
  plan_op-run (PatchOp.delete_file path) = plan_delete-run path
  plan_op-run (PatchOp.update_file path move_to hunks) = plan_update-run path move_to hunks

  plan_from-run :
      (ops : List PatchOp) (paths : Paths) (r : Paths × List PatchedFile) (files : Disk)
      → plan_from workspace paths ops ≡ ok r
      → Follows workspace paths files
      → (later : Disk) × (run_ops files ops ≡ some later) × Follows workspace r.0 later
  unfolding plan_from
  plan_from-run [] paths r files e h = (
    files,
    refl,
    subst (λ (r : Paths × List PatchedFile). Follows workspace r.0 files) (ok_injective _ r e) h,
  )
  plan_from-run (op ∷ ops) paths r files e h =
      let (p, g, t) = bind-ok (plan_op workspace paths op) _ r e in
      let (ps, i, u) = bind-ok (plan_from workspace p.0 ops) _ r t in
      let (next, k, f) = plan_op-run op paths p files g h in
      let (later, l, j) = plan_from-run ops p.0 ps next i f in
      (
        later,
        rw (k, run_ops) l,
        subst (λ (r : Paths × List PatchedFile). Follows workspace r.0 later) (ok_injective _ r u)
            j,
      )

  -- Where a patch can be planned, its operations can be run one after the other on the files as they
  -- are on disk; at each path, as the patch spells it, the plan holds what that run leaves, and each
  -- planned state was read from the disk.
  pub plan_patch-run :
      (ops : List PatchOp) (r : Paths × List PatchedFile)
      → plan_patch workspace ops ≡ ok r
      → (files : Disk) × (run_ops (on_disk workspace) ops ≡ some files)
        × Follows workspace r.0 files
  unfolding plan_patch Follows view find_path
  plan_patch-run ops r e = plan_from-run ops [] r (on_disk workspace) e (tt, tt, λ q. refl)
