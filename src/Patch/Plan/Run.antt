-- ===== src/Patch/Plan/Run.antt =====
-- The plan of a patch is its run on the files, operation by operation, by the paths as the patch
-- spells them.
use kiliax.Prelude.{
  ◌≡◌, refl, ap, subst, ◌∙◌, sym, List, [], ◌∷◌, Option, none, some, is_some, if◌then◌else◌,
  Bool-cases, Option-cases, inl, inr, none-some, All,
}
use mathlib.Core.Option
use kiliax.Text.Equal.{text_eq-≡, text_eq-same}
use kiliax.Text.{Text, text_eq}
use kiliax.Result.{ok, bind-ok, err-ok, ok_injective}
use kiliax.Patch.Hunks.{UpdateHunk}
use kiliax.Patch.Lines.{apply_update_hunks}
use kiliax.Patch.Disk.{Disk, PlannedPathState, put}
use kiliax.Patch.Plan.{
  PatchOp, Paths, find_path, text_before, insert_path, set_current, Workspace, fresh_state,
  ensure_planned_path,
}
use kiliax.Patch.Plan.Tables.{
  find_path-insert, find_path-set, IsDistinct, insert-IsDistinct, set-IsDistinct,
}

-- The operations on the files themselves, with no result where one cannot be done.
abbrev pub moved : Disk → Text → Text → Text → Option Disk
moved files path dest new =
    if text_eq dest path
    then some (put (put files path none) dest (some new))
    else if is_some (files dest)
    then none
    else some (put (put files path none) dest (some new))

abbrev pub replaced : Disk → Text → Option Text → Option Text → Option Disk
replaced files path move_to none = none
replaced files path none (some new) = some (put files path (some new))
replaced files path (some dest) (some new) = moved files path dest new

abbrev pub patched : Option Text → List UpdateHunk → Option Text
patched none hunks = none
patched (some old) hunks = apply_update_hunks old hunks

abbrev pub run_op : Disk → PatchOp → Option Disk
run_op files (PatchOp.add_file path content) =
    if is_some (files path) then none else some (put files path (some content))
run_op files (PatchOp.delete_file path) =
    if is_some (files path) then some (put files path none) else none
run_op files (PatchOp.update_file path move_to hunks) =
    replaced files path move_to (patched (files path) hunks)

abbrev pub run_ops : Disk → List PatchOp → Option Disk
run_ops files [] = some files
run_ops files (op ∷ ops) = elim (run_op files op) [ none ↦ none | some later ↦ run_ops later ops ]

abbrev pub current_or : Option Text → Option PlannedPathState → Option Text
current_or content none = content
current_or content (some s) = s.current

module _ (workspace : Workspace) where
  open workspace use {resolve, read_optional_text}

  -- The text on disk at a path, by the rules for paths.
  abbrev pub on_disk : Text → Option Text
  on_disk path = elim (resolve path) [
    | none ↦ none
    | some abs ↦ Option.get_or (read_optional_text abs) none
  ]

  -- What the plan has at a path.
  unfoldable pub view : Paths → Disk
  view paths path = current_or (on_disk path) (find_path path paths)

  -- A state of the plan is that of its path, and was read from the disk.
  unfoldable pub IsRead : Text × PlannedPathState → Type 0
  IsRead (path, state) =
      (resolve path ≡ some state.abs) × (read_optional_text state.abs ≡ some state.initial)

  fresh_state-ok :
      (path : Text) (state : PlannedPathState)
      → fresh_state workspace path ≡ ok state
      → IsRead (path, state) × (state.current ≡ on_disk path)
  unfolding fresh_state IsRead
  fresh_state-ok path state h = elim (Option-cases (resolve path)) [
    | inl e ↦ elim (err-ok _ state (rw (e, fresh_state) at h)) [ ]
    | inr (abs, e) ↦ elim (Option-cases (read_optional_text abs)) [
      | inl k ↦ elim (err-ok _ state (rw (e, k, fresh_state) at h)) [ ]
      | inr (initial, k) ↦
          let r : (record { abs = abs; initial = initial; current = initial }) ≡ state =
            ok_injective _ _ (rw (e, k, fresh_state) at h) in
          (
            (
              e ∙ ap (λ s. some s.abs) r,
              sym (ap (λ s. read_optional_text s.abs) r) ∙ k ∙ ap (λ s. some s.initial) r,
            ),
            sym (ap (λ s. s.current) r) ∙ rw (e, k, on_disk) refl,
          )
    ]
  ]

  abbrev pub AreRead : Paths → Type 0
  AreRead = All IsRead

  insert-AreRead :
      (path : Text) (state : PlannedPathState) (paths : Paths)
      → IsRead (path, state)
      → AreRead paths
      → AreRead (insert_path path state paths)
  unfolding insert_path
  insert-AreRead path state [] r h = (r, tt)
  insert-AreRead path state ((p, s) ∷ paths) r h = elim (Bool-cases (text_before path p)) [
    | inl e ↦ rw e (r, h)
    | inr e ↦ rw e (h.0, insert-AreRead path state paths r h.1)
  ]

  set-AreRead :
      (path : Text) (content : Option Text) (paths : Paths)
      → AreRead paths
      → AreRead (set_current path content paths)
  unfolding set_current IsRead
  set-AreRead path content [] h = tt
  set-AreRead path content ((p, s) ∷ paths) h = elim (Bool-cases (text_eq path p)) [
    | inl e ↦ rw e h
    | inr e ↦ rw e (h.0, set-AreRead path content paths h.1)
  ]

  view-insert :
      (path : Text) (state : PlannedPathState) (paths : Paths) (q : Text)
      → find_path path paths ≡ none
      → state.current ≡ on_disk path
      → view (insert_path path state paths) q ≡ view paths q
  unfolding view
  view-insert path state paths q n h =
      rw (find_path-insert path state paths q n) (elim (Bool-cases (text_eq q path)) [
        | inl e ↦
            let same : path ≡ q = sym (text_eq-≡ q path e) in
            rw e (
              h
              ∙ sym (ap (current_or (on_disk path)) n)
              ∙ ap (λ q. current_or (on_disk q) (find_path q paths)) same)
        | inr e ↦ rw e refl
      ])

  -- The plan holds what the files do, and was read from the disk.
  unfoldable pub Follows : Paths → Disk → Type 0
  Follows paths files = AreRead paths × IsDistinct paths × ((q : Text) → view paths q ≡ files q)

  view-set :
      (path : Text) (content : Option Text) (paths : Paths) (state : PlannedPathState)
      (files : Disk)
      → find_path path paths ≡ some state
      → ((q : Text) → view paths q ≡ files q)
      → (q : Text) → view (set_current path content paths) q ≡ put files path content q
  unfolding view put
  view-set path content paths state files n h q =
      rw (find_path-set path content paths q, n)
        (elim (Bool-cases (text_eq q path)) [ inl e ↦ rw e refl | inr e ↦ rw e (h q) ])

  pub set-Follows :
      (path : Text) (content : Option Text) (paths : Paths) (state : PlannedPathState)
      (files : Disk)
      → find_path path paths ≡ some state
      → Follows paths files
      → Follows (set_current path content paths) (put files path content)
  unfolding Follows
  set-Follows path content paths state files e h = (
    set-AreRead path content paths h.0,
    set-IsDistinct path content paths h.1,
    view-set path content paths state files e h.2,
  )

  find_path-inserted :
      (path : Text) (state : PlannedPathState) (paths : Paths)
      → find_path path paths ≡ none
      → find_path path (insert_path path state paths) ≡ some state
  find_path-inserted path state paths n =
      rw (find_path-insert path state paths path n, text_eq-same path) refl

  pub ensure-Follows :
      (path : Text) (paths : Paths) (r : Paths × PlannedPathState) (files : Disk)
      → ensure_planned_path workspace paths path ≡ ok r
      → Follows paths files
      → Follows r.0 files × (r.1.current ≡ files path) × (find_path path r.0 ≡ some r.1)
  unfolding Follows view ensure_planned_path
  ensure-Follows path paths r files e h = elim (Option-cases (find_path path paths)) [
    | inl n ↦
        let (s, f, t) =
          bind-ok (fresh_state workspace path) _ r (rw (n, ensure_planned_path) at e) in
        let (k, c) = fresh_state-ok path s f in
        subst
          (λ r. Follows r.0 files × (r.1.current ≡ files path) × (find_path path r.0 ≡ some r.1))
          (ok_injective _ _ t)
          (
            (
              insert-AreRead path s paths k h.0,
              insert-IsDistinct path s paths n h.1,
              λ q. view-insert path s paths q n c ∙ h.2 q,
            ),
            c ∙ sym (ap (current_or (on_disk path)) n) ∙ h.2 path,
            find_path-inserted path s paths n,
          )
    | inr (s, n) ↦
        subst
          (λ r. Follows r.0 files × (r.1.current ≡ files path) × (find_path path r.0 ≡ some r.1))
          (ok_injective _ _ (rw (n, ensure_planned_path) at e))
          (h, sym (ap (current_or (on_disk path)) n) ∙ h.2 path, n)
  ]

  pub ensure-find :
      (path : Text) (paths : Paths) (r : Paths × PlannedPathState) (q : Text)
      (state : PlannedPathState)
      → ensure_planned_path workspace paths path ≡ ok r
      → find_path q paths ≡ some state
      → find_path q r.0 ≡ some state
  unfolding ensure_planned_path
  ensure-find path paths r q state e f = elim (Option-cases (find_path path paths)) [
    | inl n ↦
        let (s, g, t) =
          bind-ok (fresh_state workspace path) _ r (rw (n, ensure_planned_path) at e) in
        subst (λ r. find_path q r.0 ≡ some state) (ok_injective _ _ t)
          (rw (find_path-insert path s paths q n) (elim (Bool-cases (text_eq q path)) [
            | inl k ↦
                elim (none-some state
                  (sym n ∙ ap (λ p. find_path p paths) (sym (text_eq-≡ q path k)) ∙ f)) [ ]
            | inr k ↦ rw k f
          ]))
    | inr (s, n) ↦
        subst (λ r. find_path q r.0 ≡ some state)
          (ok_injective _ _ (rw (n, ensure_planned_path) at e)) f
  ]
