-- ===== src/Patch/Disk.antt =====
-- `apply_planned_paths` and `rollback_paths` of crates/kiliax-core/src/tools/builtin/apply_patch.rs.
-- The disk gives the text at an absolute path, where there is a file; the directories that a write
-- makes are left out.
use kiliax.Prelude.{
  or_false, ℕ, suc, ◌≡◌, refl, ap, ◌∙◌, sym, Bool, true, false, ◌||◌, not, List, [], ◌∷◌, Option,
  none, some, if◌then◌else◌, any, retain, All, Bool-cases, inl, inr,
}
use kiliax.Text.Equal.{text_eq-≡}
use kiliax.Text.{Text, text_eq}

abbrev pub Disk : Type 0
Disk = Text → Option Text

pub record PlannedPathState : Type 0 where
  pub abs : Text
  pub initial : Option Text
  pub current : Option Text

abbrev pub same_content : Option Text → Option Text → Bool
same_content none none = true
same_content (some s) (some t) = text_eq s t
same_content _ _ = false

-- `PlannedPathState::changed`
unfoldable pub changed : PlannedPathState → Bool
changed state = not (same_content state.initial state.current)

-- How a write ends: whole, or with an error that leaves something else at the path.
pub data Write : Type 0 where
  done : Write
  broken : Option Text → Write

unfoldable pub put : Disk → Text → Option Text → Disk
put disk path content = λ p. if text_eq p path then content else disk p

-- `write_path_content` and `remove_path_if_exists`; the content is absent for a removal.
unfoldable pub write_content : Disk → Text → Option Text → Write → Disk
write_content disk path content Write.done = put disk path content
write_content disk path content (Write.broken left) = put disk path left

-- The loop of `rollback_paths`, over the states in the order in which they are put back. An error is
-- logged, and the loop goes on.
unfoldable pub rollback_paths : (ℕ → Write) → ℕ → List PlannedPathState → Disk → Disk
rollback_paths writes n [] disk = disk
rollback_paths writes n (state ∷ states) disk =
    rollback_paths writes (suc n) states (write_content disk state.abs state.initial (writes n))

-- What is on disk at the end, and whether the application succeeded.
pub record Applied : Type 0 where
  pub disk : Disk
  pub ok : Bool

-- The result of a write: the rest of the loop, or the rollback of the states written so far, newest
-- first, with the failed one.
unfoldable pub after_write :
    Write → (ℕ → Write) → PlannedPathState → List PlannedPathState → Disk → Applied → Applied
after_write Write.done restores state applied disk rest = rest
after_write (Write.broken left) restores state applied disk rest = record {
  disk = rollback_paths restores 0 (state ∷ applied) disk;
  ok = false;
}

-- The loop of `apply_planned_paths`, with the states applied so far, newest first. `writes` tells how
-- the n-th write ends, and `restores` how the n-th write of a rollback does.
unfoldable pub apply_from :
    (ℕ → Write) → (ℕ → Write) → ℕ → List PlannedPathState → Disk → List PlannedPathState → Applied
apply_from writes restores n applied disk [] = record { disk = disk; ok = true }
apply_from writes restores n applied disk (state ∷ states) =
    let written = write_content disk state.abs state.current (writes n) in
    after_write (writes n) restores state applied written
      (apply_from writes restores (suc n) (state ∷ applied) written states)

unfoldable pub apply_planned_paths :
    (ℕ → Write) → (ℕ → Write) → Disk → List PlannedPathState → Applied
apply_planned_paths writes restores disk planned =
    apply_from writes restores 0 [] disk (retain changed planned)

-- What the last of the states for `path` writes there, and `content` where there is none.
abbrev pub last_write : Text → List PlannedPathState → Option Text → Option Text
last_write path [] content = content
last_write path (s ∷ states) content =
    last_write path states (if text_eq path s.abs then s.current else content)

abbrev pub touches : Text → List PlannedPathState → Bool
touches path = any (λ s. text_eq path s.abs)

-- The states were read from this disk.
abbrev pub ReadFrom : Disk → List PlannedPathState → Type 0
ReadFrom disk = All (λ s. s.initial ≡ disk s.abs)

restored {ℓ} :
    {A : Type ℓ} (e t : Bool) (start initial before : A)
    → (e ≡ true → initial ≡ start)
    → (if t then start else if e then initial else before) ≡ (if e || t then start else before)
restored true true start initial before h = refl
restored true false start initial before h = h refl
restored false true start initial before h = refl
restored false false start initial before h = refl

rollback-restores :
    (restores : ℕ → Write)
    → ((n : ℕ) → restores n ≡ Write.done)
    → (start : Disk) (n : ℕ) (states : List PlannedPathState) (disk : Disk) → ReadFrom start states
    → (path : Text)
    → rollback_paths restores n states disk path
      ≡ (if touches path states then start path else disk path)
unfolding rollback_paths write_content put
rollback-restores restores r start n [] disk h path = refl
rollback-restores restores r start n (s ∷ states) disk h path =
    ap (λ w. rollback_paths restores (suc n) states (write_content disk s.abs s.initial w) path)
      (r n)
    ∙ rollback-restores restores r start (suc n) states (put disk s.abs s.initial) h.1 path
    ∙ restored (text_eq path s.abs) (touches path states) (start path) s.initial (disk path)
        (λ e. h.0 ∙ ap start (sym (text_eq-≡ path s.abs e)))

after_write-ok :
    (w : Write) (restores : ℕ → Write) (s : PlannedPathState) (applied : List PlannedPathState)
    (disk : Disk) (rest : Applied)
    → (after_write w restores s applied disk rest).ok ≡ true
    → (w ≡ Write.done) × (after_write w restores s applied disk rest ≡ rest)
unfolding after_write
after_write-ok Write.done restores s applied disk rest h = (refl, refl)
after_write-ok (Write.broken left) restores s applied disk rest h = cc

apply_from-last :
    (writes restores : ℕ → Write) (n : ℕ) (applied : List PlannedPathState) (disk : Disk)
    (states : List PlannedPathState)
    → (apply_from writes restores n applied disk states).ok ≡ true
    → (path : Text)
    → (apply_from writes restores n applied disk states).disk path
      ≡ last_write path states (disk path)
unfolding apply_from write_content put
apply_from-last writes restores n applied disk [] h path = refl
apply_from-last writes restores n applied disk (s ∷ states) h path =
    let written = write_content disk s.abs s.current (writes n) in
    let (w, q) = after_write-ok (writes n) restores s applied written _ h in
    ap (λ r. r.disk path) q
    ∙ apply_from-last writes restores (suc n) (s ∷ applied) written states
        (sym (ap (λ r. r.ok) q) ∙ h) path
    ∙ ap (λ w. last_write path states (write_content disk s.abs s.current w path)) w

put-elsewhere :
    (disk : Disk) (abs : Text) (content : Option Text) (path : Text)
    → text_eq path abs ≡ false
    → put disk abs content path ≡ disk path
unfolding put
put-elsewhere disk abs content path e = rw e refl

module _ (restores : ℕ → Write) (r : (n : ℕ) → restores n ≡ Write.done) (start : Disk) where
  -- Where nothing has been applied, the disk is as at the start.
  Untouched : List PlannedPathState → Disk → Type 0
  Untouched applied disk = (path : Text) → touches path applied ≡ false → disk path ≡ start path

  put-Untouched :
      (s : PlannedPathState) (applied : List PlannedPathState) (disk : Disk) (content : Option Text)
      → Untouched applied disk
      → Untouched (s ∷ applied) (put disk s.abs content)
  unfolding Untouched
  put-Untouched s applied disk content u path t =
      let (e, k) = or_false (text_eq path s.abs) (touches path applied) t in
      put-elsewhere disk s.abs content path e ∙ u path k

  rollback-start :
      (states : List PlannedPathState) (disk : Disk)
      → ReadFrom start states
      → Untouched states disk
      → (path : Text) → rollback_paths restores 0 states disk path ≡ start path
  unfolding Untouched
  rollback-start states disk h u path = elim (Bool-cases (touches path states)) [
    | inl e ↦ rollback-restores restores r start 0 states disk h path ∙ rw e refl
    | inr e ↦ rollback-restores restores r start 0 states disk h path ∙ rw e (u path e)
  ]

  -- The result of one write: it is undone, or the rest of the loop is.
  after_write-undone :
      (w : Write) (s : PlannedPathState) (applied : List PlannedPathState) (disk : Disk)
      (rest : Applied)
      → ReadFrom start (s ∷ applied)
      → Untouched applied disk
      → (rest.ok ≡ false → (path : Text) → rest.disk path ≡ start path)
      → (after_write w restores s applied (write_content disk s.abs s.current w) rest).ok ≡ false
      → (path : Text)
      → (after_write w restores s applied (write_content disk s.abs s.current w) rest).disk path
        ≡ start path
  unfolding after_write write_content
  after_write-undone Write.done s applied disk rest h u k e path = k e path
  after_write-undone (Write.broken left) s applied disk rest h u k e path =
      rollback-start (s ∷ applied) (put disk s.abs left) h (put-Untouched s applied disk left u)
        path

  write-Untouched :
      (w : Write) (s : PlannedPathState) (applied : List PlannedPathState) (disk : Disk)
      → Untouched applied disk
      → Untouched (s ∷ applied) (write_content disk s.abs s.current w)
  unfolding write_content
  write-Untouched Write.done s applied disk u = put-Untouched s applied disk s.current u
  write-Untouched (Write.broken left) s applied disk u = put-Untouched s applied disk left u

  apply_from-undone :
      (writes : ℕ → Write) (n : ℕ) (applied : List PlannedPathState) (disk : Disk)
      (states : List PlannedPathState)
      → ReadFrom start applied
      → ReadFrom start states
      → Untouched applied disk
      → (apply_from writes restores n applied disk states).ok ≡ false
      → (path : Text) → (apply_from writes restores n applied disk states).disk path ≡ start path
  unfolding apply_from
  apply_from-undone writes n applied disk [] ha hs u e path = cc
  apply_from-undone writes n applied disk (s ∷ states) ha hs u e path =
      after_write-undone (writes n) s applied disk _ (hs.0, ha) u
        (apply_from-undone writes (suc n) (s ∷ applied) _ states (hs.0, ha) hs.1
          (write-Untouched (writes n) s applied disk u))
        e path

retain-ReadFrom :
    (disk : Disk) (states : List PlannedPathState)
    → ReadFrom disk states
    → ReadFrom disk (retain changed states)
retain-ReadFrom disk [] h = tt
retain-ReadFrom disk (s ∷ states) h = elim (Bool-cases (changed s)) [
  | inl e ↦ rw e (h.0, retain-ReadFrom disk states h.1)
  | inr e ↦ rw e (retain-ReadFrom disk states h.1)
]

-- When an application succeeds, each path holds what the last changed state for it writes, and every
-- other path is as before.
pub apply_planned_paths-last :
    (writes restores : ℕ → Write) (disk : Disk) (planned : List PlannedPathState)
    → (apply_planned_paths writes restores disk planned).ok ≡ true
    → (path : Text)
    → (apply_planned_paths writes restores disk planned).disk path
      ≡ last_write path (retain changed planned) (disk path)
unfolding apply_planned_paths
apply_planned_paths-last writes restores disk planned =
    apply_from-last writes restores 0 [] disk (retain changed planned)

-- When an application fails, every path is as before, whatever the failed write left behind; where
-- the states were read from this disk and the writes of the rollback succeed.
pub apply_planned_paths-undone :
    (writes restores : ℕ → Write) (disk : Disk) (planned : List PlannedPathState)
    → ReadFrom disk planned
    → ((n : ℕ) → restores n ≡ Write.done)
    → (apply_planned_paths writes restores disk planned).ok ≡ false
    → (path : Text) → (apply_planned_paths writes restores disk planned).disk path ≡ disk path
unfolding apply_planned_paths Untouched
apply_planned_paths-undone writes restores disk planned h r =
    apply_from-undone restores r disk writes 0 [] disk (retain changed planned) tt
      (retain-ReadFrom disk planned h) (λ path t. refl)
