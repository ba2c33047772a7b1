-- ===== src/Tools/Paths/Confined.antt =====
-- A path that the rules let through lies under one of the roots.
use kiliax.Prelude.{
  ◌≡◌, ◌⊎◌, refl, ap, ◌∙◌, sym, subst, Bool, true, false, not, List, [], ◌∷◌, some, if◌then◌else◌,
  any, length, arith, ◌||◌, or_right, Bool-cases, Option-cases, inl, inr,
}
use mathlib.Core.List.{Mem, mem-cons_of_mem, mem-cons_self}
use kiliax.Text.{Text}
use kiliax.Result.{ok, ok_or, bind-ok, ok_injective, guard-ok, unless-ok, ok_or-ok}
use kiliax.Tools.Paths.{
  FilePath, PathError, FileSystem, is_parent_dir, path_of_text, join, path_starts_with,
  nearest_existing_ancestor, canonical_roots, checked_path, resolve_path_under_roots,
}
use kiliax.Tools.Paths.Nearest.{IsNearest, NoneExists, Searched, self, nearest_from-Searched}

true-false : true ≡ false → ⊥
true-false h = cc

not-not : (b : Bool) → not b ≡ false → b ≡ true
not-not b h = ground arith

module _ (fs : FileSystem) where
  open fs use {exists, canonicalize}

  canonical_roots-of :
      (roots out : List FilePath) (test : FilePath → Bool)
      → canonical_roots fs roots ≡ ok out
      → any test out ≡ true
      → (root : FilePath) × (real : FilePath) × Mem root roots
        × (canonicalize root ≡ some real)
        × (test real ≡ true)
  unfolding canonical_roots
  canonical_roots-of [] out test h t =
      elim (true-false (sym t ∙ ap (any test) (sym (ok_injective [] out h)))) [ ]
  canonical_roots-of (root ∷ roots) out test h t = elim (Bool-cases (exists root)) [
    | inr e ↦
        let (r, real, m, c, w) = canonical_roots-of roots out test (rw e at h) t in
        (r, real, mem-cons_of_mem root m, c, w)
    | inl e ↦
        let (first, a, u) = bind-ok (ok_or PathError.io (canonicalize root)) _ out (rw e at h) in
        let (rest, b, v) = bind-ok (canonical_roots fs roots) _ out u in
        let k : test first || any test rest ≡ true =
          ap (any test) (ok_injective (first ∷ rest) out v) ∙ t in
        elim (Bool-cases (test first)) [
          | inl w ↦ (root, first, mem-cons_self, ok_or-ok _ _ first a, w)
          | inr w ↦
              let (r, real, m, c, x) = canonical_roots-of roots rest test b (or_right _ _ w k) in
              (r, real, mem-cons_of_mem root m, c, x)
        ]
  ]

  -- What is looked at for a path.
  abbrev pub IsLookedAt : FilePath → FilePath → FilePath → Type 0
  IsLookedAt base_root candidate looked =
      IsNearest fs candidate looked ⊎ (NoneExists fs candidate × (looked ≡ base_root))

  checked_path-IsLookedAt :
      (base_root candidate : FilePath)
      → IsLookedAt base_root candidate (checked_path fs base_root candidate)
  unfolding checked_path nearest_existing_ancestor
  checked_path-IsLookedAt base_root candidate = elim (Bool-cases (exists candidate)) [
    | inl e ↦ rw (e, checked_path) (inl (self fs candidate e))
    | inr e ↦
        let found : Searched fs candidate (nearest_existing_ancestor fs candidate) =
          nearest_from-Searched fs (length candidate.components) candidate (omega arith) in
        elim (Option-cases (nearest_existing_ancestor fs candidate)) [
          | inl n ↦ rw (e, n, checked_path) (inr (subst (Searched fs candidate) n found, refl))
          | inr (up, n) ↦ rw (e, n, checked_path) (inl (subst (Searched fs candidate) n found))
        ]
  ]

  -- A path that is let through has no `..` in it, and the real path of its longest existing ancestor,
  -- which is the path itself if that exists, lies under the real path of one of the allowed roots;
  -- where none of its ancestors exists, the base root is looked at in their place.
  pub resolve_path_under_roots-confined :
      (base_root : FilePath) (path : Text) (roots : List FilePath) (candidate : FilePath)
      → resolve_path_under_roots fs base_root path roots ≡ ok candidate
      → (any is_parent_dir candidate.components ≡ false)
        × (looked : FilePath) × (real : FilePath) × (root : FilePath) × (real_root : FilePath)
        × IsLookedAt base_root candidate looked
        × (canonicalize looked ≡ some real)
        × Mem root roots
        × (canonicalize root ≡ some real_root)
        × (path_starts_with real real_root ≡ true)
  unfolding resolve_path_under_roots
  resolve_path_under_roots-confined base_root path roots candidate h =
      let input : FilePath = path_of_text path in
      let c : FilePath = if input.is_absolute then input else join base_root input in
      let (p, t) =
        guard-ok (any is_parent_dir c.components) PathError.parent_dir_in _ candidate h in
      let (out, a, u) = bind-ok (canonical_roots fs roots) _ candidate t in
      let (real, b, v) =
        bind-ok (ok_or PathError.io (canonicalize (checked_path fs base_root c))) _ candidate u in
      let (same, w) =
        unless-ok (not (any (path_starts_with real) out)) PathError.out_of_roots c candidate v in
      let (root, real_root, m, r, s) =
        canonical_roots-of roots out (path_starts_with real) a (not-not _ w) in
      subst
        (λ (candidate : FilePath).
          (any is_parent_dir candidate.components ≡ false)
          × (looked : FilePath) × (real : FilePath) × (root : FilePath) × (real_root : FilePath)
          × IsLookedAt base_root candidate looked
          × (canonicalize looked ≡ some real)
          × Mem root roots
          × (canonicalize root ≡ some real_root)
          × (path_starts_with real real_root ≡ true))
        same
        (
          p,
          checked_path fs base_root c,
          real,
          root,
          real_root,
          checked_path-IsLookedAt base_root c,
          ok_or-ok _ _ real b,
          m,
          r,
          s,
        )
