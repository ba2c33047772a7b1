-- ===== src/Prelude/Orders.antt =====
-- Lists are well founded by their length, for loops that consume a queue.
use Prim.Native.Nat.{ℕ, zero, suc, ◌<◌}
use mathlib.Core.List.{List}
use mathlib.Core.WellFounded.{Acc}
use native.Mathlib.Omega.{arith}
use kiliax.Prelude.Lists.{length}

module _ {ℓ} {A : Type ℓ} where
  abbrev pub Shorter : List A → List A → Type 0
  Shorter xs ys = length xs < length ys

  Shorter-below : (k : ℕ) (xs : List A) → length xs < k → Acc Shorter xs
  Shorter-below zero xs h = elim h [ ]
  Shorter-below (suc k) xs h = Acc.intro xs (λ ys hy. Shorter-below k ys (omega arith))

  unfoldable pub shorter_acc : (xs : List A) → Acc Shorter xs
  unfolding Shorter-below
  shorter_acc xs = Shorter-below (suc (length xs)) xs (omega arith)
