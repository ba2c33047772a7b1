-- ===== src/Prelude/Machine.antt =====
-- `u64` and `usize` of a 64-bit target, and the decimal form that `format!` writes.
use Prim.Native.Nat.{ℕ, zero, suc, ◌+◌, ◌-◌, ◌^◌, ◌/◌, ◌%◌, min}
use mathlib.Core.List.{List, [], ◌∷◌}
use kiliax.Prelude.Tests.{ltb, if◌then◌else◌}

abbrev pub max_u64 : ℕ
max_u64 = 2 ^ 64 - 1

-- `u64::saturating_add` and `usize::saturating_add`
unfoldable pub saturating_add : ℕ → ℕ → ℕ
saturating_add a b = min (a + b) max_u64

-- The digits of `n` before `acc`; `fuel` is more than `n`.
digits : ℕ → ℕ → List ℕ → List ℕ
digits zero n acc = acc
digits (suc fuel) n acc =
    let d = (b'0' + n % 10) ∷ acc in
    let rest = digits fuel (n / 10) d in if ltb n 10 then d else rest

unfoldable pub decimal : ℕ → List ℕ
unfolding digits
decimal n = digits (suc n) n []
