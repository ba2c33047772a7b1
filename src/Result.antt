-- ===== src/Result.antt =====
-- The results of functions that can fail: `Result` of Rust.
use kiliax.Prelude.{◌≡◌, refl, ap, Bool, true, false, Option, none, some, if◌then◌else◌}

pub data Result {ℓ κ} (E : Type ℓ) (A : Type κ) : Type (ℓ ⊔ κ) where
  ok : A → Result E A
  err : E → Result E A

module _ {ℓ} {E : Type ℓ} where
  infixl 5 ◌>>=◌
  abbrev pub ◌>>=◌ {κ μ} : {A : Type κ} {B : Type μ} → Result E A → (A → Result E B) → Result E B
  ok a >>= f = f a
  err e >>= f = err e

  -- `ok_or_else`
  abbrev pub ok_or {κ} : {A : Type κ} → E → Option A → Result E A
  ok_or e none = err e
  ok_or e (some a) = ok a

  pub bind-ok {κ μ} :
      {A : Type κ} {B : Type μ} (x : Result E A) (f : A → Result E B) (b : B)
      → (x >>= f) ≡ ok b
      → (a : A) × (x ≡ ok a) × (f a ≡ ok b)
  bind-ok (ok a) f b h = (a, refl, h)
  bind-ok (err e) f b h = cc

  pub ok_injective {κ} : {A : Type κ} (a b : A) → ◌≡◌ {A = Result E A} (ok a) (ok b) → a ≡ b
  ok_injective a b h = cc

  pub err-ok {κ} : {A : Type κ} (e : E) (a : A) → err e ≡ ok a → ⊥
  err-ok e a h = cc

  pub unless-ok {κ} :
      {A : Type κ} (b : Bool) (e : E) (x y : A)
      → (if b then err e else ok x) ≡ ok y
      → (x ≡ y) × (b ≡ false)
  unless-ok true e x y k = elim (err-ok e y k) [ ]
  unless-ok false e x y k = (ok_injective x y k, refl)

  -- The same, with more to come.
  pub guard-ok {κ} :
      {A : Type κ} (b : Bool) (e : E) (x : Result E A) (y : A)
      → (if b then err e else x) ≡ ok y
      → (b ≡ false) × (x ≡ ok y)
  guard-ok true e x y k = elim (err-ok e y k) [ ]
  guard-ok false e x y k = (refl, k)

  pub ok_or-ok {κ} : {A : Type κ} (e : E) (o : Option A) (a : A) → ok_or e o ≡ ok a → o ≡ some a
  ok_or-ok e none a h = elim (err-ok e a h) [ ]
  ok_or-ok e (some b) a h = ap some (ok_injective b a h)
