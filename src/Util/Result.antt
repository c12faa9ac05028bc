-- ===== src/Util/Result.antt =====
-- util/result.h: a value or an error message. `Result<void>` has the unit for a value.
use Prim.Native.String
use k_watch.Prelude.{String, Bool, true, false, ◌≡◌, refl, if◌then◌else◌}

pub data Result {ℓ} (A : Type ℓ) : Type ℓ where
  ok : A → Result A
  err : String → Result A

abbrev pub is_ok {ℓ} : {A : Type ℓ} → Result A → Bool
is_ok (ok a) = true
is_ok (err e) = false

infixl 5 ◌>>=◌
abbrev pub ◌>>=◌ {ℓ κ} : {A : Type ℓ} {B : Type κ} → Result A → (A → Result B) → Result B
ok a >>= f = f a
err e >>= f = err e

-- `std::string + std::string`
infixr 65 ◌<>◌
abbrev pub ◌<>◌ : String → String → String
a <> b = String.◌++◌ a b

-- What holds of the state behind an early return that was not taken.
pub by_refusal {ℓ κ μ} :
    {A : Type ℓ} {W : Type κ} (P : W → Type μ) (p : Bool) (e : String) (w : W) (s : Result A × W)
    (a : A)
    → (p ≡ false → s.0 ≡ ok a → P s.1)
    → (if p then (err e, w) else s).0 ≡ ok a
    → P (if p then (err e, w) else s).1
by_refusal P true e w s a k r = cc
by_refusal P false e w s a k r = k refl r
