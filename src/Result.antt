-- ===== src/Result.antt =====
-- Results of code that may raise. The exceptions are the two groups that the program's handlers tell
-- apart: `invalid` is a ValueError, TypeError or KeyError with its message, `failed` an OSError, a
-- RuntimeError or a subprocess error.
use re_remote_dev.Prelude.{String, refl, ◌≡◌}

pub data Exc : Type 0 where
  invalid : String → Exc
  failed : String → Exc

pub data Result {ℓ} (A : Type ℓ) : Type ℓ where
  ok : A → Result A
  err : Exc → Result A

infixl 5 ◌>>=◌ ◌>>◌
abbrev pub ◌>>=◌ {ℓ κ} : {A : Type ℓ} {B : Type κ} → Result A → (A → Result B) → Result B
ok a >>= f = f a
err e >>= f = err e

abbrev pub ◌>>◌ {ℓ κ} : {A : Type ℓ} {B : Type κ} → Result A → Result B → Result B
m >> k = m >>= λ _. k

-- A successful bind had a successful first part.
pub >>=-eq-ok {ℓ κ} :
    {A : Type ℓ} {B : Type κ} (m : Result A) (f : A → Result B) (b : B)
    → (m >>= f) ≡ ok b
    → (a : A) × (m ≡ ok a) × (f a ≡ ok b)
>>=-eq-ok (ok a) f b h = (a, refl, h)
>>=-eq-ok (err e) f b h = cc
