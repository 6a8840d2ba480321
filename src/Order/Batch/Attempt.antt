-- ===== src/Order/Batch/Attempt.antt =====
-- A call that returns a value, returns an error, or panics.
use hedonify.Prelude.{Bool, true, false, Option, none, some, Outcome, ok, panic}
use hedonify.Order.Request.{Error}

pub data Attempt {ℓ} (A : Type ℓ) : Type ℓ where
  done : A → Attempt A
  failed : Error → Attempt A
  crashed : Attempt A

infixl 5 ◌>>=◌ ◌>>◌
abbrev pub ◌>>=◌ {ℓ κ} : {A : Type ℓ} {B : Type κ} → Attempt A → (A → Attempt B) → Attempt B
done a >>= f = f a
failed e >>= f = failed e
crashed >>= f = crashed

abbrev pub ◌>>◌ {ℓ} : {B : Type ℓ} → Attempt (Unit {0}) → Attempt B → Attempt B
m >> k = m >>= λ _. k

-- A call that fails when the connection does.
abbrev pub unless : Bool → Error → Attempt (Unit {0})
unless true e = failed e
unless false e = done tt

-- A statement, which the database may also refuse.
abbrev pub statement {ℓ} : {A : Type ℓ} → Bool → Error → Option A → Attempt A
statement true e r = failed e
statement false e none = failed e
statement false e (some a) = done a

abbrev pub no_error {ℓ} : {A : Type ℓ} → Outcome A → Attempt A
no_error (ok a) = done a
no_error panic = crashed
