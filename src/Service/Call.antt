-- ===== src/Service/Call.antt =====
-- Calls of the database and of Redis: each may fail, and the services branch on the error.
use hedonify.Prelude.{ℕ, ◌+◌, Bool, true, false, Option, none, some}
use hedonify.Repository.Models.{Db}
use hedonify.Service.World.{World, Cache}

-- Where an error of a service comes from.
pub data Error : Type 0 where
  call_failed no_rows refused already_exists mapping_failed : Error
  user_not_found password_mismatch email_exist hash_failed sign_failed : Error
  request_failed not_created : Error

pub data Answer {ℓ} (A : Type ℓ) : Type ℓ where
  ok : A → Answer A
  err : Error → Answer A

-- What happens outside at each call: whether it fails, the identifier that it draws, the time.
pub record Outside : Type 0 where
  pub down : ℕ → Bool
  pub fresh : ℕ → ℕ
  pub now : ℕ → ℕ

abbrev pub M : Type 0 → Type 0
M A = World → Answer A × World

module _ {A : Type 0} where
  abbrev pub pure : A → M A
  pure a w = (ok a, w)

  abbrev pub raise : Error → M A
  raise e w = (err e, w)

  -- The error as a value, for a branch on `err`.
  unfoldable pub attempt : M A → M (Answer A)
  attempt m w = (ok (m w).0, (m w).1)

infixl 5 ◌>>=◌ ◌>>◌
unfoldable pub ◌>>=◌ : {A B : Type 0} → M A → (A → M B) → M B
◌>>=◌ m f w = let (r, w') = m w in elim r [ ok a ↦ f a w' | err e ↦ (err e, w') ]

abbrev pub ◌>>◌ : {A B : Type 0} → M A → M B → M B
m >> k = m >>= λ _. k

abbrev pub counted : World → World
counted w = record w { calls = w.calls + 1 }

module _ (out : Outside) where
  -- A query for one row.
  unfoldable pub read : {A : Type 0} → (Db → Option A) → M A
  read f w = elim (out.down w.calls) [
    | true ↦ (err call_failed, counted w)
    | false ↦ elim (f w.db) [ none ↦ (err no_rows, counted w) | some a ↦ (ok a, counted w) ]
  ]

  -- A query for many rows.
  unfoldable pub read_all : {A : Type 0} → (Db → A) → M A
  read_all f w = elim (out.down w.calls) [
    | true ↦ (err call_failed, counted w)
    | false ↦ (ok (f w.db), counted w)
  ]

  -- A statement that changes the tables, given what it draws and the time.
  unfoldable pub write : {A : Type 0} → (ℕ → ℕ → Db → Option (A × Db)) → M A
  write f w = elim (out.down w.calls) [
    | true ↦ (err call_failed, counted w)
    | false ↦ elim (f (out.fresh w.calls) (out.now w.calls) w.db) [
      | none ↦ (err refused, counted w)
      | some (a, db) ↦ (ok a, record w { calls = w.calls + 1; db = db })
    ]
  ]

  -- JSON.GET: nothing is found, or the call fails; the services do not tell these apart.
  unfoldable pub cached : {A : Type 0} → (Cache → Option A) → M (Option A)
  cached f w = elim (out.down w.calls) [
    | true ↦ (ok none, counted w)
    | false ↦ (ok (f w.cache), counted w)
  ]

  -- A command that changes the cache.
  unfoldable pub recache : (Cache → Cache) → M (Unit {0})
  recache f w = elim (out.down w.calls) [
    | true ↦ (err call_failed, counted w)
    | false ↦ (ok tt, record w { calls = w.calls + 1; cache = f w.cache })
  ]

  -- A call of another kind: it returns a value or fails.
  unfoldable pub ask : {A : Type 0} → Error → (ℕ → Option A) → M A
  ask e f w = elim (f w.calls) [ none ↦ (err e, counted w) | some a ↦ (ok a, counted w) ]

-- A transaction that is rolled back when what stands in it returns an error.
unfoldable pub in_transaction : {A : Type 0} → M A → M A
in_transaction m w =
    let (r, w') = m w in elim r [ ok a ↦ (ok a, w') | err e ↦ (err e, record w' { db = w.db }) ]
