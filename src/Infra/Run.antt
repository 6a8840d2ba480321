-- ===== src/Infra/Run.antt =====
-- The run of a command up to its end: what it opens and closes, a call that never returns, and
-- logger.Fatal, which ends the process without the deferred calls.
use hedonify.Prelude.{ℕ, List, [], ◌∷◌, ◌++◌, Option, true, false, Bool}
use hedonify.Infra.Schema.{Schema}

pub data Resource : Type 0 where
  tracer_provider meter_provider database cache queue server worker : Resource

-- `acquires server` is ListenAndServe that listens, and `releases server` is a Shutdown after which
-- no handler runs; `abandons server` is a Shutdown that returns before that, and `releases worker`
-- is the end of wg.Wait.
pub data Event : Type 0 where
  acquires releases abandons : Resource → Event

-- The database, with the version that golang-migrate keeps in schema_migrations.
pub record Migrated : Type 0 where
  pub version : ℕ
  pub schema : Schema

-- The variable pool of internal/infra, which dbOnce sets once, the connections that were taken from
-- the pool and not given back, and the database outside.
pub record System : Type 0 where
  pub pool : Option ℕ
  pub in_use : ℕ
  pub migrated : Migrated

-- A run that hangs waits for ever in a call: neither what follows nor a deferred call is made.
pub data Run (A : Type 0) : Type 0 where
  returned : List Event → A → System → Run A
  hangs : List Event → System → Run A
  exited : List Event → System → Run A

abbrev pub Command : Type 0 → Type 0
Command A = System → Run A

module _ {A : Type 0} where
  abbrev pub pure : A → Command A
  pure a s = returned [] a s

  -- `logger.Fatal`
  abbrev pub fatal : Command A
  fatal s = exited [] s

  abbrev pub after : List Event → Run A → Run A
  after es (returned fs a s) = returned (es ++ fs) a s
  after es (hangs fs s) = hangs (es ++ fs) s
  after es (exited fs s) = exited (es ++ fs) s

abbrev pub event : Event → Command (Unit {0})
event e s = returned (e ∷ []) tt s

abbrev pub update : (System → System) → Command (Unit {0})
update f s = returned [] tt (f s)

abbrev pub current : {A : Type 0} → (System → A) → Command A
current f s = returned [] (f s) s

infixl 5 ◌>>=◌ ◌>>◌
unfoldable pub ◌>>=◌ : {A B : Type 0} → Command A → (A → Command B) → Command B
◌>>=◌ c k s = elim (c s) [
  | returned es a s' ↦ after es (k a s')
  | hangs es s' ↦ hangs es s'
  | exited es s' ↦ exited es s'
]

abbrev pub ◌>>◌ : {A B : Type 0} → Command A → Command B → Command B
c >> k = c >>= λ _. k

-- A body under `defer close()`: the deferred call runs when the body returns.
unfoldable pub deferring : {A : Type 0} → Command (Unit {0}) → Command A → Command A
deferring close body = body >>= λ a. close >>= λ _. pure a

-- A call whose error is logged by logger.Fatal.
unfoldable pub must : Bool → Command (Unit {0})
must true = pure tt
must false = fatal
