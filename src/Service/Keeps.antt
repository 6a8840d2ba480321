-- ===== src/Service/Keeps.antt =====
-- What the statements keep of the tables, a run of calls keeps: a rule for each kind of call.
use hedonify.Prelude.{ℕ, ◌≡◌, Bool, true, false, Option, none, some}
use hedonify.Repository.Models.{Db}
use hedonify.Service.World.{World, Cache}
use hedonify.Service.Call.{
  Answer, ok, err, Error, Outside, M, pure, raise, attempt, ◌>>=◌, read, read_all, write, cached,
  recache, ask, in_transaction,
}
use hedonify.Service.Rules.{
  Ensures, After, RolledBack, bind-Ensures, read-Ensures, read_all-Ensures, write-Ensures,
  cached-Ensures, recache-Ensures, ask-Ensures, in_transaction-Ensures,
}

-- From tables with P, a run ends in tables with P, whether it answers or fails.
pub record Keeps (P : Db → Type 0) {A : Type 0} (m : M A) : Type 0 where
  pub keeps : (w : World) → P w.db → Ensures m w (λ r w'. P w'.db)

module _ {P : Db → Type 0} where
  module _ {A : Type 0} where
    pub pure-Keeps : (a : A) → Keeps P (pure a)
    pure-Keeps a = record { keeps = λ w h. record { ensured = h } }

    pub raise-Keeps : (e : Error) → Keeps P (raise {A = A} e)
    raise-Keeps e = record { keeps = λ w h. record { ensured = h } }

    pub attempt-Keeps : {m : M A} → Keeps P m → Keeps P (attempt m)
    unfolding attempt
    attempt-Keeps k = record { keeps = λ w h. record { ensured = (k.keeps w h).ensured } }

    pub bind-Keeps :
        {B : Type 0} {m : M B} {f : B → M A}
        → Keeps P m
        → ((b : B) → Keeps P (f b))
        → Keeps P (m >>= f)
    bind-Keeps {B} {m} {f} k l = record {
      keeps = λ w h. bind-Ensures (record { ensured = go (m w).0 (m w).1 (k.keeps w h).ensured });
    }
      where
        go : (r : Answer B) (w : World) → P w.db → After f (λ r w'. P w'.db) r w
        go (ok b) w h = (l b).keeps w h
        go (err e) w h = h

    -- A run goes on after a first part that keeps P.
    pub after-Keeps :
        {B : Type 0} {m : M B} {f : B → M A} {w : World} {Q : Answer A → World → Type 0}
        → Keeps P m
        → P w.db
        → ((e : Error) (v : World) → P v.db → Q (err e) v)
        → ((b : B) (v : World) → P v.db → Ensures (f b) v Q)
        → Ensures (m >>= f) w Q
    after-Keeps {B} {m} {f} {w} {Q} k h fails goes =
        bind-Ensures (record { ensured = go (m w).0 (m w).1 (k.keeps w h).ensured })
      where
        go : (r : Answer B) (v : World) → P v.db → After f Q r v
        go (ok b) v h' = goes b v h'
        go (err e) v h' = fails e v h'

    pub in_transaction-Keeps : {m : M A} → Keeps P m → Keeps P (in_transaction m)
    in_transaction-Keeps {m} k = record {
      keeps = λ w h.
          in_transaction-Ensures
            (record { ensured = go w h (m w).0 (m w).1 (k.keeps w h).ensured });
    }
      where
        go :
            (w : World)
            → P w.db
            → (r : Answer A) (w' : World) → P w'.db
            → RolledBack w.db (λ r w'. P w'.db) r w'
        go w h (ok a) w' h' = h'
        go w h (err e) w' h' = h

  module _ (out : Outside) {A : Type 0} where
    pub read-Keeps : (f : Db → Option A) → Keeps P (read out f)
    read-Keeps f = record { keeps = λ w h. read-Ensures out f (λ e. h) (λ a same. h) }

    pub read_all-Keeps : (f : Db → A) → Keeps P (read_all out f)
    read_all-Keeps f = record { keeps = λ w h. read_all-Ensures out f (λ e. h) h }

    pub write-Keeps :
        (f : ℕ → ℕ → Db → Option (A × Db))
        → ((fresh now : ℕ) (db db' : Db) (a : A) → f fresh now db ≡ some (a, db') → P db → P db')
        → Keeps P (write out f)
    write-Keeps f k = record {
      keeps = λ w h. write-Ensures out f (λ e. h) (λ a db' same. k _ _ w.db db' a same h);
    }

    pub cached-Keeps : (f : Cache → Option A) → Keeps P (cached out f)
    cached-Keeps f = record { keeps = λ w h. cached-Ensures out f h (λ a same. h) }

    pub ask-Keeps : (e : Error) (f : ℕ → Option A) → Keeps P (ask out e f)
    ask-Keeps e f = record { keeps = λ w h. ask-Ensures out e f h (λ a same. h) }

  pub recache-Keeps : (out : Outside) (f : Cache → Cache) → Keeps P (recache out f)
  recache-Keeps out f = record { keeps = λ w h. recache-Ensures out f (λ e. h) h }

  -- A run that goes on by the case of a value keeps P when each case does.
  module _ {A B : Type 0} where
    pub answer-Keeps :
        {f : A → M B} {g : Error → M B}
        → ((a : A) → Keeps P (f a))
        → ((e : Error) → Keeps P (g e))
        → (r : Answer A) → Keeps P (elim r [ ok a ↦ f a | err e ↦ g e ])
    answer-Keeps k l (ok a) = k a
    answer-Keeps k l (err e) = l e

    pub option-Keeps :
        {m : M B} {f : A → M B}
        → Keeps P m
        → ((a : A) → Keeps P (f a))
        → (o : Option A) → Keeps P (elim o [ none ↦ m | some a ↦ f a ])
    option-Keeps k l none = k
    option-Keeps k l (some a) = l a

  pub bool-Keeps :
      {B : Type 0} {m m' : M B}
      → Keeps P m
      → Keeps P m'
      → (b : Bool) → Keeps P (elim b [ true ↦ m | false ↦ m' ])
  bool-Keeps k l true = k
  bool-Keeps k l false = l
