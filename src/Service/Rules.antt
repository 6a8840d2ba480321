-- ===== src/Service/Rules.antt =====
-- Rules for the calls of the services: what holds after a run, by the cases of each call.
use hedonify.Prelude.{
  ◌≢◌, ℕ, ◌+◌, ◌≡◌, refl, ap, inl, inr, false, Option, none, some, Bool-cases, Option-cases,
}
use hedonify.Repository.Models.{Db}
use hedonify.Service.World.{World, Cache}
use hedonify.Service.Call.{
  Answer, ok, err, Error, Outside, M, pure, raise, attempt, ◌>>=◌, counted, read, read_all, write,
  cached, recache, ask, in_transaction, call_failed, no_rows, refused,
}

-- What holds of the answer and the world after a run.
pub record Ensures {A : Type 0} (m : M A) (w : World) (Q : Answer A → World → Type 0) : Type 0 where
  pub ensured : Q (m w).0 (m w).1

-- The rest of a run, after an answer.
abbrev pub After :
    {A B : Type 0} → (A → M B) → (Answer B → World → Type 0) → Answer A → World → Type 0
After f Q (ok a) w = Ensures (f a) w Q
After f Q (err e) w = Q (err e) w

module _ {A : Type 0} where
  abbrev pub RolledBack : Db → (Answer A → World → Type 0) → Answer A → World → Type 0
  RolledBack db Q (ok a) w = Q (ok a) w
  RolledBack db Q (err e) w = Q (err e) (record w { db = db })

  pub pure-Ensures :
      {a : A} {w : World} {Q : Answer A → World → Type 0} → Q (ok a) w → Ensures (pure a) w Q
  pure-Ensures h = record { ensured = h }

  pub raise-Ensures :
      {e : Error} {w : World} {Q : Answer A → World → Type 0} → Q (err e) w → Ensures (raise e) w Q
  raise-Ensures h = record { ensured = h }

pub bind-Ensures :
    {A B : Type 0} {m : M A} {f : A → M B} {w : World} {Q : Answer B → World → Type 0}
    → Ensures m w (After f Q)
    → Ensures (m >>= f) w Q
unfolding ◌>>=◌
bind-Ensures {A} {B} {m} {f} {w} {Q} h = record { ensured = go (m w) h.ensured }
  where
    go :
        (r : Answer A × World)
        → After f Q r.0 r.1
        → (let s : Answer B × World = elim r.0 [ ok a ↦ f a r.1 | err e ↦ (err e, r.1) ] in
            Q s.0 s.1)
    go (ok a, w') k = k.ensured
    go (err e, w') k = k

-- A bind on a call whose error is a value.
pub bind-Attempt :
    {A B : Type 0} {m : M A} {f : Answer A → M B} {w : World} {Q : Answer B → World → Type 0}
    → Ensures m w (λ r w'. Ensures (f r) w' Q)
    → Ensures (attempt m >>= f) w Q
unfolding ◌>>=◌ attempt
bind-Attempt h = record { ensured = h.ensured.ensured }

module _ (out : Outside) {A : Type 0} where
  pub read-Ensures :
      (f : Db → Option A) {w : World} {Q : Answer A → World → Type 0}
      → ((e : Error) → Q (err e) (counted w))
      → ((a : A) → f w.db ≡ some a → Q (ok a) (counted w))
      → Ensures (read out f) w Q
  unfolding read
  read-Ensures f {w} {Q} bad good = elim (Bool-cases (out.down w.calls)) [
    | inl down ↦ record { ensured = rw (read, down) (bad call_failed) }
    | inr up ↦ elim (Option-cases (f w.db)) [
      | inl none' ↦ record { ensured = rw (read, up, none') (bad no_rows) }
      | inr (a, some') ↦ record { ensured = rw (read, up, some') (good a some') }
    ]
  ]

  pub read_all-Ensures :
      (f : Db → A) {w : World} {Q : Answer A → World → Type 0}
      → ((e : Error) → Q (err e) (counted w))
      → Q (ok (f w.db)) (counted w)
      → Ensures (read_all out f) w Q
  unfolding read_all
  read_all-Ensures f {w} {Q} bad good = elim (Bool-cases (out.down w.calls)) [
    | inl down ↦ record { ensured = rw (read_all, down) (bad call_failed) }
    | inr up ↦ record { ensured = rw (read_all, up) good }
  ]

  pub write-Ensures :
      (f : ℕ → ℕ → Db → Option (A × Db)) {w : World} {Q : Answer A → World → Type 0}
      → ((e : Error) → Q (err e) (counted w))
      → ((a : A) (db : Db)
          → f (out.fresh w.calls) (out.now w.calls) w.db ≡ some (a, db)
          → Q (ok a) (record w { calls = w.calls + 1; db = db }))
      → Ensures (write out f) w Q
  unfolding write
  write-Ensures f {w} {Q} bad good = elim (Bool-cases (out.down w.calls)) [
    | inl down ↦ record { ensured = rw (write, down) (bad call_failed) }
    | inr up ↦ elim (Option-cases (f (out.fresh w.calls) (out.now w.calls) w.db)) [
      | inl none' ↦ record { ensured = rw (write, up, none') (bad refused) }
      | inr ((a, db), some') ↦ record { ensured = rw (write, up, some') (good a db some') }
    ]
  ]

  pub cached-Ensures :
      (f : Cache → Option A) {w : World} {Q : Answer (Option A) → World → Type 0}
      → Q (ok none) (counted w)
      → ((a : A) → f w.cache ≡ some a → Q (ok (some a)) (counted w))
      → Ensures (cached out f) w Q
  unfolding cached
  cached-Ensures f {w} {Q} absent there = elim (Bool-cases (out.down w.calls)) [
    | inl down ↦ record { ensured = rw (cached, down) absent }
    | inr up ↦ elim (Option-cases (f w.cache)) [
      | inl none' ↦ record { ensured = rw (cached, up, none') absent }
      | inr (a, some') ↦ record { ensured = rw (cached, up, some') (there a some') }
    ]
  ]

  pub ask-Ensures :
      (x : Error) (f : ℕ → Option A) {w : World} {Q : Answer A → World → Type 0}
      → Q (err x) (counted w)
      → ((a : A) → f w.calls ≡ some a → Q (ok a) (counted w))
      → Ensures (ask out x f) w Q
  unfolding ask
  ask-Ensures x f {w} {Q} bad good = elim (Option-cases (f w.calls)) [
    | inl none' ↦ record { ensured = rw (ask, none') bad }
    | inr (a, some') ↦ record { ensured = rw (ask, some') (good a some') }
  ]

pub recache-Ensures :
    (out : Outside) (f : Cache → Cache) {w : World} {Q : Answer (Unit {0}) → World → Type 0}
    → ((e : Error) → Q (err e) (counted w))
    → Q (ok tt) (record w { calls = w.calls + 1; cache = f w.cache })
    → Ensures (recache out f) w Q
unfolding recache
recache-Ensures out f {w} {Q} bad good = elim (Bool-cases (out.down w.calls)) [
  | inl down ↦ record { ensured = rw (recache, down) (bad call_failed) }
  | inr up ↦ record { ensured = rw (recache, up) good }
]

pub in_transaction-Ensures :
    {A : Type 0} {m : M A} {w : World} {Q : Answer A → World → Type 0}
    → Ensures m w (RolledBack w.db Q)
    → Ensures (in_transaction m) w Q
unfolding in_transaction
in_transaction-Ensures {A} {m} {w} {Q} h = record { ensured = go (m w) h.ensured }
  where
    go :
        (r : Answer A × World)
        → RolledBack w.db Q r.0 r.1
        → (let s = elim r.0 as (λ x. Answer A × World) [
          | ok a ↦ (ok a, r.1)
          | err e ↦ (err e, record r.1 { db = w.db })
        ] in
            Q s.0 s.1)
    go (ok a, w') k = k
    go (err e, w') k = k

pub err-ne-ok : {A : Type 0} (e : Error) (a : A) → err e ≢ ok a
err-ne-ok e a h = cc

pub ok-injective : {A : Type 0} {a b : A} → ok a ≡ ok b → a ≡ b
ok-injective e = cc

-- Runs where the calls succeed.
pub bind_ok :
    {A B : Type 0} (m : M A) (f : A → M B) (w w' : World) (a : A)
    → m w ≡ (ok a, w')
    → (m >>= f) w ≡ f a w'
unfolding ◌>>=◌
bind_ok {A} {B} m f w w' a e =
    ap
      (λ (r : Answer A × World). elim r.0 as (λ x. Answer B × World) [
        | ok b ↦ f b r.1
        | err x ↦ (err x, r.1)
      ])
      e

pub bind_attempt_ok :
    {A B : Type 0} (m : M A) (f : Answer A → M B) (w w' : World) (a : A)
    → m w ≡ (ok a, w')
    → (attempt m >>= f) w ≡ f (ok a) w'
unfolding ◌>>=◌ attempt
bind_attempt_ok {A} m f w w' a e = ap (λ (r : Answer A × World). f r.0 r.1) e

module _ (out : Outside) (w : World) (up : out.down w.calls ≡ false) where
  pub cached-up : {A : Type 0} (f : Cache → Option A) → cached out f w ≡ (ok (f w.cache), counted w)
  unfolding cached
  cached-up f = rw (cached, up) refl

  pub read-up :
      {A : Type 0} (f : Db → Option A) (a : A) → f w.db ≡ some a → read out f w ≡ (ok a, counted w)
  unfolding read
  read-up f a e = rw (read, up, e) refl

  pub recache-up :
      (f : Cache → Cache)
      → recache out f w ≡ (ok tt, record w { calls = w.calls + 1; cache = f w.cache })
  unfolding recache
  recache-up f = rw (recache, up) refl

pub ask-up :
    (out : Outside) (w : World) {A : Type 0} (x : Error) (f : ℕ → Option A) (a : A)
    → f w.calls ≡ some a
    → ask out x f w ≡ (ok a, counted w)
unfolding ask
ask-up out w x f a e = rw (ask, e) refl
