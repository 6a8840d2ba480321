-- ===== src/User/Registration.antt =====
-- What Register leaves in the table of users, and that Login then admits the user.
use Prim.Native.String.{String}
use text.Mathlib.Text.{◌==◌ as str_eq}
use text.Mathlib.TextPositions.{eq_refl}
use mathlib.Core.Option
use hedonify.Prelude.{
  none-ne-some, ℕ, ◌+◌, ◌≡◌, ◌≢◌, refl, sym, ◌∙◌, inl, inr, ◌||◌, Bool, true, false, List, [], ◌∷◌,
  ◌++◌, none, some, arith, ◌==◌, Bool-cases, find_first, any_of, subst,
}
use hedonify.Prelude.Map.{insert}
use hedonify.Repository.Models.{overflows, User, Db}
use hedonify.Repository.Users.{InsertUserParams, find_by_email, insert_user}
use hedonify.Service.World.{World}
use hedonify.Service.Call.{
  Answer, ok, err, Error, Outside, pure, attempt, ◌>>=◌, counted, recache, hash_failed, email_exist,
}
use hedonify.Service.Rules.{
  err-ne-ok, ok-injective, Ensures, pure-Ensures, raise-Ensures, bind-Ensures, bind-Attempt,
  read-Ensures, write-Ensures, ask-Ensures, recache-Ensures,
}
use hedonify.User.Request.{Register}
use hedonify.User.Service.{Crypto, register_new, register}

-- The row of a new address is found by it.
append-found :
    (email : String) (row : User) (users : List User) (test : User → Bool)
    → any_of test users ≡ false
    → ((u : User) → test u ≡ false → str_eq email u.email ≡ false)
    → str_eq email row.email ≡ true
    → find_first (λ u. str_eq email u.email) (users ++ row ∷ []) ≡ some row
append-found email row [] test absent covers same = rw same refl
append-found email row (u ∷ users) test absent covers same = elim (Bool-cases (test u)) [
  | inl yes' ↦ absurd (clash (test u) (any_of test users) yes' absent)
  | inr no' ↦
      rw (covers u no') (
        append-found email row users test (rest (test u) (any_of test users) no' absent) covers
          same)
]
  where
    clash : (a b : Bool) → a ≡ true → (a || b) ≢ false
    clash a b h k = ground arith

    rest : (a b : Bool) → a ≡ false → (a || b) ≡ false → b ≡ false
    rest a b h k = ground arith

insert_user-found :
    (fresh : ℕ) (arg : InsertUserParams) (db db' : Db) (user : User)
    → insert_user fresh arg db ≡ some (user, db')
    → (user.password ≡ arg.password) × (find_by_email arg.email db' ≡ some user)
unfolding insert_user find_by_email
insert_user-found fresh arg db db' user e = elim (Bool-cases taken) [
  | inl yes' ↦ absurd (none-ne-some {o = insert_user fresh arg db} (rw (insert_user, yes') refl) e)
  | inr no' ↦
      let row : User = record {
        id = fresh;
        username = arg.username;
        email = arg.email;
        password = arg.password;
        created_at = arg.created_at;
        updated_at = arg.updated_at;
      } in
      let made : insert_user fresh arg db ≡ some (row, record db { users = db.users ++ row ∷ [] }) =
        elim (Bool-cases too_long) [
          | inl long ↦
              absurd
                (none-ne-some {o = insert_user fresh arg db} (rw (insert_user, no', long) refl) e)
          | inr fits ↦ rw (insert_user, no', fits) refl
        ] in
      let same : (row, record db { users = db.users ++ row ∷ [] }) ≡ (user, db') =
        Option.some-injective _ _ (sym made ∙ e) in
      subst
        (λ (r : User × Db).
          (r.0.password ≡ arg.password)
          × (find_first (λ u. str_eq arg.email u.email) r.1.users ≡ some r.0))
        same (refl, append-found arg.email row db.users test no' covers (eq_refl arg.email))
]
  where
    too_long : Bool
    too_long = overflows 128 arg.username || overflows 128 arg.email || overflows 256 arg.password

    last : (a b c : Bool) → (a || b || c) ≡ false → c ≡ false
    last a b c h = ground arith

    test : User → Bool
    test u = fresh == u.id || str_eq arg.username u.username || str_eq arg.email u.email

    taken : Bool
    taken = any_of test db.users

    covers : (u : User) → test u ≡ false → str_eq arg.email u.email ≡ false
    covers u h = last (fresh == u.id) (str_eq arg.username u.username) (str_eq arg.email u.email) h

module _ (out : Outside) (crypto : Crypto) (param : Register) (w : World) where
  -- The new row is found by its address and keeps a hash of the password; an address that was there
  -- is refused and nothing is written.
  abbrev Registers : Answer User → World → Type 0
  Registers r w' =
      ((user : User)
        → r ≡ ok user
        → (find_by_email param.email w'.db ≡ some user)
          × (crypto.matches user.password param.password ≡ true))
      × ((e : Error) → r ≡ err e → w'.db ≡ w.db)

  failed-Registers : (e : Error) (w' : World) → w'.db ≡ w.db → Registers (err e) w'
  failed-Registers e w' same = (λ user h. absurd (err-ne-ok e user h), λ x h. same)

  register_new-Ensures :
      (v : World) → v.db ≡ w.db → Ensures (register_new out crypto param) v Registers
  unfolding register_new
  register_new-Ensures v same = bind-Ensures (
      ask-Ensures out hash_failed (crypto.generate param.password)
        (failed-Registers hash_failed (counted v) same)
        (λ hashed made. bind-Ensures (
          write-Ensures out _ (λ e. failed-Registers e (counted (counted v)) same)
            (λ user db' inserted.
              stored user db' _ (crypto.matches_generate param.password v.calls hashed made)
                (insert_user-found _ _ _ db' user inserted)))))
    where
      done' :
          (user : User) (u : World)
          → (find_by_email param.email u.db ≡ some user)
          → (crypto.matches user.password param.password ≡ true)
          → Ensures (pure user) u Registers
      done' user u found matched = pure-Ensures (
        λ user' e.
            subst
              (λ (x : User).
                (find_by_email param.email u.db ≡ some x)
                × (crypto.matches x.password param.password ≡ true))
              (ok-injective e) (found, matched),
        λ x e. absurd (err-ne-ok x user (sym e)),
      )

      stored :
          (user : User) (db' : Db) (hashed : String)
          → crypto.matches hashed param.password ≡ true
          → (user.password ≡ hashed) × (find_by_email param.email db' ≡ some user)
          → Ensures
              (attempt (recache out (λ c. record c { users = insert user.id user c.users }))
                >>= λ _. pure user)
              (record (counted v) { calls = v.calls + 1 + 1; db = db' })
              Registers
      stored user db' hashed matched (same', found) =
          let good : crypto.matches user.password param.password ≡ true = rw same' matched in
          bind-Attempt
            (recache-Ensures out _ (λ e. done' user _ found good) (done' user _ found good))

  register-Ensures : Ensures (register out crypto param) w Registers
  unfolding register
  register-Ensures = bind-Attempt (
      read-Ensures out (find_by_email param.email) (λ e. register_new-Ensures (counted w) refl)
        (λ user found. raise-Ensures (failed-Registers email_exist (counted w) refl)))

taken_any :
    (email : String) (u : User) (users : List User) (test : User → Bool)
    → find_first (λ x. str_eq email x.email) users ≡ some u
    → ((x : User) → str_eq email x.email ≡ true → test x ≡ true)
    → any_of test users ≡ true
taken_any email u [] test e covers = absurd (none-ne-some refl e)
taken_any email u (x ∷ users) test e covers = elim (Bool-cases (str_eq email x.email)) [
  | inl yes' ↦ rw (covers x yes') refl
  | inr no' ↦
      or_true (test x) (any_of test users)
        (taken_any email u users test (sym (rw no' refl) ∙ e) covers)
]
  where
    or_true : (a b : Bool) → b ≡ true → (a || b) ≡ true
    or_true a b h = ground arith

insert_user-taken :
    (fresh : ℕ) (arg : InsertUserParams) (db : Db) (u : User)
    → find_by_email arg.email db ≡ some u
    → insert_user fresh arg db ≡ none
unfolding insert_user find_by_email
insert_user-taken fresh arg db u e =
    rw
      (
        insert_user,
        taken_any arg.email u db.users
            (λ x. fresh == x.id || str_eq arg.username x.username || str_eq arg.email x.email) e
            (λ x h.
              last (fresh == x.id) (str_eq arg.username x.username) (str_eq arg.email x.email) h),
      )
      refl
  where
    too_long : Bool
    too_long = overflows 128 arg.username || overflows 128 arg.email || overflows 256 arg.password

    last : (a b c : Bool) → c ≡ true → (a || b || c) ≡ true
    last a b c h = ground arith

-- If Register answers a user, whatever other calls fail, the table has that user under the address,
-- and the stored hash matches the password.
pub register-found :
    (out : Outside) (crypto : Crypto) (param : Register) (w : World) (user : User)
    → (register out crypto param w).0 ≡ ok user
    → (find_by_email param.email (register out crypto param w).1.db ≡ some user)
      × (crypto.matches user.password param.password ≡ true)
register-found out crypto param w user e =
    (Ensures.ensured (register-Ensures out crypto param w)).0 user e

-- If Register answers an error, the tables are unchanged.
register-unchanged :
    (out : Outside) (crypto : Crypto) (param : Register) (w : World) (e : Error)
    → (register out crypto param w).0 ≡ err e
    → (register out crypto param w).1.db ≡ w.db
register-unchanged out crypto param w e h =
    (Ensures.ensured (register-Ensures out crypto param w)).1 e h

abbrev Refuses : World → Answer User → World → Type 0
Refuses w r w' = ((e : Error) × (r ≡ err e)) × (w'.db ≡ w.db)

register_new-Refuses :
    (out : Outside) (crypto : Crypto) (param : Register) (u : User) (w : World)
    → find_by_email param.email w.db ≡ some u
    → Ensures (register_new out crypto param) (counted w) (Refuses w)
unfolding register_new
register_new-Refuses out crypto param u w taken = bind-Ensures (
    ask-Ensures out hash_failed (crypto.generate param.password) ((hash_failed, refl), refl)
      (λ hashed made. bind-Ensures (
        write-Ensures out _ (λ e. ((e, refl), refl))
          (λ user db' inserted.
            absurd (none-ne-some (insert_user-taken _ _ w.db u taken) inserted)))))

register-Refuses :
    (out : Outside) (crypto : Crypto) (param : Register) (u : User) (w : World)
    → find_by_email param.email w.db ≡ some u
    → Ensures (register out crypto param) w (Refuses w)
unfolding register
register-Refuses out crypto param u w taken = bind-Attempt (
    read-Ensures out (find_by_email param.email)
      (λ e. register_new-Refuses out crypto param u w taken)
      (λ user found. raise-Ensures ((email_exist, refl), refl)))

-- An address that a user has is refused, and the tables are unchanged, whatever calls fail: where
-- the first query fails, the unique constraint of the table refuses the insertion.
pub register-taken :
    (out : Outside) (crypto : Crypto) (param : Register) (u : User) (w : World)
    → find_by_email param.email w.db ≡ some u
    → ((e : Error) × ((register out crypto param w).0 ≡ err e))
      × ((register out crypto param w).1.db ≡ w.db)
register-taken out crypto param u w taken =
    Ensures.ensured (register-Refuses out crypto param u w taken)
