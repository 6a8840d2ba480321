-- ===== src/User/Passwords.antt =====
-- Who gets a token from Login, and whom Register admits.
use Prim.Native.String.{String}
use text.Mathlib.Text.{◌==◌ as str_eq}
use hedonify.Prelude.{
  none-ne-some, ◌≡◌, refl, sym, ap, ◌∙◌, inl, inr, Bool, true, false, List, [], ◌∷◌, none, some,
  arith, Bool-cases, not, All, select,
}
use hedonify.Repository.Models.{User}
use hedonify.Repository.Users.{find_by_email}
use hedonify.Service.World.{World, Entry, json, plain, get_login, set_login}
use hedonify.Service.Call.{
  Answer, ok, err, Error, Outside, raise, counted, sign_failed, user_not_found, password_mismatch,
}
use hedonify.Service.Rules.{
  err-ne-ok, Ensures, pure-Ensures, raise-Ensures, bind-Ensures, bind-Attempt, read-Ensures,
  cached-Ensures, ask-Ensures, recache-Ensures,
}
use hedonify.User.Request.{LoginRequest}
use hedonify.User.Service.{Crypto, issue_token, login_by_password, login}

-- The kind of Redis value under which Login leaves a token.
abbrev IsPlain : String × Entry String → Type 0
IsPlain (_, json _) = ⊥
IsPlain (_, plain _) = Unit {0}

abbrev pub ArePlain : World → Type 0
ArePlain w = All IsPlain w.cache.logins

pub get_login-none :
    (email : String) (logins : List (String × Entry String))
    → All IsPlain logins
    → get_login email logins ≡ none
unfolding get_login
get_login-none email [] h = refl
get_login-none email ((k, json token) ∷ rest) h = absurd h.0
get_login-none email ((k, plain token) ∷ rest) h = ground (arith, get_login-none email rest h.1)

set_login-IsPlain :
    (email token : String) (logins : List (String × Entry String))
    → All IsPlain logins
    → All IsPlain (set_login email token logins)
unfolding set_login
set_login-IsPlain email token logins h = (tt, go logins h)
  where
    go :
        (xs : List (String × Entry String))
        → All IsPlain xs
        → All IsPlain (select (λ e. not (str_eq email e.0)) xs)
    go [] k = tt
    go (x ∷ xs) k = elim (Bool-cases (str_eq email x.0)) [
      | inl yes' ↦ rw yes' (go xs k.1)
      | inr no' ↦ rw no' (k.0, go xs k.1)
    ]

module _ (out : Outside) (crypto : Crypto) (param : LoginRequest) (w : World) where
  -- A token is only for one who knows the password.
  abbrev Admits : Answer String → World → Type 0
  Admits r w' =
      ((token : String)
        → r ≡ ok token
        → (user : User) × (find_by_email param.email w.db ≡ some user)
          × (crypto.matches user.password param.password ≡ true))
      × ArePlain w'
      × (w'.db ≡ w.db)

  refused-Admits : (e : Error) (w' : World) → ArePlain w' → w'.db ≡ w.db → Admits (err e) w'
  refused-Admits e w' h same = (λ token k. absurd (err-ne-ok e token k), h, same)

  issue_token-Ensures :
      (v : World) (user : User)
      → ArePlain v
      → v.db ≡ w.db
      → find_by_email param.email w.db ≡ some user
      → crypto.matches user.password param.password ≡ true
      → Ensures (issue_token out crypto param user) v Admits
  unfolding issue_token
  issue_token-Ensures v user h same found matched = bind-Ensures (
      ask-Ensures out sign_failed _ (refused-Admits sign_failed (counted v) h same) (λ token signed.
        bind-Ensures (
          recache-Ensures out _ (λ x. refused-Admits x (counted (counted v)) h same)
            (pure-Ensures (
              λ t k. (user, found, matched),
              set_login-IsPlain param.email token v.cache.logins h,
              same,
            )))))

  login_by_password-Ensures :
      (v : World) → ArePlain v → v.db ≡ w.db → Ensures (login_by_password out crypto param) v Admits
  unfolding login_by_password
  login_by_password-Ensures v h same = bind-Attempt (
      read-Ensures out (find_by_email param.email)
        (λ e. raise-Ensures (refused-Admits user_not_found (counted v) h same))
        (λ user found.
          decided user (ap (find_by_email param.email) (sym same) ∙ found)
            (crypto.matches user.password param.password) refl))
    where
      decided :
          (user : User)
          → find_by_email param.email w.db ≡ some user
          → (b : Bool) → crypto.matches user.password param.password ≡ b
          → Ensures
              (elim b [
                | false ↦ raise password_mismatch
                | true ↦ issue_token out crypto param user
              ])
              (counted v)
              Admits
      decided user found false e =
          raise-Ensures (refused-Admits password_mismatch (counted v) h same)
      decided user found true e = issue_token-Ensures (counted v) user h same found e

  login-Ensures : ArePlain w → Ensures (login out crypto param) w Admits
  unfolding login
  login-Ensures h = bind-Ensures (
      cached-Ensures out (λ c. get_login param.email c.logins)
        (login_by_password-Ensures (counted w) h refl)
        (λ token e. absurd (none-ne-some (get_login-none param.email w.cache.logins h) e)))

-- Login where Redis holds login tokens as plain strings, as Login itself leaves them: if it answers
-- a token, whatever calls fail, a user has the address and the hash that is stored of that user's
-- password matches the given one.
pub login-password :
    (out : Outside) (crypto : Crypto) (param : LoginRequest) (w : World) (token : String)
    → ArePlain w
    → (login out crypto param w).0 ≡ ok token
    → (user : User) × (find_by_email param.email w.db ≡ some user)
      × (crypto.matches user.password param.password ≡ true)
login-password out crypto param w token h e =
    (Ensures.ensured (login-Ensures out crypto param w h)).0 token e

-- Login, whatever calls fail, does not change the tables, and leaves the login tokens plain strings
-- if they were.
login-ArePlain :
    (out : Outside) (crypto : Crypto) (param : LoginRequest) (w : World)
    → ArePlain w
    → ArePlain (login out crypto param w).1 × ((login out crypto param w).1.db ≡ w.db)
login-ArePlain out crypto param w h =
    let (_, kept, same) = Ensures.ensured (login-Ensures out crypto param w h) in (kept, same)
