-- ===== src/User/Admission.antt =====
-- Login of a registered user.
use Prim.Native.String.{String}
use hedonify.Prelude.{ℕ, ◌+◌, ◌≡◌, refl, ap, ◌∙◌, true, false, none, some}
use hedonify.Repository.Models.{User}
use hedonify.Repository.Users.{find_by_email}
use hedonify.Service.World.{World, get_login}
use hedonify.Service.Call.{ok, Outside, counted, sign_failed}
use hedonify.Service.Rules.{bind_ok, bind_attempt_ok, cached-up, read-up, recache-up, ask-up}
use hedonify.User.Request.{LoginRequest, Register}
use hedonify.User.Service.{
  Claims, Crypto, claims_for, issue_token, login_by_password, login, register,
}
use hedonify.User.Passwords.{ArePlain, get_login-none}
use hedonify.User.Registration.{register-found}

module _ (out : Outside) (crypto : Crypto) (param : LoginRequest) (user : User) (v : World)
    (plain' : ArePlain v) (up : (n : ℕ) → out.down n ≡ false)
    (signs : (c : Claims) → (token : String) × (crypto.sign "HS256" c ≡ some token))
    (found : find_by_email param.email v.db ≡ some user)
    (matched : crypto.matches user.password param.password ≡ true) where
  issue_token_up :
      (w : World) → (token : String) × ((issue_token out crypto param user w).0 ≡ ok token)
  unfolding issue_token
  issue_token_up w =
      let (token, signed) = signs (claims_for out crypto user w.calls) in
      (
        token,
        ap (λ r. r.0)
            (bind_ok _ _ w (counted w) token (ask-up out w sign_failed _ token signed)
              ∙ bind_ok _ _ (counted w) _ tt (recache-up out (counted w) (up (w.calls + 1)) _)),
      )

  login_by_password_up :
      login_by_password out crypto param (counted v)
      ≡ issue_token out crypto param user (counted (counted v))
  unfolding login_by_password
  login_by_password_up =
      bind_attempt_ok _ _ (counted v) (counted (counted v)) user
        (read-up out (counted v) (up (v.calls + 1)) (find_by_email param.email) user found)
      ∙ rw matched refl

  login_up : login out crypto param v ≡ issue_token out crypto param user (counted (counted v))
  unfolding login
  login_up =
      bind_ok _ _ v (counted v) none (
        cached-up out v (up v.calls) (λ c. get_login param.email c.logins)
        ∙ ap (λ o. (ok o, counted v)) (get_login-none param.email v.cache.logins plain'))
      ∙ login_by_password_up

  login_succeeds : (token : String) × ((login out crypto param v).0 ≡ ok token)
  login_succeeds =
      let (token, e) = issue_token_up (counted (counted v)) in (token, ap (λ r. r.0) login_up ∙ e)

-- Someone who registered logs in with the same password: in every later state with the same tables,
-- where no call fails, tokens can be signed and the cached tokens are plain strings.
pub login-register :
    (out : Outside) (crypto : Crypto) (param : Register) (user : User) (w v : World)
    → (register out crypto param w).0 ≡ ok user
    → v.db ≡ (register out crypto param w).1.db
    → ArePlain v
    → ((n : ℕ) → out.down n ≡ false)
    → ((c : Claims) → (token : String) × (crypto.sign "HS256" c ≡ some token))
    → (token : String) × ((login out crypto
          (record { email = param.email; password = param.password })
          v).0
        ≡ ok token)
login-register out crypto param user w v e same plain' up signs =
    let (found, matched) = register-found out crypto param w user e in
    login_succeeds out crypto (record { email = param.email; password = param.password }) user v
      plain' up signs (ap (find_by_email param.email) same ∙ found) matched
