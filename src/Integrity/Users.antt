-- ===== src/Integrity/Users.antt =====
-- UserService keeps the constraints of the tables.
use hedonify.Prelude.{Option}
use text.Mathlib.Text.{◌==◌ as str_eq}
use hedonify.Repository.Models.{User}
use hedonify.Repository.Integrity.{IsIntegral}
use hedonify.Repository.Integrity.Products.{insert_user-IsIntegral}
use hedonify.Service.Call.{Outside}
use hedonify.Service.Keeps.{
  Keeps, pure-Keeps, raise-Keeps, attempt-Keeps, bind-Keeps, read-Keeps, write-Keeps, cached-Keeps,
  recache-Keeps, ask-Keeps, answer-Keeps, option-Keeps, bool-Keeps,
}
use hedonify.User.Request.{LoginRequest, Register, FindUserById}
use hedonify.User.Service.{
  Crypto, issue_token, login_by_password, login, register_new, register, find_user_by_id,
}

module _ (out : Outside) (crypto : Crypto) where
  issue_token-Keeps :
      (param : LoginRequest) (user : User) → Keeps IsIntegral (issue_token out crypto param user)
  unfolding issue_token
  issue_token-Keeps param user =
      bind-Keeps (ask-Keeps out _ _) (λ _. bind-Keeps (recache-Keeps out _) (λ _. pure-Keeps _))

  login_by_password-Keeps :
      (param : LoginRequest) → Keeps IsIntegral (login_by_password out crypto param)
  unfolding login_by_password
  login_by_password-Keeps param = bind-Keeps (attempt-Keeps (read-Keeps out _)) (
      answer-Keeps
        (λ user.
          bool-Keeps (issue_token-Keeps param user) (raise-Keeps _)
            (crypto.matches user.password param.password))
        (λ _. raise-Keeps _))

  pub login-Keeps : (param : LoginRequest) → Keeps IsIntegral (login out crypto param)
  unfolding login
  login-Keeps param = bind-Keeps (cached-Keeps out _) (
      option-Keeps (login_by_password-Keeps param)
        (λ token. bool-Keeps (login_by_password-Keeps param) (pure-Keeps _) (str_eq token "")))

  register_new-Keeps : (param : Register) → Keeps IsIntegral (register_new out crypto param)
  unfolding register_new
  register_new-Keeps param = bind-Keeps (ask-Keeps out _ _) (λ hashed.
      bind-Keeps
        (write-Keeps out _
          (λ fresh now db db' row e h. insert_user-IsIntegral fresh _ db db' row e h))
        (λ user. bind-Keeps (attempt-Keeps (recache-Keeps out _)) (λ _. pure-Keeps user)))

  pub register-Keeps : (param : Register) → Keeps IsIntegral (register out crypto param)
  unfolding register
  register-Keeps param =
      bind-Keeps (attempt-Keeps (read-Keeps out _))
        (answer-Keeps (λ _. raise-Keeps _) (λ _. register_new-Keeps param))

  pub find_user_by_id-Keeps :
      (decode : User → Option User) (param : FindUserById)
      → Keeps IsIntegral (find_user_by_id out crypto decode param)
  unfolding find_user_by_id
  find_user_by_id-Keeps decode param = bind-Keeps (cached-Keeps out _) (
      option-Keeps
        (bind-Keeps (read-Keeps out _) (λ _. bind-Keeps (recache-Keeps out _) (λ _. pure-Keeps _)))
        (λ u. option-Keeps (raise-Keeps _) (λ _. pure-Keeps _) (decode u)))
