-- ===== src/User/Service.antt =====
-- UserService of user/internal/service/user.go. The hash of passwords (bcrypt) and the signature of
-- tokens (golang-jwt) are parameters.
use Prim.Native.String.{String}
use text.Mathlib.Text.{◌==◌ as str_eq}
use hedonify.Prelude.{ℕ, ◌+◌, ◌*◌, Bool, true, false, ◌≡◌, Option, none, some}
use hedonify.Prelude.Map.{lookup, insert}
use hedonify.Repository.Models.{User, timestamptz_of}
use hedonify.Repository.Users.{find_by_email, find_by_id, insert_user}
use hedonify.Service.World.{get_login, set_login}
use hedonify.Service.Call.{
  ok, err, Outside, M, pure, raise, attempt, ◌>>=◌, ◌>>◌, read, write, cached, recache, ask,
  user_not_found, password_mismatch, email_exist, hash_failed, sign_failed, mapping_failed,
}
use hedonify.User.Request.{LoginRequest, Register, FindUserById}

-- time.Second and time.Minute; a tick is a nanosecond.
abbrev pub second : ℕ
second = 1_000_000_000

abbrev pub minute : ℕ
minute = 60_000_000_000

-- jwt.RegisteredClaims, as Login fills it in.
pub record Claims : Type 0 where
  pub audience : String
  pub issuer : String
  pub subject : String
  pub expires_at : ℕ
  pub issued_at : ℕ
  pub id : ℕ

pub record Crypto : Type 0 where
  -- bcrypt.CompareHashAndPassword without an error
  pub matches : String → String → Bool
  -- bcrypt.GenerateFromPassword, whose salt depends on the call
  pub generate : String → ℕ → Option String
  pub matches_generate :
      (password : String) (call : ℕ) (hashed : String)
      → generate password call ≡ some hashed
      → matches hashed password ≡ true
  -- UUID.String
  pub uuid_string : ℕ → String
  -- jwt.NewNumericDate
  pub numeric_date : ℕ → ℕ
  -- jwt.NewWithClaims and token.SignedString, by the name of the signing method
  pub sign : String → Claims → Option String

module _ (out : Outside) (crypto : Crypto) where
  -- The claims of a new token.
  unfoldable pub claims_for : User → ℕ → Claims
  claims_for user call = record {
    audience = "audience-user";
    issuer = "user-service";
    subject = crypto.uuid_string user.id;
    expires_at = crypto.numeric_date (out.now call + 30 * minute);
    issued_at = crypto.numeric_date (out.now call);
    id = out.fresh call;
  }

  -- The token of Login for a user whose password matched.
  unfoldable pub issue_token : LoginRequest → User → M String
  issue_token param user = do
    signed_token ← ask out sign_failed (λ call. crypto.sign "HS256" (claims_for user call))
    recache out (λ c. record c { logins = set_login param.email signed_token c.logins })
    pure signed_token

  -- Login without a cached token.
  unfoldable pub login_by_password : LoginRequest → M String
  login_by_password param = do
    found ← attempt (read out (find_by_email param.email))
    elim found [
      | err _ ↦ raise user_not_found
      | ok user ↦ elim (crypto.matches user.password param.password) [
        | false ↦ raise password_mismatch
        | true ↦ issue_token param user
      ]
    ]

  -- UserService.Login
  unfoldable pub login : LoginRequest → M String
  login param = do
    document ← cached out (λ c. get_login param.email c.logins)
    elim document [
      | none ↦ login_by_password param
      | some signed_token ↦ elim (str_eq signed_token "") [
        | true ↦ login_by_password param
        | false ↦ pure signed_token
      ]
    ]

  -- The rest of Register, for an address that was not found.
  unfoldable pub register_new : Register → M User
  register_new param = do
    hashed ← ask out hash_failed (crypto.generate param.password)
    user ← write out λ fresh now. insert_user fresh (record {
      username = param.username;
      email = param.email;
      password = hashed;
      created_at = timestamptz_of now;
      updated_at = timestamptz_of now;
    })
    stored ← attempt (recache out (λ c. record c { users = insert user.id user c.users }))
    pure user

  -- UserService.Register: any error of the first query counts as an absent address, and an error of
  -- the cache is passed over.
  unfoldable pub register : Register → M User
  register param = do
    found ← attempt (read out (find_by_email param.email))
    elim found [ ok _ ↦ raise email_exist | err _ ↦ register_new param ]

  -- UserService.FindUserById
  unfoldable pub find_user_by_id : (User → Option User) → FindUserById → M User
  find_user_by_id decode param = do
    document ← cached out (λ c. lookup param.id c.users)
    elim document [
      | none ↦ do
        user ← read out (find_by_id param.id)
        recache out (λ c. record c { users = insert param.id user c.users })
        pure user
      | some u ↦ elim (decode u) [ none ↦ raise mapping_failed | some user ↦ pure user ]
    ]
