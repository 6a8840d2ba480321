-- ===== src/User/Controller.antt =====
-- user/internal/controller/user.go. No route asks for a token.
pub mod Answers
pub mod Tests
use Prim.Native.String.{String}
use text.Mathlib.Text.{◌==◌ as str_eq}
use hedonify.Prelude.{ℕ, Bool, true, false, List, [], ◌∷◌, Option}
use hedonify.Repository.Models.{User}
use hedonify.Service.World.{World}
use hedonify.Service.Call.{Answer, ok, err, Error, email_exist, Outside, M}
use hedonify.User.Request.{LoginRequest, Register}
use hedonify.User.Service.{Crypto, login, register, find_user_by_id}
use hedonify.Http.Message.{
  Context, Request, failed, success, Flow, next, Act, Handler, go_on, var?, ◌>>=◌, ◌>>◌,
  write_json_response, or_failed, require, or_failed_call,
}
use hedonify.Http.Token.{HttpHost}
use hedonify.Http.Middleware.{logging, recover_panic, Route}

-- The "data" of the replies: a token, or none beside the message.
pub data UserData : Type 0 where
  token_of : String → UserData
  message : UserData

pub record UserHost : Type 0 where
  pub http : HttpHost World
  pub out : Outside
  pub crypto : Crypto
  pub decode_user : User → Option User
  -- json.Decoder.Decode of a body, and Validate.StructCtx without an error
  pub decode_login : String → Option LoginRequest
  pub is_valid_login : LoginRequest → Bool
  pub decode_register : String → Option Register
  pub is_valid_register : Register → Bool

-- `errors.Is(err, &validator.InvalidValidationError{})` compares with a pointer that was made just
-- then.
abbrev is_invalid_validation_error : Bool
is_invalid_validation_error = false

-- The validation in Register.
unfoldable pub check_register : Context → Bool → Act World UserData (Unit {0})
check_register c true = go_on tt
check_register c false = elim is_invalid_validation_error [
  | true ↦ write_json_response c 400 failed
  | false ↦ go_on tt
]

-- The reply to an error of Register.
unfoldable pub refuse_register : {A : Type 0} → Context → Error → Act World UserData A
refuse_register c email_exist = write_json_response c 409 failed
refuse_register c _ = write_json_response c 400 failed

unfoldable pub refused_or : {A : Type 0} → Context → Answer A × World → Flow UserData A × World
refused_or c (ok a, w) = (next a, w)
refused_or c (err e, w) = refuse_register c e w

unfoldable pub or_refused : {A : Type 0} → Context → M A → Act World UserData A
or_refused c m w = refused_or c (m w)

module _ (host : UserHost) where
  -- Every error of the service comes with an empty token.
  unfoldable pub login_handler : Handler World UserData
  login_handler r = do
    req_body ← or_failed r.context 400 (host.decode_login r.body)
    require r.context 400 (host.is_valid_login req_body)
    token ← or_failed_call r.context 400 (login host.out host.crypto req_body)
    elim (str_eq token "") [
      | true ↦ write_json_response r.context 400 failed
      | false ↦ write_json_response r.context 200 (success (token_of token))
    ]

  unfoldable pub register_handler : Handler World UserData
  register_handler r = do
    req_body ← or_failed r.context 400 (host.decode_register r.body)
    check_register r.context (host.is_valid_register req_body)
    user ← or_refused r.context (register host.out host.crypto req_body)
    write_json_response r.context 200 (success message)

  unfoldable pub find_user_by_id_handler : Handler World UserData
  find_user_by_id_handler r = do
    path_value ← or_failed r.context 400 (var? "userId" r.vars)
    user_id ← or_failed r.context 400 (host.http.parse_uuid path_value)
    user ←
        or_failed_call r.context 400
          (find_user_by_id host.out host.crypto host.decode_user (record { id = user_id }))
    write_json_response r.context 200 (success message)

  -- AttachUserController
  unfoldable pub user_router : Handler World UserData → String → String → Route World UserData
  user_router handler method pattern = record {
    method = method;
    pattern = pattern;
    middlewares = logging host.http ∷ recover_panic ∷ [];
    handler = handler;
  }

  unfoldable pub user_routes : List (Route World UserData)
  user_routes =
      user_router login_handler "POST" "/users/login"
      ∷ user_router register_handler "POST" "/users/register"
      ∷ user_router find_user_by_id_handler "GET" "/users/{userId}"
      ∷ []
