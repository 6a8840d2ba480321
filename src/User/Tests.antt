-- ===== src/User/Tests.antt =====
-- Users at concrete inputs: a toy hash and signature, an empty table, one registration.
use Prim.Native.String.{String}
use hedonify.Prelude.{◌≡◌, refl, sym, ap, ◌∙◌, true, false, [], ◌∷◌, some}
use text.Mathlib.Text.{◌==◌ as str_eq}
use text.Mathlib.TextPositions.{eq_refl}
use mathlib.Core.Option
use hedonify.Repository.Models.{User, timestamptz_of, finite}
use hedonify.Repository.Users.{find_by_email, insert_user}
use hedonify.Service.World.{World, get_login, set_login}
use hedonify.Service.Call.{
  ok, err, Error, email_exist, Outside, ◌>>=◌, attempt, read, write, cached, recache, ask,
}
use hedonify.User.Request.{LoginRequest, Register}
use hedonify.User.Service.{
  Crypto, claims_for, issue_token, login_by_password, login, register_new, register,
}
use hedonify.User.Passwords.{login-password}
use hedonify.User.Registration.{register-taken}
use hedonify.User.Admission.{login-register}

-- The hash of a password is the password, and every token is the same.
abbrev pub toy : Crypto
toy = record {
  matches = λ hashed password. str_eq hashed password;
  generate = λ password call. some password;
  matches_generate = λ password call hashed e. eq_refl_of password hashed e;
  uuid_string = λ n. "id";
  numeric_date = λ t. t;
  sign = λ method c. some "token";
}
  where
    eq_refl_of : (p h : String) → some p ≡ some h → str_eq h p ≡ true
    eq_refl_of p h e = ap (λ x. str_eq x p) (sym (Option.some-injective _ _ e)) ∙ eq_refl p

abbrev pub calm : Outside
calm = record { down = λ n. false; fresh = λ n. n; now = λ n. n }

abbrev empty_world : World
empty_world = record {
  db = record {
    users = [];
    products = [];
    carts = [];
    cart_items = [];
    orders = [];
    order_items = [];
  };
  cache = record {
    products = [];
    users = [];
    logins = [];
    carts = [];
    carts_unformatted = [];
    carts_by_user = [];
  };
  calls = 0;
}

abbrev pub ada : Register
ada = record { username = "ada"; email = "ada@mail"; password = "secret" }

abbrev pub ada_login : LoginRequest
ada_login = record { email = "ada@mail"; password = "secret" }

abbrev ada_row : User
ada_row = record {
  id = 2;
  username = "ada";
  email = "ada@mail";
  password = "secret";
  created_at = record { time = 2; infinity_modifier = finite; valid = true };
  updated_at = record { time = 2; infinity_modifier = finite; valid = true };
}

abbrev pub with_ada : World
with_ada = record {
  db = record {
    users = ada_row ∷ [];
    products = [];
    carts = [];
    cart_items = [];
    orders = [];
    order_items = [];
  };
  cache = record {
    products = [];
    users = (2, ada_row) ∷ [];
    logins = [];
    carts = [];
    carts_unformatted = [];
    carts_by_user = [];
  };
  calls = 4;
}

registers : register calm toy ada empty_world ≡ (ok ada_row, with_ada)
unfolding register register_new read write recache ask attempt ◌>>=◌ find_by_email insert_user
    timestamptz_of
registers = refl

logs_in : (login calm toy ada_login with_ada).0 ≡ ok "token"
unfolding login login_by_password issue_token read cached recache ask attempt ◌>>=◌ find_by_email
    get_login set_login claims_for
logs_in = refl

registers_again : (register calm toy ada with_ada).0 ≡ err email_exist
unfolding register read attempt ◌>>=◌ find_by_email
registers_again = refl

finds_ada : find_by_email "ada@mail" with_ada.db ≡ some ada_row
unfolding find_by_email
finds_ada = refl

login-password_example :
    (user : User) × (find_by_email "ada@mail" with_ada.db ≡ some user)
    × (toy.matches user.password "secret" ≡ true)
login-password_example = login-password calm toy ada_login with_ada "token" tt logs_in

register-taken_example :
    ((e : Error) × ((register calm toy ada with_ada).0 ≡ err e))
    × ((register calm toy ada with_ada).1.db ≡ with_ada.db)
register-taken_example = register-taken calm toy ada ada_row with_ada finds_ada

login-register_example :
    (token : String) × ((login calm toy
        (record { email = ada.email; password = ada.password })
        with_ada).0
      ≡ ok token)
login-register_example =
    login-register calm toy ada ada_row empty_world with_ada (ap (λ r. r.0) registers)
      (sym (ap (λ r. r.1.db) registers)) tt (λ n. refl) (λ c. ("token", refl))
