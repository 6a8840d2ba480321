-- ===== src/Service/World.antt =====
-- The tables and the Redis cache, as the services share them.
-- A cached JSON document is kept as the Go value that was marshalled. The families of cache keys
-- (`products:…`, `user:…`, `login_user:…`, `carts:…`, `carts:user_id:…`) never meet, so each has a
-- map of its own; `carts:%s…` is the key that is formed without its format being filled in.
use Prim.Native.String.{String}
use text.Mathlib.Text.{◌==◌ as str_eq}
use hedonify.Prelude.{ℕ, List, [], ◌∷◌, Option, none, some, ◌==◌, if◌then◌else◌, select, not}
use hedonify.Prelude.Map.{Map}
use hedonify.Repository.Models.{Product, User, Db}
use hedonify.Repository.Carts.{CartRow, CartItemRow}
use hedonify.Cart.Request.{CartResponse}

-- A value in Redis: a JSON document, or a plain string, which JSON.GET refuses.
pub data Entry {ℓ} (A : Type ℓ) : Type ℓ where
  json : A → Entry A
  plain : String → Entry A

-- What the cart service marshals under `carts:…`.
pub data CartDocument : Type 0 where
  of_response : CartResponse → CartDocument
  of_row : CartRow → CartDocument

pub record Cache : Type 0 where
  pub products : Map Product
  pub users : Map User
  pub logins : List (String × Entry String)
  pub carts : Map CartDocument
  pub carts_unformatted : Map CartDocument
  pub carts_by_user : Map (List CartItemRow)

-- The calls are counted, so that what fails, what is drawn and what the clock shows can depend on
-- the call.
pub record World : Type 0 where
  pub db : Db
  pub cache : Cache
  pub calls : ℕ

-- DEL or JSON.DEL of a key.
abbrev pub erase {ℓ} : {V : Type ℓ} → ℕ → Map V → Map V
erase k = select (λ e. not (k == e.0))

-- JSON.GET of a login token.
unfoldable pub get_login : String → List (String × Entry String) → Option String
get_login email [] = none
get_login email ((k, json token) ∷ rest) =
    if str_eq email k then some token else get_login email rest
get_login email ((k, plain token) ∷ rest) = if str_eq email k then none else get_login email rest

-- SETEX of a login token, a plain string.
unfoldable pub set_login :
    String → String → List (String × Entry String) → List (String × Entry String)
set_login email token logins = (email, plain token) ∷ select (λ e. not (str_eq email e.0)) logins
