-- ===== src/User/Request.antt =====
-- user/pkg/request/login.go and register.go.
use Prim.Native.String.{String}
use hedonify.Prelude.{ℕ}

pub record LoginRequest : Type 0 where
  pub email : String
  pub password : String

pub record Register : Type 0 where
  pub username : String
  pub email : String
  pub password : String

pub record FindUserById : Type 0 where
  pub id : ℕ

-- LoginRequest.MarshalJSON and Register.MarshalJSON: what they hand on to json.Marshal.
unfoldable masked_login : LoginRequest → LoginRequest
masked_login l = record l { password = "***" }

unfoldable masked_register : Register → Register
masked_register r = record r { password = "***" }
