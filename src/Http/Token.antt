-- ===== src/Http/Token.antt =====
-- internal/token.go, and strings.Split at a blank. The parser of golang-jwt is a parameter.
use Prim.Native.Char.{code}
use Prim.Native.String.{String, [], ◌∷◌}
use hedonify.Prelude.{ℕ, ◌==◌, Bool, true, List, [], ◌∷◌, Option, none, some, if◌then◌else◌}
use hedonify.User.Service.{Claims}
use hedonify.Http.Message.{Context, Act, go_on, panic}

-- The first part, and those after it.
unfoldable pub split : String → String × List String
split [] = ("", [])
split (ch ∷ s) =
    let (part, parts) = split s in
    if code ch == b' ' then ("", part ∷ parts) else (ch ∷ part, parts)

-- `strings.Split(s, " ")[1]`, where the index can be out of range.
unfoldable pub second_part : String → Option String
second_part s = elim (split s).1 [ [] ↦ none | token ∷ _ ↦ some token ]

-- The parser's options, as VerifyToken sets them.
pub record ParserOptions : Type 0 where
  pub audience : String
  pub valid_method : String
  pub expiration_required : Bool
  pub issued_at : Bool
  pub issuer : String

abbrev pub options : ParserOptions
options = record {
  audience = "audience-user";
  valid_method = "HS256";
  expiration_required = true;
  issued_at = true;
  issuer = "user-service";
}

-- What the middlewares and controllers take from outside, at a state.
pub record HttpHost (S : Type 0) : Type 0 where
  -- time.Now()
  pub now : S → ℕ
  -- uuid.NewString()
  pub new_string : S → String
  -- jwt.ParseWithClaims with the configured key, at a time: the claims of a valid token
  pub parse_with_claims : ParserOptions → String → ℕ → Option Claims
  -- uuid.Parse
  pub parse_uuid : String → Option ℕ

module _ {S : Type 0} (host : HttpHost S) where
  -- VerifyToken
  unfoldable pub verify_token : String → S → Option Claims
  verify_token token s = host.parse_with_claims options token (host.now s)

  -- UserIdFromJwtToken; JwtTokenFromContext panics on a context without a token.
  unfoldable pub user_id_from_jwt_token : {B : Type 0} → Context → Act S B (Option ℕ)
  user_id_from_jwt_token c = elim c.jwt_token [
    | none ↦ panic
    | some jwt ↦ go_on (host.parse_uuid jwt.subject)
  ]
