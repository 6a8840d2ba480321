-- ===== src/Http/Samples.antt =====
-- A host and requests for the tests.
use Prim.Native.String.{String}
use text.Mathlib.Text.{◌==◌ as str_eq}
use text.Mathlib.TextEquality.{eq_iff}
use hedonify.Prelude.{◌≡◌, ◌≢◌, sym, ◌∙◌, false, none, some, [], ◌∷◌, if◌then◌else◌}
use hedonify.User.Service.{Claims}
use hedonify.Http.Message.{Request}
use hedonify.Http.Token.{HttpHost}

abbrev pub ada_claims : Claims
ada_claims = record {
  audience = "audience-user";
  issuer = "user-service";
  subject = "ada";
  expires_at = 1_800_000_000_000;
  issued_at = 0;
  id = 0;
}

abbrev pub bob_claims : Claims
bob_claims = record ada_claims { subject = "bob" }

-- Two tokens are good, and only the empty string is no identifier.
abbrev pub http : {S : Type 0} → HttpHost S
http = record {
  now = λ s. 100;
  new_string = λ s. "request";
  parse_with_claims = λ o token now.
      if str_eq token "ada"
      then some ada_claims
      else if str_eq token "bob"
      then some bob_claims
      else none;
  parse_uuid = λ s. if str_eq s "" then none else some 7;
}

abbrev pub bare : Request
bare = record {
  authorization = "";
  x_request_id = "";
  vars = [];
  path_value = λ name. "";
  query = λ name. "7";
  body = "";
  context = record { request_id = none; jwt_token = none };
}

abbrev pub from_ada : Request
from_ada = record bare {
  authorization = "Bearer ada";
  vars = ("productId", "7") ∷ ("cartId", "7") ∷ ("orderId", "7") ∷ [];
}

pub str_eq-apart : (s t : String) → str_eq s t ≡ false → s ≢ t
str_eq-apart s t e same = let f = sym e ∙ (eq_iff s t).1 same in cc
