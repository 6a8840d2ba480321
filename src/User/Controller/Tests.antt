-- ===== src/User/Controller/Tests.antt =====
-- The user routes, and the tokens of Login, at concrete requests.
use Prim.Native.String.{String}
use text.Mathlib.Text.{◌==◌ as str_eq}
use text.Mathlib.TextEquality.{eq_iff}
use mathlib.Core.Option.{some-injective}
use hedonify.Prelude.{
  ℕ, ◌<◌, ◌≡◌, refl, sym, ap, ◌∙◌, subst, Bool, true, false, ◌&&◌, [], none, some, ltb, ◌==◌,
  ==_iff, arith, if◌then◌else◌,
}
use hedonify.Repository.Models.{User}
use hedonify.Repository.Users.{find_by_email}
use hedonify.Service.World.{World, get_login, set_login}
use hedonify.Service.Call.{ok, Outside, ◌>>=◌, attempt, read, cached, recache, ask}
use hedonify.User.Request.{LoginRequest}
use hedonify.User.Service.{Claims, Crypto, claims_for, issue_token, login_by_password, login}
use hedonify.User.Tests.{toy, ada, ada_login, with_ada}
use hedonify.User.Tokens.{JwtLaws, bearer, token-admits, token-expires}
use hedonify.Http.Message.{Request, write_json_response, or_failed, or_failed_call, require}
use hedonify.Http.Message
use hedonify.Http.Token.{split, HttpHost}
use hedonify.Http.Samples.{http, bare, ada_claims}
use hedonify.Http.Success.{body?, Gives}
use hedonify.Http.Middleware.{logging, recovered, recover_panic, wrap, serve}
use hedonify.Http.Access.{IsRefusal, with_request_id, with_token, guarded, identifier}
use hedonify.User.Controller.{
  token_of, UserHost, login_handler, find_user_by_id_handler, user_router,
}
use hedonify.User.Controller.Answers.{login_route-password}

-- A clock that stands still.
abbrev still : Outside
still = record { down = λ n. false; fresh = λ n. 0; now = λ n. 0 }

-- Only Ada's claims are signed.
abbrev is_adas : Claims → Bool
is_adas c =
    str_eq c.audience "audience-user"
    && (str_eq c.issuer "user-service"
        && (str_eq c.subject "ada"
            && ((c.expires_at == 1_800_000_000_000) && ((c.issued_at == 0) && (c.id == 0)))))

abbrev crypto : Crypto
crypto = record {
  matches = toy.matches;
  generate = toy.generate;
  matches_generate = toy.matches_generate;
  uuid_string = λ n. "ada";
  numeric_date = λ t. t;
  sign = λ method c. if is_adas c then some "token" else none;
}

-- A parser that knows one token, until it expires.
abbrev signing : HttpHost World
signing = record {
  now = λ w. w.calls;
  new_string = λ w. "request";
  parse_with_claims = λ o token now.
      if str_eq token "token" && ltb now 1_800_000_000_000 then some ada_claims else none;
  parse_uuid = λ s. some 2;
}

and-true : (a b : Bool) → a && b ≡ true → (a ≡ true) × (b ≡ true)
and-true true b e = (refl, e)
and-true false b e = absurd (cc)

is_adas-eq : (c : Claims) → is_adas c ≡ true → c ≡ ada_claims
is_adas-eq c e =
    let (a, e1) = and-true _ _ e in
    let (b, e2) = and-true _ _ e1 in
    let (s, e3) = and-true _ _ e2 in
    let (x, e4) = and-true _ _ e3 in
    let (i, n) = and-true _ _ e4 in
    λ k. record {
      audience = (eq_iff c.audience "audience-user").0 a k;
      issuer = (eq_iff c.issuer "user-service").0 b k;
      subject = (eq_iff c.subject "ada").0 s k;
      expires_at = (==_iff c.expires_at 1_800_000_000_000).0 x k;
      issued_at = (==_iff c.issued_at 0).0 i k;
      id = (==_iff c.id 0).0 n k;
    }

if-some :
    {A : Type 0} (b : Bool) (a a' : A)
    → (if b then some a else none) ≡ some a'
    → (b ≡ true) × (a ≡ a')
if-some true a a' e = (refl, some-injective a a' e)
if-some false a a' e = absurd (cc)

signs :
    (method : String) (c : Claims) (token : String)
    → crypto.sign method c ≡ some token
    → (c ≡ ada_claims) × ("token" ≡ token)
signs method c token e =
    let (is, same) = if-some (is_adas c) "token" token e in (is_adas-eq c is, same)

parses_adas :
    (token : String) (now : ℕ)
    → "token" ≡ token
    → now < 1_800_000_000_000
    → (if str_eq token "token" && ltb now 1_800_000_000_000 then some ada_claims else none)
      ≡ some ada_claims
parses_adas token now same early =
    subst
      (λ t.
        (if str_eq t "token" && ltb now 1_800_000_000_000 then some ada_claims else none)
        ≡ some ada_claims)
      same (ground arith)

ltb-early : (now : ℕ) → ltb now 1_800_000_000_000 ≡ true → now < 1_800_000_000_000
ltb-early now e = ground arith

split_token : (token : String) → "token" ≡ token → split token ≡ (token, [])
unfolding split
split_token token same = subst (λ t. split t ≡ (t, [])) same refl

laws : JwtLaws signing crypto
laws = record {
  parses = λ o method c token now signed _ _ _ _ _ early _.
      let (is, same) = signs method c token signed in
      parses_adas token now same (subst (λ x. now < x.expires_at) is early) ∙ ap some (sym is);
  same = λ o method c c' token now signed _ _ parsed.
      let (is, _) = signs method c token signed in
      let (_, is') = if-some _ ada_claims c' parsed in sym is' ∙ sym is;
  expires = λ o c token now _ parsed.
      let (holds, is) = if-some _ ada_claims c parsed in
      let (_, early) = and-true (str_eq token "token") (ltb now 1_800_000_000_000) holds in
      subst (λ x. now < x.expires_at) is (ltb-early now early);
  dates = λ t. (omega arith, omega arith);
  cut = λ t. refl;
  no_blank = λ method c token signed.
      let (_, same) = signs method c token signed in split_token token same;
}

logs_in : (login still crypto ada_login with_ada).0 ≡ ok "token"
unfolding login login_by_password issue_token read cached recache ask attempt ◌>>=◌ find_by_email
    get_login set_login claims_for
logs_in = refl

abbrev from_token : Request
from_token = record bare { authorization = bearer "token" }

abbrev late_world : World
late_world = record with_ada { calls = 1_800_000_000_000 }

abbrev host : UserHost
host = record {
  http = http;
  out = still;
  crypto = crypto;
  decode_user = λ u. some u;
  decode_login = λ body. some ada_login;
  is_valid_login = λ p. true;
  decode_register = λ body. some ada;
  is_valid_register = λ p. true;
}

token-admits_example :
    (user : User) × (jwt : Claims) × (find_by_email ada_login.email with_ada.db ≡ some user)
    × (jwt.subject ≡ crypto.uuid_string user.id)
    × (guarded signing (find_user_by_id_handler host) from_token with_ada
        ≡ recovered (with_request_id (identifier signing from_token with_ada) from_token).context (
            find_user_by_id_handler host
              (with_token jwt (with_request_id (identifier signing from_token with_ada) from_token))
              with_ada))
token-admits_example =
    token-admits signing still crypto laws (find_user_by_id_handler host) ada_login with_ada
      with_ada "token" from_token 0 0 tt logs_in (λ n. omega arith) (λ n. omega arith) (omega arith)
      refl (omega arith) (omega arith)

token-expires_example :
    ((guarded signing (find_user_by_id_handler host) from_token late_world).1 ≡ late_world)
    × IsRefusal (guarded signing (find_user_by_id_handler host) from_token late_world).0
token-expires_example =
    token-expires signing still crypto laws (find_user_by_id_handler host) ada_login with_ada
      late_world "token" from_token 0 tt logs_in (λ n. omega arith) (omega arith) refl (omega arith)

login_route-Gives :
    Gives
      (serve (user_router host (login_handler host) "POST" "/users/login") bare with_ada).0
      (token_of "token")
unfolding serve wrap user_router logging recover_panic recovered login_handler or_failed
    or_failed_call require write_json_response body? Message.◌>>=◌ login login_by_password
    issue_token read cached recache ask attempt ◌>>=◌ find_by_email get_login set_login claims_for
login_route-Gives = refl

login_route-password_example :
    (param : LoginRequest) × (user : User) × (host.decode_login bare.body ≡ some param)
    × (find_by_email param.email with_ada.db ≡ some user)
    × (host.crypto.matches user.password param.password ≡ true)
login_route-password_example = login_route-password host bare with_ada "token" tt login_route-Gives

abbrev strict : UserHost
strict = record host { is_valid_register = λ p. false }
