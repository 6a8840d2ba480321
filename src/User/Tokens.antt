-- ===== src/User/Tokens.antt =====
-- From UserService.Login to the middleware Auth: the tokens of the one at the other.
use Prim.Native.String.{String, ◌∷◌}
use mathlib.Core.Option.{some-injective}
use hedonify.Prelude.{
  ℕ, ◌+◌, ◌*◌, ◌≤◌, ◌<◌, ◌≡◌, refl, sym, ap, ◌∙◌, subst, inl, inr, Bool, true, false, [], ◌∷◌, some,
  none-ne-some, Option-cases, arith,
}
use hedonify.Repository.Models.{User}
use hedonify.Repository.Users.{find_by_email}
use hedonify.Service.World.{World, get_login}
use hedonify.Service.Call.{
  Answer, ok, err, Error, Outside, raise, counted, user_not_found, password_mismatch, sign_failed,
}
use hedonify.Service.Rules.{
  err-ne-ok, ok-injective, Ensures, pure-Ensures, raise-Ensures, bind-Ensures, bind-Attempt,
  read-Ensures, cached-Ensures, ask-Ensures, recache-Ensures,
}
use hedonify.User.Request.{LoginRequest}
use hedonify.User.Service.{
  minute, second, Claims, Crypto, claims_for, issue_token, login_by_password, login,
}
use hedonify.User.Passwords.{ArePlain, get_login-none}
use hedonify.Http.Message.{Request, Handler}
use hedonify.Http.Token.{split, second_part, ParserOptions, options, HttpHost, verify_token}
use hedonify.Http.Access.{
  IsRefusal, with_request_id, with_token, guarded, guarded-refuses, guarded-admits, identifier,
}
use hedonify.Http.Middleware.{recovered}

-- A date that a token holds as it is: whole seconds, and so few that they are exact as a number of
-- JSON.
abbrev IsDate : Crypto → ℕ → Type 0
IsDate crypto t = (crypto.numeric_date t ≡ t) × (t < 9_007_199_254_740_992 * second)

-- What golang-jwt documents of signing and parsing with one key.
pub record JwtLaws (http : HttpHost World) (crypto : Crypto) : Type 0 where
  -- a signed token parses to its claims while they are valid, if its method is the valid one
  pub parses :
      (o : ParserOptions) (method : String) (c : Claims) (token : String) (now : ℕ)
      → crypto.sign method c ≡ some token
      → method ≡ o.valid_method
      → IsDate crypto c.expires_at
      → IsDate crypto c.issued_at
      → c.audience ≡ o.audience
      → c.issuer ≡ o.issuer
      → now < c.expires_at
      → c.issued_at ≤ now
      → http.parse_with_claims o token now ≡ some c
  -- and to no other claims
  pub same :
      (o : ParserOptions) (method : String) (c c' : Claims) (token : String) (now : ℕ)
      → crypto.sign method c ≡ some token
      → IsDate crypto c.expires_at
      → IsDate crypto c.issued_at
      → http.parse_with_claims o token now ≡ some c'
      → c' ≡ c
  -- WithExpirationRequired
  pub expires :
      (o : ParserOptions) (c : Claims) (token : String) (now : ℕ)
      → o.expiration_required ≡ true
      → http.parse_with_claims o token now ≡ some c
      → now < c.expires_at
  -- a date is cut to whole seconds
  pub dates : (t : ℕ) → (crypto.numeric_date t ≤ t) × (t < crypto.numeric_date t + second)
  pub cut : (t : ℕ) → crypto.numeric_date (crypto.numeric_date t) ≡ crypto.numeric_date t
  -- the compact serialization has no blank
  pub no_blank :
      (method : String) (c : Claims) (token : String)
      → crypto.sign method c ≡ some token
      → split token ≡ (token, [])

module _ (out : Outside) (crypto : Crypto) (param : LoginRequest) (w : World) where
  abbrev IsIssued : String → Type 0
  IsIssued token =
      (user : User) × (call : ℕ) × (find_by_email param.email w.db ≡ some user)
      × (crypto.sign "HS256" (claims_for out crypto user call) ≡ some token)

  abbrev Issues : Answer String → World → Type 0
  Issues r w' = (token : String) → r ≡ ok token → IsIssued token

  refused-Issues : (e : Error) (w' : World) → Issues (err e) w'
  refused-Issues e w' token k = absurd (err-ne-ok e token k)

  issue_token-Issues :
      (v : World) (user : User)
      → find_by_email param.email w.db ≡ some user
      → Ensures (issue_token out crypto param user) v Issues
  unfolding issue_token
  issue_token-Issues v user found = bind-Ensures (
      ask-Ensures out sign_failed _ (refused-Issues sign_failed (counted v)) (λ token signed.
        bind-Ensures (
          recache-Ensures out _ (λ x. refused-Issues x (counted (counted v)))
            (pure-Ensures
              (λ t k. subst IsIssued (ok-injective k) (user, v.calls, found, signed))))))

  login_by_password-Issues :
      (v : World) → v.db ≡ w.db → Ensures (login_by_password out crypto param) v Issues
  unfolding login_by_password
  login_by_password-Issues v same = bind-Attempt (
      read-Ensures out (find_by_email param.email)
        (λ e. raise-Ensures (refused-Issues user_not_found (counted v)))
        (λ user found.
          decided user (ap (find_by_email param.email) (sym same) ∙ found)
            (crypto.matches user.password param.password)))
    where
      decided :
          (user : User)
          → find_by_email param.email w.db ≡ some user
          → (b : Bool)
          → Ensures
              (elim b [
                | false ↦ raise password_mismatch
                | true ↦ issue_token out crypto param user
              ])
              (counted v)
              Issues
      decided user found false = raise-Ensures (refused-Issues password_mismatch (counted v))
      decided user found true = issue_token-Issues (counted v) user found

  login-Issues : ArePlain w → Ensures (login out crypto param) w Issues
  unfolding login
  login-Issues h = bind-Ensures (
      cached-Ensures out (λ c. get_login param.email c.logins)
        (login_by_password-Issues (counted w) refl)
        (λ token e. absurd (none-ne-some (get_login-none param.email w.cache.logins h) e)))

-- The header that a client sends a token in.
abbrev pub bearer : String → String
bearer token = "B" ∷ "e" ∷ "a" ∷ "r" ∷ "e" ∷ "r" ∷ " " ∷ token

second_part-bearer :
    (token : String) → split token ≡ (token, []) → second_part (bearer token) ≡ some token
unfolding second_part split
second_part-bearer token e = rw (e) refl

module _ {B : Type 0} (http : HttpHost World) (out : Outside) (crypto : Crypto)
    (laws : JwtLaws http crypto) (handler : Handler World B) where
  -- What Login puts into a token is such a date.
  is_date : (t : ℕ) → t < 9_007_199_254_740_992 * second → IsDate crypto (crypto.numeric_date t)
  is_date t h = (laws.cut t, (let (low, high) = laws.dates t in omega arith))

  -- A token that Login has answered, while Redis holds login tokens as plain strings, opens every
  -- route within Auth to a request that sends it as a bearer token, from the time after Login until a
  -- second before thirty minutes have passed since; the handler then finds that user's identifier in
  -- the context. Login's clock shows times from t to u, before 2^53 seconds.
  pub token-admits :
      (param : LoginRequest) (w v : World) (token : String) (r : Request) (t u : ℕ)
      → ArePlain w
      → (login out crypto param w).0 ≡ ok token
      → ((call : ℕ) → t ≤ out.now call)
      → ((call : ℕ) → out.now call ≤ u)
      → u + 30 * minute < 9_007_199_254_740_992 * second
      → r.authorization ≡ bearer token
      → u ≤ http.now v
      → http.now v + second ≤ t + 30 * minute
      → (user : User) × (jwt : Claims) × (find_by_email param.email w.db ≡ some user)
        × (jwt.subject ≡ crypto.uuid_string user.id)
        × (guarded http handler r v
            ≡ recovered
                (with_request_id (identifier http r v) r).context
                (handler (with_token jwt (with_request_id (identifier http r v) r)) v))
  unfolding verify_token claims_for
  token-admits param w v token r t u plain answered after before range header late early =
      let (user, call, found, signed) =
        Ensures.ensured (login-Issues out crypto param w plain) token answered in
      (
        user,
        claims_for out crypto user call,
        found,
        refl,
        guarded-admits http handler r v token (claims_for out crypto user call)
            (ap second_part header
              ∙ second_part-bearer token
                  (laws.no_blank "HS256" (claims_for out crypto user call) token signed))
            (laws.parses options "HS256" (claims_for out crypto user call) token (http.now v) signed
              refl (is_date (out.now call + 30 * minute) (let later = after call in omega arith))
              (is_date (out.now call) (let later = after call in omega arith)) refl refl
              (let (low, high) = laws.dates (out.now call + 30 * minute) in
                let later = after call in omega arith)
              (let (low, high) = laws.dates (out.now call) in
                let sooner = before call in omega arith)),
      )

  -- The same token opens no route once thirty minutes have passed since Login: the state stays as it
  -- is and the reply is 401 or 500.
  pub token-expires :
      (param : LoginRequest) (w v : World) (token : String) (r : Request) (u : ℕ)
      → ArePlain w
      → (login out crypto param w).0 ≡ ok token
      → ((call : ℕ) → out.now call ≤ u)
      → u + 30 * minute < 9_007_199_254_740_992 * second
      → r.authorization ≡ bearer token
      → u + 30 * minute ≤ http.now v
      → ((guarded http handler r v).1 ≡ v) × IsRefusal (guarded http handler r v).0
  unfolding verify_token claims_for
  token-expires param w v token r u plain answered before range header late =
      let (user, call, found, signed) =
        Ensures.ensured (login-Issues out crypto param w plain) token answered in
      guarded-refuses http handler r v (λ sent sent_there.
        elim (Option-cases (verify_token http sent v)) [
          | inl none_valid ↦ none_valid
          | inr (jwt, verified) ↦ absurd (
              outdated user call sent jwt signed verified
                (the_token user call signed sent sent_there))
        ])
    where
      the_token :
          (user : User) (call : ℕ)
          → crypto.sign "HS256" (claims_for out crypto user call) ≡ some token
          → (sent : String) → second_part r.authorization ≡ some sent
          → sent ≡ token
      the_token user call signed sent there = some-injective sent token (
          sym there
          ∙ ap second_part header
          ∙ second_part-bearer token
              (laws.no_blank "HS256" (claims_for out crypto user call) token signed))

      outdated :
          (user : User) (call : ℕ) (sent : String) (jwt : Claims)
          → crypto.sign "HS256" (claims_for out crypto user call) ≡ some token
          → http.parse_with_claims options sent (http.now v) ≡ some jwt
          → sent ≡ token
          → ⊥
      outdated user call sent jwt signed verified is_token =
          let parsed =
            subst (λ x. http.parse_with_claims options x (http.now v) ≡ some jwt) is_token
              verified in
          let same =
            laws.same options "HS256" (claims_for out crypto user call) jwt token (http.now v)
              signed
              (is_date (out.now call + 30 * minute) (let sooner = before call in omega arith))
              (is_date (out.now call) (let sooner = before call in omega arith)) parsed in
          let expiry = ap (λ c. c.expires_at) same in
          let valid = laws.expires options jwt token (http.now v) refl parsed in
          let (low, high) = laws.dates (out.now call + 30 * minute) in
          let sooner = before call in omega arith
