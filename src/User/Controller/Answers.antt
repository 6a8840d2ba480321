-- ===== src/User/Controller/Answers.antt =====
-- The replies of the login and registration routes.
use Prim.Native.String.{String}
use hedonify.Prelude.{
  ◌≡◌, refl, ap, ◌∙◌, sym, Bool, Option-cases, inl, inr, true, false, none, some,
}
use hedonify.Repository.Models.{User}
use hedonify.Repository.Users.{find_by_email}
use hedonify.Service.World.{World}
use hedonify.Service.Call.{Answer, ok, err, M, email_exist, raise, read, counted}
use hedonify.Service.Rules.{bind_attempt_ok, read-up}
use hedonify.User.Request.{LoginRequest, Register}
use hedonify.User.Service.{register, register_new}
use hedonify.User.Passwords.{ArePlain, login-password}
use hedonify.Http.Message.{
  Context, Request, failed, success, written, Flow, next, replied, ◌>>=◌, write_json_response,
  or_failed,
}
use hedonify.Http.Runs.{bind_next, bind_replied}
use hedonify.Http.Success.{
  Gives, recovered-Gives, or_failed-Gives, require-Gives, or_failed_call-Gives,
}
use hedonify.Http.Middleware.{logging, recovered, recover_panic, wrap, serve}
use hedonify.Http.Access.{with_request_id, identifier}
use hedonify.User.Controller.{
  UserData, token_of, UserHost, login_handler, register_handler, user_router, or_refused,
  check_register, message, refused_or, refuse_register,
}

passes : (c : Context) (valid : Bool) (w : World) → check_register c valid w ≡ (next tt, w)
unfolding check_register
passes c true w = refl
passes c false w = refl

module _ (host : UserHost) where
  login_handler-Gives :
      (q : Request) (w : World) (token : String)
      → ArePlain w
      → Gives (login_handler host q w).0 (token_of token)
      → (param : LoginRequest) × (user : User) × (host.decode_login q.body ≡ some param)
        × (find_by_email param.email w.db ≡ some user)
        × (host.crypto.matches user.password param.password ≡ true)
  unfolding login_handler
  login_handler-Gives q w token plain gives =
      let (param, decoded, gives') = or_failed-Gives q.context 400 _ _ w (token_of token) gives in
      let (_, gives'') = require-Gives q.context 400 _ _ w (token_of token) gives' in
      let (t, answered, _) = or_failed_call-Gives q.context 400 _ _ w (token_of token) gives'' in
      let (user, found, matched) = login-password host.out host.crypto param w t plain answered in
      (param, user, decoded, found, matched)

  -- A token that POST /users/login replies with, while Redis holds login tokens as plain strings, is
  -- given to a request whose body names a user's address and a password that matches the hash stored
  -- for that user.
  pub login_route-password :
      (r : Request) (w : World) (token : String)
      → ArePlain w
      → Gives
          (serve (user_router host (login_handler host) "POST" "/users/login") r w).0
          (token_of token)
      → (param : LoginRequest) × (user : User) × (host.decode_login r.body ≡ some param)
        × (find_by_email param.email w.db ≡ some user)
        × (host.crypto.matches user.password param.password ≡ true)
  unfolding serve user_router wrap logging recover_panic
  login_route-password r w token plain gives =
      let q = with_request_id (identifier host.http r w) r in
      login_handler-Gives q w token plain
        (recovered-Gives q.context (login_handler host q w) (token_of token) gives)

  -- Registration goes on with what was decoded.
  register_handler-decoded :
      (q : Request) (w : World) (param : Register)
      → host.decode_register q.body ≡ some param
      → register_handler host q w
        ≡ (or_refused q.context (register host.out host.crypto param) >>= λ user.
              write_json_response q.context 200 (success message))
            w
  unfolding register_handler or_failed
  register_handler-decoded q w param decoded =
      bind_next _ _ w param w (rw (decoded) refl)
      ∙ bind_next _ _ w tt w (passes q.context (host.is_valid_register param) w)

  register_handler-undecoded :
      (q : Request) (w : World) (id : String)
      → q.context.request_id ≡ some id
      → host.decode_register q.body ≡ none
      → register_handler host q w ≡ (replied (written id 400 failed), w)
  unfolding register_handler or_failed write_json_response
  register_handler-undecoded q w id has undecoded =
      bind_replied _ _ w _ w (rw (undecoded, has) refl)

  -- A reply to a registration, within the middlewares of the router.
  register_route :
      (r : Request) (w : World) (x : Flow UserData (Unit {0}) × World)
      → register_handler host (with_request_id (identifier host.http r w) r) w ≡ x
      → serve (user_router host (register_handler host) "POST" "/users/register") r w
        ≡ recovered (with_request_id (identifier host.http r w) r).context x
  unfolding serve user_router wrap logging recover_panic
  register_route r w x e = ap (recovered (with_request_id (identifier host.http r w) r).context) e

  -- POST /users/register with the address of a user, where the query is answered, replies 409 and
  -- changes no table.
  register_route-conflict :
      (r : Request) (w : World) (param : Register) (user : User)
      → host.decode_register r.body ≡ some param
      → find_by_email param.email w.db ≡ some user
      → host.out.down w.calls ≡ false
      → serve (user_router host (register_handler host) "POST" "/users/register") r w
        ≡ (replied (written (identifier host.http r w) 409 failed), counted w)
  unfolding or_refused refused_or refuse_register write_json_response register recovered
  register_route-conflict r w param user decoded found up =
      let q = with_request_id (identifier host.http r w) r in
      register_route r w _ (
        register_handler-decoded q w param decoded
        ∙ bind_replied (or_refused q.context (register host.out host.crypto param)) _ w
            (written (identifier host.http r w) 409 failed) (counted w)
            (ap (refused_or q.context) (
              bind_attempt_ok (read host.out (find_by_email param.email)) decide w (counted w) user
                (read-up host.out w up (find_by_email param.email) user found))))
    where
      decide : Answer User → M User
      decide x = elim x [
        | ok _ ↦ raise email_exist
        | err _ ↦ register_new host.out host.crypto param
      ]

-- Whether the validator accepts the body makes no difference to POST /users/register.
register_route-unvalidated :
    (host : UserHost) (is_valid : Register → Bool) (r : Request) (w : World)
    → let other : UserHost = record host { is_valid_register = is_valid } in
      serve (user_router other (register_handler other) "POST" "/users/register") r w
      ≡ serve (user_router host (register_handler host) "POST" "/users/register") r w
register_route-unvalidated host is_valid r w =
    let q = with_request_id (identifier host.http r w) r in
    register_route other r w (register_handler host q w)
      (unchecked q (identifier host.http r w) refl)
    ∙ sym (register_route host r w (register_handler host q w) refl)
  where
    other : UserHost
    other = record host { is_valid_register = is_valid }

    unchecked :
        (q : Request) (id : String)
        → q.context.request_id ≡ some id
        → register_handler other q w ≡ register_handler host q w
    unchecked q id has = elim (Option-cases (host.decode_register q.body)) [
      | inl undecoded ↦
          register_handler-undecoded other q w id has undecoded
          ∙ sym (register_handler-undecoded host q w id has undecoded)
      | inr (param, decoded) ↦
          register_handler-decoded other q w param decoded
          ∙ sym (register_handler-decoded host q w param decoded)
    ]
