-- ===== src/Http/Middleware.antt =====
-- Logging, RecoverPanic and Auth of internal/middleware, and the tables of routes. The middleware of
-- otelmux, which opens a span, is left out.
use Prim.Native.String.{String}
use text.Mathlib.Text.{◌==◌ as str_eq}
use hedonify.Prelude.{true, false, List, [], ◌∷◌, none, some}
use hedonify.Http.Message.{
  Context, failed, Flow, next, replied, panicked, Handler, write_json_response,
}
use hedonify.Http.Token.{HttpHost, second_part, verify_token}

-- The deferred function of RecoverPanic, which writes with the context that RecoverPanic was given.
unfoldable pub recovered : {S B : Type 0} → Context → Flow B (Unit {0}) × S → Flow B (Unit {0}) × S
recovered c (next a, s) = (next a, s)
recovered c (replied reply, s) = (replied reply, s)
recovered c (panicked, s) = write_json_response c 500 failed s

unfoldable pub recover_panic : {S B : Type 0} → Handler S B → Handler S B
recover_panic next_handler r s = recovered r.context (next_handler r s)

module _ {S B : Type 0} (host : HttpHost S) where
  unfoldable pub logging : Handler S B → Handler S B
  logging next_handler r s =
      let req_id : String = elim (str_eq r.x_request_id "") [
        | true ↦ host.new_string s
        | false ↦ r.x_request_id
      ] in
      next_handler (record r { context = record r.context { request_id = some req_id } }) s

  -- The part of Auth after the header is found.
  unfoldable pub authorize : Handler S B → Handler S B
  authorize next_handler r s = elim (second_part r.authorization) [
    | none ↦ (panicked, s)
    | some token ↦ elim (verify_token host token s) [
      | none ↦ write_json_response r.context 401 failed s
      | some jwt ↦ next_handler (record r { context = record r.context { jwt_token = some jwt } }) s
    ]
  ]

  unfoldable pub auth : Handler S B → Handler S B
  auth next_handler r s = elim (str_eq r.authorization "") [
    | true ↦ write_json_response r.context 401 failed s
    | false ↦ authorize next_handler r s
  ]

-- A route: its method, its pattern, and its handler within the middlewares of its router.
pub record Route (S B : Type 0) : Type 0 where
  pub method : String
  pub pattern : String
  pub middlewares : List (Handler S B → Handler S B)
  pub handler : Handler S B

-- The first middleware is the outermost.
unfoldable pub wrap : {S B : Type 0} → List (Handler S B → Handler S B) → Handler S B → Handler S B
wrap [] handler = handler
wrap (m ∷ ms) handler = m (wrap ms handler)

-- How a request is answered by the route that the router has chosen for it.
unfoldable pub serve : {S B : Type 0} → Route S B → Handler S B
serve route = wrap route.middlewares route.handler
