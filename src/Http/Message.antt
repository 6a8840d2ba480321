-- ===== src/Http/Message.antt =====
-- Requests, replies and handlers, with WriteJsonResponse of internal/http/response.go and the request
-- identifier of internal/log/context.go. The texts of messages, the logs and the spans are left out.
use Prim.Native.String.{String}
use text.Mathlib.Text.{◌==◌ as str_eq}
use hedonify.Prelude.{ℕ, Bool, true, false, List, [], ◌∷◌, Option, none, some, if◌then◌else◌}
use hedonify.Service.World.{World}
use hedonify.Service.Call.{ok, err, M}
use hedonify.User.Service.{Claims}

-- The values that the middlewares attach to the context.
pub record Context : Type 0 where
  pub request_id : Option String
  pub jwt_token : Option Claims

-- A request. `vars` is what mux.Vars returns, `path_value` is http.Request.PathValue, `query` is
-- URL.Query().Get.
pub record Request : Type 0 where
  pub authorization : String
  pub x_request_id : String
  pub vars : List (String × String)
  pub path_value : String → String
  pub query : String → String
  pub body : String
  pub context : Context

-- `mux.Vars(r)[name]`, and whether the name is there.
unfoldable pub var? : String → List (String × String) → Option String
var? name [] = none
var? name ((k, v) ∷ rest) = if str_eq name k then some v else var? name rest

-- An absent name reads as the empty string.
unfoldable pub path_var : String → Request → String
path_var name r = elim (var? name r.vars) [ none ↦ "" | some v ↦ v ]

-- The "status" and "data" of a body.
pub data Body (B : Type 0) : Type 0 where
  failed : Body B
  success : B → Body B

-- What a client gets: the X-REQUEST-ID, the status code and the body; or the empty reply with status
-- 200 that net/http sends for a handler that wrote nothing.
pub data Reply (B : Type 0) : Type 0 where
  written : String → ℕ → Body B → Reply B
  empty : Reply B

-- A handler goes on, has replied, or panics.
pub data Flow (B A : Type 0) : Type 0 where
  next : A → Flow B A
  replied : Reply B → Flow B A
  panicked : Flow B A

abbrev pub Act : Type 0 → Type 0 → Type 0 → Type 0
Act S B A = S → Flow B A × S

abbrev pub Handler : Type 0 → Type 0 → Type 0
Handler S B = Request → Act S B (Unit {0})

module _ {S B : Type 0} where
  abbrev pub go_on : {A : Type 0} → A → Act S B A
  go_on a s = (next a, s)

  -- `return` before anything is written.
  abbrev pub return_empty : {A : Type 0} → Act S B A
  return_empty s = (replied empty, s)

  abbrev pub panic : {A : Type 0} → Act S B A
  panic s = (panicked, s)

  infixl 5 ◌>>=◌ ◌>>◌
  unfoldable pub ◌>>=◌ : {A C : Type 0} → Act S B A → (A → Act S B C) → Act S B C
  ◌>>=◌ m f s =
      let (r, s') = m s in
      elim r [ next a ↦ f a s' | replied reply ↦ (replied reply, s') | panicked ↦ (panicked, s') ]

  abbrev pub ◌>>◌ : {A C : Type 0} → Act S B A → Act S B C → Act S B C
  m >> k = m >>= λ _. k

  -- WriteJsonResponse, and the `return` after it. The request identifier is asserted to be a string.
  unfoldable pub write_json_response : {A : Type 0} → Context → ℕ → Body B → Act S B A
  write_json_response c status body = elim c.request_id [
    | none ↦ panic
    | some request_id ↦ λ s. (replied (written request_id status body), s)
  ]

  -- `if err != nil { WriteJsonResponse(…); return }` on a value that may be missing.
  unfoldable pub or_failed : {A : Type 0} → Context → ℕ → Option A → Act S B A
  or_failed c status o = elim o [ none ↦ write_json_response c status failed | some a ↦ go_on a ]

  -- The same on a test.
  unfoldable pub require : Context → ℕ → Bool → Act S B (Unit {0})
  require c status test = elim test [
    | false ↦ write_json_response c status failed
    | true ↦ go_on tt
  ]

-- The same on a call of a service.
unfoldable pub or_failed_call : {B A : Type 0} → Context → ℕ → M A → Act World B A
or_failed_call c status m w =
    let (r, w') = m w in
    elim r [ ok a ↦ (next a, w') | err _ ↦ write_json_response c status failed w' ]
