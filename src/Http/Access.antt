-- ===== src/Http/Access.antt =====
-- Auth within Logging and RecoverPanic, around any handler.
use Prim.Native.String.{String}
use text.Mathlib.Text.{◌==◌ as str_eq}
use text.Mathlib.TextEquality.{eq_iff}
use mathlib.Core.Option.{some-injective}
use hedonify.Prelude.{
  ◌≡◌, refl, sym, subst, ◌≢◌, ap, ◌∙◌, ◌⊎◌, inl, inr, true, false, [], ◌∷◌, none, some, Bool-cases,
  Option-cases, none-ne-some,
}
use hedonify.User.Service.{Claims}
use hedonify.Http.Message.{
  Context, Request, failed, written, Flow, next, replied, panicked, Handler, write_json_response,
}
use hedonify.Http.Token.{HttpHost, second_part, split, verify_token}
use hedonify.Http.Middleware.{
  logging, recovered, recover_panic, authorize, auth, Route, wrap, serve,
}

-- No token that the parser accepts stands in the header.
abbrev pub HasNoToken : {S : Type 0} → HttpHost S → Request → S → Type 0
HasNoToken host r s =
    (token : String) → second_part r.authorization ≡ some token → verify_token host token s ≡ none

abbrev pub with_request_id : String → Request → Request
with_request_id id r = record r { context = record r.context { request_id = some id } }

abbrev pub with_token : Claims → Request → Request
with_token jwt r = record r { context = record r.context { jwt_token = some jwt } }

second_part-empty : (s : String) → str_eq s "" ≡ true → second_part s ≡ none
unfolding second_part split
second_part-empty s e = subst (λ x. second_part x ≡ none) (sym ((eq_iff s "").0 e)) refl

module _ {S B : Type 0} (host : HttpHost S) (next_handler : Handler S B) where
  authorize-refuses :
      (r : Request) (s : S) (id : String)
      → r.context.request_id ≡ some id
      → HasNoToken host r s
      → (authorize host next_handler r s ≡ (replied (written id 401 failed), s))
        ⊎ (authorize host next_handler r s ≡ (panicked, s))
  unfolding authorize write_json_response
  authorize-refuses r s id has none_valid = elim (Option-cases (second_part r.authorization)) [
    | inl none' ↦ inr (rw (authorize, none') refl)
    | inr (token, some') ↦ inl (rw (authorize, some', none_valid token some', has) refl)
  ]

  auth-refuses :
      (r : Request) (s : S) (id : String)
      → r.context.request_id ≡ some id
      → HasNoToken host r s
      → (auth host next_handler r s ≡ (replied (written id 401 failed), s))
        ⊎ (auth host next_handler r s ≡ (panicked, s))
  unfolding auth write_json_response
  auth-refuses r s id has none_valid = elim (Bool-cases (str_eq r.authorization "")) [
    | inl absent ↦ inl (rw (auth, absent, has) refl)
    | inr there ↦ elim (authorize-refuses r s id has none_valid) [
      | inl e ↦ inl (rw (auth, there) e)
      | inr e ↦ inr (rw (auth, there) e)
    ]
  ]

  pub auth-admits :
      (r : Request) (s : S) (token : String) (jwt : Claims)
      → second_part r.authorization ≡ some token
      → verify_token host token s ≡ some jwt
      → auth host next_handler r s ≡ next_handler (with_token jwt r) s
  unfolding auth authorize
  auth-admits r s token jwt found verified = elim (Bool-cases (str_eq r.authorization "")) [
    | inl absent ↦ absurd (none-ne-some (second_part-empty r.authorization absent) found)
    | inr there ↦ rw (auth, there, authorize, found, verified) refl
  ]

-- A reply 401, or 500 for a header without a second part.
abbrev pub IsRefusal : {B : Type 0} → Flow B (Unit {0}) → Type 0
IsRefusal f =
    (id : String) × ((f ≡ replied (written id 401 failed)) ⊎ (f ≡ replied (written id 500 failed)))

module _ {S B : Type 0} where
  recovered-panicked :
      (c : Context) (s : S) (id : String)
      → c.request_id ≡ some id
      → recovered {S = S} {B = B} c (panicked, s) ≡ (replied (written id 500 failed), s)
  unfolding recovered write_json_response
  recovered-panicked c s id has = rw (has) refl

  -- A handler within RecoverPanic, for a request with an identifier, does not panic.
  pub recovered-answers :
      (c : Context) (x : Flow B (Unit {0}) × S) (id : String)
      → c.request_id ≡ some id
      → (recovered c x).0 ≢ panicked
  unfolding recovered
  recovered-answers c (next a, s) id has f = cc
  recovered-answers c (replied a, s) id has f = cc
  recovered-answers c (panicked, s) id has f =
      let e = ap (λ (x : Flow B (Unit {0}) × S). x.0) (recovered-panicked c s id has) in cc

  refused-recovered :
      (c : Context) (x : Flow B (Unit {0}) × S) (s : S) (id : String)
      → c.request_id ≡ some id
      → (x ≡ (replied (written id 401 failed), s)) ⊎ (x ≡ (panicked, s))
      → ((recovered c x).1 ≡ s) × IsRefusal (recovered c x).0
  unfolding recovered
  refused-recovered c x s id has (inl e) =
      let f = ap (recovered c) e in (ap (λ y. y.1) f, (id, inl (ap (λ y. y.0) f)))
  refused-recovered c x s id has (inr e) =
      let f = ap (recovered c) e ∙ recovered-panicked c s id has in
      (ap (λ y. y.1) f, (id, inr (ap (λ y. y.0) f)))

-- The identifier that Logging gives a request.
abbrev pub identifier : {S : Type 0} → HttpHost S → Request → S → String
identifier host r s = elim (str_eq r.x_request_id "") [
  | true ↦ host.new_string s
  | false ↦ r.x_request_id
]

module _ {S B : Type 0} (host : HttpHost S) (next_handler : Handler S B) where
  -- The handler under the three middlewares.
  abbrev pub guarded : Handler S B
  guarded = wrap (logging host ∷ recover_panic ∷ auth host ∷ []) next_handler

  pub guarded-admits :
      (r : Request) (s : S) (token : String) (jwt : Claims)
      → second_part r.authorization ≡ some token
      → verify_token host token s ≡ some jwt
      → guarded r s
        ≡ recovered
            (with_request_id (identifier host r s) r).context
            (next_handler (with_token jwt (with_request_id (identifier host r s) r)) s)
  unfolding wrap logging recover_panic
  guarded-admits r s token jwt found verified =
      ap (recovered (with_request_id (identifier host r s) r).context) (
        auth-admits host next_handler (with_request_id (identifier host r s) r) s token jwt found
          verified)

  -- Without a token, the state stays and the reply is a refusal.
  pub guarded-refuses :
      (r : Request) (s : S)
      → HasNoToken host r s
      → ((guarded r s).1 ≡ s) × IsRefusal (guarded r s).0
  unfolding wrap logging recover_panic
  guarded-refuses r s none_valid =
      let q = with_request_id (identifier host r s) r in
      refused-recovered q.context (auth host next_handler q s) s (identifier host r s) refl
        (auth-refuses host next_handler q s (identifier host r s) refl none_valid)

  pub guarded-answers : (r : Request) (s : S) → (guarded r s).0 ≢ panicked
  unfolding wrap logging recover_panic
  guarded-answers r s =
      let q = with_request_id (identifier host r s) r in
      recovered-answers q.context (auth host next_handler q s) (identifier host r s) refl

module _ {S : Type 0} (host : HttpHost S) where
  -- A token that the parser accepts, or none.
  pub token-cases :
      (r : Request) (s : S)
      → ((token : String) × (jwt : Claims) × (second_part r.authorization ≡ some token)
          × (verify_token host token s ≡ some jwt))
        ⊎ HasNoToken host r s
  token-cases r s = elim (Option-cases (second_part r.authorization)) [
    | inl absent ↦ inr (λ token found. absurd (none-ne-some absent found))
    | inr (token, found) ↦ elim (Option-cases (verify_token host token s)) [
      | inl refused ↦ inr (λ other found'.
          subst (λ t. verify_token host t s ≡ none)
            (some-injective token other (sym found ∙ found')) refused)
      | inr (jwt, verified) ↦ inl (token, jwt, found, verified)
    ]
  ]

module _ {S B : Type 0} (host : HttpHost S) where
  -- The same of a route whose router uses the three.
  pub routed-refuses :
      (route : Route S B)
      → route.middlewares ≡ logging host ∷ recover_panic ∷ auth host ∷ []
      → (r : Request) (s : S) → HasNoToken host r s
      → ((serve route r s).1 ≡ s) × IsRefusal (serve route r s).0
  unfolding serve
  routed-refuses route guards r s none_valid =
      subst (λ ms. ((wrap ms route.handler r s).1 ≡ s) × IsRefusal (wrap ms route.handler r s).0)
        (sym guards) (guarded-refuses host route.handler r s none_valid)
