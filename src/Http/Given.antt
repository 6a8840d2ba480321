-- ===== src/Http/Given.antt =====
-- Replies with data under the three middlewares.
use Prim.Native.String.{String}
use hedonify.Prelude.{ℕ, ◌≡◌, refl, ap, ◌∙◌, subst, inl, inr, some}
use hedonify.User.Service.{Claims}
use hedonify.Http.Message.{Request, failed, Flow, replied, written, Handler}
use hedonify.Http.Token.{HttpHost, second_part, verify_token}
use hedonify.Http.Middleware.{recovered}
use hedonify.Http.Success.{body?, Gives, recovered-state, recovered-Gives}
use hedonify.Http.Access.{
  IsRefusal, with_request_id, with_token, guarded, guarded-refuses, guarded-admits, token-cases,
  identifier,
}

pub refusal-Gives : {B : Type 0} (f : Flow B (Unit {0})) (d : B) → IsRefusal f → ¬ Gives f d
unfolding body?
refusal-Gives f d (id, inl e) gives = let g = subst (λ x. Gives x d) e gives in cc
refusal-Gives f d (id, inr e) gives = let g = subst (λ x. Gives x d) e gives in cc

-- The request as it reaches the handler.
abbrev pub arriving : {S : Type 0} → HttpHost S → Claims → Request → S → Request
arriving host jwt r s = with_token jwt (with_request_id (identifier host r s) r)

-- Data is given to a request with a token that the parser accepts, by the handler.
pub guarded-Gives :
    {S B : Type 0} (host : HttpHost S) (handler : Handler S B) (r : Request) (s : S) (d : B)
    → Gives (guarded host handler r s).0 d
    → (token : String) × (jwt : Claims) × (second_part r.authorization ≡ some token)
      × (verify_token host token s ≡ some jwt)
      × Gives (handler (arriving host jwt r s) s).0 d
      × ((guarded host handler r s).1 ≡ (handler (arriving host jwt r s) s).1)
guarded-Gives host handler r s d gives = elim (token-cases host r s) [
  | inr none_valid ↦
      absurd (refusal-Gives _ d (guarded-refuses host handler r s none_valid).1 gives)
  | inl (token, jwt, found, verified) ↦
      let e = guarded-admits host handler r s token jwt found verified in
      (
        token,
        jwt,
        found,
        verified,
        recovered-Gives _ _ d (subst (λ x. Gives x.0 d) e gives),
        ap (λ x. x.1) e ∙ recovered-state _ _,
      )
]

abbrev pub IsFailure : {B : Type 0} → Flow B (Unit {0}) → Type 0
IsFailure f = (id : String) × (status : ℕ) × (f ≡ replied (written id status failed))

refusal-IsFailure : {B : Type 0} (f : Flow B (Unit {0})) → IsRefusal f → IsFailure f
refusal-IsFailure f (id, inl e) = (id, 401, e)
refusal-IsFailure f (id, inr e) = (id, 500, e)

-- A handler that stops with 400 before it touches the state, whatever the middlewares attach.
pub guarded-stops :
    {S B : Type 0} (host : HttpHost S) (handler : Handler S B) (r : Request) (s : S)
    → ((q : Request) (id : String)
        → q.context.request_id ≡ some id
        → q.path_value ≡ r.path_value
        → handler q s ≡ (replied (written id 400 failed), s))
    → ((guarded host handler r s).1 ≡ s) × IsFailure (guarded host handler r s).0
unfolding recovered
guarded-stops host handler r s stops = elim (token-cases host r s) [
  | inr none_valid ↦
      let (kept, refused) = guarded-refuses host handler r s none_valid in
      (kept, refusal-IsFailure _ refused)
  | inl (token, jwt, found, verified) ↦
      let id = identifier host r s in
      let q = with_request_id id r in
      let e =
        guarded-admits host handler r s token jwt found verified
        ∙ ap (recovered q.context) (stops (with_token jwt q) id refl refl) in
      (ap (λ x. x.1) e, (id, 400, ap (λ x. x.0) e))
]
