-- ===== src/Http/Success.antt =====
-- What a reply with data tells of the calls before it.
use Prim.Native.String.{String}
use hedonify.Prelude.{ℕ, ◌≡◌, refl, true, false, Bool, Option, none, some}
use hedonify.Service.World.{World}
use hedonify.Service.Call.{Answer, ok, err, M}
use hedonify.Http.Message.{
  Context, Body, failed, success, written, empty, Flow, next, replied, panicked, Act, ◌>>=◌,
  write_json_response, or_failed, require, or_failed_call,
}
use hedonify.Http.Middleware.{recovered}

-- The body of a reply, where there is one.
unfoldable pub body? : {B A : Type 0} → Flow B A → Option (Body B)
body? (replied (written id status body)) = some body
body? (replied empty) = none
body? (next a) = none
body? panicked = none

-- The data that the client gets.
abbrev pub Gives : {B A : Type 0} → Flow B A → B → Type 0
Gives f d = body? f ≡ some (success d)

module _ {S B : Type 0} where
  pub write-Gives :
      (c : Context) (status : ℕ) (b : Body B) (s : S) (d : B)
      → Gives (write_json_response {S = S} {B = B} {A = Unit {0}} c status b s).0 d
      → b ≡ success d
  unfolding write_json_response body?
  write-Gives c status b s d = go c.request_id
    where
      go :
          (o : Option String)
          → Gives
              ((elim o as (λ x. Act S B (Unit {0})) [
                | none ↦ λ t. (panicked, t)
                | some id ↦ λ t. (replied (written id status b), t)
              ])
                s).0
              d
          → b ≡ success d
      go none f = cc
      go (some id) f = cc

  pub write-state :
      (c : Context) (status : ℕ) (b : Body B) (s : S)
      → (write_json_response {S = S} {B = B} {A = Unit {0}} c status b s).1 ≡ s
  unfolding write_json_response
  write-state c status b s = go c.request_id
    where
      go :
          (o : Option String)
          → ((elim o as (λ x. Act S B (Unit {0})) [
            | none ↦ λ t. (panicked, t)
            | some id ↦ λ t. (replied (written id status b), t)
          ])
              s).1
            ≡ s
      go none = refl
      go (some id) = refl

  pub recovered-state : (c : Context) (x : Flow B (Unit {0}) × S) → (recovered c x).1 ≡ x.1
  unfolding recovered
  recovered-state c (next a, s) = refl
  recovered-state c (replied r, s) = refl
  recovered-state c (panicked, s) = write-state c 500 failed s

  pub recovered-Gives :
      (c : Context) (x : Flow B (Unit {0}) × S) (d : B) → Gives (recovered c x).0 d → Gives x.0 d
  unfolding recovered body?
  recovered-Gives c (next a, s) d e = e
  recovered-Gives c (replied r, s) d e = e
  recovered-Gives c (panicked, s) d e = let f = write-Gives c 500 failed s d e in cc

module _ {S B A C : Type 0} where
  pub write_failed-Gives :
      (c : Context) (status : ℕ) (f : C → Act S B A) (s : S) (d : B)
      → ¬ Gives ((write_json_response c status failed >>= f) s).0 d
  unfolding write_json_response ◌>>=◌ body?
  write_failed-Gives c status f s d = go c.request_id
    where
      go :
          (o : Option String)
          → ¬ Gives
              (((elim o as (λ x. Act S B C) [
                | none ↦ λ t. (panicked, t)
                | some id ↦ λ t. (replied (written id status failed), t)
              ])
                  >>= f)
                s).0
              d
      go none e = cc
      go (some id) e = cc

  pub or_failed-Gives :
      (c : Context) (status : ℕ) (o : Option C) (f : C → Act S B A) (s : S) (d : B)
      → Gives ((or_failed c status o >>= f) s).0 d
      → (a : C) × (o ≡ some a) × Gives (f a s).0 d
  unfolding or_failed ◌>>=◌
  or_failed-Gives c status none f s d e = absurd (write_failed-Gives c status f s d e)
  or_failed-Gives c status (some a) f s d e = (a, refl, e)

pub require-Gives :
    {S B A : Type 0} (c : Context) (status : ℕ) (test : Bool) (f : Unit {0} → Act S B A) (s : S)
    (d : B)
    → Gives ((require c status test >>= f) s).0 d
    → (test ≡ true) × Gives (f tt s).0 d
unfolding require ◌>>=◌
require-Gives c status false f s d e = absurd (write_failed-Gives c status f s d e)
require-Gives c status true f s d e = (refl, e)

pub or_failed_call-Gives :
    {B A C : Type 0} (c : Context) (status : ℕ) (m : M C) (f : C → Act World B A) (w : World)
    (d : B)
    → Gives ((or_failed_call c status m >>= f) w).0 d
    → (a : C) × ((m w).0 ≡ ok a) × Gives (f a (m w).1).0 d
unfolding or_failed_call ◌>>=◌
or_failed_call-Gives {B} {A} {C} c status m f w d = go (m w)
  where
    go :
        (x : Answer C × World)
        → Gives
            (((λ (v : World). elim x.0 as (λ y. Flow B C × World) [
              | ok a ↦ (next a, x.1)
              | err _ ↦ write_json_response c status failed x.1
            ])
                >>= f)
              w).0
            d
        → (a : C) × (x.0 ≡ ok a) × Gives (f a x.1).0 d
    go (ok a, v) e = (a, refl, e)
    go (err a, v) e = absurd (write_failed-Gives c status f v d e)
