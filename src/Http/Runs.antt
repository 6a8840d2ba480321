-- ===== src/Http/Runs.antt =====
-- How a handler goes on after each of its steps.
use Prim.Native.String.{String}
use hedonify.Prelude.{ℕ, ◌≡◌, refl, sym, ◌∙◌, ap, Option, none, some}
use hedonify.Service.World.{World}
use hedonify.Service.Call.{Answer, ok, err, M}
use hedonify.Http.Message.{
  Context, Body, failed, Reply, written, Flow, next, replied, panicked, Act, ◌>>=◌,
  write_json_response, or_failed, or_failed_call,
}

abbrev after : {S B A C : Type 0} → (A → Act S B C) → Flow B A × S → Flow B C × S
after f (next a, s) = f a s
after f (replied reply, s) = (replied reply, s)
after f (panicked, s) = (panicked, s)

bind-after :
    {S B A C : Type 0} (m : Act S B A) (f : A → Act S B C) (s : S) → (m >>= f) s ≡ after f (m s)
unfolding ◌>>=◌
bind-after {S} {B} {A} {C} m f s = go (m s)
  where
    go :
        (x : Flow B A × S)
        → (elim x.0 as (λ y. Flow B C × S) [
          | next a ↦ f a x.1
          | replied reply ↦ (replied reply, x.1)
          | panicked ↦ (panicked, x.1)
        ])
          ≡ after f x
    go (next a, t) = refl
    go (replied a, t) = refl
    go (panicked, t) = refl

module _ {S B A C : Type 0} (m : Act S B A) (f : A → Act S B C) (s : S) where
  pub bind_next : (a : A) (t : S) → m s ≡ (next a, t) → (m >>= f) s ≡ f a t
  bind_next a t e = bind-after m f s ∙ ap (after f) e

  pub bind_replied :
      (reply : Reply B) (t : S) → m s ≡ (replied reply, t) → (m >>= f) s ≡ (replied reply, t)
  bind_replied reply t e = bind-after m f s ∙ ap (after f) e

-- Nested blocks run as one.
pub bind_assoc :
    {S B A C D : Type 0} (m : Act S B A) (f : A → Act S B C) (g : C → Act S B D) (s : S)
    → ((m >>= f) >>= g) s ≡ (m >>= λ a. f a >>= g) s
bind_assoc {S} {B} {A} m f g s =
    bind-after (m >>= f) g s
    ∙ ap (after g) (bind-after m f s)
    ∙ go (m s)
    ∙ sym (bind-after m (λ a. f a >>= g) s)
  where
    go : (x : Flow B A × S) → after g (after f x) ≡ after (λ a. f a >>= g) x
    go (next a, t) = sym (bind-after (f a) g t)
    go (replied a, t) = refl
    go (panicked, t) = refl

-- A service's call whose reply cannot be written leaves its effect, and a panic.
pub or_failed_call-unwritten :
    {B A : Type 0} (c : Context) (status status' : ℕ) (m : M A) (body : A → Body B) (w : World)
    → c.request_id ≡ none
    → (or_failed_call c status m >>= λ a.
          write_json_response {S = World} {B = B} {A = Unit {0}} c status' (body a))
        w
      ≡ (panicked, (m w).1)
unfolding or_failed_call write_json_response
or_failed_call-unwritten {B} {A} c status status' m body w no_id =
    bind-after (or_failed_call c status m) (λ a. write_json_response c status' (body a)) w
    ∙ go (m w)
  where
    go :
        (x : Answer A × World)
        → after
            (λ a. write_json_response {S = World} {B = B} {A = Unit {0}} c status' (body a))
            (elim x.0 as (λ y. Flow B A × World) [
              | ok a ↦ (next a, x.1)
              | err _ ↦ write_json_response c status failed x.1
            ])
          ≡ (panicked, x.1)
    go (ok a, v) = rw (no_id) refl
    go (err a, v) = rw (no_id) refl

module _ {S B A : Type 0} (c : Context) (status : ℕ) where
  pub or_failed-some :
      (o : Option A) (s : S) (a : A) → o ≡ some a → or_failed {B = B} c status o s ≡ (next a, s)
  unfolding or_failed
  or_failed-some o s a e = rw (e) refl

  pub write-has :
      (b : Body B) (s : S) (id : String)
      → c.request_id ≡ some id
      → write_json_response {A = A} c status b s ≡ (replied (written id status b), s)
  unfolding write_json_response
  write-has b s id has = rw (has) refl

abbrev called : {B A : Type 0} → Context → ℕ → Answer A × World → Flow B A × World
called c status (ok a, w) = (next a, w)
called c status (err e, w) = write_json_response c status failed w

pub or_failed_call-ok :
    {B A : Type 0} (c : Context) (status : ℕ) (m : M A) (w v : World) (a : A)
    → m w ≡ (ok a, v)
    → or_failed_call {B = B} c status m w ≡ (next a, v)
unfolding or_failed_call
or_failed_call-ok {B} {A} c status m w v a e = go (m w) ∙ ap (called c status) e
  where
    go :
        (x : Answer A × World)
        → (elim x.0 as (λ y. Flow B A × World) [
          | ok b ↦ (next b, x.1)
          | err _ ↦ write_json_response c status failed x.1
        ])
          ≡ called c status x
    go (ok b, t) = refl
    go (err b, t) = refl
