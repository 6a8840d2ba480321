-- ===== src/Infra/Runs.antt =====
-- How commands that return, and commands that hang, are put together.
use mathlib.Core.List.{append-nil}
use hedonify.Prelude.{◌≡◌, refl, ap, ◌∙◌, List, [], ◌++◌}
use hedonify.Infra.Run.{
  Event, System, Run, returned, hangs, exited, after, Command, deferring, ◌>>=◌,
}

pub bind_returned :
    {A B : Type 0} (c : Command A) (k : A → Command B) {s s' s'' : System} {es fs : List Event}
    {a : A} {b : B}
    → c s ≡ returned es a s'
    → k a s' ≡ returned fs b s''
    → (c >>= k) s ≡ returned (es ++ fs) b s''
unfolding ◌>>=◌
bind_returned {A} {B} c k {es = es} p q =
    ap {B = Run B}
      (λ (r : Run A). elim r [
        | returned es a s' ↦ after es (k a s')
        | hangs es s' ↦ hangs es s'
        | exited es s' ↦ exited es s'
      ])
      p
    ∙ ap (after es) q

pub deferring_returned :
    {A : Type 0} (close : Command (Unit {0})) (body : Command A) {s s' s'' : System}
    {es fs : List Event} {a : A}
    → body s ≡ returned es a s'
    → close s' ≡ returned fs tt s''
    → deferring close body s ≡ returned (es ++ fs) a s''
unfolding deferring
deferring_returned close body {s'' = s''} {es = es} {fs = fs} {a = a} p q =
    bind_returned body (λ a. close >>= λ _ s. returned [] a s) p
      (bind_returned close (λ _ s. returned [] a s) q refl)
    ∙ ap (λ gs. returned (es ++ gs) a s'') (append-nil fs)

pub bind_hangs :
    {A B : Type 0} (c : Command A) (k : A → Command B) {s s' s'' : System} {es fs : List Event}
    {a : A}
    → c s ≡ returned es a s'
    → k a s' ≡ hangs fs s''
    → (c >>= k) s ≡ hangs (es ++ fs) s''
unfolding ◌>>=◌
bind_hangs {A} {B} c k {es = es} p q =
    ap {B = Run B}
      (λ (r : Run A). elim r [
        | returned es a s' ↦ after es (k a s')
        | hangs es s' ↦ hangs es s'
        | exited es s' ↦ exited es s'
      ])
      p
    ∙ ap (after es) q

-- Nothing follows a command that hangs, a deferred call least of all.
pub hangs_first :
    {A B : Type 0} (c : Command A) (k : A → Command B) {s s' : System} {es : List Event}
    → c s ≡ hangs es s'
    → (c >>= k) s ≡ hangs es s'
unfolding ◌>>=◌
hangs_first {A} {B} c k p =
    ap {B = Run B}
      (λ (r : Run A). elim r [
        | returned es a s' ↦ after es (k a s')
        | hangs es s' ↦ hangs es s'
        | exited es s' ↦ exited es s'
      ])
      p

pub deferring_hangs :
    {A : Type 0} (close : Command (Unit {0})) (body : Command A) {s s' : System} {es : List Event}
    → body s ≡ hangs es s'
    → deferring close body s ≡ hangs es s'
unfolding deferring
deferring_hangs close body p = hangs_first body _ p

-- A body that returns, and a deferred call that hangs.
pub deferred_hangs :
    {A : Type 0} (close : Command (Unit {0})) (body : Command A) {s s' s'' : System}
    {es fs : List Event} {a : A}
    → body s ≡ returned es a s'
    → close s' ≡ hangs fs s''
    → deferring close body s ≡ hangs (es ++ fs) s''
unfolding deferring
deferred_hangs close body p q = bind_hangs body _ p (hangs_first close _ q)
