-- ===== src/Order/Channel/Delivery.antt =====
-- The answers on the channels of a batch.
use hedonify.Prelude.{
  ℕ, ◌≡◌, ◌≢◌, refl, ap, ◌∙◌, inl, inr, true, List, [], ◌∷◌, some, arith, ◌==◌, ==_refl, Bool-cases,
  All, fun_ext, subst,
}
use hedonify.Prelude.Map.{Map, lookup, insert, lookup-insert}
use hedonify.Order.Request.{CreateOrder, OrderResponse, zero_order, Error, Result}
use hedonify.Order.Channel.{
  Channel, Channels, open_channel, Run, ok, panic, blocked, ◌>>=◌, send_on, close_on, deliver,
  return_order_error, result_for, return_order_result,
}

-- Inversion of a chain that returns.
pub Run-bind :
    {A B : Type 0} (m : Run A) (f : A → Run B) {b : B}
    → (m >>= f) ≡ ok b
    → (a : A) × (m ≡ ok a) × (f a ≡ ok b)
Run-bind (ok a) f e = (a, refl, e)
Run-bind panic f e = cc
Run-bind blocked f e = cc

-- The answers of a batch, one for each request.
pub return_all : (CreateOrder → Result) → List CreateOrder → Channels → Run Channels
return_all f [] cs = ok cs
return_all f (param ∷ params) cs = deliver param.result_channel (f param) cs >>= return_all f params

abbrev pub error_result : Error → CreateOrder → Result
error_result e param = record { order = zero_order; err = some e }

pub return_order_error-return_all :
    (params : List CreateOrder) (e : Error) (cs : Channels)
    → return_order_error params e cs ≡ return_all (error_result e) params cs
unfolding return_order_error return_all
return_order_error-return_all [] e cs = refl
return_order_error-return_all (param ∷ params) e cs =
    ap (λ k. deliver param.result_channel (error_result e param) cs >>= k)
      (fun_ext (λ cs'. return_order_error-return_all params e cs'))

pub return_order_result-return_all :
    (params : List CreateOrder) (responses : Map OrderResponse) (cs : Channels)
    → return_order_result params responses cs ≡ return_all (result_for responses) params cs
unfolding return_order_result return_all
return_order_result-return_all [] responses cs = refl
return_order_result-return_all (param ∷ params) responses cs =
    ap (λ k. deliver param.result_channel (result_for responses param) cs >>= k)
      (fun_ext (λ cs'. return_order_result-return_all params responses cs'))

abbrev pub IsClosed : ℕ → Channels → Type 0
IsClosed a cs = (c : Channel) × (lookup a cs ≡ some c) × (c.closed ≡ true)

deliver_closed : (a : ℕ) (r : Result) (cs : Channels) → IsClosed a cs → deliver a r cs ≡ panic
unfolding deliver send_on
deliver_closed a r cs (c, e, closed) = rw (e, deliver) (rw (closed, send_on) refl)

abbrev pub answered : Result → Channel
answered r = record { buffer = r ∷ []; closed = true }

-- A channel that is open and empty takes its result.
deliver_open :
    (a : ℕ) (r : Result) (cs : Channels)
    → lookup a cs ≡ some open_channel
    → deliver a r cs ≡ ok (insert a (answered r) cs)
unfolding deliver send_on close_on
deliver_open a r cs e = rw (e, deliver) refl

-- Only such a channel takes one.
deliver-eq-ok :
    (a : ℕ) (r : Result) (cs cs' : Channels)
    → deliver a r cs ≡ ok cs'
    → cs' ≡ insert a (answered r) cs
unfolding deliver send_on close_on
deliver-eq-ok a r cs cs' e = ground arith

-- A delivery that returns has closed its channel, and leaves closed channels closed.
deliver-IsClosed :
    (a : ℕ) (r : Result) (cs cs' : Channels) → deliver a r cs ≡ ok cs' → IsClosed a cs'
deliver-IsClosed a r cs cs' e = (
  answered r,
  rw (deliver-eq-ok a r cs cs' e, lookup-insert a a (answered r) cs, ==_refl a) refl,
  refl,
)

deliver_keeps_IsClosed :
    (a b : ℕ) (r : Result) (cs cs' : Channels)
    → deliver a r cs ≡ ok cs'
    → IsClosed b cs
    → IsClosed b cs'
deliver_keeps_IsClosed a b r cs cs' e (c, found, closed) = elim (Bool-cases (b == a)) [
  | inl same ↦ (
    answered r,
    rw (deliver-eq-ok a r cs cs' e, lookup-insert b a (answered r) cs, same) refl,
    refl,
  )
  | inr other ↦
      (c, rw (deliver-eq-ok a r cs cs' e, lookup-insert b a (answered r) cs, other) found, closed)
]

module _ (f : CreateOrder → Result) where
  return_all_keeps_IsClosed :
      (b : ℕ) (params : List CreateOrder) (cs cs' : Channels)
      → return_all f params cs ≡ ok cs'
      → IsClosed b cs
      → IsClosed b cs'
  unfolding return_all
  return_all_keeps_IsClosed b [] cs cs' e closed = subst (IsClosed b) (ground arith) closed
  return_all_keeps_IsClosed b (param ∷ params) cs cs' e closed =
      let (cs'', sent, rest) =
        Run-bind (deliver param.result_channel (f param) cs) (return_all f params) e in
      return_all_keeps_IsClosed b params cs'' cs' rest
        (deliver_keeps_IsClosed param.result_channel b (f param) cs cs'' sent closed)

  -- Once a batch with at least one request has been answered, its first channel is closed.
  pub return_all-IsClosed :
      (param : CreateOrder) (params : List CreateOrder) (cs cs' : Channels)
      → return_all f (param ∷ params) cs ≡ ok cs'
      → IsClosed param.result_channel cs'
  unfolding return_all
  return_all-IsClosed param params cs cs' e =
      let (cs'', sent, rest) =
        Run-bind (deliver param.result_channel (f param) cs) (return_all f params) e in
      return_all_keeps_IsClosed param.result_channel params cs'' cs' rest
        (deliver-IsClosed param.result_channel (f param) cs cs'' sent)

  pub return_all_closed :
      (param : CreateOrder) (params : List CreateOrder) (cs : Channels)
      → IsClosed param.result_channel cs
      → return_all f (param ∷ params) cs ≡ panic
  unfolding return_all
  return_all_closed param params cs closed =
      rw (deliver_closed param.result_channel (f param) cs closed) refl

-- Every request's channel is open and empty, and no two requests share one.
abbrev pub AreOpen : List CreateOrder → Channels → Type 0
AreOpen [] cs = Unit {0}
AreOpen (param ∷ params) cs =
    (lookup param.result_channel cs ≡ some open_channel)
    × All (λ other. other.result_channel ≢ param.result_channel) params
    × AreOpen params cs

AreOpen-insert :
    (a : ℕ) (c : Channel) (params : List CreateOrder) (cs : Channels)
    → All (λ other. other.result_channel ≢ a) params
    → AreOpen params cs
    → AreOpen params (insert a c cs)
AreOpen-insert a c [] cs others opened = tt
AreOpen-insert a c (param ∷ params) cs others opened = (
  ground (arith, lookup-insert param.result_channel a c cs, others.0, opened.0),
  opened.1,
  AreOpen-insert a c params cs others.1 opened.2,
)

module _ (f : CreateOrder → Result) where
  -- Each request has its result, and its channel is closed.
  abbrev pub AreAnswered : List CreateOrder → Channels → Type 0
  AreAnswered params cs =
      All (λ param. lookup param.result_channel cs ≡ some (answered (f param))) params

  pub return_all_open :
      (params : List CreateOrder) (cs : Channels)
      → AreOpen params cs
      → (cs' : Channels) × (return_all f params cs ≡ ok cs')
        × AreAnswered params cs'
        × ((b : ℕ) → All (λ param. param.result_channel ≢ b) params → lookup b cs' ≡ lookup b cs)
  unfolding return_all
  return_all_open [] cs opened = (cs, refl, tt, λ b h. refl)
  return_all_open (param ∷ params) cs opened =
      let cs1 = insert param.result_channel (answered (f param)) cs in
      let (cs', ran, answers, kept) =
        return_all_open params cs1
          (AreOpen-insert param.result_channel (answered (f param)) params cs opened.1 opened.2) in
      (
        cs',
        rw (deliver_open param.result_channel (f param) cs opened.0) ran,
        (
          kept param.result_channel opened.1
              ∙ (rw
                  (
                    lookup-insert param.result_channel param.result_channel (answered (f param)) cs,
                    ==_refl param.result_channel,
                  )
                  refl),
          answers,
        ),
        λ b h.
            kept b h.1
            ∙ ground (arith, lookup-insert b param.result_channel (answered (f param)) cs, h.0),
      )
