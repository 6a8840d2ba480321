-- ===== src/Order/Channel.antt =====
-- The result channels of the checkout requests, and returnOrderError and returnOrderResult of
-- order/internal/service/order.go, which answer on them.
pub mod Delivery
pub mod Open
use hedonify.Prelude.{ℕ, Bool, true, false, List, [], ◌∷◌, Option, none, some}
use hedonify.Prelude.Map.{Map, lookup, insert}
use hedonify.Order.Request.{CreateOrder, OrderResponse, zero_order, Error, out_of_stock, Result}

-- `make(chan response.Result, 1)`
pub record Channel : Type 0 where
  pub buffer : List Result
  pub closed : Bool

abbrev pub open_channel : Channel
open_channel = record { buffer = []; closed = false }

abbrev pub Channels : Type 0
Channels = Map Channel

-- A goroutine goes on, panics, or waits for ever.
pub data Run {ℓ} (A : Type ℓ) : Type ℓ where
  ok : A → Run A
  panic : Run A
  blocked : Run A

infixl 5 ◌>>=◌
abbrev pub ◌>>=◌ {ℓ κ} : {A : Type ℓ} {B : Type κ} → Run A → (A → Run B) → Run B
ok a >>= f = f a
panic >>= f = panic
blocked >>= f = blocked

-- A send on a channel of capacity one.
unfoldable pub send_on : Channel → Result → Run Channel
send_on c r = elim c.closed [
  | true ↦ panic
  | false ↦ elim c.buffer [ [] ↦ ok (record c { buffer = r ∷ [] }) | _ ∷ _ ↦ blocked ]
]

-- `close(c)`
unfoldable pub close_on : Channel → Run Channel
close_on c = elim c.closed [ true ↦ panic | false ↦ ok (record c { closed = true }) ]

-- The body of a goroutine: the send, and the deferred close. A nil channel blocks.
unfoldable pub deliver : ℕ → Result → Channels → Run Channels
deliver channel r cs = elim (lookup channel cs) [
  | none ↦ blocked
  | some c ↦ send_on c r >>= λ c'. close_on c' >>= λ c''. ok (insert channel c'' cs)
]

unfoldable pub return_order_error : List CreateOrder → Error → Channels → Run Channels
return_order_error [] err cs = ok cs
return_order_error (param ∷ params) err cs =
    deliver param.result_channel (record { order = zero_order; err = some err }) cs
    >>= return_order_error params err

-- The answer to one request.
unfoldable pub result_for : Map OrderResponse → CreateOrder → Result
result_for responses param = elim (lookup param.id responses) [
  | none ↦ record { order = zero_order; err = some out_of_stock }
  | some order ↦ record { order = order; err = none }
]

unfoldable pub return_order_result : List CreateOrder → Map OrderResponse → Channels → Run Channels
return_order_result [] responses cs = ok cs
return_order_result (param ∷ params) responses cs =
    deliver param.result_channel (result_for responses param) cs
    >>= return_order_result params responses
