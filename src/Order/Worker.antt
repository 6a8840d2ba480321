-- ===== src/Order/Worker.antt =====
-- BatchCreateOrder with its answers, and OrderWorker.StartWorker of order/cmd/listener.go.
pub mod Tick
pub mod Crash
pub mod Answers
pub mod Ready
pub mod Shutdown
pub mod Unknown
use hedonify.Prelude.{◌≡◌, List, [], ◌∷◌, ◌++◌, Option, none, some}
use hedonify.Prelude.Map.{Map, lookup, insert}
use hedonify.Repository.Models.{Db}
use hedonify.Order.Request.{CreateOrder, OrderResponse, Error, no_order}
use hedonify.Order.Batch.Attempt.{Attempt, done, failed, crashed}
use hedonify.Order.Batch.Create.{Host, Faults, transaction}
use hedonify.Order.Channel.{
  Channel, Channels, open_channel, Run, ok, panic, blocked, ◌>>=◌, return_order_error,
  return_order_result,
}

-- What BatchCreateOrder returns, with the tables and the channels as it leaves them.
pub record Batched : Type 0 where
  pub db : Db
  pub channels : Channels
  pub err : Option Error
  pub orders : Map OrderResponse

-- How a batch answers once its transaction has ended.
unfoldable pub answer :
    List CreateOrder → Attempt (Map OrderResponse × Db) → Db → Channels → Run Batched
answer params (done (responses, db')) db cs = return_order_result params responses cs >>= λ cs'.
    ok (record { db = db'; channels = cs'; err = none; orders = responses })
answer params (failed e) db cs = return_order_error params e cs >>= λ cs'.
    ok (record { db = db; channels = cs'; err = some e; orders = [] })
answer params crashed db cs = panic

-- An empty batch returns its error before there is anyone to tell.
unfoldable pub batch_create_order : Host → Faults → List CreateOrder → Db → Channels → Run Batched
batch_create_order host faults [] db cs =
    ok (record { db = db; channels = cs; err = some no_order; orders = [] })
batch_create_order host faults (param ∷ params) db cs =
    answer (param ∷ params) (transaction host faults (param ∷ params) db) db cs

-- The worker and the requests that wait to enter its queue: the requests waiting in Checkout, the
-- pending batch, the tables, and the channels.
pub record Worker : Type 0 where
  pub waiting : List CreateOrder
  pub batch : List CreateOrder
  pub db : Db
  pub channels : Channels

-- After a batch: it is emptied after a success only.
unfoldable pub after_batch : Worker → Batched → Worker
after_batch w r = record w {
  batch = elim r.err [ none ↦ [] | some _ ↦ w.batch ];
  db = r.db;
  channels = r.channels;
}

-- The case of the ticker.
unfoldable pub tick : Host → Faults → Worker → Run Worker
tick host faults w = elim w.batch [
  | [] ↦ ok w
  | order ∷ rest ↦
      batch_create_order host faults (order ∷ rest) w.db w.channels >>= λ r. ok (after_batch w r)
]

-- The case of the queue.
unfoldable pub receive : CreateOrder → Worker → Worker
receive order w = record w { batch = w.batch ++ order ∷ [] }

-- The part of Checkout, order/internal/controller/order.go, before its first select: a new channel.
unfoldable pub request : CreateOrder → Worker → Worker
request order w = record w {
  waiting = order ∷ w.waiting;
  channels = insert order.result_channel open_channel w.channels;
}

-- What can happen next. Which of the waiting requests the queue takes is not determined, and each
-- may run out of time.
pub data Step (w : Worker) : Worker → Type 0 where
  ticks : (host : Host) (faults : Faults) {w' : Worker} → tick host faults w ≡ ok w' → Step w w'
  requests :
      (order : CreateOrder)
      → lookup order.result_channel w.channels ≡ none
      → Step w (request order w)
  receives :
      (before after : List CreateOrder) (order : CreateOrder)
      → w.waiting ≡ before ++ order ∷ after
      → Step w (receive order (record w { waiting = before ++ after }))
  gives_up :
      (before after : List CreateOrder) (order : CreateOrder)
      → w.waiting ≡ before ++ order ∷ after
      → Step w (record w { waiting = before ++ after })

pub data Reach (w : Worker) : Worker → Type 0 where
  here : Reach w w
  next : {v u : Worker} → Reach w v → Step v u → Reach w u

-- The goroutine of the worker, in its loop or after its return.
pub data Process : Type 0 where
  running returned : Worker → Process

-- The cases of the select: the context is done, the ticker, an order from the queue.
pub data Case : Type 0 where
  context_done : Case
  ticked : Host → Faults → Case
  queued : CreateOrder → List CreateOrder → Case

-- One round of the loop of StartWorker. A case of the queue has the order that the queue gives and
-- the requests that go on waiting.
unfoldable pub round : Case → Worker → Run Process
round context_done w = ok (returned w)
round (ticked host faults) w = tick host faults w >>= λ w'. ok (running w')
round (queued order rest) w = ok (running (receive order (record w { waiting = rest })))

-- A change outside the goroutine.
abbrev pub around : (Worker → Worker) → Process → Process
around f (running w) = running (f w)
around f (returned w) = returned (f w)

abbrev pub worker_of : Process → Worker
worker_of (running w) = w
worker_of (returned w) = w

-- What the queue can give.
abbrev pub Offers : Worker → Case → Type 0
Offers w context_done = Unit {0}
Offers w (ticked host faults) = Unit {0}
Offers w (queued order rest) =
    (before : List CreateOrder) × (after : List CreateOrder) × (w.waiting ≡ before ++ order ∷ after)
    × (rest ≡ before ++ after)

-- Rounds of the loop, and the requests, which go on arriving and running out of time.
pub data Move : Process → Process → Type 0 where
  rounds :
      {w : Worker} {p : Process} (c : Case) → Offers w c → round c w ≡ ok p → Move (running w) p
  asks :
      (p : Process) (order : CreateOrder)
      → lookup order.result_channel (worker_of p).channels ≡ none
      → Move p (around (request order) p)
  leaves :
      (p : Process) (before after : List CreateOrder) (order : CreateOrder)
      → (worker_of p).waiting ≡ before ++ order ∷ after
      → Move p (around (λ w. record w { waiting = before ++ after }) p)

pub data Moves (p : Process) : Process → Type 0 where
  stays : Moves p p
  moves : {q r : Process} → Moves p q → Move q r → Moves p r
