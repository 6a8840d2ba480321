-- ===== src/Order/Worker/Crash.antt =====
-- A worker whose batch has failed: it keeps the batch, whose channels are closed.
use hedonify.Prelude.{
  ◌≡◌, ◌≢◌, refl, sym, ap, ◌∙◌, List, [], ◌∷◌, ◌++◌, none, some, inl, inr, subst, Option-cases,
}
use hedonify.Prelude.Map.{Map, lookup-insert_fresh}
use hedonify.Repository.Models.{Db}
use hedonify.Order.Request.{CreateOrder, OrderResponse}
use hedonify.Order.Batch.Attempt.{Attempt, done, failed, crashed}
use hedonify.Order.Batch.Create.{Host, Faults, transaction}
use hedonify.Order.Channel.{
  Channels, open_channel, ok, panic, return_order_error, result_for, return_order_result,
}
use hedonify.Order.Channel.Delivery.{
  Run-bind, return_order_error-return_all, return_order_result-return_all, error_result, IsClosed,
  return_all-IsClosed, return_all_closed,
}
use hedonify.Order.Worker.Tick.{tick_empty, tick_batch}
use hedonify.Order.Worker.{
  Batched, answer, Worker, after_batch, tick, request, receive, Step, ticks, requests, receives,
  gives_up, Reach, here, next,
}

-- The first request of the pending batch has been answered already.
abbrev pub IsDoomed : Worker → Type 0
IsDoomed w =
    (order : CreateOrder) × (rest : List CreateOrder) × (w.batch ≡ order ∷ rest)
    × IsClosed order.result_channel w.channels

answer_closed :
    (order : CreateOrder) (rest : List CreateOrder) (t : Attempt (Map OrderResponse × Db)) (db : Db)
    (cs : Channels)
    → IsClosed order.result_channel cs
    → answer (order ∷ rest) t db cs ≡ panic
unfolding answer
answer_closed order rest (done (responses, db')) db cs closed =
    rw
      (
        return_order_result-return_all (order ∷ rest) responses cs,
        return_all_closed (result_for responses) order rest cs closed,
      )
      refl
answer_closed order rest (failed e) db cs closed =
    rw
      (
        return_order_error-return_all (order ∷ rest) e cs,
        return_all_closed (error_result e) order rest cs closed,
      )
      refl
answer_closed order rest crashed db cs closed = refl

tick_doomed : (host : Host) (faults : Faults) (w : Worker) → IsDoomed w → tick host faults w ≡ panic
tick_doomed host faults w (order, rest, e, closed) = rw (tick_batch host faults w order rest e) (
    rw
      (answer_closed order rest (transaction host faults (order ∷ rest) w.db) w.db w.channels
        closed)
      refl)

-- No step saves it, and none but a tick crashes.
pub Step-IsDoomed : {w w' : Worker} → Step w w' → IsDoomed w → IsDoomed w'
unfolding request receive
Step-IsDoomed {w} (ticks host faults e) doomed = absurd (cc (tick_doomed host faults w doomed, e))
Step-IsDoomed {w} (requests order fresh) (first, rest, e, (c, found, closed)) = (
  first,
  rest,
  e,
  (
    c,
    lookup-insert_fresh first.result_channel order.result_channel c open_channel w.channels fresh
        found,
    closed,
  ),
)
Step-IsDoomed (receives before after order e') (first, rest, e, closed) =
    (first, rest ++ order ∷ [], ap (λ b. b ++ order ∷ []) e, closed)
Step-IsDoomed (gives_up before after order e') doomed = doomed

Reach-IsDoomed : {w w' : Worker} → Reach w w' → IsDoomed w → IsDoomed w'
Reach-IsDoomed here doomed = doomed
Reach-IsDoomed (next r s) doomed = Step-IsDoomed s (Reach-IsDoomed r doomed)

pub ok-injective : {A : Type 0} {a b : A} → ok a ≡ ok b → a ≡ b
ok-injective e = cc

answer-IsClosed :
    (order : CreateOrder) (rest : List CreateOrder) (t : Attempt (Map OrderResponse × Db)) (db : Db)
    (cs : Channels) (r : Batched)
    → answer (order ∷ rest) t db cs ≡ ok r
    → IsClosed order.result_channel r.channels
unfolding answer
answer-IsClosed order rest (done (responses, db')) db cs r e =
    let (cs', sent, same) =
      Run-bind (return_order_result (order ∷ rest) responses cs)
        (λ cs'. ok (record { db = db'; channels = cs'; err = none; orders = responses })) e in
    subst (λ (r : Batched). IsClosed order.result_channel r.channels) (ok-injective same)
      (return_all-IsClosed (result_for responses) order rest cs cs'
        (sym (return_order_result-return_all (order ∷ rest) responses cs) ∙ sent))
answer-IsClosed order rest (failed er) db cs r e =
    let (cs', sent, same) =
      Run-bind (return_order_error (order ∷ rest) er cs)
        (λ cs'. ok (record { db = db; channels = cs'; err = some er; orders = [] })) e in
    subst (λ (r : Batched). IsClosed order.result_channel r.channels) (ok-injective same)
      (return_all-IsClosed (error_result er) order rest cs cs'
        (sym (return_order_error-return_all (order ∷ rest) er cs) ∙ sent))
answer-IsClosed order rest crashed db cs r e = cc

after_batch-IsDoomed :
    (order : CreateOrder) (rest : List CreateOrder) (w : Worker) (r : Batched)
    → w.batch ≡ order ∷ rest
    → IsClosed order.result_channel r.channels
    → (after_batch w r).batch ≢ []
    → IsDoomed (after_batch w r)
unfolding after_batch
after_batch-IsDoomed order rest w r e closed pending = elim (Option-cases r.err) [
  | inl ended ↦ absurd (pending (rw ended refl))
  | inr (er, ended) ↦ (order, rest, rw ended e, closed)
]

pub tick_pending :
    (host : Host) (faults : Faults) (w w' : Worker) (batch : List CreateOrder)
    → w.batch ≡ batch
    → tick host faults w ≡ ok w'
    → w'.batch ≢ []
    → IsDoomed w'
tick_pending host faults w w' [] b e pending = absurd (
    pending (
      ap (λ (v : Worker). v.batch) (sym (ok-injective (sym (tick_empty host faults w b) ∙ e))) ∙ b))
tick_pending host faults w w' (order ∷ rest) b e pending =
    let (r, ran, same) =
      Run-bind (answer (order ∷ rest) (transaction host faults (order ∷ rest) w.db) w.db w.channels)
        (λ r. ok (after_batch w r)) (sym (tick_batch host faults w order rest b) ∙ e) in
    let same' = ok-injective same in
    subst IsDoomed same' (
      after_batch-IsDoomed order rest w r b
        (answer-IsClosed order rest (transaction host faults (order ∷ rest) w.db) w.db w.channels r
          ran)
        (subst (λ (v : Worker). v.batch ≢ []) (sym same') pending))

-- When a tick's batch fails, so that it is still pending afterwards, then whatever requests arrive,
-- enter the batch or give up, the worker panics at its next tick, whatever the database does then.
pub failed_batch_panics :
    (host host' : Host) (faults faults' : Faults) (w w' w'' : Worker)
    → tick host faults w ≡ ok w'
    → w'.batch ≢ []
    → Reach w' w''
    → tick host' faults' w'' ≡ panic
failed_batch_panics host host' faults faults' w w' w'' e pending r =
    tick_doomed host' faults' w''
      (Reach-IsDoomed r (tick_pending host faults w w' w.batch refl e pending))
