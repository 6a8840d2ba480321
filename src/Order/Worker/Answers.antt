-- ===== src/Order/Worker/Answers.antt =====
-- A tick of the worker on a batch whose channels are open.
use hedonify.Prelude.{ℕ, ◌≡◌, ◌≢◌, refl, ◌∙◌, List, [], ◌∷◌, All}
use hedonify.Prelude.Map.{Map, lookup}
use hedonify.Repository.Models.{Db}
use hedonify.Order.Request.{CreateOrder, OrderResponse, Error}
use hedonify.Order.Batch.Attempt.{done, failed}
use hedonify.Order.Batch.Create.{Host, Faults, transaction}
use hedonify.Order.Channel.{Channels, ok, result_for}
use hedonify.Order.Channel.Delivery.{
  return_order_error-return_all, return_order_result-return_all, error_result, AreOpen, AreAnswered,
  return_all_open,
}
use hedonify.Order.Worker.Tick.{tick_batch}
use hedonify.Order.Worker.{answer, Worker, after_batch, tick}

-- If the transaction of a pending batch commits, and the requests' channels are open and distinct,
-- then the tick returns: the tables are the transaction's, the batch is empty, every request has
-- exactly its own answer on its closed channel, and no other channel has changed.
pub tick_commits :
    (host : Host) (faults : Faults) (w : Worker) (order : CreateOrder) (rest : List CreateOrder)
    (responses : Map OrderResponse) (db : Db)
    → w.batch ≡ order ∷ rest
    → AreOpen (order ∷ rest) w.channels
    → transaction host faults (order ∷ rest) w.db ≡ done (responses, db)
    → (cs : Channels) × (tick host faults w ≡ ok (record w { batch = []; db = db; channels = cs }))
      × AreAnswered (result_for responses) (order ∷ rest) cs
      × ((b : ℕ)
          → All (λ param. param.result_channel ≢ b) (order ∷ rest)
          → lookup b cs ≡ lookup b w.channels)
unfolding answer after_batch
tick_commits host faults w order rest responses db e opened ran =
    let (cs, sent, answers, kept) =
      return_all_open (result_for responses) (order ∷ rest) w.channels opened in
    (
      cs,
      tick_batch host faults w order rest e
          ∙ rw ran
              (rw (return_order_result-return_all (order ∷ rest) responses w.channels, sent) refl),
      answers,
      kept,
    )

-- If it fails, the tables are as they were, every request is told the error, and the batch stays.
pub tick_fails :
    (host : Host) (faults : Faults) (w : Worker) (order : CreateOrder) (rest : List CreateOrder)
    (err : Error)
    → w.batch ≡ order ∷ rest
    → AreOpen (order ∷ rest) w.channels
    → transaction host faults (order ∷ rest) w.db ≡ failed err
    → (cs : Channels) × (tick host faults w ≡ ok (record w { channels = cs }))
      × AreAnswered (error_result err) (order ∷ rest) cs
unfolding answer after_batch
tick_fails host faults w order rest err e opened ran =
    let (cs, sent, answers, kept) =
      return_all_open (error_result err) (order ∷ rest) w.channels opened in
    (
      cs,
      tick_batch host faults w order rest e
          ∙ rw ran (rw (return_order_error-return_all (order ∷ rest) err w.channels, sent) refl),
      answers,
    )
