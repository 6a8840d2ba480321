-- ===== src/Order/Worker/Tick.antt =====
-- A tick of the worker, by the pending batch.
use hedonify.Prelude.{◌≡◌, List, [], ◌∷◌}
use hedonify.Order.Request.{CreateOrder}
use hedonify.Order.Batch.Create.{Host, Faults, transaction}
use hedonify.Order.Channel.{ok, ◌>>=◌}
use hedonify.Order.Worker.{answer, batch_create_order, Worker, after_batch, tick}

pub tick_empty :
    (host : Host) (faults : Faults) (w : Worker) → w.batch ≡ [] → tick host faults w ≡ ok w
unfolding tick
tick_empty host faults w e = simp (e, tick)

pub tick_batch :
    (host : Host) (faults : Faults) (w : Worker) (order : CreateOrder) (rest : List CreateOrder)
    → w.batch ≡ order ∷ rest
    → tick host faults w ≡ (
        answer (order ∷ rest) (transaction host faults (order ∷ rest) w.db) w.db w.channels >>= λ r.
        ok (after_batch w r))
unfolding tick batch_create_order
tick_batch host faults w order rest e = simp (e, tick)
