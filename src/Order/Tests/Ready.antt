-- ===== src/Order/Tests/Ready.antt =====
-- A worker that starts, gets two requests, and ticks.
use hedonify.Prelude.{◌≡◌, refl, ◌≢◌, ◌⊎◌, [], ◌∷◌}
use hedonify.Order.Request.{CreateOrder, Result}
use hedonify.Order.Batch.Attempt.{crashed}
use hedonify.Order.Batch.Create.{transaction}
use hedonify.Order.Batch.Stock.Ends.{transaction-returns}
use hedonify.Order.Channel.{ok}
use hedonify.Order.Channel.Delivery.{AreAnswered}
use hedonify.Order.Worker.{Worker, tick, request, receive, Reach, here, next, requests, receives}
use hedonify.Order.Worker.Crash.{IsDoomed}
use hedonify.Order.Worker.Ready.{reached_tick-answers}
use hedonify.Order.Tests.{
  first, second, batch, tables, host, no_faults, batch-IsRegular, tables-AreKeyed,
  tables-AreStocked,
}

abbrev start : Worker
start = record { waiting = []; batch = []; db = tables; channels = [] }

abbrev one_asked : Worker
one_asked = request first start

abbrev two_asked : Worker
two_asked = request second one_asked

abbrev one_taken : Worker
one_taken = receive first (record two_asked { waiting = second ∷ [] })

abbrev both_taken : Worker
both_taken = receive second (record one_taken { waiting = [] })

reached : Reach start both_taken
unfolding request receive
reached =
    next
      (next (next (next here (requests first refl)) (requests second refl))
        (receives (second ∷ []) [] first refl))
      (receives [] [] second refl)

taken_batch : both_taken.batch ≡ batch
unfolding request receive
taken_batch = refl

taken_db : both_taken.db ≡ tables
unfolding request receive
taken_db = refl

reached_tick-answers_example :
    IsDoomed both_taken
    ⊎ ((w' : Worker) × (f : (CreateOrder → Result)) × (tick host no_faults both_taken ≡ ok w')
        × AreAnswered f batch w'.channels)
unfolding request receive
reached_tick-answers_example =
    reached_tick-answers host no_faults start both_taken first (second ∷ []) refl refl reached
      taken_batch batch-IsRegular tables-AreKeyed tables-AreStocked

transaction-returns_example : transaction host no_faults batch tables ≢ crashed
transaction-returns_example =
    transaction-returns host no_faults batch tables batch-IsRegular tables-AreKeyed
      tables-AreStocked
