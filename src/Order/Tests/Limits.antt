-- ===== src/Order/Tests/Limits.antt =====
-- A batch whose sum wraps, and a worker that is stopped with an order taken.
use hedonify.Prelude.{◌≡◌, refl, [], ◌∷◌, List, arith, ok, ◌+ℤ◌}
use hedonify.Order.Request.{CreateOrder}
use hedonify.Order.Batch.Items.{total}
use hedonify.Order.Batch.Merge.{merge_order_items}
use hedonify.Order.Batch.Check.Allotment.{checked}
use hedonify.Order.Batch.Check.Wrap.{checked-FitsModulo}
use hedonify.Order.Channel.{open_channel}
use hedonify.Order.Channel as Channel
use hedonify.Order.Batch.Create.{Host, Faults}
use hedonify.Order.Worker.{
  Worker, request, returned, Moves, stays, moves, asks, context_done, round, tick, Reach,
}
use hedonify.Order.Worker.Shutdown.{Abandons, round-Abandons}
use hedonify.Order.Worker.Unknown.{unknown_product_panics}
use hedonify.Order.Tests.{
  wants, order, first, second, tables, tea, host, no_faults, tables-AreKeyed, tables-AreStocked,
}

-- The quantities sum to 2^32 and 4, of a stock of 5.
abbrev wrapping : List CreateOrder
wrapping =
    order 100 1 (wants 1 100 7 2_147_483_647 ∷ [])
    ∷ order 101 2 (wants 2 101 7 2_147_483_647 ∷ [])
    ∷ order 102 3 (wants 3 102 7 6 ∷ [])
    ∷ []

checked-FitsModulo_example :
    checked (tea ∷ []) wrapping
    ≡ ok (record {
      map_merged_order_item = (merge_order_items wrapping).map_merged_order_item;
      map_order = (merge_order_items wrapping).map_order;
    })
unfolding total ◌+ℤ◌
checked-FitsModulo_example =
    checked-FitsModulo (tea ∷ []) wrapping
      ((omega arith, omega arith), ((omega arith, omega arith), ((omega arith, omega arith), tt)))
      ((omega arith, omega arith), tt)
      (record { part = 4; times = 1; sums = refl; covered = omega arith }, tt)

abbrev taken : Worker
taken = record { waiting = []; batch = first ∷ []; db = tables; channels = (1, open_channel) ∷ [] }

asked_later : Moves (returned taken) (returned (request second taken))
asked_later = moves stays (asks (returned taken) second refl)

stops : round context_done taken ≡ Channel.ok (returned taken)
unfolding round
stops = refl

round-Abandons_example : Abandons taken 1 open_channel (returned (request second taken))
round-Abandons_example =
    round-Abandons taken (returned taken) (returned (request second taken)) 1 stops asked_later refl

abbrev ghost : CreateOrder
ghost = order 100 1 (wants 1 100 9 1 ∷ [])

abbrev haunted : Worker
haunted = record {
  waiting = [];
  batch = ghost ∷ [];
  db = tables;
  channels = (1, open_channel) ∷ [];
}

unknown_product_panics_example :
    (w' : Worker) × (tick host no_faults haunted ≡ Channel.ok w')
    × (w'.db ≡ tables)
    × (w'.batch ≡ ghost ∷ [])
    × ((host' : Host) (faults' : Faults) (w'' : Worker)
        → Reach w' w''
        → tick host' faults' w'' ≡ Channel.panic)
unknown_product_panics_example =
    unknown_product_panics host no_faults haunted ghost [] 9 (wants 1 100 9 1) [] refl
      (refl, tt, tt)
      (record {
        well_formed = ((refl, tt), tt, tt);
        nonneg = (omega arith, tt);
        small = omega arith;
      })
      tables-AreKeyed tables-AreStocked refl refl
