-- ===== src/Order/Worker/Unknown.antt =====
-- A worker whose batch asks for a product that is not there.
use hedonify.Prelude.{ℕ, ◌≡◌, refl, List, ◌∷◌, none, All}
use hedonify.Order.Request.{OrderItem, CreateOrder}
use hedonify.Order.Batch.Items.{requested, of_product}
use hedonify.Order.Batch.Check.Products.{IsStocked}
use hedonify.Order.Batch.Check.Allotment.{AreKeyed, find_product, IsRegular}
use hedonify.Order.Batch.Create.{Host, Faults}
use hedonify.Order.Batch.Stock.Unknown.{unknown_product-fails}
use hedonify.Order.Channel.{ok, panic}
use hedonify.Order.Channel.Delivery.{AreOpen}
use hedonify.Order.Worker.{Worker, tick, Reach}
use hedonify.Order.Worker.Answers.{tick_fails}
use hedonify.Order.Worker.Crash.{failed_batch_panics}

-- One request for a product that no row has brings the worker down: when the pending batch is
-- regular, on products with distinct identifiers and stocks that are int32 and not negative, with
-- open and distinct channels, and an item of it asks for such a product, then the next tick returns,
-- changes no table and keeps the batch, and the tick after it panics, whatever happens in between.
pub unknown_product_panics :
    (host : Host) (faults : Faults) (w : Worker) (order : CreateOrder) (rest : List CreateOrder)
    (p : ℕ) (x : OrderItem) (xs : List OrderItem)
    → w.batch ≡ order ∷ rest
    → AreOpen (order ∷ rest) w.channels
    → IsRegular (order ∷ rest)
    → AreKeyed w.db.products
    → All IsStocked w.db.products
    → of_product p (requested (order ∷ rest)) ≡ x ∷ xs
    → find_product p w.db.products ≡ none
    → (w' : Worker) × (tick host faults w ≡ ok w')
      × (w'.db ≡ w.db)
      × (w'.batch ≡ order ∷ rest)
      × ((host' : Host) (faults' : Faults) (w'' : Worker)
          → Reach w' w''
          → tick host' faults' w'' ≡ panic)
unknown_product_panics host faults w order rest p x xs e opened regular keyed stocked asked absent =
    let (err, failing) =
      unknown_product-fails host faults (order ∷ rest) w.db regular keyed stocked p x xs asked
        absent in
    let (cs, ticks, _) = tick_fails host faults w order rest err e opened failing in
    (
      record w { channels = cs },
      ticks,
      refl,
      e,
      λ host' faults' w'' reached.
          failed_batch_panics host host' faults faults' w (record w { channels = cs }) w'' ticks
            (λ none'. cc (e, none')) reached,
    )
