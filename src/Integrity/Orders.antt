-- ===== src/Integrity/Orders.antt =====
-- BatchCreateOrder and the worker keep the constraints of the tables.
use hedonify.Prelude.{◌≡◌, refl, sym, ◌∙◌, subst, List, [], ◌∷◌}
use hedonify.Prelude.Map.{Map}
use hedonify.Repository.Models.{Db}
use hedonify.Repository.Integrity.{IsIntegral}
use hedonify.Repository.Integrity.Products.{decrease_quantities-IsIntegral}
use hedonify.Repository.Integrity.Orders.{insert_orders-IsIntegral, insert_order_item-IsIntegral}
use hedonify.Order.Request.{CreateOrder, OrderResponse}
use hedonify.Order.Batch.Attempt.{Attempt, done, failed, crashed}
use hedonify.Order.Batch.Create.{Host, Faults, transaction}
use hedonify.Order.Batch.Stock.Steps.{transaction-done}
use hedonify.Order.Channel.{
  Channels, Run, ok, panic, blocked, ◌>>=◌, return_order_error, return_order_result,
}
use hedonify.Order.Worker.{
  Batched, answer, Worker, after_batch, tick, request, receive, Step, ticks, requests, receives,
  gives_up,
}
use hedonify.Order.Worker.Tick.{tick_empty, tick_batch}

transaction-IsIntegral :
    (host : Host) (faults : Faults) (params : List CreateOrder) (db db' : Db)
    (responses : Map OrderResponse)
    → transaction host faults params db ≡ done (responses, db')
    → IsIntegral db
    → IsIntegral db'
transaction-IsIntegral host faults params db db' responses e h =
    let (maps, mid, c, took, (d, orders, items)) =
      transaction-done host faults params db db' responses e in
    insert_order_item-IsIntegral _ d db' items
      (insert_orders-IsIntegral _ mid d orders (decrease_quantities-IsIntegral _ _ _ db mid took h))

-- A bind that returns has run its first part.
bind-eq-ok :
    {A B : Type 0} (m : Run A) (f : A → Run B) {b : B}
    → (m >>= f) ≡ ok b
    → (a : A) × (m ≡ ok a) × (f a ≡ ok b)
bind-eq-ok (ok a) f e = (a, refl, e)
bind-eq-ok panic f e = cc
bind-eq-ok blocked f e = cc

ok-injective : {A : Type 0} {a b : A} → ok a ≡ ok b → a ≡ b
ok-injective e = cc

-- What a batch answers with has the tables of its transaction, or those from before it.
answer-IsIntegral :
    (host : Host) (faults : Faults) (params : List CreateOrder) (db : Db) (cs : Channels)
    (r : Batched)
    → answer params (transaction host faults params db) db cs ≡ ok r
    → IsIntegral db
    → IsIntegral r.db
unfolding answer
answer-IsIntegral host faults params db cs r e h = go (transaction host faults params db) refl e
  where
    go :
        (t : Attempt (Map OrderResponse × Db))
        → transaction host faults params db ≡ t
        → answer params t db cs ≡ ok r
        → IsIntegral r.db
    go (done (responses, db')) same e' =
        let (cs', sent, made) = bind-eq-ok (return_order_result params responses cs) _ e' in
        subst (λ (x : Batched). IsIntegral x.db) (ok-injective made)
          (transaction-IsIntegral host faults params db db' responses same h)
    go (failed x) same e' =
        let (cs', sent, made) = bind-eq-ok (return_order_error params x cs) _ e' in
        subst (λ (b : Batched). IsIntegral b.db) (ok-injective made) h
    go crashed same e' = cc

tick-IsIntegral :
    (host : Host) (faults : Faults) (w w' : Worker)
    → tick host faults w ≡ ok w'
    → IsIntegral w.db
    → IsIntegral w'.db
unfolding after_batch
tick-IsIntegral host faults w w' e h = go w.batch refl
  where
    go : (batch : List CreateOrder) → w.batch ≡ batch → IsIntegral w'.db
    go [] same =
        subst (λ (x : Worker). IsIntegral x.db)
          (ok-injective (sym (tick_empty host faults w same) ∙ e)) h
    go (order ∷ rest) same =
        let (r, b, made) =
          bind-eq-ok
            (answer (order ∷ rest) (transaction host faults (order ∷ rest) w.db) w.db w.channels)
            (λ r. ok (after_batch w r)) (sym (tick_batch host faults w order rest same) ∙ e) in
        subst (λ (x : Worker). IsIntegral x.db) (ok-injective made)
          (answer-IsIntegral host faults (order ∷ rest) w.db w.channels r b h)

pub Step-IsIntegral : (w w' : Worker) → Step w w' → IsIntegral w.db → IsIntegral w'.db
unfolding request receive
Step-IsIntegral w w' (ticks host faults e) h = tick-IsIntegral host faults w _ e h
Step-IsIntegral w w' (requests order new) h = h
Step-IsIntegral w w' (receives before after order e) h = h
Step-IsIntegral w w' (gives_up before after order e) h = h
