-- ===== src/Order/Batch/Stock/Ends.antt =====
-- The transaction of a regular batch returns: no slice expression of it is out of range.
use hedonify.Prelude.{
  ◌≡◌, refl, ◌≢◌, List, Option, none, some, Bool, true, false, All, elem, Outcome, ok, panic,
}
use hedonify.Repository.Models.{Db}
use hedonify.Repository.Products.{find_products_by_ids}
use hedonify.Order.Request.{
  CreateOrder, Error, begin_failed, find_failed, update_failed, orders_failed, items_failed,
  get_failed, commit_failed,
}
use hedonify.Order.Batch.Attempt.{
  Attempt, done, failed, crashed, ◌>>=◌, unless, statement, no_error,
}
use hedonify.Order.Batch.Create.{Host, Faults, take_stock, record_orders, transaction}
use hedonify.Order.Batch.Check.{Maps}
use hedonify.Order.Batch.Check.Products.{IsStocked}
use hedonify.Order.Batch.Check.Allotment.{AreKeyed, IsRegular, checked, check_allots}
use hedonify.Order.Batch.Stock.Conservation.{select-All, select-AreKeyed}
use hedonify.Order.Batch.Merge.{Merge, merge_order_items}

bind-returns :
    {A B : Type 0} (m : Attempt A) (f : A → Attempt B)
    → m ≢ crashed
    → ((a : A) → f a ≢ crashed)
    → (m >>= f) ≢ crashed
bind-returns (done a) f h k = k a
bind-returns (failed e) f h k = λ p. cc
bind-returns crashed f h k = λ p. h refl

unless-returns : (b : Bool) (e : Error) → unless b e ≢ crashed
unless-returns true e p = cc
unless-returns false e p = cc

statement-returns : {A : Type 0} (b : Bool) (e : Error) (o : Option A) → statement b e o ≢ crashed
statement-returns true e o p = cc
statement-returns false e none p = cc
statement-returns false e (some a) p = cc

no_error-returns : {A : Type 0} (o : Outcome A) (a : A) → o ≡ ok a → no_error o ≢ crashed
no_error-returns (ok b) a e p = cc
no_error-returns panic a e p = cc

module _ (host : Host) (faults : Faults) where
  take_stock-returns :
      (params : List CreateOrder) (db : Db)
      → IsRegular params
      → AreKeyed db.products
      → All IsStocked db.products
      → take_stock host faults (merge_order_items params) db ≢ crashed
  unfolding take_stock find_products_by_ids
  take_stock-returns params db r keyed stocked =
      let ids = (merge_order_items params).product_ids in
      let (m, ran, _, _, _) =
        check_allots (find_products_by_ids ids db) params
          (select-All (λ p. elem p.id ids) IsStocked db.products stocked)
          (select-AreKeyed (λ p. elem p.id ids) db.products keyed) r in
      bind-returns (unless faults.find find_failed) _ (unless-returns faults.find find_failed) (λ _.
        bind-returns (no_error (checked (find_products_by_ids ids db) params)) _
          (no_error-returns (checked (find_products_by_ids ids db) params) m ran)
          (λ maps.
            bind-returns (statement faults.update update_failed _) _
              (statement-returns faults.update update_failed _) (λ db' p. cc)))

  record_orders-returns :
      (m : Merge) (maps : Maps) (db : Db) → record_orders host faults m maps db ≢ crashed
  unfolding record_orders
  record_orders-returns m maps db =
      bind-returns (statement faults.orders orders_failed _) _
        (statement-returns faults.orders orders_failed _)
        (λ db'.
          bind-returns (statement faults.items items_failed _) _
            (statement-returns faults.items items_failed _)
            (λ db''.
              bind-returns (unless faults.get get_failed) _ (unless-returns faults.get get_failed)
                (λ _ p. cc)))

  -- The transaction of a regular batch, on products with distinct identifiers and stocks that are not
  -- negative, commits or returns an error, whatever calls of the database fail: it does not panic.
  pub transaction-returns :
      (params : List CreateOrder) (db : Db)
      → IsRegular params
      → AreKeyed db.products
      → All IsStocked db.products
      → transaction host faults params db ≢ crashed
  unfolding transaction
  transaction-returns params db r keyed stocked =
      bind-returns (unless faults.begin begin_failed) _ (unless-returns faults.begin begin_failed)
        (λ _.
          bind-returns (take_stock host faults (merge_order_items params) db) _
            (take_stock-returns params db r keyed stocked)
            (λ taken.
              bind-returns (record_orders host faults (merge_order_items params) taken.0 taken.1) _
                (record_orders-returns (merge_order_items params) taken.0 taken.1)
                (λ recorded.
                  bind-returns (unless faults.commit commit_failed) _
                    (unless-returns faults.commit commit_failed) (λ _ p. cc))))
