-- ===== src/Order/Batch/Stock/Steps.antt =====
-- The statements that a committed transaction ran.
use hedonify.Prelude.{
  ℕ, ℤ, ◌≡◌, refl, sym, ap, ◌∙◌, Bool, true, false, List, [], ◌∷◌, Option, none, some, Outcome, ok,
  panic, subst, map-eq-some,
}
use hedonify.Prelude.Map.{Map}
use hedonify.Repository.Models.{Db}
use hedonify.Repository.Products.{find_products_by_ids, decrease_quantities, decrease_rows}
use hedonify.Repository.Orders.{insert_orders, insert_order_item}
use hedonify.Order.Request.{CreateOrder, OrderResponse, Error}
use hedonify.Order.Batch.Merge.{Merge, merge_order_items}
use hedonify.Order.Batch.Check.{Maps, check_decrease_quantity}
use hedonify.Order.Batch.Prepare.{build_query, prepare_order_args, prepare_order_item_args}
use hedonify.Order.Batch.Attempt.{Attempt, failed, done, crashed, ◌>>=◌, ◌>>◌, statement, no_error}
use hedonify.Order.Batch.Create.{Host, Faults, take_stock, record_orders, transaction}

pub bind-eq-done :
    {A B : Type 0} (m : Attempt A) (f : A → Attempt B) {b : B}
    → (m >>= f) ≡ done b
    → (a : A) × (m ≡ done a) × (f a ≡ done b)
bind-eq-done (done a) f e = (a, refl, e)
bind-eq-done (failed x) f e = cc
bind-eq-done crashed f e = cc

pub then-eq-done :
    {B : Type 0} (m : Attempt (Unit {0})) (k : Attempt B) {b : B} → (m >> k) ≡ done b → k ≡ done b
then-eq-done (done a) k e = e
then-eq-done (failed x) k e = cc
then-eq-done crashed k e = cc

pub done-injective : {A : Type 0} {a b : A} → done a ≡ done b → a ≡ b
done-injective e = cc

pub statement-done :
    {A : Type 0} (fault : Bool) (x : Error) (o : Option A) {a : A}
    → statement fault x o ≡ done a
    → o ≡ some a
statement-done true x o e = cc
statement-done false x none e = cc
statement-done false x (some a) e = ap some (done-injective e)

pub no_error-done : {A : Type 0} (o : Outcome A) {a : A} → no_error o ≡ done a → o ≡ ok a
no_error-done (ok a) e = ap ok (done-injective e)
no_error-done panic e = cc

-- The statement that takes the stock of the checked entries.
abbrev pub Takes : Host → Merge → Maps → Db → Db → Type 0
Takes host m maps db db' =
    decrease_quantities (build_query (host.query_range.range maps.map_merged_order_item))
      m.product_ids host.now db
    ≡ some db'

-- The statements that record orders and items.
abbrev pub Records : Host → Maps → Db → Db → Type 0
Records host maps db db' =
    (d : Db) × (insert_orders
        (prepare_order_args host.times (host.order_range.range maps.map_order)) db
      ≡ some d)
    × (insert_order_item
          (prepare_order_item_args host.times (host.item_range.range maps.map_merged_order_item)) d
        ≡ some db')

abbrev pub Checks : Merge → Maps → Db → Type 0
Checks m maps db =
    check_decrease_quantity (find_products_by_ids m.product_ids db)
      (record { map_merged_order_item = m.map_merged_order_item; map_order = m.map_order })
    ≡ ok maps

take_stock-done :
    (host : Host) (faults : Faults) (m : Merge) (db db' : Db) (maps : Maps)
    → take_stock host faults m db ≡ done (maps, db')
    → Checks m maps db × Takes host m maps db db'
unfolding take_stock
take_stock-done host faults m db db' maps e =
    let e1 = then-eq-done _ _ e in
    let (maps1, c, e2) = bind-eq-done _ _ e1 in
    let (db1, s, e3) = bind-eq-done _ _ e2 in
    let same : (maps1, db1) ≡ (maps, db') = done-injective e3 in
    subst (λ (r : Maps × Db). Checks m r.0 db × Takes host m r.0 db r.1) same
      (no_error-done _ c, statement-done _ _ _ s)

pub record_orders-done :
    (host : Host) (faults : Faults) (m : Merge) (maps : Maps) (db db' : Db)
    (responses : Map OrderResponse)
    → record_orders host faults m maps db ≡ done (responses, db')
    → Records host maps db db'
unfolding record_orders
record_orders-done host faults m maps db db' responses e =
    let (d, s, e1) = bind-eq-done _ _ e in
    let (d', s', e2) = bind-eq-done _ _ e1 in
    let e3 = then-eq-done _ _ e2 in
    let same : d' ≡ db' = ap (λ (r : Map OrderResponse × Db). r.1) (done-injective e3) in
    subst (λ (x : Db). Records host maps db x) same
      (d, statement-done _ _ _ s, statement-done _ _ _ s')

-- What a committed transaction ran.
pub transaction-done :
    (host : Host) (faults : Faults) (params : List CreateOrder) (db db' : Db)
    (responses : Map OrderResponse)
    → transaction host faults params db ≡ done (responses, db')
    → (maps : Maps) × (mid : Db) × Checks (merge_order_items params) maps db
      × Takes host (merge_order_items params) maps db mid
      × Records host maps mid db'
unfolding transaction
transaction-done host faults params db db' responses e =
    let e1 = then-eq-done _ _ e in
    let ((maps, mid), t, e2) = bind-eq-done _ _ e1 in
    let ((responses1, d), r, e3) = bind-eq-done _ _ e2 in
    let e4 = then-eq-done _ _ e3 in
    let same : d ≡ db' = ap (λ (x : Map OrderResponse × Db). x.1) (done-injective e4) in
    let (c, took) = take_stock-done host faults (merge_order_items params) db mid maps t in
    (
      maps,
      mid,
      c,
      took,
      subst (λ (x : Db). Records host maps mid x) same
          (record_orders-done host faults (merge_order_items params) maps mid d responses1 r),
    )

pub decrease_quantities-some :
    (arms : List (ℕ × ℤ)) (ids : List ℕ) (now : ℕ) (db db' : Db)
    → decrease_quantities arms ids now db ≡ some db'
    → (decrease_rows arms ids now db.products ≡ some db'.products)
      × (db'.order_items ≡ db.order_items)
unfolding decrease_quantities
decrease_quantities-some [] ids now db db' e = cc
decrease_quantities-some (arm ∷ arms) ids now db db' e =
    let (rows, ran, same) =
      map-eq-some (decrease_rows (arm ∷ arms) ids now db.products)
        (λ ps. record db { products = ps }) e in
    (ran ∙ ap (λ (d : Db). some d.products) same, sym (ap (λ (d : Db). d.order_items) same))
