-- ===== src/Order/Batch/Stock/Race.antt =====
-- Two transactions of BatchCreateOrder that read the stock before either has taken it.
use hedonify.Prelude.{
  ℕ, ◌+◌, ◌≡◌, refl, sym, ap, ◌∙◌, true, ℤ, pos, ◌-ℤ◌, List, [], ◌∷◌, some, arith, All, subst, elem,
  wrap32,
}
use mathlib.Core.Option
use mathlib.Core.List.Permᴰ
use hedonify.Prelude.Map.{Map}
use hedonify.Prelude.Map.Keyed.{lookup-perm}
use hedonify.Repository.Models.{Db, Product}
use hedonify.Repository.Products.{case_value, decrease_row}
use hedonify.Order.Request.{OrderItem, CreateOrder, OrderResponse}
use hedonify.Order.Batch.Items.{requested, of_product, total}
use hedonify.Order.Batch.Merge.{merge_order_items}
use hedonify.Order.Batch.Merge.Entries.{entry}
use hedonify.Order.Batch.Check.{Maps}
use hedonify.Order.Batch.Check.Fit.{AreNonneg, all_units, fit}
use hedonify.Order.Batch.Check.Loop.{of_items}
use hedonify.Order.Batch.Check.Products.{IsStocked, stock}
use hedonify.Order.Batch.Check.Allotment.{
  AreKeyed, find_product, allotted, IsRegular, AreNonneg-of_product,
}
use hedonify.Order.Batch.Prepare.{build_query}
use hedonify.Order.Batch.Attempt.{done}
use hedonify.Order.Batch.Create.{Host, Faults, transaction}
use hedonify.Order.Batch.Late.{late_take_stock, late_transaction}
use hedonify.Order.Batch.Stock.Decrease.{case_value-build_query, decrease_rows-find, row_after}
use hedonify.Order.Batch.Stock.Keys.{
  has, merge_order_items-IsIndexed, check_decrease_quantity-IsKeyed,
}
use hedonify.Order.Batch.Stock.Sold.{sold}
use hedonify.Order.Batch.Stock.Rows.{find_product-id, fit_quantity}
use hedonify.Order.Batch.Stock.Steps.{
  Takes, Records, Checks, decrease_quantities-some, then-eq-done, bind-eq-done, done-injective,
  no_error-done, statement-done, record_orders-done,
}
use hedonify.Order.Batch.Stock.Conservation.{
  got, transaction-conserves, checked-Allots, read_rows, read_asked, listed_asked, records_lem,
  find_product-All,
}

decrease_row-minus :
    (arms : List (ℕ × ℤ)) (now u : ℕ) (row row' : Product)
    → case_value row.id arms ≡ some (pos u)
    → decrease_row arms now row ≡ some row'
    → row'.quantity ≡ row.quantity -ℤ pos u
unfolding decrease_row
decrease_row-minus arms now u row row' arm e = ground arith

minus_zero : (z : ℤ) → z -ℤ pos 0 ≡ z
unfolding ◌-ℤ◌
minus_zero z = ground arith

fit_nil : (s : ℕ) → fit s [] ≡ []
unfolding fit
fit_nil s = refl

-- A row loses what another row of its product, the one that was read, covers of the requests.
row_after-minus :
    (products : List Product) (arms : List (ℕ × ℤ)) (ids : List ℕ) (now : ℕ)
    (read row row' : Product) (xs : List OrderItem)
    → IsStocked read
    → AreNonneg xs
    → (has (entry xs) ≡ true → find_product row.id products ≡ some read)
    → elem row.id ids ≡ has (entry xs)
    → case_value row.id arms
      ≡ Option.map
          (λ merged. merged.ordered_item_quantity)
          (Option.map (λ e. of_items (allotted products row.id e.items)) (entry xs))
    → row_after arms ids now row ≡ some row'
    → row'.quantity ≡ row.quantity -ℤ pos (all_units (fit (stock read) xs))
unfolding row_after
row_after-minus products arms ids now read row row' [] stocked nonneg found listed arm e =
    let same : row ≡ row' = Option.some-injective _ _ (sym (rw (listed, row_after) refl) ∙ e) in
    rw (fit_nil (stock read)) (
      subst (λ (r : Product). r.quantity ≡ row.quantity -ℤ pos 0) same
        (sym (minus_zero row.quantity)))
row_after-minus products arms ids now read row row' (x ∷ xs) stocked nonneg found listed arm e =
    let ran : decrease_row arms now row ≡ some row' = sym (rw (listed, row_after) refl) ∙ e in
    let items : allotted products row.id (x ∷ xs) ≡ fit (stock read) (x ∷ xs) =
      rw (found refl, allotted) refl in
    decrease_row-minus arms now (all_units (fit (stock read) (x ∷ xs))) row row'
      (arm
        ∙ ap (λ ys. some (wrap32 (total ys))) items
        ∙ ap some (fit_quantity (stock read) (x ∷ xs) (ground arith) nonneg))
      ran

-- The statements of a transaction that saw the tables before.
pub late_transaction-done :
    (host : Host) (faults : Faults) (params : List CreateOrder) (seen db db' : Db)
    (responses : Map OrderResponse)
    → late_transaction host faults params seen db ≡ done (responses, db')
    → (maps : Maps) × (mid : Db) × Checks (merge_order_items params) maps seen
      × Takes host (merge_order_items params) maps db mid
      × Records host maps mid db'
unfolding late_transaction late_take_stock
late_transaction-done host faults params seen db db' responses e =
    let e1 = then-eq-done _ _ e in
    let ((maps, mid), t, e2) = bind-eq-done _ _ e1 in
    let ((responses1, d), r, e3) = bind-eq-done _ _ e2 in
    let e4 = then-eq-done _ _ e3 in
    let same : d ≡ db' = ap (λ (x : Map OrderResponse × Db). x.1) (done-injective e4) in
    let t1 = then-eq-done _ _ t in
    let (maps1, c, t2) = bind-eq-done _ _ t1 in
    let (db1, s, t3) = bind-eq-done _ _ t2 in
    let both : (maps1, db1) ≡ (maps, mid) = done-injective t3 in
    let (c', took) =
      subst
        (λ (x : Maps × Db).
          Checks (merge_order_items params) x.0 seen
          × Takes host (merge_order_items params) x.0 db x.1)
        both (no_error-done _ c, statement-done _ _ _ s) in
    (
      maps,
      mid,
      c',
      took,
      subst (λ (x : Db). Records host maps mid x) same
          (record_orders-done host faults (merge_order_items params) maps mid d responses1 r),
    )

-- The second statement lowers the row that the first transaction left by what its own batch would
-- get of the row that both read.
module _ (host : Host) (params : List CreateOrder) (db db1 mid : Db) (maps : Maps)
    (regular : IsRegular params) (keyed : AreKeyed db.products)
    (stocked : All IsStocked db.products) (c : Checks (merge_order_items params) maps db)
    (took : Takes host (merge_order_items params) maps db1 mid) where
  late_takes :
      (product row : Product)
      → product.id ≡ row.id
      → find_product product.id db.products ≡ some product
      → find_product product.id db1.products ≡ some row
      → (row' : Product) × (find_product product.id mid.products ≡ some row')
        × (row'.quantity ≡ row.quantity -ℤ pos (got product params))
  late_takes product row same found there =
      let arms = build_query (host.query_range.range maps.map_merged_order_item) in
      let ids = (merge_order_items params).product_ids in
      let xs = of_product product.id (requested params) in
      let allots = checked-Allots params db maps regular keyed stocked c in
      let distinct =
        check_decrease_quantity-IsKeyed _ _ maps c (merge_order_items-IsIndexed params).keyed in
      let (rows, _) = decrease_quantities-some arms ids host.now db1 mid took in
      let (row', after, there') =
        decrease_rows-find arms ids host.now product.id db1.products mid.products row rows there in
      let looks =
        lookup-perm (Permᴰ.symm (host.query_range.range_perm maps.map_merged_order_item))
          distinct in
      (
        row',
        there',
        row_after-minus (read_rows params db) arms ids host.now product row row' xs
            (find_product-All IsStocked product.id product db.products stocked found)
            (AreNonneg-of_product product.id (requested params) regular.nonneg)
            (subst
              (λ (k : ℕ).
                has (entry xs) ≡ true → find_product k (read_rows params db) ≡ some product)
              same (read_asked host params db maps regular product found allots distinct))
            (subst (λ (k : ℕ). elem k ids ≡ has (entry xs)) same
              (listed_asked host params db maps regular product found allots distinct))
            (subst
              (λ (k : ℕ).
                case_value k arms
                ≡ Option.map (λ merged. merged.ordered_item_quantity)
                    (Option.map (λ e. of_items (allotted (read_rows params db) k e.items))
                      (entry xs)))
              same
              (case_value-build_query product.id (host.query_range.range maps.map_merged_order_item)
                ∙ ap (Option.map (λ merged. merged.ordered_item_quantity))
                    (sym (looks.1 product.id) ∙ allots product.id)))
            after,
      )

minus_both :
    (row row1 row2 : Product) (a b : ℕ)
    → IsStocked row1
    → stock row1 + a ≡ stock row
    → row2.quantity ≡ row1.quantity -ℤ pos b
    → row2.quantity ≡ pos (stock row) -ℤ pos (a + b)
unfolding ◌-ℤ◌
minus_both row row1 row2 a b stocked sum e = ground arith

-- Two regular batches that read the same tables, on products with distinct identifiers and stocks
-- that are int32 and not negative: when the first commits and then the second, each product's
-- quantity has been lowered, and what order_items records as sold of it raised, by what each batch
-- gets of the whole stock, so where the two together get more than there is, the quantity is negative
-- and units are sold that the shop does not have.
pub late_transaction-oversells :
    (host host' : Host) (faults faults' : Faults) (params params' : List CreateOrder)
    (db db1 db2 : Db) (responses responses' : Map OrderResponse)
    → IsRegular params
    → IsRegular params'
    → AreKeyed db.products
    → All IsStocked db.products
    → transaction host faults params db ≡ done (responses, db1)
    → late_transaction host' faults' params' db db1 ≡ done (responses', db2)
    → (product : Product) → find_product product.id db.products ≡ some product
    → (product2 : Product) × (find_product product.id db2.products ≡ some product2)
      × (product2.quantity ≡ pos (stock product) -ℤ pos (got product params + got product params'))
      × (sold product.id db2.order_items
          ≡ sold product.id db.order_items + (got product params + got product params'))
late_transaction-oversells host host' faults faults' params params' db db1 db2 responses responses'
      r r' keyed stocked e e' product found =
    let (product1, there1, lower, sold1, stocked1) =
      transaction-conserves host faults params db db1 responses r keyed stocked e product.id product
        found in
    let (maps, mid, c, took, records) =
      late_transaction-done host' faults' params' db db1 db2 responses' e' in
    let same = find_product-id product.id product1 db1.products there1 in
    let (product2, there2, minus) =
      late_takes host' params' db db1 mid maps r' keyed stocked c took product product1 same found
        there1 in
    let (sum, kept_rows) =
      records_lem host' params' db maps r' product found
        (checked-Allots params' db maps r' keyed stocked c)
        (check_decrease_quantity-IsKeyed _ _ maps c (merge_order_items-IsIndexed params').keyed) mid
        db2 records in
    let (_, kept) =
      decrease_quantities-some _ (merge_order_items params').product_ids host'.now db1 mid took in
    (
      product2,
      rw kept_rows there2,
      minus_both product product1 product2 (got product params) (got product params') stocked1 lower
          minus,
      omega (arith, sum, sold1, ap (sold product.id) kept),
    )
