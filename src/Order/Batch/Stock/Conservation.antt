-- ===== src/Order/Batch/Stock/Conservation.antt =====
-- The stock and the recorded items before and after the transaction of BatchCreateOrder.
use hedonify.Prelude.{
  ℕ, ◌+◌, ◌≡◌, ◌≢◌, refl, sym, ap, ◌∙◌, inl, inr, Bool, true, List, [], ◌∷◌, some, ◌==◌, Bool-cases,
  All, select, subst, elem,
}
use mathlib.Core.Option
use mathlib.Core.List.Permᴰ
use hedonify.Prelude.Map.{Map}
use hedonify.Prelude.Map.Keyed.{IsKeyed, sum_of-perm, lookup-perm}
use hedonify.Repository.Models.{Db, Product}
use hedonify.Repository.Products.{find_products_by_ids}
use hedonify.Order.Request.{OrderItem, CreateOrder, OrderResponse}
use hedonify.Order.Batch.Items.{requested, of_product}
use hedonify.Order.Batch.Merge.{merge_order_items}
use hedonify.Order.Batch.Merge.Entries.{entry, merge_order_items-lookup}
use hedonify.Order.Batch.Check.{Maps}
use hedonify.Order.Batch.Check.Fit.{all_units, fit}
use hedonify.Order.Batch.Check.Products.{IsStocked, stock}
use hedonify.Order.Batch.Check.Allotment.{
  AreKeyed, find_product, allotted, IsRegular, check_allots, small-AreInt32, AreNonneg-of_product,
}
use hedonify.Order.Batch.Prepare.{prepare_order_item_args, build_query}
use hedonify.Order.Batch.Attempt.{done}
use hedonify.Order.Batch.Create.{Host, Faults, transaction}
use hedonify.Order.Batch.Stock.Decrease.{
  case_value-build_query, decrease_rows-find, found_head, found_tail,
}
use hedonify.Order.Batch.Stock.Keys.{
  ok-injective, has, merge_order_items-IsIndexed, check_decrease_quantity-IsKeyed,
}
use hedonify.Order.Batch.Stock.Sold.{
  sold, sold_args, wanted, insert_order_item-sold, insert_orders-kept, prepare_order_item_args-sold,
}
use hedonify.Order.Batch.Stock.Taken.{Allots, taken, allotted_nil, Allots-sum}
use hedonify.Order.Batch.Stock.Rows.{find_product-id, find_product-select, row_after-Lowered}
use hedonify.Order.Batch.Stock.Steps.{
  Takes, Records, Checks, transaction-done, decrease_quantities-some,
}

module _ (test : Product → Bool) where
  pub select-All :
      (P : Product → Type 0) (rows : List Product) → All P rows → All P (select test rows)
  select-All P [] h = tt
  select-All P (row ∷ rows) h = elim (Bool-cases (test row)) [
    | inl yes' ↦ rw yes' (h.0, select-All P rows h.1)
    | inr no' ↦ rw no' (select-All P rows h.1)
  ]

  pub select-AreKeyed : (rows : List Product) → AreKeyed rows → AreKeyed (select test rows)
  select-AreKeyed [] h = tt
  select-AreKeyed (row ∷ rows) h = elim (Bool-cases (test row)) [
    | inl yes' ↦
        rw yes' (select-All (λ other. other.id ≢ row.id) rows h.0, select-AreKeyed rows h.1)
    | inr no' ↦ rw no' (select-AreKeyed rows h.1)
  ]

pub find_product-All :
    (P : Product → Type 0) (p : ℕ) (row : Product) (rows : List Product)
    → All P rows
    → find_product p rows ≡ some row
    → P row
find_product-All P p row [] h e = absurd (cc)
find_product-All P p row (r ∷ rows) h e = elim (Bool-cases (p == r.id)) [
  | inl same ↦ subst P (found_head p r row rows same e) h.0
  | inr other ↦ find_product-All P p row rows h.1 (found_tail p r row rows other e)
]

-- The rows that the transaction reads.
abbrev pub read_rows : List CreateOrder → Db → List Product
read_rows params db = find_products_by_ids (merge_order_items params).product_ids db

-- What the checked maps hold.
pub checked-Allots :
    (params : List CreateOrder) (db : Db) (maps : Maps)
    → IsRegular params
    → AreKeyed db.products
    → All IsStocked db.products
    → Checks (merge_order_items params) maps db
    → Allots (read_rows params db) (requested params) maps.map_merged_order_item
unfolding find_products_by_ids
checked-Allots params db maps r keyed stocked c =
    let ids = (merge_order_items params).product_ids in
    let (m, ran, allots, _, _) =
      check_allots (read_rows params db) params
        (select-All (λ p. elem p.id ids) IsStocked db.products stocked)
        (select-AreKeyed (λ p. elem p.id ids) db.products keyed) r in
    subst (λ (n : Maps). Allots (read_rows params db) (requested params) n.map_merged_order_item)
      (ok-injective (sym ran ∙ c)) allots

-- What one product gets of a batch: the longest first part of its requests that its stock covers.
abbrev pub got : Product → List CreateOrder → ℕ
got product params = all_units (fit (stock product) (of_product product.id (requested params)))

taken-got :
    (products : List Product) (product : Product) (params : List CreateOrder)
    → (has (entry (of_product product.id (requested params))) ≡ true
        → find_product product.id products ≡ some product)
    → taken products (requested params) product.id ≡ got product params
unfolding fit
taken-got products product params read = go (of_product product.id (requested params)) read
  where
    go :
        (xs : List OrderItem)
        → (has (entry xs) ≡ true → find_product product.id products ≡ some product)
        → all_units (allotted products product.id xs) ≡ all_units (fit (stock product) xs)
    go [] h = allotted_nil products product.id
    go (x ∷ xs) h = rw (h refl, allotted) refl

module _ (host : Host) (params : List CreateOrder) (db : Db) (maps : Maps)
    (regular : IsRegular params) (product : Product)
    (found : find_product product.id db.products ≡ some product)
    (allots : Allots (read_rows params db) (requested params) maps.map_merged_order_item)
    (keyed : IsKeyed maps.map_merged_order_item) where
  abbrev pub asked : List OrderItem
  asked = of_product product.id (requested params)

  pub listed_asked : elem product.id (merge_order_items params).product_ids ≡ has (entry asked)
  listed_asked =
      (merge_order_items-IsIndexed params).listed product.id
      ∙ ap has (
          merge_order_items-lookup product.id params
            (small-AreInt32 (requested params) regular.nonneg regular.small))

  pub read_asked :
      has (entry asked) ≡ true → find_product product.id (read_rows params db) ≡ some product
  unfolding find_products_by_ids
  read_asked h =
      find_product-select product.id product (merge_order_items params).product_ids db.products
        (listed_asked ∙ h) found

  -- The statement lowers the row by what its product got.
  takes_lem :
      (mid : Db)
      → IsStocked product
      → Takes host (merge_order_items params) maps db mid
      → (product' : Product) × (find_product product.id mid.products ≡ some product')
        × (stock product' + got product params ≡ stock product)
        × IsStocked product'
  takes_lem mid stocked took =
      let arms = build_query (host.query_range.range maps.map_merged_order_item) in
      let (rows, _) =
        decrease_quantities-some arms (merge_order_items params).product_ids host.now db mid took in
      let (product', after, there) =
        decrease_rows-find arms (merge_order_items params).product_ids host.now product.id
          db.products mid.products product rows found in
      let looks =
        lookup-perm (Permᴰ.symm (host.query_range.range_perm maps.map_merged_order_item)) keyed in
      let (lower, stocked') =
        row_after-Lowered (read_rows params db) arms (merge_order_items params).product_ids host.now
          product product' asked stocked
          (AreNonneg-of_product product.id (requested params) regular.nonneg) read_asked
          listed_asked
          (case_value-build_query product.id (host.query_range.range maps.map_merged_order_item)
            ∙ ap (Option.map (λ merged. merged.ordered_item_quantity))
                (sym (looks.1 product.id) ∙ allots product.id))
          after in
      (
        product',
        there,
        subst (λ (n : ℕ). stock product' + n ≡ stock product)
            (taken-got (read_rows params db) product params read_asked) lower,
        stocked',
      )

  -- The copies record what the product got, and change no product.
  pub records_lem :
      (mid db' : Db)
      → Records host maps mid db'
      → (sold product.id db'.order_items ≡ sold product.id mid.order_items + got product params)
        × (db'.products ≡ mid.products)
  records_lem mid db' (d, orders, items) =
      let entries = host.item_range.range maps.map_merged_order_item in
      let (same_items, same_products) = insert_orders-kept _ mid d orders in
      let (sum, same) = insert_order_item-sold product.id _ d db' items in
      let want = prepare_order_item_args-sold product.id host.times entries in
      let perm =
        sum_of-perm (λ e. wanted product.id e.1.items)
          (host.item_range.range_perm maps.map_merged_order_item) in
      let took =
        Allots-sum (read_rows params db) (requested params) maps.map_merged_order_item keyed allots
          product.id in
      let gets = taken-got (read_rows params db) product params read_asked in
      (
        sum
            ∙ ap (λ n. n + sold_args product.id (prepare_order_item_args host.times entries))
                (ap (sold product.id) same_items)
            ∙ ap (λ n. sold product.id mid.order_items + n) (want ∙ perm ∙ took ∙ gets),
        same ∙ same_products,
      )

-- A committed transaction of a regular batch, on products with distinct identifiers and stocks that
-- are int32 and not negative: every product row that was there is still there, the units that the
-- first-come-first-served reference gives of its stock to the batch have left its quantity and have
-- been added to what order_items records as sold of it, and its stock is still not negative. So no
-- unit is sold twice or lost.
pub transaction-conserves :
    (host : Host) (faults : Faults) (params : List CreateOrder) (db db' : Db)
    (responses : Map OrderResponse)
    → IsRegular params
    → AreKeyed db.products
    → All IsStocked db.products
    → transaction host faults params db ≡ done (responses, db')
    → (p : ℕ) (product : Product) → find_product p db.products ≡ some product
    → (product' : Product) × (find_product p db'.products ≡ some product')
      × (stock product' + got product params ≡ stock product)
      × (sold p db'.order_items ≡ sold p db.order_items + got product params)
      × IsStocked product'
transaction-conserves host faults params db db' responses r keyed stocked e p product found =
    let (maps, mid, c, took, records) = transaction-done host faults params db db' responses e in
    let allots = checked-Allots params db maps r keyed stocked c in
    let distinct =
      check_decrease_quantity-IsKeyed _ _ maps c (merge_order_items-IsIndexed params).keyed in
    let id_same : p ≡ product.id = find_product-id p product db.products found in
    let found' : find_product product.id db.products ≡ some product =
      subst (λ (k : ℕ). find_product k db.products ≡ some product) id_same found in
    let (product', there, lower, stocked') =
      takes_lem host params db maps r product found' allots distinct mid
        (find_product-All IsStocked p product db.products stocked found) took in
    let (sum, same) =
      records_lem host params db maps r product found' allots distinct mid db' records in
    let (_, kept) = decrease_quantities-some _ _ host.now db mid took in
    (
      product',
      rw (id_same, same) there,
      lower,
      rw id_same (sum ∙ ap (λ items. sold product.id items + got product params) kept),
      stocked',
    )
