-- ===== src/Order/Batch/Stock/Unknown.antt =====
-- A batch that asks for a product that is not there.
use hedonify.Prelude.{
  ℕ, ◌≡◌, ◌≢◌, refl, sym, ◌∙◌, inl, inr, ℤ, Bool, true, false, List, [], ◌∷◌, map, none, some,
  arith, All, All-append_left, All-append_right, subst, any_of, ◌==◌, Bool-cases, bind-eq-some,
  map-eq-some, select, elem,
}
use mathlib.Core.Option
use mathlib.Core.List.Permᴰ
use hedonify.Prelude.Map.{Map, lookup}
use hedonify.Prelude.Map.Keyed.{lookup-perm}
use hedonify.Repository.Models.{Db, Product}
use hedonify.Repository.Products.{find_products_by_ids, decrease_rows}
use hedonify.Repository.Orders.{InsertOrderItemParams, insert_item_row, insert_order_item}
use hedonify.Order.Request.{OrderItem, CreateOrder, OrderResponse, Error}
use hedonify.Order.Batch.Items.{requested, of_product}
use hedonify.Order.Batch.Merge.{MergedOrderItem, merge_order_items}
use hedonify.Order.Batch.Merge.Entries.{entry}
use hedonify.Order.Batch.Check.Loop.{of_items}
use hedonify.Order.Batch.Check.Products.{IsStocked}
use hedonify.Order.Batch.Check.Allotment.{AreKeyed, find_product, allotted, IsRegular}
use hedonify.Order.Batch.Prepare.{Times, item_args, prepare_order_item_args}
use hedonify.Order.Batch.Attempt.{Attempt, done, failed, crashed}
use hedonify.Order.Batch.Create.{Host, Faults, transaction}
use hedonify.Order.Batch.Stock.Keys.{merge_order_items-IsIndexed, check_decrease_quantity-IsKeyed}
use hedonify.Order.Batch.Stock.Decrease.{row_after, row_after-id}
use hedonify.Order.Batch.Stock.Sold.{insert_orders-kept}
use hedonify.Order.Batch.Stock.Steps.{transaction-done, decrease_quantities-some}
use hedonify.Order.Batch.Stock.Conservation.{checked-Allots, read_rows}
use hedonify.Order.Batch.Stock.Ends.{transaction-returns}

abbrev IsSold : List Product → InsertOrderItemParams → Type 0
IsSold products arg = any_of (λ product. arg.product_id == product.id) products ≡ true

insert_item_row-IsSold :
    (arg : InsertOrderItemParams) (db db' : Db)
    → insert_item_row arg db ≡ some db'
    → IsSold db.products arg × (db'.products ≡ db.products)
unfolding insert_item_row
insert_item_row-IsSold arg db db' e = ground arith

-- What is copied into order_items has its product in the tables.
insert_order_item-IsSold :
    (args : List InsertOrderItemParams) (db db' : Db)
    → insert_order_item args db ≡ some db'
    → All (IsSold db.products) args
unfolding insert_order_item
insert_order_item-IsSold [] db db' e = tt
insert_order_item-IsSold (arg ∷ args) db db' e =
    let (d, one, rest) = bind-eq-some (insert_item_row arg db) (insert_order_item args) e in
    let (there, same) = insert_item_row-IsSold arg db d one in
    (
      there,
      subst (λ (ps : List Product). All (IsSold ps) args) same
          (insert_order_item-IsSold args d db' rest),
    )

entry_args :
    (P : InsertOrderItemParams → Type 0) (times : Times) (p : ℕ) (entries : Map MergedOrderItem)
    (merged : MergedOrderItem)
    → lookup p entries ≡ some merged
    → All P (prepare_order_item_args times entries)
    → All P (map (item_args times) merged.items)
unfolding prepare_order_item_args
entry_args P times p [] merged e h = cc
entry_args P times p ((k, v) ∷ entries) merged e h = elim (Bool-cases (p == k)) [
  | inl same ↦
      let found : v ≡ merged = ground arith in
      subst (λ (w : MergedOrderItem). All P (map (item_args times) w.items)) found
        (All-append_left P (map (item_args times) v.items) _ h)
  | inr other ↦
      entry_args P times p entries merged (ground arith)
        (All-append_right P (map (item_args times) v.items) _ h)
]

-- The statement that takes stock adds no product.
decrease_rows-absent :
    (arms : List (ℕ × ℤ)) (ids : List ℕ) (now p : ℕ) (rows rows' : List Product)
    → decrease_rows arms ids now rows ≡ some rows'
    → find_product p rows ≡ none
    → any_of (λ row. p == row.id) rows' ≡ false
unfolding decrease_rows row_after
decrease_rows-absent arms ids now p [] rows' e h = ground arith
decrease_rows-absent arms ids now p (row ∷ rows) rows' e h =
    let (row', one, rest) =
      bind-eq-some (row_after arms ids now row)
        (λ q. Option.map (λ qs. q ∷ qs) (decrease_rows arms ids now rows)) e in
    let (rs, others, joined) =
      map-eq-some (decrease_rows arms ids now rows) (λ qs. row' ∷ qs) rest in
    let same : row'.id ≡ row.id = row_after-id arms ids now row row' one in
    subst (λ (qs : List Product). any_of (λ q. p == q.id) qs ≡ false) joined
      (ground (arith, same, h, decrease_rows-absent arms ids now p rows rs others))

find_product-unread :
    (p : ℕ) (test : Product → Bool) (rows : List Product)
    → find_product p rows ≡ none
    → find_product p (select test rows) ≡ none
find_product-unread p test [] h = refl
find_product-unread p test (row ∷ rows) h = ground (arith, find_product-unread p test rows)

of_product-id :
    (p : ℕ) (items : List OrderItem) (x : OrderItem) (xs : List OrderItem)
    → of_product p items ≡ x ∷ xs
    → x.product_id ≡ p
of_product-id p [] x xs e = cc
of_product-id p (item ∷ items) x xs e = ground (arith, of_product-id p items x xs)

unsold :
    (p : ℕ) (products : List Product) (items : List OrderItem) (x : OrderItem) (xs : List OrderItem)
    → of_product p items ≡ x ∷ xs
    → find_product p products ≡ none
    → Option.map (λ e. of_items (allotted products p e.items)) (entry (of_product p items))
      ≡ some (of_items (x ∷ xs))
unsold p products items x xs e none' = rw (e, none', allotted) refl

module _ (host : Host) (faults : Faults) (params : List CreateOrder) (db : Db)
    (regular : IsRegular params) (keyed : AreKeyed db.products)
    (stocked : All IsStocked db.products) (p : ℕ) (x : OrderItem) (xs : List OrderItem)
    (asked : of_product p (requested params) ≡ x ∷ xs)
    (absent : find_product p db.products ≡ none) where
  not_done :
      (responses : Map OrderResponse) (db' : Db)
      → transaction host faults params db ≢ done (responses, db')
  unfolding find_products_by_ids
  not_done responses db' e =
      let (maps, mid, c, took, (d, orders, items)) =
        transaction-done host faults params db db' responses e in
      let ids = (merge_order_items params).product_ids in
      let distinct =
        check_decrease_quantity-IsKeyed _ _ maps c (merge_order_items-IsIndexed params).keyed in
      let looks =
        lookup-perm (Permᴰ.symm (host.item_range.range_perm maps.map_merged_order_item)) distinct in
      let there =
        sym (looks.1 p)
        ∙ checked-Allots params db maps regular keyed stocked c p
        ∙ unsold p (read_rows params db) (requested params) x xs asked
            (find_product-unread p (λ row. elem row.id ids) db.products absent) in
      let (_, same) = insert_orders-kept _ mid d orders in
      let (rows, _) = decrease_quantities-some _ ids host.now db mid took in
      let sold =
        entry_args (IsSold d.products) host.times p
          (host.item_range.range maps.map_merged_order_item) (of_items (x ∷ xs)) there
          (insert_order_item-IsSold _ d db' items) in
      let gone = decrease_rows-absent _ ids host.now p db.products mid.products rows absent in
      let known : any_of (λ row. p == row.id) mid.products ≡ true =
        subst (λ (k : ℕ). any_of (λ row. k == row.id) mid.products ≡ true)
          (of_product-id p (requested params) x xs asked)
          (subst (λ (ps : List Product). any_of (λ row. x.product_id == row.id) ps ≡ true) same
            sold.0) in
      cc (known, gone)

  -- A regular batch in which some item asks for a product that no row has does not commit, on products
  -- with distinct identifiers and stocks that are int32 and not negative, whatever else it holds: its
  -- transaction returns an error.
  pub unknown_product-fails : (err : Error) × (transaction host faults params db ≡ failed err)
  unknown_product-fails = go (transaction host faults params db) refl
    where
      go :
          (t : Attempt (Map OrderResponse × Db))
          → transaction host faults params db ≡ t
          → (err : Error) × (transaction host faults params db ≡ failed err)
      go (done (responses, db')) e = absurd (not_done responses db' e)
      go (failed err) e = (err, e)
      go crashed e = absurd (transaction-returns host faults params db regular keyed stocked e)
