-- ===== src/Order/Batch/Items.antt =====
-- Words of the specification of a batch: the items that its requests ask for, those of one product
-- or one order, and how much they ask for.
use hedonify.Prelude.{
  ℕ, ◌≡◌, ℤ, pos, ◌+ℤ◌, List, [], ◌∷◌, ◌++◌, ◌==◌, select, concat_map, sum_of, if◌then◌else◌, All,
  IsInt32, sym, zero-+ℤ, +ℤ_assoc, +ℤ-zero,
}
use hedonify.Order.Request.{OrderItem, CreateOrder}

-- Every item of every request, in the order of arrival.
abbrev pub requested : List CreateOrder → List OrderItem
requested params = concat_map (λ order. order.order_items) params

abbrev pub of_product : ℕ → List OrderItem → List OrderItem
of_product p = select (λ item. p == item.product_id)

-- The true sum of the quantities, which does not wrap.
unfoldable pub total : List OrderItem → ℤ
total [] = pos 0
total (item ∷ items) = item.quantity +ℤ total items

pub total-append : (xs ys : List OrderItem) → total (xs ++ ys) ≡ total xs +ℤ total ys
unfolding total
total-append [] ys = sym (zero-+ℤ (total ys))
total-append (x ∷ xs) ys = rw (total-append xs ys) (sym (+ℤ_assoc x.quantity (total xs) (total ys)))

pub total_one : (x : OrderItem) → total (x ∷ []) ≡ x.quantity
unfolding total
total_one x = +ℤ-zero x.quantity

-- How many items name an order.
abbrev pub count_order : ℕ → List OrderItem → ℕ
count_order o = sum_of (λ item. if o == item.order_id then 1 else 0)

-- Every quantity is an int32, as the type of the field says.
abbrev pub AreInt32 : List OrderItem → Type 0
AreInt32 = All (λ item. IsInt32 item.quantity)
