-- ===== src/Cart/Orders.antt =====
-- From the cart service to the worker: what CheckoutCart sends, as a batch.
use hedonify.Prelude.{
  arith, ℕ, ◌+◌, ◌<◌, ◌^◌, ◌≡◌, ◌≢◌, refl, sym, ap, subst, pos, ◌≤ℤ◌, pos_part, List, [], ◌∷◌, ◌++◌,
  map, All, sum_of, sum_of-append,
}
use hedonify.Order.Request.{OrderItem, CreateOrder}
use hedonify.Order.Batch.Items.{requested}
use hedonify.Order.Batch.Merge.Orders.{IsWellFormed}
use hedonify.Order.Batch.Check.Fit.{AreNonneg, units, all_units}
use hedonify.Order.Batch.Check.Allotment.{IsRegular}
use hedonify.Cart.Request.{ItemResponse, CartResponse, order_item, order_of}

-- The orders of carts, each with the channel that Checkout gives it.
unfoldable pub placed : List (CartResponse × ℕ) → List CreateOrder
placed = map (λ p. record (order_of p.0) { result_channel = p.1 })

abbrev pub AreDistinct : List (CartResponse × ℕ) → Type 0
AreDistinct [] = Unit {0}
AreDistinct (p ∷ ps) = All (λ (q : CartResponse × ℕ). q.0.id ≢ p.0.id) ps × AreDistinct ps

own_items :
    (id : ℕ) (items : List ItemResponse)
    → All (λ (item : OrderItem). item.order_id ≡ id) (map (order_item id) items)
own_items id [] = tt
own_items id (item ∷ items) = (refl, own_items id items)

other_orders :
    (id : ℕ) (ps : List (CartResponse × ℕ))
    → All (λ (q : CartResponse × ℕ). q.0.id ≢ id) ps
    → All (λ (order : CreateOrder). order.id ≢ id) (placed ps)
unfolding placed order_of
other_orders id [] h = tt
other_orders id (p ∷ ps) h = (h.0, other_orders id ps h.1)

placed-IsWellFormed : (ps : List (CartResponse × ℕ)) → AreDistinct ps → IsWellFormed (placed ps)
unfolding placed order_of
placed-IsWellFormed [] h = tt
placed-IsWellFormed (p ∷ ps) h =
    (own_items p.0.id p.0.cart_items, other_orders p.0.id ps h.0, placed-IsWellFormed ps h.1)

-- The units that the carts of a list hold, as numbers.
abbrev pub cart_units : CartResponse → ℕ
cart_units cart = sum_of (λ (item : ItemResponse). pos_part item.quantity) cart.cart_items

abbrev pub IsNonneg : CartResponse → Type 0
IsNonneg cart = All (λ (item : ItemResponse). pos 0 ≤ℤ item.quantity) cart.cart_items

items-AreNonneg :
    (id : ℕ) (items : List ItemResponse) (rest : List OrderItem)
    → All (λ (item : ItemResponse). pos 0 ≤ℤ item.quantity) items
    → AreNonneg rest
    → AreNonneg (map (order_item id) items ++ rest)
items-AreNonneg id [] rest h r = r
items-AreNonneg id (item ∷ items) rest h r = (h.0, items-AreNonneg id items rest h.1 r)

placed-AreNonneg :
    (ps : List (CartResponse × ℕ))
    → All (λ (p : CartResponse × ℕ). IsNonneg p.0) ps
    → AreNonneg (requested (placed ps))
unfolding placed order_of
placed-AreNonneg [] h = tt
placed-AreNonneg (p ∷ ps) h =
    items-AreNonneg p.0.id p.0.cart_items (requested (placed ps)) h.0 (placed-AreNonneg ps h.1)

all_units-order_item :
    (id : ℕ) (items : List ItemResponse)
    → all_units (map (order_item id) items)
      ≡ sum_of (λ (item : ItemResponse). pos_part item.quantity) items
all_units-order_item id [] = refl
all_units-order_item id (item ∷ items) =
    ap (λ (n : ℕ). pos_part item.quantity + n) (all_units-order_item id items)

placed-all_units :
    (ps : List (CartResponse × ℕ))
    → all_units (requested (placed ps)) ≡ sum_of (λ (p : CartResponse × ℕ). cart_units p.0) ps
unfolding placed order_of
placed-all_units [] = refl
placed-all_units (p ∷ ps) = omega (
  arith,
  sum_of-append units (map (order_item p.0.id) p.0.cart_items) (requested (placed ps)),
  all_units-order_item p.0.id p.0.cart_items,
  placed-all_units ps,
)

-- Carts with distinct identifiers, whose items ask for no negative quantity and which hold fewer
-- than 2^31 units in all, make a batch that is regular, whatever channels Checkout gives them: its
-- orders are distinct, each item names the order that it stands in, no quantity is negative and the
-- units of all items stay below 2^31.
pub placed-IsRegular :
    (ps : List (CartResponse × ℕ))
    → AreDistinct ps
    → All (λ (p : CartResponse × ℕ). IsNonneg p.0) ps
    → sum_of (λ (p : CartResponse × ℕ). cart_units p.0) ps < 2 ^ 31
    → IsRegular (placed ps)
placed-IsRegular ps distinct nonneg small = record {
  well_formed = placed-IsWellFormed ps distinct;
  nonneg = placed-AreNonneg ps nonneg;
  small = subst (λ (n : ℕ). n < 2 ^ 31) (sym (placed-all_units ps)) small;
}
