-- ===== src/Cart/Merge.antt =====
-- The merging of a new cart's items by product, in InsertCart of cart/internal/service/cart.go.
pub mod Quantities
use hedonify.Prelude.{ℕ, List, [], ◌∷◌, map, none, some, add32}
use hedonify.Prelude.Map.{Map, lookup, insert}
use hedonify.Cart.Request.{CartItem}

-- The body of the loop: the last price stands, and the quantities add up.
unfoldable pub merge_cart_item : CartItem → Map CartItem → Map CartItem
merge_cart_item item mp = elim (lookup item.product_id mp) [
  | none ↦ insert item.product_id item mp
  | some existing ↦
      insert item.product_id
        (record {
          product_id = item.product_id;
          price = item.price;
          quantity = add32 existing.quantity item.quantity;
        })
        mp
]

unfoldable pub merge_cart_items : List CartItem → Map CartItem → Map CartItem
merge_cart_items [] mp = mp
merge_cart_items (item ∷ items) mp = merge_cart_items items (merge_cart_item item mp)
