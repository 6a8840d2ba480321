-- ===== src/Cart/Request.antt =====
-- cart/pkg/request/cart.go, cart/pkg/response/cart.go and mapper.go.
use hedonify.Prelude.{ℕ, ℤ, List, map}
use hedonify.Repository.Models.{Decimal}
use hedonify.Order.Request.{OrderItem, CreateOrder}

-- request.CartItem
pub record CartItem : Type 0 where
  pub product_id : ℕ
  pub price : Decimal
  pub quantity : ℤ

-- request.Cart
pub record Cart : Type 0 where
  pub cart_items : List CartItem

-- request.RemoveCart, and request.FindCartById, which has the same fields
pub record FindCartById : Type 0 where
  pub id : ℕ
  pub user_id : ℕ

pub record RemoveCartItem : Type 0 where
  pub id : ℕ
  pub cart_id : ℕ
  pub user_id : ℕ

pub record CheckoutCart : Type 0 where
  pub user_id : ℕ
  pub cart_id : ℕ

-- response.CartItem
pub record ItemResponse : Type 0 where
  pub id : ℕ
  pub cart_id : ℕ
  pub product_id : ℕ
  pub quantity : ℤ
  pub price : Decimal
  pub created_at : ℕ
  pub updated_at : ℕ

-- response.Cart
pub record CartResponse : Type 0 where
  pub id : ℕ
  pub user_id : ℕ
  pub cart_items : List ItemResponse
  pub created_at : ℕ
  pub updated_at : ℕ

abbrev pub order_item : ℕ → ItemResponse → OrderItem
order_item order_id item = record {
  created_at = item.created_at;
  updated_at = item.updated_at;
  id = item.id;
  order_id = order_id;
  product_id = item.product_id;
  price = item.price;
  quantity = item.quantity;
}

-- Cart.Order; the channel and the trace link are nil.
unfoldable pub order_of : CartResponse → CreateOrder
order_of c = record {
  order_items = map (order_item c.id) c.cart_items;
  created_at = c.created_at;
  updated_at = c.updated_at;
  id = c.id;
  user_id = c.user_id;
  result_channel = 0;
  trace_link = 0;
}
