-- ===== src/Order/Request.antt =====
-- order/pkg/request/order.go, order/pkg/response/order.go, order/internal/response/order.go.
use Prim.Native.String.{String}
use hedonify.Prelude.{ℕ, ℤ, Option, List, []}
use hedonify.Repository.Models.{Decimal}

-- request.OrderItem
pub record OrderItem : Type 0 where
  pub created_at : ℕ
  pub updated_at : ℕ
  pub id : ℕ
  pub order_id : ℕ
  pub product_id : ℕ
  pub price : Decimal
  pub quantity : ℤ

-- request.CreateOrder; the result channel is its address among the channels.
pub record CreateOrder : Type 0 where
  pub order_items : List OrderItem
  pub created_at : ℕ
  pub updated_at : ℕ
  pub id : ℕ
  pub user_id : ℕ
  pub result_channel : ℕ
  pub trace_link : ℕ

pub record FindOrderById : Type 0 where
  pub user_id : ℕ
  pub order_id : ℕ

pub record FindOrders : Type 0 where
  pub user_id : ℕ
  pub order_id : ℕ

-- response.OrderItem
pub record ItemResponse : Type 0 where
  pub created_at : ℕ
  pub updated_at : ℕ
  pub id : ℕ
  pub order_id : ℕ
  pub product_id : ℕ
  pub price : Decimal
  pub quantity : ℤ

-- response.Order
pub record OrderResponse : Type 0 where
  pub created_at : ℕ
  pub updated_at : ℕ
  pub order_items : List ItemResponse
  pub status : String
  pub id : ℕ
  pub user_id : ℕ

-- `response.Order{}`
abbrev pub zero_order : OrderResponse
zero_order = record {
  created_at = 0;
  updated_at = 0;
  order_items = [];
  status = "";
  id = 0;
  user_id = 0;
}

-- The errors of the order service; the text of an error is not modelled, only where it arose.
pub data Error : Type 0 where
  out_of_stock no_order begin_failed find_failed update_failed orders_failed items_failed : Error
  get_failed commit_failed mapping_failed : Error

-- response.Result of the internal package
pub record Result : Type 0 where
  pub order : OrderResponse
  pub err : Option Error
