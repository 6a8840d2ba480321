-- ===== src/Order/Batch/Prepare.antt =====
-- buildQuery, prepareOrderArgs, prepareOrderItemArgs and orderToResponse of
-- order/internal/service/order.go. Where the code ranges over a map, the function takes the entries
-- in the order of the range.
use hedonify.Prelude.{ℕ, ℤ, List, [], ◌∷◌, ◌++◌, Option, none, some, map}
use hedonify.Prelude.Map.{Map, lookup, insert}
use hedonify.Repository.Models.{numeric_of, timestamptz_of}
use hedonify.Repository.Models
use hedonify.Repository.Orders.{InsertOrdersParams, InsertOrderItemParams, OrderRow}
use hedonify.Repository.Mapper.{order_response}
use hedonify.Order.Request.{OrderItem, CreateOrder, ItemResponse, OrderResponse}
use hedonify.Order.Batch.Merge.{MergedOrderItem}

-- The two readings of the clock for the row with an identifier.
pub record Times : Type 0 where
  pub created : ℕ → ℕ
  pub updated : ℕ → ℕ

-- The arms of the statement's `case`, `when id = '…' then …`.
unfoldable pub build_query : List (ℕ × MergedOrderItem) → List (ℕ × ℤ)
build_query [] = []
build_query ((product_id, item) ∷ rest) =
    (product_id, item.ordered_item_quantity) ∷ build_query rest

abbrev order_args : Times → CreateOrder → InsertOrdersParams
order_args times order = record {
  id = order.id;
  user_id = order.user_id;
  created_at = timestamptz_of (times.created order.id);
  updated_at = timestamptz_of (times.updated order.id);
}

unfoldable pub prepare_order_args : Times → List (ℕ × CreateOrder) → List InsertOrdersParams
prepare_order_args times [] = []
prepare_order_args times ((_, order) ∷ rest) = elim order.order_items [
  | [] ↦ prepare_order_args times rest
  | _ ∷ _ ↦ order_args times order ∷ prepare_order_args times rest
]

abbrev pub item_args : Times → OrderItem → InsertOrderItemParams
item_args times order_item = record {
  id = order_item.id;
  order_id = order_item.order_id;
  product_id = order_item.product_id;
  quantity = order_item.quantity;
  price = numeric_of order_item.price;
  created_at = timestamptz_of (times.created order_item.id);
  updated_at = timestamptz_of (times.updated order_item.id);
}

unfoldable pub prepare_order_item_args :
    Times → List (ℕ × MergedOrderItem) → List InsertOrderItemParams
prepare_order_item_args times [] = []
prepare_order_item_args times ((_, item) ∷ rest) =
    map (item_args times) item.items ++ prepare_order_item_args times rest

-- One round of orderToResponse.
unfoldable pub add_response :
    (List Models.OrderItem → Option (List ItemResponse))
    → Map CreateOrder
    → OrderRow
    → Map OrderResponse
    → Map OrderResponse
add_response unmarshal map_order row responses = elim (lookup row.id map_order) [
  | none ↦ responses
  | some order_req ↦ elim order_req.order_items [
    | [] ↦ responses
    | _ ∷ _ ↦ elim (order_response unmarshal row) [
      | none ↦ responses
      | some order_res ↦ insert row.id order_res responses
    ]
  ]
]

unfoldable pub respond_from :
    (List Models.OrderItem → Option (List ItemResponse))
    → List OrderRow
    → Map CreateOrder
    → Map OrderResponse
    → Map OrderResponse
respond_from unmarshal [] map_order responses = responses
respond_from unmarshal (row ∷ rows) map_order responses =
    respond_from unmarshal rows map_order (add_response unmarshal map_order row responses)

unfoldable pub order_to_response :
    (List Models.OrderItem → Option (List ItemResponse))
    → List OrderRow
    → Map CreateOrder
    → Map OrderResponse
order_to_response unmarshal orders map_order = respond_from unmarshal orders map_order []
