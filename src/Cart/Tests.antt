-- ===== src/Cart/Tests.antt =====
-- Carts at concrete inputs: a user with a cart of two items.
use mathlib.Core.List.Permᴰ
use hedonify.Prelude.{ℕ, List, pos, ◌≡◌, refl, true, false, [], ◌∷◌, none, some, arith}
use hedonify.Prelude.Map.{lookup}
use hedonify.Repository.Models.{Db, Decimal, finite, Numeric, Timestamptz}
use hedonify.Repository.Models
use hedonify.Service.World.{World, of_response}
use hedonify.Service.Call.{ok, err, Error, ask, read, write, cached, recache, ◌>>=◌}
use hedonify.Order.Batch.Check.Allotment.{IsRegular}
use hedonify.Cart.Request.{
  CartItem, FindCartById, RemoveCartItem, ItemResponse, CartResponse, order_of,
}
use hedonify.Cart.Orders.{placed, placed-IsRegular}
use hedonify.Cart.Merge.{merge_cart_items}
use hedonify.Cart.Merge.Quantities.{merged, of_product, merge_cart_items-lookup}
use hedonify.Cart.Service.{
  CartHost, require_user, find_cart_by_id_service, require_order, remove_cart, checkout_cart,
}
use hedonify.Repository.Carts.{delete_cart_by_id_and_user_id}
use hedonify.Cart.Swapped.{find_cart_by_id_service-uncached}

abbrev pub host : CartHost
host = record {
  out = record { down = λ n. false; fresh = λ n. n; now = λ n. n };
  range = record { range = λ m. m; range_perm = λ m. Permᴰ.refl m };
  unmarshal = λ items. some [];
  decode = λ d. none;
  find_user = λ user call. some 200;
  checkout = λ order call. some (201, true);
}

abbrev price : ℕ → Decimal
price n = record { coefficient = pos n; exponent = pos 0 }

abbrev wants : ℕ → ℕ → ℕ → CartItem
wants p n q = record { product_id = p; price = price n; quantity = pos q }

abbrev time : Timestamptz
time = record { time = 0; infinity_modifier = finite; valid = true }

abbrev item : ℕ → ℕ → Models.CartItem
item i p = record {
  id = i;
  cart_id = 50;
  product_id = p;
  quantity = pos 1;
  price = record {
    int = pos 1;
    exp = pos 0;
    infinity_modifier = finite;
    nan = false;
    valid = true;
  };
  created_at = time;
  updated_at = time;
}

abbrev pub shop : World
shop = record {
  db = record {
    users =
        record {
          id = 1;
          username = "ada";
          email = "ada@mail";
          password = "secret";
          created_at = time;
          updated_at = time;
        }
        ∷ [];
    products = [];
    carts = record { id = 50; user_id = 1; created_at = time; updated_at = time } ∷ [];
    cart_items = item 60 7 ∷ item 61 8 ∷ [];
    orders = [];
    order_items = [];
  };
  cache = record {
    products = [];
    users = [];
    logins = [];
    carts = [];
    carts_unformatted = [];
    carts_by_user = [];
  };
  calls = 0;
}

abbrev removal : RemoveCartItem
removal = record { id = 60; cart_id = 50; user_id = 1 }

abbrev look : FindCartById
look = record { id = 50; user_id = 1 }

merge_cart_items-lookup_example :
    lookup 7 (merge_cart_items (wants 7 3 1 ∷ wants 8 5 2 ∷ wants 7 4 6 ∷ []) [])
    ≡ merged (of_product 7 (wants 7 3 1 ∷ wants 8 5 2 ∷ wants 7 4 6 ∷ []))
merge_cart_items-lookup_example =
    merge_cart_items-lookup 7 (wants 7 3 1 ∷ wants 8 5 2 ∷ wants 7 4 6 ∷ [])
      ((omega arith, omega arith), ((omega arith, omega arith), ((omega arith, omega arith), tt)))

find_cart_by_id_service-uncached_example :
    ((e : Error) × ((find_cart_by_id_service host look shop).0 ≡ err e))
    × ((find_cart_by_id_service host look shop).1.db ≡ shop.db)
    × ((find_cart_by_id_service host look shop).1.cache ≡ shop.cache)
find_cart_by_id_service-uncached_example = find_cart_by_id_service-uncached host look shop refl refl

abbrev held : ℕ → ℕ → ItemResponse
held i q = record {
  id = i;
  cart_id = 50;
  product_id = 7;
  quantity = pos q;
  price = price 3;
  created_at = 0;
  updated_at = 0;
}

abbrev two_carts : List (CartResponse × ℕ)
two_carts =
    (
      record {
        id = 50;
        user_id = 1;
        cart_items = held 60 2 ∷ held 61 5 ∷ [];
        created_at = 0;
        updated_at = 0;
      },
      1,
    )
    ∷ (
      record { id = 51; user_id = 2; cart_items = held 62 4 ∷ []; created_at = 0; updated_at = 0 },
      2,
    )
    ∷ []

placed-IsRegular_example : IsRegular (placed two_carts)
placed-IsRegular_example =
    placed-IsRegular two_carts ((omega arith, tt), (tt, tt))
      ((omega arith, (omega arith, tt)), ((omega arith, tt), tt)) (omega arith)

-- Every cached document is this cart's, which is checked out.
abbrev held_cart : CartResponse
held_cart = record {
  id = 50;
  user_id = 1;
  cart_items = held 60 2 ∷ [];
  created_at = 0;
  updated_at = 0;
}

abbrev cached_host : CartHost
cached_host = record host { decode = λ d. some held_cart }

abbrev cached_shop : World
cached_shop = record shop {
  cache = record (World.cache shop) { carts = (50, of_response held_cart) ∷ [] };
}

checks_out :
    (checkout_cart cached_host (record { cart_id = 50; user_id = 1 }) cached_shop).0 ≡ ok held_cart
unfolding checkout_cart require_user find_cart_by_id_service require_order remove_cart ask read
    write cached recache ◌>>=◌ delete_cart_by_id_and_user_id order_of
checks_out = refl
