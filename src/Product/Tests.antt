-- ===== src/Product/Tests.antt =====
-- Products at concrete inputs: one row, cached, with calls that do not fail.
use hedonify.Prelude.{ℕ, ◌⊎◌, pos, ◌≡◌, refl, true, false, [], ◌∷◌, some, arith, ◌==◌, wrap32}
use hedonify.Repository.Models.{Product, finite, numeric_of, timestamptz_of}
use hedonify.Repository.Products.{find_product_by_id, update_product, update_rows}
use hedonify.Service.World.{World}
use hedonify.Service.Call.{ok, Outside, ◌>>=◌, write, cached, recache}
use hedonify.Product.Request.{ProductRequest, product_response}
use hedonify.Product.Service.{
  Decode, insert_product_service, find_product_by_id_service, update_product_service,
  remove_product,
}
use hedonify.Product.Coherence.{
  IsCoherent, product_service-IsCoherent, update_product_service-IsCoherent,
  find_product_by_id_service-answers,
}

-- The cache fails at the third call.
abbrev pub flaky : Outside
flaky = record { down = λ n. n == 2; fresh = λ n. n; now = λ n. n }

abbrev pub tea : Product
tea = record {
  id = 7;
  name = "tea";
  price = record {
    int = pos 5;
    exp = pos 0;
    infinity_modifier = finite;
    nan = false;
    valid = true;
  };
  quantity = pos 9;
  created_at = record { time = 0; infinity_modifier = finite; valid = true };
  updated_at = record { time = 0; infinity_modifier = finite; valid = true };
}

abbrev pub shop : World
shop = record {
  db = record {
    users = [];
    products = tea ∷ [];
    carts = [];
    cart_items = [];
    orders = [];
    order_items = [];
  };
  cache = record {
    products = (7, tea) ∷ [];
    users = [];
    logins = [];
    carts = [];
    carts_unformatted = [];
    carts_by_user = [];
  };
  calls = 0;
}

abbrev pub coffee : ProductRequest
coffee = record {
  name = "coffee";
  price = record { coefficient = pos 6; exponent = pos 0 };
  quantity = pos 3;
}

abbrev tea_now : Product
tea_now = record {
  id = 7;
  name = "coffee";
  price = record {
    int = pos 6;
    exp = pos 0;
    infinity_modifier = finite;
    nan = false;
    valid = true;
  };
  quantity = pos 3;
  created_at = record { time = 0; infinity_modifier = finite; valid = true };
  updated_at = record { time = 0; infinity_modifier = finite; valid = true };
}

abbrev pub reads : Decode
reads p = some (product_response p)

pub shop-IsCoherent : IsCoherent shop
unfolding find_product_by_id
shop-IsCoherent id p e = ground arith

finds_tea : (find_product_by_id_service flaky reads 7 shop).0 ≡ ok (product_response tea)
unfolding find_product_by_id_service cached ◌>>=◌
finds_tea = refl

updates_tea : (update_product_service flaky 7 coffee shop).0 ≡ ok tea_now
unfolding update_product_service write recache ◌>>=◌ update_product update_rows numeric_of
    timestamptz_of wrap32
updates_tea = refl

product_service-IsCoherent_example :
    ((param : ProductRequest) → IsCoherent (insert_product_service flaky param shop).1)
    × ((id : ℕ) → IsCoherent (remove_product flaky id shop).1)
product_service-IsCoherent_example = product_service-IsCoherent flaky shop shop-IsCoherent

update_product_service-IsCoherent_example :
    (find_product_by_id 7 (update_product_service flaky 7 coffee shop).1.db ≡ some tea_now)
    × IsCoherent (update_product_service flaky 7 coffee shop).1
update_product_service-IsCoherent_example =
    update_product_service-IsCoherent flaky 7 coffee shop shop-IsCoherent tea_now updates_tea

find_product_by_id_service-answers_example :
    ((p : Product) × (find_product_by_id 7 shop.db ≡ some p)
      × ((product_response tea ≡ product_response p) ⊎ (reads p ≡ some (product_response tea))))
    × IsCoherent (find_product_by_id_service flaky reads 7 shop).1
find_product_by_id_service-answers_example =
    find_product_by_id_service-answers flaky reads 7 shop (product_response tea) shop-IsCoherent
      finds_tea
