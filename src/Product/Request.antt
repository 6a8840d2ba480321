-- ===== src/Product/Request.antt =====
-- product/pkg/request/product.go and product/pkg/response/product.go, with Product.Response of
-- internal/repository/mapper.go.
use Prim.Native.String.{String}
use hedonify.Prelude.{ℕ, ℤ, pos}
use hedonify.Repository.Models.{Decimal, Product}
use hedonify.Repository.Mapper.{decimal_of}

-- request.Product; the quantity is an int.
pub record ProductRequest : Type 0 where
  pub name : String
  pub price : Decimal
  pub quantity : ℤ

-- response.Product
pub record ProductResponse : Type 0 where
  pub id : ℕ
  pub name : String
  pub price : Decimal
  pub quantity : ℤ
  pub created_at : ℕ
  pub updated_at : ℕ

-- `response.Product{}`
abbrev pub zero_product : ProductResponse
zero_product = record {
  id = 0;
  name = "";
  price = record { coefficient = pos 0; exponent = pos 0 };
  quantity = pos 0;
  created_at = 0;
  updated_at = 0;
}

-- Product.Response
unfoldable pub product_response : Product → ProductResponse
product_response p = record {
  id = p.id;
  name = p.name;
  price = decimal_of p.price;
  quantity = p.quantity;
  created_at = p.created_at.time;
  updated_at = p.updated_at.time;
}
