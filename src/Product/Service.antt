-- ===== src/Product/Service.antt =====
-- ProductService of product/internal/service/product.go.
use hedonify.Prelude.{ℕ, List, Option, none, some, wrap32}
use hedonify.Prelude.Map.{lookup, insert}
use hedonify.Repository.Models.{Product, numeric_of}
use hedonify.Repository.Products.{
  find_products, find_product_by_id, find_product_by_name, insert_product, update_product,
  delete_product,
}
use hedonify.Service.World.{Cache, erase}
use hedonify.Service.Call.{
  ok, err, Outside, M, pure, raise, attempt, ◌>>=◌, ◌>>◌, read, read_all, write, cached, recache,
  already_exists, mapping_failed,
}
use hedonify.Product.Request.{ProductRequest, ProductResponse, zero_product, product_response}

-- json.Unmarshal into a response.Product of the document that a row was marshalled to.
abbrev pub Decode : Type 0
Decode = Product → Option ProductResponse

abbrev pub cache_product : Product → Cache → Cache
cache_product p c = record c { products = insert p.id p c.products }

module _ (out : Outside) where
  -- The rest of InsertProduct, for a name that was not found.
  unfoldable pub insert_new : ProductRequest → M ProductResponse
  insert_new param = do
    product ← write out λ fresh now. insert_product fresh now (record {
      name = param.name;
      price = numeric_of param.price;
      quantity = wrap32 param.quantity;
    })
    stored ← attempt (recache out (cache_product product))
    elim stored [ ok _ ↦ pure (product_response product) | err _ ↦ pure zero_product ]

  -- ProductService.InsertProduct: any error of the first query counts as an absent name.
  unfoldable pub insert_product_service : ProductRequest → M ProductResponse
  insert_product_service param = do
    found ← attempt (read out (find_product_by_name param.name))
    elim found [ ok _ ↦ raise already_exists | err _ ↦ insert_new param ]

  -- ProductService.GetProducts
  unfoldable pub get_products : M (List Product)
  get_products = read_all out find_products

  -- ProductService.FindProductById
  unfoldable pub find_product_by_id_service : Decode → ℕ → M ProductResponse
  find_product_by_id_service decode id = do
    document ← cached out (λ c. lookup id c.products)
    elim document [
      | none ↦ do product ← read out (find_product_by_id id); pure (product_response product)
      | some p ↦ elim (decode p) [ none ↦ raise mapping_failed | some product ↦ pure product ]
    ]

  -- ProductService.UpdateProduct
  unfoldable pub update_product_service : ℕ → ProductRequest → M Product
  update_product_service id param = do
    product ← write out λ _ now. update_product now (record {
      name = param.name;
      price = numeric_of param.price;
      quantity = wrap32 param.quantity;
      id = id;
    })
    recache out (λ c. record c { products = insert id product c.products })
    pure product

  -- ProductService.RemoveProduct
  unfoldable pub remove_product : ℕ → M Product
  remove_product id = do
    recache out (λ c. record c { products = erase id c.products })
    write out λ _ _. delete_product id
