-- ===== src/Integrity/Products.antt =====
-- ProductService keeps the constraints of the tables.
use hedonify.Prelude.{ℕ}
use hedonify.Repository.Integrity.{IsIntegral}
use hedonify.Repository.Integrity.Products.{
  insert_product-IsIntegral, update_product-IsIntegral, delete_product-IsIntegral,
}
use hedonify.Service.Call.{Outside}
use hedonify.Service.Keeps.{
  Keeps, pure-Keeps, raise-Keeps, attempt-Keeps, bind-Keeps, read-Keeps, read_all-Keeps,
  write-Keeps, answer-Keeps, option-Keeps, cached-Keeps, recache-Keeps,
}
use hedonify.Product.Request.{ProductRequest}
use hedonify.Product.Service.{
  Decode, insert_new, insert_product_service, get_products, find_product_by_id_service,
  update_product_service, remove_product,
}

module _ (out : Outside) where
  insert_new-Keeps : (param : ProductRequest) → Keeps IsIntegral (insert_new out param)
  unfolding insert_new
  insert_new-Keeps param =
      bind-Keeps
        (write-Keeps out _
          (λ fresh now db db' row e h. insert_product-IsIntegral fresh now _ db db' row e h))
        (λ product.
          bind-Keeps (attempt-Keeps (recache-Keeps out _))
            (answer-Keeps (λ _. pure-Keeps _) (λ _. pure-Keeps _)))

  pub insert_product_service-Keeps :
      (param : ProductRequest) → Keeps IsIntegral (insert_product_service out param)
  unfolding insert_product_service
  insert_product_service-Keeps param =
      bind-Keeps (attempt-Keeps (read-Keeps out _))
        (answer-Keeps (λ _. raise-Keeps _) (λ _. insert_new-Keeps param))

  pub get_products-Keeps : Keeps IsIntegral (get_products out)
  unfolding get_products
  get_products-Keeps = read_all-Keeps out _

  pub update_product_service-Keeps :
      (id : ℕ) (param : ProductRequest) → Keeps IsIntegral (update_product_service out id param)
  unfolding update_product_service
  update_product_service-Keeps id param =
      bind-Keeps
        (write-Keeps out _
          (λ fresh now db db' row e h. update_product-IsIntegral now _ db db' row e h))
        (λ product. bind-Keeps (recache-Keeps out _) (λ _. pure-Keeps product))

  pub remove_product-Keeps : (id : ℕ) → Keeps IsIntegral (remove_product out id)
  unfolding remove_product
  remove_product-Keeps id = bind-Keeps (recache-Keeps out _) (λ _.
      write-Keeps out _ (λ fresh now db db' row e h. delete_product-IsIntegral id db db' row e h))

  pub find_product_by_id_service-Keeps :
      (decode : Decode) (id : ℕ) → Keeps IsIntegral (find_product_by_id_service out decode id)
  unfolding find_product_by_id_service
  find_product_by_id_service-Keeps decode id = bind-Keeps (cached-Keeps out _) (
      option-Keeps (bind-Keeps (read-Keeps out _) (λ _. pure-Keeps _))
        (λ p. option-Keeps (raise-Keeps _) (λ _. pure-Keeps _) (decode p)))
