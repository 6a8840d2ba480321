-- ===== src/Repository/Products.antt =====
-- The statements of internal/repository/products.sql.go, and the update that the order service
-- builds. A statement is a function of the tables; a statement that the database refuses is `none`.
use Prim.Native.String.{String}
use text.Mathlib.Text.{◌==◌ as str_eq}
use hedonify.Prelude.{
  ℕ, ◌-◌, ◌^◌, ℤ, pos, negsuc, ◌-ℤ◌, ltb_ℤ, Bool, not, ◌&&◌, List, [], ◌∷◌, ◌++◌, Option, none,
  some, ◌==◌, if◌then◌else◌, select, find_first, any_of, elem,
}
use mathlib.Core.Option
use hedonify.Repository.Models.{overflows, Numeric, timestamptz_of, Product, Db}

-- select … from products where id = any($1)
unfoldable pub find_products_by_ids : List ℕ → Db → List Product
find_products_by_ids ids db = select (λ p. elem p.id ids) db.products

-- select … from products
unfoldable pub find_products : Db → List Product
find_products db = db.products

-- select … from products where id = $1
unfoldable pub find_product_by_id : ℕ → Db → Option Product
find_product_by_id id db = find_first (λ p. id == p.id) db.products

-- select … from products where name = $1
unfoldable pub find_product_by_name : String → Db → Option Product
find_product_by_name name db = find_first (λ p. str_eq name p.name) db.products

-- Values that fit the integer columns.
abbrev fits_int4 : ℤ → Bool
fits_int4 z = not (ltb_ℤ z (negsuc (2 ^ 31 - 1))) && not (ltb_ℤ (pos (2 ^ 31 - 1)) z)

pub record InsertProductParams : Type 0 where
  pub name : String
  pub price : Numeric
  pub quantity : ℤ

-- insert into products (name, price, quantity) values ($1, $2, $3) returning …
-- The identifier is drawn by gen_random_uuid() and the times are current_timestamp; the name is a
-- varchar(128) and unique.
unfoldable pub insert_product : ℕ → ℕ → InsertProductParams → Db → Option (Product × Db)
insert_product fresh now arg db =
    if any_of (λ p. fresh == p.id) db.products
    then none
    else if any_of (λ p. str_eq arg.name p.name) db.products
    then none
    else if overflows 128 arg.name
    then none
    else (let row : Product = record {
      id = fresh;
      name = arg.name;
      price = arg.price;
      quantity = arg.quantity;
      created_at = timestamptz_of now;
      updated_at = timestamptz_of now;
    } in
        some (row, record db { products = db.products ++ row ∷ [] }))

pub record UpdateProductParams : Type 0 where
  pub name : String
  pub price : Numeric
  pub quantity : ℤ
  pub id : ℕ

abbrev pub updated_row : UpdateProductParams → ℕ → Product → Product
updated_row arg now p = record p {
  name = arg.name;
  price = arg.price;
  quantity = arg.quantity;
  updated_at = timestamptz_of now;
}

unfoldable pub update_rows : UpdateProductParams → ℕ → List Product → List Product
update_rows arg now [] = []
update_rows arg now (p ∷ ps) =
    (if arg.id == p.id then updated_row arg now p else p) ∷ update_rows arg now ps

-- update products set name = $1, price = $2, quantity = $3, updated_at = now() where id = $4
-- returning …; no row is an error of the `:one` query.
unfoldable pub update_product : ℕ → UpdateProductParams → Db → Option (Product × Db)
update_product now arg db =
    if any_of (λ p. not (arg.id == p.id) && str_eq arg.name p.name) db.products
    then none
    else if overflows 128 arg.name
    then none
    else Option.map
        (λ p. (updated_row arg now p, record db { products = update_rows arg now db.products }))
        (find_first (λ p. arg.id == p.id) db.products)

-- delete from products where id = $1 returning …; rows of carts and orders refer to products.
unfoldable pub delete_product : ℕ → Db → Option (Product × Db)
delete_product id db =
    if any_of (λ i. id == i.product_id) db.cart_items
    then none
    else if any_of (λ i. id == i.product_id) db.order_items
    then none
    else Option.map (λ p. (p, record db { products = select (λ q. not (id == q.id)) db.products }))
        (find_first (λ p. id == p.id) db.products)

-- The value of `case when id = 'k' then q … end`: null where no arm fits.
unfoldable pub case_value : ℕ → List (ℕ × ℤ) → Option ℤ
case_value id [] = none
case_value id ((k, q) ∷ arms) = if id == k then some q else case_value id arms

-- One row of the update: null in a column that is not null and a number out of range are refused.
unfoldable pub decrease_row : List (ℕ × ℤ) → ℕ → Product → Option Product
decrease_row arms now p = elim (case_value p.id arms) [
  | none ↦ none
  | some q ↦
      if fits_int4 (p.quantity -ℤ q)
      then some (record p { quantity = p.quantity -ℤ q; updated_at = timestamptz_of now })
      else none
]

unfoldable pub decrease_rows : List (ℕ × ℤ) → List ℕ → ℕ → List Product → Option (List Product)
decrease_rows arms ids now [] = some []
decrease_rows arms ids now (p ∷ ps) =
    Option.bind (if elem p.id ids then decrease_row arms now p else some p)
      λ p'. Option.map (λ ps'. p' ∷ ps') (decrease_rows arms ids now ps)

-- update products set updated_at = now(), quantity = quantity - case … end where id = any($1);
-- a `case` with no arm is a syntax error.
unfoldable pub decrease_quantities : List (ℕ × ℤ) → List ℕ → ℕ → Db → Option Db
decrease_quantities [] ids now db = none
decrease_quantities (arm ∷ arms) ids now db =
    Option.map (λ ps. record db { products = ps }) (decrease_rows (arm ∷ arms) ids now db.products)
