-- ===== src/Product/Rows.antt =====
-- Finding the row of a product after the statements that change the table.
use text.Mathlib.Text.{◌==◌ as str_eq}
use mathlib.Core.Option
use hedonify.Prelude.{
  none-ne-some, ℕ, ◌≡◌, refl, sym, ◌∙◌, inl, inr, ◌&&◌, Bool, true, false, not, List, [], ◌∷◌, ◌++◌,
  Option, none, some, arith, ◌==◌, ==_refl, if◌then◌else◌, Bool-cases, Option-cases, find_first,
  any_of, select, subst,
}
use hedonify.Prelude.Map.{Map, lookup}
use hedonify.Repository.Models.{overflows, Product, Db, timestamptz_of}
use hedonify.Repository.Products.{
  UpdateProductParams, InsertProductParams, find_product_by_id, insert_product, update_product,
  update_rows, updated_row, delete_product,
}
use hedonify.Service.World.{erase}

find-append :
    {A : Type 0} (test : A → Bool) (xs ys : List A) (p : A)
    → find_first test xs ≡ some p
    → find_first test (xs ++ ys) ≡ some p
find-append test [] ys p e = cc
find-append test (x ∷ xs) ys p e = ground (arith, find-append test xs ys p)

find-append_new :
    {A : Type 0} (test : A → Bool) (xs : List A) (x : A)
    → any_of test xs ≡ false
    → test x ≡ true
    → find_first test (xs ++ x ∷ []) ≡ some x
find-append_new test [] x absent e = rw e refl
find-append_new test (y ∷ xs) x absent e = ground (arith, find-append_new test xs x)

-- The new row is found, and every row that was there.
pub insert_product-find :
    (fresh now : ℕ) (arg : InsertProductParams) (db db' : Db) (product : Product)
    → insert_product fresh now arg db ≡ some (product, db')
    → (find_product_by_id product.id db' ≡ some product)
      × ((id : ℕ) (p : Product)
          → find_product_by_id id db ≡ some p
          → find_product_by_id id db' ≡ some p)
unfolding insert_product find_product_by_id
insert_product-find fresh now arg db db' product e =
    elim (Bool-cases (any_of (λ p. fresh == p.id) db.products)) [
      | inl used ↦
          absurd
            (none-ne-some {o = insert_product fresh now arg db} (rw (insert_product, used) refl) e)
      | inr new ↦ elim (Bool-cases (any_of (λ p. str_eq arg.name p.name) db.products)) [
        | inl used ↦ absurd (
            none-ne-some {o = insert_product fresh now arg db} (rw (insert_product, new, used) refl)
              e)
        | inr unnamed ↦
            let row : Product = record {
              id = fresh;
              name = arg.name;
              price = arg.price;
              quantity = arg.quantity;
              created_at = timestamptz_of now;
              updated_at = timestamptz_of now;
            } in
            let made : insert_product fresh now arg db
                ≡ some (row, record db { products = db.products ++ row ∷ [] }) =
              elim (Bool-cases (overflows 128 arg.name)) [
                | inl long ↦ absurd (
                    none-ne-some {o = insert_product fresh now arg db}
                      (rw (insert_product, new, unnamed, long) refl) e)
                | inr fits ↦ rw (insert_product, new, unnamed, fits) refl
              ] in
            subst
              (λ (r : Product × Db).
                (find_first (λ p. r.0.id == p.id) r.1.products ≡ some r.0)
                × ((id : ℕ) (p : Product)
                    → find_first (λ q. id == q.id) db.products ≡ some p
                    → find_first (λ q. id == q.id) r.1.products ≡ some p))
              (Option.some-injective _ _ (sym made ∙ e))
              (
                find-append_new (λ p. fresh == p.id) db.products row new (==_refl fresh),
                λ id p. find-append (λ q. id == q.id) db.products (row ∷ []) p,
              )
      ]
    ]

pub lookup-erase :
    {V : Type 0} (j k : ℕ) (m : Map V)
    → lookup j (erase k m) ≡ (if k == j then none else lookup j m)
lookup-erase j k [] = ground arith
lookup-erase j k ((i, v) ∷ m) = ground (arith, lookup-erase j k m)

pub find-select :
    (id k : ℕ) (rows : List Product)
    → (k == id) ≡ false
    → find_first (λ p. id == p.id) (select (λ q. not (k == q.id)) rows)
      ≡ find_first (λ p. id == p.id) rows
find-select id k [] e = refl
find-select id k (row ∷ rows) e = ground (arith, find-select id k rows)

find-update :
    (id : ℕ) (arg : UpdateProductParams) (now : ℕ) (rows : List Product)
    → find_first (λ p. id == p.id) (update_rows arg now rows)
      ≡ Option.map
          (λ p. if arg.id == id then updated_row arg now p else p)
          (find_first (λ p. id == p.id) rows)
unfolding update_rows
find-update id arg now [] = refl
find-update id arg now (row ∷ rows) = ground (arith, find-update id arg now rows)

pub delete_product-products :
    (k : ℕ) (db db' : Db) (product : Product)
    → delete_product k db ≡ some (product, db')
    → db'.products ≡ select (λ q. not (k == q.id)) db.products
unfolding delete_product
delete_product-products k db db' product e = ground arith

-- The updated row is found, and the others as before.
pub update_product-find :
    (now : ℕ) (arg : UpdateProductParams) (db db' : Db) (product : Product)
    → update_product now arg db ≡ some (product, db')
    → (find_product_by_id arg.id db' ≡ some product)
      × ((id : ℕ) → (arg.id == id) ≡ false → find_product_by_id id db' ≡ find_product_by_id id db)
unfolding update_product find_product_by_id
update_product-find now arg db db' product e =
    elim (Bool-cases (any_of (λ p. not (arg.id == p.id) && str_eq arg.name p.name) db.products)) [
      | inl used ↦
          absurd (none-ne-some {o = update_product now arg db} (rw (update_product, used) refl) e)
      | inr free ↦ elim (Option-cases (find_first (λ p. arg.id == p.id) db.products)) [
        | inl absent ↦
            absurd (none-ne-some {o = update_product now arg db} (ground (arith, free, absent)) e)
        | inr (row, found) ↦
            let made : update_product now arg db
                ≡ some (
                  updated_row arg now row,
                  record db { products = update_rows arg now db.products },
                ) =
              elim (Bool-cases (overflows 128 arg.name)) [
                | inl long ↦ absurd (
                    none-ne-some {o = update_product now arg db}
                      (rw (update_product, free, long) refl) e)
                | inr fits ↦ rw (update_product, free, fits, found) refl
              ] in
            subst
              (λ (r : Product × Db).
                (find_first (λ p. arg.id == p.id) r.1.products ≡ some r.0)
                × ((id : ℕ)
                    → (arg.id == id) ≡ false
                    → find_first (λ p. id == p.id) r.1.products
                      ≡ find_first (λ p. id == p.id) db.products))
              (Option.some-injective _ _ (sym made ∙ e))
              (
                find-update arg.id arg now db.products ∙ rw (found, ==_refl arg.id) refl,
                λ id other.
                    find-update id arg now db.products
                    ∙ kept id other (find_first (λ p. id == p.id) db.products),
              )
      ]
    ]
  where
    kept :
        (id : ℕ)
        → (arg.id == id) ≡ false
        → (o : Option Product)
        → Option.map (λ p. if arg.id == id then updated_row arg now p else p) o ≡ o
    kept id other none = refl
    kept id other (some p) = rw other refl
