-- ===== src/Product/Coherence.antt =====
-- The Redis cache of products against the table.
use hedonify.Prelude.{
  none-ne-some, ℕ, ◌≡◌, refl, sym, ap, ◌∙◌, inl, inr, ◌⊎◌, false, Option, none, some, arith, ◌==◌,
  ==_iff, ==_refl, if◌then◌else◌, Bool-cases, subst,
}
use hedonify.Prelude.Map.{lookup, insert, lookup-insert}
use hedonify.Repository.Models.{Product, Db}
use hedonify.Repository.Products.{find_product_by_id, find_product_by_name, delete_product}
use hedonify.Service.World.{World, Cache, erase}
use hedonify.Service.Call.{Answer, ok, Outside, raise, pure, counted, mapping_failed}
use hedonify.Service.Rules.{
  err-ne-ok, ok-injective, Ensures, pure-Ensures, raise-Ensures, bind-Ensures, bind-Attempt,
  read-Ensures, write-Ensures, cached-Ensures, recache-Ensures,
}
use hedonify.Product.Request.{ProductRequest, ProductResponse, product_response}
use hedonify.Product.Service.{
  Decode, cache_product, insert_new, insert_product_service, find_product_by_id_service,
  update_product_service, remove_product,
}
use hedonify.Product.Rows.{
  insert_product-find, lookup-erase, find-select, delete_product-products, update_product-find,
}

-- What the cache has of a product is its row in the table.
abbrev Agrees : Cache → Db → Type 0
Agrees cache db =
    (id : ℕ) (p : Product) → lookup id cache.products ≡ some p → find_product_by_id id db ≡ some p

abbrev pub IsCoherent : World → Type 0
IsCoherent w = Agrees w.cache w.db

-- Caching the row that the table has keeps the agreement.
cache_row-Agrees :
    (cache : Cache) (db : Db) (k : ℕ) (product : Product)
    → find_product_by_id k db ≡ some product
    → Agrees cache db
    → Agrees (record cache { products = insert k product cache.products }) db
cache_row-Agrees cache db k product found h id p e = elim (Bool-cases (id == k)) [
  | inl same ↦
      let hit : some product ≡ some p =
        sym (rw (lookup-insert id k product cache.products, same) refl) ∙ e in
      rw ((==_iff id k).0 same) (found ∙ hit)
  | inr other ↦ h id p (sym (rw (lookup-insert id k product cache.products, other) refl) ∙ e)
]

erased-Agrees :
    (cache : Cache) (db : Db) (k : ℕ)
    → Agrees cache db
    → Agrees (record cache { products = erase k cache.products }) db
erased-Agrees cache db k h id p e = elim (Bool-cases (k == id)) [
  | inl same ↦ absurd (none-ne-some (rw (lookup-erase id k cache.products, same) refl) e)
  | inr other ↦ h id p (sym (rw (lookup-erase id k cache.products, other) refl) ∙ e)
]

-- What FindProductById answers: the response of the table's row, or what a cached row decodes to.
abbrev pub Shows : Decode → ℕ → World → ProductResponse → Type 0
Shows decode id w answer =
    ((p : Product) × (find_product_by_id id w.db ≡ some p) × (answer ≡ product_response p))
    ⊎ ((p : Product) × (lookup id w.cache.products ≡ some p) × (decode p ≡ some answer))

module _ (out : Outside) where
  insert_new-Ensures :
      (param : ProductRequest) (w : World)
      → IsCoherent w
      → Ensures (insert_new out param) w (λ r w'. IsCoherent w')
  unfolding insert_new
  insert_new-Ensures param w h = bind-Ensures (
      write-Ensures out _ (λ e. h)
        (λ product db' inserted.
          let (new, kept) = insert_product-find _ _ _ w.db db' product inserted in
          let agrees : Agrees w.cache db' = λ id p e. kept id p (h id p e) in
          bind-Attempt (
            recache-Ensures out (cache_product product) (λ e. pure-Ensures agrees)
              (pure-Ensures (cache_row-Agrees w.cache db' product.id product new agrees)))))

  insert_product_service-Ensures :
      (param : ProductRequest) (w : World)
      → IsCoherent w
      → Ensures (insert_product_service out param) w (λ r w'. IsCoherent w')
  unfolding insert_product_service
  insert_product_service-Ensures param w h = bind-Attempt (
      read-Ensures out (find_product_by_name param.name)
        (λ e. insert_new-Ensures param (counted w) h) (λ product found. raise-Ensures h))

  delete_product-Agrees :
      (cache : Cache) (db db' : Db) (k : ℕ) (product : Product)
      → delete_product k db ≡ some (product, db')
      → Agrees cache db
      → lookup k cache.products ≡ none
      → Agrees cache db'
  unfolding find_product_by_id
  delete_product-Agrees cache db db' k product e h gone id p there = elim (Bool-cases (k == id)) [
    | inl same ↦
        absurd (
          none-ne-some (ap (λ i. lookup i cache.products) (sym ((==_iff k id).0 same)) ∙ gone)
            there)
    | inr other ↦
        rw (delete_product-products k db db' product e, find-select id k db.products other)
          (h id p there)
  ]

  remove_product-Ensures :
      (id : ℕ) (w : World)
      → IsCoherent w
      → Ensures (remove_product out id) w (λ r w'. IsCoherent w')
  unfolding remove_product
  remove_product-Ensures id w h =
      let erased = erased-Agrees w.cache w.db id h in
      bind-Ensures (
        recache-Ensures out _ (λ e. h)
          (write-Ensures out _ (λ e. erased)
            (λ product db' deleted.
              delete_product-Agrees (record w.cache { products = erase id w.cache.products }) w.db
                db' id product deleted erased
                (rw (lookup-erase id id w.cache.products, ==_refl id) refl))))

  -- Reading changes neither side.
  abbrev Answers : Decode → ℕ → World → Answer ProductResponse → World → Type 0
  Answers decode id w r w' =
      ((answer : ProductResponse) → r ≡ ok answer → Shows decode id w answer)
      × (w'.db ≡ w.db)
      × (w'.cache ≡ w.cache)

  find_product_by_id_service-Ensures :
      (decode : Decode) (id : ℕ) (w : World)
      → Ensures (find_product_by_id_service out decode id) w (Answers decode id w)
  unfolding find_product_by_id_service
  find_product_by_id_service-Ensures decode id w = bind-Ensures (
      cached-Ensures out (λ c. lookup id c.products)
        (bind-Ensures (
          read-Ensures out (find_product_by_id id)
            (λ e. (λ r k. absurd (err-ne-ok e r k), refl, refl))
            (λ p found. pure-Ensures (λ r k. inl (p, found, sym (ok-injective k)), refl, refl))))
        (λ p there. hit p there (decode p) refl))
    where
      hit :
          (p : Product)
          → lookup id w.cache.products ≡ some p
          → (o : Option ProductResponse) → decode p ≡ o
          → Ensures
              (elim o [ none ↦ raise mapping_failed | some product ↦ pure product ])
              (counted w)
              (Answers decode id w)
      hit p there none e = raise-Ensures (λ r k. absurd (err-ne-ok mapping_failed r k), refl, refl)
      hit p there (some answer) e =
          pure-Ensures (λ r k. inr (p, there, e ∙ ap some (ok-injective k)), refl, refl)

  updated-Agrees :
      (cache : Cache) (db db' : Db) (k : ℕ) (product : Product)
      → find_product_by_id k db' ≡ some product
      → ((id : ℕ) → (k == id) ≡ false → find_product_by_id id db' ≡ find_product_by_id id db)
      → Agrees cache db
      → Agrees (record cache { products = insert k product cache.products }) db'
  updated-Agrees cache db db' k product now' others h id p e = elim (Bool-cases (k == id)) [
    | inl same ↦
        let hit : some product ≡ some p =
          sym
            (rw (lookup-insert id k product cache.products, (==_iff k id).0 same, ==_refl id) refl)
          ∙ e in
        ap (λ i. find_product_by_id i db') (sym ((==_iff k id).0 same)) ∙ now' ∙ hit
    | inr other ↦
        others id other
        ∙ h id p (sym (lookup-insert id k product cache.products ∙ flipped id other) ∙ e)
  ]
    where
      flipped :
          (j : ℕ)
          → (k == j) ≡ false
          → (if j == k then some product else lookup j cache.products) ≡ lookup j cache.products
      flipped j other = ground arith

  abbrev Updates : ℕ → Answer Product → World → Type 0
  Updates id r w' =
      (product : Product)
      → r ≡ ok product
      → (find_product_by_id id w'.db ≡ some product) × IsCoherent w'

  update_product_service-Ensures :
      (id : ℕ) (param : ProductRequest) (w : World)
      → IsCoherent w
      → Ensures (update_product_service out id param) w (Updates id)
  unfolding update_product_service
  update_product_service-Ensures id param w h = bind-Ensures (
      write-Ensures out _ (λ e product k. absurd (err-ne-ok e product k))
        (λ product db' updated.
          let (now', others) = update_product-find _ _ w.db db' product updated in
          bind-Ensures (
            recache-Ensures out _ (λ e product' k. absurd (err-ne-ok e product' k))
              (pure-Ensures (λ product' k. (
                subst (λ (x : Product). find_product_by_id id db' ≡ some x) (ok-injective k) now',
                updated-Agrees w.cache w.db db' id product now' others h,
              ))))))

-- InsertProduct and RemoveProduct keep a coherent cache coherent with the table, whatever calls fail.
pub product_service-IsCoherent :
    (out : Outside) (w : World)
    → IsCoherent w
    → ((param : ProductRequest) → IsCoherent (insert_product_service out param w).1)
      × ((id : ℕ) → IsCoherent (remove_product out id w).1)
product_service-IsCoherent out w h = (
  λ param. Ensures.ensured (insert_product_service-Ensures out param w h),
  λ id. Ensures.ensured (remove_product-Ensures out id w h),
)

-- If UpdateProduct answers a row, that row is the table's, and a coherent cache is coherent again.
pub update_product_service-IsCoherent :
    (out : Outside) (id : ℕ) (param : ProductRequest) (w : World)
    → IsCoherent w
    → (product : Product) → (update_product_service out id param w).0 ≡ ok product
    → (find_product_by_id id (update_product_service out id param w).1.db ≡ some product)
      × IsCoherent (update_product_service out id param w).1
update_product_service-IsCoherent out id param w h =
    Ensures.ensured (update_product_service-Ensures out id param w h)

-- What FindProductById answers is the response of the table's row, or what the cached row decodes to.
pub find_product_by_id_service-Shows :
    (out : Outside) (decode : Decode) (id : ℕ) (w : World) (answer : ProductResponse)
    → (find_product_by_id_service out decode id w).0 ≡ ok answer
    → Shows decode id w answer
find_product_by_id_service-Shows out decode id w answer e =
    let (shows, _, _) = Ensures.ensured (find_product_by_id_service-Ensures out decode id w) in
    shows answer e

-- With a coherent cache, what FindProductById answers belongs to the row that the table has under the
-- identifier: it is the row's response, or what the row decodes to; and the cache is coherent
-- afterwards.
pub find_product_by_id_service-answers :
    (out : Outside) (decode : Decode) (id : ℕ) (w : World) (answer : ProductResponse)
    → IsCoherent w
    → (find_product_by_id_service out decode id w).0 ≡ ok answer
    → ((p : Product) × (find_product_by_id id w.db ≡ some p)
        × ((answer ≡ product_response p) ⊎ (decode p ≡ some answer)))
      × IsCoherent (find_product_by_id_service out decode id w).1
find_product_by_id_service-answers out decode id w answer h e =
    let (shows, same_db, same_cache) =
      Ensures.ensured (find_product_by_id_service-Ensures out decode id w) in
    (
      elim (shows answer e) [
        | inl (p, found, is) ↦ (p, found, inl is)
        | inr (p, there, decoded) ↦ (p, h id p there, inr decoded)
      ],
      λ k p there.
          ap (find_product_by_id k) same_db
          ∙ h k p (ap (λ c. lookup k c.products) (sym same_cache) ∙ there),
    )
