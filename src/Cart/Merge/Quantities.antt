-- ===== src/Cart/Merge/Quantities.antt =====
-- What the merging of a new cart's items amounts to for each product.
use hedonify.Prelude.{
  ℕ, ℤ, pos, ◌+ℤ◌, ◌≡◌, refl, ◌∙◌, sym, ap, List, [], ◌∷◌, ◌++◌, Option, some, arith, ◌==◌, ==_iff,
  ==_refl, select, select-append, add32, wrap32, wrap32_self, add32_wrap, All, IsInt32, last?,
  Bool-cases, inl, inr, false, subst, zero-+ℤ, +ℤ_assoc, +ℤ-zero,
}
use mathlib.Core.Option
use mathlib.Core.List.{append_assoc, append-nil}
use hedonify.Prelude.Map.{Map, lookup, lookup-insert}
use hedonify.Cart.Request.{CartItem}
use hedonify.Cart.Merge.{merge_cart_item, merge_cart_items}

-- The true sum of the quantities.
unfoldable pub total : List CartItem → ℤ
total [] = pos 0
total (item ∷ items) = item.quantity +ℤ total items

total_snoc : (xs : List CartItem) (x : CartItem) → total (xs ++ x ∷ []) ≡ total xs +ℤ x.quantity
unfolding total
total_snoc [] x = +ℤ-zero x.quantity ∙ sym (zero-+ℤ x.quantity)
total_snoc (y ∷ xs) x = rw (total_snoc xs x) (sym (+ℤ_assoc y.quantity (total xs) x.quantity))

-- One item for all that ask for a product: the last price, and the sum of the quantities.
abbrev pub merged : List CartItem → Option CartItem
merged xs =
    Option.map
      (λ item. record {
        product_id = item.product_id;
        price = item.price;
        quantity = wrap32 (total xs);
      })
      (last? xs)

last?-snoc : (xs : List CartItem) (x : CartItem) → last? (xs ++ x ∷ []) ≡ some x
last?-snoc [] x = refl
last?-snoc (y ∷ []) x = refl
last?-snoc (y ∷ z ∷ xs) x = last?-snoc (z ∷ xs) x

last?-cons : (x : CartItem) (xs : List CartItem) → (l : CartItem) × (last? (x ∷ xs) ≡ some l)
last?-cons x [] = (x, refl)
last?-cons x (y ∷ xs) = last?-cons y xs

merged_snoc :
    (xs : List CartItem) (i : CartItem)
    → merged (xs ++ i ∷ [])
      ≡ some (record {
        product_id = i.product_id;
        price = i.price;
        quantity = add32 (wrap32 (total xs)) i.quantity;
      })
merged_snoc xs i = rw (last?-snoc xs i, total_snoc xs i, add32_wrap (total xs) i.quantity) refl

merge_cart_item_hit :
    (i : CartItem) (xs : List CartItem) (m : Map CartItem)
    → IsInt32 i.quantity
    → lookup i.product_id m ≡ merged xs
    → lookup i.product_id (merge_cart_item i m) ≡ merged (xs ++ i ∷ [])
unfolding merge_cart_item total
merge_cart_item_hit i [] m q t =
    rw (t, merge_cart_item, lookup-insert i.product_id i.product_id i m, ==_refl i.product_id)
      (ap (λ z. some (record { product_id = i.product_id; price = i.price; quantity = z }))
        (sym (ap wrap32 (total_one i) ∙ wrap32_self i.quantity q)))
  where
    total_one : (x : CartItem) → total (x ∷ []) ≡ x.quantity
    total_one x = total_snoc [] x ∙ zero-+ℤ x.quantity
merge_cart_item_hit i (x ∷ xs) m q t =
    let (l, e) = last?-cons x xs in
    let old : CartItem = record {
      product_id = l.product_id;
      price = l.price;
      quantity = wrap32 (total (x ∷ xs));
    } in
    let now : lookup i.product_id m ≡ some old = t ∙ rw e refl in
    rw (now, merge_cart_item, lookup-insert i.product_id i.product_id _ m, ==_refl i.product_id)
      (sym (merged_snoc (x ∷ xs) i))

merge_cart_item_miss :
    (p : ℕ) (i : CartItem) (m : Map CartItem)
    → (p == i.product_id) ≡ false
    → lookup p (merge_cart_item i m) ≡ lookup p m
unfolding merge_cart_item
merge_cart_item_miss p i m miss = grind (arith, lookup-insert)

abbrev pub of_product : ℕ → List CartItem → List CartItem
of_product p = select (λ item. p == item.product_id)

merge_cart_items_from :
    (p : ℕ) (seen items : List CartItem) (m : Map CartItem)
    → All (λ item. IsInt32 item.quantity) items
    → lookup p m ≡ merged (of_product p seen)
    → lookup p (merge_cart_items items m) ≡ merged (of_product p (seen ++ items))
unfolding merge_cart_items
merge_cart_items_from p seen [] m q t = rw (append-nil seen) t
merge_cart_items_from p seen (i ∷ items) m q t =
    rw (← append_assoc seen (i ∷ []) items)
      (merge_cart_items_from p (seen ++ i ∷ []) items (merge_cart_item i m) q.1 next)
  where
    next : lookup p (merge_cart_item i m) ≡ merged (of_product p (seen ++ i ∷ []))
    next = elim (Bool-cases (p == i.product_id)) [
      | inl hit ↦
          let same = (==_iff p i.product_id).0 hit in
          rw (select-append (λ item. p == item.product_id) seen (i ∷ []), hit)
            (subst
              (λ (k : ℕ). lookup k (merge_cart_item i m) ≡ merged (of_product p seen ++ i ∷ []))
              (sym same)
              (merge_cart_item_hit i (of_product p seen) m q.0
                (subst (λ (k : ℕ). lookup k m ≡ merged (of_product p seen)) same t)))
      | inr miss ↦
          rw
            (
              select-append (λ item. p == item.product_id) seen (i ∷ []),
              miss,
              append-nil (of_product p seen),
              merge_cart_item_miss p i m miss,
            )
            t
    ]

-- For every product a new cart has one item if the request names it and none else: with the price
-- of the last request for it and the int32 sum of the requested quantities. The condition is that
-- every quantity is an int32.
pub merge_cart_items-lookup :
    (p : ℕ) (items : List CartItem)
    → All (λ item. IsInt32 item.quantity) items
    → lookup p (merge_cart_items items []) ≡ merged (of_product p items)
merge_cart_items-lookup p items q = merge_cart_items_from p [] items [] q refl
