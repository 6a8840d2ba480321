-- ===== src/Order/Batch/Check/Drop.antt =====
-- One item leaves the orders of checkDecreaseQuantity: no panic where the numbers of items agree.
use hedonify.Prelude.{
  ℕ, suc, ◌+◌, ◌≡◌, refl, sym, ap, inl, inr, List, [], ◌∷◌, ◌++◌, arith, if◌then◌else◌, Bool-cases,
  sum_of-append, length, drop_last, none, some, Option-cases, ok, ◌==◌, ==_iff, subst,
}
use mathlib.Core.Option
use hedonify.Prelude.Map.{Map, lookup, insert, lookup-insert}
use hedonify.Order.Request.{OrderItem, CreateOrder}
use hedonify.Order.Batch.Items.{count_order}
use hedonify.Order.Batch.Check.{shorten, drop_order_item}

-- An order but for its items.
abbrev pub strip : CreateOrder → CreateOrder
strip order = record order { order_items = [] }

-- The two maps have the same orders, but for the orders' items.
abbrev pub SameOrders : Map CreateOrder → Map CreateOrder → Type 0
SameOrders m m' = (o : ℕ) → Option.map strip (lookup o m') ≡ Option.map strip (lookup o m)

-- Each order has as many items as name it among `xs`, and `others o` more.
abbrev pub Agree : (ℕ → ℕ) → List OrderItem → Map CreateOrder → Type 0
Agree others xs m =
    (o : ℕ) (order : CreateOrder)
    → lookup o m ≡ some order
    → length order.order_items ≡ others o + count_order o xs

length-drop_last :
    {A : Type 0} (x : A) (xs : List A) → length (x ∷ xs) ≡ suc (length (drop_last (x ∷ xs)))
length-drop_last x [] = refl
length-drop_last x (y ∷ xs) = ap suc (length-drop_last y xs)

shorten_lem :
    (order : CreateOrder) (n : ℕ)
    → length order.order_items ≡ suc n
    → (order' : CreateOrder) × (shorten order ≡ ok order')
      × (length order'.order_items ≡ n)
      × (strip order' ≡ strip order)
unfolding shorten
shorten_lem order n e = go order.order_items refl
  where
    go :
        (xs : List OrderItem)
        → order.order_items ≡ xs
        → (order' : CreateOrder) × (shorten order ≡ ok order')
          × (length order'.order_items ≡ n)
          × (strip order' ≡ strip order)
    go [] h = absurd (omega (arith, ap length h))
    go (x ∷ xs) h = (
      record order { order_items = drop_last (x ∷ xs) },
      ground arith,
      omega (arith, length-drop_last x xs, ap length h),
      refl,
    )

count_order_snoc :
    (o : ℕ) (ys : List OrderItem) (x : OrderItem)
    → count_order o (ys ++ x ∷ []) ≡ count_order o ys + (if o == x.order_id then 1 else 0)
count_order_snoc o ys x =
    omega (arith, sum_of-append (λ item. if o == item.order_id then 1 else 0) ys (x ∷ []))

Agree-absent :
    (others : ℕ → ℕ) (ys : List OrderItem) (x : OrderItem) (m : Map CreateOrder)
    → lookup x.order_id m ≡ none
    → Agree others (ys ++ x ∷ []) m
    → Agree others ys m
Agree-absent others ys x m e agree o order h = elim (Bool-cases (o == x.order_id)) [
  | inl same ↦ absurd (ground (arith, ap (λ k. lookup k m) ((==_iff o x.order_id).0 same)))
  | inr other ↦ ground (arith, agree o order h, count_order_snoc o ys x)
]

Agree-shortened :
    (others : ℕ → ℕ) (ys : List OrderItem) (x : OrderItem) (m : Map CreateOrder)
    (order order' : CreateOrder)
    → length order'.order_items + 1 ≡ length order.order_items
    → lookup x.order_id m ≡ some order
    → Agree others (ys ++ x ∷ []) m
    → Agree others ys (insert x.order_id order' m)
Agree-shortened others ys x m order order' len e agree o found h =
    elim (Bool-cases (o == x.order_id)) [
      | inl same ↦ ground (
        arith,
        lookup-insert o x.order_id order' m,
        (==_iff o x.order_id).0 same,
        agree x.order_id order e,
        count_order_snoc o ys x,
        ap (λ k. others k + count_order k ys) ((==_iff o x.order_id).0 same),
        count_order_snoc x.order_id ys x,
      )
      | inr other ↦
          ground
            (arith, lookup-insert o x.order_id order' m, agree o found, count_order_snoc o ys x)
    ]

SameOrders-shortened :
    (k : ℕ) (m : Map CreateOrder) (order order' : CreateOrder)
    → strip order' ≡ strip order
    → lookup k m ≡ some order
    → SameOrders m (insert k order' m)
SameOrders-shortened k m order order' same e o = elim (Bool-cases (o == k)) [
  | inl hit ↦
      rw (lookup-insert o k order' m, hit)
        (subst (λ j. some (strip order') ≡ Option.map strip (lookup j m)) (sym ((==_iff o k).0 hit))
          (rw e (ap some same)))
  | inr miss ↦ rw (lookup-insert o k order' m, miss) refl
]

pub drop_order_item_lem :
    (others : ℕ → ℕ) (ys : List OrderItem) (x : OrderItem) (m : Map CreateOrder)
    → Agree others (ys ++ x ∷ []) m
    → (m' : Map CreateOrder) × (drop_order_item x.order_id m ≡ ok m')
      × Agree others ys m'
      × SameOrders m m'
unfolding drop_order_item
drop_order_item_lem others ys x m agree = elim (Option-cases (lookup x.order_id m)) [
  | inl e ↦ (m, rw (e, drop_order_item) refl, Agree-absent others ys x m e agree, λ o. refl)
  | inr (order, e) ↦
      let (order', done, len, same) =
        shorten_lem order (others x.order_id + count_order x.order_id ys)
          (ground (arith, agree x.order_id order e, count_order_snoc x.order_id ys x)) in
      (
        insert x.order_id order' m,
        rw (e, drop_order_item) (rw done refl),
        Agree-shortened others ys x m order order'
            (ground (arith, agree x.order_id order e, count_order_snoc x.order_id ys x)) e agree,
        SameOrders-shortened x.order_id m order order' same e,
      )
]
