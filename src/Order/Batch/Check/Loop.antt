-- ===== src/Order/Batch/Check/Loop.antt =====
-- The inner loop of checkDecreaseQuantity.
use hedonify.Prelude.{
  ℕ, zero, suc, ◌<◌, ◌≤◌, ◌^◌, ◌≡◌, refl, sym, ap, ◌∙◌, inl, inr, pos, List, [], ◌∷◌, ◌++◌, arith,
  ltb, true, false, Bool-cases, sum_of-append, wrap32, sub32, sub32_wrap, length, length-append,
  last?, drop_last, drop_last-append, some, ok, ltb_ℤ, ◌≤ℤ◌, subst, All-append_left, +ℤ_cancel,
}
use hedonify.Prelude.Map.{Map}
use hedonify.Order.Request.{OrderItem, CreateOrder}
use hedonify.Order.Batch.Items.{total, total-append, total_one}
use hedonify.Order.Batch.Merge.{MergedOrderItem}
use hedonify.Order.Batch.Check.Fit.{
  units, AreNonneg, all_units, fit, fit_all, fit_snoc, total-units, short_test,
}
use hedonify.Order.Batch.Check.Drop.{Agree, SameOrders, drop_order_item_lem}
use hedonify.Order.Batch.Check.{drop_order_item, check_loop}

-- A merged entry with given items.
abbrev pub of_items : List OrderItem → MergedOrderItem
of_items xs = record { items = xs; ordered_item_quantity = wrap32 (total xs) }

abbrev IsShort : ℕ → List OrderItem → Type 0
IsShort s xs = ltb_ℤ (sub32 (pos s) (wrap32 (total xs))) (pos 0) ≡ ltb s (all_units xs)

IsShort_lem :
    (s : ℕ) (xs : List OrderItem) → s < 2 ^ 31 → all_units xs < 2 ^ 31 → AreNonneg xs → IsShort s xs
IsShort_lem s xs hs hu nonneg = rw (total-units xs nonneg) (short_test s (all_units xs) hs hu)

-- Taking the last item away keeps the quantity the sum of the items.
quantity_lem :
    (xs ys : List OrderItem) (x : OrderItem)
    → xs ≡ ys ++ x ∷ []
    → sub32 (wrap32 (total xs)) x.quantity ≡ wrap32 (total ys)
quantity_lem xs ys x e =
    rw (sub32_wrap (total xs) x.quantity, e, total-append ys (x ∷ []), total_one x)
      (ap wrap32 (+ℤ_cancel (total ys) x.quantity))

check_loop_done :
    (f s : ℕ) (xs : List OrderItem) (m : Map CreateOrder)
    → IsShort s xs
    → ltb s (all_units xs) ≡ false
    → check_loop (suc f) (pos s) (of_items xs) m ≡ ok (of_items xs, m)
unfolding check_loop
check_loop_done f s xs m test e = rw (test, e, check_loop) refl

check_loop_round :
    (f s : ℕ) (xs : List OrderItem) (x : OrderItem) (m m' : Map CreateOrder)
    → IsShort s xs
    → ltb s (all_units xs) ≡ true
    → last? xs ≡ some x
    → xs ≡ drop_last xs ++ x ∷ []
    → drop_order_item x.order_id m ≡ ok m'
    → check_loop (suc f) (pos s) (of_items xs) m ≡ check_loop f (pos s) (of_items (drop_last xs)) m'
unfolding check_loop
check_loop_round f s xs x m m' test e l split dropped =
    ground (arith, test, e, l, dropped, quantity_lem xs (drop_last xs) x split)

check_loop_empty :
    (s : ℕ) (m : Map CreateOrder)
    → check_loop zero (pos s) (of_items []) m ≡ ok (of_items (fit s []), m)
unfolding check_loop
check_loop_empty s m = rw (fit_all s [] (omega arith)) refl

fit_dropped :
    (s : ℕ) (xs : List OrderItem) (x : OrderItem)
    → ltb s (all_units xs) ≡ true
    → xs ≡ drop_last xs ++ x ∷ []
    → fit s xs ≡ fit s (drop_last xs)
fit_dropped s xs x short e =
    ap (fit s) e ∙ fit_snoc s (drop_last xs) x (ground (arith, ap all_units e))

module _ (others : ℕ → ℕ) (s : ℕ) (fits : s < 2 ^ 31) where
  abbrev Leaves : ℕ → List OrderItem → Map CreateOrder → Type 0
  Leaves f xs m =
      (m' : Map CreateOrder) × (check_loop f (pos s) (of_items xs) m ≡ ok (of_items (fit s xs), m'))
      × Agree others (fit s xs) m'
      × SameOrders m m'

  pub check_loop-Leaves :
      (f : ℕ) (xs : List OrderItem) (m : Map CreateOrder)
      → length xs ≤ f
      → all_units xs < 2 ^ 31
      → AreNonneg xs
      → Agree others xs m
      → Leaves f xs m
  check_loop-Leaves zero [] m enough small nonneg agree =
      (m, check_loop_empty s m, subst (λ ys. Agree others ys m) (sym fitted) agree, λ o. refl)
    where
      fitted : fit s [] ≡ []
      fitted = fit_all s [] (omega arith)
  check_loop-Leaves zero (x ∷ xs) m enough small nonneg agree = elim enough [ ]
  check_loop-Leaves (suc f) xs m enough small nonneg agree =
      let test = IsShort_lem s xs fits small nonneg in
      elim (Bool-cases (ltb s (all_units xs))) [
        | inl short ↦ elim (drop_last-append xs) [
          | inl e ↦ absurd (ground (arith, ap all_units e))
          | inr (x, l, e) ↦
              let (m', dropped, agree', same) =
                drop_order_item_lem others (drop_last xs) x m
                  (subst (λ ys. Agree others ys m) e agree) in
              let (m'', left, agree'', same') =
                check_loop-Leaves f (drop_last xs) m'
                  (omega (arith, ap length e, length-append (drop_last xs) (x ∷ [])))
                  (omega (arith, ap all_units e, sum_of-append units (drop_last xs) (x ∷ [])))
                  (All-append_left (λ item. pos 0 ≤ℤ item.quantity) (drop_last xs) (x ∷ [])
                    (subst AreNonneg e nonneg))
                  agree' in
              let fitted : fit s xs ≡ fit s (drop_last xs) = fit_dropped s xs x short e in
              (
                m'',
                rw fitted (check_loop_round f s xs x m m' test short l e dropped ∙ left),
                rw fitted agree'',
                λ o. same' o ∙ same o,
              )
        ]
        | inr covered ↦
            let fitted : fit s xs ≡ xs = fit_all s xs (ground arith) in
            (m, rw fitted (check_loop_done f s xs m test covered), rw fitted agree, λ o. refl)
      ]
