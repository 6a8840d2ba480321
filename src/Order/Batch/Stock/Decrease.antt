-- ===== src/Order/Batch/Stock/Decrease.antt =====
-- The update of the stocks: each product that was ordered loses what its arm says.
use hedonify.Prelude.{
  ℕ, ◌≡◌, refl, inl, inr, true, false, ℤ, List, [], ◌∷◌, Option, some, arith, ◌==◌, if◌then◌else◌,
  Bool-cases, elem, bind-eq-some, map-eq-some, subst,
}
use mathlib.Core.Option
use mathlib.Core.Option.{some-injective}
use hedonify.Prelude.Map.{Map, lookup}
use hedonify.Repository.Models.{Product}
use hedonify.Repository.Products.{case_value, decrease_row, decrease_rows}
use hedonify.Order.Batch.Merge.{MergedOrderItem}
use hedonify.Order.Batch.Prepare.{build_query}
use hedonify.Order.Batch.Check.Allotment.{find_product}

-- The statement's `case` reads the merged map.
pub case_value-build_query :
    (p : ℕ) (entries : Map MergedOrderItem)
    → case_value p (build_query entries)
      ≡ Option.map (λ merged. merged.ordered_item_quantity) (lookup p entries)
unfolding case_value build_query
case_value-build_query p [] = refl
case_value-build_query p ((k, merged) ∷ entries) = ground (arith, case_value-build_query p entries)

decrease_row-id :
    (arms : List (ℕ × ℤ)) (now : ℕ) (row row' : Product)
    → decrease_row arms now row ≡ some row'
    → row'.id ≡ row.id
unfolding decrease_row
decrease_row-id arms now row row' e = ground arith

-- What becomes of one row.
unfoldable pub row_after : List (ℕ × ℤ) → List ℕ → ℕ → Product → Option Product
row_after arms ids now row = if elem row.id ids then decrease_row arms now row else some row

pub row_after-id :
    (arms : List (ℕ × ℤ)) (ids : List ℕ) (now : ℕ) (row row' : Product)
    → row_after arms ids now row ≡ some row'
    → row'.id ≡ row.id
unfolding row_after
row_after-id arms ids now row row' e = ground (arith, decrease_row-id arms now row row')

pub found_head :
    (p : ℕ) (r row : Product) (rows : List Product)
    → (p == r.id) ≡ true
    → find_product p (r ∷ rows) ≡ some row
    → r ≡ row
found_head p r row rows same found = ground arith

pub found_tail :
    (p : ℕ) (r row : Product) (rows : List Product)
    → (p == r.id) ≡ false
    → find_product p (r ∷ rows) ≡ some row
    → find_product p rows ≡ some row
found_tail p r row rows other found = ground arith

-- The row with an identifier, after the statement.
pub decrease_rows-find :
    (arms : List (ℕ × ℤ)) (ids : List ℕ) (now p : ℕ) (rows rows' : List Product) (row : Product)
    → decrease_rows arms ids now rows ≡ some rows'
    → find_product p rows ≡ some row
    → (row' : Product) × (row_after arms ids now row ≡ some row')
      × (find_product p rows' ≡ some row')
unfolding decrease_rows row_after
decrease_rows-find arms ids now p [] rows' row e found = cc
decrease_rows-find arms ids now p (r ∷ rows) rows' row e found =
    let (r', one, rest) =
      bind-eq-some (row_after arms ids now r)
        (λ p'. Option.map (λ ps'. p' ∷ ps') (decrease_rows arms ids now rows)) e in
    let (rs, others, joined) =
      map-eq-some (decrease_rows arms ids now rows) (λ ps'. r' ∷ ps') rest in
    let ids_same : r'.id ≡ r.id = row_after-id arms ids now r r' one in
    elim (Bool-cases (p == r.id)) [
      | inl same ↦ (
        r',
        subst (λ (x : Product). row_after arms ids now x ≡ some r')
            (found_head p r row rows same found) one,
        subst (λ (xs : List Product). find_product p xs ≡ some r') joined
            (rw (ids_same, same) refl),
      )
      | inr other ↦
          let (row', after, there) =
            decrease_rows-find arms ids now p rows rs row others
              (found_tail p r row rows other found) in
          (
            row',
            after,
            subst (λ (xs : List Product). find_product p xs ≡ some row') joined
                (rw (ids_same, other) there),
          )
    ]
