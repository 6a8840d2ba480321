-- ===== src/Order/Queries/Owner.antt =====
-- Whose orders the queries answer.
use hedonify.Prelude.{
  none-ne-some, ℕ, ◌≡◌, refl, sym, ap, ◌∙◌, inl, inr, List, [], ◌∷◌, Option, none, some, arith,
  ◌==◌, ◌&&◌, Bool-cases, any_of, select, find_first, concat_map, map,
}
use hedonify.Repository.Models.{Db, Order}
use hedonify.Repository.Models
use hedonify.Repository.Orders.{OrderRow, join_items, find_order_by_id, find_order_item_by_id}
use hedonify.Repository.Mapper.{order_response}
use hedonify.Service.World.{World}
use hedonify.Service.Call.{Answer, ok, err, Error, Outside, raise, counted, mapping_failed}
use hedonify.Service.Rules.{
  err-ne-ok, ok-injective, Ensures, pure-Ensures, raise-Ensures, bind-Ensures, read-Ensures,
  read_all-Ensures,
}
use hedonify.Order.Request.{FindOrderById, ItemResponse, OrderResponse}
use hedonify.Order.Queries.{item_response, with_items, find_order_by_id_service}

found_row :
    (u o : ℕ) (rows : List OrderRow) (row : OrderRow)
    → find_first (λ r. u == r.user_id && o == r.id) rows ≡ some row
    → (u ≡ row.user_id) × (o ≡ row.id)
found_row u o [] row e = cc
found_row u o (r ∷ rows) row e = ground (arith, found_row u o rows row)

find_order_by_id-owner :
    (u o : ℕ) (db : Db) (row : OrderRow)
    → find_order_by_id u o db ≡ some row
    → (u ≡ row.user_id) × (o ≡ row.id)
unfolding find_order_by_id
find_order_by_id-owner u o db row e = elim (Bool-cases (any_of (λ x. u == x.id) db.users)) [
  | inl there ↦
      found_row u o (concat_map (join_items db) db.orders) row
        (sym (rw (find_order_by_id, there) refl) ∙ e)
  | inr absent ↦
      absurd (none-ne-some {o = find_order_by_id u o db} (rw (find_order_by_id, absent) refl) e)
]

response_owner :
    (unmarshal : List Models.OrderItem → Option (List ItemResponse)) (row : OrderRow)
    (res : OrderResponse)
    → order_response unmarshal row ≡ some res
    → (res.user_id ≡ row.user_id) × (res.id ≡ row.id)
unfolding order_response
response_owner unmarshal row res e = ground arith

module _ (out : Outside) (unmarshal : List Models.OrderItem → Option (List ItemResponse))
    (param : FindOrderById) (w : World) where
  abbrev Owned : Answer OrderResponse → World → Type 0
  Owned r w' =
      (answer : OrderResponse)
      → r ≡ ok answer
      → (answer.user_id ≡ param.user_id)
        × (answer.id ≡ param.order_id)
        × (answer.order_items ≡ map item_response (find_order_item_by_id param.order_id w.db))

  failed-Owned : (e : Error) (v : World) → Owned (err e) v
  failed-Owned e v answer k = absurd (err-ne-ok e answer k)

  with_items-Ensures :
      (v : World) (res : OrderResponse)
      → v.db ≡ w.db
      → res.user_id ≡ param.user_id
      → res.id ≡ param.order_id
      → Ensures (with_items out param res) v Owned
  unfolding with_items
  with_items-Ensures v res same u o = bind-Ensures (
      read_all-Ensures out (find_order_item_by_id param.order_id) (λ e. failed-Owned e (counted v))
        (pure-Ensures (λ answer k.
          let now : record res {
            order_items = map item_response (find_order_item_by_id param.order_id v.db);
          }
              ≡ answer =
            ok-injective k in
          (
            sym (ap (λ (a : OrderResponse). a.user_id) now) ∙ u,
            sym (ap (λ (a : OrderResponse). a.id) now) ∙ o,
            sym (ap (λ (a : OrderResponse). a.order_items) now)
                ∙ ap (λ (d : Db). map item_response (find_order_item_by_id param.order_id d)) same,
          ))))

  find_order_by_id_service-Ensures : Ensures (find_order_by_id_service out unmarshal param) w Owned
  unfolding find_order_by_id_service
  find_order_by_id_service-Ensures = bind-Ensures (
      read-Ensures out (find_order_by_id param.user_id param.order_id)
        (λ e. failed-Owned e (counted w))
        (λ row found.
          mapped row (find_order_by_id-owner param.user_id param.order_id w.db row found)
            (order_response unmarshal row) refl))
    where
      mapped :
          (row : OrderRow)
          → (param.user_id ≡ row.user_id) × (param.order_id ≡ row.id)
          → (o : Option OrderResponse) → order_response unmarshal row ≡ o
          → Ensures
              (elim o [ none ↦ raise mapping_failed | some res ↦ with_items out param res ])
              (counted w)
              Owned
      mapped row owner none e = raise-Ensures (failed-Owned mapping_failed (counted w))
      mapped row (u, o) (some res) e =
          let (u', o') = response_owner unmarshal row res e in
          with_items-Ensures (counted w) res refl (u' ∙ sym u) (o' ∙ sym o)

-- What FindOrderById answers is the order that was asked for, of the user that was asked for.
pub find_order_by_id_service-owner :
    (out : Outside) (unmarshal : List Models.OrderItem → Option (List ItemResponse))
    (param : FindOrderById) (w : World) (answer : OrderResponse)
    → (find_order_by_id_service out unmarshal param w).0 ≡ ok answer
    → (answer.user_id ≡ param.user_id) × (answer.id ≡ param.order_id)
find_order_by_id_service-owner out unmarshal param w answer e =
    let (u, o, _) =
      Ensures.ensured (find_order_by_id_service-Ensures out unmarshal param w) answer e in
    (u, o)

-- What FindOrderById answers is the order and the user that were asked for, and its items are the
-- rows of order_items whose own identifier is the order's.
pub find_order_by_id_service-answers :
    (out : Outside) (unmarshal : List Models.OrderItem → Option (List ItemResponse))
    (param : FindOrderById) (w : World) (answer : OrderResponse)
    → (find_order_by_id_service out unmarshal param w).0 ≡ ok answer
    → (answer.user_id ≡ param.user_id)
      × (answer.id ≡ param.order_id)
      × (answer.order_items
          ≡ map item_response (select (λ i. param.order_id == i.id) w.db.order_items))
unfolding find_order_item_by_id
find_order_by_id_service-answers out unmarshal param w answer e =
    Ensures.ensured (find_order_by_id_service-Ensures out unmarshal param w) answer e
