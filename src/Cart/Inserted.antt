-- ===== src/Cart/Inserted.antt =====
-- InsertCart and the cache: what is found afterwards.
use hedonify.Prelude.{
  ℕ, ◌==◌, ==_iff, ◌&&◌, ◌≡◌, refl, sym, ap, ◌∙◌, subst, false, List, [], ◌∷◌, Option, none, some,
  none-ne-some, find_first, any_of, concat_map, arith, inl, inr, Bool-cases,
}
use hedonify.Prelude.Map.{Map, lookup, insert, lookup-insert}
use hedonify.Repository.Models.{Db}
use hedonify.Repository.Models
use hedonify.Repository.Carts.{CartRow, join_cart_items, find_cart_by_id}
use hedonify.Service.World.{World, CartDocument, of_response}
use hedonify.Service.Call.{
  Answer, ok, err, Error, M, pure, raise, attempt, ◌>>=◌, ◌>>◌, mapping_failed, recache, counted,
  call_failed,
}
use hedonify.Service.Rules.{
  After, RolledBack, Ensures, pure-Ensures, raise-Ensures, bind-Ensures, bind-Attempt, read-Ensures,
  ask-Ensures, recache-Ensures, in_transaction-Ensures, err-ne-ok, ok-injective,
}
use hedonify.Cart.Request.{Cart, CartResponse, ItemResponse}
use hedonify.Cart.Cached.{find_cart_by_id_service-cached}
use hedonify.Cart.Service.{
  CartHost, cart_response, commit_cart, insert_cart_body, insert_cart_service,
  find_cart_by_id_service,
}

-- Past a call of which nothing need be known.
past :
    {A B : Type 0} (m : M A) {f : A → M B} {w : World} {Q : Answer B → World → Type 0}
    → ((e : Error) (v : World) → Q (err e) v)
    → ((a : A) (v : World) → Ensures (f a) v Q)
    → Ensures (m >>= f) w Q
past {A} {B} m {f} {w} {Q} failed goes = bind-Ensures (record { ensured = go (m w) })
  where
    go : (r : Answer A × World) → After f Q r.0 r.1
    go (ok a, v) = goes a v
    go (err e, v) = failed e v

-- The cart that is answered stands in the cache under its identifier.
abbrev IsCached : Answer CartResponse → World → Type 0
IsCached r v =
    (cart : CartResponse) → r ≡ ok cart → lookup cart.id v.cache.carts ≡ some (of_response cart)

failed-IsCached : (e : Error) (v : World) → IsCached (err e) v
failed-IsCached e v cart k = absurd (err-ne-ok e cart k)

found_row :
    (u c : ℕ) (rows : List CartRow) (row : CartRow)
    → find_first (λ r. u == r.user_id && c == r.id) rows ≡ some row
    → row.id ≡ c
found_row u c [] row e = cc
found_row u c (r ∷ rows) row e = ground (arith, found_row u c rows row)

find_cart_by_id-id :
    (user_id cart_id : ℕ) (db : Db) (row : CartRow)
    → find_cart_by_id user_id cart_id db ≡ some row
    → row.id ≡ cart_id
unfolding find_cart_by_id
find_cart_by_id-id user_id cart_id db row e =
    elim (Bool-cases (any_of (λ x. user_id == x.id) db.users)) [
      | inl there ↦
          found_row user_id cart_id (concat_map (join_cart_items db) db.carts) row
            (sym (rw (find_cart_by_id, there) refl) ∙ e)
      | inr absent ↦ absurd (
          none-ne-some {o = find_cart_by_id user_id cart_id db} (rw (find_cart_by_id, absent) refl)
            e)
    ]

cart_response-id :
    (unmarshal : List Models.CartItem → Option (List ItemResponse)) (row : CartRow)
    (cart : CartResponse)
    → cart_response unmarshal row ≡ some cart
    → cart.id ≡ row.id
unfolding cart_response
cart_response-id unmarshal row cart e = ground arith

lookup-inserted :
    (id key : ℕ) (document : CartDocument) (m : Map CartDocument)
    → id ≡ key
    → lookup id (insert key document m) ≡ some document
lookup-inserted id key document m same =
    rw (lookup-insert id key document m, (==_iff id key).1 same) refl

module _ (host : CartHost) where
  commit_cart-IsCached :
      (cart_id : ℕ) (cart : CartResponse) (v : World)
      → lookup cart.id v.cache.carts ≡ some (of_response cart)
      → Ensures (commit_cart host cart_id >>= λ _. pure cart) v IsCached
  unfolding commit_cart
  commit_cart-IsCached cart_id cart v there = bind-Ensures (
      bind-Attempt (
        ask-Ensures host.out call_failed _
          (past (attempt (recache host.out _)) failed-IsCached
            (λ _ u. raise-Ensures (failed-IsCached call_failed u)))
          (λ a _. pure-Ensures (
            pure-Ensures (λ c k.
              subst (λ (x : CartResponse). lookup x.id v.cache.carts ≡ some (of_response x))
                (ok-injective k) there)))))

  mapped-IsCached :
      (cart_id : ℕ) (o : Option CartResponse) (v : World)
      → ((response : CartResponse) → o ≡ some response → response.id ≡ cart_id)
      → Ensures
          ((elim o as (λ x. M CartResponse) [ none ↦ raise mapping_failed | some a ↦ pure a ])
            >>= λ response.
                recache host.out
                  (λ c. record c { carts = insert cart_id (of_response response) c.carts })
                >> (commit_cart host cart_id >> pure response))
          v
          IsCached
  mapped-IsCached cart_id none v same =
      bind-Ensures (raise-Ensures (failed-IsCached mapping_failed v))
  mapped-IsCached cart_id (some response) v same = bind-Ensures (
      pure-Ensures (
        bind-Ensures (
          recache-Ensures host.out _ (λ e. failed-IsCached e (counted v))
            (commit_cart-IsCached cart_id response _ (
              lookup-inserted response.id cart_id (of_response response) v.cache.carts
                (same response refl))))))

  insert_cart_body-IsCached :
      (param : Cart) (user_id : ℕ) (w : World)
      → Ensures (insert_cart_body host param user_id) w IsCached
  unfolding insert_cart_body
  insert_cart_body-IsCached param user_id w = past _ failed-IsCached λ cart w1.
      past _ failed-IsCached λ args w2. past _ failed-IsCached λ _ w3. bind-Ensures (
        read-Ensures host.out (find_cart_by_id user_id cart.id)
          (λ e. failed-IsCached e (counted w3))
          (λ row found.
            mapped-IsCached cart.id (cart_response host.unmarshal row) (counted w3) (λ response e.
              cart_response-id host.unmarshal row response e
              ∙ find_cart_by_id-id user_id cart.id w3.db row found)))

  insert_cart_service-IsCached :
      (param : Cart) (user_id : ℕ) (w : World)
      → Ensures (insert_cart_service host param user_id) w IsCached
  unfolding insert_cart_service
  insert_cart_service-IsCached param user_id w = past _ failed-IsCached λ _ w1.
      past _ failed-IsCached
        λ _ w2. in_transaction-Ensures (rolled (insert_cart_body-IsCached param user_id w2))
    where
      rolled :
          {v : World}
          → Ensures (insert_cart_body host param user_id) v IsCached
          → Ensures (insert_cart_body host param user_id) v (RolledBack v.db IsCached)
      rolled {v} h = record { ensured = go (insert_cart_body host param user_id v) h.ensured }
        where
          go :
              (r : Answer CartResponse × World)
              → IsCached r.0 r.1
              → RolledBack v.db IsCached r.0 r.1
          go (ok a, u) k = k
          go (err e, u) k = failed-IsCached e (record u { db = v.db })

-- A cart that InsertCart answers is what FindCartById answers for its identifier afterwards, whichever
-- user asks, where the cached response decodes and the cache can be read.
pub find_cart_by_id_service-insert_cart_service :
    (host : CartHost) (param : Cart) (user_id other : ℕ) (w : World) (cart : CartResponse)
    → (insert_cart_service host param user_id w).0 ≡ ok cart
    → host.decode (of_response cart) ≡ some cart
    → host.out.down (insert_cart_service host param user_id w).1.calls ≡ false
    → (find_cart_by_id_service host
        (record { id = cart.id; user_id = other })
        (insert_cart_service host param user_id w).1).0
      ≡ ok cart
find_cart_by_id_service-insert_cart_service host param user_id other w cart answered decoded up =
    ap (λ r. r.0)
      (find_cart_by_id_service-cached host (insert_cart_service host param user_id w).1 cart.id
        other (of_response cart) cart up
        (Ensures.ensured (insert_cart_service-IsCached host param user_id w) cart answered) decoded)
