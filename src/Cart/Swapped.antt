-- ===== src/Cart/Swapped.antt =====
-- The operations of the cart service that give FindCartById its parameters the wrong way round.
use hedonify.Prelude.{none-ne-some, ℕ, ◌≡◌, refl, ap, ◌∙◌, false, none, ◌==◌, any_of}
use hedonify.Prelude.Map.{lookup}
use hedonify.Repository.Models.{Db}
use hedonify.Repository.Carts.{find_cart_by_id}
use hedonify.Service.World.{World}
use hedonify.Service.Call.{Answer, err, Error, counted}
use hedonify.Service.Rules.{Ensures, bind-Ensures, read-Ensures, cached-Ensures}
use hedonify.Cart.Request.{FindCartById, RemoveCartItem}
use hedonify.Cart.Service.{CartHost, find_uncached, find_cart_by_id_service, remove_cart_item}

no_user :
    (user_id cart_id : ℕ) (db : Db)
    → any_of (λ u. user_id == u.id) db.users ≡ false
    → find_cart_by_id user_id cart_id db ≡ none
unfolding find_cart_by_id
no_user user_id cart_id db absent = rw (find_cart_by_id, absent) refl

module _ (host : CartHost) where
  abbrev Fails : {A : Type 0} → World → Answer A → World → Type 0
  Fails w r w' = ((e : Error) × (r ≡ err e)) × (w'.db ≡ w.db) × (w'.cache ≡ w.cache)

  find_uncached-Ensures :
      (param : FindCartById) (w v : World)
      → any_of (λ u. param.id == u.id) w.db.users ≡ false
      → v.db ≡ w.db
      → v.cache ≡ w.cache
      → Ensures (find_uncached host param) v (Fails w)
  unfolding find_uncached
  find_uncached-Ensures param w v absent same same' = bind-Ensures (
      read-Ensures host.out (find_cart_by_id param.id param.user_id) (λ e. ((e, refl), same, same'))
        (λ cart found. absurd (
          none-ne-some
            (ap (find_cart_by_id param.id param.user_id) same
              ∙ no_user param.id param.user_id w.db absent)
            found)))

  find_cart_by_id_service-Ensures :
      (param : FindCartById) (w : World)
      → any_of (λ u. param.id == u.id) w.db.users ≡ false
      → lookup param.id w.cache.carts ≡ none
      → Ensures (find_cart_by_id_service host param) w (Fails w)
  unfolding find_cart_by_id_service
  find_cart_by_id_service-Ensures param w absent uncached = bind-Ensures (
      cached-Ensures host.out (λ c. lookup param.id c.carts)
        (find_uncached-Ensures param w (counted w) absent refl refl)
        (λ document there. absurd (none-ne-some uncached there)))

  remove_cart_item-Ensures :
      (param : RemoveCartItem) (w : World)
      → any_of (λ u. param.cart_id == u.id) w.db.users ≡ false
      → Ensures (remove_cart_item host param) w (Fails w)
  unfolding remove_cart_item
  remove_cart_item-Ensures param w absent = bind-Ensures (
      read-Ensures host.out (find_cart_by_id param.cart_id param.user_id)
        (λ e. ((e, refl), refl, refl))
        (λ cart found.
          absurd (none-ne-some (no_user param.cart_id param.user_id w.db absent) found)))

-- RemoveCartItem for a cart whose identifier is no user's, as identifiers of carts are not: whatever
-- the tables hold and whatever calls fail, it answers an error, and the tables and the cache are
-- unchanged.
remove_cart_item-refused :
    (host : CartHost) (param : RemoveCartItem) (w : World)
    → any_of (λ u. param.cart_id == u.id) w.db.users ≡ false
    → ((e : Error) × ((remove_cart_item host param w).0 ≡ err e))
      × ((remove_cart_item host param w).1.db ≡ w.db)
      × ((remove_cart_item host param w).1.cache ≡ w.cache)
remove_cart_item-refused host param w absent =
    Ensures.ensured (remove_cart_item-Ensures host param w absent)

-- FindCartById for a cart that is not cached and whose identifier is no user's, as identifiers of
-- carts are not: whatever the tables hold and whatever calls fail, it answers an error, and the
-- tables and the cache are unchanged.
pub find_cart_by_id_service-uncached :
    (host : CartHost) (param : FindCartById) (w : World)
    → any_of (λ u. param.id == u.id) w.db.users ≡ false
    → lookup param.id w.cache.carts ≡ none
    → ((e : Error) × ((find_cart_by_id_service host param w).0 ≡ err e))
      × ((find_cart_by_id_service host param w).1.db ≡ w.db)
      × ((find_cart_by_id_service host param w).1.cache ≡ w.cache)
find_cart_by_id_service-uncached host param w absent uncached =
    Ensures.ensured (find_cart_by_id_service-Ensures host param w absent uncached)
