-- ===== src/Cart/Cached.antt =====
-- FindCartById where the cart is in the cache.
use hedonify.Prelude.{ℕ, ◌≡◌, refl, ◌∙◌, false, some}
use hedonify.Prelude.Map.{lookup}
use hedonify.Service.World.{World, CartDocument}
use hedonify.Service.Call.{ok, cached, counted}
use hedonify.Service.Rules.{bind_ok, cached-up}
use hedonify.Cart.Request.{CartResponse}
use hedonify.Cart.Service.{CartHost, find_cart_by_id_service}

-- The user makes no difference.
pub find_cart_by_id_service-cached :
    (host : CartHost) (w : World) (cart_id user_id : ℕ) (document : CartDocument)
    (cart : CartResponse)
    → host.out.down w.calls ≡ false
    → lookup cart_id w.cache.carts ≡ some document
    → host.decode document ≡ some cart
    → find_cart_by_id_service host (record { id = cart_id; user_id = user_id }) w
      ≡ (ok cart, counted w)
unfolding find_cart_by_id_service
find_cart_by_id_service-cached host w cart_id user_id document cart up found decoded =
    bind_ok (cached host.out (λ c. lookup cart_id c.carts)) _ w (counted w)
      (lookup cart_id w.cache.carts) (cached-up host.out w up (λ c. lookup cart_id c.carts))
    ∙ rw (found, decoded) refl
