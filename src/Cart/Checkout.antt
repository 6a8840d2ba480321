-- ===== src/Cart/Checkout.antt =====
-- How CheckoutCart of cart/internal/service/cart.go ends.
use hedonify.Prelude.{ℕ, ◌≡◌, true, none, some}
use hedonify.Prelude.Map.{lookup}
use hedonify.Repository.Models.{Db}
use hedonify.Repository.Models
use hedonify.Repository.Carts.{delete_cart_by_id_and_user_id}
use hedonify.Service.World.{World}
use hedonify.Service.Call.{Answer, ok, err, Error}
use hedonify.Cart.Request.{CartResponse, FindCartById, order_of}
use hedonify.Cart.Service.{CartHost}

module _ (host : CartHost) where
  -- The order service has answered the order of a cart with 201.
  abbrev Accepted : CartResponse → Type 0
  Accepted cart = (call : ℕ) × (host.checkout (order_of cart) call ≡ some (201, true))

  -- The tables are those from before less a cart of the user, with its items.
  abbrev Removed : FindCartById → Db → Db → Type 0
  Removed param before after =
      (row : Models.Cart) × (delete_cart_by_id_and_user_id param.id param.user_id before
        ≡ some (row, after))

  -- An answer stands for an order that was accepted and a cart that is gone from table and cache;
  -- an error leaves the tables, or has removed the cart after its order was accepted.
  pub data Ends (param : FindCartById) (w : World) : Answer CartResponse → World → Type 0 where
    checked_out :
        {cart : CartResponse} {v : World}
        → Accepted cart
        → Removed param w.db v.db
        → lookup param.id v.cache.carts ≡ none
        → Ends param w (ok cart) v
    kept : {e : Error} {v : World} → v.db ≡ w.db → Ends param w (err e) v
    half_done :
        {e : Error} {v : World} (cart : CartResponse)
        → Accepted cart
        → Removed param w.db v.db
        → Ends param w (err e) v
