-- ===== src/Cart/Reads.antt =====
-- The calls of CartService that change no table.
use hedonify.Prelude.{ℕ, ◌==◌, Option, none, some}
use hedonify.Repository.Models.{Db}
use hedonify.Service.Keeps.{
  Keeps, pure-Keeps, raise-Keeps, bind-Keeps, read-Keeps, read_all-Keeps, cached-Keeps,
  recache-Keeps, ask-Keeps, option-Keeps, bool-Keeps,
}
use hedonify.Cart.Request.{FindCartById}
use hedonify.Cart.Service.{
  CartHost, or_raise, require_user, find_uncached, find_cart_by_id_service,
  find_cart_by_user_id_service,
}

module _ {P : Db → Type 0} where
  pub or_raise-Keeps : {A : Type 0} (o : Option A) → Keeps P (or_raise o)
  or_raise-Keeps none = raise-Keeps _
  or_raise-Keeps (some a) = pure-Keeps a

  module _ (host : CartHost) where
    pub require_user-Keeps : (user_id : ℕ) → Keeps P (require_user host user_id)
    unfolding require_user
    require_user-Keeps user_id =
        bind-Keeps (ask-Keeps host.out _ _)
          (λ status. bool-Keeps (pure-Keeps tt) (raise-Keeps _) (status == 200))

    find_uncached-Keeps : (param : FindCartById) → Keeps P (find_uncached host param)
    unfolding find_uncached
    find_uncached-Keeps param =
        bind-Keeps (read-Keeps host.out _)
          (λ cart. bind-Keeps (recache-Keeps host.out _) (λ _. or_raise-Keeps _))

    pub find_cart_by_id_service-Keeps :
        (param : FindCartById) → Keeps P (find_cart_by_id_service host param)
    unfolding find_cart_by_id_service
    find_cart_by_id_service-Keeps param =
        bind-Keeps (cached-Keeps host.out _)
          (option-Keeps (find_uncached-Keeps param) (λ d. or_raise-Keeps _))

    pub find_cart_by_user_id_service-Keeps :
        (user_id : ℕ) → Keeps P (find_cart_by_user_id_service host user_id)
    unfolding find_cart_by_user_id_service
    find_cart_by_user_id_service-Keeps user_id = bind-Keeps (cached-Keeps host.out _) (
        option-Keeps
          (bind-Keeps (read_all-Keeps host.out _)
            (λ carts. bind-Keeps (recache-Keeps host.out _) (λ _. pure-Keeps _)))
          (λ _. pure-Keeps _))
