-- ===== src/Repository/Models.antt =====
-- internal/repository/models.go, and the numbers and times that the rows hold.
-- A UUID is its 128-bit number; a time is a number of ticks; a decimal is its coefficient and
-- exponent, as in shopspring/decimal.
use Prim.Native.String.{String, [], ◌∷◌}
use hedonify.Prelude.{ℕ, zero, suc, ℤ, Bool, true, false, List}

-- Whether a text has more characters than a column of the type varchar(n) holds.
abbrev pub overflows : ℕ → String → Bool
overflows n [] = false
overflows zero (ch ∷ s) = true
overflows (suc n) (ch ∷ s) = overflows n s

pub record Decimal : Type 0 where
  pub coefficient : ℤ
  pub exponent : ℤ

pub data InfinityModifier : Type 0 where
  finite infinity negative_infinity : InfinityModifier

-- pgtype.Numeric
pub record Numeric : Type 0 where
  pub int : ℤ
  pub exp : ℤ
  pub infinity_modifier : InfinityModifier
  pub nan : Bool
  pub valid : Bool

-- pgtype.Timestamptz
pub record Timestamptz : Type 0 where
  pub time : ℕ
  pub infinity_modifier : InfinityModifier
  pub valid : Bool

-- The literal `pgtype.Numeric{…}` that every insertion builds from a price.
unfoldable pub numeric_of : Decimal → Numeric
numeric_of price = record {
  int = price.coefficient;
  exp = price.exponent;
  infinity_modifier = finite;
  nan = false;
  valid = true;
}

-- The literal `pgtype.Timestamptz{…}` of a time.
unfoldable pub timestamptz_of : ℕ → Timestamptz
timestamptz_of t = record { time = t; infinity_modifier = finite; valid = true }

pub data OrderStatus : Type 0 where
  waiting_payment shipping completed expired cancelled : OrderStatus

-- `string(status)`
unfoldable pub status_string : OrderStatus → String
status_string waiting_payment = "WAITING_PAYMENT"
status_string shipping = "SHIPPING"
status_string completed = "COMPLETED"
status_string expired = "EXPIRED"
status_string cancelled = "CANCELLED"

pub record Cart : Type 0 where
  pub id : ℕ
  pub user_id : ℕ
  pub created_at : Timestamptz
  pub updated_at : Timestamptz

pub record CartItem : Type 0 where
  pub id : ℕ
  pub cart_id : ℕ
  pub product_id : ℕ
  pub quantity : ℤ
  pub price : Numeric
  pub created_at : Timestamptz
  pub updated_at : Timestamptz

pub record Order : Type 0 where
  pub id : ℕ
  pub user_id : ℕ
  pub status : OrderStatus
  pub created_at : Timestamptz
  pub updated_at : Timestamptz

pub record OrderItem : Type 0 where
  pub id : ℕ
  pub order_id : ℕ
  pub product_id : ℕ
  pub quantity : ℤ
  pub price : Numeric
  pub created_at : Timestamptz
  pub updated_at : Timestamptz

pub record Product : Type 0 where
  pub id : ℕ
  pub name : String
  pub price : Numeric
  pub quantity : ℤ
  pub created_at : Timestamptz
  pub updated_at : Timestamptz

pub record User : Type 0 where
  pub id : ℕ
  pub username : String
  pub email : String
  pub password : String
  pub created_at : Timestamptz
  pub updated_at : Timestamptz

-- The tables of the database.
pub record Db : Type 0 where
  pub users : List User
  pub products : List Product
  pub carts : List Cart
  pub cart_items : List CartItem
  pub orders : List Order
  pub order_items : List OrderItem
