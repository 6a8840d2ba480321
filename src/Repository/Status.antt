-- ===== src/Repository/Status.antt =====
-- OrderStatus and NullOrderStatus of internal/repository/models.go between Go and the driver. The
-- text of a status is not compared with the constants.
use Prim.Native.String.{String}
use hedonify.Prelude.{◌≡◌, Bool, true, false, Option, none, some, arith}

-- What the driver gives and takes.
pub data DriverValue : Type 0 where
  null other : DriverValue
  bytes text : String → DriverValue

-- OrderStatus.Scan: an unsupported type is an error.
unfoldable pub scan_status : DriverValue → Option String
scan_status (bytes s) = some s
scan_status (text s) = some s
scan_status null = none
scan_status other = none

pub record NullOrderStatus : Type 0 where
  pub order_status : String
  pub valid : Bool

-- NullOrderStatus.Scan, with what it leaves and whether it returns an error.
unfoldable pub scan_null_status : NullOrderStatus → DriverValue → NullOrderStatus × Bool
scan_null_status ns null = (record { order_status = ""; valid = false }, false)
scan_null_status ns value = elim (scan_status value) [
  | none ↦ (record ns { valid = true }, true)
  | some s ↦ (record { order_status = s; valid = true }, false)
]

-- NullOrderStatus.Value
unfoldable pub null_status_value : NullOrderStatus → DriverValue
null_status_value ns = elim ns.valid [ false ↦ null | true ↦ text ns.order_status ]

-- What Value gives, Scan reads back without an error, whatever it is read into: the same status, or
-- the empty one for a status that is not valid.
scan_null_status-null_status_value :
    (old ns : NullOrderStatus)
    → scan_null_status old (null_status_value ns)
      ≡ (elim ns.valid [ true ↦ ns | false ↦ record { order_status = ""; valid = false } ], false)
unfolding scan_null_status null_status_value scan_status
scan_null_status-null_status_value old ns = ground arith
