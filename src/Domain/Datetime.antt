-- ===== src/Domain/Datetime.antt =====
-- Python's `datetime`, as far as the program uses it: `value.tzinfo`, `replace(tzinfo=UTC)`,
-- `astimezone(UTC)`, `>`, and the addition of a `timedelta` of whole seconds.
pub mod Laws
use arvan_ip_country_api.Prelude.{
  ℕ, ◌+◌, ◌-◌, ◌*◌, Bool, Option, none, some, ltb, leb, if◌then◌else◌,
}

-- A fixed offset from UTC, in microseconds.
pub data Offset : Type 0 where
  east west : ℕ → Offset

-- The local time, in microseconds since the start of the year 1, and the zone of an aware value.
pub record Datetime : Type 0 where
  pub local : ℕ
  pub tzinfo : Option Offset

-- The end of the year 9999, in microseconds: the first time that is no `datetime`.
abbrev pub end_of_time : ℕ
end_of_time = 3652059 * 86400 * 1000000

abbrev pub one_day : ℕ
one_day = 86400 * 1000000

abbrev pub micros_per_second : ℕ
micros_per_second = 1000000

abbrev pub utc_zone : Option Offset
utc_zone = some (east 0)

abbrev pub ahead : Option Offset → ℕ
ahead none = 0
ahead (some (east o)) = o
ahead (some (west o)) = 0

abbrev pub behind : Option Offset → ℕ
behind none = 0
behind (some (east o)) = 0
behind (some (west o)) = o

-- A local time moved to UTC; `none` is an OverflowError.
abbrev pub to_utc : ℕ → Offset → Option Datetime
to_utc t (east o) = if leb o t then some (record { local = t - o; tzinfo = utc_zone }) else none
to_utc t (west o) =
    if ltb (t + o) end_of_time then some (record { local = t + o; tzinfo = utc_zone }) else none

abbrev utc_by : ℕ → Option Offset → Option Datetime
utc_by t none = some (record { local = t; tzinfo = utc_zone })
utc_by t (some o) = to_utc t o

-- `_utc(value)` of the repository; `none` is an OverflowError.
unfoldable pub utc : Datetime → Option Datetime
utc d = utc_by d.local d.tzinfo

-- `x > y` by the instants that they name.
abbrev pub is_later : Datetime → Datetime → Bool
is_later x y =
    ltb (y.local + behind y.tzinfo + ahead x.tzinfo) (x.local + behind x.tzinfo + ahead y.tzinfo)

abbrev gt_by : Option Offset → Option Offset → Datetime → Datetime → Option Bool
gt_by none none x y = some (ltb y.local x.local)
gt_by none (some p) x y = none
gt_by (some o) none x y = none
gt_by (some o) (some p) x y = some (is_later x y)

-- `x > y`; `none` is the TypeError between a naive and an aware value.
unfoldable pub gt : Datetime → Datetime → Option Bool
gt x y = gt_by x.tzinfo y.tzinfo x y

-- `d + timedelta(seconds=n)`; `none` is an OverflowError.
unfoldable pub add_seconds : Datetime → ℕ → Option Datetime
add_seconds d n =
    if ltb (d.local + n * micros_per_second) end_of_time
    then some (record d { local = d.local + n * micros_per_second })
    else none
