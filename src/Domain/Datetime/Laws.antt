-- ===== src/Domain/Datetime/Laws.antt =====
-- What `_utc` keeps: the instant, and an awareness that makes comparison safe.
use arvan_ip_country_api.Prelude.{◌+◌, ◌≡◌, refl, Option, none, some, arith, ltb}
use arvan_ip_country_api.Domain.Datetime.{
  Datetime, Offset, east, west, utc_zone, ahead, behind, utc, gt,
}

utc_by_zone :
    (d e : Datetime) (z : Option Offset)
    → d.tzinfo ≡ z
    → utc d ≡ some e
    → (e.tzinfo ≡ utc_zone) × (e.local + ahead d.tzinfo ≡ d.local + behind d.tzinfo)
unfolding utc
utc_by_zone d e none z h = ground arith
utc_by_zone d e (some (east o)) z h = ground arith
utc_by_zone d e (some (west o)) z h = ground arith

-- The result of `_utc` is in UTC and names the same instant.
pub utc_instant :
    (d e : Datetime)
    → utc d ≡ some e
    → (e.tzinfo ≡ utc_zone) × (e.local + ahead d.tzinfo ≡ d.local + behind d.tzinfo)
utc_instant d e h = utc_by_zone d e d.tzinfo refl h

-- Values in UTC compare by their local times, with no TypeError.
pub gt-utc :
    (x y : Datetime)
    → x.tzinfo ≡ utc_zone
    → y.tzinfo ≡ utc_zone
    → gt x y ≡ some (ltb y.local x.local)
unfolding gt
gt-utc x y hx hy = ground arith

-- `_utc` returns a value that is in UTC already.
pub utc-utc : (d : Datetime) → d.tzinfo ≡ utc_zone → utc d ≡ some d
unfolding utc
utc-utc d h = ground arith
