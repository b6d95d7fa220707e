-- ===== src/Domain/IpValidation.antt =====
-- domain/ip_validation.py, over Python's `ipaddress`.
pub mod Laws
use arvan_ip_country_api.Prelude.{◌≡◌, Bool, not, ◌||◌, Option, none, some, if◌then◌else◌}
use arvan_ip_country_api.Text.{Text, strip}
use arvan_ip_country_api.Domain.Errors.{invalid_ip, non_public_ip}
use arvan_ip_country_api.Effects.{Result, ok, raised, app}

-- What the program uses of `ipaddress`: `ip_address(text)` (`none` is its ValueError), `str(ip)` and
-- the properties of an address.
pub record IpLibrary (A : Type 0) : Type 0 where
  pub ip_address : Text → Option A
  pub str : A → Text
  pub is_global : A → Bool
  pub is_private : A → Bool
  pub is_loopback : A → Bool
  pub is_link_local : A → Bool
  pub is_multicast : A → Bool
  pub is_unspecified : A → Bool
  pub is_reserved : A → Bool

-- The documented relation of `str` and `ip_address`: the text of an address reads back as that
-- address.
pub record IsIpLibrary {A : Type 0} (lib : IpLibrary A) : Type 0 where
  pub ip_address-str : (a : A) → lib.ip_address (lib.str a) ≡ some a

module _ {A : Type 0} (lib : IpLibrary A) where
  unfoldable pub is_refused : A → Bool
  is_refused a =
      not (lib.is_global a)
      || lib.is_private a
      || lib.is_loopback a
      || lib.is_link_local a
      || lib.is_multicast a
      || lib.is_unspecified a
      || lib.is_reserved a

  abbrev pub check_public : Option A → Result A
  check_public none = raised (app invalid_ip)
  check_public (some a) = if is_refused a then raised (app non_public_ip) else ok a

  unfoldable pub validate_public_ip : Text → Result A
  unfolding is_refused strip
  validate_public_ip value = check_public (lib.ip_address (strip value))
