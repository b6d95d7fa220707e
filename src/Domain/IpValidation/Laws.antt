-- ===== src/Domain/IpValidation/Laws.antt =====
-- What passes the validation.
use arvan_ip_country_api.Prelude.{
  ◌≡◌, ap, ◌↔◌, ◌⊎◌, inl, inr, true, false, none, some, ◌++◌, arith, all, Bool-cases, Option-cases,
}
use arvan_ip_country_api.Text.{Text, strip, is_space}
use arvan_ip_country_api.Text.Strip.{strip-pad}
use arvan_ip_country_api.Domain.Errors.{invalid_ip, non_public_ip}
use arvan_ip_country_api.Effects.{Exception, ok, raised, app}
use arvan_ip_country_api.Domain.IpValidation.{
  IpLibrary, is_refused, check_public, validate_public_ip,
}

-- An address that may be looked up: a global one with none of the special properties.
pub record IsPublic {A : Type 0} (lib : IpLibrary A) (a : A) : Type 0 where
  pub global : lib.is_global a ≡ true
  pub private : lib.is_private a ≡ false
  pub loopback : lib.is_loopback a ≡ false
  pub link_local : lib.is_link_local a ≡ false
  pub multicast : lib.is_multicast a ≡ false
  pub unspecified : lib.is_unspecified a ≡ false
  pub reserved : lib.is_reserved a ≡ false

module _ {A : Type 0} (lib : IpLibrary A) where
  pub accepted-IsPublic : (a : A) → is_refused lib a ≡ false → IsPublic lib a
  unfolding is_refused
  accepted-IsPublic a h = ground arith

  pub IsPublic-accepted : (a : A) → IsPublic lib a → is_refused lib a ≡ false
  unfolding is_refused
  IsPublic-accepted a p = ground arith

  -- The validation returns an address exactly if the text without the blanks around it names it
  -- and the address is public.
  pub validate_iff :
      (value : Text) (a : A)
      → (validate_public_ip lib value ≡ ok a)
        ↔ ((lib.ip_address (strip value) ≡ some a) × IsPublic lib a)
  unfolding validate_public_ip
  validate_iff value a = elim (Option-cases (lib.ip_address (strip value))) [
    | inl e ↦ rw e (λ h. cc, λ h. cc (h.0))
    | inr (b, e) ↦ rw e (iff_at b (Bool-cases (is_refused lib b)))
  ]
    where
      iff_at :
          (b : A)
          → (is_refused lib b ≡ true) ⊎ (is_refused lib b ≡ false)
          → (check_public lib (some b) ≡ ok a) ↔ ((some b ≡ some a) × IsPublic lib a)
      iff_at b (inl r) = rw r (λ h. cc, λ h. cc (r, h.0, IsPublic-accepted a h.1))
      iff_at b (inr r) =
          rw r (λ h. (cc, accepted-IsPublic a (ground arith)), λ h. ground (arith, h.0))

  -- Every refusal is `InvalidIPError` for a text that names no address once it is stripped, or
  -- `NonPublicIPError` for one that names an address which is not public.
  pub validate_errors :
      (value : Text) (e : Exception)
      → validate_public_ip lib value ≡ raised e
      → ((e ≡ app invalid_ip) × (lib.ip_address (strip value) ≡ none))
        ⊎ ((a : A) × (e ≡ app non_public_ip)
            × (lib.ip_address (strip value) ≡ some a)
            × (¬ IsPublic lib a))
  unfolding validate_public_ip
  validate_errors value e h = elim (Option-cases (lib.ip_address (strip value))) [
    | inl n ↦ inl (ground arith, n)
    | inr (a, s) ↦ elim (Bool-cases (is_refused lib a)) [
      | inl r ↦ inr (a, ground arith, s, λ p. cc (r, IsPublic-accepted a p))
      | inr r ↦ absurd (ground arith)
    ]
  ]

  -- Blanks before and behind a text change nothing in what the validation returns or raises.
  pub validate-pad :
      (before value behind : Text)
      → all is_space before ≡ true
      → all is_space behind ≡ true
      → validate_public_ip lib (before ++ (value ++ behind)) ≡ validate_public_ip lib value
  unfolding validate_public_ip
  validate-pad before value behind hb ha =
      ap (λ s. check_public lib (lib.ip_address s)) (strip-pad before value behind hb ha)
