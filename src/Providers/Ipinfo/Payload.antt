-- ===== src/Providers/Ipinfo/Payload.antt =====
-- `IPinfoLiteResponse` of providers/ipinfo.py: the payload's model with its validators.
use arvan_ip_country_api.Prelude.{
  ◌≤◌, ◌≡◌, refl, Bool, true, false, not, ◌&&◌, ◌||◌, Option, none, some, [], ◌∷◌, arith, ltb, ◌==◌,
  if◌then◌else◌, length, all,
}
use arvan_ip_country_api.Text.{Text, codes, strip, UnicodeTables}
use arvan_ip_country_api.Json.{Json, text, object, get_field}

pub record IpinfoLiteResponse : Type 0 where
  pub country_code : Text
  pub country : Text

-- A field of type `str`.
abbrev pub as_text : Option Json → Option Text
as_text (some (text t)) = some t
as_text _ = none

-- `value.isalpha()`
unfoldable pub is_alpha : UnicodeTables → Text → Bool
is_alpha tables [] = false
is_alpha tables (c ∷ s) = tables.is_alpha_char c && all tables.is_alpha_char s

-- `country_code_is_iso_like`; `none` is the ValueError.
unfoldable pub country_code_is_iso_like : UnicodeTables → Text → Option Text
country_code_is_iso_like tables value =
    let upper = tables.upper value in
    if not (length upper == 2) || not (is_alpha tables upper) then none else some upper

-- `country_name_is_usable`; `none` is the ValueError.
unfoldable pub country_name_is_usable : Text → Option Text
country_name_is_usable value =
    let stripped = strip value in
    if length stripped == 0 || ltb 128 (length stripped) then none else some stripped

abbrev pub both : Option Text → Option Text → Option IpinfoLiteResponse
both (some code) (some country) = some (record { country_code = code; country = country })
both _ _ = none

abbrev pub then_by : Option Text → (Text → Option Text) → Option Text
then_by none f = none
then_by (some t) f = f t

-- `IPinfoLiteResponse.model_validate(payload)`; `none` is a ValidationError.
unfoldable pub parse : UnicodeTables → Json → Option IpinfoLiteResponse
parse tables (object fields) =
    both
      (then_by (as_text (get_field (codes "country_code") fields))
        (country_code_is_iso_like tables))
      (then_by (as_text (get_field (codes "country") fields)) country_name_is_usable)
parse tables _ = none

-- What an accepted payload gives.
pub record IsClean (tables : UnicodeTables) (r : IpinfoLiteResponse) : Type 0 where
  pub code_length : length r.country_code ≡ 2
  pub code_alpha : is_alpha tables r.country_code ≡ true
  pub name_nonempty : 1 ≤ length r.country
  pub name_fits : length r.country ≤ 128

code_lem :
    (tables : UnicodeTables) (value code : Text)
    → country_code_is_iso_like tables value ≡ some code
    → (length code ≡ 2) × (is_alpha tables code ≡ true)
unfolding country_code_is_iso_like
code_lem tables value code h = ground arith

name_lem :
    (value country : Text)
    → country_name_is_usable value ≡ some country
    → (1 ≤ length country) × (length country ≤ 128)
unfolding country_name_is_usable
name_lem value country h = ground arith

both-some :
    (code country : Option Text) (r : IpinfoLiteResponse)
    → both code country ≡ some r
    → (code ≡ some r.country_code) × (country ≡ some r.country)
both-some (some a) (some b) r h = (ground arith, ground arith)
both-some (some a) none r h = cc
both-some none country r h = cc

then_by-some :
    (o : Option Text) (f : Text → Option Text) (t : Text)
    → then_by o f ≡ some t
    → (v : Text) × (o ≡ some v) × (f v ≡ some t)
then_by-some none f t h = cc
then_by-some (some v) f t h = (v, refl, h)

-- The two validated fields, and the texts of the payload that they come from.
parse-fields :
    (tables : UnicodeTables) (payload : Json) (r : IpinfoLiteResponse)
    → parse tables payload ≡ some r
    → ((v : Text) × (country_code_is_iso_like tables v ≡ some r.country_code))
      × ((v : Text) × (country_name_is_usable v ≡ some r.country))
unfolding parse
parse-fields tables (object fields) r h =
    let (a, b) = both-some _ _ r h in
    let (v, _, hv) = then_by-some _ (country_code_is_iso_like tables) r.country_code a in
    let (w, _, hw) = then_by-some _ country_name_is_usable r.country b in ((v, hv), (w, hw))
parse-fields tables _ r h = cc

-- Every payload that is accepted has a country code of two letters and a name of 1 to 128 characters.
pub parse-IsClean :
    (tables : UnicodeTables) (payload : Json) (r : IpinfoLiteResponse)
    → parse tables payload ≡ some r
    → IsClean tables r
parse-IsClean tables payload r h =
    let ((v, hv), (w, hw)) = parse-fields tables payload r h in
    let (length_code, alpha) = code_lem tables v r.country_code hv in
    let (nonempty, fits) = name_lem w r.country hw in
    record {
      code_length = length_code;
      code_alpha = alpha;
      name_nonempty = nonempty;
      name_fits = fits;
    }
