-- ===== src/Api/Context/Ids.antt =====
-- What a request id can be.
use arvan_ip_country_api.Prelude.{
  ◌≤◌, ◌≡◌, true, Option, none, some, [], ◌∷◌, all, length, arith, Bool-cases, inl, inr,
}
use arvan_ip_country_api.Text.{Text}
use arvan_ip_country_api.Api.Context.{
  is_id_character, matches_pattern, valid_request_id, request_id_or_new,
}

-- A text of 1 to 128 letters, digits, dots, underscores, colons and dashes.
pub record IsRequestId (id : Text) : Type 0 where
  pub nonempty : 1 ≤ length id
  pub fits : length id ≤ 128
  pub characters : all is_id_character id ≡ true

matches_pattern-IsRequestId : (id : Text) → matches_pattern id ≡ true → IsRequestId id
unfolding matches_pattern
matches_pattern-IsRequestId [] h = cc
matches_pattern-IsRequestId (c ∷ s) h = record {
  nonempty = ground arith;
  fits = ground arith;
  characters = ground arith;
}

valid_request_id-IsRequestId : (id : Text) → valid_request_id (some id) ≡ true → IsRequestId id
unfolding valid_request_id
valid_request_id-IsRequestId id h = matches_pattern-IsRequestId id h

-- If every id that uuid4 makes is of 1 to 128 letters, digits, dots, underscores, colons and dashes, then
-- so is every request's id, whatever the client sends.
pub request_id_or_new-IsRequestId :
    {W : Type 0} (uuid4 : W → Text × W)
    → ((w : W) → IsRequestId (uuid4 w).0)
    → (header : Option Text) (w : W) → IsRequestId (request_id_or_new uuid4 header w).0
unfolding request_id_or_new
request_id_or_new-IsRequestId uuid4 u none w = u w
request_id_or_new-IsRequestId uuid4 u (some value) w =
    elim (Bool-cases (valid_request_id (some value))) [
      | inl e ↦ rw e (valid_request_id-IsRequestId value e)
      | inr e ↦ rw e (u w)
    ]
