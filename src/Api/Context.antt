-- ===== src/Api/Context.antt =====
-- observability/request_context.py: which request ids are taken over from the client.
pub mod Ids
use arvan_ip_country_api.Prelude.{
  ℕ, Bool, true, false, ◌&&◌, ◌||◌, Option, none, some, [], ◌∷◌, all, leb, ◌==◌, length,
}
use arvan_ip_country_api.Text.{Text, codes}

-- `[A-Za-z0-9]` and `[A-Za-z0-9._:-]`
abbrev pub is_alphanumeric : ℕ → Bool
is_alphanumeric c =
    (leb b'A' c && leb c b'Z') || (leb b'a' c && leb c b'z') || (leb b'0' c && leb c b'9')

abbrev pub is_id_character : ℕ → Bool
is_id_character c = is_alphanumeric c || c == b'.' || c == b'_' || c == b':' || c == b'-'

-- `REQUEST_ID_PATTERN.fullmatch(value)`: one character of the first class, and up to 127 of the second.
unfoldable pub matches_pattern : Text → Bool
matches_pattern [] = false
matches_pattern (c ∷ s) = is_alphanumeric c && all is_id_character s && leb (length s) 127

unfoldable pub valid_request_id : Option Text → Bool
valid_request_id none = false
valid_request_id (some value) = matches_pattern value

-- The default of the context variable.
abbrev pub unknown : Text
unknown = codes "unknown"

abbrev take_or : Bool → Text → {W : Type 0} → (W → Text × W) → W → Text × W
take_or true value uuid4 w = (value, w)
take_or false value uuid4 w = uuid4 w

-- `uuid4` is `str(uuid4())`.
unfoldable pub request_id_or_new : {W : Type 0} → (W → Text × W) → Option Text → W → Text × W
unfolding valid_request_id
request_id_or_new uuid4 none w = uuid4 w
request_id_or_new uuid4 (some value) w = take_or (valid_request_id (some value)) value uuid4 w
