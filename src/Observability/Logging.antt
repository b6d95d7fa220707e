-- ===== src/Observability/Logging.antt =====
-- observability/logging.py: the two processors of the program's own. An event is the list of its fields,
-- as a dictionary keeps them.
pub mod Secrets
use arvan_ip_country_api.Prelude.{Bool, true, false, ◌||◌, List, [], ◌∷◌, ◌++◌, if◌then◌else◌, any}
use arvan_ip_country_api.Text.{Text, codes, text_eq, UnicodeTables}
use arvan_ip_country_api.Effects.{LogValue, word, text}

abbrev pub EventDict : Type 0
EventDict = List (Text × LogValue)

-- `SENSITIVE_KEYS`
abbrev pub sensitive_keys : List Text
sensitive_keys =
    codes "authorization"
    ∷ codes "cookie"
    ∷ codes "database_url"
    ∷ codes "ipinfo_token"
    ∷ codes "password"
    ∷ codes "secret"
    ∷ codes "token"
    ∷ []

-- `key.lower() in SENSITIVE_KEYS`
unfoldable pub is_sensitive : UnicodeTables → Text → Bool
is_sensitive tables key = any (λ k. text_eq k (tables.lower key)) sensitive_keys

abbrev pub redacted : LogValue
redacted = word "[REDACTED]"

abbrev pub redact_field : Bool → LogValue → LogValue
redact_field true v = redacted
redact_field false v = v

-- The loop over the keys; assigning to a key keeps its place.
unfoldable pub redact_secrets : UnicodeTables → EventDict → EventDict
redact_secrets tables [] = []
redact_secrets tables ((key, v) ∷ fields) =
    (key, redact_field (is_sensitive tables key) v) ∷ redact_secrets tables fields

unfoldable pub has_key : Text → EventDict → Bool
has_key key [] = false
has_key key ((k, v) ∷ fields) = text_eq k key || has_key key fields

-- `event_dict.setdefault("request_id", request_id_context.get())`
unfoldable pub add_request_id : Text → EventDict → EventDict
unfolding has_key
add_request_id request_id fields =
    if has_key (codes "request_id") fields
    then fields
    else fields ++ (codes "request_id", text request_id) ∷ []
