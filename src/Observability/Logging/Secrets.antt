-- ===== src/Observability/Logging/Secrets.antt =====
-- What the processors leave of an event.
use mathlib.Core.Option
use arvan_ip_country_api.Prelude.{
  List, ◌||◌, ◌≡◌, refl, Bool, true, false, Option, none, some, [], ◌∷◌, ◌++◌, if◌then◌else◌,
  Bool-cases, ◌⊎◌, inl, inr, arith,
}
use arvan_ip_country_api.Text.{Text, codes, text_eq, text_eq_iff, text_eq_refl, UnicodeTables}
use arvan_ip_country_api.Effects.{LogValue, word, text}
use arvan_ip_country_api.Observability.Logging.{
  EventDict, is_sensitive, redact_field, redact_secrets, has_key, add_request_id,
}

-- `event_dict.get(key)`
abbrev pub get : EventDict → Text → Option LogValue
get [] key = none
get ((k, v) ∷ fields) key = let rest = get fields key in if text_eq k key then some v else rest

-- The names under which an event may hold a secret.
abbrev pub secret_names : List Text
secret_names =
    codes "authorization"
    ∷ codes "cookie"
    ∷ codes "database_url"
    ∷ codes "ipinfo_token"
    ∷ codes "password"
    ∷ codes "secret"
    ∷ codes "token"
    ∷ []

abbrev pub is_one_of : Text → List Text → Bool
is_one_of t [] = false
is_one_of t (name ∷ names) = text_eq name t || is_one_of t names

sensitive_iff :
    (tables : UnicodeTables) (key : Text)
    → is_sensitive tables key ≡ is_one_of (tables.lower key) secret_names
unfolding is_sensitive
sensitive_iff tables key = refl

redact_one : (b : Bool) (v : LogValue) → redact_field b v ≡ (if b then word "[REDACTED]" else v)
redact_one true v = refl
redact_one false v = refl

module _ (tables : UnicodeTables) where
  -- After the redaction, what is read under a key is the mark `[REDACTED]`, if the key in lower case is one of
  -- the seven secret names, and the value as before, if it is not; a key that was not there is not there.
  pub get-redact_secrets :
      (fields : EventDict) (key : Text)
      → get (redact_secrets tables fields) key
        ≡ Option.map
            (λ v. if is_one_of (tables.lower key) secret_names then word "[REDACTED]" else v)
            (get fields key)
  unfolding redact_secrets
  get-redact_secrets [] key = refl
  get-redact_secrets ((k, v) ∷ fields) key = elim (Bool-cases (text_eq k key)) [
    | inl e ↦
        rw
          (
            e,
            (text_eq_iff k key).0 e,
            redact_one (is_sensitive tables key) v,
            sensitive_iff tables key,
          )
          refl
    | inr e ↦ rw e (get-redact_secrets fields key)
  ]

has_key-get : (fields : EventDict) (key : Text) → has_key key fields ≡ false → get fields key ≡ none
unfolding has_key
has_key-get [] key h = refl
has_key-get ((k, v) ∷ fields) key h = ground (arith, has_key-get fields key)

get-append :
    (fields : EventDict) (key : Text) (v : LogValue)
    → get fields key ≡ none
    → get (fields ++ (key, v) ∷ []) key ≡ some v
get-append [] key v h = rw (text_eq_refl key) refl
get-append ((k, w) ∷ fields) key v h = ground (arith, get-append fields key v)

has_key-some :
    (fields : EventDict) (key : Text)
    → has_key key fields ≡ true
    → (v : LogValue) × (get fields key ≡ some v)
unfolding has_key
has_key-some [] key h = cc
has_key-some ((k, v) ∷ fields) key h = elim (Bool-cases (text_eq k key)) [
  | inl e ↦ (v, rw e refl)
  | inr e ↦ let (w, x) = has_key-some fields key (ground arith) in (w, rw e x)
]

-- Every event has a request id: its own, if it has one, or else the context's.
pub get-add_request_id :
    (request_id : Text) (fields : EventDict)
    → ((v : LogValue) × (get fields (codes "request_id") ≡ some v)
        × (get (add_request_id request_id fields) (codes "request_id") ≡ some v))
      ⊎ ((get fields (codes "request_id") ≡ none)
          × (get (add_request_id request_id fields) (codes "request_id") ≡ some (text request_id)))
unfolding add_request_id
get-add_request_id request_id fields = elim (Bool-cases (has_key (codes "request_id") fields)) [
  | inl e ↦ let (v, x) = has_key-some fields (codes "request_id") e in inl (v, x, rw e x)
  | inr e ↦
      let x = has_key-get fields (codes "request_id") e in
      inr (x, rw e (get-append fields (codes "request_id") (text request_id) x))
]
