-- ===== src/Tests/Platform.antt =====
-- A concrete platform: three addresses, a clock that ticks, a table in memory.
use mathlib.Core.Option
use arvan_ip_country_api.Prelude.{
  ℕ, suc, ◌+◌, ◌*◌, ◌%◌, ◌≡◌, refl, ◌∙◌, Bool, true, false, not, Option, none, some, List, [], ◌∷◌,
  arith, if◌then◌else◌, Bool-cases, inl, inr,
}
use arvan_ip_country_api.Text.{Text, codes, text_eq, text_eq_iff, text_eq_refl}
use arvan_ip_country_api.Domain.Datetime.{Datetime, east, utc_zone}
use arvan_ip_country_api.Domain.IpValidation.{IpLibrary, IsIpLibrary}
use arvan_ip_country_api.Effects.{ok, State, Clock}
use arvan_ip_country_api.Database.{Row, Session, Statement, Expr, Column}
use arvan_ip_country_api.Database.Postgres.{
  IsPostgres, IsClock, IsUtc, SameRow, merge, assign, keeps_key, set_column, eval, is_key, Value,
  text, time,
}

pub data Address : Type 0 where
  google quad_one home : Address

abbrev pub address_text : Address → Text
address_text google = codes "8.8.8.8"
address_text quad_one = codes "1.1.1.1"
address_text home = codes "127.0.0.1"

abbrev pub read_address : Text → Option Address
read_address s =
    if text_eq s (codes "8.8.8.8")
    then some google
    else if text_eq s (codes "1.1.1.1")
    then some quad_one
    else if text_eq s (codes "127.0.0.1")
    then some home
    else none

abbrev pub is_home : Address → Bool
is_home home = true
is_home a = false

abbrev pub addresses : IpLibrary Address
addresses = record {
  ip_address = read_address;
  str = address_text;
  is_global = λ a. not (is_home a);
  is_private = is_home;
  is_loopback = is_home;
  is_link_local = λ a. false;
  is_multicast = λ a. false;
  is_unspecified = λ a. false;
  is_reserved = λ a. false;
}

read-text : (a : Address) → read_address (address_text a) ≡ some a
read-text google = refl
read-text quad_one = refl
read-text home = refl

pub addresses-IsIpLibrary : IsIpLibrary addresses
addresses-IsIpLibrary = record { ip_address-str = read-text }

-- The world: ticks since the start, the cells of the table, and how often the server fails.
pub record World : Type 0 where
  pub ticks : ℕ
  pub cells : Text → Option Row
  pub failures : ℕ

abbrev pub later : World → World
later w = record w { ticks = suc w.ticks }

abbrev pub base : ℕ
base = 63919267200000000

-- One second passes from one reading of the time to the next.
abbrev pub at : World → Datetime
at w = record { local = base + (w.ticks * 1000000) % 1000000000000000; tzinfo = utc_zone }

abbrev pub clock : Clock World
clock = record { perf_counter = λ w. (w.ticks, w); now = λ w. (at w, later w) }

abbrev pub keep : Text → Option Row → Option Row
keep key none = none
keep key (some r) = if text_eq r.ip_address key then some r else none

abbrev pub table : World → Text → Option Row
table w key = keep key (w.cells key)

abbrev pub put : Statement → World → World
put st w = record w {
  cells = λ j.
      if text_eq j st.values.ip_address
      then some (merge st (table w st.values.ip_address))
      else w.cells j;
}

abbrev pub session : Session World
session = record { scalar = λ key w. (ok (table w key), w); execute = λ st w. (ok tt, put st w) }

pub shown_row : (r : Row) → IsUtc r.fetched_at → IsUtc r.expires_at → SameRow r r
shown_row r f e = record {
  ip_address = refl;
  country_code = refl;
  country_name = refl;
  provider = refl;
  fetched_at = record { zone = east 0; aware = f.zone; instant = refl };
  expires_at = record { zone = east 0; aware = e.zone; instant = refl };
}

pub key_of_kept : (key : Text) (o : Option Row) (r : Row) → keep key o ≡ some r → r.ip_address ≡ key
key_of_kept key none r h = cc
key_of_kept key (some q) r h = ground (arith, text_eq_iff q.ip_address key)

ip_address-set_column :
    (c : Column) (v : Value) (r : Row)
    → is_key c ≡ false
    → (set_column c v r).ip_address ≡ r.ip_address
ip_address-set_column Column.ip_address v r h = cc
ip_address-set_column Column.country_code (text v) r h = refl
ip_address-set_column _ (text v) r h = refl
ip_address-set_column _ (time v) r h = refl

ip_address-assign :
    (set : List (Column × Expr)) (new old : Row)
    → keeps_key set ≡ true
    → (assign set new old).ip_address ≡ old.ip_address
ip_address-assign [] new old h = refl
ip_address-assign ((c, e) ∷ rest) new old h =
    ip_address-assign rest new (set_column c (eval new e) old) (ground arith)
    ∙ ip_address-set_column c (eval new e) old (ground arith)

ip_address-merge :
    (st : Statement) (o : Option Row)
    → keeps_key st.set_ ≡ true
    → (merge st (keep st.values.ip_address o)).ip_address ≡ st.values.ip_address
ip_address-merge st o h =
    go (keep st.values.ip_address o) (λ r e. key_of_kept st.values.ip_address o r e)
  where
    go :
        (k : Option Row)
        → ((r : Row) → k ≡ some r → r.ip_address ≡ st.values.ip_address)
        → (merge st k).ip_address ≡ st.values.ip_address
    go none e = refl
    go (some old) e = ip_address-assign st.set_ st.values old h ∙ e old refl

pub writes_row :
    (st : Statement) (w : World) (j : Text)
    → keeps_key st.set_ ≡ true
    → table (put st w) j ≡ (
        if text_eq j st.values.ip_address
        then some (merge st (table w st.values.ip_address))
        else table w j)
writes_row st w j h = elim (Bool-cases (text_eq j st.values.ip_address)) [
  | inl e ↦
      rw (e, (text_eq_iff j st.values.ip_address).0 e)
        (rw
          (ip_address-merge st (w.cells st.values.ip_address) h, text_eq_refl st.values.ip_address))
  | inr e ↦ rw e
]

pub found_row : (o : Option Row) → ok o ≡ ok (Option.map (λ (r : Row). r) o)
found_row none = refl
found_row (some r) = refl

abbrev pub postgres : IsPostgres session
postgres = record {
  up = λ w. true;
  is_inet = λ key. true;
  table = table;
  shown = λ r. r;
  shown_row = shown_row;
  key_of = λ w key r h. key_of_kept key (w.cells key) r h;
  scalar_found = λ key w up inet. found_row (table w key);
  scalar_keeps = λ key j w. refl;
  scalar_up = λ key w. refl;
  execute_done = λ st w up inet fits keeps. refl;
  execute_writes = λ st w j up inet fits keeps. writes_row st w j keeps;
  execute_up = λ st w. refl;
}

pub at-IsUtc : (w : World) → IsUtc (at w)
at-IsUtc w = record { zone = refl; after_start = omega arith; before_end = omega arith }

abbrev pub clock_law : IsClock postgres clock
clock_law = record {
  now_IsUtc = at-IsUtc;
  now_keeps = λ w j. refl;
  now_up = λ w. refl;
  counter_keeps = λ w j. refl;
  counter_up = λ w. refl;
}

abbrev pub fresh : ℕ → State World
fresh failures = record {
  world = record { ticks = 0; cells = λ key. none; failures = failures };
  calls = [];
  metrics = record { version = "0.1.0"; enabled = true; samples = [] };
  log = [];
}
