-- ===== src/Dashboards.antt =====
-- deploy/scripts/build-sre-dashboards.py: the Grafana dashboards, from panels laid out in rows. A number
-- with a fraction is a whole number of thousandths. JSON objects are records with the keys that vary;
-- the keys that are the same in every object of a kind are left out.
pub mod Layout
pub mod Packing
pub mod SreOverview
pub mod ApiPerformance
pub mod Pack
pub mod PostgresPerformance
pub mod K3sReliability
use arvan_ip_country_api.Prelude.{
  ℕ, suc, ◌+◌, String, Bool, false, Option, none, some, List, [], ◌∷◌, name_eq, if◌then◌else◌,
}

abbrev pub app_ns : String
app_ns = "__APP_NAMESPACE__"

-- A target of a panel; `ref_id` is the character code of its letter.
pub record Target : Type 0 where
  pub expr : String
  pub legend_format : String
  pub ref_id : ℕ
  pub validation_allow_empty : Bool

unfoldable pub query : String → String → Bool → Target
query expr legend allow_empty = record {
  expr = expr;
  legend_format = legend;
  ref_id = b'A';
  validation_allow_empty = allow_empty;
}

-- `enumerate(items)` from `index` on
unfoldable pub queries_from : ℕ → List (String × String) → List Target
queries_from index [] = []
queries_from index ((expr, legend) ∷ items) =
    record (query expr legend false) { ref_id = b'A' + index } ∷ queries_from (suc index) items

unfoldable pub queries : List (String × String) → List Target
queries items = queries_from 0 items

pub data Options : Type 0 where
  timeseries_options reduce_options no_options : Options

pub record GridPos : Type 0 where
  pub x : ℕ
  pub y : ℕ
  pub w : ℕ
  pub h : ℕ

-- A panel of any type, a row's header among them; `id` is set when it is placed.
pub record Panel : Type 0 where
  pub id : Option ℕ
  pub kind : String
  pub title : String
  pub description : String
  pub unit : String
  pub min_value : Option ℕ
  pub max_value : Option ℕ
  pub options : Options
  pub grid_pos : GridPos
  pub targets : List Target

-- The arguments of `panel`; no call gives `thresholds`.
pub record PanelArgs : Type 0 where
  pub title : String
  pub expr : Option String
  pub kind : String
  pub unit : String
  pub width : ℕ
  pub height : ℕ
  pub legend : String
  pub description : String
  pub targets : Option (List Target)
  pub min_value : Option ℕ
  pub max_value : Option ℕ

-- The arguments that have no default, and the defaults of the others.
abbrev pub args : String → String → PanelArgs
args title description = record {
  title = title;
  expr = none;
  kind = "timeseries";
  unit = "short";
  width = 8;
  height = 7;
  legend = "";
  description = description;
  targets = none;
  min_value = none;
  max_value = none;
}

unfoldable pub options_for : String → Options
options_for kind =
    if name_eq kind "timeseries"
    then timeseries_options
    else if name_eq kind "stat"
    then reduce_options
    else if name_eq kind "gauge"
    then reduce_options
    else no_options

-- `expr or "vector(0)"`
abbrev or_vector : Option String → String
or_vector none = "vector(0)"
or_vector (some expr) = if name_eq expr "" then "vector(0)" else expr

abbrev targets_or : Option (List Target) → PanelArgs → List Target
targets_or none a = query (or_vector a.expr) a.legend false ∷ []
targets_or (some targets) a = targets

unfoldable pub panel : PanelArgs → Panel
panel a = record {
  id = none;
  kind = a.kind;
  title = a.title;
  description = a.description;
  unit = a.unit;
  min_value = a.min_value;
  max_value = a.max_value;
  options = options_for a.kind;
  grid_pos = record { x = 0; y = 0; w = a.width; h = a.height };
  targets = targets_or a.targets a;
}

-- A template variable, whose label the calls give or `name.title()` is.
pub record Variable : Type 0 where
  pub name : String
  pub label : String
  pub definition : String
  pub current : String

pub record Link : Type 0 where
  pub title : String
  pub target : String

-- `DASHBOARD_LINKS`
abbrev pub dashboard_links : List Link
dashboard_links =
    record { title = "SRE Service Overview"; target = "arvan-challenge-sre-overview" }
    ∷ record { title = "API Performance"; target = "ip-country-api-performance" }
    ∷ record { title = "CloudNativePG"; target = "cloudnativepg-sre-performance" }
    ∷ record { title = "K3s Reliability"; target = "k3s-reliability-capacity" }
    ∷ []

-- The links to the other dashboards: `for label, target in DASHBOARD_LINKS if target != uid`
unfoldable pub links_without : String → List Link → List Link
links_without uid [] = []
links_without uid (l ∷ more) =
    let rest = links_without uid more in if name_eq l.target uid then rest else l ∷ rest

pub record Dashboard : Type 0 where
  pub uid : String
  pub title : String
  pub description : String
  pub links : List Link
  pub panels : List Panel
  pub templating : List Variable

-- The link to the active alerts stands before the others; its title and URL are fixed.
unfoldable pub dashboard : String → String → String → List Panel → List Variable → Dashboard
dashboard uid title description panels variables = record {
  uid = uid;
  title = title;
  description = description;
  links =
      record { title = "Active alerts"; target = "/alerting/list?view=state" }
      ∷ links_without uid dashboard_links;
  panels = panels;
  templating = variables;
}
