-- ===== src/Dashboards/Layout.antt =====
-- `Layout`: panels from left to right in 24 columns, under the header of their row.
use arvan_ip_country_api.Prelude.{
  ℕ, suc, ◌+◌, max, String, none, some, List, [], ◌∷◌, ◌++◌, ltb, if◌then◌else◌,
}
use arvan_ip_country_api.Dashboards.{Panel, no_options}

pub record Layout : Type 0 where
  pub panels : List Panel
  pub y : ℕ
  pub panel_id : ℕ

unfoldable pub new_layout : Layout
new_layout = record { panels = []; y = 0; panel_id = 1 }

-- `item["id"] = self.panel_id; item["gridPos"].update({"x": x, "y": self.y})`
abbrev pub placed : ℕ → ℕ → ℕ → Panel → Panel
placed id x y item = record item { id = some id; grid_pos = record item.grid_pos { x = x; y = y } }

-- The item stands at `x` in the current band.
abbrev pub append_item : ℕ → Panel → Layout → Layout
append_item x item l = record {
  panels = l.panels ++ placed l.panel_id x l.y item ∷ [];
  y = l.y;
  panel_id = suc l.panel_id;
}

-- `self.y += row_height`
abbrev pub end_band : ℕ → Layout → Layout
end_band row_height l = record l { y = l.y + row_height }

-- `if x + width > 24: self.y += row_height; x = 0; row_height = 0`
abbrev pub wrap : ℕ → ℕ → ℕ → Layout → ℕ × ℕ × Layout
wrap x row_height width l =
    if ltb 24 (x + width) then (0, 0, end_band row_height l) else (x, row_height, l)

-- The loop over the items, and the end of the last band.
unfoldable pub place : ℕ → ℕ → List Panel → Layout → Layout
place x row_height [] l = end_band row_height l
place x row_height (item ∷ items) l =
    let (x', row_height', l') = wrap x row_height item.grid_pos.w l in
    place (x' + item.grid_pos.w) (max row_height' item.grid_pos.h) items (append_item x' item l')

abbrev pub header : String → String → Panel
header title description = record {
  id = none;
  kind = "row";
  title = title;
  description = description;
  unit = "";
  min_value = none;
  max_value = none;
  options = no_options;
  grid_pos = record { x = 0; y = 0; w = 24; h = 1 };
  targets = [];
}

-- `Layout.row`
unfoldable pub row : String → String → List Panel → Layout → Layout
row title description items l =
    place 0 0 items (end_band 1 (append_item 0 (header title description) l))

-- The arguments of a call of `row`, and the calls that build a dashboard, one after the other.
pub record Row : Type 0 where
  pub title : String
  pub description : String
  pub items : List Panel

unfoldable pub rows : List Row → Layout → Layout
rows [] l = l
rows (r ∷ more) l = rows more (row r.title r.description r.items l)
