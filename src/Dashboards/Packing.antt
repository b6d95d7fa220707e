-- ===== src/Dashboards/Packing.antt =====
-- Whatever panels the rows are given, no two of them overlap on the dashboard.
use arvan_ip_country_api.Prelude.{
  ℕ, suc, ◌+◌, ◌≤◌, ◌≡◌, refl, ap, ◌∙◌, max, Bool, true, false, ◌&&◌, ◌||◌, Option, none, some,
  List, [], ◌∷◌, ◌++◌, leb, ltb, ◌==◌, ==_iff, all, all-append, length, length-append, arith,
  Bool-cases, inl, inr,
}
use arvan_ip_country_api.Dashboards.{Panel, GridPos}
use arvan_ip_country_api.Dashboards.Layout.{
  Layout, Row, new_layout, placed, append_item, end_band, place, header, row, rows,
}

-- One panel ends before the other starts, in one direction.
abbrev pub apart : GridPos → GridPos → Bool
apart p q = leb (p.x + p.w) q.x || leb (q.x + q.w) p.x || leb (p.y + p.h) q.y || leb (q.y + q.h) p.y

abbrev pub no_overlap : List Panel → Bool
no_overlap [] = true
no_overlap (p ∷ ps) = all (λ q. apart p.grid_pos q.grid_pos) ps && no_overlap ps

-- Within the 24 columns.
abbrev pub fits : Panel → Bool
fits p = leb (p.grid_pos.x + p.grid_pos.w) 24

abbrev pub has_id : Option ℕ → ℕ → Bool
has_id none n = false
has_id (some i) n = i == n

-- The ids count up from `n`.
abbrev pub ids_from : ℕ → List Panel → Bool
ids_from n [] = true
ids_from n (p ∷ ps) = has_id p.id n && ids_from (suc n) ps

-- A panel stands above the band at `y`, or in it and left of `x`, and is then no higher than `h`.
abbrev before : ℕ → ℕ → ℕ → Panel → Bool
before x y h p =
    leb (p.grid_pos.y + p.grid_pos.h) y
    || (leb (p.grid_pos.x + p.grid_pos.w) x && leb (p.grid_pos.y + p.grid_pos.h) (y + h))

all-weaken :
    (p q : Panel → Bool)
    → ((a : Panel) → p a ≡ true → q a ≡ true)
    → (xs : List Panel) → all p xs ≡ true
    → all q xs ≡ true
all-weaken p q f [] h = refl
all-weaken p q f (a ∷ xs) h =
    let (ha, hx) : (p a ≡ true) × (all p xs ≡ true) = (ground arith, ground arith) in
    rw (f a ha) (all-weaken p q f xs hx)

no_overlap-snoc :
    (ps : List Panel) (q : Panel)
    → no_overlap ps ≡ true
    → all (λ p. apart p.grid_pos q.grid_pos) ps ≡ true
    → no_overlap (ps ++ q ∷ []) ≡ true
no_overlap-snoc [] q h k = refl
no_overlap-snoc (p ∷ ps) q h k =
    ground (arith, all-append (λ r. apart p.grid_pos r.grid_pos) ps (q ∷ []), no_overlap-snoc ps q)

ids_from-snoc :
    (n : ℕ) (ps : List Panel) (q : Panel)
    → ids_from n ps ≡ true
    → q.id ≡ some (n + length ps)
    → ids_from n (ps ++ q ∷ []) ≡ true
ids_from-snoc n [] q h k = rw (k, (==_iff (n + 0) n).1 (omega arith)) refl
ids_from-snoc n (p ∷ ps) q h k =
    let (hp, hps) : (has_id p.id n ≡ true) × (ids_from (suc n) ps ≡ true) =
      (ground arith, ground arith) in
    rw hp (ids_from-snoc (suc n) ps q hps (k ∙ ap some (omega arith)))

-- The state of the loop: `x` and `h` are its local variables.
record IsPacked (x h : ℕ) (l : Layout) : Type 0 where
  separate : no_overlap l.panels ≡ true
  inside : all fits l.panels ≡ true
  behind : all (before x l.y h) l.panels ≡ true
  ids : ids_from 1 l.panels ≡ true
  next : l.panel_id ≡ suc (length l.panels)

append_item-IsPacked :
    (x h : ℕ) (item : Panel) (l : Layout)
    → IsPacked x h l
    → x + item.grid_pos.w ≤ 24
    → IsPacked (x + item.grid_pos.w) (max h item.grid_pos.h) (append_item x item l)
append_item-IsPacked x h item l k fit = record {
  separate =
      no_overlap-snoc l.panels (placed l.panel_id x l.y item) k.separate
        (all-weaken (before x l.y h) _ (λ a r. ground arith) l.panels k.behind);
  inside = all-append fits l.panels _ ∙ ground (arith, k.inside);
  behind =
      all-append (before (x + item.grid_pos.w) l.y (max h item.grid_pos.h)) l.panels _
      ∙ rw
          (all-weaken (before x l.y h) (before (x + item.grid_pos.w) l.y (max h item.grid_pos.h))
            (λ a r. ground arith) l.panels k.behind)
          (ground arith);
  ids =
      ids_from-snoc 1 l.panels (placed l.panel_id x l.y item) k.ids
        (ap some (k.next ∙ omega arith));
  next =
      ap suc (k.next ∙ omega (arith, length-append l.panels (placed l.panel_id x l.y item ∷ [])));
}

end_band-IsPacked : (x h : ℕ) (l : Layout) → IsPacked x h l → IsPacked 0 0 (end_band h l)
end_band-IsPacked x h l k = record {
  separate = k.separate;
  inside = k.inside;
  behind =
      all-weaken (before x l.y h) (before 0 (l.y + h) 0) (λ a r. ground arith) l.panels k.behind;
  ids = k.ids;
  next = k.next;
}

-- The width of a panel that a row can take.
abbrev pub fits_width : Panel → Bool
fits_width p = leb p.grid_pos.w 24

place-IsPacked :
    (items : List Panel) (x h : ℕ) (l : Layout)
    → all fits_width items ≡ true
    → IsPacked x h l
    → IsPacked 0 0 (place x h items l)
unfolding place
place-IsPacked [] x h l fit k = end_band-IsPacked x h l k
place-IsPacked (item ∷ items) x h l fit k =
    let (w, more) : (item.grid_pos.w ≤ 24) × (all fits_width items ≡ true) =
      (ground arith, ground arith) in
    elim (Bool-cases (ltb 24 (x + item.grid_pos.w))) [
      | inl e ↦ rw e (
          place-IsPacked items (0 + item.grid_pos.w) (max 0 item.grid_pos.h)
            (append_item 0 item (end_band h l)) more
            (append_item-IsPacked 0 0 item (end_band h l) (end_band-IsPacked x h l k)
              (omega arith)))
      | inr e ↦ rw e (
          place-IsPacked items (x + item.grid_pos.w) (max h item.grid_pos.h) (append_item x item l)
            more (append_item-IsPacked x h item l k (ground arith)))
    ]

row-IsPacked :
    (r : Row) (l : Layout)
    → all fits_width r.items ≡ true
    → IsPacked 0 0 l
    → IsPacked 0 0 (row r.title r.description r.items l)
unfolding row
row-IsPacked r l fit k = place-IsPacked r.items 0 0 _ fit (
    end_band-IsPacked 24 1 _
      (append_item-IsPacked 0 0 (header r.title r.description) l k (omega arith)))

rows-IsPacked :
    (rs : List Row) (l : Layout)
    → all (λ r. all fits_width r.items) rs ≡ true
    → IsPacked 0 0 l
    → IsPacked 0 0 (rows rs l)
unfolding rows
rows-IsPacked [] l fit k = k
rows-IsPacked (r ∷ rs) l fit k =
    let (f, more) : (all fits_width r.items ≡ true)
        × (all (λ r. all fits_width r.items) rs ≡ true) =
      (ground arith, ground arith) in
    rows-IsPacked rs _ more (row-IsPacked r l f k)

-- A dashboard of any rows whose panels are at most 24 columns wide is laid out so that no two panels
-- overlap, the rows' headers among them, every panel lies within the 24 columns, and the ids are the
-- numbers from 1 on, in order.
pub rows_packed :
    (rs : List Row)
    → all (λ r. all fits_width r.items) rs ≡ true
    → (no_overlap (rows rs new_layout).panels ≡ true)
      × (all fits (rows rs new_layout).panels ≡ true)
      × (ids_from 1 (rows rs new_layout).panels ≡ true)
unfolding new_layout
rows_packed rs fit =
    let k =
      rows-IsPacked rs new_layout fit
        (record { separate = refl; inside = refl; behind = refl; ids = refl; next = refl }) in
    (k.separate, k.inside, k.ids)
