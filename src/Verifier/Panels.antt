-- ===== src/Verifier/Panels.antt =====
-- `iter_panels` finds every panel, at any depth.
use arvan_ip_country_api.Prelude.{
  ◌≡◌, refl, ap, ◌∙◌, ◌⊎◌, inl, inr, ◌↔◌, Bool, true, false, List, [], ◌∷◌, ◌++◌, if◌then◌else◌,
  subst,
}
use arvan_ip_country_api.Text.{Text}
use arvan_ip_country_api.Json.{
  Json, null, boolean, number, text, array, object, Items, nil, item, Fields, end, field,
}
use arvan_ip_country_api.Verifier.{is_panel, iter_panels, iter_items, iter_fields}

-- `p` is an object within a value.
mutual
  pub data Within (p : Fields) : Json → Type 0 where
    here : Within p (object p)
    in_object : (fields : Fields) → InFields p fields → Within p (object fields)
    in_array : (items : Items) → InItems p items → Within p (array items)

  pub data InItems (p : Fields) : Items → Type 0 where
    item_here : (j : Json) (more : Items) → Within p j → InItems p (item j more)
    item_later : (j : Json) (more : Items) → InItems p more → InItems p (item j more)

  pub data InFields (p : Fields) : Fields → Type 0 where
    value_here :
        (key : Text) (j : Json) (more : Fields) → Within p j → InFields p (field key j more)
    value_later :
        (key : Text) (j : Json) (more : Fields) → InFields p more → InFields p (field key j more)

abbrev pub Listed : Fields → List Fields → Type 0
Listed p [] = ⊥
Listed p (x ∷ xs) = (p ≡ x) ⊎ Listed p xs

Listed-append :
    (p : Fields) (xs ys : List Fields) → Listed p (xs ++ ys) ↔ (Listed p xs ⊎ Listed p ys)
Listed-append p [] ys = (λ h. inr h, λ h. elim h [ inl x ↦ absurd x | inr y ↦ y ])
Listed-append p (x ∷ xs) ys =
    let ih = Listed-append p xs ys in
    (
      λ h. elim h [
        | inl e ↦ inl (inl e)
        | inr t ↦ elim (ih.0 t) [ inl a ↦ inl (inr a) | inr b ↦ inr b ]
      ],
      λ h. elim h [
        | inl a ↦ elim a [ inl e ↦ inl e | inr t ↦ inr (ih.1 (inl t)) ]
        | inr b ↦ inr (ih.1 (inr b))
      ],
    )

-- What an object itself adds.
abbrev own : Bool → Fields → List Fields
own b fields = if b then fields ∷ [] else []

Listed-own : (p fields : Fields) (b : Bool) → Listed p (own b fields) ↔ ((p ≡ fields) × (b ≡ true))
Listed-own p fields true = (λ h. elim h [ inl e ↦ (e, refl) | inr x ↦ absurd x ], λ h. inl h.0)
Listed-own p fields false = (λ h. absurd h, λ h. cc (h.1))

mutual
  unfolding iter_panels

  sound : (p : Fields) (j : Json) → Listed p (iter_panels j) → Within p j × (is_panel p ≡ true)
  sound p (object fields) h =
      elim ((Listed-append p (own (is_panel fields) fields) (iter_fields fields)).0 h) [
        | inl a ↦
            let (e, t) = (Listed-own p fields (is_panel fields)).0 a in
            (subst (λ f. Within p (object f)) e here, ap is_panel e ∙ t)
        | inr b ↦ let (w, t) = sound_fields p fields b in (in_object fields w, t)
      ]
  sound p (array items) h = let (w, t) = sound_items p items h in (in_array items w, t)
  sound p null h = absurd h
  sound p (boolean b) h = absurd h
  sound p (number n) h = absurd h
  sound p (text t) h = absurd h

  sound_items :
      (p : Fields) (items : Items)
      → Listed p (iter_items items)
      → InItems p items × (is_panel p ≡ true)
  sound_items p nil h = absurd h
  sound_items p (item j more) h = elim ((Listed-append p (iter_panels j) (iter_items more)).0 h) [
    | inl a ↦ let (w, t) = sound p j a in (item_here j more w, t)
    | inr b ↦ let (w, t) = sound_items p more b in (item_later j more w, t)
  ]

  sound_fields :
      (p fields : Fields) → Listed p (iter_fields fields) → InFields p fields × (is_panel p ≡ true)
  sound_fields p end h = absurd h
  sound_fields p (field key j more) h =
      elim ((Listed-append p (iter_panels j) (iter_fields more)).0 h) [
        | inl a ↦ let (w, t) = sound p j a in (value_here key j more w, t)
        | inr b ↦ let (w, t) = sound_fields p more b in (value_later key j more w, t)
      ]

mutual
  unfolding iter_panels

  complete : (p : Fields) (j : Json) → is_panel p ≡ true → Within p j → Listed p (iter_panels j)
  complete p j t here =
      (Listed-append p (own (is_panel p) p) (iter_fields p)).1
        (inl ((Listed-own p p (is_panel p)).1 (refl, t)))
  complete p j t (in_object fields w) =
      (Listed-append p (own (is_panel fields) fields) (iter_fields fields)).1
        (inr (complete_fields p fields t w))
  complete p j t (in_array items w) = complete_items p items t w

  complete_items :
      (p : Fields) (items : Items)
      → is_panel p ≡ true
      → InItems p items
      → Listed p (iter_items items)
  complete_items p items t (item_here j more w) =
      (Listed-append p (iter_panels j) (iter_items more)).1 (inl (complete p j t w))
  complete_items p items t (item_later j more w) =
      (Listed-append p (iter_panels j) (iter_items more)).1 (inr (complete_items p more t w))

  complete_fields :
      (p fields : Fields) → is_panel p ≡ true → InFields p fields → Listed p (iter_fields fields)
  complete_fields p fields t (value_here key j more w) =
      (Listed-append p (iter_panels j) (iter_fields more)).1 (inl (complete p j t w))
  complete_fields p fields t (value_later key j more w) =
      (Listed-append p (iter_panels j) (iter_fields more)).1 (inr (complete_fields p more t w))

-- `iter_panels` yields exactly the objects at any depth of the payload that have the keys `targets` and
-- `title`.
pub iter_panels_iff :
    (p : Fields) (payload : Json)
    → Listed p (iter_panels payload) ↔ (Within p payload × (is_panel p ≡ true))
iter_panels_iff p payload = (sound p payload, λ h. complete p payload h.1 h.0)
