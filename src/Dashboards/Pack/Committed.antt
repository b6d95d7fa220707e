-- ===== src/Dashboards/Pack/Committed.antt =====
-- What `build-sre-dashboards.py --check` accepts, and that it accepts what the script has written.
use arvan_ip_country_api.Prelude.{
  ◌≡◌, ◌↔◌, refl, ap, sym, ◌∙◌, true, false, Option, none, some, List, [], ◌∷◌, String, Bool-cases,
  inl, inr,
}
use arvan_ip_country_api.Text.{Text, text_eq, text_eq_iff}
use arvan_ip_country_api.Dashboards.{Dashboard}
use arvan_ip_country_api.Dashboards.Pack.{
  Files, expected, content, is_stale, mismatches, write_text, write_all, exit_code, main,
}

true-apart : true ≡ false → ⊥
true-apart h = cc

module _ (dumps : Dashboard → Text) where
  -- Every dashboard's file holds its text.
  abbrev pub AreCommitted : Files → List (String × Dashboard) → Type 0
  AreCommitted files [] = Unit
  AreCommitted files ((filename, payload) ∷ more) =
      (files filename ≡ some (content dumps payload)) × AreCommitted files more

  is_stale_iff : (o : Option Text) (text : Text) → (is_stale o text ≡ false) ↔ (o ≡ some text)
  is_stale_iff none text = (λ h. cc, λ h. cc)
  is_stale_iff (some found) text = elim (Bool-cases (text_eq found text)) [
    | inl y ↦ rw y (λ h. ap some ((text_eq_iff found text).0 y), λ h. refl)
    | inr y ↦ rw y (
      λ h. cc,
      λ h.
          let e : found ≡ text = cc in absurd (true-apart (sym ((text_eq_iff found text).1 e) ∙ y)),
    )
  ]

  exit_code_iff :
      (files : Files) (items : List (String × Dashboard))
      → (exit_code (mismatches dumps files items) ≡ 0) ↔ AreCommitted files items
  unfolding mismatches
  exit_code_iff files [] = (λ h. tt, λ h. refl)
  exit_code_iff files ((filename, payload) ∷ more) =
      elim (Bool-cases (is_stale (files filename) (content dumps payload))) [
        | inl y ↦ rw y (
          λ h. cc,
          λ h.
              absurd (
                true-apart (sym y ∙ (is_stale_iff (files filename) (content dumps payload)).1 h.0)),
        )
        | inr y ↦ rw y (
          λ h. (
            (is_stale_iff (files filename) (content dumps payload)).0 y,
            (exit_code_iff files more).0 h,
          ),
          λ h. (exit_code_iff files more).1 h.1,
        )
      ]

  -- `--check` leaves the files alone and returns 0 exactly if the file of every dashboard holds its text. Whatever the
  -- files are, it returns 0 after a run without it.
  pub main_lem :
      (files : Files)
      → (((main dumps true files).0 ≡ 0) ↔ AreCommitted files expected)
        × ((main dumps true files).1 ≡ files)
        × ((main dumps true (main dumps false files).1).0 ≡ 0)
  unfolding main write_all write_text expected
  main_lem files = (
    exit_code_iff files expected,
    refl,
    (exit_code_iff (write_all dumps expected files) expected).1 (refl, (refl, tt)),
  )
