-- ===== src/Legal/Generated/Refused.antt =====
-- tools/generate_legal_batch.py and services/legal-ingestion/legal_ingestion/parsing.py: the rows that are
-- broken on purpose are refused.
use tikblog_unsubscribe_plat.Base.{
  ℕ, zero, suc, ◌≤◌, ◌≡◌, refl, inl, inr, String, Bool, true, false, none, List, arith,
}
use tikblog_unsubscribe_plat.Base.Tests.{str_eq, Bool-cases, if◌then◌else◌}
use tikblog_unsubscribe_plat.Base.Lists.{count}
use tikblog_unsubscribe_plat.Base.Floats.{Floats}
use tikblog_unsubscribe_plat.Base.Texts.{strip_chars, is_space}
use tikblog_unsubscribe_plat.Base.Errors.{Result, ok, raised, ◌>>=◌}
use tikblog_unsubscribe_plat.Legal.Parsing
use tikblog_unsubscribe_plat.Legal.Parsing.{Formats}
use tikblog_unsubscribe_plat.Legal.Generated
use tikblog_unsubscribe_plat.Legal.Generated.{Random}

abbrev pub is_refused : {A : Type 0} → Result A → Bool
is_refused (ok a) = false
is_refused (raised e) = true

module _ (fm : Formats) (no_date : fm.from_iso "17 августа, где-то вечером" ≡ none) where
  -- However a row is broken, no event is built from it.
  break_row-is_refused :
      (user writer time breakage event_id request_id batch : String)
      → is_refused (
          Parsing.build_event fm event_id request_id
            (Generated.break_row (user, writer, time) breakage)
            batch)
        ≡ true
  unfolding Generated.break_row Parsing.build_event Parsing.strip strip_chars str_eq is_space
  break_row-is_refused user writer time breakage event_id request_id batch =
      elim (Bool-cases (str_eq breakage "empty_user")) [
        | inl empty_user ↦ rw (empty_user) refl
        | inr other1 ↦ elim (Bool-cases (str_eq breakage "missing_writer")) [
          | inl missing_writer ↦ elim (Bool-cases (str_eq (Parsing.strip user) "")) [
            | inl blank ↦ rw (other1, missing_writer, blank) refl
            | inr named ↦ rw (other1, missing_writer, named) refl
          ]
          | inr other2 ↦ elim (Bool-cases (str_eq breakage "bad_date")) [
            | inl bad_date ↦ elim (Bool-cases (str_eq (Parsing.strip user) "")) [
              | inl blank ↦ rw (other1, other2, bad_date, blank) refl
              | inr named ↦ elim (Bool-cases (str_eq (Parsing.strip writer) "")) [
                | inl blank ↦ rw (other1, other2, bad_date, named, blank) refl
                | inr known ↦
                    simp (other1, other2, bad_date, named, known) (rw (no_date, ◌>>=◌) refl)
              ]
            ]
            | inr other3 ↦ elim (Bool-cases (str_eq breakage "extra_column")) [
              | inl extra ↦ rw (other1, other2, other3, extra) refl
              | inr missing ↦ rw (other1, other2, other3, missing) refl
            ]
          ]
        ]
      ]

  module _ {F W : Type 0} ⦃fl : Floats F⦄ (rng : Random F W)
      (event_id request_id batch : String) where
    abbrev refuses : List String → Bool
    refuses row = is_refused (Parsing.build_event fm event_id request_id row batch)

    draw_row-refuses :
        (share : F) (w : W)
        → (if (Generated.draw_row rng share w).0.1 then 1 else 0)
          ≤ (if refuses (Generated.draw_row rng share w).0.0 then 1 else 0)
    unfolding Generated.draw_row
    draw_row-refuses share w =
        elim (Bool-cases (fl.lt (rng.random (Generated.good_row rng w).1).0 share)) [
          | inl broken ↦
              let cells = (Generated.good_row rng w).0 in
              let refused =
                break_row-is_refused cells.0 cells.1 cells.2
                  (rng.choice Generated.breakages (rng.random (Generated.good_row rng w).1).1).0
                  event_id request_id batch in
              rw (broken, refused) (omega arith)
          | inr whole ↦ rw (whole) (omega arith)
        ]

    -- At least as many rows of a generated batch are refused as the generator counts as broken.
    pub build_rows-refuses :
        (n : ℕ) (share : F) (w : W)
        → (Generated.build_rows rng n share w).broken_count
          ≤ count refuses (Generated.build_rows rng n share w).rows
    unfolding Generated.build_rows count
    build_rows-refuses zero share w = omega arith
    build_rows-refuses (suc n) share w = omega (
      arith,
      draw_row-refuses share w,
      build_rows-refuses n share (Generated.draw_row rng share w).1,
    )
