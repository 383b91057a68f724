-- ===== src/Legal/Generated.antt =====
-- tools/generate_legal_batch.py: the rows of a batch for demonstrations. The random generator and the
-- clock answer from the state of the outside world; `csv.writer` is left out, so a batch is its rows.
pub mod Refused
use Prim.Native.String.{◌++◌ as text_append}
use tikblog_unsubscribe_plat.Base.{
  ℕ, zero, suc, ◌+◌, ◌-◌, ◌*◌, ◌≡◌, refl, String, Bool, true, false, List, [], ◌∷◌, arith,
}
use tikblog_unsubscribe_plat.Base.Tests.{str_eq, if◌then◌else◌}
use tikblog_unsubscribe_plat.Base.Lists.{length}
use tikblog_unsubscribe_plat.Base.Texts.{decimal, text_length}
use tikblog_unsubscribe_plat.Base.Floats.{Floats}

abbrev pub header : List String
header = "user_id" ∷ "writer_id" ∷ "requested_at" ∷ []

abbrev pub breakages : List String
breakages = "empty_user" ∷ "missing_writer" ∷ "bad_date" ∷ "extra_column" ∷ "missing_column" ∷ []

abbrev pub zeros : ℕ → String
zeros zero = ""
zeros (suc n) = text_append "0" (zeros n)

-- `f"{n:0wd}"`
unfoldable pub padded : ℕ → ℕ → String
unfolding decimal
padded w n = text_append (zeros (w - text_length (decimal n))) (decimal n)

-- `break_row` of the three cells of a row.
unfoldable pub break_row : String × String × String → String → List String
break_row (user_id, writer_id, requested_at) breakage =
    if str_eq breakage "empty_user"
    then "" ∷ writer_id ∷ requested_at ∷ []
    else if str_eq breakage "missing_writer"
    then user_id ∷ "" ∷ requested_at ∷ []
    else if str_eq breakage "bad_date"
    then user_id ∷ writer_id ∷ "17 августа, где-то вечером" ∷ []
    else if str_eq breakage "extra_column"
    then user_id ∷ writer_id ∷ requested_at ∷ "surprise" ∷ []
    else user_id ∷ writer_id ∷ []

pub record Random (F W : Type 0) : Type 0 where
  pub randrange : ℕ → W → ℕ × W
  pub random : W → F × W
  pub choice : List String → W → String × W
  -- The ISO text of the time some minutes ago.
  pub minutes_ago : ℕ → W → String

-- The rows so far, the number of broken ones, and the state.
pub record Batch (W : Type 0) : Type 0 where
  pub rows : List (List String)
  pub broken_count : ℕ
  pub world : W

module _ {F W : Type 0} ⦃fl : Floats F⦄ (rng : Random F W) where
  unfoldable pub good_row : W → (String × String × String) × W
  unfolding padded
  good_row w =
      let (minutes, w1) = rng.randrange 43200 w in
      let requested_at = rng.minutes_ago minutes w in
      let (user, w2) = rng.randrange 20 w1 in
      let (writer, w3) = rng.randrange 5 w2 in
      (
        (
          text_append "user-" (padded 4 user),
          text_append "writer-" (padded 3 writer),
          requested_at,
        ),
        w3,
      )

  -- A row and whether it is broken.
  unfoldable pub draw_row : F → W → (List String × Bool) × W
  unfolding good_row break_row
  draw_row broken_share w =
      let ((user, writer, time), w1) = good_row w in
      let (share, w2) = rng.random w1 in
      let (breakage, w3) = rng.choice breakages w2 in
      if fl.lt share broken_share
      then ((break_row (user, writer, time) breakage, true), w3)
      else ((user ∷ writer ∷ time ∷ [], false), w2)

  -- The loop of `build_batch`, which writes the rows in their order.
  unfoldable pub build_rows : ℕ → F → W → Batch W
  unfolding draw_row
  build_rows zero broken_share w = record { rows = []; broken_count = 0; world = w }
  build_rows (suc n) broken_share w =
      let ((row, broken), w1) = draw_row broken_share w in
      let rest = build_rows n broken_share w1 in
      record {
        rows = row ∷ rest.rows;
        broken_count = (if broken then 1 else 0) + rest.broken_count;
        world = rest.world;
      }

  unfoldable pub build_batch : ℕ → F → W → Batch W
  unfolding build_rows
  build_batch n broken_share w =
      let batch = build_rows n broken_share w in record batch { rows = header ∷ batch.rows }
