-- ===== src/Analytics/Jobs.antt =====
-- analytics/jobs/main.py: `execute`, which runs a job by its name. The creation of the tables, a stream
-- that runs until its input is used up, and the reading and writing of ISO dates are parameters.
pub mod Refreshing
use Prim.Native.String.{◌++◌ as text_append}
use tikblog_unsubscribe_plat.Base.{
  ℕ, String, Bool, true, false, not, ◌||◌, Option, none, some, List, [], ◌∷◌,
}
use tikblog_unsubscribe_plat.Base.Tests.{str_eq, if◌then◌else◌}
use tikblog_unsubscribe_plat.Base.Floats.{Floats}
use tikblog_unsubscribe_plat.Base.Lists.{elem}
use tikblog_unsubscribe_plat.Base.Errors.{Result, ok, raised, ◌>>=◌, exn, value_error, other_error}
use tikblog_unsubscribe_plat.Analytics.Status.{Monitoring}
use tikblog_unsubscribe_plat.Analytics.Lake.{Spark, Store, Step}
use tikblog_unsubscribe_plat.Analytics.Quality.Checks.{Schema}
use tikblog_unsubscribe_plat.Analytics.Gold.{touched, refresh}
use tikblog_unsubscribe_plat.Analytics.Gold.Freshness.{freshness}
use tikblog_unsubscribe_plat.Analytics.Maintenance.{Housekeeping, housekeeping, backfill}

-- `args`: the attributes of a request; one may be missing.
pub record Args : Type 0 where
  pub action : String
  pub channel : Option String
  pub layer : Option String
  pub start : Option String
  pub end : Option String
  pub dates : Option (List String)
  pub run_id : Option String
  pub step : Option String

pub record Jobs (F W : Type 0) : Type 0 where
  pub create_tables : Step F W
  pub run_stream : String → Step F W
  pub datetime_of : String → Result ℕ
  pub date_of : String → Result ℕ
  pub isoformat : ℕ → String
  pub gold_lookback_minutes : ℕ
  pub housekeeping_settings : Housekeeping F W
  pub bronze_schema : Schema
  pub silver_schema : Schema

-- `args.name`; a missing one is an AttributeError.
abbrev pub attribute : {A : Type 0} → String → Option A → Result A
attribute name none = raised (
    exn other_error
      (text_append "'types.SimpleNamespace' object has no attribute '" (text_append name "'")))
attribute name (some a) = ok a

-- `[d.isoformat() for d in dates]`
unfoldable pub isoformats : (ℕ → String) → List (Option ℕ) → Result (List String)
isoformats isoformat [] = ok []
isoformats isoformat (none ∷ ds) =
    raised (exn other_error "'NoneType' object has no attribute 'isoformat'")
isoformats isoformat (some d ∷ ds) = isoformats isoformat ds >>= (λ ts. ok (isoformat d ∷ ts))

-- `[date.fromisoformat(d) for d in dates]`
unfoldable pub dates_of : (String → Result ℕ) → List String → Result (List ℕ)
dates_of date_of [] = ok []
dates_of date_of (t ∷ ts) = date_of t >>= (λ d. dates_of date_of ts >>= (λ ds. ok (d ∷ ds)))

-- A step on a value that may not be had.
abbrev pub run_with : {F W A : Type 0} → Result A → (A → Step F W) → Step F W
run_with (ok a) step s = step a s
run_with (raised e) step s = (raised e, s)

abbrev pub refuse : {F W : Type 0} → String → Step F W
refuse message s = (raised (exn value_error message), s)

-- A job that returns None.
abbrev pub returns_none :
    {F W : Type 0} → Result {0} Unit × Store F W → Result (Option (List String)) × Store F W
returns_none (ok u, s) = (ok none, s)
returns_none (raised e, s) = (raised e, s)

module _ {F W : Type 0} ⦃fl : Floats F⦄ (spark : Spark F W) (merge_attempts : ℕ)
    (monitoring : Monitoring F) (jobs : Jobs F W) where
  unfoldable pub stream : Args → Step F W
  stream args = run_with (attribute "channel" args.channel) (λ channel.
      if not (str_eq channel "legal")
      then refuse "HTTP batch stream must be a Legal stage"
      else run_with (attribute "layer" args.layer) (λ layer.
        if elem layer ("kafka_to_bronze" ∷ "bronze_to_silver" ∷ [])
        then jobs.run_stream layer
        else refuse "HTTP batch stream must be a Legal stage"))

  unfoldable pub touched_texts : Args → Store F W → Result (List String)
  unfolding isoformats touched
  touched_texts args s = do
    start_text ← attribute "start" args.start
    start ← jobs.datetime_of start_text
    end_text ← attribute "end" args.end
    end ← jobs.datetime_of end_text
    isoformats jobs.isoformat
        (touched spark merge_attempts monitoring jobs.gold_lookback_minutes start end s.lake)

  unfoldable pub gold : Args → Step F W
  unfolding dates_of refresh
  gold args = run_with (attribute "dates" args.dates >>= dates_of jobs.date_of) (λ dates.
      run_with (attribute "run_id" args.run_id)
        (λ run_id. refresh spark merge_attempts monitoring dates run_id))

  unfoldable pub backfill_layer : Args → Step F W
  unfolding backfill
  backfill_layer args = run_with (attribute "layer" args.layer) (λ layer.
      if not (elem layer ("silver" ∷ "gold" ∷ []))
      then refuse "backfill layer must be silver or gold"
      else run_with (attribute "start" args.start >>= jobs.date_of) (λ start.
        run_with (attribute "end" args.end >>= jobs.date_of) (λ end.
          run_with (attribute "run_id" args.run_id) (λ run_id.
            backfill spark merge_attempts monitoring jobs.bronze_schema jobs.silver_schema start end
              layer run_id))))

  abbrev pub returns_texts :
      Result (List String) → Store F W → Result (Option (List String)) × Store F W
  returns_texts (ok texts) s = (ok (some texts), s)
  returns_texts (raised e) s = (raised e, s)

  unfoldable pub execute : Args → Store F W → Result (Option (List String)) × Store F W
  unfolding stream touched_texts gold freshness housekeeping backfill_layer
  execute args s =
      if str_eq args.action "bootstrap"
      then returns_none (jobs.create_tables s)
      else if str_eq args.action "stream"
      then returns_none (stream args s)
      else if str_eq args.action "touched"
      then returns_texts (touched_texts args s) s
      else if str_eq args.action "gold"
      then returns_none (gold args s)
      else if str_eq args.action "freshness"
      then returns_none
          (run_with (attribute "run_id" args.run_id) (freshness spark merge_attempts monitoring) s)
      else if str_eq args.action "housekeeping"
      then returns_none (
          run_with (attribute "step" args.step)
            (housekeeping spark merge_attempts jobs.housekeeping_settings) s)
      else if str_eq args.action "backfill"
      then returns_none (backfill_layer args s)
      else returns_none (refuse "Unknown job action" s)
