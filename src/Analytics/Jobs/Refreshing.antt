-- ===== src/Analytics/Jobs/Refreshing.antt =====
-- analytics/jobs/main.py and airflow/dags/analytics_tasks.py: `find_touched_dates` hands the dates as
-- texts to `rebuild_gold_dates`.
use tikblog_unsubscribe_plat.Base.{
  ℕ, ◌<◌, ◌≤◌, ◌≡◌, refl, sym, ap, ◌∙◌, subst, String, Option, none, some, List, [], ◌∷◌, map,
}
use tikblog_unsubscribe_plat.Base.Tests.{str_eq}
use tikblog_unsubscribe_plat.Base.Floats.{Floats}
use tikblog_unsubscribe_plat.Base.Lists.{All}
use tikblog_unsubscribe_plat.Base.Errors.{Result, ok, raised, ◌>>=◌}
use tikblog_unsubscribe_plat.Analytics.Status.{Monitoring}
use tikblog_unsubscribe_plat.Analytics.Lake.{Lake, Spark, Store}
use tikblog_unsubscribe_plat.Analytics.Gold
use tikblog_unsubscribe_plat.Analytics.Gold.Refreshed.{FindsDistinct}
use tikblog_unsubscribe_plat.Analytics.Gold.Fresh.{Shows, refresh-Shows}
use tikblog_unsubscribe_plat.Analytics.Jobs
use tikblog_unsubscribe_plat.Analytics.Jobs.{Args, isoformats, dates_of, attribute}

-- A chain that returns has a first result.
bind-ok :
    {A B : Type 0} (r : Result A) (f : A → Result B) (b : B)
    → (r >>= f) ≡ ok b
    → (a : A) × (r ≡ ok a) × (f a ≡ ok b)
bind-ok (ok a) f b h = (a, refl, h)
bind-ok (raised e) f b h = cc

-- Dates that can be written are no NULLs, and are read back.
isoformats-dates_of :
    (isoformat : ℕ → String) (date_of : String → Result ℕ)
    → ((d : ℕ) → date_of (isoformat d) ≡ ok d)
    → (ds : List (Option ℕ)) (texts : List String) → isoformats isoformat ds ≡ ok texts
    → (days : List ℕ) × (ds ≡ map some days) × (dates_of date_of texts ≡ ok days)
unfolding isoformats dates_of
isoformats-dates_of isoformat date_of back [] texts h =
    let none_left : ok [] ≡ ok texts = h in ([], refl, read_nothing texts none_left)
  where
    read_nothing : (ts : List String) → ok [] ≡ ok ts → dates_of date_of ts ≡ ok []
    read_nothing [] e = refl
    read_nothing (t ∷ ts) e = cc
isoformats-dates_of isoformat date_of back (none ∷ ds) texts h = cc
isoformats-dates_of isoformat date_of back (some d ∷ ds) texts h =
    let (ts, rest, here) =
      bind-ok (isoformats isoformat ds) (λ ts. ok (isoformat d ∷ ts)) texts h in
    let (days, same, read) = isoformats-dates_of isoformat date_of back ds ts rest in
    let text : isoformat d ∷ ts ≡ texts = cc in
    (
      d ∷ days,
      ap (λ xs. some d ∷ xs) same,
      subst (λ xs. dates_of date_of xs ≡ ok (d ∷ days)) text (rw (back d, read) refl),
    )

module _ {F W : Type 0} ⦃fl : Floats F⦄ (spark : Spark F W) (n : ℕ) (monitoring : Monitoring F)
    (jobs : Jobs.Jobs F W) where
  returns_texts-ok :
      (r : Result (List String)) (s : Store F W) (texts : List String)
      → (Jobs.returns_texts spark n monitoring jobs r s).0 ≡ ok (some texts)
      → r ≡ ok texts
  returns_texts-ok (ok ts) s texts h = cc
  returns_texts-ok (raised e) s texts h = cc

  returns_none-ok :
      (p : Result {0} Unit × Store F W)
      → (Jobs.returns_none p).0 ≡ ok none
      → (p.0 ≡ ok tt) × ((Jobs.returns_none p).1 ≡ p.1)
  returns_none-ok (ok u, s) h = (refl, refl)
  returns_none-ok (raised e, s) h = cc

  execute-touched :
      (args : Args) (s : Store F W)
      → args.action ≡ "touched"
      → Jobs.execute spark n monitoring jobs args s
        ≡ Jobs.returns_texts spark n monitoring jobs
            (Jobs.touched_texts spark n monitoring jobs args s)
            s
  unfolding Jobs.execute str_eq
  execute-touched args s action = rw (action, Jobs.execute) refl

  execute-gold :
      (args : Args) (s : Store F W)
      → args.action ≡ "gold"
      → Jobs.execute spark n monitoring jobs args s
        ≡ Jobs.returns_none (Jobs.gold spark n monitoring jobs args s)
  unfolding Jobs.execute str_eq
  execute-gold args s action = rw (action, Jobs.execute) refl

  touched_texts-dates :
      (args : Args) (s : Store F W) (texts : List String)
      → Jobs.touched_texts spark n monitoring jobs args s ≡ ok texts
      → (start : ℕ) × (end : ℕ) × (isoformats jobs.isoformat
            (Gold.touched spark n monitoring jobs.gold_lookback_minutes start end s.lake)
          ≡ ok texts)
  unfolding Jobs.touched_texts
  touched_texts-dates args s texts h =
      let (t1, e1, h1) = bind-ok (attribute "start" args.start) _ texts h in
      let (start, e2, h2) = bind-ok (jobs.datetime_of t1) _ texts h1 in
      let (t2, e3, h3) = bind-ok (attribute "end" args.end) _ texts h2 in
      let (end, e4, h4) = bind-ok (jobs.datetime_of t2) _ texts h3 in (start, end, h4)

  gold-refresh :
      (args : Args) (s : Store F W) (texts : List String) (run_id : String) (days : List ℕ)
      → args.dates ≡ some texts
      → args.run_id ≡ some run_id
      → dates_of jobs.date_of texts ≡ ok days
      → Jobs.gold spark n monitoring jobs args s ≡ Gold.refresh spark n monitoring days run_id s
  unfolding Jobs.gold
  gold-refresh args s texts run_id days dates run read = simp (dates, run, read, Jobs.gold)

  -- The task `find_touched_dates` asks for the action touched and hands the texts it gets to
  -- `rebuild_gold_dates`, which asks for the action gold with them. If both requests return, every Silver
  -- row has a Gold row of its date and source afterwards that is not older than it. It is assumed that
  -- an ISO date is read back as it was written, that nothing changes between the requests, that no
  -- Silver row is later than the time of the refresh, that `distinct` and `groupBy` find what Spark
  -- documents, that no other writer touches Silver or Gold meanwhile (the lock), and that a write is
  -- attempted at least once.
  pub execute-Shows :
      FindsDistinct spark
      → ((w : W) (l : Lake F)
          → ((spark.others w l).gold ≡ l.gold) × ((spark.others w l).silver ≡ l.silver))
      → 0 < n
      → ((d : ℕ) → jobs.date_of (jobs.isoformat d) ≡ ok d)
      → (find rebuild : Args) (texts : List String) (run_id : String) (s : Store F W)
      → find.action ≡ "touched"
      → rebuild.action ≡ "gold"
      → rebuild.dates ≡ some texts
      → rebuild.run_id ≡ some run_id
      → All (λ r. r.silver_processed_at ≤ spark.now s.world) s.lake.silver
      → (Jobs.execute spark n monitoring jobs find s).0 ≡ ok (some texts)
      → (Jobs.execute spark n monitoring jobs rebuild s).0 ≡ ok none
      → All
          (Shows (Jobs.execute spark n monitoring jobs rebuild s).1.lake.gold)
          (Jobs.execute spark n monitoring jobs rebuild s).1.lake.silver
  execute-Shows distinct alone some_attempt back find rebuild texts run_id s finds rebuilds dates
        run older found returned =
      let found_texts =
        returns_texts-ok (Jobs.touched_texts spark n monitoring jobs find s) s texts
          (ap (λ p. p.0) (sym (execute-touched find s finds)) ∙ found) in
      let (start, end, written) = touched_texts-dates find s texts found_texts in
      let (days, touches, read) =
        isoformats-dates_of jobs.isoformat jobs.date_of back
          (Gold.touched spark n monitoring jobs.gold_lookback_minutes start end s.lake) texts
          written in
      let run_of_gold = Jobs.gold spark n monitoring jobs rebuild s in
      let same : Jobs.execute spark n monitoring jobs rebuild s ≡ Jobs.returns_none run_of_gold =
        execute-gold rebuild s rebuilds in
      let ends = returns_none-ok run_of_gold (ap (λ p. p.0) (sym same) ∙ returned) in
      let refreshes = gold-refresh rebuild s texts run_id days dates run read in
      let store : (Jobs.execute spark n monitoring jobs rebuild s).1
          ≡ (Gold.refresh spark n monitoring days run_id s).1 =
        ap (λ p. p.1) same ∙ (ends.1 ∙ ap (λ p. p.1) refreshes) in
      subst (λ st. All (Shows st.lake.gold) st.lake.silver) (sym store)
        (refresh-Shows spark n monitoring distinct jobs.gold_lookback_minutes start end alone
          some_attempt days run_id s touches older (ap (λ p. p.0) (sym refreshes) ∙ ends.0))
