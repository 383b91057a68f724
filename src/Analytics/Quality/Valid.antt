-- ===== src/Analytics/Quality/Valid.antt =====
-- analytics/common/dq.py: only standard events reach Silver.
use tikblog_unsubscribe_plat.Base.{
  ℕ, ◌<◌, ◌≤◌, ◌≡◌, refl, ap, subst, not, inl, inr, String, Bool, true, false, Option, none, some,
  List, [], ◌∷◌, map, arith,
}
use tikblog_unsubscribe_plat.Base.Tests.{Bool-cases}
use tikblog_unsubscribe_plat.Base.Lists.{select, All, Any}
use tikblog_unsubscribe_plat.Base.Members.{All-imp, All-map, All-at}
use tikblog_unsubscribe_plat.Base.Floats.{Floats}
use tikblog_unsubscribe_plat.Analytics.Sql.{
  Truth, sql_and, is_true, is_not_null, not_blank, is_in, at_most,
}
use tikblog_unsubscribe_plat.Analytics.Status.{Monitoring}
use tikblog_unsubscribe_plat.Analytics.Lake.{Event, Lake, Spark, Store}
use tikblog_unsubscribe_plat.Analytics.Lake.Retried.{OthersKeep}
use tikblog_unsubscribe_plat.Analytics.Lake.Merged.{merge-All}
use tikblog_unsubscribe_plat.Analytics.Lake.{same_event}
use tikblog_unsubscribe_plat.Analytics.Quality.Checks.{
  Schema, checks, failing, is_empty, check_row, is_valid, known_sources, source_or_unknown, align,
}
use tikblog_unsubscribe_plat.Analytics.Quality
use tikblog_unsubscribe_plat.Analytics.Quality.Silver.{DropsDuplicates}
use tikblog_unsubscribe_plat.Analytics.Quality.Steps.{validate_and_merge-kept}
use tikblog_unsubscribe_plat.Analytics.Observed.Kept.{KeptByMonitoring}

-- The ids are there and not blank, the source is a known one, the time of the request is known and not
-- after `limit`, and the row was decoded.
pub record Standard (limit : ℕ) (e : Event) : Type 0 where
  pub event_id : not_blank e.event_id ≡ some true
  pub user_id : not_blank e.user_id ≡ some true
  pub writer_id : not_blank e.writer_id ≡ some true
  pub source : is_in known_sources e.source ≡ some true
  pub requested_at : (t : ℕ) × (e.requested_at ≡ some t) × (t ≤ limit)
  pub decode_error : e.decode_error ≡ none

abbrev pub AllStandard : {F : Type 0} → ℕ → Lake F → Type 0
AllStandard limit l = All (λ r. Standard limit r.event) l.silver

failing-none :
    (cs : List (String × Truth)) → is_empty (failing cs) ≡ true → All (λ c. is_true c.1 ≡ true) cs
unfolding failing
failing-none [] h = tt
failing-none (c ∷ cs) h = elim (Bool-cases (is_true c.1)) [
  | inl holds ↦ (holds, failing-none cs (rw (holds) at h))
  | inr fails ↦ absurd (ground arith)
]

is_true-true : (t : Truth) → is_true t ≡ true → t ≡ some true
is_true-true none h = cc
is_true-true (some b) h = ap some h

sql_and-right : (b : Bool) (t : Truth) → is_true (sql_and (some b) t) ≡ true → t ≡ some true
sql_and-right true t h = is_true-true t h
sql_and-right false t h = cc

known_source :
    (o : Option String)
    → is_in known_sources o ≡ some true
    → is_in known_sources (some (source_or_unknown o)) ≡ some true
unfolding is_in source_or_unknown
known_source none h = cc
known_source (some s) h = h

no_value : {A : Type 0} (o : Option A) → is_true (some (not (is_not_null o))) ≡ true → o ≡ none
no_value none h = refl
no_value (some a) h = cc

-- A comparison that holds is between values.
at_most_lem :
    (o : Option ℕ) (b limit : ℕ)
    → at_most o b ≡ some true
    → b ≤ limit
    → (t : ℕ) × (o ≡ some t) × (t ≤ limit)
unfolding at_most
at_most_lem none b limit h le = cc
at_most_lem (some t) b limit h le = (t, refl, ground (arith, h, le))

-- A row that passes the checks is standard.
check_row-Standard :
    (now limit : ℕ) (e : Event)
    → now ≤ limit
    → is_valid (check_row now e) ≡ true
    → Standard limit (check_row now e).event
unfolding check_row checks is_valid
check_row-Standard now limit e le h =
    let hold = failing-none (checks now e) h in
    record {
      event_id = sql_and-right (is_not_null e.event_id) (not_blank e.event_id) hold.0;
      user_id = sql_and-right (is_not_null e.user_id) (not_blank e.user_id) hold.1.0;
      writer_id = sql_and-right (is_not_null e.writer_id) (not_blank e.writer_id) hold.1.1.0;
      source = known_source e.source (is_true-true (is_in known_sources e.source) hold.1.1.1.0);
      requested_at =
          at_most_lem e.requested_at now limit
            (is_true-true (at_most e.requested_at now) hold.1.1.1.1.1.0) le;
      decode_error = no_value e.decode_error hold.1.1.1.1.1.1.0;
    }

module _ {F W : Type 0} ⦃fl : Floats F⦄ (spark : Spark F W) (n : ℕ) (monitoring : Monitoring F)
    (target : Schema) where
  checked-Standard :
      (now limit : ℕ) (align : Event → Event) (es : List Event)
      → now ≤ limit
      → All (λ c. Standard limit c.event) (select is_valid (map (λ e. check_row now (align e)) es))
  unfolding select
  checked-Standard now limit align [] le = tt
  checked-Standard now limit align (e ∷ es) le =
      elim (Bool-cases (is_valid (check_row now (align e)))) [
        | inl valid ↦ rw (valid) (
          check_row-Standard now limit (align e) le valid,
          checked-Standard now limit align es le,
        )
        | inr bad ↦ rw (bad) (checked-Standard now limit align es le)
      ]

  prepared-Standard :
      (now limit : ℕ) (es : List Event)
      → All (Standard limit) es
      → All (λ r. Standard limit r.event) (Quality.prepared_rows spark n monitoring target now es)
  unfolding Quality.prepared_rows
  prepared-Standard now limit es h = All-map (λ r. Standard limit r.event) _ es h

  valid_events-Standard :
      (now limit : ℕ) (batch : Quality.Batch)
      → now ≤ limit
      → All
          (Standard limit)
          (Quality.valid_events (Quality.checked_rows spark n monitoring target now batch))
  unfolding Quality.valid_events Quality.checked_rows
  valid_events-Standard now limit batch le =
      All-map (Standard limit) (λ c. c.event) _
        (checked-Standard now limit (align spark.to_json batch.schema target) batch.rows le)

  -- Whatever a call of `validate_and_merge` does, whether it returns or raises, all rows of Silver are
  -- standard afterwards, if all were before: their ids are there and not blank, their source is one of
  -- the three, the time of the request is known and not after `limit`, and there is no decode error.
  -- Here `limit` is any time that the clock of the call has not passed, such as the time of the call,
  -- by which a request is not in the future. It is assumed that
  -- `dropDuplicates` does what Spark documents, that other writers keep this too, and that a write is
  -- attempted at least once.
  pub validate_and_merge-AllStandard :
      (limit : ℕ)
      → DropsDuplicates spark
      → OthersKeep spark n (AllStandard limit)
      → 0 < n
      → (batch : Quality.Batch) (run_id pipeline : String) (s : Store F W)
      → spark.now s.world ≤ limit
      → AllStandard limit s.lake
      → AllStandard limit
          (Quality.validate_and_merge spark n monitoring target batch run_id pipeline s).1.lake
  validate_and_merge-AllStandard limit drops others some_attempt batch run_id pipeline s le h =
      let kept : KeptByMonitoring spark n (AllStandard limit) = record {
        others = others;
        results = λ l rows u. u;
        metrics = λ l rows u. u;
        alerts = λ l rows u. u;
      } in
      let valid =
        Quality.valid_events
          (Quality.checked_rows spark n monitoring target (spark.now s.world) batch) in
      let standard : All (Standard limit) (spark.drop_duplicates valid) =
        All-imp (λ e. Any (λ d. d ≡ e) valid) (Standard limit) (spark.drop_duplicates valid)
          (λ e found.
            All-at (Standard limit) (Standard limit e) valid (λ d. d ≡ e)
              (λ d holds same. subst (Standard limit) same holds)
              (valid_events-Standard (spark.now s.world) limit batch le) found)
          (drops.kept valid) in
      validate_and_merge-kept spark n monitoring target some_attempt (AllStandard limit) kept batch
        run_id pipeline s (λ rows l u. u)
        (λ now l u.
          merge-All same_event (λ r. Standard limit r.event) l.silver _ u
            (prepared-Standard now limit (spark.drop_duplicates valid) standard))
        h
