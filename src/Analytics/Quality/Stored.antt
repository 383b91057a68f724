-- ===== src/Analytics/Quality/Stored.antt =====
-- analytics/common/dq.py: what a call of `process_rows` that returns has stored.
use tikblog_unsubscribe_plat.Base.{
  ℕ, ◌<◌, ◌≡◌, refl, sym, ◌∙◌, subst, not, String, Bool, true, List, ◌&&◌,
}
use tikblog_unsubscribe_plat.Base.Tests.{str_eq, str_eq_refl}
use tikblog_unsubscribe_plat.Base.Errors.{ok}
use tikblog_unsubscribe_plat.Base.Lists.{select, All, Any}
use tikblog_unsubscribe_plat.Base.Members.{All-imp, Any-imp, All-at, All-unmap, All-found}
use tikblog_unsubscribe_plat.Base.Floats.{Floats}
use tikblog_unsubscribe_plat.Analytics.Sql.{
  same_text, same_text_refl, same_number_refl, same_text_iff,
}
use tikblog_unsubscribe_plat.Analytics.Status.{Monitoring}
use tikblog_unsubscribe_plat.Analytics.Lake.{
  Event, Quarantined, Lake, Spark, Store, same_event, same_quarantined, same_coordinates, merge,
}
use tikblog_unsubscribe_plat.Analytics.Lake.Retried.{Ends-ok}
use tikblog_unsubscribe_plat.Analytics.Lake.Merged.{merge-kept, merge-covers}
use tikblog_unsubscribe_plat.Analytics.Quality.Checks.{Schema, Checked, is_valid}
use tikblog_unsubscribe_plat.Analytics.Quality
use tikblog_unsubscribe_plat.Analytics.Quality.Silver.{DropsDuplicates}
use tikblog_unsubscribe_plat.Analytics.Quality.Steps.{process_rows-Ends}
use tikblog_unsubscribe_plat.Analytics.Observed.Kept.{KeptByMonitoring}

-- Other writers add rows to Silver and to the quarantine, and remove none.
pub record OthersAdd {F W : Type 0} (spark : Spark F W) : Type 0 where
  pub silver : (w : W) (l : Lake F) → All (λ r. Any (λ t. t ≡ r) (spark.others w l).silver) l.silver
  pub dq_quarantine :
      (w : W) (l : Lake F)
      → All (λ r. Any (λ t. t ≡ r) (spark.others w l).dq_quarantine) l.dq_quarantine

-- Silver has a row with the event id; the quarantine has one with the run and the Kafka coordinates.
abbrev pub InSilver : {F : Type 0} → Lake F → Event → Type 0
InSilver l e = Any (λ r. r.event.event_id ≡ e.event_id) l.silver

abbrev pub InQuarantine : {F : Type 0} → Lake F → String → Event → Type 0
InQuarantine l run_id e =
    Any (λ q. (str_eq q.run_id run_id && same_coordinates q.event e) ≡ true) l.dq_quarantine

Any-more :
    {A : Type 0} (P : A → Type 0) (xs ys : List A)
    → All (λ x. Any (λ y. y ≡ x) ys) xs
    → Any P xs
    → Any P ys
Any-more P xs ys more found =
    All-at (λ x. Any (λ y. y ≡ x) ys) (Any P ys) xs P
      (λ x there p. Any-imp (λ y. y ≡ x) P ys (λ y same. subst P (sym same) p) there) more found

same_quarantined_refl : (q : Quarantined) → same_quarantined q q ≡ true
same_quarantined_refl q =
    rw
      (
        str_eq_refl q.run_id,
        same_text_refl q.event.kafka_topic,
        same_number_refl q.event.kafka_partition,
        same_number_refl q.event.kafka_offset,
      )
      refl

module _ {F W : Type 0} ⦃fl : Floats F⦄ (spark : Spark F W) (n : ℕ) (monitoring : Monitoring F)
    (target : Schema) (adds : OthersAdd spark) (rows : List Checked)
    (run_id pipeline : String) where
  abbrev Quarantines : Lake F → Type 0
  Quarantines l = All (λ c. InQuarantine l run_id c.event) (select (λ c. not (is_valid c)) rows)

  abbrev Stores : Lake F → Type 0
  Stores l = All (λ e. InSilver l e) (spark.drop_duplicates (Quality.valid_events rows))

  Quarantines-more :
      (l l' : Lake F)
      → All (λ r. Any (λ t. t ≡ r) l'.dq_quarantine) l.dq_quarantine
      → Quarantines l
      → Quarantines l'
  Quarantines-more l l' more =
      All-imp (λ c. InQuarantine l run_id c.event) (λ c. InQuarantine l' run_id c.event) _
        (λ c. Any-more _ l.dq_quarantine l'.dq_quarantine more)

  Stores-more :
      (l l' : Lake F) → All (λ r. Any (λ t. t ≡ r) l'.silver) l.silver → Stores l → Stores l'
  Stores-more l l' more =
      All-imp (λ e. InSilver l e) (λ e. InSilver l' e) _ (λ e. Any-more _ l.silver l'.silver more)

  quarantine-Quarantines :
      (now : ℕ) (l : Lake F)
      → Quarantines (record l {
        dq_quarantine =
            merge same_quarantined l.dq_quarantine
              (Quality.quarantine_rows spark n monitoring target now run_id pipeline rows);
      })
  unfolding Quality.quarantine_rows
  quarantine-Quarantines now l =
      All-unmap
        (λ q. Any (λ t. same_quarantined t q ≡ true) (merge same_quarantined l.dq_quarantine _)) _
        (select (λ c. not (is_valid c)) rows)
        (merge-covers same_quarantined l.dq_quarantine _ same_quarantined_refl)

  merge-Stores :
      (now : ℕ) (l : Lake F)
      → Stores (record l {
        silver = merge same_event l.silver (
            Quality.prepared_rows spark n monitoring target now
              (spark.drop_duplicates (Quality.valid_events rows)));
      })
  unfolding Quality.prepared_rows
  merge-Stores now l =
      let es = spark.drop_duplicates (Quality.valid_events rows) in
      let prepared = Quality.prepared_rows spark n monitoring target now es in
      All-imp
        (λ e.
          Any (λ t. same_text t.event.event_id e.event_id ≡ true)
            (merge same_event l.silver prepared))
        (λ e. Any (λ t. t.event.event_id ≡ e.event_id) (merge same_event l.silver prepared)) es
        (λ e.
          Any-imp (λ t. same_text t.event.event_id e.event_id ≡ true)
            (λ t. t.event.event_id ≡ e.event_id) (merge same_event l.silver prepared)
            (λ t same. (same_text_iff t.event.event_id e.event_id).0 same))
        (All-unmap (λ s. Any (λ t. same_event t s ≡ true) (merge same_event l.silver prepared)) _ es
          (merge-covers same_event l.silver prepared (λ r. same_text_refl r.event.event_id)))

  merged-kept :
      {A : Type 0} (matches : A → A → Bool) (xs ys : List A)
      → All (λ r. Any (λ t. t ≡ r) (merge matches xs ys)) xs
  merged-kept matches xs ys =
      All-imp (λ r. Any (λ t. t ≡ r) xs) (λ r. Any (λ t. t ≡ r) (merge matches xs ys)) xs
        (λ r. merge-kept matches (λ t. t ≡ r) xs ys) (All-found xs)

  -- `process_rows` that returns has stored the valid rows and quarantined the others.
  pub process_rows-stored :
      0 < n
      → (s : Store F W)
      → (Quality.process_rows spark n monitoring target rows run_id pipeline s).0 ≡ ok tt
      → Quarantines (Quality.process_rows spark n monitoring target rows run_id pipeline s).1.lake
        × Stores (Quality.process_rows spark n monitoring target rows run_id pipeline s).1.lake
  process_rows-stored some_attempt s returns =
      let others_quarantine : (w : W) (l : Lake F)
          → Quarantines l
          → Quarantines (spark.others w l) =
        λ w l. Quarantines-more l (spark.others w l) (adds.dq_quarantine w l) in
      let none_before : KeptByMonitoring spark n (λ l. Unit {0}) = record {
        others = λ w l u. u;
        results = λ l rs u. u;
        metrics = λ l rs u. u;
        alerts = λ l rs u. u;
      } in
      let then_quarantined : KeptByMonitoring spark n Quarantines = record {
        others = others_quarantine;
        results = λ l rs u. u;
        metrics = λ l rs u. u;
        alerts = λ l rs u. u;
      } in
      let then_stored : KeptByMonitoring spark n (λ l. Quarantines l × Stores l) = record {
        others = λ w l both. (
          others_quarantine w l both.0,
          Stores-more l (spark.others w l) (adds.silver w l) both.1,
        );
        results = λ l rs u. u;
        metrics = λ l rs u. u;
        alerts = λ l rs u. u;
      } in
      let end =
        process_rows-Ends spark n monitoring target some_attempt (λ l. Unit {0}) Quarantines
          (λ l. Quarantines l × Stores l) none_before then_quarantined then_stored (λ l q. tt)
          (λ l both. both.0) rows run_id pipeline (λ now l u. quarantine-Quarantines now l)
          (λ now l q. (q, merge-Stores now l)) s tt in
      let run = Quality.process_rows spark n monitoring target rows run_id pipeline s in
      (Ends-ok spark n (λ l. Unit {0}) (λ l. Quarantines l × Stores l) run end returns).1

  -- With one row for each id stored, every valid row has its id stored.
  pub stored-InSilver :
      (l : Lake F)
      → DropsDuplicates spark
      → Stores l
      → All (λ c. InSilver l c.event) (select is_valid rows)
  unfolding Quality.valid_events
  stored-InSilver l drops stored =
      let valid = Quality.valid_events rows in
      All-unmap (λ e. InSilver l e) (λ c. c.event) (select is_valid rows)
        (All-imp (λ e. Any (λ d. d.event_id ≡ e.event_id) (spark.drop_duplicates valid))
          (λ e. InSilver l e) valid
          (λ e.
            All-at (λ d. InSilver l d) (InSilver l e) (spark.drop_duplicates valid)
              (λ d. d.event_id ≡ e.event_id)
              (λ d found same.
                Any-imp (λ r. r.event.event_id ≡ d.event_id) (λ r. r.event.event_id ≡ e.event_id)
                  l.silver (λ r h. h ∙ same) found)
              stored)
          (drops.covered valid))
