-- ===== src/Samples/Refreshes.antt =====
-- Runs of a refresh of Gold.
use tikblog_unsubscribe_plat.Base.{ℕ, ◌≡◌, refl, true, [], ◌∷◌, arith}
use tikblog_unsubscribe_plat.Base.Tests.{str_eq}
use tikblog_unsubscribe_plat.Base.Lists.{All, select, any}
use tikblog_unsubscribe_plat.Base.Errors.{ok}
use tikblog_unsubscribe_plat.Analytics.Lake
use tikblog_unsubscribe_plat.Analytics.Retry
use tikblog_unsubscribe_plat.Analytics.Lake.{
  Event, SilverRow, Lake, Spark, Store, Channel, priority, bronze_of,
}
use tikblog_unsubscribe_plat.Analytics.Lake.Retried.{Ends}
use tikblog_unsubscribe_plat.Analytics.Gold
use tikblog_unsubscribe_plat.Analytics.Gold.Groups.{group_of, joins}
use tikblog_unsubscribe_plat.Analytics.Gold.Refreshed.{Kept}
use tikblog_unsubscribe_plat.Analytics.Gold.Counts.{Agrees, refresh-Agrees}
use tikblog_unsubscribe_plat.Analytics.Gold.Reconciled.{Reconciled, overwrite-reconciliation}
use tikblog_unsubscribe_plat.Samples.Db.{counting}
use tikblog_unsubscribe_plat.Samples.Operations.{monitoring}
use tikblog_unsubscribe_plat.Samples.Warehouse.{warehouse, finds, texts_covered, filled}

pub alone :
    (w : ℕ) (l : Lake ℕ)
    → ((warehouse.others w l).gold ≡ l.gold) × ((warehouse.others w l).silver ≡ l.silver)
alone w l = (refl, refl)

refresh-Agrees_example :
    Ends warehouse 3
      (Kept warehouse 3 monitoring finds (7 ∷ []) filled.lake)
      (Agrees warehouse 3 monitoring finds (7 ∷ []) filled.lake)
      (Gold.refresh warehouse 3 monitoring (7 ∷ []) "run" filled)
refresh-Agrees_example =
    refresh-Agrees warehouse 3 monitoring finds alone (omega arith) 7 [] "run" filled

named :
    All
      (λ r. joins (group_of r) (group_of r) ≡ true)
      (Gold.events_on warehouse 3 monitoring (7 ∷ []) filled.lake)
unfolding Gold.events_on select any str_eq
named = (refl, tt)

overwritten : (Gold.overwrite warehouse 3 monitoring (7 ∷ []) filled).0 ≡ ok tt
unfolding Gold.overwrite Lake.retried Lake.transact Retry.retry Retry.retry_from Retry.call
    Retry.is_conflict any str_eq
overwritten = refl

overwrite-reconciliation_example :
    let actual =
      Gold.gold_on warehouse 3 monitoring
        (7 ∷ [])
        (Gold.overwrite warehouse 3 monitoring (7 ∷ []) filled).1.lake in
    let counts = Gold.fresh_rows warehouse 3 monitoring (7 ∷ []) filled in
    (actual ≡ counts) × Reconciled warehouse 3 monitoring finds "run" actual counts
overwrite-reconciliation_example =
    overwrite-reconciliation warehouse 3 monitoring finds texts_covered alone (omega arith) (7 ∷ [])
      "run" filled named overwritten
