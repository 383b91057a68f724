-- ===== src/Analytics/Lake/Returns.antt =====
-- analytics/common/delta.py: a write that meets few enough conflicts is made.
use tikblog_unsubscribe_plat.Base.{
  ℕ, zero, suc, ◌+◌, ◌<◌, ◌≡◌, refl, sym, ap, ◌∙◌, subst, ◌⊎◌, inl, inr, ◌∷◌, ◌++◌, String, true,
  false, Option, none, some, List, [], arith,
}
use tikblog_unsubscribe_plat.Base.Tests.{◌==◌}
use tikblog_unsubscribe_plat.Base.Lists.{any}
use tikblog_unsubscribe_plat.Base.Errors.{Result, ok, raised, Exn}
use tikblog_unsubscribe_plat.Analytics.Retry
use tikblog_unsubscribe_plat.Analytics.Retry.{Run, retry_from, is_conflict}
use tikblog_unsubscribe_plat.Analytics.Lake
use tikblog_unsubscribe_plat.Analytics.Lake.{
  Event, Channel, Bronze, Lake, Spark, Store, bronze_of, settled, transact, retried, append_once,
  last_version, is_new_version,
}
use tikblog_unsubscribe_plat.Analytics.Lake.Retried.{Ends-ok, retried-Ends}
use tikblog_unsubscribe_plat.Analytics.Lake.Append.{
  Taken, append_once-Taken, append_once-skips, bronze_of-set,
}

module _ {F W : Type 0} (spark : Spark F W) (n : ℕ) where
  -- The next `k` commits fail with conflicts, and the one after them succeeds.
  abbrev pub Conflicts : ℕ → W → Type 0
  Conflicts zero w = (spark.commit w).0 ≡ none
  Conflicts (suc k) w =
      ((e : Exn) × ((spark.commit w).0 ≡ some e)
        × (any (λ name. spark.contains name e.message) Retry.conflict_names ≡ true))
      × Conflicts k (spark.commit w).1

  module _ (change : Lake F → Lake F) where
    transact-commits :
        (s : Store F W) → (spark.commit s.world).0 ≡ none → (transact spark n change s).0 ≡ ok tt
    unfolding transact
    transact-commits s h = simp (h, transact)

    transact-fails :
        (s : Store F W) (e : Exn)
        → (spark.commit s.world).0 ≡ some e
        → ((transact spark n change s).0 ≡ raised e)
          × ((transact spark n change s).1.world ≡ (spark.commit s.world).1)
    unfolding transact
    transact-fails s e h = (simp (h, transact), simp (h, transact))

    abbrev Done : Result (Option (Unit {0})) × Run (Store F W) → Type 0
    Done p = p.0 ≡ ok (some tt)

    retry_from-Done :
        (k left attempt : ℕ) (run : Run (Store F W))
        → left + attempt ≡ n
        → k < left
        → Conflicts k run.world.world
        → Done (retry_from spark.contains (transact spark n change) n left attempt run)
    unfolding Retry.is_conflict
    retry_from-Done k zero attempt run total few conflicts = absurd (omega arith)
    retry_from-Done zero (suc left) attempt run total few conflicts =
        rw
          (Retry.retry_from-ok spark.contains (transact spark n change) n left attempt run tt
            (transact-commits run.world conflicts))
          refl
    retry_from-Done (suc k) (suc left) attempt run total few ((e, fails, conflict), later) =
        let fail = transact-fails run.world e fails in
        let more : attempt + 1 == n ≡ false = ground arith in
        rw
          (Retry.retry_from-again spark.contains (transact spark n change) n left attempt run e
            fail.0 (rw (conflict) (ground (arith, more))))
          (retry_from-Done k left (attempt + 1) _ (omega arith) (omega arith)
            (subst (Conflicts k) (sym fail.1) later))

    settled-ok : (p : Result (Option (Unit {0})) × Run (Store F W)) → Done p → (settled p).0 ≡ ok tt
    settled-ok (ok u, run) h = refl
    settled-ok (raised e, run) h = cc

    -- A write that meets fewer conflicts than it has attempts returns.
    pub retried-returns :
        (k : ℕ) (s : Store F W) → k < n → Conflicts k s.world → (retried spark n change s).0 ≡ ok tt
    unfolding retried Retry.retry
    retried-returns k s few conflicts = settled-ok _ (
        retry_from-Done k n 0 (record { world = s; calls = 0; slept = []; raises = [] })
          (omega arith) few conflicts)

  -- What Bronze holds once it has taken a micro-batch.
  abbrev pub with_batch : List Event → String → ℕ → Bronze → Bronze
  with_batch rows app version b = record {
    rows = b.rows ++ rows;
    transactions = (app, version) ∷ b.transactions;
  }

  append_once-with_batch :
      (rows : List Event) (app : String) (version : ℕ) (b : Bronze)
      → is_new_version (last_version app b.transactions) version ≡ true
      → append_once rows app version b ≡ with_batch rows app version b
  unfolding append_once
  append_once-with_batch rows app version b new = rw (new) refl

  -- A micro-batch is written to Bronze in the end: if the next commits fail with conflicts of concurrent
  -- transactions, fewer than the attempts that the configuration allows, and the one after them
  -- succeeds, then `append_bronze` returns. If the table of its channel has not taken this version of
  -- the run before, it then holds its former rows followed by all rows of the micro-batch, each once,
  -- and has recorded the version. It is assumed that other writers leave the table of this channel
  -- alone.
  pub append_bronze-returns :
      (channel : Channel) (app : String) (version : ℕ)
      → ((w : W) (l : Lake F) → bronze_of channel (spark.others w l) ≡ bronze_of channel l)
      → (rows : List Event) (k : ℕ) (s : Store F W)
      → is_new_version (last_version app (bronze_of channel s.lake).transactions) version ≡ true
      → k < n
      → Conflicts k s.world
      → let (r, s') = Lake.append_bronze spark n channel rows app version s in
        let before = bronze_of channel s.lake in
        (r ≡ ok tt)
        × (bronze_of channel s'.lake ≡ record {
          rows = before.rows ++ rows;
          transactions = (app, version) ∷ before.transactions;
        })
  unfolding Lake.append_bronze
  append_bronze-returns channel app version alone rows k s new few conflicts =
      let before = bronze_of channel s.lake in
      let after = with_batch rows app version before in
      let append : Bronze → Bronze = append_once rows app version in
      let write : Lake F → Lake F = λ l. Lake.set_bronze channel (append (bronze_of channel l)) l in
      let first : append before ≡ after = append_once-with_batch rows app version before new in
      let second : append after ≡ after =
        append_once-skips rows app version after
          (subst (Taken app version) first (append_once-Taken rows app version before)) in
      let I : Lake F → Type 0 =
        λ l. (bronze_of channel l ≡ before) ⊎ (bronze_of channel l ≡ after) in
      let J : Lake F → Type 0 = λ l. bronze_of channel l ≡ after in
      let appended : (b : Bronze) → (b ≡ before) ⊎ (b ≡ after) → append b ≡ after =
        λ b. elim [ inl fresh ↦ ap append fresh ∙ first | inr there ↦ ap append there ∙ second ] in
      let returns = retried-returns write k s few conflicts in
      let some_attempt : 0 < n = omega (arith, few) in
      let end =
        Ends-ok spark n I J (Lake.append_bronze spark n channel rows app version s)
          (retried-Ends spark n I J
            (λ w l h. subst (λ b. (b ≡ before) ⊎ (b ≡ after)) (sym (alone w l)) h) write
            (λ l h.
              let there =
                bronze_of-set channel (append (bronze_of channel l)) l
                ∙ appended (bronze_of channel l) h in
              (inr there, there))
            s some_attempt (inl refl))
          returns in
      (returns, end.1)
