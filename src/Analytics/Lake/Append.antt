-- ===== src/Analytics/Lake/Append.antt =====
-- analytics/common/delta.py: `append_bronze` of a micro-batch that the table has taken already.
use tikblog_unsubscribe_plat.Base.{
  ℕ, ◌<◌, ◌≤◌, ◌≡◌, refl, sym, ◌∙◌, subst, inl, inr, String, false, Option, none, some, List, arith,
}
use tikblog_unsubscribe_plat.Base.Tests.{str_eq_refl, Bool-cases}
use tikblog_unsubscribe_plat.Base.Errors.{ok}
use tikblog_unsubscribe_plat.Analytics.Lake
use tikblog_unsubscribe_plat.Analytics.Lake.{
  Event, Bronze, Channel, priority, legal, Lake, Spark, Store, bronze_of, last_version, append_once,
  is_new_version,
}
use tikblog_unsubscribe_plat.Analytics.Lake.Retried.{OthersKeep, Ends-ok, Ends-kept, retried-Ends}

-- The table has taken this version, or a later one.
abbrev pub TakenVersion : Option ℕ → ℕ → Type 0
TakenVersion none n = ⊥
TakenVersion (some last) n = n ≤ last

abbrev pub Taken : String → ℕ → Bronze → Type 0
Taken app version b = TakenVersion (last_version app b.transactions) version

is_new_version-TakenVersion : (o : Option ℕ) (n : ℕ) → is_new_version o n ≡ false → TakenVersion o n
is_new_version-TakenVersion none n h = cc
is_new_version-TakenVersion (some last) n h = ground arith

TakenVersion-is_new_version : (o : Option ℕ) (n : ℕ) → TakenVersion o n → is_new_version o n ≡ false
TakenVersion-is_new_version none n h = absurd h
TakenVersion-is_new_version (some last) n h = ground arith

pub append_once-Taken :
    (rows : List Event) (app : String) (n : ℕ) (b : Bronze) → Taken app n (append_once rows app n b)
unfolding append_once last_version
append_once-Taken rows app n b =
    elim (Bool-cases (is_new_version (last_version app b.transactions) n)) [
      | inl new ↦ rw (new, str_eq_refl app) (omega arith)
      | inr old ↦ rw (old) (is_new_version-TakenVersion (last_version app b.transactions) n old)
    ]

pub append_once-skips :
    (rows : List Event) (app : String) (n : ℕ) (b : Bronze)
    → Taken app n b
    → append_once rows app n b ≡ b
unfolding append_once
append_once-skips rows app n b taken =
    rw (TakenVersion-is_new_version (last_version app b.transactions) n taken) refl

pub bronze_of-set :
    {F : Type 0} (channel : Channel) (b : Bronze) (l : Lake F)
    → bronze_of channel (Lake.set_bronze channel b l) ≡ b
bronze_of-set priority b l = refl
bronze_of-set legal b l = refl

module _ {F W : Type 0} (spark : Spark F W) (n : ℕ) (some_attempt : 0 < n) (channel : Channel)
    (app : String) (version : ℕ) where
  -- An append that returns has left its version taken.
  pub append_bronze-Taken :
      OthersKeep spark n (λ l. Taken app version (bronze_of channel l))
      → (rows : List Event) (s : Store F W)
      → (Lake.append_bronze spark n channel rows app version s).0 ≡ ok tt
      → Taken app version
          (bronze_of channel (Lake.append_bronze spark n channel rows app version s).1.lake)
  unfolding Lake.append_bronze
  append_bronze-Taken others rows s returns =
      let TakenHere : Lake F → Type 0 = λ l. Taken app version (bronze_of channel l) in
      (Ends-ok spark n (λ l. Unit {0}) TakenHere
        (Lake.append_bronze spark n channel rows app version s)
        (retried-Ends spark n (λ l. Unit {0}) TakenHere (λ w l u. tt) _
          (λ l u. (
            tt,
            subst (Taken app version)
                (sym (bronze_of-set channel (append_once rows app version (bronze_of channel l)) l))
                (append_once-Taken rows app version (bronze_of channel l)),
          ))
          s some_attempt tt)
        returns).1

  -- Once a call of `append_bronze` for a run and a micro-batch has returned, a second call for the same
  -- run and micro-batch leaves the Bronze table of its channel as it is, whatever rows it brings and
  -- whether it returns or raises: Delta has recorded the pair as the transaction's id. It is assumed that
  -- other writers leave the table of this channel alone and that a write is attempted at least once.
  pub append_bronze-again :
      ((w : W) (l : Lake F) → bronze_of channel (spark.others w l) ≡ bronze_of channel l)
      → (rows rows' : List Event) (s : Store F W)
      → (Lake.append_bronze spark n channel rows app version s).0 ≡ ok tt
      → bronze_of channel
          (Lake.append_bronze spark n channel rows' app version
            (Lake.append_bronze spark n channel rows app version s).1).1.lake
        ≡ bronze_of channel (Lake.append_bronze spark n channel rows app version s).1.lake
  unfolding Lake.append_bronze
  append_bronze-again alone rows rows' s returns =
      let TakenHere : Lake F → Type 0 = λ l. Taken app version (bronze_of channel l) in
      let s' = (Lake.append_bronze spark n channel rows app version s).1 in
      let before = bronze_of channel s'.lake in
      let Same : Lake F → Type 0 = λ l. bronze_of channel l ≡ before in
      let taken =
        append_bronze-Taken (λ w l h. subst (Taken app version) (sym (alone w l)) h) rows s
          returns in
      Ends-kept spark n Same Same (Lake.append_bronze spark n channel rows' app version s') (
        retried-Ends spark n Same Same (λ w l same. alone w l ∙ same) _
          (λ l same.
            let skipped =
              bronze_of-set channel (append_once rows' app version (bronze_of channel l)) l
              ∙ (append_once-skips rows' app version (bronze_of channel l)
                    (subst (Taken app version) (sym same) taken)
                  ∙ same) in
            (skipped, skipped))
          s' some_attempt refl)
