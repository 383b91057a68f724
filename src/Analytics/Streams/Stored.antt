-- ===== src/Analytics/Streams/Stored.antt =====
-- analytics/jobs/streams.py: a micro-batch that a stream has processed is in Bronze.
use tikblog_unsubscribe_plat.Base.{
  ℕ, ◌<◌, ◌≡◌, refl, sym, ap, ◌∙◌, subst, ◌⊎◌, inl, inr, String, true, Option, none, some, List, [],
  ◌∷◌, ◌++◌,
}
use tikblog_unsubscribe_plat.Base.Tests.{Bool-cases}
use tikblog_unsubscribe_plat.Base.Errors.{Result, ok, raised}
use tikblog_unsubscribe_plat.Base.Lists.{All, Any, Any-append_left, Any-append_right}
use tikblog_unsubscribe_plat.Base.Members.{All-imp}
use tikblog_unsubscribe_plat.Base.Floats.{Floats}
use tikblog_unsubscribe_plat.Analytics.Status.{Monitoring}
use tikblog_unsubscribe_plat.Analytics.Lake
use tikblog_unsubscribe_plat.Analytics.Lake.{
  Event, Bronze, Channel, Lake, Spark, Store, bronze_of, append_once, last_version, is_new_version,
}
use tikblog_unsubscribe_plat.Analytics.Lake.Retried.{Ends-ok, retried-Ends, raised_ok}
use tikblog_unsubscribe_plat.Analytics.Lake.Append.{bronze_of-set}
use tikblog_unsubscribe_plat.Analytics.Decode.{Message, Decoder, decode}
use tikblog_unsubscribe_plat.Analytics.Decode.Complete.{
  FindsIds, IsRowOf, Complete, decode-Complete,
}
use tikblog_unsubscribe_plat.Analytics.Streams

append_once-new :
    (rows : List Event) (app : String) (n : ℕ) (b : Bronze)
    → is_new_version (last_version app b.transactions) n ≡ true
    → (append_once rows app n b).rows ≡ b.rows ++ rows
unfolding append_once
append_once-new rows app n b new = rw (new) refl

-- Rows of the table stay.
append_once-kept :
    (P : Event → Type 0) (rows : List Event) (app : String) (n : ℕ) (b : Bronze)
    → Any P b.rows
    → Any P (append_once rows app n b).rows
unfolding append_once
append_once-kept P rows app n b found =
    elim (Bool-cases (is_new_version (last_version app b.transactions) n)) [
      | inl new ↦ rw (new) (Any-append_left P b.rows rows found)
      | inr old ↦ rw (old) found
    ]

-- Every message of a batch has its row in the Bronze table of a channel.
abbrev pub InBronze : {F : Type 0} → Decoder → Channel → List Message → Lake F → Type 0
InBronze decoder channel batch l =
    All (λ m. Any (IsRowOf decoder m) (bronze_of channel l).rows) batch

module _ {F W : Type 0} ⦃fl : Floats F⦄ (spark : Spark F W) (n : ℕ) (monitoring : Monitoring F)
    (decoder : Decoder) (channel : Channel) (some_attempt : 0 < n)
    (alone : (w : W) (l : Lake F)
      → bronze_of channel (spark.others w l) ≡ bronze_of channel l) where
  append_bronze-InBronze :
      (batch : List Message) (rows : List Event) (app : String) (version : ℕ) (s : Store F W)
      → All (λ m. Any (IsRowOf decoder m) rows) batch
      → is_new_version (last_version app (bronze_of channel s.lake).transactions) version ≡ true
      → (Lake.append_bronze spark n channel rows app version s).0 ≡ ok tt
      → InBronze decoder channel batch
          (Lake.append_bronze spark n channel rows app version s).1.lake
  unfolding Lake.append_bronze
  append_bronze-InBronze batch rows app version s covered new returns =
      let before = bronze_of channel s.lake in
      let Table : Bronze → Type 0 = λ b. All (λ m. Any (IsRowOf decoder m) b.rows) batch in
      let I : Lake F → Type 0 = λ l. (bronze_of channel l ≡ before) ⊎ Table (bronze_of channel l) in
      let J : Lake F → Type 0 = λ l. Table (bronze_of channel l) in
      let appended : (b : Bronze)
          → (b ≡ before) ⊎ Table b
          → Table (append_once rows app version b) =
        λ b. elim [
          | inl same ↦
              subst (λ xs. All (λ m. Any (IsRowOf decoder m) xs) batch)
                (sym (
                  append_once-new rows app version b (
                    ap (λ t. is_new_version (last_version app t.transactions) version) same ∙ new)))
                (All-imp (λ m. Any (IsRowOf decoder m) rows)
                  (λ m. Any (IsRowOf decoder m) (b.rows ++ rows)) batch
                  (λ m. Any-append_right (IsRowOf decoder m) b.rows rows) covered)
          | inr there ↦
              All-imp (λ m. Any (IsRowOf decoder m) b.rows)
                (λ m. Any (IsRowOf decoder m) (append_once rows app version b).rows) batch
                (λ m. append_once-kept (IsRowOf decoder m) rows app version b) there
        ] in
      let write : Lake F → Lake F =
        λ l. Lake.set_bronze channel (append_once rows app version (bronze_of channel l)) l in
      (Ends-ok spark n I J (Lake.append_bronze spark n channel rows app version s)
        (retried-Ends spark n I J (λ w l h. subst (λ b. (b ≡ before) ⊎ Table b) (sym (alone w l)) h)
          write
          (λ l h.
            let there =
              subst Table
                (sym (bronze_of-set channel (append_once rows app version (bronze_of channel l)) l))
                (appended (bronze_of channel l) h) in
            (inr there, there))
          s some_attempt (inl refl))
        returns).1

  append_decoded-InBronze :
      (batch : List Message) (identity : String) (batch_id : ℕ) (s : Store F W)
      (r : Result (Option (List Event)))
      → Complete decoder batch r
      → is_new_version (last_version identity (bronze_of channel s.lake).transactions) batch_id
        ≡ true
      → (Streams.append_decoded spark n monitoring channel identity batch_id r s).0 ≡ ok tt
      → InBronze decoder channel batch
          (Streams.append_decoded spark n monitoring channel identity batch_id r s).1.lake
  append_decoded-InBronze batch identity batch_id s (raised e) complete new returns =
      absurd (raised_ok returns)
  append_decoded-InBronze batch identity batch_id s (ok none) complete new returns =
      subst (λ ms. InBronze decoder channel ms s.lake) (sym complete) tt
  append_decoded-InBronze batch identity batch_id s (ok (some rows)) complete new returns =
      append_bronze-InBronze batch rows identity batch_id s complete.1.0 new returns

  -- When a stream has processed a micro-batch of Kafka messages that its Bronze table has not taken
  -- yet, and no exception was raised, the table holds a row for every message, with its topic, partition,
  -- offset and raw value, even where the message could not be decoded. It is assumed that `distinct`
  -- finds every schema id once, that other writers leave the table of this channel alone, and that a
  -- write is attempted at least once.
  pub process_bronze-InBronze :
      FindsIds decoder
      → (identity : String) (batch : List Message) (batch_id : ℕ) (s : Store F W)
      → is_new_version (last_version identity (bronze_of channel s.lake).transactions) batch_id
        ≡ true
      → (Streams.process_bronze spark n monitoring decoder channel identity batch batch_id s).0
        ≡ ok tt
      → InBronze decoder channel batch
          (Streams.process_bronze spark n monitoring decoder channel identity batch batch_id
            s).1.lake
  unfolding Streams.process_bronze
  process_bronze-InBronze finds identity [] batch_id s new returns = tt
  process_bronze-InBronze finds identity (m ∷ ms) batch_id s new returns =
      append_decoded-InBronze (m ∷ ms) identity batch_id s (decode decoder (m ∷ ms))
        (decode-Complete decoder finds (m ∷ ms)) new returns
