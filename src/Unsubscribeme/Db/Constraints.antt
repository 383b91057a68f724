-- ===== src/Unsubscribeme/Db/Constraints.antt =====
-- The constraints that the migration declares, and that every call keeps.
use tikblog_unsubscribe_plat.Base.{
  ℕ, String, ◌≡◌, ◌≢◌, refl, ◌⊎◌, inl, inr, Option, none, some, List, [], ◌∷◌,
}
use tikblog_unsubscribe_plat.Base.Tests.{Bool-cases}
use tikblog_unsubscribe_plat.Base.Lists.{All}
use tikblog_unsubscribe_plat.Unsubscribeme.Db.{
  transaction, key_eq, Subscription, key_of, Table, Params, param_key, inserted_row, updated_row,
  is_earlier, upsert, select_row, Fault, healthy, rolled_back, answer_lost, unsubscribe, Call,
  after_calls,
}
use tikblog_unsubscribe_plat.Unsubscribeme.Db.Upsert.{select_row-upsert}
use tikblog_unsubscribe_plat.Unsubscribeme.Db.Calls.{transaction-table}

abbrev pub KnownSource : String → Type 0
KnownSource s = (s ≡ "UI") ⊎ (s ≡ "CUSTOMER_SUCCESS") ⊎ (s ≡ "LEGAL")

abbrev pub KnownSourceOrNull : Option String → Type 0
KnownSourceOrNull none = Unit
KnownSourceOrNull (some s) = KnownSource s

-- subscription_status_known, subscription_source_known, subscription_unsubscribed_has_timestamp
pub record IsRow (r : Subscription) : Type 0 where
  pub status_known : (r.status ≡ "SUBSCRIBED") ⊎ (r.status ≡ "UNSUBSCRIBED")
  pub source_known : KnownSourceOrNull r.unsubscribe_source
  pub has_timestamp : (r.status ≢ "UNSUBSCRIBED") ⊎ (r.unsubscribed_at ≢ none)

-- Every row meets its checks, and no other row has its primary key.
abbrev pub IsTable : Table → Type 0
IsTable [] = Unit
IsTable (r ∷ t) = IsRow r × (select_row (key_of r) t ≡ none) × IsTable t

inserted_row-IsRow : (now : ℕ) (p : Params) → KnownSource p.source → IsRow (inserted_row now p)
unfolding inserted_row
inserted_row-IsRow now p h = record {
  status_known = inr refl;
  source_known = h;
  has_timestamp = inr (cc);
}

updated_row-IsRow :
    (now : ℕ) (p : Params) (r : Subscription) → KnownSource p.source → IsRow (updated_row now p r)
unfolding updated_row
updated_row-IsRow now p r h = record {
  status_known = inr refl;
  source_known = h;
  has_timestamp = inr (cc);
}

upsert-IsTable :
    (now : ℕ) (p : Params) (t : Table)
    → KnownSource p.source
    → IsTable t
    → IsTable (upsert now p t).1
unfolding upsert select_row
upsert-IsTable now p [] known h = (inserted_row-IsRow now p known, refl, tt)
upsert-IsTable now p (r ∷ t) known h = elim (Bool-cases (key_eq (param_key p) (key_of r))) [
  | inl same ↦ rw same (elim (Bool-cases (is_earlier p.requested_at r.unsubscribed_at)) [
    | inl early ↦ rw early (updated_row-IsRow now p r known, h.1, h.2)
    | inr late ↦ rw late h
  ])
  | inr other ↦
      rw other (
        h.0,
        rw (select_row-upsert now p (key_of r) t, other) h.1,
        upsert-IsTable now p t known h.2,
      )
]

transaction-IsTable :
    (now : ℕ) (p : Params) (t : Table)
    → KnownSource p.source
    → IsTable t
    → IsTable (transaction now p t).1
transaction-IsTable now p t known h = rw transaction-table (upsert-IsTable now p t known h)

unsubscribe-IsTable :
    (f : Fault) (now : ℕ) (p : Params) (t : Table)
    → KnownSource p.source
    → IsTable t
    → IsTable (unsubscribe f now p t).1
unfolding unsubscribe
unsubscribe-IsTable healthy now p t known h = transaction-IsTable now p t known h
unsubscribe-IsTable (rolled_back m) now p t known h = h
unsubscribe-IsTable (answer_lost m) now p t known h = transaction-IsTable now p t known h

-- Calls with known sources, whatever their faults, keep the checks of the migration and the
-- uniqueness of the primary key.
pub after_calls-IsTable :
    (cs : List Call) (t : Table)
    → All (λ c. KnownSource c.params.source) cs
    → IsTable t
    → IsTable (after_calls cs t)
unfolding after_calls
after_calls-IsTable [] t known h = h
after_calls-IsTable (c ∷ cs) t known h =
    after_calls-IsTable cs (unsubscribe c.fault c.now c.params t).1 known.1
      (unsubscribe-IsTable c.fault c.now c.params t known.0 h)
