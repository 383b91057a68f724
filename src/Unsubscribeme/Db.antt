-- ===== src/Unsubscribeme/Db.antt =====
-- services/unsubscribeme/unsubscribeme/db.py: `SubscriptionRepository` over the table of
-- infra/migrations/001_create_subscription.sql. A `timestamptz` is a number of microseconds.
-- Postgres itself is not in the repository: a statement runs whole on the table, and what the
-- connection does around it is a `Fault` that the environment chooses for each call.
pub mod Upsert
pub mod Constraints
pub mod Earliest
pub mod Calls
use tikblog_unsubscribe_plat.Base.{
  ℕ, String, Bool, true, false, ◌&&◌, Option, none, some, List, [], ◌∷◌,
}
use tikblog_unsubscribe_plat.Base.Tests.{str_eq, ltb, if◌then◌else◌}
use tikblog_unsubscribe_plat.Base.Errors.{Result, ok, raised, Exn, exn, database_error}

-- The primary key: user_id and writer_id.
abbrev pub Key : Type 0
Key = String × String

unfoldable pub key_eq : Key → Key → Bool
key_eq (u, w) (v, x) = str_eq u v && str_eq w x

pub record Subscription : Type 0 where
  pub user_id : String
  pub writer_id : String
  pub status : String
  pub unsubscribed_at : Option ℕ
  pub unsubscribe_source : Option String
  pub unsubscribe_event_id : Option String
  pub created_at : ℕ
  pub updated_at : ℕ

abbrev pub key_of : Subscription → Key
key_of r = (r.user_id, r.writer_id)

abbrev pub Table : Type 0
Table = List Subscription

-- The keyword arguments of `unsubscribe`, which are also the statement's parameters.
pub record Params : Type 0 where
  pub event_id : String
  pub user_id : String
  pub writer_id : String
  pub source : String
  pub requested_at : ℕ

abbrev pub param_key : Params → Key
param_key p = (p.user_id, p.writer_id)

-- The row that `INSERT` writes; `now` is the transaction's time.
unfoldable pub inserted_row : ℕ → Params → Subscription
inserted_row now p = record {
  user_id = p.user_id;
  writer_id = p.writer_id;
  status = "UNSUBSCRIBED";
  unsubscribed_at = some p.requested_at;
  unsubscribe_source = some p.source;
  unsubscribe_event_id = some p.event_id;
  created_at = now;
  updated_at = now;
}

-- `DO UPDATE SET …` on a conflicting row
unfoldable pub updated_row : ℕ → Params → Subscription → Subscription
updated_row now p r = record r {
  status = "UNSUBSCRIBED";
  unsubscribed_at = some p.requested_at;
  unsubscribe_source = some p.source;
  unsubscribe_event_id = some p.event_id;
  updated_at = now;
}

-- `WHERE subscription.unsubscribed_at IS NULL OR EXCLUDED.unsubscribed_at < …`
unfoldable pub is_earlier : ℕ → Option ℕ → Bool
is_earlier t none = true
is_earlier t (some old) = ltb t old

-- What a `RETURNING` clause gives: the flag `xmax = 0`, and the row.
abbrev pub Returned : Type 0
Returned = Bool × Subscription

-- `_UPSERT_SQL`: the returned row, if any, and the table.
unfoldable pub upsert : ℕ → Params → Table → Option Returned × Table
unfolding inserted_row updated_row is_earlier
upsert now p [] = (some (true, inserted_row now p), inserted_row now p ∷ [])
upsert now p (r ∷ t) =
    if key_eq (param_key p) (key_of r)
    then (if is_earlier p.requested_at r.unsubscribed_at
        then (some (false, updated_row now p r), updated_row now p r ∷ t)
        else (none, r ∷ t))
    else let (returned, rest) = upsert now p t in (returned, r ∷ rest)

-- `_SELECT_SQL`
unfoldable pub select_row : Key → Table → Option Subscription
select_row k [] = none
select_row k (r ∷ t) = if key_eq k (key_of r) then some r else select_row k t

pub data Outcome : Type 0 where
  created : Outcome
  updated : Outcome
  unchanged : Outcome

pub record UnsubscribeResult : Type 0 where
  pub user_id : String
  pub writer_id : String
  pub status : String
  pub unsubscribed_at : Option ℕ
  pub unsubscribe_source : Option String
  pub outcome : Outcome

abbrev pub result_of : Params → Subscription → Outcome → UnsubscribeResult
result_of p r o = record {
  user_id = p.user_id;
  writer_id = p.writer_id;
  status = r.status;
  unsubscribed_at = r.unsubscribed_at;
  unsubscribe_source = r.unsubscribe_source;
  outcome = o;
}

-- `psycopg.Error` of a call: none, one that rolls the transaction back, or one that is raised when
-- the commit has been done but its answer is lost.
pub data Fault : Type 0 where
  healthy : Fault
  rolled_back : String → Fault
  answer_lost : String → Fault

-- The body of the `with` block: the statements of one transaction.
unfoldable pub transaction : ℕ → Params → Table → Result UnsubscribeResult × Table
transaction now p t =
    let (returned, t') = upsert now p t in
    elim returned [
      | some (inserted, r) ↦ (ok (result_of p r (if inserted then created else updated)), t')
      | none ↦ elim (select_row (param_key p) t') [
        | none ↦ (raised (exn database_error "subscription row missing"), t')
        | some r ↦ (ok (result_of p r unchanged), t')
      ]
    ]

-- `SubscriptionRepository.unsubscribe`
unfoldable pub unsubscribe : Fault → ℕ → Params → Table → Result UnsubscribeResult × Table
unsubscribe healthy now p t = transaction now p t
unsubscribe (rolled_back m) now p t = (raised (exn database_error m), t)
unsubscribe (answer_lost m) now p t = (raised (exn database_error m), (transaction now p t).1)

-- `SubscriptionRepository.check_health`: `SELECT 1`
unfoldable pub check_health : Fault → Result (Unit {0})
check_health healthy = ok tt
check_health (rolled_back m) = raised (exn database_error m)
check_health (answer_lost m) = raised (exn database_error m)

-- One call of the repository: what the connection does, the transaction's time, the arguments.
pub record Call : Type 0 where
  pub fault : Fault
  pub now : ℕ
  pub params : Params

-- The table after the calls, one after another.
unfoldable pub after_calls : List Call → Table → Table
after_calls [] t = t
after_calls (c ∷ cs) t = after_calls cs (unsubscribe c.fault c.now c.params t).1
