-- ===== src/Unsubscribeme/Db/Calls.antt =====
-- What a call of the repository returns, and what it leaves in the table.
use tikblog_unsubscribe_plat.Base.{ℕ, ◌≡◌, refl, true, false, Option, none, some, [], ◌∷◌, arith}
use tikblog_unsubscribe_plat.Base.Tests.{if◌then◌else◌}
use tikblog_unsubscribe_plat.Base.Errors.{ok}
use tikblog_unsubscribe_plat.Unsubscribeme.Db.{
  Subscription, Table, Params, param_key, inserted_row, updated_row, is_earlier, upsert, select_row,
  Returned, Outcome, created, updated, unchanged, result_of, transaction,
}
use tikblog_unsubscribe_plat.Unsubscribeme.Db.Upsert.{key_eq_refl, merged_row, select_row-upsert}

-- Which of the three outcomes a request has, from the row at its key.
unfoldable pub outcome_of : Params → Option Subscription → Outcome
outcome_of p none = created
outcome_of p (some r) = if is_earlier p.requested_at r.unsubscribed_at then updated else unchanged

-- What the statement returns: the merged row, unless it changed nothing.
unfoldable pub returned_by : ℕ → Params → Option Subscription → Option Returned
returned_by now p none = some (true, inserted_row now p)
returned_by now p (some r) =
    if is_earlier p.requested_at r.unsubscribed_at then some (false, updated_row now p r) else none

pub upsert-returned_by :
    (now : ℕ) (p : Params) (t : Table)
    → (upsert now p t).0 ≡ returned_by now p (select_row (param_key p) t)
unfolding upsert select_row returned_by
upsert-returned_by now p [] = refl
upsert-returned_by now p (r ∷ t) = ground (arith, upsert-returned_by now p t)

-- The transaction returns the row that it leaves at the request's key.
pub transaction-result :
    (now : ℕ) (p : Params) (t : Table)
    → (transaction now p t).0
      ≡ ok (
          result_of p
            (merged_row now p (select_row (param_key p) t))
            (outcome_of p (select_row (param_key p) t)))
unfolding transaction returned_by merged_row outcome_of
transaction-result now p t = ground (
  arith,
  upsert-returned_by now p t,
  select_row-upsert now p (param_key p) t,
  key_eq_refl (param_key p),
)

pub transaction-table :
    (now : ℕ) (p : Params) (t : Table) → (transaction now p t).1 ≡ (upsert now p t).1
unfolding transaction
transaction-table now p t = ground arith
