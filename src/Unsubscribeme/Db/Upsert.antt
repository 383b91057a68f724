-- ===== src/Unsubscribeme/Db/Upsert.antt =====
-- What one upsert does to each row of the table, and what it returns.
use tikblog_unsubscribe_plat.Base.{ℕ, ◌≡◌, refl, ◌↔◌, true, Option, none, some, [], ◌∷◌, arith}
use tikblog_unsubscribe_plat.Base.Tests.{str_eq_iff, if◌then◌else◌}
use tikblog_unsubscribe_plat.Unsubscribeme.Db.{
  Key, key_eq, Subscription, key_of, Table, Params, param_key, inserted_row, updated_row,
  is_earlier, upsert, select_row,
}

pub key_eq_iff : (k j : Key) → (key_eq k j ≡ true) ↔ (k ≡ j)
unfolding key_eq
key_eq_iff (u, w) (v, x) = ground (arith, str_eq_iff u v, str_eq_iff w x)

pub key_eq_refl : (k : Key) → key_eq k k ≡ true
key_eq_refl k = (key_eq_iff k k).1 refl

-- The row that stands at the key of a request after it.
unfoldable pub merged_row : ℕ → Params → Option Subscription → Subscription
merged_row now p none = inserted_row now p
merged_row now p (some r) =
    if is_earlier p.requested_at r.unsubscribed_at then updated_row now p r else r

-- An upsert replaces the row at its own key by the merged one, and leaves every other row.
pub select_row-upsert :
    (now : ℕ) (p : Params) (k : Key) (t : Table)
    → select_row k (upsert now p t).1 ≡ (
        if key_eq (param_key p) k
        then some (merged_row now p (select_row (param_key p) t))
        else select_row k t)
unfolding upsert select_row merged_row
select_row-upsert now p k [] =
    ground (arith, key_eq_iff (param_key p) k, key_eq_iff k (param_key p))
select_row-upsert now p k (r ∷ t) = ground (
  arith,
  select_row-upsert now p k t,
  key_eq_iff (param_key p) k,
  key_eq_iff k (param_key p),
  key_eq_iff (param_key p) (key_of r),
  key_eq_iff k (key_of r),
)
