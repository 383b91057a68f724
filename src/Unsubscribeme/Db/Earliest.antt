-- ===== src/Unsubscribeme/Db/Earliest.antt =====
-- The abstract view of the table: for each user and writer the earliest request that was committed.
use mathlib.Core.Logic.{∥∥₁_elim}
use mathlib.Core.Path.{ap₂}
use mathlib.Core.List.{Perm, Permᴰ}
use native.Mathlib.Nat.{ℕ_set}
use tikblog_unsubscribe_plat.Base.{
  ℕ, ◌≤◌, ◌≡◌, refl, sym, ◌∙◌, ap, inl, inr, Bool, true, false, ◌&&◌, Option, none, some, List, [],
  ◌∷◌, arith, min,
}
use tikblog_unsubscribe_plat.Base.Tests.{if◌then◌else◌, Option-cases}
use tikblog_unsubscribe_plat.Unsubscribeme.Db.{
  Key, key_eq, Subscription, Table, Params, param_key, inserted_row, updated_row, is_earlier,
  upsert, select_row, Fault, healthy, rolled_back, answer_lost, transaction, unsubscribe, Call,
  after_calls,
}
use tikblog_unsubscribe_plat.Unsubscribeme.Db.Upsert.{
  key_eq_iff, key_eq_refl, merged_row, select_row-upsert,
}
use tikblog_unsubscribe_plat.Unsubscribeme.Db.Calls.{transaction-table}

-- The stored time of a key: none without a row, or with a row that has no time.
abbrev pub row_time : Option Subscription → Option ℕ
row_time none = none
row_time (some r) = r.unsubscribed_at

abbrev pub time_at : Key → Table → Option ℕ
time_at k t = row_time (select_row k t)

-- The earlier of two times, where `none` is no time at all.
abbrev pub earlier : Option ℕ → Option ℕ → Option ℕ
earlier none b = b
earlier (some a) none = some a
earlier (some a) (some b) = some (min a b)

pub earlier_assoc : (a b c : Option ℕ) → earlier (earlier a b) c ≡ earlier a (earlier b c)
earlier_assoc a b c = ground arith

pub earlier_left_comm : (a b c : Option ℕ) → earlier a (earlier b c) ≡ earlier b (earlier a c)
earlier_left_comm a b c = ground arith

-- Whether the transaction of a call is committed.
abbrev pub is_committed : Fault → Bool
is_committed healthy = true
is_committed (rolled_back _) = false
is_committed (answer_lost _) = true

-- The time that a call asks for at a key, if it is committed and about that key.
unfoldable pub request_at : Key → Call → Option ℕ
request_at k c =
    if is_committed c.fault && key_eq (param_key c.params) k
    then some c.params.requested_at
    else none

-- The earliest committed request about a key.
unfoldable pub earliest : Key → List Call → Option ℕ
earliest k [] = none
earliest k (c ∷ cs) = earlier (request_at k c) (earliest k cs)

merged_row-time :
    (now : ℕ) (p : Params) (o : Option Subscription)
    → (merged_row now p o).unsubscribed_at ≡ earlier (row_time o) (some p.requested_at)
unfolding merged_row inserted_row updated_row is_earlier
merged_row-time now p none = refl
merged_row-time now p (some r) = ground arith

key_eq-subst : (j k : Key) (t : Table) → key_eq j k ≡ true → select_row j t ≡ select_row k t
key_eq-subst j k t h = ap (λ i. select_row i t) ((key_eq_iff j k).0 h)

time_at-upsert :
    (now : ℕ) (p : Params) (k : Key) (t : Table)
    → time_at k (upsert now p t).1 ≡ (
        if key_eq (param_key p) k then earlier (time_at k t) (some p.requested_at) else time_at k t)
time_at-upsert now p k t = ground (
  arith,
  select_row-upsert now p k t,
  key_eq-subst (param_key p) k t,
  merged_row-time now p (select_row k t),
)

time_at-unsubscribe :
    (c : Call) (k : Key) (t : Table)
    → time_at k (unsubscribe c.fault c.now c.params t).1 ≡ earlier (time_at k t) (request_at k c)
unfolding unsubscribe request_at
time_at-unsubscribe c k t =
    ground (arith, time_at-upsert c.now c.params k t, transaction-table c.now c.params t)

-- After any calls, with any faults, the stored time of every key is the earliest of the time stored
-- before and of the committed requests about that key.
pub time_at-after_calls :
    (cs : List Call) (k : Key) (t : Table)
    → time_at k (after_calls cs t) ≡ earlier (time_at k t) (earliest k cs)
unfolding after_calls earliest
time_at-after_calls [] k t = ground arith
time_at-after_calls (c ∷ cs) k t =
    time_at-after_calls cs k (unsubscribe c.fault c.now c.params t).1
    ∙ ap (λ o. earlier o (earliest k cs)) (time_at-unsubscribe c k t)
    ∙ earlier_assoc (time_at k t) (request_at k c) (earliest k cs)

earliest-permᴰ : (k : Key) {cs ds : List Call} → Permᴰ cs ds → earliest k cs ≡ earliest k ds
unfolding earliest
earliest-permᴰ k Permᴰ.nil = refl
earliest-permᴰ k (Permᴰ.cons e p) = ap₂ earlier (ap (request_at k) e) (earliest-permᴰ k p)
earliest-permᴰ k (Permᴰ.swap {a = c} {b = d} {l = cs} e f) =
    earlier_left_comm (request_at k c) (request_at k d) (earliest k cs)
    ∙ ap₂ (λ x y. earlier (request_at k x) (earlier (request_at k y) (earliest k cs))) f e
earliest-permᴰ k (Permᴰ.trans p q) = earliest-permᴰ k p ∙ earliest-permᴰ k q

time-set : IsSet (Option ℕ)
time-set = hlevel ℕ_set

-- The order in which calls reach the database does not matter for the stored times: two sequences of
-- the same calls leave the same time at every key.
pub after_calls-order :
    (k : Key) (cs ds : List Call) (t : Table)
    → Perm cs ds
    → time_at k (after_calls cs t) ≡ time_at k (after_calls ds t)
after_calls-order k cs ds t p =
    time_at-after_calls cs k t
    ∙ ap (earlier (time_at k t)) (∥∥₁_elim p (time-set _ _) (earliest-permᴰ k))
    ∙ sym (time_at-after_calls ds k t)

upsert_later :
    (now : ℕ) (p : Params) (r : Subscription) (t : Table)
    → select_row (param_key p) t ≡ some r
    → is_earlier p.requested_at r.unsubscribed_at ≡ false
    → upsert now p t ≡ (none, t)
unfolding upsert select_row
upsert_later now p r [] found later = cc
upsert_later now p r (s ∷ t) found later = ground (arith, upsert_later now p r t)

-- The stored time is no later than the time of a request.
abbrev pub NotLater : Option ℕ → ℕ → Type 0
NotLater none q = ⊥
NotLater (some a) q = a ≤ q

transaction_later :
    (now : ℕ) (p : Params) (t : Table)
    → NotLater (time_at (param_key p) t) p.requested_at
    → (transaction now p t).1 ≡ t
unfolding is_earlier
transaction_later now p t h = elim (Option-cases (select_row (param_key p) t)) [
  | inl absent ↦ absurd (rw absent at h)
  | inr (r, found) ↦
      transaction-table now p t ∙ ap (λ o. o.1) (upsert_later now p r t found (ground arith))
]

NotLater-earlier : (a b : Option ℕ) (q : ℕ) → NotLater a q → NotLater (earlier a b) q
NotLater-earlier none b q h = absurd h
NotLater-earlier (some a) none q h = h
NotLater-earlier (some a) (some b) q h = omega arith

NotLater-added : (a : Option ℕ) (q : ℕ) → NotLater (earlier a (some q)) q
NotLater-added none q = omega arith
NotLater-added (some a) q = omega arith

request_at_self :
    (c : Call)
    → is_committed c.fault ≡ true
    → request_at (param_key c.params) c ≡ some c.params.requested_at
unfolding request_at
request_at_self c h = ground (arith, key_eq_refl (param_key c.params))

NotLater-after :
    (c : Call) (cs : List Call) (t : Table)
    → is_committed c.fault ≡ true
    → NotLater
        (time_at (param_key c.params) (after_calls cs (unsubscribe c.fault c.now c.params t).1))
        c.params.requested_at
NotLater-after c cs t h =
    let k = param_key c.params in
    rw
      (
        time_at-after_calls cs k (unsubscribe c.fault c.now c.params t).1,
        time_at-unsubscribe c k t,
        request_at_self c h,
      )
      (NotLater-earlier (earlier (time_at k t) (some c.params.requested_at)) (earliest k cs)
        c.params.requested_at (NotLater-added (time_at k t) c.params.requested_at))

unsubscribe_later :
    (f : Fault) (now : ℕ) (p : Params) (t : Table)
    → NotLater (time_at (param_key p) t) p.requested_at
    → (unsubscribe f now p t).1 ≡ t
unfolding unsubscribe
unsubscribe_later healthy now p t h = transaction_later now p t h
unsubscribe_later (rolled_back m) now p t h = refl
unsubscribe_later (answer_lost m) now p t h = transaction_later now p t h

-- Once a request has been committed, delivering it again, whatever calls have come between and
-- whatever the connection does this time, changes nothing in the table.
pub redelivery_changes_nothing :
    (c : Call) (f : Fault) (now : ℕ) (cs : List Call) (t : Table)
    → is_committed c.fault ≡ true
    → let later_table = after_calls cs (unsubscribe c.fault c.now c.params t).1 in
      (unsubscribe f now c.params later_table).1 ≡ later_table
redelivery_changes_nothing c f now cs t h =
    unsubscribe_later f now c.params _ (NotLater-after c cs t h)
