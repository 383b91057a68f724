-- ===== src/Unsubscribeme/Api/Stored.antt =====
-- What an answer of `POST /unsubscribe` says about the table.
use tikblog_unsubscribe_plat.Base.{
  ℕ, String, ◌≡◌, ◌≢◌, refl, sym, ◌∙◌, ap, ◌⊎◌, inl, inr, some, [], ◌∷◌, arith,
}
use tikblog_unsubscribe_plat.Base.Tests.{Option-cases}
use tikblog_unsubscribe_plat.Base.Floats.{Floats}
use tikblog_unsubscribe_plat.Unsubscribeme.Db.{
  Subscription, Table, Params, Key, key_of, param_key, select_row, Fault, healthy, rolled_back,
  answer_lost, inserted_row, updated_row, is_earlier, transaction, unsubscribe,
}
use tikblog_unsubscribe_plat.Unsubscribeme.Db.Upsert.{
  key_eq_iff, key_eq_refl, merged_row, select_row-upsert,
}
use tikblog_unsubscribe_plat.Unsubscribeme.Db.Calls.{
  transaction-result, transaction-table, outcome_of,
}
use tikblog_unsubscribe_plat.Unsubscribeme.Db.Earliest.{NotLater}
use tikblog_unsubscribe_plat.Unsubscribeme.Api.{
  UnsubscribeRequest, params_of, Reply, Body, App, answer, post_unsubscribe,
}

-- A body reports the row that stands at the key of the request: its user and writer are those of the
-- row and of the request, its status, time and source those of the row, and the time is no later than
-- the requested one; the outcome tells what became of the row that stood there before.
abbrev pub Reports : Params → Table → Body → Table → Type 0
Reports p before (Body.response r) t =
    (s : Subscription) × (select_row (param_key p) t ≡ some s)
    × ((r.user_id ≡ s.user_id) × (s.user_id ≡ p.user_id))
    × ((r.writer_id ≡ s.writer_id) × (s.writer_id ≡ p.writer_id))
    × (r.status ≡ s.status)
    × (r.unsubscribed_at ≡ s.unsubscribed_at)
    × (r.unsubscribe_source ≡ s.unsubscribe_source)
    × NotLater r.unsubscribed_at p.requested_at
    × (r.outcome ≡ outcome_of p (select_row (param_key p) before))
Reports p before _ t = ⊥

merged_row-NotLater :
    (now : ℕ) (p : Params) (t : Table)
    → NotLater (merged_row now p (select_row (param_key p) t)).unsubscribed_at p.requested_at
unfolding merged_row inserted_row updated_row is_earlier
merged_row-NotLater now p t = ground arith

select_row-key : (k : Key) (t : Table) (s : Subscription) → select_row k t ≡ some s → k ≡ key_of s
unfolding select_row
select_row-key k [] s h = ground arith
select_row-key k (r ∷ t) s h = ground (arith, select_row-key k t s, key_eq_iff k (key_of r))

merged_row-key :
    (now : ℕ) (p : Params) (t : Table)
    → let s = merged_row now p (select_row (param_key p) t) in
      (s.user_id ≡ p.user_id) × (s.writer_id ≡ p.writer_id)
unfolding merged_row inserted_row updated_row
merged_row-key now p t = elim (Option-cases (select_row (param_key p) t)) [
  | inl missing ↦ rw (missing, merged_row) (refl, refl)
  | inr (s, found) ↦ rw (found, merged_row) (ground (arith, select_row-key (param_key p) t s found))
]

transaction-Reports :
    (now : ℕ) (p : Params) (t : Table)
    → Reports p t (answer (transaction now p t).0).body (transaction now p t).1
transaction-Reports now p t =
    rw (transaction-result now p t, transaction-table now p t)
      (
        merged_row now p (select_row (param_key p) t),
        ground (arith, select_row-upsert now p (param_key p) t, key_eq_refl (param_key p)),
        (sym (merged_row-key now p t).0, (merged_row-key now p t).0),
        (sym (merged_row-key now p t).1, (merged_row-key now p t).1),
        refl,
        refl,
        refl,
        merged_row-NotLater now p t,
        refl,
      )

unsubscribe-Reports :
    (f : Fault) (now : ℕ) (p : Params) (t : Table)
    → (answer (unsubscribe f now p t).0).status_code ≡ 200
    → Reports p t (answer (unsubscribe f now p t).0).body (unsubscribe f now p t).1
unfolding unsubscribe
unsubscribe-Reports healthy now p t h = transaction-Reports now p t
unsubscribe-Reports (rolled_back m) now p t h = absurd (omega arith)
unsubscribe-Reports (answer_lost m) now p t h = absurd (omega arith)

unsubscribe_refused :
    (f : Fault) (now : ℕ) (p : Params) (t : Table)
    → ((m : String) → f ≢ answer_lost m)
    → (answer (unsubscribe f now p t).0).status_code ≢ 200
    → (unsubscribe f now p t).1 ≡ t
unfolding unsubscribe
unsubscribe_refused healthy now p t not_lost h = absurd (h (rw (transaction-result now p t)))
unsubscribe_refused (rolled_back m) now p t not_lost h = refl
unsubscribe_refused (answer_lost m) now p t not_lost h = absurd (not_lost m refl)

module _ {F : Type 0} ⦃fl : Floats F⦄ (f : Fault) (now : ℕ) (q : UnsubscribeRequest)
    (a : App F) where
  -- Either a failure is injected and the database is not reached, or the repository answers.
  post_unsubscribe-cases :
      let (reply, a') = post_unsubscribe f now q a in
      let (r, t) = unsubscribe f now (params_of q) a.table in
      ((reply.status_code ≡ a.injector.failure_status) × (a'.table ≡ a.table))
      ⊎ ((reply ≡ answer r) × (a'.table ≡ t))
  unfolding post_unsubscribe
  post_unsubscribe-cases = ground arith

  -- If injected failures are not answered with 200, then a row is stored at the request's key after a
  -- 200, and the answer gives its user and writer, which are the request's, its status, its time and
  -- its source. The time is no later than the requested one. The outcome is `created` if there was no
  -- row before, `updated` if that row had no time or one after the request's, and else `unchanged`.
  pub acknowledged_is_stored :
      a.injector.failure_status ≢ 200
      → (post_unsubscribe f now q a).0.status_code ≡ 200
      → Reports
          (params_of q)
          a.table
          (post_unsubscribe f now q a).0.body
          (post_unsubscribe f now q a).1.table
  acknowledged_is_stored other_status h = elim post_unsubscribe-cases [
    | inl (injected, _) ↦ absurd (other_status (sym injected ∙ h))
    | inr (replied, stored) ↦
        rw (replied, stored)
          (unsubscribe-Reports f now (params_of q) a.table
            (ap (λ (r : Reply). r.status_code) (sym replied) ∙ h))
  ]

  -- An answer that is not 200 has left the table as it was, unless the answer of a commit was lost.
  pub refused_changes_nothing :
      ((m : String) → f ≢ answer_lost m)
      → (post_unsubscribe f now q a).0.status_code ≢ 200
      → (post_unsubscribe f now q a).1.table ≡ a.table
  refused_changes_nothing not_lost h = elim post_unsubscribe-cases [
    | inl (_, same) ↦ same
    | inr (replied, stored) ↦
        stored
        ∙ unsubscribe_refused f now (params_of q) a.table not_lost
            (λ e. h (ap (λ (r : Reply). r.status_code) replied ∙ e))
  ]
