-- ===== src/Samples/Db.antt =====
-- Runs on a subscription table with one reader.
use mathlib.Core.List.{Perm, Permᴰ}
use tikblog_unsubscribe_plat.Base.{ℕ, ◌≡◌, refl, inl, inr, false, none, [], ◌∷◌, arith}
use tikblog_unsubscribe_plat.Base.Tests.{ltb}
use tikblog_unsubscribe_plat.Base.Floats.{Floats}
use tikblog_unsubscribe_plat.Contracts.Model.{ui, offset_by}
use tikblog_unsubscribe_plat.Unsubscribeme.Db.{
  Key, Table, Params, upsert, healthy, rolled_back, answer_lost, transaction, unsubscribe, Call,
  after_calls,
}
use tikblog_unsubscribe_plat.Unsubscribeme.Db.Constraints.{IsTable, after_calls-IsTable}
use tikblog_unsubscribe_plat.Unsubscribeme.Db.Earliest.{
  time_at, earlier, earliest, time_at-after_calls, after_calls-order, redelivery_changes_nothing,
}
use tikblog_unsubscribe_plat.Unsubscribeme.Api.{
  UnsubscribeRequest, params_of, App, post_unsubscribe,
}
use tikblog_unsubscribe_plat.Unsubscribeme.Api.Stored.{
  Reports, acknowledged_is_stored, refused_changes_nothing,
}

abbrev late : Params
late = record {
  event_id = "e1";
  user_id = "user-1";
  writer_id = "writer-1";
  source = "UI";
  requested_at = 20;
}

abbrev early : Params
early = record late { event_id = "e2"; source = "LEGAL"; requested_at = 10 }

abbrev first_call : Call
first_call = record { fault = healthy; now = 100; params = late }

abbrev second_call : Call
second_call = record { fault = answer_lost "connection reset"; now = 200; params = early }

abbrev reader : Key
reader = ("user-1", "writer-1")

time_at-after_calls_example :
    time_at reader (after_calls (first_call ∷ second_call ∷ []) [])
    ≡ earlier (time_at reader []) (earliest reader (first_call ∷ second_call ∷ []))
time_at-after_calls_example = time_at-after_calls (first_call ∷ second_call ∷ []) reader []

swapped : Perm (first_call ∷ second_call ∷ []) (second_call ∷ first_call ∷ [])
swapped = ∣ Permᴰ.swap refl refl ∣₁

after_calls-order_example :
    time_at reader (after_calls (first_call ∷ second_call ∷ []) [])
    ≡ time_at reader (after_calls (second_call ∷ first_call ∷ []) [])
after_calls-order_example =
    after_calls-order reader (first_call ∷ second_call ∷ []) (second_call ∷ first_call ∷ []) []
      swapped

redelivery_changes_nothing_example :
    let later_table : Table = after_calls (second_call ∷ []) (unsubscribe healthy 100 late []).1 in
    (unsubscribe healthy 300 late later_table).1 ≡ later_table
redelivery_changes_nothing_example =
    redelivery_changes_nothing first_call healthy 300 (second_call ∷ []) [] refl

after_calls-IsTable_example : IsTable (after_calls (first_call ∷ second_call ∷ []) [])
after_calls-IsTable_example =
    after_calls-IsTable (first_call ∷ second_call ∷ []) [] (inl refl, (inr (inr refl), tt)) tt

pub ltb_irrefl : (n : ℕ) → ltb n n ≡ false
ltb_irrefl n = ground arith

-- Numbers in place of floats.
instance abbrev pub counting : Floats ℕ
counting = record {
  zero_float = 0;
  mul = λ a b. a;
  div = λ a b. a;
  lt = ltb;
  lt_irrefl = ltb_irrefl;
}

abbrev request : UnsubscribeRequest
request = record {
  event_id = "e1";
  user_id = "user-1";
  writer_id = "writer-1";
  source = ui;
  requested_at = record { instant = 20; zone = offset_by 0 };
  request_id = "r1";
  cs_agent_id = none;
  legal_batch_id = none;
}

abbrev app : App ℕ
app = record {
  injector = record {
    failure_rate = 0;
    failure_status = 500;
    latency_ms = 0;
    draws = λ n. n;
    drawn = 0;
  };
  table = [];
  pauses = [];
}

acknowledged_is_stored_example :
    let out = post_unsubscribe healthy 100 request app in
    Reports (params_of request) app.table out.0.body out.1.table
unfolding post_unsubscribe unsubscribe transaction upsert
acknowledged_is_stored_example = acknowledged_is_stored healthy 100 request app (omega arith) refl

refused_changes_nothing_example :
    (post_unsubscribe (rolled_back "timeout") 100 request app).1.table ≡ []
unfolding post_unsubscribe unsubscribe
refused_changes_nothing_example =
    refused_changes_nothing (rolled_back "timeout") 100 request app (λ m. ground arith)
      (omega arith)
