-- ===== src/Unsubscribeme/Api.antt =====
-- services/unsubscribeme/unsubscribeme/api.py: the two endpoints over the repository.
-- FastAPI and pydantic are not in the repository: a handler starts from a validated payload.
pub mod Stored
use tikblog_unsubscribe_plat.Base.{ℕ, String, Bool, true, false, Option, none, some, List, ◌∷◌, ◌+◌}
use tikblog_unsubscribe_plat.Base.Tests.{ltb, if◌then◌else◌}
use tikblog_unsubscribe_plat.Base.Errors.{Result, ok, raised, Exn}
use tikblog_unsubscribe_plat.Base.Floats.{Floats}
use tikblog_unsubscribe_plat.Contracts.Model.{Datetime, UnsubscribeSource, source_value}
use tikblog_unsubscribe_plat.Unsubscribeme.Db.{
  Table, Params, UnsubscribeResult, Fault, unsubscribe, check_health,
}

-- `UnsubscribeRequest`, after validation: its time is aware.
pub record UnsubscribeRequest : Type 0 where
  pub event_id : String
  pub user_id : String
  pub writer_id : String
  pub source : UnsubscribeSource
  pub requested_at : Datetime
  pub request_id : String
  pub cs_agent_id : Option String
  pub legal_batch_id : Option String

abbrev pub params_of : UnsubscribeRequest → Params
params_of q = record {
  event_id = q.event_id;
  user_id = q.user_id;
  writer_id = q.writer_id;
  source = source_value q.source;
  requested_at = q.requested_at.instant;
}

-- The JSON bodies that the handlers answer with.
pub data Body : Type 0 where
  response : UnsubscribeResult → Body
  detail : String → Body
  health_status : String → String → Body

pub record Reply : Type 0 where
  pub status_code : ℕ
  pub body : Body

-- `FaultInjector`: the settings, and the seeded generator as its sequence of draws with the number
-- of those already taken.
pub record FaultInjector (F : Type 0) : Type 0 where
  pub failure_rate : F
  pub failure_status : ℕ
  pub latency_ms : ℕ
  pub draws : ℕ → F
  pub drawn : ℕ

-- The application's state: the injector, the table, and the pauses made so far, the newest first.
pub record App (F : Type 0) : Type 0 where
  pub injector : FaultInjector F
  pub table : Table
  pub pauses : List F

-- The `except DatabaseError` of the handler.
abbrev pub answer : Result UnsubscribeResult → Reply
answer (ok r) = record { status_code = 200; body = response r }
answer (raised e) = record { status_code = 503; body = detail "database unavailable" }

module _ {F : Type 0} ⦃fl : Floats F⦄ where
  -- `failure_rate > 0 and random() < failure_rate`: nothing is drawn at rate 0.
  unfoldable pub should_fail : FaultInjector F → Bool × FaultInjector F
  should_fail i =
      if fl.lt fl.zero_float i.failure_rate
      then (fl.lt (i.draws i.drawn) i.failure_rate, record i { drawn = i.drawn + 1 })
      else (false, i)

  unfoldable pub sleep_before_call : App F → App F
  sleep_before_call a =
      if ltb 0 a.injector.latency_ms
      then record a { pauses = fl.div a.injector.latency_ms 1000 ∷ a.pauses }
      else a

  -- `POST /unsubscribe`
  unfoldable pub post_unsubscribe : Fault → ℕ → UnsubscribeRequest → App F → Reply × App F
  unfolding should_fail sleep_before_call
  post_unsubscribe f now q a =
      let (fails, injector') = should_fail a.injector in
      let a' = record a { injector = injector' } in
      if fails
      then (
        record { status_code = a'.injector.failure_status; body = detail "injected failure" },
        a',
      )
      else let a'' = sleep_before_call a' in
        let (r, t) = unsubscribe f now (params_of q) a''.table in
        (answer r, record a'' { table = t })

-- `GET /health`
unfoldable pub health : Fault → Reply
health f = elim (check_health f) [
  | ok _ ↦ record { status_code = 200; body = health_status "ok" "ok" }
  | raised e ↦ record { status_code = 503; body = health_status "error" "unreachable" }
]
