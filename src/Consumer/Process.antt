-- ===== src/Consumer/Process.antt =====
-- The state of one consumer process, the services around it, and the actions on it.
use tikblog_unsubscribe_plat.Base.{ℕ, Option, List}
use tikblog_unsubscribe_plat.Base.Errors.{Result, ok, raised, Exn}
use tikblog_unsubscribe_plat.Contracts.Model.{UnsubscribeEvent}
use tikblog_unsubscribe_plat.Kafka.Message.{Bytes, Message}
use tikblog_unsubscribe_plat.Kafka.Dlq.{Broker, DlqRecord, Dlq}
use tikblog_unsubscribe_plat.Consumer.Client.{HttpResult}

-- What the process does that the outside can see.
pub data Effect (F : Type 0) : Type 0 where
  posted : UnsubscribeEvent → HttpResult → Effect F
  parked : DlqRecord → Effect F
  slept : F → Effect F
  committed : Message → Effect F

-- The HTTP client, the Kafka clients and the Avro deserializer, over the outside world `W`.
pub record Services (W : Type 0) : Type 0 where
  pub post : UnsubscribeEvent → W → HttpResult × W
  pub broker : Broker W
  -- The exception of a synchronous commit, if it raises.
  pub commit : Message → W → Option Exn × W
  -- `UnsubscribeEventAvro.from_bytes`, with the schema registry as the world has it.
  pub from_bytes : Bytes → W → Result UnsubscribeEvent

-- `Settings` of config.py, as far as `deliver` reads them.
pub record Settings (F : Type 0) : Type 0 where
  pub max_attempts : ℕ
  pub backoff_initial_seconds : F
  pub backoff_multiplier : F
  pub backoff_max_seconds : F

-- The counters of `UnsubscribeConsumer`, the dead-letter producer, and the effects so far, the
-- newest first.
pub record Process (F W : Type 0) : Type 0 where
  pub world : W
  pub dlq : Dlq
  pub received_count : ℕ
  pub processed_count : ℕ
  pub failed_count : ℕ
  pub effects : List (Effect F)

-- A step of the process: it returns or raises, and what it has done stays done.
abbrev pub Action : Type 0 → Type 0 → Type 0
Action F W = Process F W → Result (Unit {0}) × Process F W

-- One statement after another.
infixl 5 ◌>>◌
abbrev pub ◌>>◌ : {F W : Type 0} → Action F W → Action F W → Action F W
◌>>◌ m k s = let (r, s') = m s in elim r [ ok _ ↦ k s' | raised e ↦ (raised e, s') ]
