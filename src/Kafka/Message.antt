-- ===== src/Kafka/Message.antt =====
-- A message of the Kafka client, with the accessors that the code calls.
use tikblog_unsubscribe_plat.Base.{ℕ, String, Option, List}

-- A payload, as its bytes.
abbrev pub Bytes : Type 0
Bytes = List ℕ

pub record Message : Type 0 where
  pub topic : String
  pub partition : ℕ
  pub offset : ℕ
  pub key : Option Bytes
  pub value : Option Bytes
