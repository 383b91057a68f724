-- ===== src/Consumer.antt =====
-- services/unsubscribe-consumer: each Kafka message is given to UnsubscribeMe or parked in the
-- dead-letter topic, and then committed.
pub mod Client
pub mod Process
pub mod Deliver
pub mod Main
pub mod Settled
pub mod Attempts
pub mod Counters
pub mod Lost
pub mod Body
