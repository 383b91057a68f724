-- ===== src/Kafka.antt =====
-- libs/tikblog_kafka: the dead-letter producer, the consumer and the producer over the Kafka client,
-- which is not in the repository and enters as parameters.
pub mod Message
pub mod Dlq
pub mod Producer
