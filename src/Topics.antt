-- ===== src/Topics.antt =====
-- tools/apply_topics.py: bringing the Kafka topics in line with infra/topics.yaml.
pub mod Model
pub mod Apply
pub mod Requests
pub mod Idle
