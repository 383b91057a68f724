-- ===== src/Lib.antt =====
-- A reader unsubscribes from a writer through one of three channels. UI and customer service events
-- come from the event producers, legal requests from CSV batches; both reach Kafka. A consumer hands
-- priority events to the UnsubscribeMe service, which keeps one row for each reader and writer in
-- Postgres, and parks what it cannot hand over in a dead-letter topic. The analytics pipeline reads
-- the same topics.
--
-- Contracts models libs/contracts: the event, its conversion to and from the dict of the Avro
--   serializer, and the message key.
-- Unsubscribeme models services/unsubscribeme/unsubscribeme: Db is db.py over the table of
--   infra/migrations/001_create_subscription.sql, a list of rows; Api is api.py.
-- Kafka models libs/tikblog_kafka: Dlq is dlq.py; Producer is producer.py, with the loop and the exit
--   code of services/event-producers/event_producers/main.py.
-- Consumer models services/unsubscribe-consumer/unsubscribe_consumer: Client is client.py, Deliver and
--   Main are main.py, and Main holds the messages and commit of libs/tikblog_kafka/consumer.py. The
--   process keeps its effects (requests, pauses, parked records, commits) in a list.
-- Legal models services/legal-ingestion/legal_ingestion and libs/tikblog_storage/storage.py: Parsing is
--   parsing.py, Prefixes the validator of config.py, Storage storage.py with the listing part of
--   landing_zone.py; Batch and Main are main.py with the other operations of landing_zone.py.
--   Generated is tools/generate_legal_batch.py.
-- Topics models tools/apply_topics.py: Model holds the file's entries and the admin client, Apply the
--   operations.
-- Analytics models parts of analytics/common, analytics/jobs and airflow/dags: Status is status of
--   config.py, and Settings its checks, with dq_result and metric of observability.py, Alerts is
--   emit_alerts, Observed the other functions of observability.py, Retry is retry of delta.py,
--   Sensor is legal_sensor.py. Lake holds the tables of tables.py as lists of rows and the writes of
--   delta.py, Sql the column expressions, Quality is dq.py, and Gold is gold.py; Decode is avro.py,
--   Streams streams.py, Maintenance maintenance.py and Jobs main.py. A write is a transaction on the
--   tables as other writers have left them; what they do, which commits fail, and the order in which
--   Spark finds groups are parameters.
-- Generator models services/event-producers/event_producers/generator.py.
-- Base holds the shared types, tests and list lemmas; Samples runs the results on concrete data.
--
-- Client libraries, brokers, S3, Postgres connections, the clock, UUIDs and the CSV reader are
-- parameters over a state of the outside world, which chooses their answers. What a result needs of
-- them is a hypothesis of it. An S3 call or a commit may raise with its effect done. Exceptions are
-- values of Result. A Python float is a value of a type with the operations of Floats, numbers are
-- natural numbers, and a time is a number of microseconds. The attempt loop of the consumer and
-- retry go down on the attempts that are left, so they need no fuel. The waiting loop of the
-- producer has fuel, and more turns than its timeout has ticks and its queue has messages are
-- enough, since a poll takes a tick at least or takes a message off the queue. The polls of the
-- consumer and the batches of the event producer, which a shutdown ends, are lists.
--
-- Not modelled: logging, settings from the environment, the HTTP server and the Spark session of
-- analytics, the lock of writer.py (that no other writer touches a table meanwhile is a hypothesis
-- of the results that need it), the Airflow DAGs, and metabase.
pub mod Base
pub mod Contracts
pub mod Unsubscribeme
pub mod Kafka
pub mod Consumer
pub mod Legal
pub mod Topics
pub mod Analytics
pub mod Generator
pub mod Samples
