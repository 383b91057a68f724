-- ===== src/Contracts.antt =====
-- libs/contracts: the unsubscribe event, its conversion to and from the dict that the Avro
-- serializer reads and writes, and the key under which it is sent to Kafka.
pub mod Model
pub mod Avro
pub mod RoundTrip
pub mod Keys
