-- ===== src/Legal.antt =====
-- services/legal-ingestion: Legal's CSV batches, row by row, from the object store to Kafka.
pub mod Parsing
pub mod Rejected
pub mod Storage
pub mod Lookup
pub mod Batch
pub mod Accounting
pub mod Main
pub mod Moved
pub mod Prefixes
pub mod Generated
