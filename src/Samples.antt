-- ===== src/Samples.antt =====
-- Runs of the main results on concrete data.
mod Db
mod Events
mod Consumption
mod Ingestion
mod Producing
mod Operations
mod Distinct
mod Warehouse
mod Refreshes
mod Streaming
mod Jobs
mod Generating
