-- ===== src/Analytics.antt =====
-- analytics/common and airflow/dags: thresholds, results of checks, alerts, retries of Delta writes,
-- and the sensor of the legal topic.
pub mod Status
pub mod Alerts
pub mod Retry
pub mod Sensor
pub mod Sql
pub mod Lake
pub mod Observed
pub mod Gold
pub mod Quality
pub mod Decode
pub mod Streams
pub mod Maintenance
pub mod Jobs
pub mod Settings
