-- ===== src/Jobs.antt =====
-- The v2 job store on Redis: app/jobs/redis_store.py with the records of app/jobs/models.py, the
-- limits of app/jobs/config.py and the counters of app/observability/metrics.py.
pub mod Models
pub mod Zset
pub mod Metrics
pub mod Store
pub mod Updates
pub mod Methods
pub mod Claim
pub mod Sound
pub mod Steps
pub mod Guarantees
pub mod Slots
pub mod Ended
pub mod Final
pub mod Photos
pub mod Contracts
pub mod Endings
pub mod Config
pub mod PhotoMetrics
pub mod Intake
pub mod Publishing
pub mod Execution
pub mod Runner
mod Tests
pub mod Termination
