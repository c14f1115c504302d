-- ===== src/Collector.antt =====
-- internal/collector: the cached metrics of the pool, the account, the workers and the history.
pub mod Distinct
pub mod Counters
pub mod Cache
pub mod Decimals
pub mod Pool
pub mod Account
pub mod Workers
pub mod History
pub mod Collect
pub mod Describe
pub mod Tests
