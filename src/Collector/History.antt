-- ===== src/Collector/History.antt =====
-- internal/collector/history.go: rewards and payouts over a window of days.
pub mod SafeAdd
pub mod Decimal
pub mod Window
pub mod Numerals
pub mod Payouts
pub mod Rewards
pub mod Poll
pub mod Tests
