-- ===== src/Strategies.antt =====
-- internal/strategies: the strategies that are built in. `Signals` has the helpers of strategy.go, the
-- next four the `Evaluate` methods of all_strategies.go, and `Registry` the registry with the
-- strategies that `init` registers.
pub mod Signals
pub mod Reversals
pub mod Crosses
pub mod Breakouts
pub mod Channels
pub mod Registry
pub mod Registered
pub mod Totals
mod Tests
