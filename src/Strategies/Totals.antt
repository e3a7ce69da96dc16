-- ===== src/Strategies/Totals.antt =====
-- internal/strategies: the results of the built-in strategies. `Outcome` has the ends that they
-- share, the next three the methods of the modules of the same names, `Evaluate` the call through the
-- interface, `Replays` that call in a replay, and `Panics` the division of `VWAPRevert`.
pub mod Outcome
mod Reversals
mod Crosses
mod Breakouts
pub mod Evaluate
pub mod Replays
pub mod Panics
