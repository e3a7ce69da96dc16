-- ===== src/Lib.antt =====
-- The trading bot for the CoinEx exchange (Go): a verification library of its core logic.
--
-- The program. A market's candles and order book come in over a WebSocket feed (internal/api), technical
-- strategies (internal/strategies over internal/indicators, with the learned ensemble of internal/ml)
-- turn them into signals, an engine (internal/engine for one market, internal/multimarket for several)
-- votes on the signals, places orders and watches the open positions (internal/position), a circuit
-- breaker (internal/health) stops it on errors, and closed trades go to a journal (internal/journal).
-- internal/backtest and internal/optimizer replay the strategies over recorded candles.
--
-- The files. A parent holds a component's definitions, except where children are named here for theirs;
-- the other children hold the proofs, and Tests concrete inputs.
--   Prelude         lists, texts, signed integers, Go's maps as association lists (Dict), the values,
--                   errors and panics of Go functions (Results) and reads of slices (Slices)
--   Number          decimal.Decimal and float64 as records of operations; Laws states what is assumed of
--                   them where a theorem needs it, Whole is an instance in which the laws hold
--   Models          internal/models/models.go
--   Position        internal/position/manager.go: NewManager, CanOpen, Open, Close, UpdatePrices,
--                   TriggeredExits and the totals; Call and step are its mutating methods as one type
--   Health          internal/health/monitor.go: Circuit, Errors and Latency are the three trackers
--   Api             internal/api: CandleBuffer (candle_buffer.go), LiveOrderBook (ws_feed.go),
--                   RateLimiter (rate_limiter.go), Client (client.go)
--   Journal         internal/journal/journal.go: Open, Record, replay, updateStats and the queries
--   Notify          internal/notify/telegram.go: the queue
--   MultiMarket     internal/multimarket/engine.go: a worker's tick, which calls the candle buffer, the
--                   order book, the circuit, the position manager, the client and the notifier
--   Engine          internal/engine/engine.go: executeSignal and manageTrade, of which each is a Step,
--                   where manageTrade's rounds see what others changed; Tick has the strategies, the
--                   vote and tick, Loop the turns of Run with the back-off and the retraining, and
--                   Paper UnrealizedPnL of internal/engine/terminal.go
--   Backtest        internal/backtest/backtest.go: Run bar by bar; Metrics is buildResult, Ranking RunAll
--   Indicators      internal/indicators: the averages in the parent; Oscillators (RSI, StochRSI,
--                   WilliamsR), Bands (MACD, Bollinger, Hull, VWAP, Donchian), Trend (ATR, Keltner,
--                   ParabolicSAR, Supertrend), Adx and Ichimoku
--   Strategies      internal/strategies: Signals are newSignal and flat, Reversals, Crosses, Breakouts
--                   and Channels the methods Evaluate, one function each, and Registry the map of
--                   strategies with what init puts into it; BuiltIn is the types that implement the
--                   interface, and evaluate the call through it, which Engine.Tick makes
--   Ml              internal/ml/ensemble.go: Features, Logistic and Boost (the two models), and
--                   Ensemble with AddSample, MaybeRetrain and Predict; a Call in Runs is one of these
--   Optimizer       internal/optimizer/optimizer.go: Values, Grid, buildWindows, bestParams and Run
--
-- How the program is read. A method that changes its receiver returns the new record; a method holds
-- its lock throughout, so that it is one step. The ticks of workers that share a position manager are
-- taken one after another. A pointer that is handed out is not written through by the program, so
-- structs are values. An int that the program never makes negative is a natural number; the counters
-- of the circuit keep their 32 bits. A time is a number of nanoseconds, the zero time is 0, and the
-- difference of two times is 0 where it would be negative; `now` stands for the calls of time.Now in a
-- method. Strings are lists of bytes. A decimal is taken up to the equality of its value. A map is a
-- list in some order of iteration, and what must not depend on the order is proved for all. The order
-- in which goroutines end is an argument. An index out of range and a division of decimals by zero are
-- panics; in a goroutine a panic ends the program. NewFromFloat panics on a NaN and on an infinity
-- (from_float); only what the configuration gives as a percentage, and the factor 2 / (period + 1) of
-- EMA, are taken to be finite (new_from_float). The Evaluate of a strategy may panic in a replay, in
-- the optimizer and in a worker; that it comes back is a hypothesis (IsAnswering) where a theorem
-- needs it. JSON payloads come decoded, and a line of the journal's file is what json.Unmarshal makes
-- of it; a write that fails leaves no line.
--
-- Bounds and fuel. The loops over ranges and windows run on fuel, with `none` for a loop that has not
-- ended. The integers of a range are 64-bit words whose sum wraps around, so a loop of Values that has
-- not ended after 2^64 rounds never ends; for the windows one round more than there are numbers up to
-- the end is enough for any step that is not 0. The theorems on them show that the fuel suffices. Digits
-- of durations are printed with fuel 20, since a duration has fewer digits.
--
-- What is assumed. Decimal addition, subtraction, multiplication and comparison are exact (IsDecimal),
-- the order of floats is that of numbers where no NaN occurs (IsFloatOrder, and IsPositive for sums);
-- each theorem that needs one takes it as a hypothesis, and the tests meet them with whole numbers.
--
-- Not modelled: HTTP, WebSocket and file I/O, signing, logging, printing, the Telegram sender and the
-- configuration; of the client, balances, positions, leverage and cancelling; of the engine, how it
-- connects; of the several-market engine, how the workers are built; and of the journal, SharpeRatio.
pub mod Prelude
pub mod Number
pub mod Models
pub mod Position
pub mod Health
pub mod Api
pub mod Journal
pub mod Backtest
pub mod Optimizer
pub mod Notify
pub mod MultiMarket
pub mod Indicators
pub mod Engine
pub mod Strategies
pub mod Ml
