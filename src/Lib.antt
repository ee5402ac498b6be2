-- ===== src/Lib.antt =====
-- Verification of hft-lead-lag, a trading system in Rust that compares the books of two exchanges,
-- turns price leads into order intents, and tries symbols on paper portfolios.
--
-- Parts of the program and the files that model them:
--   * The signal loop (hft-lead-lag/src/event_loop_core.rs) marks the symbols whose quotes changed
--     and takes them for a check of the strategies one by one. PendingSet is the set of marked
--     symbols, `PendingSymbolSet`: `insert`, `is_empty`, `pop_first` with its rotating cursor, on
--     64-bit words (Word). `pop_first` is split the way its loops are: `pop_from_word` for a
--     masked word, `pop_from_words` for a range of words, `search_words` for the whole search.
--     Indexing past the vector's end is proved not to happen for valid sets. Its child modules
--     prove which bits are members, what the scan finds, that sets stay valid, and the order in
--     which symbols come out.
--   * The execution runtime (hft-lead-lag/src/event_loop_execution.rs) takes the order intents of
--     the loop over a bounded channel, with a map of the latest intent per symbol for when it is
--     full, and sends them from one worker that a kill switch stops after timeouts in a row.
--     Execution/Types has its data, Execution/Queue `try_enqueue`, Execution/Worker the worker's
--     functions, and Execution/Runs the steps: a producer's call, a turn of the worker's loop up
--     to the `await` of a send, and the two ends of a send, in any order. The channel is tokio's,
--     so it is a parameter (`Channel`) with its documented behaviour as a hypothesis
--     (`IsBounded`). Clock readings, the result of locking and the key that `keys().next()` yields
--     are arguments. A call of `try_enqueue` is one step; interleavings inside a call are not
--     modelled. Counters wrap at 64 bits.
--   * Latency has the percentiles of latency samples, which event_loop_core.rs and
--     event_loop_execution.rs each compute.
--   * SymbolIds numbers the symbols of the strategies
--     (hft-lead-lag/src/domain/strategy_symbol_ids.rs), and ClockOffset estimates the clock offset
--     of each exchange by the median of the last samples
--     (hft-lead-lag/src/domain/screener/clock_offset.rs).
--   * Quotes is how a symbol takes the quotes of its two exchanges
--     (hft-lead-lag/src/domain/screener/state.rs), Prices its history of both
--     (hft-lead-lag/src/domain/screener/price_samples.rs), and Timestamps the normalisation of the
--     exchanges' timestamps (hft-lead-lag/src/domain/screener/utils.rs).
--   * The lead-lag strategy (hft-lead-lag/src/application/services/lead_lag.rs) keeps the latest
--     quote of each symbol and exchange and the clock offset of each exchange, and signals when
--     the primary exchange is ahead: LeadLag/Types, LeadLag/Offset and LeadLag/Strategy.
--     LeadLag/Runtime is its use by the loop (hft-lead-lag/src/application/strategies/mod.rs).
--     LeadLag/Latest, LeadLag/Clocks, LeadLag/Checks, LeadLag/Signal, LeadLag/Feed and
--     LeadLag/Threshold prove when it signals and what.
--   * The paper trader (hft-lead-lag/src/domain/screener/shadow_trader.rs, trader_config.rs beside
--     it) enters when the gap between the exchanges exceeds its average and leaves by stop loss,
--     breakeven, trailing take or timeout. Shadow/Config and Shadow/Types have its data,
--     Shadow/Gap `detect_gap` and `try_entry`, Shadow/Orders `try_fill`, `fill_exit` and
--     `try_exit`, Shadow/Tick `tick_with_context`, Shadow/Symbol `tick_shadow`, Shadow/Views the
--     read models. Shadow/Life is an abstract life cycle, idle, entering, holding, exiting, with
--     its times; Shadow/Books, Shadow/Deadlines, Shadow/Quiet and Shadow/Chart prove the counters,
--     the timely exit, the quiet times and the size of a chart.
--   * The fleet (hft-lead-lag/src/domain/screener/shadow_fleet.rs) ticks one paper trader for each
--     configuration, scores them over decaying windows (Fleet/Policy), prunes the bad ones and
--     buffers the closed trades (Fleet/Traders); Fleet/Grid is the grid of configurations,
--     Fleet/Ranking the policy views, Fleet/Drained the order and collapsing of drained trades
--     (hft-lead-lag/src/domain/screener/drained_trades.rs). Fleet/Drain, Fleet/Ledger and
--     Fleet/Run follow a trade from the trader to the buffer.
--   * The portfolio engine (hft-lead-lag/src/domain/screener/portfolio_runtime.rs) keeps a guard
--     of stop losses for each symbol (Portfolio/Guard), ranks candidates (Portfolio/Ranking),
--     deals them onto shortlists (Portfolio/Shortlist) and picks active symbols from these
--     (Portfolio/Active); Portfolio/Engine is `assign_without_overlap`, which does all three,
--     Portfolio/Ids normalises the ids of the portfolios, and Portfolio/Paper is their paper
--     account. Portfolio/Types has the structs. Maps are association lists, a panic is `none`, and
--     the unbounded loop of the active symbols takes fuel, for which four rounds per portfolio id
--     are proved enough.
--   * Patches replace the configurations of the fleets
--     (hft-lead-lag/src/domain/screener/fleet_patch.rs and fleet_reload.rs beside it): Patch/Plan,
--     Patch/Validate and Patch/Apply; Patch/Named and Patch/Mode say what a plan may name without
--     the code's counts, and Patch/Outcome and Patch/Whole prove what is refused and what is
--     applied.
-- `f64` is a parameter throughout (Prelude/Float); `i64` is the integers of Prelude/Int, with its
-- saturating operations, and its sums and differences that wrap, `+%` and `-%`, written out.
--
-- Examples runs the code on small inputs and applies each theorem to a concrete one, with a channel of
-- two slots and a decimal stand-in for `f64`.
--
-- Not modelled: the database, the exchange connectors, the servers, the trial runner and the start of
-- the program, which are I/O; and, so far, the screener around the symbols and
-- the trial batches. The hash of a configuration is a parameter of the fleet.
pub mod Prelude
pub mod Word
pub mod PendingSet
pub mod SymbolIds
pub mod ClockOffset
pub mod Timestamps
pub mod Quotes
pub mod Prices
pub mod Shadow
pub mod Fleet
pub mod LeadLag
pub mod Patch
pub mod Latency
pub mod Execution
pub mod Portfolio
pub mod Examples
