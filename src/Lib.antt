-- ===== src/Lib.antt =====
-- VeloxQuant: a low-latency trading platform, its core modelled and verified.
--
-- Exchange (exchange/). `Exchange.Book` is OrderBook: two sides of price levels with FIFO queues of
-- order ids, the table of orders, and the side tags. The map of levels is the list of its entries in
-- the order of its comparator. `Exchange.Matching.Sweep` is sweep_contra with emit_fill, and
-- `Exchange.Matching` the rest of MatchingEngine: match_market, match_limit, match_ioc, match_fok,
-- register_stop, on_tick. `Exchange.Router` is OrderRouter, which owns an engine and a book for each
-- symbol. `Exchange.Execution` is ExecutionSimulator, its slippage and its commission. The callbacks append to a `log`, newest first. The commission that ExecutionSimulator
-- computes in doubles is an argument of all that make fills. Undefined behaviour is the fault
-- `dangling`. The sweep runs on fuel, two more than the ids on the side it meets: each round takes one id
-- off that side or completes the order.
--
-- Networking (networking/). `Networking.Crc` and `Networking.Protocol` are binary_protocol: the checksum,
-- write_frame, the encoders, and BinaryParser byte by byte, with process_byte as `advance` and the
-- callback as a `log`. A message is the list of bytes of its struct, as memcpy copies it. `Networking.Udp`
-- is the part of AsyncUdpFeed between the sockets: publish and handle_datagram. `Networking.Ring`
-- is SpscRingBuffer of tcp_feed, with counters that wrap at 64 bits; its constructor doubles with the
-- capacity as fuel, which is enough as 2 ^ n is not below n. The rest of AsyncTcpFeed, the sockets and
-- the epoll loop, is not modelled.
--
-- Events (event_driven_core/). `EventCore.Spsc` is SPSCQueue, one operation after the other, and
-- `EventCore.Mpsc` is MPSCQueue with its heap of nodes, where other threads run between the two halves
-- of enqueue; `EventCore.Mpsc.Reach` has the runs of its steps. `EventCore.Bus` is EventBus over that
-- queue, a call of a handler being an entry of a list; process_events runs on fuel, one more than there
-- are events. The dispatcher and the thread pool are not modelled.
--
-- Market data (market_data/). `MarketData.Store` holds the searches of BinaryStore over its records, on
-- as much fuel as there are records and one more, which each round at least halves; a read out of range is
-- `none`. `MarketData.Replay` is HistoricalReplayEngine without its background thread and its pacing.
-- `MarketData.Portal` is DataPortal, its registry, clock, queries and subscriptions, and
-- `MarketData.Portal.Bars` the bars it builds; a look back that is negative, or a bar of no length, is
-- `none`.
--
-- Portfolio (portfolio/) and risk (risk/). `Portfolio.Position` and `Portfolio.Account` are Position and
-- Portfolio, and `Risk` is RiskEngine, which reads a portfolio. What they do with a double is the record
-- `Portfolio.Double.Double`, an instance argument; only `Risk.Watermark` uses laws of it, `IsOrdered`,
-- which the whole numbers meet.
--
-- Reporting (reporting/). `Reporting.Cli` is CliParser, and `Reporting.Config` is Config, on texts as
-- lists of character codes.
--
-- Research (research/). `Research.Windows` is make_windows, on two rounds of fuel more than there are
-- bars, which is enough while the start of a window does not wrap.
-- `Research.Scan` is ParameterScan with run_scan: the odometer runs as often as there are combinations,
-- whose number is a product that wraps; the size that a vector may have is a parameter.
--
-- Not modelled: the performance ratios, value at risk, the strategies and analytics, which are floating
-- point throughout; the report writers, which are output; and the threads and system calls of the
-- stores, the feeds, the dispatcher and the thread pool.
--
-- Numbers: quantities, ids and counters are natural numbers with the wrap-around of uint64_t written
-- out in `add64` and `sub64`; prices and times are integers, whose overflow
-- is not modelled but for the look back of history_bars. A cast of a quantity to a signed number
-- is written out in the bars and in the walk over the book, and is the number itself elsewhere.
pub mod Base
pub mod EventCore
pub mod Exchange
pub mod MarketData
pub mod Networking
pub mod Portfolio
pub mod Reporting
pub mod Research
pub mod Risk
