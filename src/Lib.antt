-- ===== src/Lib.antt =====
-- btrader: a trading system in C++ of processes that exchange events through journals,
-- append-only files of frames in fixed pages. A writer (core/journal/writer.cpp) appends to a
-- journal; readers (core/journal/reader.cpp) merge several journals by time and feed the event
-- loop of an engine (core/eventengine.cpp). Engines place orders with brokers; the simulated one
-- (broker/brokersim/brokersim.cpp) matches them against market depth and answers with trades, and
-- books (core/book.cpp) keep the positions. Strategies (strategies/consecutive_bar_strategy.cpp)
-- answer bars with orders; indicators (algorithm/algorithm.h) measure returns; infra/csv.cpp
-- reads and writes the files of a backtest; broker/binance brings the market data of an exchange
-- to the journals, and orders to it.
--
-- Files:
-- - Journal/Memory, Journal/Frame, Journal/Page: the memory of a page, the accessors of FrameUnit
--   (core/journal/frame.h) and of PageUnit (core/journal/page.h), PageUnit::load.
-- - Journal/Cursor: class Journal (core/journal/journal.cpp): next, load_page, load_next_page
--   with rollback, seek_to_time. The pages of a journal are a function from page ids to memories.
-- - Journal/Writer: class Writer: open_frame, close_frame, close_page, write. Its children prove
--   what one write does (Written, Append), what the turn of a page does (Turn), what a history of
--   writes leaves (Log) and how it starts (Opened). Journal/Chain reads a page as a list of
--   frames.
-- - Journal/Reader: class Reader and EventEngine::drain; Order is about sort, Delivery about
--   drain.
-- - CharArray: infra/array.h at char. Types, Types/Enums: core/types.h, core/enums.h.
-- - PositionBook: struct PositionBook of core/book.cpp; Slots describes each operation by what it
--   does to every slot, Trades what a trade makes of a slot, Invariants what trades preserve.
-- - Book: struct Book of core/book.cpp, its updates by trades and bars and its totals;
--   Book/Updates describes them; Book/Validation has its checks.
-- - KeyedBook: OrderInputBook, OrderBook and TradeBook of core/book.cpp; KeyedBook/Stores has
--   what these three store, KeyedBook/Hashed has CommissionBook and InstrumentBook.
-- - BrokerSim: class BrokerSim; Matching is process_order_matching and what it calls, Cancel the
--   cancellation, Keyed and Lifecycle the loop over the active orders, Levels the loop over the
--   price levels, Fractions orders of less than one unit.
-- - Wire: the bytes of Register and Deregister (core/types.cpp); Wire/Messages is about both.
-- - Csv: infra/csv.cpp. Csv/Fields has the functions on fields and lines, Csv/Writer and
--   Csv/Reader the two classes. Output and Rows relate the writer to the bytes of the file,
--   Quoting and Plain are about lines, Loop and Lines about read_all_rows, and Files joins writer
--   and reader.
-- - Time: struct TimeSpec and class time of infra/time.cpp; Time/Clock is about the clock and
--   next_minute.
-- - Strategy: class ConsecutiveBarStrategy. Settings is setup, Signals the history of bars,
--   Orders the orders that it sends, Events its callbacks. Exits, Entries, Runs, Invariants and
--   Tracking hold the lemmas: on the closing and the opening of positions, on sequences of
--   callbacks, on what these preserve, and on the orders that are tracked.
-- - Json: how entries of a JSON object are looked up. Binance: broker/binance. Data, Streams,
--   Subscriptions, Connection and Feed are class BinanceData; Bags and Runs are about its
--   subscriptions, Defaults and Reconnects about its settings and connection, Ladders and Guards
--   about what it writes. Broker, with Params and Requests, is class BinanceBroker;
--   Broker/Answers is about its responses, and Decimals about the numbers in them. RequestBook:
--   core/requestbook.cpp.
-- - FileData: broker/filedataservice; FileData/Replay relates its signals to the rows of the
--   file. Engines: the signals that engines/md, engines/td and engines/cp exchange in a backtest;
--   Engines/Lockstep describes them by an automaton.
-- - Indicators: algorithm/algorithm.h. Ratios, Capture and Moments hold the formulas, Copies
--   those that repeat another under a second name; Equivalences and Drawdown are about them.
-- - Double: the arithmetic of double, a parameter with laws of IEEE 754. Prelude: shared names,
--   tests, lists, integers and dictionaries. Tests: concrete inputs for the theorems.
--
-- Bounds and fuel: a cell of a page is the scalar or byte that begins at an offset, so widths of
-- header fields are not modelled; the sizes of pages are arbitrary. Reader loops take fuel; a
-- drain needs one unit more than the frames that it delivers; read_all_rows takes one more than
-- the bytes that are left, and so do the signals of FileData; a number of 64 bits is printed with
-- 20 digits at most. The counter of bars of a strategy, an int, and the times of Time do not
-- overflow in the model. The trade id of BrokerSim wraps at 64 bits, where the source has no
-- defined value.
--
-- Not modelled: set_buffer_size of CSVWriter, which may lose what is buffered, the flag live_ and
-- the result of EventEngine::drain, how the websocket client opens a lost connection again
-- (infra/websocket_client.cpp; that it does is an event of Binance/Connection), streams that
-- fail, exceptions for want of memory, mmap, directory listings, eventfd and epoll, the pipelines
-- that hand events to the engines, the writer's lock (one thread writes), printing and the
-- reading of configuration files. The clock, the market depth, the random price and the hash of a
-- string are arguments, as are what the websocket client returns, signatures, the conversions of
-- texts and doubles, std::sort, the square root, the power and the entries of a configuration.
-- The order of an unordered_map is taken ascending; no theorem depends on it.
pub mod Prelude
pub mod Journal
pub mod Double
pub mod CharArray
pub mod Types
pub mod PositionBook
pub mod BrokerSim
pub mod Book
pub mod KeyedBook
pub mod Wire
pub mod Time
pub mod Csv
pub mod Strategy
pub mod Indicators
pub mod Json
pub mod RequestBook
pub mod FileData
pub mod Engines
pub mod Binance
pub mod Tests
