-- ===== src/Lib.antt =====
-- Vigil: a low-latency TCP heartbeat monitor. One process (src/feed_monitor.cpp, src/main.cpp) keeps
-- a connection to each configured feed, sends PING frames and expects PONG frames; a feed that stays
-- silent is declared failed. A simulator (src/feed_simulator.cpp) plays the feeds. Both sides use the
-- class `Connection`, which turns socket events into frames, states and statistics.
--
-- Files, and the code that each models:
-- * Prelude and its modules: shared notation, lists, integers, bits, edits of lists, texts.
-- * Heartbeat (src/heartbeat.h, src/heartbeat.cpp): Defs has the message, the CRC table, the encoder
--   `encode_heartbeat` and the decoder `decode_heartbeat`; Words, Crc, Codec, Corruption and Detection
--   have the proofs.
-- * Stats (src/stats.h, src/stats.cpp): Defs has `RingBuffer` and `ConnectionStats`, Percentile
--   `percentile`; Window, Order and Percentile have the proofs.
-- * Config (src/config.h, src/config.cpp): Defs has the record and its defaults, Values trimming,
--   integers and booleans, Settings `apply_global_key`, Parse `validate_and_add_feed` and
--   `parse_config_file`, Cli `apply_cli_overrides`. Feeds has the proofs.
-- * Connection (src/connection.h, src/connection.cpp): Types has the state, Output the write path
--   (`queue_write`, `flush_write_buffer`), Handlers one function for each message, Events
--   `on_readable`, `on_writable` and `on_hangup_or_error`, Timers `send_ping`, `check_timeout` and
--   `rebind`. Outgoing, StateMachine, Drain, Accum, Rounds, Framing, Caller, Liveness,
--   Frames, Lifecycle, Session and Replies have the proofs.
-- * CommandInput (`on_command_fd_readable` of src/feed_monitor.cpp and src/feed_simulator.cpp, and the
--   extraction of words and numbers from a line): Defs has the two loops, Words the extraction; Lines
--   and Numbers have the proofs.
-- * FeedMonitor (src/feed_monitor.h, src/feed_monitor.cpp): Types has the slots and the two index
--   maps, Failure `on_connection_failed`, the backoff and `initiate_connect`, Feeds `add_feed`,
--   `remove_feed` and the forced commands, Reactor `handle_connection_event`, `on_timer_tick`, the
--   snapshot and the settings, Loop the constructor, `run`, `stop` and the command input, Accessors what
--   it tells tests and benchmarks. Backoff, Index, Directory, Rules, Kept, Runs,
--   Ticks, Retries, Reconnect, GiveUp, Routes, Descriptors, Moved, System and Reached have the
--   proofs.
-- * MonitorMain (src/main.cpp): the operator's commands and the flow of `main`, Limits
--   `raise_fd_limit`; Commands, Rules, Session, Routes and Quit have the proofs.
-- * FeedSimulator (src/feed_simulator.h, src/feed_simulator.cpp): Types has the state and
--   `on_ping_intercept`, Clients `accept_new_connections`, `handle_client_event`, `remove_client`,
--   `on_timer_tick` and `kill_random_connection`, Loop the constructor, `run`, `stop` and the command
--   input. Table, Replies, DueReplies, Runs, Ticks and Deferral have the proofs.
-- * SimulatorMain (src/main_simulator.cpp): Options has the options, Commands the operator's commands and
--   the flow of `main`; Digits, Numerals, Verdict and Session have the proofs.
-- * CliDisplay (src/cli_display.cpp, src/time_utils.h): Defs has `format_table` and its fields; Fields
--   and Table have the proofs.
-- * UniqueFd (src/unique_fd.h): Defs has one function for each method, and a program that works on
--   several owners; Ownership has the proofs. `Connection` uses the method `reset` in the form `reset_fd`.
-- * Bench (bench/): Common has measure, summarize, the spreads and current_rss_bytes of
--   bench_common.h and bench_common.cpp; Peer the echo peer, Worker the blocking worker, Throughput the
--   trials and the arguments of throughput_bench.cpp; Latency the trial of latency_bench.cpp.
-- * Demo (demo/lifecycle_demo.cpp): Defs has the tick callback and the end of `main`; Isolation has the proofs.
--
-- How the code is modelled:
-- * A method that changes the object is a function from the object and its surroundings (`Env`) to both.
--   `Env` has the results of the coming `send` calls, the bytes taken by the kernel, the reading of
--   `now_monotonic_ns` and a log of the other calls on descriptors. The results of `recv` are an
--   argument of `on_readable`. The `config_` pointer is an argument, read anew by each call. The state
--   that a PING interceptor of the owner works on is a parameter `S`.
-- * Bytes are natural numbers below 256, texts lists of character codes. uint64_t counters wrap
--   (`next_u64`). int64_t times are integers: their overflow is undefined behaviour in the source.
--   A double is the expression that computes it.
-- * A loop over `send` or `recv` runs along the list of their results. `drain_loop` runs on fuel, one
--   unit for each byte of the buffer: every round takes 28 bytes, so it does not run out.
-- * The monitor's maps are functions from a key to a place. Its surroundings (`World`) add the results of
--   the coming `socket` calls. The multiplication by a random factor (`jitter`) and the test of an
--   address by `inet_pton` (`parses`) are parameters.
-- * What `getopt_long` finds and the content of a file are arguments; a setting of the file and the flag
--   of the same meaning share one function, since their tests are the same.
-- * `run` runs along a list of returns of `epoll_wait` (`Wakeup`), each with its events; an event brings
--   what the system calls give while it is handled. At the end of the list the loop waits. A signal
--   that calls `stop` between two events is not part of the model.
-- * The simulator's random numbers and its tests of doubles are a parameter (`Chance`), applied to how
--   many numbers were drawn before. Its clients are the list of the entries of the map, in the order of
--   iteration. What the `accept4` and `read` calls of one wakeup return are arguments (`Accepts`,
--   `Reads`). `strtod`, the extraction of a double from a stream, and the printing and truncation of
--   doubles are parameters.
-- * A benchmark's threads are not modelled together: what the clock, `recv`, `send` and the flags give to
--   one of them is an argument. `std::sort` of doubles is an insertion sort by the hardware's `<`.
-- * Not modelled: logging, the usage texts, signal handlers, the write to the terminal,
--   the pinning of threads; the fuzzers and the tests, which drive the program.
pub mod Prelude
pub mod Heartbeat
pub mod Stats
pub mod Config
pub mod Connection
pub mod FeedMonitor
pub mod Bench
pub mod CliDisplay
pub mod CommandInput
pub mod Demo
pub mod FeedSimulator
pub mod MonitorMain
pub mod SimulatorMain
pub mod UniqueFd
