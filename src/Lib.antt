-- ===== src/Lib.antt =====
-- The market-simulation track: its limit order book, and the checks that decide whether a submitted
-- run counts.
--
-- The parts of the program and how they interact. A simulator runs the exchange agent, whose book is
-- that of baselines/fast_sim/hotpath.py, and writes two tables: the canonical trace of events and the
-- ledger of messages. The scoring package reads both tables back. qfbench2_track_simulation/semantics.py
-- compares the trace with the reference trace and checks the ledger, on its own and against the
-- reference ledger; qfbench2_track_simulation/batch.py does the same for every sub-scenario of a batch;
-- and qfbench2_track_simulation/telemetry.py computes the ranked rate from the trusted run record.
-- qfbench2_track_simulation/scoring.py is the gate: it runs the integrity checks, the verifier and the
-- semantic checks on what a submission wrote, and hands out a rate only if all of them pass.
-- qfbench2_track_simulation/domain.py and limits.py fix the ceiling of a roster and the paths that a
-- unit may write, host_metrics.py reads the local measurements, and the modules of throughput/ report
-- what is beside the rate and select the awards.
--
-- Which file models which part.
--
-- Common: library names passed on, Boolean tests on numbers, lists, integers (Common/Int), results with
-- their bind and texts as lists of characters (Common/Result), and JSON values (Common/Json).
--
-- Book, for baselines/fast_sim/hotpath.py. Orders and faults are in Book/Order; price levels
-- (_pl_peek, _pl_pop, _pl_add, _pl_remove, _pl_is_match, _new_level, pl_init,
-- pl_update_order_quantity) in Book/Level; the state of the book and of the exchange agent that owns
-- it, with the messages that it sends, in Book/Exchange; execute_order in Book/Execute; enter_order in
-- Book/Enter; cancel_order in Book/Cancel; handle_limit_order and handle_market_order in Book/Handle.
-- Mutable objects are values: an order object that the book shares between its two price-to-comply
-- halves has an identity (ref), by which the other half is found. A raise is a value of Fault. The
-- abstract view of a side is the flat list of its orders (entries): Book/Priority describes the entry
-- of an order in it, by the precedence of Book/Precedence, and Book/Flat the matching. Book/Valid defines well-formed sides and Book/Limit
-- well-formed exchanges, for books without price-to-comply orders; Book/Cached relates the cached
-- quantity of a level to its visible orders.
--
-- Semantics, for qfbench2_track_simulation/semantics.py. A frame is a list of rows and the columns
-- that it has. Semantics/Ledger models check_message_semantics and Semantics/Faithful describes a
-- faithful ledger without it; Semantics/Trace models check_tier_a with _canonical_key_matrix and
-- _file_order_positions; Semantics/Reference models check_message_reference and
-- check_protocol_fidelity; Semantics/Sanity models the numeric sanity checks of the rows,
-- Semantics/Proximity check_tier_b, and Semantics/Regression semantic_regression_pass, which
-- chooses the check by the family and the card; the exceptions that these raise are values
-- (Semantics/Attempt). The 64-bit subtraction and absolute value of numpy wrap around as in the
-- code. The drop_duplicates of pandas, the sort of numpy and the statistics of SciPy are
-- parameters, and so is the type of floats. A message is given by its kind, not by its text.
--
-- Telemetry, for qfbench2_track_simulation/telemetry.py. Telemetry/Verdict has the results that name
-- whose fault a refusal is, Telemetry/Timing the functions. The float operations, the median and the
-- shared contract helper telemetry_admissible_for_timing are parameters.
--
-- Batch, for qfbench2_track_simulation/batch.py. Batch/Isolation models score_subs, with the files of
-- a sub-scenario as data and the semantic check as a table of what it gives for each of them;
-- Batch/Aggregate models check_aggregate.
--
-- Limits, for qfbench2_track_simulation/domain.py, limits.py and host_metrics.py. Limits/Domain models
-- the width of a unit and the ceiling that a roster requires, Limits/Paths the allowed, the stable and
-- the volatile paths, Limits/Host the map of local measurements and the refusal of an implausible
-- self-report. The documents of the batches and the parsed file of the host are data.
--
-- Scoring, for qfbench2_track_simulation/scoring.py. Scoring/Files has the files of a run as data, and
-- Scoring/Card and Scoring/Contract what the shared package reads and decides, as parameters;
-- Scoring/Integrity, Scoring/Binding and Scoring/Schema model the checks in the order of the code,
-- Scoring/Exactness the semantic part and Scoring/Score score_unit with the refusals that name whose
-- fault they are. HierarchicalVerifier is a parameter. A refusal has a label, not the text of its
-- message.
--
-- Throughput, for throughput/diagnostics.py, frontier.py and awards.py, in the modules Diagnostics,
-- Frontier and Awards. The floats are a type with a comparison and the operations as parameters, for
-- numbers that are no NaN, and the floor of utilization is an argument.
--
-- Kernel, for the event queue and the loop of baselines/fast_sim/hotpath.py. Kernel/Queue models
-- EventQueue with the heap as its ascending list of items, Kernel/State send_message, set_wakeup and
-- kernel_runner; the latency drawn for a message is an argument, and what the agents do on an event is
-- a parameter of the loop, in Kernel/Timely any sequence of sends, wakeup requests and delays. The
-- loop takes the four parts of an item from the queue.
--
-- Bounds and fuel. Prices and quantities are natural numbers without a bound, as Python's are without
-- one; a price below 0, which the hidden half of a price-to-comply ask at 0 would have, is the fault
-- out_of_range. The cached quantity of a level is an integer, as the code may drive it below 0. The
-- matching loops run on fuel: the number of orders on the opposite side and one more, which is enough
-- since every round but the last takes an order from that side. The recursion of cancel_order runs on
-- the number of orders on its side and one more. The kernel loop is run for a number of rounds, as
-- nothing bounds what agents send.
--
-- What is not modelled: the gym interface of the kernel loop, the reading and building of the tables
-- (trace extraction and columns), the native code and the optimised agents beside the pure-Python
-- book, the reference baseline, and the harness that starts and times containers with the scripts
-- around it, which is input and output.
pub mod Batch
pub mod Book
pub mod Common
pub mod Kernel
pub mod Limits
pub mod Scoring
pub mod Semantics
pub mod Telemetry
pub mod Throughput
