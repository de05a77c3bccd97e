-- ===== src/Lib.antt =====
-- Kiln Print: a verification library for the print agent of this repository.
--
-- The agent takes print requests from local clients, keeps a job for each, renders its document,
-- queues it for its printer, hands it to the operating system's spooler or to a device, and follows
-- it until it ends. What makes that hard is modelled here: the life cycle of a job, the table of
-- active jobs that several tasks change, and what becomes of a job when it is cancelled, when its
-- provider fails, and when the agent stops and starts again.
--
-- The parts, and the code that each is about:
--   Error        print-core/src/error.rs: codes and errors; a message is a list of its parts
--   Job          print-core/src/model/job.rs; Job/Status, the life cycle of a status (JobStatus)
--   Printer      print-core/src/model/printer.rs: the data of a printer
--   Repository   print-core/src/repository.rs: the trait as a record over any store, and the
--                in-memory store as an association list; Repository/Laws: what the engine relies on;
--                Repository/Writes and Repository/Refinement: the abstract map of the store
--   Engine       print-core/src/engine/mod.rs: Inner::mutate, Inner::track, PrintEngine::job
--   Engine/Types   the state of the engine, and the events of print-core/src/events.rs
--   Engine/Changes the closures that are handed to Inner::mutate
--   Engine/Submit  submit, prepare, enqueue; a request, and what the engine sees of providers,
--                protocols, renderers and channels, which are arguments
--   Engine/Discovery print-core/src/engine/discovery.rs: refresh, refresh_if_stale; find_printer,
--                resolve_printer
--   Engine/Names, Error/Names the names on the wire
--   Engine/Worker  print-core/src/engine/worker.rs: process
--   Engine/Monitor print-core/src/engine/monitor.rs: run, apply
--   Engine/Cancel  PrintEngine::cancel
--   Engine/Restart reconcile_after_restart, shutdown
--   Engine/Trace   every interleaving of the steps of all tasks; Engine/Trace/Reached, the states
--                that they reach
--   Engine/Queue   PrintEngine::queue and queue_summary
--   Page         print-core/src/model/page.rs: page ranges
--   Status       providers/windows/src/status.rs and providers/tcp/src/status.rs; Status/Order, the
--                order of conditions; Status/Flags, flags of a status word
--   Layout       providers/windows/src/layout.rs: wrapping lines and filling pages
--   Escpos       protocols/src/escpos_commands.rs: the commands of receipt printers
--   Label        print-core/src/model/label.rs: labels and their validation; Label/Barcode, what the
--                encoders of protocols/src/label/mod.rs share; Label/Zpl and Label/Epl, the encoders
--                of protocols/src/label/zpl.rs and epl.rs
--   Mock         providers/mock/src/lib.rs: the scripted provider; Mock/Views, what it reports
--   Agent        agent/src: Security, Origin and Token for agent/src/security and the clients of
--                agent/src/config.rs; Service for api/service.rs, over the engine as an interface;
--                Wire for the parameters of api/wire.rs; Sessions for api/sessions.rs; Task, the
--                operations that change the engine's state and may fail; Hello and Connection for the
--                WebSocket connections of api/ws.rs; Prints for the print parameters of api/wire.rs
--                and the documents of print-core/src/model/document.rs
--   Budget       print-core/src/queue.rs: ByteBudget, by single atomic operations
--   Queues       print-core/src/queue.rs: PrinterQueues
--   Prelude      shared names, tests, lists and maps; Examples holds inputs and tests
--
-- State is passed explicitly. The shared state of the engine is the record Inner: the store, the
-- table of active jobs, the events sent so far and the marks of cancellation. A task that awaits
-- something gives the state up: what all other tasks do meanwhile is a function on the state, an
-- argument of the model. Times, ids and sizes are natural numbers; the counter of the budget wraps
-- at 2^64, and the corner of a box in EPL at 2^32. The clock is an argument, as is what a provider
-- answers. A loop over polls or jobs is recursion on their list, so no fuel is needed; the chunks of
-- a page take as much fuel as the page has lines, which is enough since each takes one; the digits
-- of a numeral take the number and one more, those of a status word the word itself, since each
-- digit divides it by its base.
--
-- The code sends an event just after it gave up the lock of the table, the model within the same
-- step: the code may send the events of two jobs in another order. A failure to store a change is
-- ignored, as in the code, which logs it. Discovery sends its events in the order of an association
-- list.
--
-- Not modelled: operating-system, network and file input and output, third-party libraries
-- (renderers, HTTP, SQLite), logging, and the client library in TypeScript; what the code computes
-- in floating point (the rate limit, the placement of pages; the lengths on labels are an argument);
-- and, so far, the encoders of TSPL and CPCL, receipts and dot-matrix documents, the REST interface
-- and the configuration.
mod Prelude
pub mod Error
pub mod Job
pub mod Printer
pub mod Page
pub mod Status
pub mod Layout
pub mod Mock
pub mod Escpos
pub mod Label
pub mod Repository
pub mod Engine
pub mod Agent
pub mod Budget
pub mod Queues
mod Examples
