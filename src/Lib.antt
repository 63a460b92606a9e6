-- ===== src/Lib.antt =====
-- libmonetra, a client library for the Monetra payment engine: one connection carries any number of
-- transactions at once, each with an id of its own, over a framed text protocol; an event handler
-- moves the transactions on and tells the user.
--
-- The parts, and the files that model them:
-- - include/monetra_api.h, src/monetra_conn.h, src/monetra_trans.h: Types.antt. `Conn` is
--   struct LM_conn and `Trans` is struct LM_trans, with the source's field names; the enums are data
--   types with the source's values.
-- - src/monetra_conn.c: Conn.antt (LM_conn_init, the settings, LM_conn_destroy, the lists) and
--   Connect.antt (LM_conn_connect, LM_conn_disconnect). `conn_set_idle_timeout` is
--   LM_conn_set_idle_timeout, and so on.
-- - src/monetra_trans.c: Trans.antt (LM_trans_new, LM_trans_delete, the parameters),
--   Trans/Response.antt (LM_trans_response_*), Send.antt (LM_trans_send, LM_trans_run,
--   LM_trans_ping_request).
-- - src/monetra_trans_structure.c: Structure.antt (LM_trans_structure, LM_trans_send_messages).
-- - src/monetra_parse.c: Parse.antt (LM_conn_parse_msg, LM_conn_parse_trans_buffer) and
--   Parse/Content.antt (the kind of a response, and its key/value form).
-- - src/monetra_conn_event.c: Event.antt, each case of LM_conntrans_event_handler by itself, composed
--   by `handle`, `deliver` and `finish`.
-- - src/monetra_init.c: Legacy/Engine.antt, with M_InitEngine and M_InitConn.
-- - src/monetra_legacy.c: Legacy.antt, Legacy/EventLoop.antt for the functions that run the event loop
--   (M_Connect, M_Monitor_ex, M_TransSend, M_Disconnect, M_DestroyConn), and with
--   src/monetra_deprecated.c Legacy/Codes.antt, Legacy/Cells.antt and Legacy/Params.antt.
-- - apps/monetra_cli: Apps/CliOpts.antt (cli_opts.c), Apps/CliAmount.antt (cli_trans.c) and
--   Apps/CliRun.antt (monetra_cli.c). Apps/CliCount.antt is about the requests on their way.
-- - apps/monetra_load/src/monetra_load.c: Apps/Load.antt, the amounts and the numbers,
--   Apps/LoadOpts.antt, the options and a request for a sale, Apps/LoadRun.antt, the connections and
--   all other requests, and Apps/Replies.antt, the callback. Apps/Requests.antt is about these as calls
--   of the library; Apps/Submit.antt makes a request out of them.
-- - apps/monetra_connload/src/monetra_connload.c: Apps/ConnOpts.antt, the options, and
--   Apps/ConnRun.antt, the connections, whose event handler is the library's with this program's
--   callback. Apps/ConnState.antt says what holds between two events, Apps/ConnSafe.antt,
--   Apps/ConnTest.antt and Apps/ConnEvents.antt are about the functions, Apps/ConnWhole.antt about
--   any sequence of events, and Apps/ConnLate.antt about a timer that outlives its connection.
-- - mstdlib, which is not in the repository: Mstdlib.antt, a record of its functions that the model's
--   definitions take, and one record of documented behaviour for each of its parts.
--
-- They interact as follows. LM_trans_send puts a transaction into the READY queue and calls
-- LM_trans_send_messages, which connects if the connection is down, and otherwise structures every
-- READY transaction into the output buffer and makes it PENDING. The event handler reads the input
-- buffer by LM_conn_parse_trans_buffer, which finds the transaction by its id and makes it DONE, or
-- handles a lost connection by LM_conn_event_handle_conn_error. The old interface is a layer on top.
--
-- How the model stands to the code:
-- - Each function takes the connection and returns the new one. A function that the code calls under
--   the connection's lock is one step; the locks themselves are left out, and so is what another
--   thread does where the code gives the lock up for a moment.
-- - A pointer to a transaction is a number, and `heap` says what it points at: a release empties the
--   place, and reading an empty place sets `fault`. `conn` itself is never NULL. Any other NULL is
--   `none`.
-- - Calls with an effect outside the connection (timers, triggers, the network) are put on `log`.
-- - The ids that M_rand_range will draw are a list, so that LM_trans_new returns `none` where the code
--   would draw on for ever.
-- - A read event carries the bytes that M_io_read_into_parser gives for it, so that each read of a run
--   has bytes of its own. How many bytes a write takes, and whether a call of mstdlib succeeds, is a
--   function of its arguments.
-- - M_event_loop is of mstdlib: for each of its calls, a list has the events that the system then reports,
--   and LM_conntrans_event_handler handles them. Where the list is used up, the function blocks: `none`.
-- - The wait of M_TransSend runs on fuel of one more than the calls of M_event_loop that are left: each
--   round makes one, so that `none` means that one of these calls does not return.
-- - A program with many connections has them by number; each event comes for one of them, in any order.
--   The timers that such a program starts are a list.
-- - Milliseconds are computed modulo 2 ^ 64. Bytes are numbers.
-- - Loops over a queue or a buffer run on fuel of one more than its length: each round takes a member
--   of the queue, or at least one byte.
--
-- Invariant.antt states what holds of a connection between two calls, and its children show that the
-- operations keep it: Moves.antt has the moves between queues, the other ones an operation each,
-- of which Connected.antt and Finish.antt are two parts of the event handler. Conn/Settings.antt is
-- about the settings.
-- Lifecycle.antt follows a transaction through all operations: Sending, Reading, Responses, Pinging,
-- PingRequest, Handler, Deleting and Creating one part of the library each; System.antt has the steps
-- that a user and an event loop may make, Shape.antt sorts them, and Reached.antt and Owned.antt are
-- about every sequence of them. Answers.antt, Reporting.antt and Told.antt are about what the event
-- handler reports to the user. Running.antt and Runs.antt are about LM_trans_run, which is its calls one
-- by one, and LM_trans_response_csv. What is asked of the user there: pass transactions that are live, and
-- leave the ping to the library.
-- Parse/Framing.antt and Parse/Values.antt are about the protocol. In Legacy, Agreement.antt is about the
-- codes, Kept.antt about the event loop, Blocking.antt, Sending.antt, Leaving.antt and Waiting.antt
-- about the functions that run it. Tests.antt and its children have a small mstdlib for which the
-- documented behaviour holds, and apply each theorem to a concrete connection or program.
--
-- Not modelled: the functions of src/monetra_legacy.c that only return a constant or free a result, the
-- debug trace of src/monetra_conn.c, the programs under examples and test, which are clients of the
-- library, and of those under apps the output, the help and the set-up of M_getopt; nor is
-- apps/monetra_load/src/monetra_connload.c, an older copy of the connection load test that is not
-- built. Locks and other threads are left out, but for the place in M_Monitor_ex that asks whether
-- another thread runs the event loop.
mod Base
pub mod Mstdlib
pub mod Types
pub mod Connect
pub mod Trans
pub mod Structure
pub mod Send
pub mod Parse
pub mod Conn
pub mod Event
pub mod Legacy
pub mod Invariant
pub mod Lifecycle
pub mod Apps
mod Tests
