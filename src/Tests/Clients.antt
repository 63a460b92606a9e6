-- ===== src/Tests/Clients.antt =====
-- The theorems on whole programs at concrete inputs.
use libmonetra.Apps.CliCount.{queues, Counts, Answering-Counts}
use libmonetra.Apps.CliOpts.{ListLaws}
use libmonetra.Apps.CliRun.{Cli, on_event, queue_all, queue_lm_trans, queue_kvs}
use libmonetra.Apps.ConnLate.{late_timer-fault}
use libmonetra.Apps.ConnOpts.{ConnOpts, conn_opts}
use libmonetra.Apps.ConnRun.{
  Track, main_start, create_connection, conn_callback, destroy_connection, trans_delay_cb,
  finish_on, no_track,
}
use libmonetra.Apps.ConnState.{IsBounded}
use libmonetra.Apps.ConnWhole.{begins, Loading-IsBounded, Loading-Valid}
use libmonetra.Apps.LoadOpts.{method_ssl}
use libmonetra.Apps.LoadRun.{Conns, Phase, starting, run_phase}
use libmonetra.Apps.Replies.{
  Progress, answers, send_requests, send_requests-over, monetra_callback, on_done, is_denied,
}
use libmonetra.Base.{
  ℕ, ◌≤◌, ◌≡◌, ◌==◌, refl, true, false, List, [], ◌∷◌, Option, none, some, arith, codes, nth,
  is_some, if◌then◌else◌,
}
use libmonetra.Conn.{conn_init, conn_change_server, conn_destroy, conn_set_idle_timeout}
use libmonetra.Conn.Settings.{conn_set_idle_timeout-timer}
use libmonetra.Event.{Handled, handle, on_read, read_loop, on_response, drop_timeout, after_read}
use libmonetra.Lifecycle.Good.{Good}
use libmonetra.Parse.{
  parse_trans_buffer, parse_loop, parse_round, parse_frame, parse_msg, after_id, dispatch, complete,
}
use libmonetra.Invariant.{Valid}
use libmonetra.Lifecycle.Reporting.{times, IsAnswered}
use libmonetra.Lifecycle.Told.{handle-IsAnswered}
use libmonetra.Parse.Framing.{frame}
use libmonetra.Tests.Connection.{single, single-Valid}
use libmonetra.Tests.Lives.{empty}
use libmonetra.Tests.Programs.{cli, load}
use libmonetra.Tests.Reference.{reference, reference_queue, reference_ids}
use libmonetra.Trans.{trans_new, trans_new_internal, draw_id, register_id}
use libmonetra.Types.{
  Conn, IoEvent, status_pending, connected, io_read, conn_connected, conn_disconnect,
}

cli_list : ListLaws cli
cli_list = record { first_nil = refl; first_cons = λ d list. refl; take_node = λ q x. refl }

-- No delay, and the numbers of every random generator.
abbrev prompt : ConnOpts
prompt = record conn_opts { delay_per_trans_ms = 0 }

abbrev draws : ℕ → List ℕ
draws p = 7 ∷ 8 ∷ []

abbrev started : Track
started = main_start reference cli prompt none draws

Loading-IsBounded_example : (started.fault ≡ false) × IsBounded prompt started.track_conns
Loading-IsBounded_example =
    Loading-IsBounded reference cli prompt none draws reference_queue reference_ids cli_list started
      refl begins

-- A connection that is there.
abbrev conn_of : Option Conn → Conn
conn_of none = empty
conn_of (some c) = c

abbrev first_conn : Conn
first_conn = conn_of (started.conns 1)

started-going : started.over ≡ false
unfolding main_start create_connection conn_init conn_change_server conn_opts
started-going = refl

first_there : started.conns 1 ≡ some first_conn
unfolding main_start create_connection conn_init conn_change_server conn_opts
first_there = refl

Loading-Valid_example :
    (first_conn.fault ≡ false)
    × Valid reference first_conn
    × ((n : ℕ) × (started.num_txns 1 ≡ some n))
Loading-Valid_example =
    Loading-Valid reference cli prompt none draws reference_queue reference_ids cli_list started 1
      first_conn refl begins started-going first_there

-- A connection whose peer closes it while its timer waits.
abbrev waiting : Track
waiting = record no_track {
  conns = λ p. if 1 == p then some (record empty { in_use = true }) else none;
  num_txns = λ p. if 1 == p then some 1 else none;
  track_conns = 1 ∷ [];
  next = 2;
  timers = 1 ∷ [];
}

abbrev track_of : Option Track → Track
track_of none = no_track
track_of (some s) = s

abbrev closed : Track
closed = track_of (conn_callback reference cli conn_opts none draws waiting 1 conn_disconnect none)

abbrev ended : Track
ended = finish_on reference cli conn_opts none draws closed 1

closed_by_peer :
    conn_callback reference cli conn_opts none draws waiting 1 conn_disconnect none ≡ some closed
unfolding conn_callback destroy_connection create_connection conn_init conn_change_server conn_opts
    conn_destroy
closed_by_peer = refl

closed-going : closed.over ≡ false
unfolding conn_callback destroy_connection create_connection conn_init conn_change_server conn_opts
    conn_destroy
closed-going = refl

late_timer-fault_example :
    (closed.timers ≡ waiting.timers)
    × ((s : Track) × (trans_delay_cb reference cli conn_opts none draws ended 1 ≡ some s)
        × (s.fault ≡ true))
late_timer-fault_example =
    late_timer-fault reference cli conn_opts none draws waiting closed 1 1
      (record empty { in_use = true }) refl refl (omega arith) closed_by_peer closed-going

-- Two requests of the client, one after the other.
abbrev two : Cli
two = record {
  kvs =
      ((codes "action", some (codes "sale")) ∷ [])
      ∷ ((codes "action", some (codes "void")) ∷ [])
      ∷ [];
  outstanding_cnt = 0;
  send_serial = true;
  strings = λ i. none;
  next_string = 1;
  printed = [];
  over = false;
}

abbrev cli_of : Option (Cli × Conn) → Cli × Conn
cli_of none = (two, empty)
cli_of (some r) = r

abbrev one_sent : Cli × Conn
one_sent = cli_of (on_event reference cli two empty conn_connected none none)

one_queued : on_event reference cli two empty conn_connected none none ≡ some one_sent
unfolding on_event queue_all queue_lm_trans queue_kvs trans_new trans_new_internal draw_id
    register_id conn_change_server
one_queued = refl

Answering-Counts_example :
    Counts reference cli cli_list 2 one_sent.0 × ((one_sent.0.outstanding_cnt == 0) ≡ (2 == 0))
Answering-Counts_example =
    Answering-Counts reference cli cli_list two one_sent.0 2 (omega arith) refl
      (queues empty one_sent.1 one_queued)

-- The load test with one connection, which it has started.
abbrev up : Phase
up = starting none ((7 ∷ 8 ∷ []) ∷ []) (codes "localhost") 8665 method_ssl

abbrev conns_of : Option Conns → Conns
conns_of none = []
conns_of (some conns) = conns

abbrev one_conn : Conns
one_conn = conns_of (run_phase reference cli up [] load)

abbrev loaded : Conn
loaded = conn_of (nth 0 one_conn)

-- Two responses on a connection of which nothing is known, where approval is not asked for.
abbrev idle : Progress
idle = record {
  connections_established = 1;
  transactions_done = 5;
  expected_connections = 1;
  expected_trans = 5;
  expect_approved = false;
  delete_txn_handle = true;
  over = true;
  failed = false;
}

abbrev begun : Progress
begun = (send_requests idle 2 false true).0

abbrev two_answers : List (Conn × Option ℕ)
two_answers = (empty, none) ∷ (empty, none) ∷ []

all_fine : (answers reference begun two_answers).failed ≡ false
unfolding send_requests monetra_callback on_done is_denied
all_fine = refl

send_requests-over_example :
    ((answers reference begun two_answers).over ≡ true)
    × ((answers reference begun two_answers).transactions_done ≡ 2)
send_requests-over_example =
    send_requests-over reference idle 2 false true two_answers (omega arith) all_fine

-- A request that waits, and the frame that a read then gives.
abbrev response : IoEvent
response = io_read (some (frame reference 7 (codes "code=AUTH\r\n") []))

abbrev answered : Conn
answered = record (single status_pending connected []) { in_use = true }

answered-Good : Good reference answered
answered-Good =
    let v = single-Valid status_pending connected [] cc in
    record {
      valid = record { inv = v.inv; fresh = v.fresh };
      ping = λ p e. absurd (ground (arith, e));
    }

abbrev handled_of : Option Handled → Handled
handled_of none = (empty, [])
handled_of (some r) = r

abbrev told_user : Handled
told_user = handled_of (handle reference answered response none)

told_is : handle reference answered response none ≡ some told_user
unfolding handle on_read read_loop parse_trans_buffer parse_loop parse_round parse_frame parse_msg
    after_id dispatch complete on_response drop_timeout after_read
    libmonetra.Parse.Content.determine_response_type
told_is = refl

told_count : times 1 told_user.1 ≡ 1
unfolding handle on_read read_loop parse_trans_buffer parse_loop parse_round parse_frame parse_msg
    after_id dispatch complete on_response drop_timeout after_read
    libmonetra.Parse.Content.determine_response_type
told_count = refl

told_once : 1 ≤ times 1 told_user.1
told_once = ground (arith, told_count)

handle-IsAnswered_example : (times 1 told_user.1 ≡ 1) × IsAnswered told_user.0 1
handle-IsAnswered_example =
    handle-IsAnswered reference reference_queue reference_ids answered told_user.0 response none
      told_user.1 1 refl answered-Good refl told_is told_once

conn_set_idle_timeout-timer_example :
    let c = single status_pending connected [] in
    let c' = (conn_set_idle_timeout c 20).0 in (is_some c'.timer ≡ true) × (c'.idle_timeout ≡ 20)
conn_set_idle_timeout-timer_example =
    conn_set_idle_timeout-timer (single status_pending connected []) 20 refl
