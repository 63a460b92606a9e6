-- ===== src/Tests/Lives.antt =====
-- The theorems on whole runs at concrete inputs.
use libmonetra.Base.{◌≡◌, ◌⊎◌, refl, Bool, true, false, [], ◌∷◌, Option, none, some, arith, codes}
use libmonetra.Conn.{
  conn_get_trans_by_internal_id, conn_trans_count, conn_init, conn_change_server, new_conn,
  conn_destroy,
}
use libmonetra.Event.{
  handle, finish, conntrans_event_handler, on_disconnected, handle_conn_error, reset_io, drop_timer,
  rewrite_type, fail_loop, deliver, remove_delayed, on_read, read_loop, on_response, drop_timeout,
  after_read,
}
use libmonetra.Invariant.Create.{created, trans_new-created}
use libmonetra.Legacy.{Session}
use libmonetra.Legacy.EventLoop.{
  World, send_trans, destroy_conn, await_done, is_done, event_callback, waiting, handle_batch,
  event_loop, await_disconnect, disconnect, monitor_ex, send_and_wait, send_found,
}
use libmonetra.Legacy.Kept.{Ready, Keeping, AllTimed}
use libmonetra.Legacy.Sending.{send_trans-Sends}
use libmonetra.Legacy.Leaving.{destroy_conn-frees}
use libmonetra.Legacy.Waiting.{await_done_enough, IsSent, Blocks}
use libmonetra.Lifecycle.Good.{Good, IsLive, Keeps-IsLive}
use libmonetra.Lifecycle.Handler.{Handles, handle-Good}
use libmonetra.Lifecycle.Owned.{IsOwned, Stays, here, further, Spare-Stays}
use libmonetra.Lifecycle.Reached.{Sound, Reach-Sound, Reach-frees}
use libmonetra.Lifecycle.Shape.{flag-Good}
use libmonetra.Connect.{conn_disconnect}
use libmonetra.Lifecycle.Sending.{trans_set_param-Keeps}
use libmonetra.Lifecycle.System.{Step, Reach, start, next, creates, sets_param, sends}
use libmonetra.Parse.Framing.{frame}
use libmonetra.Parse.{
  parse_trans_buffer, parse_loop, parse_round, parse_frame, parse_msg, after_id, dispatch, complete,
}
use libmonetra.Send.{trans_send, enqueue}
use libmonetra.Structure.{
  send_messages, send_loop, send_one, trans_structure, structure_data, is_ping, start_timeout,
  wake_writer,
}
use libmonetra.Tests.Connection.{single, single-Valid, request}
use libmonetra.Tests.Reference.{reference, reference_queue, reference_ids}
use libmonetra.Trans.{trans_new, trans_status, blank, draw_id, trans_set_param}
use libmonetra.Types.{Conn, status_new, status_pending, connected, io_disconnected, io_read}

-- A connection, a transaction, a parameter, the request.
abbrev pub empty : Conn
empty = (conn_change_server (new_conn (7 ∷ 8 ∷ [])) (some (codes "localhost")) 8665).0

abbrev pub with_one : Conn
with_one = created reference empty 7 (8 ∷ [])

abbrev filled : Conn
filled =
    (trans_set_param reference with_one (some 1) (some (codes "action")) (some (codes "sale"))).0

abbrev asked : Conn
asked = (trans_send reference filled (some 1)).0

pub empty_reached : Reach reference empty
unfolding conn_init
empty_reached = start (7 ∷ 8 ∷ []) (some 1) (some 2) (some (codes "localhost")) 8665 refl

drawn : draw_id reference empty.rnd empty.trans_id_map ≡ some (7, 8 ∷ [])
unfolding conn_change_server draw_id
drawn = refl

pub made : trans_new reference empty ≡ some (with_one, empty.next)
made = trans_new-created reference empty 7 (8 ∷ []) drawn

create : Step reference empty with_one
create = creates empty.next made

with_one-IsLive : IsLive with_one 1
unfolding conn_change_server
with_one-IsLive = (blank reference 7, refl, refl)

filled-IsLive : IsLive filled 1
filled-IsLive =
    let (t, live, free) = with_one-IsLive in
    Keeps-IsLive with_one filled 1
      (trans_set_param-Keeps reference with_one 1 t (some (codes "action")) (some (codes "sale"))
        live)
      (t, live, free)

filled_reached : Reach reference filled
filled_reached =
    next (next empty_reached create)
      (sets_param 1 (some (codes "action")) (some (codes "sale")) with_one-IsLive refl)

abbrev send : Step reference filled asked
send = sends 1 filled-IsLive refl

asked_reached : Reach reference asked
asked_reached = next filled_reached send

Reach-frees_example :
    let now = conn_destroy asked in
    let later = finish reference now.0 in
    (asked.in_use ≡ false → (now.1 ≡ true) × (now.0.heap 1 ≡ none))
    × (asked.in_use ≡ true → (now.1 ≡ false) × (later.1 ≡ true) × (later.0.heap 1 ≡ none))
Reach-frees_example = Reach-frees reference reference_queue reference_ids asked 1 asked_reached

filled-IsOwned : IsOwned filled 1
unfolding trans_set_param conn_change_server
filled-IsOwned = (filled-IsLive, λ e. absurd (ground (arith, e)))

Spare-Stays_example : Sound reference asked × Stays 1 filled asked
Spare-Stays_example =
    Spare-Stays reference reference_queue reference_ids 1 filled asked
      (Reach-Sound reference reference_queue reference_ids filled filled_reached) filled-IsOwned
      (further here send (λ e. absurd (ground (arith, e))))

-- A transaction of the user's on a connection that is up.
abbrev idle : Conn
idle = single status_new connected []

idle-Good : Good reference idle
idle-Good =
    let v = single-Valid status_new connected [] cc in
    record {
      valid = record { inv = v.inv; fresh = v.fresh };
      ping = λ p e. absurd (ground (arith, e));
    }

idle-Ready : Ready reference idle
idle-Ready = record {
  sound = record { good = idle-Good; settled = λ e. refl };
  idle = refl;
  alive = refl;
}

idle-IsOwned : IsOwned idle 1
idle-IsOwned = ((request status_new, refl, refl), λ e. absurd (ground (arith, e)))

abbrev session : Session
session = record {
  conn = idle;
  tlsctx = none;
  trust_loaded = false;
  blocking = true;
  txntimeout = 0;
  is_monitor_previously_successful = false;
}

-- Nothing at first, then the response.
abbrev world : World
world = [] ∷ ((io_read (some (frame reference 7 (codes "code=AUTH\r\n") [])), none) ∷ []) ∷ []

abbrev taken : Option (Session × World × Bool) → Session × World × Bool
taken none = (session, [], false)
taken (some r) = r

abbrev sent : Session × World × Bool
sent = taken (send_trans reference session 7 world)

sent_true : send_trans reference session 7 world ≡ some (sent.0, sent.1, true)
unfolding send_trans send_found send_and_wait event_loop handle_batch await_done monitor_ex waiting
    event_callback conn_get_trans_by_internal_id trans_send enqueue send_messages send_loop send_one
    trans_structure structure_data is_ping start_timeout wake_writer trans_status
    conntrans_event_handler handle on_read read_loop parse_trans_buffer parse_loop parse_round
    parse_frame parse_msg after_id dispatch complete on_response drop_timeout after_read
    libmonetra.Parse.Content.determine_response_type deliver finish remove_delayed conn_trans_count
sent_true = refl

all_timed : AllTimed idle world
all_timed = (tt, (tt, tt))

found : conn_get_trans_by_internal_id reference idle 7 ≡ some 1
unfolding conn_get_trans_by_internal_id
found = refl

send_trans-Sends_example :
    Ready reference sent.0.conn
    × Keeping idle sent.0.conn
    × (session.blocking ≡ true → true ≡ true → is_done sent.0.conn 1 ≡ true)
send_trans-Sends_example =
    send_trans-Sends reference reference_queue reference_ids session sent.0 7 1 world sent.1 true
      idle-Ready all_timed found idle-IsOwned sent_true

abbrev ended : World
ended = ((io_disconnected, none) ∷ []) ∷ []

abbrev gone : Option (Conn × Bool) → Conn
gone none = idle
gone (some (c, destroyed)) = c

abbrev left : Conn
left = gone (destroy_conn reference session ended)

left-true : destroy_conn reference session ended ≡ some (left, true)
unfolding destroy_conn disconnect await_disconnect handle_batch event_callback
    conntrans_event_handler handle on_disconnected handle_conn_error reset_io drop_timer
    rewrite_type fail_loop deliver finish remove_delayed conn_disconnect conn_destroy
left-true = refl

destroy_conn-frees_example : (true ≡ true) × (left.heap 1 ≡ none)
destroy_conn-frees_example =
    destroy_conn-frees reference reference_queue reference_ids session ended left true 1 idle-Ready
      (tt, tt) left-true

abbrev busy : Session
busy = record session { conn = single status_pending connected [] }

busy-Ready : Ready reference busy.conn
busy-Ready =
    let v = single-Valid status_pending connected [] cc in
    record {
      sound = record {
        good = record { valid = v; ping = λ p e. absurd (ground (arith, e)) };
        settled = λ e. refl;
      };
      idle = refl;
      alive = refl;
    }

busy-IsSent : IsSent busy.conn 1
busy-IsSent = (
  ((request status_pending, refl, refl), λ e. absurd (ground (arith, e))),
  λ t live. ground (arith, live),
)

-- The system reports nothing once, and nothing more.
abbrev silence : World
silence = [] ∷ []

no_result : await_done reference 9 busy 1 silence ≡ none
unfolding await_done monitor_ex waiting event_loop handle_batch trans_status conn_trans_count
no_result = refl

await_done_enough_example : Blocks reference 1 busy silence
await_done_enough_example =
    await_done_enough reference reference_queue reference_ids 9 busy 1 silence (omega arith)
      busy-Ready (tt, tt) busy-IsSent no_result

abbrev at_work : Conn
at_work = record busy.conn { in_use = true }

handle-Good_example :
    Handles reference at_work (handle reference at_work io_disconnected none)
    ⊎ ((handle reference at_work io_disconnected none ≡ none)
        × (draw_id reference at_work.rnd at_work.trans_id_map ≡ none))
handle-Good_example =
    handle-Good reference reference_queue reference_ids at_work io_disconnected none refl
      (λ p e. absurd (ground (arith, e)))
      (flag-Good reference busy.conn at_work (refl, omega arith) busy-Ready.sound.good refl)
