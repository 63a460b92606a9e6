-- ===== src/Event.antt =====
-- src/monetra_conn_event.c
use libmonetra.Base.{
  ℕ, zero, suc, ◌+◌, Bool, true, false, ◌&&◌, ◌||◌, not, List, [], ◌∷◌, ◌++◌, Option, none, some,
  if◌then◌else◌, ◌==◌, map, is_some, is_nil, length, Bytes, codes,
}
use libmonetra.Conn.{conn_destroy}
use libmonetra.Connect.{conn_connect, conn_disconnect_connlocked}
use libmonetra.Mstdlib.{Mstdlib}
use libmonetra.Parse.{success, wait, error, parse_trans_buffer}
use libmonetra.Send.{trans_ping_request, write_now}
use libmonetra.Structure.{send_messages}
use libmonetra.Trans.{with_trans, trans_delete, trans_delete_unlocked}
use libmonetra.Types.{
  Conn, Trans, ConnStatus, LmEvent, IoEvent, connecting, connected, disconnecting, idle_timeout,
  disconnected, status_done, response_kv, conn_connected, conn_disconnect, conn_error, trans_done,
  trans_error, trans_noconnect, trans_timeout, io_connected, io_accept, io_read, io_write,
  io_disconnected, io_error, io_other, emit, store, set_error, millis, conn_status_eq, io_destroy,
  trigger_add, trigger_remove, timer_add, timer_set_firecount, timer_oneshot, timer_remove,
  timer_reset,
}

-- LM_conn_events_entry_t
abbrev pub Entry : Type 0
Entry = LmEvent × Option ℕ

-- What a handler returns: the connection, and the events to be delivered, oldest first.
abbrev pub Handled : Type 0
Handled = Conn × List Entry

-- LM_conn_event_add
abbrev pub event_add : List Entry → LmEvent → Option ℕ → List Entry
event_add events kind trans = events ++ ((kind, trans) ∷ [])

-- The timer of the connection, if there is one.
unfoldable pub drop_timer : Conn → Conn
drop_timer c =
    if is_some c.timer then record c { timer = none; log = timer_remove c.timer ∷ c.log } else c

-- A transaction's timer, if there is one.
unfoldable pub drop_timeout : Conn → ℕ → Conn
drop_timeout c p = with_trans c p λ t.
    if is_some t.timeout_timer
    then store p (record t { timeout_timer = none }) (emit (timer_remove t.timeout_timer) c)
    else c

abbrev pub is_io_error : IoEvent → Bool
is_io_error io_error = true
is_io_error _ = false

abbrev pub is_io_disconnected : IoEvent → Bool
is_io_disconnected io_disconnected = true
is_io_disconnected _ = false

-- An error in a disconnect that was asked for counts as the disconnect.
unfoldable pub rewrite_type : ConnStatus → IoEvent → IoEvent
rewrite_type status kind =
    if is_io_error kind
      && (conn_status_eq status disconnecting || conn_status_eq status idle_timeout)
    then io_disconnected
    else kind

-- The network object and all that is on its way.
unfoldable pub reset_io : Conn → Conn
unfolding drop_timer
reset_io c = drop_timer (record c {
  io = none;
  write_trigger = none;
  status = disconnected;
  outbuf = [];
  inbuf = [];
  log = trigger_remove c.write_trigger ∷ io_destroy c.io ∷ c.log;
})

abbrev pub noconnect_events : List ℕ → List Entry
noconnect_events ready = map (λ p. (trans_noconnect, some p)) ready

module _ (m : Mstdlib) where
  -- A pending transaction is done, with a response that says why.
  unfoldable pub fail_trans : Bytes → Trans → Trans
  fail_trans text t = record t {
    status = status_done;
    response_type = response_kv;
    response_params = some (
        m.dict_insert (m.dict_insert m.dict_create (codes "code") (some (codes "DENY")))
          (codes "verbiage") (some text));
  }

  unfoldable pub fail_one : Conn → ℕ → Conn
  unfolding drop_timeout
  fail_one c p =
      let moved = record c { trans_done = m.queue_insert c.trans_done p } in
      drop_timeout (with_trans moved p λ t. store p (fail_trans c.error t) moved) p

  unfoldable pub fail_loop : ℕ → Conn → List Entry → Handled
  fail_loop zero c events = (c, events)
  fail_loop (suc fuel) c events = elim (m.queue_take_first c.trans_pending) [
    | none ↦ (c, events)
    | some (p, rest) ↦
        fail_loop fuel (fail_one (record c { trans_pending = rest }) p)
          (event_add events trans_error (some p))
  ]

  -- LM_conn_event_handle_conn_error
  unfoldable pub handle_conn_error : Conn → List Entry → IoEvent → Handled
  unfolding reset_io rewrite_type
  handle_conn_error c events kind =
      let told =
        if conn_status_eq c.status idle_timeout
        then events
        else events ++ noconnect_events c.trans_ready in
      let (failed, events') = fail_loop (suc (length c.trans_pending)) (reset_io c) told in
      (
        failed,
        event_add events'
            (if is_io_disconnected (rewrite_type c.status kind)
              then conn_disconnect
              else conn_error)
            none,
      )

  -- LM_conn_cleanup_ping
  unfoldable pub cleanup_ping : Conn → Conn
  cleanup_ping c =
      let killed = record c { timer = none; log = timer_remove c.timer ∷ c.log } in
      let taken : Conn = elim c.pingtxn [
        | none ↦ killed
        | some p ↦ record killed { trans_pending = m.queue_take killed.trans_pending p }
      ] in
      let deleted = trans_delete m taken c.pingtxn in record deleted { pingtxn = none }

  -- The idle timer of a connection that is up.
  unfoldable pub add_idle_timer : Conn → Conn
  add_idle_timer c = if c.idle_timeout == 0 then c else record c {
    timer = some c.next;
    next = c.next + 1;
    log = timer_set_firecount c.next ∷ timer_add c.next ∷ c.log;
  }

  -- LM_conn_event_set_connected
  unfoldable pub set_connected : Conn → List Entry → Handled
  unfolding add_idle_timer
  set_connected c events =
      let up = record (cleanup_ping c) { status = connected } in
      (add_idle_timer (send_messages m up), event_add events conn_connected none)

  unfoldable pub add_write_trigger : Conn → Conn
  add_write_trigger c = record c {
    write_trigger = some c.next;
    next = c.next + 1;
    log = trigger_add c.next ∷ c.log;
  }

  unfoldable pub start_ping : Conn → Option Conn
  start_ping c =
      let timed = record c {
        timer = some c.next;
        next = c.next + 1;
        log = timer_oneshot c.next 5000 ∷ c.log;
      } in
      elim (trans_ping_request m timed) [
        | none ↦ none
        | some (c', p) ↦ some (record c' { pingtxn = some p })
      ]

  -- M_EVENT_TYPE_CONNECTED; `none` says that the draws for the ping's id are used up.
  unfoldable pub on_connected : Conn → Option Handled
  unfolding add_write_trigger start_ping
  on_connected c =
      if c.disable_ping
      then some (add_write_trigger (set_connected c []).0, (set_connected c []).1)
      else elim (start_ping c) [ none ↦ none | some c' ↦ some (add_write_trigger c', []) ]

  -- M_EVENT_TYPE_DISCONNECTED and M_EVENT_TYPE_ERROR
  unfoldable pub on_disconnected : Conn → IoEvent → Handled
  on_disconnected c kind =
      let text =
        if conn_status_eq c.status idle_timeout
        then codes "Idle connection timeout"
        else m.io_get_error_string c.io in
      handle_conn_error (set_error text c) [] kind

  abbrev pub is_pingtxn : Option ℕ → ℕ → Bool
  is_pingtxn none p = false
  is_pingtxn (some q) p = q == p

  -- A response is there: the connection is up, or the user hears of it.
  unfoldable pub on_response : Conn → ℕ → List Entry → Handled
  unfolding drop_timeout
  on_response c p events =
      if is_pingtxn c.pingtxn p
      then set_connected c events
      else (drop_timeout c p, event_add events trans_done (some p))

  -- The loop over the responses that are complete; `none` says that the fuel is used up.
  unfoldable pub read_loop : ℕ → Conn → List Entry → Option (Handled × Bool)
  read_loop zero c events = none
  read_loop (suc fuel) c events = elim (parse_trans_buffer m c) [
    | none ↦ none
    | some (c', parsed) ↦ elim parsed [
      | success p ↦ let (h, es) = on_response c' p events in read_loop fuel h es
      | wait ↦ some ((c', events), false)
      | error ↦ some ((c', events), true)
    ]
  ]

  -- Behind the loop: the idle timer, and a malformed response as an error of the connection.
  unfoldable pub after_read : Handled → Bool → Handled
  after_read (c, events) malformed =
      let reset =
        if is_nil c.trans_pending
        then emit (timer_reset c.timer (millis c.idle_timeout)) c
        else c in
      if malformed
      then handle_conn_error
          (set_error (codes "Invalid response format received. Disconnect.") reset) events io_error
      else (reset, events)

  unfoldable pub on_read : Conn → Option Bytes → Option Handled
  unfolding after_read
  on_read c none = some (c, [])
  on_read c (some bytes) =
      let inbuf = c.inbuf ++ bytes in
      elim (read_loop (suc (length inbuf)) (record c { inbuf = inbuf }) []) [
        | none ↦ none
        | some (h, malformed) ↦ some (after_read h malformed)
      ]

  unfoldable pub on_write : Conn → Conn
  unfolding write_now
  on_write c = if is_nil c.outbuf then c else write_now m c

  -- The timer of the connection: a ping without an answer, or an idle connection.
  unfoldable pub on_timer : Conn → Handled
  on_timer c =
      if conn_status_eq c.status connecting
      then handle_conn_error
          (set_error (codes "Failed to receive reply to PING request") (cleanup_ping c)) [] io_error
      else if conn_status_eq c.status connected && is_nil c.trans_pending
      then (record (conn_disconnect_connlocked c).0 { status = idle_timeout }, [])
      else (c, [])

  -- M_EVENT_TYPE_OTHER, with the transaction whose timer it is, if it is one's.
  unfoldable pub on_other : Conn → Option ℕ → Handled
  unfolding on_timer drop_timer
  on_other c (some p) = (
    with_trans c p
        λ t. store p (record t { timeout_timer = none }) (emit (timer_remove t.timeout_timer) c),
    (trans_timeout, some p) ∷ [],
  )
  on_other c none = let (c', events) = on_timer c in (drop_timer c', events)

  unfoldable pub handle : Conn → IoEvent → Option ℕ → Option Handled
  unfolding on_write on_other on_disconnected
  handle c io_connected trans = on_connected c
  handle c io_disconnected trans = some (on_disconnected c io_disconnected)
  handle c io_error trans = some (on_disconnected c io_error)
  handle c (io_read got) trans = on_read c got
  handle c io_write trans = some (on_write c, [])
  handle c io_other trans = some (on_other c trans)
  handle c io_accept trans = some (c, [])

  -- The transactions that were deleted while the events were handled: the node at the front is
  -- removed, and its transaction freed, until none is left.
  unfoldable pub remove_delayed : List ℕ → Conn → Conn
  remove_delayed [] c = record c { trans_delay_rm = [] }
  remove_delayed (p ∷ ps) c =
      remove_delayed ps (trans_delete_unlocked m (record c { trans_delay_rm = ps }) (some p))

  -- Behind the callbacks. The flag says that the connection was destroyed.
  unfoldable pub finish : Conn → Conn × Bool
  finish c =
      let cleaned = record (remove_delayed c.trans_delay_rm c) { in_use = false } in
      let again = conn_status_eq cleaned.status disconnected && not (is_nil cleaned.trans_ready) in
      let reconnected = if again then (conn_connect m cleaned).0 else cleaned in
      if reconnected.destroy then conn_destroy reconnected else (reconnected, false)

  -- The user's callback may call the library: it is a function on the connection.
  module _ (callback : LmEvent → Option ℕ → Conn → Conn) where
    -- The events are delivered until one of them asks for the connection's destruction.
    unfoldable pub deliver : List Entry → Conn → Conn
    deliver [] c = c
    deliver ((kind, trans) ∷ events) c =
        let c' = callback kind trans c in elim c'.destroy [ true ↦ c' | false ↦ deliver events c' ]

    -- LM_conntrans_event_handler
    unfoldable pub conntrans_event_handler : Conn → IoEvent → Option ℕ → Option (Conn × Bool)
    unfolding finish
    conntrans_event_handler c kind trans = elim (handle (record c { in_use = true }) kind trans) [
      | none ↦ none
      | some (c', events) ↦ some (finish (deliver events c'))
    ]
