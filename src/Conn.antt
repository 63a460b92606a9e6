-- ===== src/Conn.antt =====
-- src/monetra_conn.c: construction, settings, destruction and the lists of transactions.
-- `conn` is never NULL here: the state is the connection itself.
pub mod Settings
use libmonetra.Base.{
  ℕ, ◌+◌, Bool, true, false, ◌&&◌, ◌||◌, not, List, [], ◌∷◌, ◌++◌, Option, none, some,
  if◌then◌else◌, ◌==◌, is_some, is_nil, length, Bytes,
}
use libmonetra.Mstdlib.{Mstdlib}
use libmonetra.Trans.{str_isempty}
use libmonetra.Types.{
  Conn, Trans, ConnStatus, TransStatus, LmMode, connecting, connected, disconnected, status_all,
  status_new, status_ready, status_pending, status_done, mode_tls, emit, millis, update,
  conn_status_eq, trans_status_eq, timer_remove, timer_add, timer_set_firecount, timer_reset,
  tls_set_cert, tls_set_cert_files, trigger_remove, io_destroy, tls_destroy, tls_upref,
  conn_destroyed,
}

-- LM_conn_status_t allows a change of the settings.
abbrev pub may_change : Conn → Bool
may_change c = not (conn_status_eq c.status connecting) && not (conn_status_eq c.status connected)

unfoldable pub conn_change_server : Conn → Option Bytes → ℕ → Conn × Bool
conn_change_server c none port = (c, false)
conn_change_server c (some host) port =
    if is_nil host || port == 0
    then (c, false)
    else if may_change c
    then (record c { host = host; port = port }, true)
    else (c, false)

-- The connection that LM_conn_init allocates, before its server is set. The numbers that its random
-- generator will give are an argument.
abbrev pub new_conn : List ℕ → Conn
new_conn draws = record {
  rnd = draws;
  trans_new = [];
  trans_ready = [];
  trans_pending = [];
  trans_done = [];
  trans_id_map = [];
  status = disconnected;
  io = none;
  tlsctx = none;
  in_use = false;
  trans_delay_rm = [];
  destroy = false;
  outbuf = [];
  inbuf = [];
  timer = none;
  write_trigger = none;
  pingtxn = none;
  error = [];
  host = [];
  port = 0;
  mode = mode_tls;
  disable_ping = false;
  conn_timeout = 10;
  idle_timeout = 0;
  user_data = none;
  iocreate_cb = none;
  iocreate_cbarg = none;
  heap = λ p. none;
  next = 1;
  log = [];
  fault = false;
}

unfoldable pub conn_init : List ℕ → Option ℕ → Option ℕ → Option Bytes → ℕ → Option Conn
unfolding conn_change_server
conn_init draws event event_callback host port =
    if not (is_some event) || not (is_some event_callback) || str_isempty host || port == 0
    then none
    else some (conn_change_server (new_conn draws) host port).0

unfoldable pub conn_change_mode : Conn → LmMode → Conn × Bool
conn_change_mode c mode = if may_change c then (record c { mode = mode }, true) else (c, false)

unfoldable pub conn_disable_ping : Conn → Conn
conn_disable_ping c = record c { disable_ping = true }

unfoldable pub conn_set_userdata : Conn → Option ℕ → Conn × Bool
conn_set_userdata c user_data = (record c { user_data = user_data }, true)

unfoldable pub conn_set_conn_timeout : Conn → ℕ → Conn × Bool
conn_set_conn_timeout c to_secs =
    if to_secs == 0
    then (c, false)
    else if may_change c
    then (record c { conn_timeout = to_secs }, true)
    else (c, false)

-- The context that is there loses a reference, the new one gains one.
unfoldable pub swap_tlsctx : Conn → Option ℕ → Conn
swap_tlsctx c ctx =
    let cleared = if is_some c.tlsctx then emit (tls_destroy c.tlsctx) c else c in
    elim ctx [
      | none ↦ record cleared { tlsctx = none }
      | some n ↦ record cleared { tlsctx = some n; log = tls_upref n ∷ cleared.log }
    ]

unfoldable pub conn_set_tls_clientctx : Conn → Option ℕ → Conn × Bool
unfolding swap_tlsctx
conn_set_tls_clientctx c ctx = if may_change c then (swap_tlsctx c ctx, true) else (c, false)

module _ (m : Mstdlib) where
  unfoldable pub conn_set_tls_cert : Conn → Option Bytes → Option Bytes → Conn × Bool
  conn_set_tls_cert c none crt = (c, false)
  conn_set_tls_cert c (some key) none = (c, false)
  conn_set_tls_cert c (some key) (some crt) =
      if is_nil key || is_nil crt
      then (c, false)
      else let done = may_change c && m.tls_set_cert c.tlsctx key crt in
        (if done then emit (tls_set_cert c.tlsctx key crt) c else c, done)

  unfoldable pub conn_set_tls_cert_files : Conn → Option Bytes → Option Bytes → Conn × Bool
  conn_set_tls_cert_files c none crtpath = (c, false)
  conn_set_tls_cert_files c (some keypath) none = (c, false)
  conn_set_tls_cert_files c (some keypath) (some crtpath) =
      if is_nil keypath || is_nil crtpath
      then (c, false)
      else let done = may_change c && m.tls_set_cert_files c.tlsctx keypath crtpath in
        (if done then emit (tls_set_cert_files c.tlsctx keypath crtpath) c else c, done)

  unfoldable pub conn_get_trans_by_internal_id : Conn → ℕ → Option ℕ
  conn_get_trans_by_internal_id c id = m.u64vp_get c.trans_id_map id

unfoldable pub conn_set_iocreate_callback : Conn → Option ℕ → Option ℕ → Conn × Bool
conn_set_iocreate_callback c cb cb_arg =
    if may_change c
    then (record c { iocreate_cb = cb; iocreate_cbarg = cb_arg }, true)
    else (c, false)

-- The three steps that LM_conn_set_idle_timeout takes while connected.
unfoldable pub stop_disabled : Conn → Conn
stop_disabled c =
    if c.idle_timeout == 0 && is_some c.timer
    then record c { timer = none; log = timer_remove c.timer ∷ c.log }
    else c

unfoldable pub start_missing : Conn → Conn
start_missing c =
    if not (c.idle_timeout == 0) && not (is_some c.timer)
    then record c {
      timer = some c.next;
      next = c.next + 1;
      log = timer_set_firecount c.next ∷ timer_add c.next ∷ c.log;
    }
    else c

unfoldable pub rearm_idle : Conn → Conn
rearm_idle c =
    if not (c.idle_timeout == 0) && is_nil c.trans_pending
    then emit (timer_reset c.timer (millis c.idle_timeout)) c
    else c

unfoldable pub conn_set_idle_timeout : Conn → ℕ → Conn × Bool
unfolding stop_disabled start_missing rearm_idle
conn_set_idle_timeout c to_secs =
    let set = record c { idle_timeout = to_secs } in
    if conn_status_eq c.status connected
    then (rearm_idle (start_missing (stop_disabled set)), true)
    else (set, true)

abbrev pub selects : TransStatus → TransStatus → Bool
selects status kind = trans_status_eq status kind || trans_status_eq status status_all

unfoldable pub conn_trans_count : Conn → TransStatus → ℕ
conn_trans_count c status =
    let add_new = if selects status status_new then length c.trans_new else 0 in
    let add_ready = if selects status status_ready then length c.trans_ready else 0 in
    let add_pending = if selects status status_pending then length c.trans_pending else 0 in
    let add_done = if selects status status_done then length c.trans_done else 0 in
    add_new + add_ready + add_pending + add_done

-- LM_conn_trans_list_append
unfoldable pub trans_list_append : List ℕ → List ℕ → List ℕ
trans_list_append list [] = list
trans_list_append list (member ∷ queue) = trans_list_append (list ++ (member ∷ [])) queue

unfoldable pub conn_trans_list : Conn → TransStatus → List ℕ
unfolding trans_list_append
conn_trans_list c status =
    let l1 = if selects status status_new then trans_list_append [] c.trans_new else [] in
    let l2 = if selects status status_ready then trans_list_append l1 c.trans_ready else l1 in
    let l3 = if selects status status_pending then trans_list_append l2 c.trans_pending else l2 in
    if selects status status_done then trans_list_append l3 c.trans_done else l3

-- What LM_conn_get_userdata, LM_conn_error and LM_conn_status read.
unfoldable pub conn_get_userdata : Conn → Option ℕ
conn_get_userdata c = c.user_data

unfoldable pub conn_error_text : Conn → Bytes
conn_error_text c = c.error

unfoldable pub conn_status : Conn → ConnStatus
conn_status c = c.status

-- M_queue_destroy: each member goes to LM_conn_trans_destructor, which frees it.
unfoldable pub queue_destroy : (ℕ → Option Trans) → List ℕ → ℕ → Option Trans
queue_destroy heap [] = heap
queue_destroy heap (p ∷ q) = queue_destroy (update heap p none) q

-- The members of the four queues are freed; the log ends by `conn_destroyed`.
unfoldable pub release_all : Conn → Conn
unfolding queue_destroy
release_all c =
    let h1 = queue_destroy c.heap c.trans_new in
    let h2 = queue_destroy h1 c.trans_ready in
    let h3 = queue_destroy h2 c.trans_pending in
    record c {
      heap = queue_destroy h3 c.trans_done;
      log =
          conn_destroyed
          ∷ tls_destroy c.tlsctx
          ∷ io_destroy c.io
          ∷ trigger_remove c.write_trigger
          ∷ timer_remove c.timer
          ∷ c.log;
    }

-- While events are handled, the destruction waits for the handler's end. The flag says that the
-- connection is gone.
unfoldable pub conn_destroy : Conn → Conn × Bool
unfolding release_all
conn_destroy c = if c.in_use then (record c { destroy = true }, false) else (release_all c, true)
