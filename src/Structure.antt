-- ===== src/Structure.antt =====
-- src/monetra_trans_structure.c: the request on the wire, and the step from READY to PENDING.
use libmonetra.Base.{
  ℕ, zero, suc, ◌+◌, Bool, ◌&&◌, not, ◌∷◌, Option, none, some, if◌then◌else◌, ◌==◌, is_nil, length,
  Bytes, codes,
}
use libmonetra.Connect.{conn_connect}
use libmonetra.Mstdlib.{Mstdlib, Dict}
use libmonetra.Trans.{with_trans}
use libmonetra.Types.{
  Conn, connected, disconnected, status_pending, emit, store, millis, conn_status_eq, timer_oneshot,
  timer_stop, trigger_signal,
}

abbrev pub stx : ℕ
stx = 0x02

abbrev pub etx : ℕ
etx = 0x03

abbrev pub fs : ℕ
fs = 0x1C

module _ (m : Mstdlib) where
  -- A lone `action=ping` is rewritten to the short ping message.
  unfoldable pub is_ping : Option Dict → Bool
  is_ping d =
      m.dict_num_keys d == 1 && m.str_caseeq (m.dict_get d (codes "action")) (some (codes "ping"))

  unfoldable pub structure_data : Option Dict → Bytes → Bytes
  unfolding is_ping
  structure_data d out =
      if is_ping d then m.buf_add_str out (codes "PING") else m.dict_serialize_buf d out

  unfoldable pub trans_structure : Conn → ℕ → Conn
  unfolding structure_data
  trans_structure c p = with_trans c p λ t.
      let head = m.buf_add_byte (m.buf_add_uint (m.buf_add_byte c.outbuf stx) t.trans_id) fs in
      let out = m.buf_add_byte (structure_data t.request_params head) etx in
      store p (record t { request_params = none }) (record c { outbuf = out })

  -- The user's timeout, if there is one.
  unfoldable pub start_timeout : Conn → ℕ → Conn
  start_timeout c p = with_trans c p λ t.
      if t.timeout_s == 0
      then c
      else store p (record t { timeout_timer = some c.next })
          (record c { next = c.next + 1; log = timer_oneshot c.next (millis t.timeout_s) ∷ c.log })

  -- The body of the loop, for a transaction that is taken from the READY queue.
  unfoldable pub send_one : Conn → ℕ → Conn
  unfolding trans_structure start_timeout
  send_one c p =
      let marked = with_trans c p λ t. store p (record t { status = status_pending }) c in
      let sent = start_timeout (trans_structure marked p) p in
      record sent { trans_pending = m.queue_insert sent.trans_pending p }

  unfoldable pub send_loop : ℕ → Conn → Conn
  send_loop zero c = c
  send_loop (suc fuel) c = elim (m.queue_take_first c.trans_ready) [
    | none ↦ c
    | some (p, rest) ↦ send_loop fuel (send_one (record c { trans_ready = rest }) p)
  ]

  -- Behind the loop: the idle timer stops, and a write is asked for if the buffer was empty.
  unfoldable pub wake_writer : Bool → Conn → Conn
  wake_writer orig_outbuf_empty c =
      let stopped = if is_nil c.trans_pending then c else emit (timer_stop c.timer) c in
      if orig_outbuf_empty && not (is_nil c.outbuf)
      then emit (trigger_signal c.write_trigger) stopped
      else stopped

  unfoldable pub send_messages : Conn → Conn
  unfolding wake_writer
  send_messages c =
      if conn_status_eq c.status disconnected
      then (conn_connect m c).0
      else if not (conn_status_eq c.status connected)
      then c
      else wake_writer (is_nil c.outbuf) (send_loop (suc (length c.trans_ready)) c)
