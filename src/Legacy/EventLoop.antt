-- ===== src/Legacy/EventLoop.antt =====
-- src/monetra_legacy.c: M_legacy_event_callback, and the functions that run the event loop.
-- M_event_loop is a function of mstdlib. What the system gives it is an argument: `World` has, for each
-- of its calls, the events that it handles before it returns. Where the world is used up, or no id is
-- left, the function does not return: `none`.
use libmonetra.Base.{
  ℕ, zero, suc, ◌+◌, ◌-◌, ◌/◌, ◌^◌, Bool, true, false, ◌&&◌, ◌||◌, not, List, [], ◌∷◌, Option, none,
  some, if◌then◌else◌, ◌==◌, ltb, length, ℤ, pos, negsuc, is_negative, to_ℕ,
}
use libmonetra.Conn.{conn_trans_count, conn_get_trans_by_internal_id, conn_destroy}
use libmonetra.Connect.{conn_connect, conn_disconnect}
use libmonetra.Event.{conntrans_event_handler}
use libmonetra.Legacy.{Session}
use libmonetra.Mstdlib.{Mstdlib}
use libmonetra.Send.{trans_send}
use libmonetra.Trans.{trans_status}
use libmonetra.Types.{
  Conn, LmEvent, IoEvent, trans_timeout, status_pending, status_ready, status_done, connected,
  connecting, disconnecting, conn_status_eq, trans_status_eq, emit, event_return, event_loop_run,
  thread_sleep,
}

-- The events that one call of M_event_loop handles, each with the transaction whose timer it is.
abbrev pub Batch : Type 0
Batch = List (IoEvent × Option ℕ)

abbrev pub World : Type 0
World = List Batch

-- M_legacy_event_callback leaves the event loop, but not for a timer of the user's.
unfoldable pub event_callback : LmEvent → Option ℕ → Conn → Conn
event_callback trans_timeout trans c = c
event_callback _ trans c = emit event_return c

-- LM_trans_status(trans) == LM_TRANS_STATUS_DONE
abbrev pub is_done : Conn → ℕ → Bool
is_done c p = elim (trans_status c (some p)).1 [
  | none ↦ false
  | some s ↦ trans_status_eq s status_done
]

-- C's division of a signed number by 1000, as M_uint64: it rounds towards zero.
abbrev pub millis_of : ℤ → ℕ
millis_of (pos n) = n / 1000
millis_of (negsuc n) = let q = (n + 1) / 1000 in if q == 0 then 0 else 2 ^ 64 - q

-- What M_Monitor_ex does while it waits: it sleeps if another thread runs the event loop, up to
-- 20 milliseconds, or else runs the loop, `none` for M_TIMEOUT_INF.
abbrev pub is_forever : ℤ → Bool
is_forever (pos n) = false
is_forever (negsuc n) = n == 0

abbrev pub sleep_of : ℤ → ℕ
sleep_of wait_us = if is_negative wait_us || ltb 20000 (to_ℕ wait_us) then 20000 else to_ℕ wait_us

unfoldable pub waiting : Bool → ℤ → Conn → Conn
waiting running wait_us c =
    if running
    then if sleep_of wait_us == 0 then c else emit (thread_sleep (sleep_of wait_us)) c
    else emit (event_loop_run (if is_forever wait_us then none else some (millis_of wait_us))) c

-- There is nothing to wait for, and there was no connection before.
abbrev pub nothing_to_do : Session → Bool
nothing_to_do s =
    (conn_trans_count s.conn status_pending == 0)
    && (conn_trans_count s.conn status_ready == 0)
    && not s.is_monitor_previously_successful

abbrev pub is_up : Conn → Bool
is_up c = conn_status_eq c.status connected || conn_status_eq c.status connecting

module _ (m : Mstdlib) where
  unfoldable pub handle_batch : Batch → Conn → Option Conn
  handle_batch [] c = some c
  handle_batch ((kind, trans) ∷ events) c =
      elim (conntrans_event_handler m event_callback c kind trans) [
        | none ↦ none
        | some (c', destroyed) ↦ handle_batch events c'
      ]

  -- M_event_loop
  unfoldable pub event_loop : World → Conn → Option (Conn × World)
  event_loop [] c = none
  event_loop (batch ∷ world) c = elim (handle_batch batch c) [
    | none ↦ none
    | some c' ↦ some (c', world)
  ]

  -- M_Connect, which loads the default trust if none is loaded.
  unfoldable pub connect : Session → World → Option (Session × World × Bool)
  connect s world =
      let s1 = record s { trust_loaded = s.trust_loaded || m.tls_set_default_trust s.tlsctx } in
      let (c, begun) = conn_connect m s1.conn in
      if begun
      then elim (event_loop world (emit (event_loop_run none) c)) [
        | none ↦ none
        | some (c', world') ↦
            some (record s1 { conn = c' }, world', conn_status_eq c'.status connected)
      ]
      else some (record s1 { conn = c }, world, false)

  -- The loop of M_Disconnect.
  unfoldable pub await_disconnect : World → Conn → Option (Conn × World)
  await_disconnect [] c = if conn_status_eq c.status disconnecting then none else some (c, [])
  await_disconnect (batch ∷ world) c =
      let wait : Option (Conn × World) = elim (handle_batch batch (emit (event_loop_run none) c)) [
        | none ↦ none
        | some c' ↦ await_disconnect world c'
      ] in
      if conn_status_eq c.status disconnecting then wait else some (c, batch ∷ world)

  unfoldable pub disconnect : Conn → World → Option (Conn × World)
  unfolding await_disconnect
  disconnect c world =
      if conn_status_eq c.status connected
      then await_disconnect world (conn_disconnect c).0
      else some (c, world)

  -- M_DestroyConn: the session's memory is gone behind it. The flag is that of `conn_destroy`.
  unfoldable pub destroy_conn : Session → World → Option (Conn × Bool)
  unfolding disconnect
  destroy_conn s world = elim (disconnect s.conn world) [
    | none ↦ none
    | some (c, world') ↦ some (conn_destroy c)
  ]

  -- M_Monitor_ex, with whether another thread runs the event loop.
  unfoldable pub monitor_ex : Bool → Session → ℤ → World → Option (Session × World × Bool)
  monitor_ex running s wait_us world =
      if nothing_to_do s
      then some (s, world, true)
      else if not (is_up s.conn)
      then some (s, world, false)
      else elim (event_loop world (waiting running wait_us s.conn)) [
        | none ↦ none
        | some (c, world') ↦
            if is_up c
            then some (record s { conn = c; is_monitor_previously_successful = true }, world', true)
            else some (record s { conn = c }, world', false)
      ]

  unfoldable pub monitor : Bool → Session → World → Option (Session × World × Bool)
  unfolding monitor_ex
  monitor running s world = monitor_ex running s (pos 0) world

  -- The loop of M_TransSend in the blocking mode.
  unfoldable pub await_done : ℕ → Session → ℕ → World → Option (Session × World × Bool)
  await_done zero s p world = none
  await_done (suc fuel) s p world =
      let wait : Option (Session × World × Bool) = elim (monitor_ex false s (negsuc 0) world) [
        | none ↦ none
        | some (s', world', up) ↦
            let rest = await_done fuel s' p world' in
            if not up && not (is_done s'.conn p) then some (s', world', false) else rest
      ] in
      if is_done s.conn p then some (s, world, true) else wait

  -- LM_trans_send, and the wait for its response.
  unfoldable pub send_and_wait : Session → ℕ → World → Option (Session × World × Bool)
  unfolding await_done
  send_and_wait s p world =
      let (c, sent) = trans_send m s.conn (some p) in
      let s' = record s { conn = c } in
      if sent
      then if s.blocking then await_done (suc (length world)) s' p world else some (s', world, true)
      else some (s', world, false)

  unfoldable pub connect_and_send : Session → ℕ → World → Option (Session × World × Bool)
  connect_and_send s p world = elim (connect s world) [
    | none ↦ none
    | some (up, world', done) ↦ if done then send_and_wait up p world' else some (up, world', false)
  ]

  -- M_TransSend behind its look-up: a poll, a connection if there is none, the request.
  unfoldable pub send_found : Session → ℕ → World → Option (Session × World × Bool)
  send_found s p world = elim (event_loop world (emit (event_loop_run (some 0)) s.conn)) [
    | none ↦ none
    | some (c, world') ↦
        let polled = record s { conn = c } in
        if conn_status_eq c.status connected
        then send_and_wait polled p world'
        else connect_and_send polled p world'
  ]

  unfoldable pub send_trans : Session → ℕ → World → Option (Session × World × Bool)
  unfolding send_found
  send_trans s identifier world = elim (conn_get_trans_by_internal_id m s.conn identifier) [
    | none ↦ some (s, world, false)
    | some p ↦ send_found s p world
  ]
