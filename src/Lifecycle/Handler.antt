-- ===== src/Lifecycle/Handler.antt =====
-- LM_conntrans_event_handler, up to the delivery of its events.
use libmonetra.Base.{
  ℕ, ◌≡◌, refl, ◌⊎◌, true, ◌&&◌, [], Option, none, some, arith, Bytes, codes, Option-cases,
  Bool-cases, inl, inr, if◌then◌else◌, is_nil,
}
use libmonetra.Connect.{conn_disconnect_connlocked}
use libmonetra.Event.{
  Handled, handle, on_connected, on_disconnected, on_write, on_other, on_timer, cleanup_ping,
  drop_timer, set_connected, start_ping, add_write_trigger, handle_conn_error,
}
use libmonetra.Invariant.Create.{store-Valid}
use libmonetra.Lifecycle.Good.{
  Good, IsLive, Follows, Follows-refl, Follows-trans, Keeps-Follows, Keeps-Good, Quiet-Good,
  then_Good,
}
use libmonetra.Lifecycle.PingRequest.{start_ping-Good, start_ping-pinged}
use libmonetra.Lifecycle.Pinging.{set_connected-Good, cleanup_ping-Removed}
use libmonetra.Lifecycle.Responses.{on_read-Good, handle_conn_error-Good}
use libmonetra.Lifecycle.{write-Keeps}
use libmonetra.Mstdlib.{Mstdlib, QueueLaws, IdMapLaws}
use libmonetra.Send.{write_now, trans_ping_request}
use libmonetra.Trans.{draw_id, trans_new_internal, with_trans-live}
use libmonetra.Types.{
  Conn, IoEvent, io_connected, io_accept, io_read, io_write, io_disconnected, io_error, io_other,
  connecting, connected, idle_timeout, conn_status_eq, emit, store, set_error, timer_remove,
}

-- The handler's result: a good connection, on which no transaction was freed.
abbrev pub Handles : Mstdlib → Conn → Option Handled → Type 0
Handles m c o = (r : Handled) × (o ≡ some r) × Good m r.0 × Follows c r.0

module _ (m : Mstdlib) where
  add_write_trigger-Good :
      (c : Conn) → Good m c → Good m (add_write_trigger m c) × Follows c (add_write_trigger m c)
  unfolding add_write_trigger
  add_write_trigger-Good c g = Quiet-Good m c _ (refl, omega arith) (refl, refl, refl, refl, refl) g

  on_write-Good : (c : Conn) → Good m c → Good m (on_write m c) × Follows c (on_write m c)
  unfolding on_write write_now
  on_write-Good c g = elim (Bool-cases (is_nil c.outbuf)) [
    | inl e ↦ rw e (g, Follows-refl c)
    | inr e ↦ rw e (Quiet-Good m c _ (refl, omega arith) (refl, refl, refl, refl, refl) g)
  ]

  drop_timer-Good : (c : Conn) → Good m c → Good m (drop_timer c) × Follows c (drop_timer c)
  drop_timer-Good c g =
      Quiet-Good m c (drop_timer c) (unfold drop_timer in ground arith)
        (unfold drop_timer in ground arith) g

  disconnect-Good :
      (c : Conn)
      → Good m c
      → let c' = record (conn_disconnect_connlocked c).0 { status = idle_timeout } in
        Good m c' × Follows c c'
  disconnect-Good c g =
      Quiet-Good m c _ (unfold conn_disconnect_connlocked in ground arith)
        (unfold conn_disconnect_connlocked in ground arith) g

  module _ (ql : QueueLaws m) (il : IdMapLaws m) where
    drawless : (c : Conn) → start_ping m c ≡ none → draw_id m c.rnd c.trans_id_map ≡ none
    drawless c h = elim (Option-cases (draw_id m c.rnd c.trans_id_map)) [
      | inl e ↦ e
      | inr ((id, rs), d) ↦ absurd (ground (arith, start_ping-pinged m ql il c id rs d, h))
    ]

    on_connected-Good :
        (c : Conn)
        → c.in_use ≡ true
        → Good m c
        → Handles m c (on_connected m c)
          ⊎ ((on_connected m c ≡ none) × (draw_id m c.rnd c.trans_id_map ≡ none))
    unfolding on_connected trans_ping_request trans_new_internal
    on_connected-Good c busy g = elim (Bool-cases c.disable_ping) [
      | inl off ↦
          let (h, f, _) = set_connected-Good m ql il c [] busy g in
          let up = (set_connected m c []).0 in
          let (h', f') =
            then_Good m c up (add_write_trigger m up) f (add_write_trigger-Good up h) in
          inl ((add_write_trigger m up, (set_connected m c []).1), rw off refl, h', f')
      | inr on ↦ elim (Option-cases (start_ping m c)) [
        | inl out ↦ inr (rw (on, out) refl, drawless c out)
        | inr (c', e) ↦
            let (h, f) = start_ping-Good m ql il c c' g e in
            let (h', f') =
              then_Good m c c' (add_write_trigger m c') f (add_write_trigger-Good c' h) in
            inl ((add_write_trigger m c', []), rw (on, e) refl, h', f')
      ]
    ]

    on_disconnected-Good :
        (c : Conn) (kind : IoEvent)
        → Good m c
        → Good m (on_disconnected m c kind).0 × Follows c (on_disconnected m c kind).0
    unfolding on_disconnected
    on_disconnected-Good c kind g =
        let text =
          if conn_status_eq c.status idle_timeout
          then codes "Idle connection timeout"
          else m.io_get_error_string c.io in
        let (h, f) =
          Quiet-Good m c (set_error text c) (refl, omega arith) (refl, refl, refl, refl, refl) g in
        then_Good m c (set_error text c) _ f
          (handle_conn_error-Good m ql il (set_error text c) [] kind h)

    -- The ping was not answered.
    unanswered-Good :
        (c : Conn) (text : Bytes)
        → c.in_use ≡ true
        → Good m c
        → let c' = (handle_conn_error m (set_error text (cleanup_ping m c)) [] io_error).0 in
          Good m c' × Follows c c'
    unanswered-Good c text busy g =
        let (w, gone, f, _) = cleanup_ping-Removed m ql il c busy g in
        let removed : Good m (cleanup_ping m c) = record {
          valid = w;
          ping = λ p e. absurd (ground (arith, gone, e));
        } in
        let told = set_error text (cleanup_ping m c) in
        let (h, f') =
          Quiet-Good m (cleanup_ping m c) told (refl, omega arith) (refl, refl, refl, refl, refl)
            removed in
        then_Good m c told _ (Follows-trans c (cleanup_ping m c) told f f')
          (handle_conn_error-Good m ql il told [] io_error h)

    on_timer-Good :
        (c : Conn)
        → c.in_use ≡ true
        → Good m c
        → Good m (on_timer m c).0 × Follows c (on_timer m c).0
    unfolding on_timer
    on_timer-Good c busy g = elim (Bool-cases (conn_status_eq c.status connecting)) [
      | inl waiting ↦
          rw waiting (unanswered-Good c (codes "Failed to receive reply to PING request") busy g)
      | inr other ↦
          elim (Bool-cases (conn_status_eq c.status connected && is_nil c.trans_pending)) [
            | inl idle ↦ rw (other, idle) (disconnect-Good c g)
            | inr at_work ↦ rw (other, at_work) (g, Follows-refl c)
          ]
    ]

    on_other-Good :
        (c : Conn) (trans : Option ℕ)
        → c.in_use ≡ true
        → ((p : ℕ) → trans ≡ some p → IsLive c p)
        → Good m c
        → Good m (on_other m c trans).0 × Follows c (on_other m c trans).0
    unfolding on_other
    on_other-Good c none busy timer g =
        let (h, f) = on_timer-Good c busy g in
        then_Good m c (on_timer m c).0 _ f (drop_timer-Good (on_timer m c).0 h)
    on_other-Good c (some p) busy timer g =
        let (t, live, _) = timer p refl in
        let t' = record t { timeout_timer = none } in
        let c' = store p t' (emit (timer_remove t.timeout_timer) c) in
        let k = write-Keeps c c' p t t' live refl (omega arith) (refl, refl, refl, refl, refl) in
        let v = store-Valid m c p t t' live refl refl g.valid in
        rw (with_trans-live c p _ live)
          (Keeps-Good m c c' k g (record { inv = v.inv; fresh = v.fresh }), Keeps-Follows c c' k)

    -- The event handler, up to the delivery of the events, returns on every event, unless no id is
    -- left for the ping of a new connection. It leaves a valid connection whose ping is live, and has
    -- freed no transaction, nor moved one back. It starts on such a connection, the transaction of a
    -- timer is live, and M_queue, M_hash_u64vp and M_llist do what they document.
    pub handle-Good :
        (c : Conn) (kind : IoEvent) (trans : Option ℕ)
        → c.in_use ≡ true
        → ((p : ℕ) → trans ≡ some p → IsLive c p)
        → Good m c
        → Handles m c (handle m c kind trans)
          ⊎ ((handle m c kind trans ≡ none) × (draw_id m c.rnd c.trans_id_map ≡ none))
    unfolding handle
    handle-Good c io_connected trans busy timer g = on_connected-Good c busy g
    handle-Good c io_disconnected trans busy timer g =
        let (h, f) = on_disconnected-Good c io_disconnected g in
        inl (on_disconnected m c io_disconnected, refl, h, f)
    handle-Good c io_error trans busy timer g =
        let (h, f) = on_disconnected-Good c io_error g in
        inl (on_disconnected m c io_error, refl, h, f)
    handle-Good c (io_read got) trans busy timer g = inl (on_read-Good m ql il c got busy g)
    handle-Good c io_write trans busy timer g =
        let (h, f) = on_write-Good c g in inl ((on_write m c, []), refl, h, f)
    handle-Good c io_other trans busy timer g =
        let (h, f) = on_other-Good c trans busy timer g in inl (on_other m c trans, refl, h, f)
    handle-Good c io_accept trans busy timer g = inl ((c, []), refl, g, Follows-refl c)
