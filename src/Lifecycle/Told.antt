-- ===== src/Lifecycle/Told.antt =====
-- LM_conntrans_event_handler: what it reports as done.
use libmonetra.Base.{
  ◌++◌, ℕ, ◌≤◌, suc, ◌≡◌, refl, ap, subst, Bool, true, false, ◌&&◌, List, [], Option, none, some,
  arith, if◌then◌else◌, count, length, is_nil, Bytes, codes, some_inj, Bool-cases, Option-cases,
  inl, inr,
}
use libmonetra.Event.{
  Entry, Handled, handle_conn_error, after_read, on_read, set_connected, on_connected,
  on_disconnected, on_timer, on_other, handle, start_ping, add_write_trigger, on_write,
}
use libmonetra.Invariant.{Valid}
use libmonetra.Lifecycle.Good.{Good, Quiet-Good}
use libmonetra.Lifecycle.Responses.{read_loop-Good, rearm-Good, handle_conn_error-Good}
use libmonetra.Mstdlib.{Mstdlib, QueueLaws, IdMapLaws}
use libmonetra.Types.{
  Conn, IoEvent, io_connected, io_accept, io_read, io_write, io_disconnected, io_error, io_other,
  set_error, emit, timer_reset, millis,
}
use libmonetra.Event.{cleanup_ping}
use libmonetra.Lifecycle.Pinging.{cleanup_ping-Removed}
use libmonetra.Lifecycle.Reporting.{
  IsAnswered, times, Reported, Reported-Follows, times-Reported, times-handle_conn_error,
  read_loop-Reported,
}
use libmonetra.Send.{trans_ping_request}
use libmonetra.Trans.{trans_new_internal}
use libmonetra.Types.{connecting, connected, idle_timeout, conn_status_eq}

module _ (m : Mstdlib) (ql : QueueLaws m) where
  silent-Reported :
      (c : Conn) (events : List Entry) → ((p : ℕ) → times p events ≡ 0) → Reported c events
  silent-Reported c events none_told p some_told = absurd (omega (arith, none_told p, some_told))

  silent_is :
      (r : Handled) (c : Conn) (events : List Entry)
      → ((p : ℕ) → times p r.1 ≡ 0)
      → some r ≡ some (c, events)
      → Reported c events
  silent_is r c events none_told e =
      subst (λ (x : Handled). Reported x.0 x.1) (some_inj e) (silent-Reported r.0 r.1 none_told)

  lost-Reported :
      (il : IdMapLaws m) (c : Conn) (events : List Entry) (kind : IoEvent)
      → Good m c
      → Reported c events
      → let r = handle_conn_error m c events kind in Reported r.0 r.1
  lost-Reported il c events kind g rep =
      let d = (handle_conn_error m c events kind).0 in
      let (_, f) = handle_conn_error-Good m ql il c events kind g in
      times-Reported d events (handle_conn_error m c events kind).1
        (λ p. times-handle_conn_error m ql c events kind p g.valid)
        (Reported-Follows c d events f rep)

  after_read-Reported :
      (il : IdMapLaws m) (c : Conn) (events : List Entry) (malformed : Bool)
      → Good m c
      → Reported c events
      → let r = after_read m (c, events) malformed in Reported r.0 r.1
  unfolding after_read
  after_read-Reported il c events false g rep =
      let (_, f) = rearm-Good m ql il c (is_nil c.trans_pending) g in
      let d =
        if is_nil c.trans_pending
        then emit (timer_reset c.timer (millis c.idle_timeout)) c
        else c in
      Reported-Follows c d events f rep
  after_read-Reported il c events true g rep =
      let (h, f) = rearm-Good m ql il c (is_nil c.trans_pending) g in
      let d =
        if is_nil c.trans_pending
        then emit (timer_reset c.timer (millis c.idle_timeout)) c
        else c in
      let failed = set_error (codes "Invalid response format received. Disconnect.") d in
      let (h', f') = Quiet-Good m d failed (refl, omega arith) (refl, refl, refl, refl, refl) h in
      lost-Reported il failed events io_error h'
        (Reported-Follows d failed events f' (Reported-Follows c d events f rep))

  on_read-Reported :
      (il : IdMapLaws m) (c : Conn) (got : Option Bytes) (c' : Conn) (events : List Entry)
      → c.in_use ≡ true
      → Good m c
      → c.trans_delay_rm ≡ []
      → on_read m c got ≡ some (c', events)
      → Reported c' events
  unfolding on_read
  on_read-Reported il c none c' events busy g settled e = silent_is (c, []) c' events (λ p. refl) e
  on_read-Reported il c (some bytes) c' events busy g settled e =
      let inbuf = c.inbuf ++ bytes in
      let filled = record c { inbuf = inbuf } in
      let h : Good m filled = record {
        valid = record { inv = g.valid.inv; fresh = g.valid.fresh };
        ping = g.ping;
      } in
      let (((d, es), malformed), is, h', _) =
        read_loop-Good m ql il (suc (length inbuf)) filled [] (omega arith) busy h in
      let rep =
        read_loop-Reported m ql il (suc (length inbuf)) filled [] ((d, es), malformed) busy h
          (λ p some_due. absurd (omega (arith, some_due, ap (count p) settled)))
          (λ p some_told. absurd (omega (arith, some_told))) is in
      let same : some (after_read m (d, es) malformed) ≡ some (c', events) =
        rw (on_read, is) at e in
      subst (λ (r : Handled). Reported r.0 r.1) (some_inj same)
        (after_read-Reported il d es malformed h' rep)

  on_connected_silent :
      (c c' : Conn) (events : List Entry)
      → on_connected m c ≡ some (c', events)
      → Reported c' events
  unfolding on_connected set_connected trans_ping_request trans_new_internal
  on_connected_silent c c' events e = elim (Bool-cases c.disable_ping) [
    | inl off ↦ silent_is _ c' events (λ p. refl) (rw off at e)
    | inr on ↦ elim (Option-cases (start_ping m c)) [
      | inl out ↦ absurd (ground (arith, e, on, out))
      | inr (d, is) ↦ silent_is (add_write_trigger m d, []) c' events (λ p. refl) (rw (on, is) at e)
    ]
  ]

  lost_silent :
      (c c' : Conn) (kind : IoEvent) (events : List Entry)
      → Valid m c
      → some (handle_conn_error m c [] kind) ≡ some (c', events)
      → Reported c' events
  lost_silent c c' kind events v e =
      silent_is (handle_conn_error m c [] kind) c' events
        (λ p. times-handle_conn_error m ql c [] kind p v) e

  told-Valid : (c : Conn) (text : Bytes) → Valid m c → Valid m (set_error text c)
  told-Valid c text v = record { inv = v.inv; fresh = v.fresh }

  on_timer_silent :
      (il : IdMapLaws m) (c : Conn) (p : ℕ)
      → c.in_use ≡ true
      → Good m c
      → times p (on_timer m c).1 ≡ 0
  unfolding on_timer
  on_timer_silent il c p busy g = elim (Bool-cases (conn_status_eq c.status connecting)) [
    | inl waiting ↦
        let (v, _, _, _) = cleanup_ping-Removed m ql il c busy g in
        let text = codes "Failed to receive reply to PING request" in
        let failed = set_error text (cleanup_ping m c) in
        rw waiting
          (times-handle_conn_error m ql failed [] io_error p (told-Valid (cleanup_ping m c) text v))
    | inr other ↦ elim (Bool-cases (conn_status_eq c.status connected && is_nil c.trans_pending)) [
      | inl idle ↦ rw (other, idle) refl
      | inr at_work ↦ rw (other, at_work) refl
    ]
  ]

  pub handle-Reported :
      (il : IdMapLaws m) (c c' : Conn) (kind : IoEvent) (trans : Option ℕ) (events : List Entry)
      → c.in_use ≡ true
      → Good m c
      → c.trans_delay_rm ≡ []
      → handle m c kind trans ≡ some (c', events)
      → Reported c' events
  unfolding handle on_disconnected on_other
  handle-Reported il c c' io_connected trans events busy g settled e =
      on_connected_silent c c' events e
  handle-Reported il c c' io_disconnected trans events busy g settled e =
      let text =
        if conn_status_eq c.status idle_timeout
        then codes "Idle connection timeout"
        else m.io_get_error_string c.io in
      lost_silent (set_error text c) c' io_disconnected events (told-Valid c text g.valid) e
  handle-Reported il c c' io_error trans events busy g settled e =
      let text =
        if conn_status_eq c.status idle_timeout
        then codes "Idle connection timeout"
        else m.io_get_error_string c.io in
      lost_silent (set_error text c) c' io_error events (told-Valid c text g.valid) e
  handle-Reported il c c' (io_read got) trans events busy g settled e =
      on_read-Reported il c got c' events busy g settled e
  handle-Reported il c c' io_write trans events busy g settled e =
      silent_is (on_write m c, []) c' events (λ p. refl) e
  handle-Reported il c c' io_other none events busy g settled e =
      silent_is (on_other m c none) c' events (λ p. on_timer_silent il c p busy g) e
  handle-Reported il c c' io_other (some q) events busy g settled e =
      silent_is (on_other m c (some q)) c' events (λ p. refl) e
  handle-Reported il c c' io_accept trans events busy g settled e =
      silent_is (c, []) c' events (λ p. refl) e

  -- In one run the event handler reports a response (LM_EVENT_TRANS_DONE) at most once for each
  -- transaction, never for the ping, and only for transactions that are DONE and not due for
  -- deletion; what it reports by LM_EVENT_TRANS_ERROR is not counted. It starts on a good connection on
  -- which nothing is due for deletion; M_queue, M_hash_u64vp and M_llist do what they document.
  pub handle-IsAnswered :
      (il : IdMapLaws m) (c c' : Conn) (kind : IoEvent) (trans : Option ℕ) (events : List Entry)
      (p : ℕ)
      → c.in_use ≡ true
      → Good m c
      → c.trans_delay_rm ≡ []
      → handle m c kind trans ≡ some (c', events)
      → 1 ≤ times p events
      → (times p events ≡ 1) × IsAnswered c' p
  handle-IsAnswered il c c' kind trans events p busy g settled e some_told =
      handle-Reported il c c' kind trans events busy g settled e p some_told
