-- ===== src/Invariant/Failure.antt =====
-- LM_conn_event_handle_conn_error: a lost connection keeps the invariant, leaves nothing PENDING, and
-- tells the user of every transaction, in order.
use mathlib.Core.List.{append_assoc, append-nil}
use libmonetra.Base.{
  ℕ, zero, suc, ◌<◌, ◌≡◌, refl, sym, ◌∙◌, List, [], ◌∷◌, ◌++◌, none, some, arith, ap, Bool-cases,
  map, is_some, if◌then◌else◌, inl, inr, length,
}
use libmonetra.Event.{
  Entry, event_add, drop_timer, drop_timeout, reset_io, fail_trans, fail_one, fail_loop,
  rewrite_type, noconnect_events, is_io_disconnected, handle_conn_error,
}
use libmonetra.Invariant.{Core, core, Valid}
use libmonetra.Invariant.Create.{Fresh-store, store-Valid}
use libmonetra.Invariant.Moves.{put-Inv, mark-Inv, pop-Inv}
use libmonetra.Invariant.Quiet.{IsQuiet, IsQuiet-Valid}
use libmonetra.Invariant.Send.{Held}
use libmonetra.Mstdlib.{Mstdlib, QueueLaws}
use libmonetra.Trans.{with_trans-live}
use libmonetra.Types.{
  Conn, Trans, ConnStatus, IoEvent, LmEvent, disconnected, idle_timeout, conn_disconnect,
  conn_error, trans_error, conn_status_eq, status_pending, status_done, store, update,
}

-- What the loop over the pending transactions leaves alone.
abbrev pub Frame : Conn → Conn → Type 0
Frame c c' =
    (c'.trans_ready ≡ c.trans_ready)
    × (c'.status ≡ c.status)
    × (c'.io ≡ c.io)
    × (c'.outbuf ≡ c.outbuf)
    × (c'.inbuf ≡ c.inbuf)

Frame-trans : (c d e : Conn) → Frame c d → Frame d e → Frame c e
Frame-trans c d e f g = (g.0 ∙ f.0, g.1 ∙ f.1, g.2 ∙ f.2, g.3 ∙ f.3, g.4 ∙ f.4)

module _ (m : Mstdlib) where
  pub drop_timeout-Valid :
      (c : Conn) (p : ℕ) (t : Trans)
      → c.heap p ≡ some t
      → Valid m c
      → Valid m (drop_timeout c p)
        × ((drop_timeout c p).trans_pending ≡ c.trans_pending)
        × Frame c (drop_timeout c p)
  unfolding drop_timeout
  drop_timeout-Valid c p t live v = elim (Bool-cases (is_some t.timeout_timer)) [
    | inr e ↦ rw (with_trans-live c p _ live, e) (v, refl, (refl, refl, refl, refl, refl))
    | inl e ↦
        let w = store-Valid m c p t (record t { timeout_timer = none }) live refl refl v in
        rw (with_trans-live c p _ live, e)
          (record { inv = w.inv; fresh = w.fresh }, refl, (refl, refl, refl, refl, refl))
  ]

  module _ (ql : QueueLaws m) where
    pub fail_one-Valid :
        (c : Conn) (p : ℕ) (t : Trans)
        → c.heap p ≡ some t
        → Held m c p
        → Valid m (fail_one m c p)
          × ((fail_one m c p).trans_pending ≡ c.trans_pending)
          × Frame c (fail_one m c p)
    unfolding fail_one fail_trans
    fail_one-Valid c p t live h =
        let t' = fail_trans m c.error t in
        let moved = record c { trans_done = m.queue_insert c.trans_done p } in
        rw (with_trans-live moved p (λ t. store p (fail_trans m c.error t) moved) live) (
          drop_timeout-Valid (store p t' moved) p t' (ground arith) (record {
            inv =
                put-Inv m ql (record (core c) { heap = update c.heap p (some t') }) p t' status_done
                  (ground arith) refl (λ e. cc) h.apart
                  (mark-Inv m (core c) p t t' live refl h.apart h.inv);
            fresh = Fresh-store c p t t' live h.fresh;
          }))

    abbrev pub error_events : List ℕ → List Entry
    error_events = map (λ p. (trans_error, some p))

    fail_loop-Valid :
        (fuel : ℕ) (pending : List ℕ) (c : Conn) (events : List Entry)
        → c.trans_pending ≡ pending
        → length pending < fuel
        → Valid m c
        → let r = fail_loop m fuel c events in
          Valid m r.0
          × (r.0.trans_pending ≡ [])
          × Frame c r.0
          × (r.1 ≡ events ++ error_events pending)
    unfolding fail_loop
    fail_loop-Valid zero pending c events e le v = absurd (omega arith)
    fail_loop-Valid (suc fuel) [] c events e le v =
        let none_left : m.queue_take_first c.trans_pending ≡ none =
          ap m.queue_take_first e ∙ ql.first_nil in
        rw (none_left, fail_loop) (v, e, (refl, refl, refl, refl, refl), sym (append-nil events))
    fail_loop-Valid (suc fuel) (p ∷ rest) c events e le v =
        let first : m.queue_take_first c.trans_pending ≡ some (p, rest) =
          ap m.queue_take_first e ∙ ql.first_cons p rest in
        let ((t, live, is), inv, apart) =
          pop-Inv m (core c) p status_pending rest (λ e. cc) e v.inv in
        let popped = record c { trans_pending = rest } in
        let (w, pend, frame) =
          fail_one-Valid popped p t live (record { inv = inv; apart = apart; fresh = v.fresh }) in
        let (x, none_left, frame', told) =
          fail_loop-Valid fuel rest (fail_one m popped p) (event_add events trans_error (some p))
            pend (omega arith) w in
        let last =
          (fail_loop m fuel (fail_one m popped p) (event_add events trans_error (some p))).0 in
        rw (first, fail_loop)
          (
            x,
            none_left,
            Frame-trans popped (fail_one m popped p) last frame frame',
            told ∙ append_assoc events ((trans_error, some p) ∷ []) (error_events rest),
          )

    -- The last event tells whether the disconnect was asked for.
    abbrev pub final_event : ConnStatus → IoEvent → LmEvent
    final_event status kind =
        if is_io_disconnected (rewrite_type status kind) then conn_disconnect else conn_error

    -- The READY transactions that are told: none if the connection was idle.
    abbrev pub told_ready : Conn → List ℕ
    told_ready c = if conn_status_eq c.status idle_timeout then [] else c.trans_ready

    pub reset_io-IsQuiet :
        (c : Conn)
        → IsQuiet c (reset_io c)
          × ((reset_io c).status ≡ disconnected)
          × ((reset_io c).io ≡ none)
          × ((reset_io c).outbuf ≡ [])
          × ((reset_io c).inbuf ≡ [])
    unfolding reset_io drop_timer
    reset_io-IsQuiet c = ground arith

    told-append :
        (c : Conn) (events : List Entry)
        → (if conn_status_eq c.status idle_timeout
            then events
            else events ++ noconnect_events c.trans_ready)
          ≡ events ++ noconnect_events (told_ready c)
    told-append c events = elim (Bool-cases (conn_status_eq c.status idle_timeout)) [
      | inl e ↦ rw e (sym (append-nil events))
      | inr e ↦ rw e
    ]

    -- A lost connection that was valid, if M_queue does what it documents: the invariant holds,
    -- the READY queue is as it was, nothing is PENDING, the connection is down and its buffers
    -- are empty. The events are one NOCONNECT for each READY transaction, if the connection was
    -- not idle, one ERROR for each PENDING one, both in the order of the queues, and then the
    -- event of the connection.
    pub handle_conn_error-Valid :
        (c : Conn) (events : List Entry) (kind : IoEvent)
        → Valid m c
        → let r = handle_conn_error m c events kind in
          Valid m r.0
          × (r.0.trans_pending ≡ [])
          × (r.0.trans_ready ≡ c.trans_ready)
          × (r.0.status ≡ disconnected)
          × (r.0.io ≡ none)
          × (r.0.outbuf ≡ [])
          × (r.0.inbuf ≡ [])
          × (r.1
              ≡ ((events ++ noconnect_events (told_ready c)) ++ error_events c.trans_pending)
                ++ ((final_event c.status kind, none) ∷ []))
    unfolding handle_conn_error
    handle_conn_error-Valid c events kind v =
        let (q, down, noio, noout, noin) = reset_io-IsQuiet c in
        let told =
          if conn_status_eq c.status idle_timeout
          then events
          else events ++ noconnect_events c.trans_ready in
        let (w, none_left, frame, es) =
          fail_loop-Valid (suc (length c.trans_pending)) c.trans_pending (reset_io c) told
            (ap (λ (k : Core). k.pending) q.0) (omega arith) (IsQuiet-Valid m c (reset_io c) q v) in
        (
          w,
          none_left,
          frame.0 ∙ ap (λ (k : Core). k.ready) q.0,
          frame.1 ∙ down,
          frame.2 ∙ noio,
          frame.3 ∙ noout,
          frame.4 ∙ noin,
          ap (λ (l : List Entry). l ++ ((final_event c.status kind, none) ∷ []))
              (es
                ∙ ap (λ (l : List Entry). l ++ error_events c.trans_pending)
                    (told-append c events)),
        )
