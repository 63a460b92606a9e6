-- ===== src/Invariant/Send.antt =====
-- LM_trans_send and LM_trans_send_messages keep the invariant, and empty the READY queue.
use libmonetra.Base.{
  ℕ, zero, suc, ◌+◌, ◌≤◌, ◌<◌, ◌≡◌, refl, ◌∙◌, Bool, false, List, [], ◌∷◌, none, some, arith, ap,
  Bool-cases, not, ◌&&◌, ◌==◌, inl, inr, is_nil, length,
}
use libmonetra.Connect.{conn_connect}
use libmonetra.Invariant.{core, Inv, Fresh, Valid}
use libmonetra.Invariant.Create.{Fresh-store}
use libmonetra.Invariant.Moves.{
  IsDetached, eq_of_status_eq, take-Inv, take-IsDetached, put-Inv, mark-Inv, loosen, pop-Inv,
}
use libmonetra.Invariant.Quiet.{IsQuiet, IsQuiet-Valid, conn_connect-IsQuiet}
use libmonetra.Mstdlib.{Mstdlib, QueueLaws}
use libmonetra.Send.{enqueue, trans_send}
use libmonetra.Structure.{
  trans_structure, start_timeout, send_one, send_loop, wake_writer, send_messages,
}
use libmonetra.Trans.{with_trans-live, get_trans-live}
use libmonetra.Types.{
  Conn, Trans, status_new, status_ready, status_pending, store, conn_status_eq, disconnected,
  connected, trans_status_eq, update, Effect,
}

-- A pointer that a function holds, taken out of its queue: it is live, in no queue and not due for
-- deletion twice; all else is as the invariant says.
pub record Held (m : Mstdlib) (c : Conn) (p : ℕ) : Type 0 where
  pub inv : Inv m (p ∷ []) (core c)
  pub apart : IsDetached (core c) p
  pub fresh : Fresh c

module _ (m : Mstdlib) (ql : QueueLaws m) where
  pub enqueue-Valid :
      (c : Conn) (p : ℕ) (t : Trans)
      → c.heap p ≡ some t
      → t.status ≡ status_new
      → Valid m c
      → Valid m (enqueue m c p t)
  unfolding enqueue
  enqueue-Valid c p t live new v =
      let k = record (core c) { new = m.queue_take c.trans_new p } in
      let t' = record t { status = status_ready } in
      let loose = take-Inv m ql (core c) p t status_new (λ e. cc) (loosen m (core c) p v.inv) in
      let apart = take-IsDetached m ql (core c) [] p t status_new live new (λ e. cc) v.inv in
      record {
        inv =
            put-Inv m ql (record k { heap = update c.heap p (some t') }) p t' status_ready
              (ground arith) refl (λ e. cc) apart (mark-Inv m k p t t' live refl apart loose);
        fresh = Fresh-store c p t t' live v.fresh;
      }

  -- A pointer that is held, on a transaction that is PENDING now; the READY queue is `ready`.
  abbrev HeldPending : List ℕ → Conn → ℕ → Type 0
  HeldPending ready c p =
      Held m c p
      × ((t : Trans) × (c.heap p ≡ some t) × (t.status ≡ status_pending))
      × (c.trans_ready ≡ ready)

  store-Held :
      (c : Conn) (p : ℕ) (t t' : Trans)
      → c.heap p ≡ some t
      → t'.trans_id ≡ t.trans_id
      → Held m c p
      → Held m (store p t' c) p
  store-Held c p t t' live id h = record {
    inv = mark-Inv m (core c) p t t' live id h.apart h.inv;
    apart = h.apart;
    fresh = Fresh-store c p t t' live h.fresh;
  }

  -- The same held pointer, with other fields than the invariant's.
  requiet-Held :
      (c : Conn) (p n : ℕ) (out : List ℕ) (l : List Effect)
      → c.next ≤ n
      → Held m c p
      → Held m (record c { next = n; outbuf = out; log = l }) p
  requiet-Held c p n out l le h = record {
    inv = h.inv;
    apart = h.apart;
    fresh = λ x e. h.fresh x (omega arith);
  }

  pub structure-Held :
      (c : Conn) (p : ℕ) (t : Trans)
      → c.heap p ≡ some t
      → t.status ≡ status_pending
      → Held m c p
      → HeldPending c.trans_ready (trans_structure m c p) p
  unfolding trans_structure
  structure-Held c p t live is h = rw (with_trans-live c p _ live) (
    store-Held _ p t (record t { request_params = none }) live refl
        (requiet-Held c p c.next _ c.log (omega arith) h),
    (record t { request_params = none }, ground arith, is),
    refl,
  )

  timeout-Held :
      (c : Conn) (p : ℕ) (ready : List ℕ)
      → HeldPending ready c p
      → HeldPending ready (start_timeout m c p) p
  unfolding start_timeout
  timeout-Held c p ready (h, (t, live, is), r) = elim (Bool-cases (t.timeout_s == 0)) [
    | inl e ↦ rw (with_trans-live c p _ live, e) (h, (t, live, is), r)
    | inr e ↦
        let t' = record t { timeout_timer = some c.next } in
        rw (with_trans-live c p _ live, e)
          (
            store-Held _ p t t' live refl
                (requiet-Held c p (c.next + 1) c.outbuf _ (omega arith) h),
            (t', ground arith, is),
            r,
          )
  ]

  put-Valid :
      (c : Conn) (p : ℕ) (ready : List ℕ)
      → HeldPending ready c p
      → Valid m (record c { trans_pending = m.queue_insert c.trans_pending p })
  put-Valid c p ready (h, (t, live, is), r) = record {
    inv = put-Inv m ql (core c) p t status_pending live is (λ e. cc) h.apart h.inv;
    fresh = h.fresh;
  }

  pub send_one-Valid :
      (c : Conn) (p : ℕ) (t : Trans)
      → c.heap p ≡ some t
      → Held m c p
      → Valid m (send_one m c p) × ((send_one m c p).trans_ready ≡ c.trans_ready)
  unfolding send_one
  send_one-Valid c p t live h =
      let t' = record t { status = status_pending } in
      let marked = store-Held c p t t' live refl h in
      let sent =
        timeout-Held _ p c.trans_ready
          (structure-Held (store p t' c) p t' (ground arith) refl marked) in
      rw (with_trans-live c p _ live) (put-Valid _ p c.trans_ready sent, sent.2)

  -- With enough fuel the loop empties the READY queue.
  send_loop-Valid :
      (fuel : ℕ) (ready : List ℕ) (c : Conn)
      → c.trans_ready ≡ ready
      → length ready < fuel
      → Valid m c
      → Valid m (send_loop m fuel c) × ((send_loop m fuel c).trans_ready ≡ [])
  unfolding send_loop
  send_loop-Valid zero ready c e le v = absurd (omega arith)
  send_loop-Valid (suc fuel) [] c e le v =
      let none_left : m.queue_take_first c.trans_ready ≡ none =
        ap m.queue_take_first e ∙ ql.first_nil in
      rw (none_left, send_loop) (v, e)
  send_loop-Valid (suc fuel) (p ∷ rest) c e le v =
      let first : m.queue_take_first c.trans_ready ≡ some (p, rest) =
        ap m.queue_take_first e ∙ ql.first_cons p rest in
      let ((t, live, is), inv, apart) = pop-Inv m (core c) p status_ready rest (λ e. cc) e v.inv in
      let (sent, ready) =
        send_one-Valid (record c { trans_ready = rest }) p t live
          (record { inv = inv; apart = apart; fresh = v.fresh }) in
      rw (first, send_loop)
        (send_loop-Valid fuel rest (send_one m (record c { trans_ready = rest }) p) ready
          (omega arith) sent)

  wake_writer-IsQuiet :
      (b : Bool) (c : Conn)
      → IsQuiet c (wake_writer m b c) × ((wake_writer m b c).trans_ready ≡ c.trans_ready)
  unfolding wake_writer
  wake_writer-IsQuiet b c = ground arith

  -- In every state of the connection.
  pub send_messages-Valid :
      (c : Conn)
      → Valid m c
      → Valid m (send_messages m c) × (c.status ≡ connected → (send_messages m c).trans_ready ≡ [])
  unfolding send_messages
  send_messages-Valid c v = elim (Bool-cases (conn_status_eq c.status disconnected)) [
    | inl down ↦ rw down (
      IsQuiet-Valid m c (conn_connect m c).0 (conn_connect-IsQuiet m c) v,
      λ up. absurd (ground (arith, up, down)),
    )
    | inr other ↦ elim (Bool-cases (conn_status_eq c.status connected)) [
      | inr waiting ↦ rw (other, waiting) (v, λ up. absurd (ground (arith, up, waiting)))
      | inl up ↦
          let (w, e) =
            send_loop-Valid (suc (length c.trans_ready)) c.trans_ready c refl (omega arith) v in
          let sent = send_loop m (suc (length c.trans_ready)) c in
          let (q, r) = wake_writer-IsQuiet (is_nil c.outbuf) sent in
          rw (other, up)
            (IsQuiet-Valid m sent (wake_writer m (is_nil c.outbuf) sent) q w, λ _. r ∙ e)
    ]
  ]

  -- LM_trans_send_messages on a valid connection that is up keeps the invariant, and leaves no
  -- transaction behind in the READY queue, if M_queue does what it documents.
  pub send_messages_empties :
      (c : Conn)
      → Valid m c
      → c.status ≡ connected
      → Valid m (send_messages m c) × ((send_messages m c).trans_ready ≡ [])
  send_messages_empties c v up = let (w, none_left) = send_messages-Valid c v in (w, none_left up)

  -- LM_trans_send on a live transaction keeps the invariant, if M_queue does what it documents.
  -- It succeeds exactly on a NEW transaction that has parameters.
  pub trans_send-Valid :
      (c : Conn) (p : ℕ) (t : Trans)
      → c.heap p ≡ some t
      → Valid m c
      → Valid m (trans_send m c (some p)).0
        × ((trans_send m c (some p)).1
            ≡ (trans_status_eq t.status status_new && not (m.dict_num_keys t.request_params == 0)))
  unfolding trans_send
  trans_send-Valid c p t live v = elim (Bool-cases (trans_status_eq t.status status_new)) [
    | inr old ↦ rw (get_trans-live c p false _ live, old) (v, refl)
    | inl new ↦ elim (Bool-cases (m.dict_num_keys t.request_params == 0)) [
      | inl empty ↦ rw (get_trans-live c p false _ live, new, empty) (v, refl)
      | inr full ↦
          let is = eq_of_status_eq t.status status_new new in
          let w = enqueue-Valid c p t live is v in
          rw (get_trans-live c p false _ live, new, full)
            ((send_messages-Valid (enqueue m c p t) w).0, refl)
    ]
  ]
