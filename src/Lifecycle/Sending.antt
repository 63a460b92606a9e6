-- ===== src/Lifecycle/Sending.antt =====
-- Connecting, filling and sending move no transaction back.
use libmonetra.Base.{
  ℕ, zero, suc, ◌≤◌, ◌≡◌, refl, Bool, true, false, List, [], ◌∷◌, Option, none, some, arith, ap,
  ◌∙◌, ◌==◌, if◌then◌else◌, Bool-cases, inl, inr, is_nil, length, Bytes,
}
use libmonetra.Connect.{register, add_layers, ensure_tlsctx, conn_connect}
use libmonetra.Invariant.Moves.{pop-Inv, eq_of_status_eq}
use libmonetra.Invariant.Send.{send_one-Valid, enqueue-Valid}
use libmonetra.Invariant.{core, Valid}
use libmonetra.Lifecycle.{
  Keeps, Keeps-refl, Keeps-trans, Grows-live, Same, Same-Keeps, then_Same, store-Keeps, write-Keeps,
  rank,
}
use libmonetra.Mstdlib.{Mstdlib, QueueLaws}
use libmonetra.Send.{enqueue, trans_send}
use libmonetra.Structure.{
  trans_structure, start_timeout, send_one, send_loop, wake_writer, send_messages,
}
use libmonetra.Trans.{
  with_trans-live, get_trans-live, trans_set_param, trans_set_timeout, trans_set_userdata,
}
use libmonetra.Types.{
  Conn, Trans, status_new, status_ready, status_pending, store, conn_status_eq, disconnected,
  connected, trans_status_eq,
}

module _ (m : Mstdlib) where
  register-Same : (io : ℕ) (c : Conn) → Same c (register m io c).0
  unfolding register
  register-Same io c = ground arith

  add_layers-Same : (io : ℕ) (c : Conn) → Same c (add_layers m io c).0
  unfolding add_layers
  add_layers-Same io c = ground arith

  ensure_tlsctx-Same : (c : Conn) → Same c (ensure_tlsctx c)
  unfolding ensure_tlsctx
  ensure_tlsctx-Same c = ground arith

  pub conn_connect-Keeps : (c : Conn) → Keeps c (conn_connect m c).0
  conn_connect-Keeps c = Same-Keeps c (conn_connect m c).0 (unfold conn_connect in ground arith)

  wake_writer-Same : (b : Bool) (c : Conn) → Same c (wake_writer m b c)
  unfolding wake_writer
  wake_writer-Same b c = ground arith

  start_timeout-Keeps :
      (c : Conn) (p : ℕ) (t : Trans) → c.heap p ≡ some t → Keeps c (start_timeout m c p)
  unfolding start_timeout
  start_timeout-Keeps c p t live = elim (Bool-cases (t.timeout_s == 0)) [
    | inl e ↦ rw (with_trans-live c p _ live, e) (Keeps-refl c)
    | inr e ↦
        rw (with_trans-live c p _ live, e)
          (write-Keeps c _ p t (record t { timeout_timer = some c.next }) live refl (omega arith)
            (refl, refl, refl, refl, refl))
  ]

  pub structure-Keeps :
      (c : Conn) (p : ℕ) (t : Trans) → c.heap p ≡ some t → Keeps c (trans_structure m c p)
  unfolding trans_structure
  structure-Keeps c p t live = rw (with_trans-live c p _ live) (
      write-Keeps c _ p t (record t { request_params = none }) live refl (omega arith)
        (refl, refl, refl, refl, refl))

  -- A transaction from the READY queue is PENDING then.
  send_one-Keeps :
      (c : Conn) (p : ℕ) (t : Trans)
      → c.heap p ≡ some t
      → t.status ≡ status_ready
      → Keeps c (send_one m c p)
  unfolding send_one
  send_one-Keeps c p t live is =
      let t' = record t { status = status_pending } in
      let marked = store p t' c in
      let first = store-Keeps c p t t' live refl (ground arith) in
      let second = structure-Keeps marked p t' (ground arith) in
      let (u, at, _, _) =
        Grows-live ((marked).heap p) ((trans_structure m marked p).heap p) t' (second.grows p)
          (ground arith) in
      let third = start_timeout-Keeps (trans_structure m marked p) p u at in
      let all =
        Keeps-trans c (trans_structure m marked p) _
          (Keeps-trans c marked (trans_structure m marked p) first second) third in
      rw (with_trans-live c p _ live) (
        then_Same c (start_timeout m (trans_structure m marked p) p) _ all
          (refl, refl, refl, refl, refl))

  guarded-Keeps :
      (c : Conn) (p : ℕ) (t u : Trans) (b : Bool)
      → c.heap p ≡ some t
      → u.trans_id ≡ t.trans_id
      → rank t.status ≤ rank u.status
      → Keeps c (if◌then◌else◌ {A = Conn × Bool} b (store p u c, true) (c, false)).0
  guarded-Keeps c p t u true live id le = store-Keeps c p t u live id le
  guarded-Keeps c p t u false live id le = Keeps-refl c

  pub trans_set_param-Keeps :
      (c : Conn) (p : ℕ) (t : Trans) (key value : Option Bytes)
      → c.heap p ≡ some t
      → Keeps c (trans_set_param m c (some p) key value).0
  unfolding trans_set_param
  trans_set_param-Keeps c p t none value live = Keeps-refl c
  trans_set_param-Keeps c p t (some key) value live = elim (Bool-cases (is_nil key)) [
    | inl e ↦ rw e (Keeps-refl c)
    | inr e ↦
        rw (e, get_trans-live c p false _ live)
          (guarded-Keeps c p t _ (trans_status_eq t.status status_new) live refl (omega arith))
  ]

  pub trans_set_timeout-Keeps :
      (c : Conn) (p : ℕ) (t : Trans) (timeout_s : ℕ)
      → c.heap p ≡ some t
      → Keeps c (trans_set_timeout m c (some p) timeout_s).0
  unfolding trans_set_timeout
  trans_set_timeout-Keeps c p t timeout_s live =
      rw (get_trans-live c p false _ live)
        (guarded-Keeps c p t _ (trans_status_eq t.status status_new) live refl (omega arith))

  pub trans_set_userdata-Keeps :
      (c : Conn) (p : ℕ) (t : Trans) (user_data : Option ℕ)
      → c.heap p ≡ some t
      → Keeps c (trans_set_userdata c (some p) user_data).0
  unfolding trans_set_userdata
  trans_set_userdata-Keeps c p t user_data live =
      rw (get_trans-live c p false _ live) (store-Keeps c p t _ live refl (omega arith))

  module _ (ql : QueueLaws m) where
    send_loop-Keeps :
        (fuel : ℕ) (ready : List ℕ) (c : Conn)
        → c.trans_ready ≡ ready
        → Valid m c
        → Keeps c (send_loop m fuel c)
    unfolding send_loop
    send_loop-Keeps zero ready c e v = Keeps-refl c
    send_loop-Keeps (suc fuel) [] c e v =
        let none_left : m.queue_take_first c.trans_ready ≡ none =
          ap m.queue_take_first e ∙ ql.first_nil in
        rw (none_left, send_loop) (Keeps-refl c)
    send_loop-Keeps (suc fuel) (p ∷ rest) c e v =
        let first : m.queue_take_first c.trans_ready ≡ some (p, rest) =
          ap m.queue_take_first e ∙ ql.first_cons p rest in
        let ((t, live, is), inv, apart) =
          pop-Inv m (core c) p status_ready rest (λ e. cc) e v.inv in
        let popped = record c { trans_ready = rest } in
        let (sent, ready) =
          send_one-Valid m ql popped p t live
            (record { inv = inv; apart = apart; fresh = v.fresh }) in
        let k = send_one-Keeps popped p t live is in
        let l = send_loop-Keeps fuel rest (send_one m popped p) ready sent in
        rw (first, send_loop)
          (Keeps-trans c popped _ (Same-Keeps c popped (refl, refl, refl, refl, refl))
            (Keeps-trans popped (send_one m popped p) _ k l))

    pub send_messages-Keeps : (c : Conn) → Valid m c → Keeps c (send_messages m c)
    unfolding send_messages
    send_messages-Keeps c v = elim (Bool-cases (conn_status_eq c.status disconnected)) [
      | inl down ↦ rw down (conn_connect-Keeps c)
      | inr other ↦ elim (Bool-cases (conn_status_eq c.status connected)) [
        | inr waiting ↦ rw (other, waiting) (Keeps-refl c)
        | inl up ↦
            let sent = send_loop m (suc (length c.trans_ready)) c in
            rw (other, up)
              (Keeps-trans c sent _
                (send_loop-Keeps (suc (length c.trans_ready)) c.trans_ready c refl v)
                (Same-Keeps sent _ (wake_writer-Same (is_nil c.outbuf) sent)))
      ]
    ]

    pub trans_send-Keeps :
        (c : Conn) (p : ℕ) (t : Trans)
        → c.heap p ≡ some t
        → Valid m c
        → Keeps c (trans_send m c (some p)).0
    unfolding trans_send enqueue
    trans_send-Keeps c p t live v = elim (Bool-cases (trans_status_eq t.status status_new)) [
      | inr old ↦ rw (get_trans-live c p false _ live, old) (Keeps-refl c)
      | inl new ↦ elim (Bool-cases (m.dict_num_keys t.request_params == 0)) [
        | inl empty ↦ rw (get_trans-live c p false _ live, new, empty) (Keeps-refl c)
        | inr full ↦
            let is = eq_of_status_eq t.status status_new new in
            let t' = record t { status = status_ready } in
            let queued =
              write-Keeps c (enqueue m c p t) p t t' live refl (ground arith)
                (refl, refl, refl, refl, refl) in
            rw (get_trans-live c p false _ live, new, full)
              (Keeps-trans c (enqueue m c p t) _ queued
                (send_messages-Keeps (enqueue m c p t) (enqueue-Valid m ql c p t live is v)))
      ]
    ]
