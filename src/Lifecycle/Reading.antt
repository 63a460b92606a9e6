-- ===== src/Lifecycle/Reading.antt =====
-- Reading responses and handling a lost connection move no transaction back.
use libmonetra.Base.{
  ℕ, zero, suc, ◌-◌, ◌≤◌, ◌≡◌, refl, List, [], ◌∷◌, ◌++◌, none, some, arith, ap, ◌∙◌, ◌==◌,
  if◌then◌else◌, Bool-cases, Option-cases, inl, inr, is_some, length, Bytes, take, drop, ltb,
}
use libmonetra.Event.{
  Entry, event_add, drop_timer, drop_timeout, reset_io, fail_trans, fail_one, fail_loop,
  noconnect_events, handle_conn_error,
}
use libmonetra.Invariant.Failure.{fail_one-Valid, reset_io-IsQuiet}
use libmonetra.Invariant.Moves.{pop-Inv}
use libmonetra.Invariant.Quiet.{IsQuiet-Valid}
use libmonetra.Invariant.Receive.{with_response_frame, round-Outcome}
use libmonetra.Invariant.{Core, core, Valid}
use libmonetra.Lifecycle.{
  Keeps, Keeps-refl, Keeps-trans, Same, Same-Keeps, write-Keeps, rank, rank_le,
}
use libmonetra.Mstdlib.{Mstdlib, QueueLaws}
use libmonetra.Parse.{
  Parsed, wait, with_response, complete, dispatch, after_id, parse_msg, parse_frame, parse_round,
  parse_loop, parse_trans_buffer, starts_stx,
}
use libmonetra.Structure.{fs, etx}
use libmonetra.Trans.{with_trans-live, get_trans-live}
use libmonetra.Types.{
  Conn, Trans, IoEvent, status_pending, store, idle_timeout, conn_status_eq, trans_status_eq,
  trans_error,
}

module _ (m : Mstdlib) where
  complete-Keeps :
      (c : Conn) (p : ℕ) (t : Trans) (body : Bytes)
      → c.heap p ≡ some t
      → Keeps c (complete m c p t body)
  unfolding complete
  complete-Keeps c p t body live =
      let (done, id) = with_response_frame m t body in
      write-Keeps c _ p t (with_response m t body) live id (ground (arith, done))
        (refl, refl, refl, refl, refl)

  dispatch-Keeps : (c : Conn) (id : ℕ) (body : Bytes) → Valid m c → Keeps c (dispatch m c id body).0
  unfolding dispatch
  dispatch-Keeps c id body v = elim (Option-cases (m.u64vp_get c.trans_id_map id)) [
    | inl orphan ↦ rw (orphan, dispatch) (Keeps-refl c)
    | inr (p, known) ↦
        let (t, live, is) = v.inv.owned id p known in
        elim (Bool-cases (trans_status_eq t.status status_pending)) [
          | inl sent ↦
              rw (known, dispatch, get_trans-live c p wait _ live, sent)
                (complete-Keeps c p t body live)
          | inr other ↦ rw (known, dispatch, get_trans-live c p wait _ live, other) (Keeps-refl c)
        ]
  ]

  after_id-Keeps : (c : Conn) (id : ℕ) (rest : Bytes) → Valid m c → Keeps c (after_id m c id rest).0
  unfolding after_id
  after_id-Keeps c id [] v = Keeps-refl c
  after_id-Keeps c id (b ∷ body) v = elim (Bool-cases (b == fs)) [
    | inl e ↦ rw e (dispatch-Keeps c id body v)
    | inr e ↦ rw e (Keeps-refl c)
  ]

  parse_msg-Keeps : (c : Conn) (msg : Bytes) → Valid m c → Keeps c (parse_msg m c msg).0
  unfolding parse_msg
  parse_msg-Keeps c msg v = elim (Option-cases (m.parser_read_uint msg)) [
    | inl e ↦ rw (e, parse_msg) (Keeps-refl c)
    | inr ((id, rest), e) ↦ rw (e, parse_msg) (after_id-Keeps c id rest v)
  ]

  parse_frame-Keeps : (c : Conn) (n : ℕ) → Valid m c → Keeps c (parse_frame m c n).0
  unfolding parse_frame
  parse_frame-Keeps c n v = elim (Bool-cases (ltb (length (take n c.inbuf)) 5)) [
    | inl short ↦ rw short (Same-Keeps c _ (refl, refl, refl, refl, refl))
    | inr long ↦
        let msg = take (length (take n c.inbuf) - 2) (drop 1 (take n c.inbuf)) in
        rw long (
          Keeps-trans c (parse_msg m c msg).0 _ (parse_msg-Keeps c msg v)
            (Same-Keeps (parse_msg m c msg).0 _ (refl, refl, refl, refl, refl)))
  ]

  parse_round-Keeps : (c : Conn) → Valid m c → Keeps c (parse_round m c).0
  unfolding parse_round
  parse_round-Keeps c v = elim (Bool-cases (ltb (length c.inbuf) 5)) [
    | inl short ↦ rw (short, parse_round) (Keeps-refl c)
    | inr long ↦ elim (Bool-cases (starts_stx c.inbuf)) [
      | inr bad ↦ rw (long, parse_round, bad) (Keeps-refl c)
      | inl good ↦
          let n = m.parser_consume_until c.inbuf etx in
          elim (Bool-cases (n == 0)) [
            | inl all ↦ rw (long, parse_round, good, all) (Keeps-refl c)
            | inr some_read ↦ rw (long, parse_round, good, some_read) (parse_frame-Keeps c n v)
          ]
    ]
  ]

  pub drop_timeout-Keeps :
      (c : Conn) (p : ℕ) (t : Trans) → c.heap p ≡ some t → Keeps c (drop_timeout c p)
  unfolding drop_timeout
  drop_timeout-Keeps c p t live = elim (Bool-cases (is_some t.timeout_timer)) [
    | inr e ↦ rw (with_trans-live c p _ live, e) (Keeps-refl c)
    | inl e ↦
        rw (with_trans-live c p _ live, e)
          (write-Keeps c _ p t (record t { timeout_timer = none }) live refl (omega arith)
            (refl, refl, refl, refl, refl))
  ]

  fail_one-Keeps : (c : Conn) (p : ℕ) (t : Trans) → c.heap p ≡ some t → Keeps c (fail_one m c p)
  unfolding fail_one fail_trans
  fail_one-Keeps c p t live =
      let t' = fail_trans m c.error t in
      let moved = record c { trans_done = m.queue_insert c.trans_done p } in
      let told =
        write-Keeps c (store p t' moved) p t t' live refl fail_rank
          (refl, refl, refl, refl, refl) in
      rw (with_trans-live moved p (λ t. store p (fail_trans m c.error t) moved) live) (
        Keeps-trans c (store p t' moved) _ told
          (drop_timeout-Keeps (store p t' moved) p t' (ground arith)))
    where
      fail_rank : rank t.status ≤ 4
      fail_rank = rank_le t.status

  reset_io-Same : (c : Conn) → Same c (reset_io c)
  unfolding reset_io drop_timer
  reset_io-Same c = ground arith

  module _ (ql : QueueLaws m) where
    parse_loop-Keeps :
        (fuel : ℕ) (c : Conn) (r : Conn × Parsed)
        → Valid m c
        → parse_loop m fuel c ≡ some r
        → Keeps c r.0
    unfolding parse_loop
    parse_loop-Keeps zero c r v h = cc
    parse_loop-Keeps (suc fuel) c r v h =
        let one = parse_round-Keeps c v in
        let w = (round-Outcome m ql c v).0 in
        elim (Bool-cases (parse_round m c).2) [
          | inl more ↦
              Keeps-trans c (parse_round m c).0 r.0 one
                (parse_loop-Keeps fuel (parse_round m c).0 r w (rw (more, parse_loop) at h))
          | inr stop ↦
              let e : some ((parse_round m c).0, (parse_round m c).1) ≡ some r =
                rw (stop, parse_loop) at h in
              let first : r.0 ≡ (parse_round m c).0 = ground (arith, e) in rw first one
        ]

    pub parse_trans_buffer-Keeps :
        (c : Conn) (r : Conn × Parsed) → Valid m c → parse_trans_buffer m c ≡ some r → Keeps c r.0
    unfolding parse_trans_buffer
    parse_trans_buffer-Keeps c r v h = parse_loop-Keeps (suc (length c.inbuf)) c r v h

    fail_loop-Keeps :
        (fuel : ℕ) (pending : List ℕ) (c : Conn) (events : List Entry)
        → c.trans_pending ≡ pending
        → Valid m c
        → Keeps c (fail_loop m fuel c events).0
    unfolding fail_loop
    fail_loop-Keeps zero pending c events e v = Keeps-refl c
    fail_loop-Keeps (suc fuel) [] c events e v =
        let none_left : m.queue_take_first c.trans_pending ≡ none =
          ap m.queue_take_first e ∙ ql.first_nil in
        rw (none_left, fail_loop) (Keeps-refl c)
    fail_loop-Keeps (suc fuel) (p ∷ rest) c events e v =
        let first : m.queue_take_first c.trans_pending ≡ some (p, rest) =
          ap m.queue_take_first e ∙ ql.first_cons p rest in
        let ((t, live, is), inv, apart) =
          pop-Inv m (core c) p status_pending rest (λ e. cc) e v.inv in
        let popped = record c { trans_pending = rest } in
        let (w, pend, _) =
          fail_one-Valid m ql popped p t live
            (record { inv = inv; apart = apart; fresh = v.fresh }) in
        let k = fail_one-Keeps popped p t live in
        let l =
          fail_loop-Keeps fuel rest (fail_one m popped p) (event_add events trans_error (some p))
            pend w in
        rw (first, fail_loop)
          (Keeps-trans c popped _ (Same-Keeps c popped (refl, refl, refl, refl, refl))
            (Keeps-trans popped (fail_one m popped p) _ k l))

    pub handle_conn_error-Keeps :
        (c : Conn) (events : List Entry) (kind : IoEvent)
        → Valid m c
        → Keeps c (handle_conn_error m c events kind).0
    unfolding handle_conn_error
    handle_conn_error-Keeps c events kind v =
        let (q, _, _, _, _) = reset_io-IsQuiet m ql c in
        let told =
          if conn_status_eq c.status idle_timeout
          then events
          else events ++ noconnect_events c.trans_ready in
        Keeps-trans c (reset_io c) _ (Same-Keeps c (reset_io c) (reset_io-Same c)) (
          fail_loop-Keeps (suc (length c.trans_pending)) c.trans_pending (reset_io c) told
            (ap (λ (k : Core). k.pending) q.0) (IsQuiet-Valid m c (reset_io c) q v))
