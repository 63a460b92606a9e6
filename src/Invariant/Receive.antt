-- ===== src/Invariant/Receive.antt =====
-- LM_conn_parse_trans_buffer keeps the invariant, always returns, and completes the transactions
-- that it reports.
use libmonetra.Base.{
  ℕ, zero, suc, ◌-◌, ◌≤◌, ◌<◌, ◌≡◌, refl, Bool, true, [], ◌∷◌, some, arith, ap, Bool-cases, ◌==◌,
  inl, inr, Bytes, length, take, drop, length-drop, Option-cases, ltb,
}
use libmonetra.Invariant.{core, Valid}
use libmonetra.Invariant.Create.{Fresh-store}
use libmonetra.Invariant.Moves.{
  eq_of_status_eq, take-Inv, take-IsDetached, put-Inv, mark-Inv, loosen,
}
use libmonetra.Mstdlib.{Mstdlib, QueueLaws}
use libmonetra.Parse.{
  Parsed, success, wait, error, with_response, complete, dispatch, after_id, parse_msg, parse_frame,
  parse_round, parse_loop, parse_trans_buffer, starts_stx,
}
use libmonetra.Structure.{fs, etx}
use libmonetra.Trans.{get_trans-live}
use libmonetra.Types.{Conn, Trans, status_pending, status_done, trans_status_eq, update}

-- A transaction that is reported is live, and DONE.
abbrev pub Reports : Conn → Parsed → Type 0
Reports c (success p) = (t : Trans) × (c.heap p ≡ some t) × (t.status ≡ status_done)
Reports c wait = Unit
Reports c error = Unit

module _ (m : Mstdlib) where
  pub with_response_frame :
      (t : Trans) (body : Bytes)
      → ((with_response m t body).status ≡ status_done)
        × ((with_response m t body).trans_id ≡ t.trans_id)
  unfolding with_response
  with_response_frame t body = ground arith

  module _ (ql : QueueLaws m) where
    complete-Valid :
        (c : Conn) (p : ℕ) (t : Trans) (body : Bytes)
        → c.heap p ≡ some t
        → t.status ≡ status_pending
        → Valid m c
        → Valid m (complete m c p t body) × Reports (complete m c p t body) (success p)
    unfolding complete
    complete-Valid c p t body live is v =
        let k = record (core c) { pending = m.queue_take c.trans_pending p } in
        let t' = with_response m t body in
        let (done, id) = with_response_frame t body in
        let held =
          take-Inv m ql (core c) p t status_pending (λ e. cc) (loosen m (core c) p v.inv) in
        let apart = take-IsDetached m ql (core c) [] p t status_pending live is (λ e. cc) v.inv in
        (
          record {
            inv =
                put-Inv m ql (record k { heap = update c.heap p (some t') }) p t' status_done
                  (ground arith) done (λ e. cc) apart (mark-Inv m k p t t' live id apart held);
            fresh = Fresh-store c p t t' live v.fresh;
          },
          (t', ground arith, done),
        )

    Outcome : Conn × Parsed → Type 0
    Outcome r = Valid m r.0 × Reports r.0 r.1

    dispatch-Outcome :
        (c : Conn) (id : ℕ) (body : Bytes) → Valid m c → Outcome (dispatch m c id body)
    unfolding dispatch Outcome
    dispatch-Outcome c id body v = elim (Option-cases (m.u64vp_get c.trans_id_map id)) [
      | inl orphan ↦ rw (orphan, dispatch) (v, tt)
      | inr (p, known) ↦
          let (t, live, is) = v.inv.owned id p known in
          elim (Bool-cases (trans_status_eq t.status status_pending)) [
            | inl open' ↦
                rw (known, dispatch, get_trans-live c p wait _ live, open')
                  (complete-Valid c p t body live (eq_of_status_eq t.status status_pending open') v)
            | inr closed ↦ rw (known, dispatch, get_trans-live c p wait _ live, closed) (v, tt)
          ]
    ]

    after_id-Outcome :
        (c : Conn) (id : ℕ) (rest : Bytes) → Valid m c → Outcome (after_id m c id rest)
    unfolding after_id Outcome
    after_id-Outcome c id [] v = (v, tt)
    after_id-Outcome c id (b ∷ body) v = elim (Bool-cases (b == fs)) [
      | inl e ↦ rw e (unfold Outcome in dispatch-Outcome c id body v)
      | inr e ↦ rw e (v, tt)
    ]

    parse_msg-Outcome : (c : Conn) (msg : Bytes) → Valid m c → Outcome (parse_msg m c msg)
    unfolding parse_msg Outcome
    parse_msg-Outcome c msg v = elim (Option-cases (m.parser_read_uint msg)) [
      | inl e ↦ rw (e, parse_msg) (v, tt)
      | inr ((id, rest), e) ↦ rw (e, parse_msg) (after_id-Outcome c id rest v)
    ]

    -- After a frame the buffer is what stands behind it.
    frame-Outcome :
        (c : Conn) (n : ℕ)
        → Valid m c
        → Outcome (parse_frame m c n) × ((parse_frame m c n).0.inbuf ≡ drop n c.inbuf)
    unfolding parse_frame Outcome
    frame-Outcome c n v = elim (Bool-cases (ltb (length (take n c.inbuf)) 5)) [
      | inl short ↦ rw short ((record { inv = v.inv; fresh = v.fresh }, tt), refl)
      | inr long ↦
          let msg = take (length (take n c.inbuf) - 2) (drop 1 (take n c.inbuf)) in
          let (w, r) = parse_msg-Outcome c msg v in
          rw long ((record { inv = w.inv; fresh = w.fresh }, r), refl)
    ]

    -- Whatever a round returns but a wait for more bytes, it takes bytes from the buffer.
    abbrev pub Progress : Conn → Conn → Parsed → Type 0
    Progress c c' (success p) = length c'.inbuf < length c.inbuf
    Progress c c' wait = length c'.inbuf ≤ length c.inbuf
    Progress c c' error = length c'.inbuf ≤ length c.inbuf

    Progress-lt : (c c' : Conn) (r : Parsed) → length c'.inbuf < length c.inbuf → Progress c c' r
    Progress-lt c c' (success p) h = h
    Progress-lt c c' wait h = omega arith
    Progress-lt c c' error h = omega arith

    abbrev pub RoundOutcome : Conn → Conn × Parsed × Bool → Type 0
    RoundOutcome c r =
        Valid m r.0
        × Reports r.0 r.1
        × Progress c r.0 r.1
        × (r.2 ≡ true → length r.0.inbuf < length c.inbuf)

    pub round-Outcome : (c : Conn) → Valid m c → RoundOutcome c (parse_round m c)
    unfolding parse_round Outcome
    round-Outcome c v = elim (Bool-cases (ltb (length c.inbuf) 5)) [
      | inl short ↦ rw (short, parse_round) (v, tt, omega arith, λ e. cc)
      | inr long ↦ elim (Bool-cases (starts_stx c.inbuf)) [
        | inr bad ↦ rw (long, parse_round, bad) (v, tt, omega arith, λ e. cc)
        | inl good ↦
            let n = m.parser_consume_until c.inbuf etx in
            elim (Bool-cases (n == 0)) [
              | inl open' ↦ rw (long, parse_round, good, open') (v, tt, omega arith, λ e. cc)
              | inr closed ↦
                  let (out, rest) = frame-Outcome c n v in
                  let less : length (parse_frame m c n).0.inbuf < length c.inbuf =
                    ground (arith, ap length rest, length-drop n c.inbuf, long, closed) in
                  rw (long, parse_round, good, closed)
                    (
                      out.0,
                      out.1,
                      Progress-lt c (parse_frame m c n).0 (parse_frame m c n).1 less,
                      λ _. less,
                    )
            ]
      ]
    ]

    Progress-trans :
        (c d e : Conn) (r : Parsed)
        → length d.inbuf < length c.inbuf
        → Progress d e r
        → Progress c e r
    Progress-trans c d e (success p) h k = omega arith
    Progress-trans c d e wait h k = omega arith
    Progress-trans c d e error h k = omega arith

    loop-Outcome :
        (fuel : ℕ) (c : Conn)
        → length c.inbuf < fuel
        → Valid m c
        → (r : Conn × Parsed) × (parse_loop m fuel c ≡ some r)
          × Valid m r.0
          × Reports r.0 r.1
          × Progress c r.0 r.1
    unfolding parse_loop
    loop-Outcome zero c h v = absurd (omega arith)
    loop-Outcome (suc fuel) c h v =
        let (w, r, p, less) = round-Outcome c v in
        elim (Bool-cases (parse_round m c).2) [
          | inr stop ↦
              (((parse_round m c).0, (parse_round m c).1), rw (stop, parse_loop) refl, w, r, p)
          | inl more ↦
              let (x, e, w', r', p') =
                loop-Outcome fuel (parse_round m c).0 (omega (arith, less more)) w in
              (
                x,
                rw (more, parse_loop) e,
                w',
                r',
                Progress-trans c (parse_round m c).0 x.0 x.1 (less more) p',
              )
        ]

    -- LM_conn_parse_trans_buffer on a valid connection returns, whatever is in the buffer, for
    -- its fuel is enough; it keeps the invariant, a transaction that it reports is live and DONE,
    -- and then bytes were taken from the buffer, if M_queue does what it documents.
    pub parse_trans_buffer-Valid :
        (c : Conn)
        → Valid m c
        → (r : Conn × Parsed) × (parse_trans_buffer m c ≡ some r)
          × Valid m r.0
          × Reports r.0 r.1
          × Progress c r.0 r.1
    unfolding parse_trans_buffer
    parse_trans_buffer-Valid c v = loop-Outcome (suc (length c.inbuf)) c (omega arith) v
