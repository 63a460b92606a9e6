-- ===== src/Lifecycle/Answers.antt =====
-- Which transactions LM_conn_parse_trans_buffer reports: those that were PENDING.
use libmonetra.Base.{
  ℕ, zero, suc, ◌-◌, ◌≡◌, refl, ◌∙◌, sym, true, [], ◌∷◌, Option, some, arith, subst, ap, ◌==◌,
  Bool-cases, Option-cases, inl, inr, length, Bytes, take, drop, ltb,
}
use libmonetra.Invariant.Receive.{round-Outcome}
use libmonetra.Invariant.{Valid}
use libmonetra.Mstdlib.{Mstdlib, QueueLaws}
use libmonetra.Parse.{
  Parsed, success, wait, error, is_wait, dispatch, after_id, parse_msg, parse_frame, parse_round,
  parse_loop, parse_trans_buffer, starts_stx,
}
use libmonetra.Structure.{fs, etx}
use libmonetra.Trans.{get_trans-live}
use libmonetra.Types.{Conn, Trans, status_pending, trans_status_eq}

-- A transaction that is completed was PENDING, and an orphan changes no transaction.
abbrev pub Took : Conn → Conn → Parsed → Type 0
Took c c' (success p) = (t : Trans) × (c.heap p ≡ some t) × (t.status ≡ status_pending)
Took c c' wait = c'.heap ≡ c.heap
Took c c' error = Unit

Took-trans : (c d e : Conn) (r : Parsed) → d.heap ≡ c.heap → Took d e r → Took c e r
Took-trans c d e (success p) same (t, live, sent) =
    (t, ap (λ (h : ℕ → Option Trans). h p) (sym same) ∙ live, sent)
Took-trans c d e wait same k = k ∙ same
Took-trans c d e error same k = tt

-- Another input buffer makes no difference.
Took-heap : (c d e : Conn) (r : Parsed) → e.heap ≡ d.heap → Took c d r → Took c e r
Took-heap c d e (success p) same k = k
Took-heap c d e wait same k = same ∙ k
Took-heap c d e error same k = tt

module _ (m : Mstdlib) where
  dispatch-Took :
      (c : Conn) (id : ℕ) (body : Bytes)
      → Valid m c
      → Took c (dispatch m c id body).0 (dispatch m c id body).1
  unfolding dispatch
  dispatch-Took c id body v = elim (Option-cases (m.u64vp_get c.trans_id_map id)) [
    | inl orphan ↦ rw (orphan, dispatch) refl
    | inr (p, known) ↦
        let (t, live, is) = v.inv.owned id p known in
        elim (Bool-cases (trans_status_eq t.status status_pending)) [
          | inl sent ↦
              rw (known, dispatch, get_trans-live c p wait _ live, sent)
                (t, live, ground (arith, sent))
          | inr other ↦ rw (known, dispatch, get_trans-live c p wait _ live, other) refl
        ]
  ]

  after_id-Took :
      (c : Conn) (id : ℕ) (rest : Bytes)
      → Valid m c
      → Took c (after_id m c id rest).0 (after_id m c id rest).1
  unfolding after_id
  after_id-Took c id [] v = tt
  after_id-Took c id (b ∷ body) v = elim (Bool-cases (b == fs)) [
    | inl e ↦ rw e (dispatch-Took c id body v)
    | inr e ↦ rw e tt
  ]

  parse_msg-Took :
      (c : Conn) (msg : Bytes) → Valid m c → Took c (parse_msg m c msg).0 (parse_msg m c msg).1
  unfolding parse_msg
  parse_msg-Took c msg v = elim (Option-cases (m.parser_read_uint msg)) [
    | inl e ↦ rw (e, parse_msg) tt
    | inr ((id, rest), e) ↦ rw (e, parse_msg) (after_id-Took c id rest v)
  ]

  parse_frame-Took :
      (c : Conn) (n : ℕ) → Valid m c → Took c (parse_frame m c n).0 (parse_frame m c n).1
  unfolding parse_frame
  parse_frame-Took c n v = elim (Bool-cases (ltb (length (take n c.inbuf)) 5)) [
    | inl short ↦ rw short tt
    | inr long ↦
        let msg = take (length (take n c.inbuf) - 2) (drop 1 (take n c.inbuf)) in
        let read = parse_msg m c msg in
        rw long (
          Took-heap c read.0 (record read.0 { inbuf = drop n c.inbuf }) read.1 refl
            (parse_msg-Took c msg v))
  ]

  parse_round-Took :
      (c : Conn)
      → Valid m c
      → Took c (parse_round m c).0 (parse_round m c).1
        × ((parse_round m c).2 ≡ true → (parse_round m c).0.heap ≡ c.heap)
  unfolding parse_round
  parse_round-Took c v = elim (Bool-cases (ltb (length c.inbuf) 5)) [
    | inl short ↦ rw (short, parse_round) (refl, λ e. refl)
    | inr long ↦ elim (Bool-cases (starts_stx c.inbuf)) [
      | inr bad ↦ rw (long, parse_round, bad) (tt, λ e. refl)
      | inl good ↦
          let n = m.parser_consume_until c.inbuf etx in
          elim (Bool-cases (n == 0)) [
            | inl all ↦ rw (long, parse_round, good, all) (refl, λ e. refl)
            | inr some_read ↦
                let k = parse_frame-Took c n v in
                rw (long, parse_round, good, some_read)
                  (k, orphan (parse_frame m c n).0 (parse_frame m c n).1 k)
          ]
    ]
  ]
    where
      orphan : (d : Conn) (r : Parsed) → Took c d r → is_wait r ≡ true → d.heap ≡ c.heap
      orphan d (success p) k e = absurd (ground (arith, e))
      orphan d wait k e = k
      orphan d error k e = absurd (ground (arith, e))

  module _ (ql : QueueLaws m) where
    parse_loop-Took :
        (fuel : ℕ) (c : Conn) (r : Conn × Parsed)
        → Valid m c
        → parse_loop m fuel c ≡ some r
        → Took c r.0 r.1
    unfolding parse_loop
    parse_loop-Took zero c r v h = absurd (ground (arith, h))
    parse_loop-Took (suc fuel) c r v h =
        let (one, same) = parse_round-Took c v in
        let c' = (parse_round m c).0 in
        elim (Bool-cases (parse_round m c).2) [
          | inl more ↦
              Took-trans c c' r.0 r.1 (same more)
                (parse_loop-Took fuel c' r (round-Outcome m ql c v).0 (rw (more, parse_loop) at h))
          | inr stop ↦
              let e : some (c', (parse_round m c).1) ≡ some r = rw (stop, parse_loop) at h in
              let is : (c', (parse_round m c).1) ≡ r = ground (arith, e) in
              subst (λ (x : Conn × Parsed). Took c x.0 x.1) is one
        ]

    pub parse_trans_buffer-Took :
        (c : Conn) (r : Conn × Parsed)
        → Valid m c
        → parse_trans_buffer m c ≡ some r
        → Took c r.0 r.1
    unfolding parse_trans_buffer
    parse_trans_buffer-Took c r v h = parse_loop-Took (suc (length c.inbuf)) c r v h
