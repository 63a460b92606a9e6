-- ===== src/Lifecycle/Buffer.antt =====
-- Sending leaves the input buffer alone, so that the loop over the responses ends.
use libmonetra.Base.{
  ℕ, zero, suc, ◌≡◌, refl, Bool, arith, ◌∙◌, Bool-cases, inl, inr, is_nil, length, Option-cases,
}
use libmonetra.Connect.{register, add_layers, conn_connect}
use libmonetra.Event.{drop_timeout}
use libmonetra.Mstdlib.{Mstdlib}
use libmonetra.Structure.{
  trans_structure, start_timeout, send_one, send_loop, wake_writer, send_messages,
}
use libmonetra.Types.{Conn, Trans, status_pending, store, conn_status_eq, disconnected, connected}
use libmonetra.Trans.{with_trans}

abbrev pub SameInput : Conn → Conn → Type 0
SameInput c c' = c'.inbuf ≡ c.inbuf

with_trans-inbuf :
    (c : Conn) (p : ℕ) (f : Trans → Conn)
    → ((t : Trans) → SameInput c (f t))
    → SameInput c (with_trans c p f)
with_trans-inbuf c p f h = elim (Option-cases (c.heap p)) [
  | inl dead ↦ rw (dead, with_trans) refl
  | inr (t, live) ↦ rw (live, with_trans) (h t)
]

pub drop_timeout-inbuf : (c : Conn) (p : ℕ) → SameInput c (drop_timeout c p)
unfolding drop_timeout
drop_timeout-inbuf c p = with_trans-inbuf c p _ (λ t. ground arith)

module _ (m : Mstdlib) where
  register-inbuf : (io : ℕ) (c : Conn) → SameInput c (register m io c).0
  unfolding register
  register-inbuf io c = ground arith

  add_layers-inbuf : (io : ℕ) (c : Conn) → SameInput c (add_layers m io c).0
  unfolding add_layers
  add_layers-inbuf io c = ground arith

  conn_connect-inbuf : (c : Conn) → SameInput c (conn_connect m c).0
  unfolding conn_connect
  conn_connect-inbuf c = ground arith

  trans_structure-inbuf : (c : Conn) (p : ℕ) → SameInput c (trans_structure m c p)
  unfolding trans_structure
  trans_structure-inbuf c p = with_trans-inbuf c p _ (λ t. refl)

  start_timeout-inbuf : (c : Conn) (p : ℕ) → SameInput c (start_timeout m c p)
  unfolding start_timeout
  start_timeout-inbuf c p = with_trans-inbuf c p _ (λ t. ground arith)

  send_one-inbuf : (c : Conn) (p : ℕ) → SameInput c (send_one m c p)
  unfolding send_one
  send_one-inbuf c p =
      let marked = with_trans c p (λ t. store p (record t { status = status_pending }) c) in
      start_timeout-inbuf (trans_structure m marked p) p
      ∙ trans_structure-inbuf marked p
      ∙ with_trans-inbuf c p (λ t. store p (record t { status = status_pending }) c) (λ t. refl)

  send_loop-inbuf : (fuel : ℕ) (c : Conn) → SameInput c (send_loop m fuel c)
  unfolding send_loop
  send_loop-inbuf zero c = refl
  send_loop-inbuf (suc fuel) c = elim (Option-cases (m.queue_take_first c.trans_ready)) [
    | inl last ↦ rw (last, send_loop) refl
    | inr ((p, rest), e) ↦
        let popped = record c { trans_ready = rest } in
        rw (e, send_loop) (send_loop-inbuf fuel (send_one m popped p) ∙ send_one-inbuf popped p)
  ]

  wake_writer-inbuf : (b : Bool) (c : Conn) → SameInput c (wake_writer m b c)
  unfolding wake_writer
  wake_writer-inbuf b c = ground arith

  pub send_messages-inbuf : (c : Conn) → SameInput c (send_messages m c)
  unfolding send_messages
  send_messages-inbuf c = elim (Bool-cases (conn_status_eq c.status disconnected)) [
    | inl down ↦ rw down (conn_connect-inbuf c)
    | inr other ↦ elim (Bool-cases (conn_status_eq c.status connected)) [
      | inr waiting ↦ rw (other, waiting) refl
      | inl up ↦
          rw (other, up)
            (wake_writer-inbuf (is_nil c.outbuf) (send_loop m (suc (length c.trans_ready)) c)
              ∙ send_loop-inbuf (suc (length c.trans_ready)) c)
    ]
  ]
