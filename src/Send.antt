-- ===== src/Send.antt =====
-- src/monetra_trans.c: LM_trans_send, LM_trans_run and LM_trans_ping_request.
use libmonetra.Base.{
  ℕ, Bool, true, false, ◌||◌, not, Option, none, some, if◌then◌else◌, ◌==◌, ◌∷◌, codes,
}
use libmonetra.Mstdlib.{Mstdlib, Dict}
use libmonetra.Structure.{send_messages, trans_structure}
use libmonetra.Trans.{
  with_trans, get_trans, trans_new_internal, register_id, trans_new, trans_delete, trans_set_param,
}
use libmonetra.Types.{
  Conn, Trans, status_new, status_ready, status_pending, store, trans_status_eq, io_write_from_buf,
}

module _ (m : Mstdlib) where
  -- To the READY queue, and on to the wire if the connection is up.
  unfoldable pub enqueue : Conn → ℕ → Trans → Conn
  enqueue c p t =
      store p (record t { status = status_ready })
        (record c {
          trans_new = m.queue_take c.trans_new p;
          trans_ready = m.queue_insert c.trans_ready p;
        })

  unfoldable pub trans_send : Conn → Option ℕ → Conn × Bool
  unfolding enqueue
  trans_send c none = (c, false)
  trans_send c (some p) = get_trans c p false λ t.
      if not (trans_status_eq t.status status_new) || m.dict_num_keys t.request_params == 0
      then (c, false)
      else (send_messages m (enqueue c p t), true)

  -- LM_trans_run copies the parameters.
  unfoldable pub fill : Conn → ℕ → Dict → Conn
  fill c p params =
      with_trans c p λ t. store p (record t { request_params = some (m.dict_duplicate params) }) c

  -- Behind LM_trans_new in LM_trans_run.
  unfoldable pub run_new : Conn → ℕ → Dict → Conn × Option ℕ
  unfolding trans_send fill
  run_new c p params =
      let (sent, done) = trans_send (fill c p params) (some p) in
      if done then (sent, some p) else (trans_delete m sent (some p), none)

  -- The outer `none` says that the draws for the id are used up.
  unfoldable pub trans_run : Conn → Option Dict → Option (Conn × Option ℕ)
  unfolding run_new
  trans_run c none = some (c, none)
  trans_run c (some params) =
      if m.dict_num_keys (some params) == 0
      then some (c, none)
      else elim (trans_new m c) [ none ↦ none | some (c', p) ↦ some (run_new c' p params) ]

  -- The ping request goes to the PENDING queue at once.
  unfoldable pub force_pending : Conn → ℕ → Conn
  force_pending c p = with_trans c p λ t.
      store p (record t { status = status_pending })
        (record c { trans_pending = m.queue_insert c.trans_pending p })

  unfoldable pub write_now : Conn → Conn
  write_now c = record c { outbuf = m.io_write c.io c.outbuf; log = io_write_from_buf c.io ∷ c.log }

  unfoldable pub trans_ping_request : Conn → Option (Conn × ℕ)
  unfolding force_pending write_now
  trans_ping_request c = elim (trans_new_internal m c) [
    | none ↦ none
    | some (c1, p) ↦
        let c2 = (trans_set_param m c1 (some p) (some (codes "action")) (some (codes "ping"))).0 in
        let c3 = register_id m (force_pending c2 p) p in
        some (write_now (trans_structure m c3 p), p)
  ]
