-- ===== src/Connect.antt =====
-- src/monetra_conn.c: LM_conn_connect, LM_conn_disconnect_connlocked and LM_conn_disconnect.
-- The lock is held from the first line to the last one, but for the call of the user's `iocreate_cb`,
-- which is in the log.
use libmonetra.Base.{
  ℕ, ◌+◌, Bool, true, false, ◌&&◌, [], ◌∷◌, none, some, if◌then◌else◌, is_some, Bytes, codes,
}
use libmonetra.Mstdlib.{Mstdlib}
use libmonetra.Types.{
  Conn, connecting, connected, disconnecting, mode_tls, mode_ip, emit, millis, set_error,
  conn_status_eq, io_create, io_set_keepalives, io_set_connect_timeout, io_tls_add, io_register,
  io_destroy, io_disconnect, iocreate_call, tls_create, tls_default_trust, tls_verify_full,
  tls_negotiation_timeout, tls_protocols,
}

-- If there is no client context, one is created with the default trust and full verification.
unfoldable pub ensure_tlsctx : Conn → Conn
ensure_tlsctx c = elim c.tlsctx [
  | some ctx ↦ c
  | none ↦ record c {
    tlsctx = some c.next;
    next = c.next + 1;
    log =
        tls_protocols c.next
        ∷ tls_negotiation_timeout c.next (millis c.conn_timeout)
        ∷ tls_verify_full c.next
        ∷ tls_default_trust c.next
        ∷ tls_create c.next
        ∷ c.log;
  }
]

-- M_io_destroy(conn->io), and `conn->io = NULL`.
unfoldable pub drop_io : Bytes → Conn → Conn
drop_io text c = set_error text (record c { io = none; log = io_destroy c.io ∷ c.log })

module _ (m : Mstdlib) where
  -- The user's callback, and the registration with the event loop.
  unfoldable pub register : ℕ → Conn → Conn × Bool
  unfolding drop_io
  register io c =
      let called : Conn = elim c.iocreate_cb [
        | none ↦ c
        | some cb ↦ emit (iocreate_call cb io c.iocreate_cbarg) c
      ] in
      if m.event_add io
      then (record called { status = connecting; log = io_register io ∷ called.log }, true)
      else (drop_io (codes "Failed to register connection with event subsystem") called, false)

  -- The TLS layer, if the mode asks for it.
  unfoldable pub add_layers : ℕ → Conn → Conn × Bool
  unfolding register drop_io
  add_layers io c = elim c.mode [
    | mode_ip ↦ register io c
    | mode_tls ↦ elim (m.tls_client_add io) [
      | none ↦ register io (emit (io_tls_add io) c)
      | some text ↦ (drop_io text c, false)
    ]
  ]

  unfoldable pub open_io : Conn → Conn × Bool
  unfolding add_layers
  open_io c =
      let asked = record c { next = c.next + 1 } in
      elim (m.net_client_create c.next c.host c.port) [
        | some text ↦ (set_error text asked, false)
        | none ↦ add_layers c.next (record asked {
          io = some c.next;
          log =
              io_set_connect_timeout c.next (millis c.conn_timeout)
              ∷ io_set_keepalives c.next
              ∷ io_create c.next
              ∷ c.log;
        })
      ]

  unfoldable pub conn_connect : Conn → Conn × Bool
  unfolding open_io ensure_tlsctx
  conn_connect c =
      let cleared = record c { error = [] } in
      if is_some c.io
      then (set_error (codes "Already connected") cleared, false)
      else open_io (ensure_tlsctx cleared)

unfoldable pub conn_disconnect_connlocked : Conn → Conn × Bool
conn_disconnect_connlocked c =
    if is_some c.io && conn_status_eq c.status connected
    then (record c { status = disconnecting; log = io_disconnect c.io ∷ c.log }, true)
    else (c, false)

unfoldable pub conn_disconnect : Conn → Conn × Bool
unfolding conn_disconnect_connlocked
conn_disconnect c = conn_disconnect_connlocked c
