-- ===== src/Conn/Settings.antt =====
-- When the settings of src/monetra_conn.c may change.
use libmonetra.Base.{
  ℕ, ◌≡◌, ◌==◌, ap, is_some, not, true, refl, ◌⊎◌, inl, inr, false, Option, none, some, arith,
  Bytes,
}
use libmonetra.Conn.{
  conn_set_idle_timeout, stop_disabled, start_missing, rearm_idle, may_change, conn_change_server,
  conn_change_mode, conn_set_conn_timeout, conn_set_tls_clientctx, conn_set_tls_cert,
  conn_set_tls_cert_files, conn_set_iocreate_callback,
}
use libmonetra.Mstdlib.{Mstdlib}
use libmonetra.Types.{Conn, ConnStatus, LmMode, connecting, connected, conn_status_eq}

-- While the connection is being made and while it is up, no setting of the server, the mode, the
-- connection timeout, the TLS context or its certificate, or the callback for the network object
-- changes, whatever the arguments: each of these functions fails, and leaves the connection as it was.
pub settings_locked :
    (m : Mstdlib) (c : Conn) (s t : Option Bytes) (n : ℕ) (mode : LmMode) (o o' : Option ℕ)
    → (c.status ≡ connecting) ⊎ (c.status ≡ connected)
    → (conn_change_server c s n ≡ (c, false))
      × (conn_change_mode c mode ≡ (c, false))
      × (conn_set_conn_timeout c n ≡ (c, false))
      × (conn_set_tls_clientctx c o ≡ (c, false))
      × (conn_set_tls_cert m c s t ≡ (c, false))
      × (conn_set_tls_cert_files m c s t ≡ (c, false))
      × (conn_set_iocreate_callback c o o' ≡ (c, false))
settings_locked m c s t n mode o o' h =
    (server s, changed, timeout, context, cert s t, files s t, callback)
  where
    locked : may_change c ≡ false
    locked = elim h [ inl e ↦ ground (arith, e) | inr e ↦ ground (arith, e) ]

    server : (s : Option Bytes) → conn_change_server c s n ≡ (c, false)
    server none = unfold conn_change_server in refl
    server (some host) = unfold conn_change_server in ground (arith, locked)

    changed : conn_change_mode c mode ≡ (c, false)
    changed = unfold conn_change_mode in ground (arith, locked)

    timeout : conn_set_conn_timeout c n ≡ (c, false)
    timeout = unfold conn_set_conn_timeout in ground (arith, locked)

    context : conn_set_tls_clientctx c o ≡ (c, false)
    context = unfold conn_set_tls_clientctx in ground (arith, locked)

    callback : conn_set_iocreate_callback c o o' ≡ (c, false)
    callback = unfold conn_set_iocreate_callback in ground (arith, locked)

    cert : (s t : Option Bytes) → conn_set_tls_cert m c s t ≡ (c, false)
    cert none t = unfold conn_set_tls_cert in refl
    cert (some key) none = unfold conn_set_tls_cert in refl
    cert (some key) (some crt) = unfold conn_set_tls_cert in ground (arith, locked)

    files : (s t : Option Bytes) → conn_set_tls_cert_files m c s t ≡ (c, false)
    files none t = unfold conn_set_tls_cert_files in refl
    files (some key) none = unfold conn_set_tls_cert_files in refl
    files (some key) (some crt) = unfold conn_set_tls_cert_files in ground (arith, locked)

-- On a connection that is up, the idle timer is there exactly if an idle timeout is set.
pub conn_set_idle_timeout-timer :
    (c : Conn) (to_secs : ℕ)
    → c.status ≡ connected
    → let c' = (conn_set_idle_timeout c to_secs).0 in
      (is_some c'.timer ≡ not (to_secs == 0)) × (c'.idle_timeout ≡ to_secs)
unfolding conn_set_idle_timeout stop_disabled start_missing rearm_idle
conn_set_idle_timeout-timer c to_secs up =
    let is_up : conn_status_eq c.status connected ≡ true =
      ap (λ (s : ConnStatus). conn_status_eq s connected) up in
    ground (arith, is_up)
