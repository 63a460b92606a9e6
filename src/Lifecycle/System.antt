-- ===== src/Lifecycle/System.antt =====
-- A connection under any sequence of calls and events, as a user and an event loop may make them:
-- the steps of include/monetra_api.h on one connection.
use libmonetra.Base.{ℕ, ◌≡◌, ◌≢◌, true, false, List, Option, none, some, Bytes}
use libmonetra.Conn.{
  conn_init, conn_change_server, conn_change_mode, conn_disable_ping, conn_set_userdata,
  conn_set_conn_timeout, conn_set_tls_clientctx, conn_set_iocreate_callback, conn_set_idle_timeout,
  conn_set_tls_cert, conn_set_tls_cert_files, conn_destroy,
}
use libmonetra.Connect.{conn_connect, conn_disconnect}
use libmonetra.Event.{Entry, handle, finish}
use libmonetra.Lifecycle.Good.{IsLive}
use libmonetra.Mstdlib.{Mstdlib, Dict}
use libmonetra.Send.{fill, trans_send}
use libmonetra.Trans.Response.{trans_response_csv}
use libmonetra.Trans.{
  trans_new, trans_set_param, trans_set_timeout, trans_set_userdata, trans_delete,
}
use libmonetra.Types.{Conn, LmMode, IoEvent}

-- A change of the settings.
pub data Setting : Type 0 where
  server : Option Bytes → ℕ → Setting
  mode : LmMode → Setting
  disable_ping : Setting
  userdata tls_clientctx : Option ℕ → Setting
  iocreate_callback : Option ℕ → Option ℕ → Setting
  conn_timeout idle_timeout : ℕ → Setting

unfoldable pub apply : Conn → Setting → Conn
apply c (server host port) = (conn_change_server c host port).0
apply c (mode kind) = (conn_change_mode c kind).0
apply c disable_ping = conn_disable_ping c
apply c (userdata u) = (conn_set_userdata c u).0
apply c (iocreate_callback cb arg) = (conn_set_iocreate_callback c cb arg).0
apply c (tls_clientctx ctx) = (conn_set_tls_clientctx c ctx).0
apply c (conn_timeout secs) = (conn_set_conn_timeout c secs).0
apply c (idle_timeout secs) = (conn_set_idle_timeout c secs).0

-- One call or event. A user passes transactions that are live, and leaves the ping to the library.
-- While events are handled, the callback makes any of the calls; `event` is the handler up to the
-- callbacks, `ends` what is behind them. Other threads' calls may stand between these two.
-- LM_trans_run is its calls one by one, since it gives the lock up between them: LM_trans_new, the
-- copy of the parameters (`fills`), LM_trans_send, and LM_trans_delete where that fails.
-- The functions that only read are no steps.
pub data Step (m : Mstdlib) (c c' : Conn) : Type 0 where
  creates : (p : ℕ) → trans_new m c ≡ some (c', p) → Step m c c'
  sets_param :
      (p : ℕ) (key value : Option Bytes)
      → IsLive c p
      → c' ≡ (trans_set_param m c (some p) key value).0
      → Step m c c'
  sets_timeout :
      (p secs : ℕ) → IsLive c p → c' ≡ (trans_set_timeout m c (some p) secs).0 → Step m c c'
  sets_userdata :
      (p : ℕ) (u : Option ℕ) → IsLive c p → c' ≡ (trans_set_userdata c (some p) u).0 → Step m c c'
  sends : (p : ℕ) → IsLive c p → c' ≡ (trans_send m c (some p)).0 → Step m c c'
  deletes : (p : ℕ) → IsLive c p → c.pingtxn ≢ some p → c' ≡ trans_delete m c (some p) → Step m c c'
  fills : (p : ℕ) (params : Dict) → IsLive c p → c' ≡ fill m c p params → Step m c c'
  reads_csv : (p : ℕ) → IsLive c p → c' ≡ (trans_response_csv m c (some p)).0 → Step m c c'
  connects : c' ≡ (conn_connect m c).0 → Step m c c'
  disconnects : c' ≡ (conn_disconnect c).0 → Step m c c'
  changes : (s : Setting) → c' ≡ apply c s → Step m c c'
  sets_cert : (key crt : Option Bytes) → c' ≡ (conn_set_tls_cert m c key crt).0 → Step m c c'
  sets_cert_files :
      (key crt : Option Bytes) → c' ≡ (conn_set_tls_cert_files m c key crt).0 → Step m c c'
  event :
      (kind : IoEvent) (trans : Option ℕ) (events : List Entry)
      → c.in_use ≡ false
      → ((p : ℕ) → trans ≡ some p → IsLive c p)
      → handle m (record c { in_use = true }) kind trans ≡ some (c', events)
      → Step m c c'
  ends : c.in_use ≡ true → c.destroy ≡ false → c' ≡ (finish m c).0 → Step m c c'
  destroys : c.in_use ≡ true → c' ≡ (conn_destroy c).0 → Step m c c'

-- The transaction that a step deletes for the user.
abbrev pub deleted : {m : Mstdlib} {c c' : Conn} → Step m c c' → Option ℕ
deleted (deletes p live not_ping e) = some p
deleted _ = none

-- The connections that LM_conn_init and any steps lead to.
pub data Reach (m : Mstdlib) : Conn → Type 0 where
  start :
      {c : Conn} (draws : List ℕ) (event callback : Option ℕ) (host : Option Bytes) (port : ℕ)
      → conn_init draws event callback host port ≡ some c
      → Reach m c
  next : {c c' : Conn} → Reach m c → Step m c c' → Reach m c'
