-- ===== src/Tests/Connection.antt =====
-- A connection with one transaction, in any of the four queues.
use libmonetra.Base.{
  ℕ, ◌≡◌, ◌≢◌, refl, false, List, [], ◌∷◌, none, some, if◌then◌else◌, ◌==◌, arith, Bytes, codes,
  count,
}
use libmonetra.Invariant.{Valid, core, queue, tally}
use libmonetra.Types.{
  Conn, ConnStatus, Trans, TransStatus, status_all, status_new, status_ready, status_pending,
  status_done, mode_tls, response_unknown, trans_status_eq,
}
use libmonetra.Tests.Reference.{reference}

abbrev pub request : TransStatus → Trans
request s = record {
  trans_id = 7;
  status = s;
  request_params = some ((codes "action", some (codes "sale")) ∷ []);
  response_type = response_unknown;
  response_params = none;
  response_raw = none;
  response_csv = none;
  timeout_s = 0;
  timeout_timer = none;
  user_data = none;
}

abbrev held : TransStatus → TransStatus → List ℕ
held s q = if trans_status_eq s q then 1 ∷ [] else []

-- The transaction `request s` is at 1.
abbrev pub single : TransStatus → ConnStatus → Bytes → Conn
single s up buf = record {
  rnd = 7 ∷ 9 ∷ [];
  trans_new = held s status_new;
  trans_ready = held s status_ready;
  trans_pending = held s status_pending;
  trans_done = held s status_done;
  trans_id_map = (7, 1) ∷ [];
  status = up;
  io = some 0;
  tlsctx = none;
  in_use = false;
  trans_delay_rm = [];
  destroy = false;
  outbuf = [];
  inbuf = buf;
  timer = none;
  write_trigger = none;
  pingtxn = none;
  error = [];
  host = codes "localhost";
  port = 8665;
  mode = mode_tls;
  disable_ping = false;
  conn_timeout = 10;
  idle_timeout = 30;
  user_data = none;
  iocreate_cb = none;
  iocreate_cbarg = none;
  heap = λ p. if 1 == p then some (request s) else none;
  next = 2;
  log = [];
  fault = false;
}

placed_once :
    (s : TransStatus) (up : ConnStatus) (buf : Bytes) (p : ℕ) (q : TransStatus)
    → s ≢ status_all
    → count p (queue (core (single s up buf)) q) ≡ tally ((single s up buf).heap p) q
placed_once status_all up buf p q real = absurd (real refl)
placed_once status_new up buf p q real = ground arith
placed_once status_ready up buf p q real = ground arith
placed_once status_pending up buf p q real = ground arith
placed_once status_done up buf p q real = ground arith

pub single-Valid :
    (s : TransStatus) (up : ConnStatus) (buf : Bytes)
    → s ≢ status_all
    → Valid reference (single s up buf)
single-Valid s up buf real = record {
  inv = record {
    bounded = λ p q. omega (arith, placed_once s up buf p q real);
    placed = λ p q _ _. placed_once s up buf p q real;
    delayed = λ p. ground arith;
    ids = λ p t live. ground arith;
    owned = λ id p known. (request s, ground arith, ground arith);
    safe = refl;
  };
  fresh = λ p le. ground arith;
}
