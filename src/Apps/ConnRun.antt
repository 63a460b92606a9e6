-- ===== src/Apps/ConnRun.antt =====
-- apps/monetra_connload/src/monetra_connload.c: the connections of the connection load test. A
-- connection's pointer is a number, which also names its private data: `conns` says what the one
-- points at, `num_txns` what the other holds.
use libmonetra.Apps.CliOpts.{CliLib}
use libmonetra.Apps.ConnOpts.{ConnOpts}
use libmonetra.Apps.Submit.{texts, submit}
use libmonetra.Base.{
  ℕ, ◌+◌, ◌-◌, ◌%◌, ◌^◌, Bool, true, false, List, [], ◌∷◌, ◌++◌, Option, none, some, ◌>>=◌,
  if◌then◌else◌, ◌==◌, is_some, ltb, length, erase, Bytes, codes,
}
use libmonetra.Conn.{conn_init, conn_set_userdata, conn_set_tls_clientctx, conn_destroy}
use libmonetra.Connect.{conn_connect, conn_disconnect as disconnect_conn}
use libmonetra.Event.{Entry, handle, finish}
use libmonetra.Mstdlib.{Mstdlib}
use libmonetra.Trans.{trans_delete}
use libmonetra.Types.{
  Conn, LmEvent, IoEvent, conn_connected, conn_disconnect, conn_error, trans_done, trans_error,
  trans_noconnect, trans_timeout,
}

-- The static variables track_*, the one of enqueue_tran, the memory, and the one-shot timers that
-- wait, each by the connection that it is for. `over` says that the program called exit, or read
-- freed memory, which `fault` tells: nothing is known of it from there on.
pub record Track : Type 0 where
  pub num_connections : ℕ
  pub num_transactions : ℕ
  pub track_conns : List ℕ
  pub txn_enqueued : ℕ
  pub conns : ℕ → Option Conn
  pub num_txns : ℕ → Option ℕ
  pub next : ℕ
  pub timers : List ℕ
  pub over : Bool
  pub fault : Bool

-- Memory with another content at `p`; `none` frees it.
abbrev pub put {ℓ} : {A : Type ℓ} → (ℕ → Option A) → ℕ → Option A → ℕ → Option A
put f p v q = if p == q then v else f q

abbrev pub crash : Track → Track
crash s = record s { over = true; fault = true }

-- The next call, unless the program is over.
infixl 5 ◌>>>◌
abbrev pub ◌>>>◌ : Option Track → (Track → Option Track) → Option Track
none >>> f = none
some s >>> f = if s.over then some s else f s

-- The memory before main.
abbrev pub no_track : Track
no_track = record {
  num_connections = 0;
  num_transactions = 0;
  track_conns = [];
  txn_enqueued = 0;
  conns = λ p. none;
  num_txns = λ p. none;
  next = 1;
  timers = [];
  over = false;
  fault = false;
}

-- The context is main's, and `rnd` has what the random generator of each connection will give.
module _ (m : Mstdlib) (l : CliLib) (o : ConnOpts) (tlsctx : Option ℕ) (rnd : ℕ → List ℕ) where
  abbrev pub request : ℕ → List (Bytes × Bytes)
  request number =
      (codes "username", o.username)
      ∷ (codes "password", o.password)
      ∷ (codes "action", codes "sale")
      ∷ (codes "account", codes "4012888888881881")
      ∷ (codes "expdate", codes "0549")
      ∷ (codes "amount", codes "1.00")
      ∷ (codes "zip", codes "32606")
      ∷ (codes "comments", codes "conn load script")
      ∷ (codes "ptrannum", l.print_number number)
      ∷ []

  -- The new transaction reads the connection, the count its private data.
  unfoldable pub enqueue_on : Track → ℕ → Conn → ℕ → Option Track
  enqueue_on s p c n = do
    let number = (s.txn_enqueued + 1) % 2 ^ 64
    (c', t) ← submit m c (texts (request number))
    some (record s {
      txn_enqueued = number;
      conns = put s.conns p (some c');
      num_txns = put s.num_txns p (some ((n + 1) % 2 ^ 64));
    })

  unfoldable pub enqueue_tran : Track → ℕ → Option Track
  unfolding enqueue_on
  enqueue_tran s p = elim (s.conns p) [
    | none ↦ some (crash s)
    | some c ↦ elim (s.num_txns p) [ none ↦ some (crash s) | some n ↦ enqueue_on s p c n ]
  ]

  -- LM_conn_destroy frees the connection at once, or leaves that to the end of its event handler.
  unfoldable pub destroy_connection : Track → ℕ → Option Track
  destroy_connection s p = elim (s.conns p) [
    | none ↦ some (crash s)
    | some c ↦ elim (s.num_txns p) [
      | none ↦ some (crash s)
      | some n ↦
          let (c', gone) = conn_destroy c in
          some (record s {
            track_conns = l.llist_take_node s.track_conns p;
            num_txns = put s.num_txns p none;
            conns = put s.conns p (if gone then none else some c');
          })
    ]
  ]

  -- It exits where LM_conn_init refuses.
  unfoldable pub create_connection : Track → Track
  create_connection s =
      let p = s.next in
      elim (conn_init (rnd p) (some 1) (some 1) (some o.hostname) o.port) [
        | none ↦ record s { over = true }
        | some c ↦
            let named = (conn_set_userdata c (some p)).0 in
            let secured = (conn_set_tls_clientctx named tlsctx).0 in
            record s {
              next = p + 1;
              track_conns = m.llist_insert s.track_conns p;
              num_txns = put s.num_txns p (some 0);
              conns = put s.conns p (some (conn_connect m secured).0);
            }
      ]

  -- The transaction is deleted; the connection ends with its last one, or has another one, at once
  -- or behind the delay.
  unfoldable pub on_trans_done : Track → ℕ → Option ℕ → Option Track
  unfolding enqueue_tran
  on_trans_done s p trans = elim (s.conns p) [
    | none ↦ some (crash s)
    | some c ↦ elim (s.num_txns p) [
      | none ↦ some (crash s)
      | some n ↦
          let c' = trans_delete m c trans in
          let deleted = record s {
            num_transactions = (s.num_transactions + 1) % 2 ^ 64;
            conns = put s.conns p (some c');
          } in
          let another = enqueue_tran deleted p in
          if n == o.trans_per_conn
          then some (record deleted { conns = put s.conns p (some (disconnect_conn c').0) })
          else if o.delay_per_trans_ms == 0
          then another
          else some (record deleted { timers = s.timers ++ (p ∷ []) })
    ]
  ]

  -- monetra_callback; the number of connections is a size, which wraps below zero.
  unfoldable pub conn_callback : Track → ℕ → LmEvent → Option ℕ → Option Track
  unfolding on_trans_done
  conn_callback s p conn_connected trans =
      enqueue_tran (record s { num_connections = (s.num_connections + 1) % 2 ^ 64 }) p >>> λ s'.
      some (if ltb (length s'.track_conns) o.num_conns then create_connection s' else s')
  conn_callback s p conn_disconnect trans =
      destroy_connection
        (record s { num_connections = (s.num_connections + (2 ^ 64 - 1)) % 2 ^ 64 }) p
      >>> λ s'. some (create_connection s')
  conn_callback s p conn_error trans =
      if is_some (s.num_txns p) then some (record s { over = true }) else some (crash s)
  conn_callback s p trans_done trans = on_trans_done s p trans
  conn_callback s p trans_error trans = some s
  conn_callback s p trans_noconnect trans = some s
  conn_callback s p trans_timeout trans = some s

  -- trans_delay_cb, of a timer that waits.
  unfoldable pub trans_delay_cb : Track → ℕ → Option Track
  trans_delay_cb s p = enqueue_tran (record s { timers = erase p s.timers }) p

  -- The delivery of LM_conntrans_event_handler: it ends where the destruction was asked for.
  unfoldable pub deliver_to : Track → ℕ → List Entry → Option Track
  deliver_to s p [] = some s
  deliver_to s p ((kind, trans) ∷ events) = conn_callback s p kind trans >>> λ s'.
      elim (s'.conns p) [
        | none ↦ some s'
        | some c ↦ let rest = deliver_to s' p events in if c.destroy then some s' else rest
      ]

  -- Its end.
  unfoldable pub finish_on : Track → ℕ → Track
  finish_on s p = elim (s.conns p) [
    | none ↦ s
    | some c ↦
        let (c', gone) = finish m c in
        record s { conns = put s.conns p (if gone then none else some c') }
  ]

  -- LM_conntrans_event_handler on the connection `p`, with this program's callback.
  unfoldable pub conn_event : Track → ℕ → IoEvent → Option ℕ → Option Track
  unfolding deliver_to finish_on
  conn_event s p kind trans = elim (s.conns p) [
    | none ↦ some (crash s)
    | some c ↦ do
      (c', events) ← handle m (record c { in_use = true }) kind trans
      let told = deliver_to (record s { conns = put s.conns p (some c') }) p events
      told >>> λ s'. some (finish_on s' p)
  ]

  -- main up to the event loop.
  unfoldable pub main_start : Track
  unfolding create_connection
  main_start = create_connection no_track
