-- ===== src/Invariant/Quiet.antt =====
-- Functions that leave the transactions alone: LM_conn_connect, the settings, the timers.
use libmonetra.Base.{ℕ, ◌≤◌, ◌≡◌, sym, ◌∙◌, [], arith, ap, subst}
use libmonetra.Connect.{register, add_layers, open_io, ensure_tlsctx, conn_connect}
use libmonetra.Invariant.{Core, core, Inv, Valid}
use libmonetra.Mstdlib.{Mstdlib}
use libmonetra.Types.{Conn}

-- The transactions are as before; memory may be allocated.
abbrev pub IsQuiet : Conn → Conn → Type 0
IsQuiet c c' = (core c' ≡ core c) × (c.next ≤ c'.next)

pub IsQuiet-trans : (c d e : Conn) → IsQuiet c d → IsQuiet d e → IsQuiet c e
IsQuiet-trans c d e p q = (q.0 ∙ p.0, omega arith)

pub IsQuiet-Valid : (m : Mstdlib) (c c' : Conn) → IsQuiet c c' → Valid m c → Valid m c'
IsQuiet-Valid m c c' q v = record {
  inv = subst (Inv m []) (sym q.0) v.inv;
  fresh = λ p le.
      let same : c'.heap p ≡ c.heap p = ap (λ (k : Core). k.heap p) q.0 in
      same ∙ v.fresh p (omega arith);
}

module _ (m : Mstdlib) where
  register-IsQuiet : (io : ℕ) (c : Conn) → IsQuiet c (register m io c).0
  unfolding register
  register-IsQuiet io c = ground arith

  add_layers-IsQuiet : (io : ℕ) (c : Conn) → IsQuiet c (add_layers m io c).0
  unfolding add_layers
  add_layers-IsQuiet io c = ground arith

  open_io-IsQuiet : (c : Conn) → IsQuiet c (open_io m c).0
  unfolding open_io
  open_io-IsQuiet c = ground arith

  ensure_tlsctx-IsQuiet : (c : Conn) → IsQuiet c (ensure_tlsctx c)
  unfolding ensure_tlsctx
  ensure_tlsctx-IsQuiet c = ground arith

  -- LM_conn_connect allocates objects at most, and leaves the queues, the map of ids and the
  -- transactions as they are, whether it succeeds or not.
  pub conn_connect-IsQuiet : (c : Conn) → IsQuiet c (conn_connect m c).0
  unfolding conn_connect
  conn_connect-IsQuiet c = ground arith
