-- ===== src/Lifecycle/Creating.antt =====
-- LM_conn_init, LM_trans_new, LM_conn_disconnect and the settings: a connection starts with no
-- transaction, and a new one takes unused memory.
use libmonetra.Base.{
  ap, ℕ, ◌≡◌, refl, List, [], count, ◌==◌, not, ◌||◌, is_some, Option, none, some, arith, subst,
  Bytes, Option-cases, Bool-cases, inl, inr,
}
use libmonetra.Conn.{
  new_conn, conn_init, conn_change_server, conn_change_mode, conn_disable_ping, conn_set_userdata,
  conn_set_conn_timeout, conn_set_tls_clientctx, conn_set_iocreate_callback, conn_set_idle_timeout,
  conn_set_tls_cert, conn_set_tls_cert_files, swap_tlsctx,
}
use libmonetra.Connect.{conn_disconnect}
use libmonetra.Invariant.Create.{created, trans_new-created, created-Valid, draw_id_unused}
use libmonetra.Invariant.Quiet.{IsQuiet}
use libmonetra.Invariant.{Valid, core, queue, alive}
use libmonetra.Lifecycle.Good.{Good, IsLive, Keeps-Good, Quiet-Good}
use libmonetra.Lifecycle.System.{
  Setting, apply, server, mode, disable_ping, userdata, iocreate_callback, tls_clientctx,
  conn_timeout, idle_timeout,
}
use libmonetra.Lifecycle.{Same, Keeps, Grows-refl}
use libmonetra.Mstdlib.{Mstdlib, QueueLaws, IdMapLaws}
use libmonetra.Trans.{str_isempty, blank, trans_new, trans_new_internal, draw_id}
use libmonetra.Types.{
  Conn, TransStatus, status_all, status_new, status_ready, status_pending, status_done,
}

-- No transaction is touched.
abbrev pub Quietly : Conn → Conn → Type 0
Quietly c c' = IsQuiet c c' × Same c c'

swap_tlsctx-Quietly : (c : Conn) (ctx : Option ℕ) → Quietly c (swap_tlsctx c ctx)
unfolding swap_tlsctx
swap_tlsctx-Quietly c none = ground arith
swap_tlsctx-Quietly c (some n) = ground arith

pub apply-Quietly : (c : Conn) (s : Setting) → Quietly c (apply c s)
unfolding apply conn_change_server conn_change_mode conn_disable_ping conn_set_userdata
    conn_set_conn_timeout conn_set_iocreate_callback conn_set_tls_clientctx conn_set_idle_timeout
apply-Quietly c (server none port) = ground arith
apply-Quietly c (server (some host) port) = ground arith
apply-Quietly c (mode kind) = ground arith
apply-Quietly c disable_ping = ground arith
apply-Quietly c (userdata u) = ground arith
apply-Quietly c (iocreate_callback cb arg) = ground arith
apply-Quietly c (tls_clientctx none) = ground arith
apply-Quietly c (tls_clientctx (some n)) = ground arith
apply-Quietly c (conn_timeout secs) = ground arith
apply-Quietly c (idle_timeout secs) = ground arith

pub conn_set_tls_cert-Quietly :
    (m : Mstdlib) (c : Conn) (key crt : Option Bytes) → Quietly c (conn_set_tls_cert m c key crt).0
unfolding conn_set_tls_cert
conn_set_tls_cert-Quietly m c none crt = ground arith
conn_set_tls_cert-Quietly m c (some key) none = ground arith
conn_set_tls_cert-Quietly m c (some key) (some crt) = ground arith

pub conn_set_tls_cert_files-Quietly :
    (m : Mstdlib) (c : Conn) (key crt : Option Bytes)
    → Quietly c (conn_set_tls_cert_files m c key crt).0
unfolding conn_set_tls_cert_files
conn_set_tls_cert_files-Quietly m c none crt = ground arith
conn_set_tls_cert_files-Quietly m c (some key) none = ground arith
conn_set_tls_cert_files-Quietly m c (some key) (some crt) = ground arith

pub conn_disconnect-Quietly : (c : Conn) → Quietly c (conn_disconnect c).0
unfolding conn_disconnect
conn_disconnect-Quietly c = ground arith

module _ (m : Mstdlib) (il : IdMapLaws m) where
  empty : (draws : List ℕ) (p : ℕ) (s : TransStatus) → count p (queue (core (new_conn draws)) s) ≡ 0
  empty draws p status_all = refl
  empty draws p status_new = refl
  empty draws p status_ready = refl
  empty draws p status_pending = refl
  empty draws p status_done = refl

  new_conn-Valid : (draws : List ℕ) → Valid m (new_conn draws)
  new_conn-Valid draws = record {
    inv = record {
      bounded = λ p s. omega (arith, empty draws p s);
      placed = λ p s free held. empty draws p s;
      delayed = λ p. omega arith;
      ids = λ p t live. absurd (ground arith);
      owned = λ id p e. absurd (ground (arith, il.get_nil id, e));
      safe = refl;
    };
    fresh = λ p le. refl;
  }

  pub conn_init-Quietly :
      (c : Conn) (draws : List ℕ) (event callback : Option ℕ) (host : Option Bytes) (port : ℕ)
      → conn_init draws event callback host port ≡ some c
      → Quietly (new_conn draws) c
  unfolding conn_init apply
  conn_init-Quietly c draws event callback host port h =
      let bad = not (is_some event) || not (is_some callback) || str_isempty host || port == 0 in
      elim (Bool-cases bad) [
        | inl refused ↦ absurd (ground (arith, refused, h))
        | inr fine ↦
            let is : (conn_change_server (new_conn draws) host port).0 ≡ c =
              ground (arith, fine, h) in
            subst (Quietly (new_conn draws)) is (apply-Quietly (new_conn draws) (server host port))
      ]

  pub conn_init-Good :
      (c : Conn) (draws : List ℕ) (event callback : Option ℕ) (host : Option Bytes) (port : ℕ)
      → conn_init draws event callback host port ≡ some c
      → Good m c × (c.trans_delay_rm ≡ [])
  conn_init-Good c draws event callback host port h =
      let (quiet, same) = conn_init-Quietly c draws event callback host port h in
      let start = new_conn draws in
      let g : Good m start = record {
        valid = new_conn-Valid draws;
        ping = λ p e. absurd (ground (arith, e));
      } in
      ((Quiet-Good m start c quiet same g).0, same.1)

  created-Keeps : (c : Conn) (id : ℕ) (rs : List ℕ) → Valid m c → Keeps c (created m c id rs)
  created-Keeps c id rs v = record {
    grows = λ x. elim (Bool-cases (c.next == x)) [
      | inl same ↦
          let dead : c.heap x ≡ none = v.fresh x (ground (arith, same)) in rw (same, dead) tt
      | inr other ↦ rw other (Grows-refl (c.heap x))
    ];
    delay_rm = refl;
    pingtxn = refl;
    in_use = refl;
    destroy = refl;
  }

  pub trans_new_drawless : (c : Conn) → draw_id m c.rnd c.trans_id_map ≡ none → trans_new m c ≡ none
  unfolding trans_new trans_new_internal
  trans_new_drawless c out = rw (out, trans_new) refl

  pub trans_new-Good :
      (ql : QueueLaws m) (c c' : Conn) (p : ℕ)
      → Good m c
      → trans_new m c ≡ some (c', p)
      → Good m c' × Keeps c c'
  trans_new-Good ql c c' p g h = elim (Option-cases (draw_id m c.rnd c.trans_id_map)) [
    | inl out ↦ absurd (ground (arith, trans_new_drawless c out, h))
    | inr ((id, rs), d) ↦
        let is : created m c id rs ≡ c' = ground (arith, trans_new-created m c id rs d, h) in
        let v =
          created-Valid m ql il c id rs (draw_id_unused m c.rnd c.trans_id_map id rs d) g.valid in
        let k = created-Keeps c id rs g.valid in
        subst (λ (x : Conn). Good m x × Keeps c x) is (Keeps-Good m c (created m c id rs) k g v, k)
  ]

  -- The new transaction is live.
  pub trans_new-IsLive :
      (c c' : Conn) (p : ℕ) → Valid m c → trans_new m c ≡ some (c', p) → IsLive c' p
  trans_new-IsLive c c' p v h = elim (Option-cases (draw_id m c.rnd c.trans_id_map)) [
    | inl out ↦ absurd (ground (arith, trans_new_drawless c out, h))
    | inr ((id, rs), d) ↦
        let is : (created m c id rs, c.next) ≡ (c', p) =
          ground (arith, trans_new-created m c id rs d, h) in
        let free : count c.next c.trans_delay_rm ≡ 0 =
          omega (arith, v.inv.delayed c.next, ap alive (v.fresh c.next (omega arith))) in
        subst (λ (x : Conn × ℕ). IsLive x.0 x.1) is (blank m id, ground arith, free)
  ]
