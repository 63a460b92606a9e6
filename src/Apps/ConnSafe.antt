-- ===== src/Apps/ConnSafe.antt =====
-- apps/monetra_connload/src/monetra_connload.c: the callback of the connection load test, on a
-- connection whose events are handled.
use libmonetra.Apps.CliOpts.{CliLib}
use libmonetra.Apps.ConnOpts.{ConnOpts}
use libmonetra.Apps.ConnRun.{Track, put, enqueue_on, enqueue_tran, on_trans_done, request}
use libmonetra.Apps.ConnState.{Others, Changed-Others, put_same, put_self, known_below}
use libmonetra.Apps.Submit.{texts, submit, submit-Reach, submit-Keeps}
use libmonetra.Base.{
  ℕ, ◌+◌, ◌%◌, ◌^◌, ◌≡◌, ◌≢◌, refl, ◌∙◌, sym, ap, subst, true, false, List, ◌∷◌, Option, none, some,
  arith, ◌==◌, bind_some, some_inj, Bool-cases, inl, inr,
}
use libmonetra.Event.{Entry}
use libmonetra.Connect.{conn_disconnect as disconnect_conn}
use libmonetra.Lifecycle.Creating.{conn_disconnect-Quietly}
use libmonetra.Lifecycle.Deleting.{trans_delete-Flags, trans_delete-Apart}
use libmonetra.Lifecycle.Good.{Keeps-Follows}
use libmonetra.Lifecycle.Reporting.{told, times, Reported, Reported-Follows}
use libmonetra.Lifecycle.System.{Reach, next, deletes, disconnects}
use libmonetra.Lifecycle.{Same-Keeps}
use libmonetra.Mstdlib.{Mstdlib, QueueLaws, IdMapLaws}
use libmonetra.Trans.{trans_delete}
use libmonetra.Types.{Conn, trans_done}

-- The events of the connection `p` are handled; `events` are still to be delivered.
pub record Open (m : Mstdlib) (o : ConnOpts) (p : ℕ) (events : List Entry) (s : Track)
    : Type 0 where
  pub others : Others m o (some p) s
  pub going : s.over ≡ false
  pub conn : Conn
  pub there : s.conns p ≡ some conn
  pub reach : Reach m conn
  pub alive : conn.destroy ≡ false
  pub busy : conn.in_use ≡ true
  pub txns : ℕ
  pub named : s.num_txns p ≡ some txns
  pub reported : Reported conn events

-- Its destruction was asked for.
pub record Leaving (m : Mstdlib) (o : ConnOpts) (p : ℕ) (s : Track) : Type 0 where
  pub others : Others m o (some p) s
  pub going : s.over ≡ false
  pub conn : Conn
  pub there : s.conns p ≡ some conn
  pub reach : Reach m conn
  pub asked : conn.destroy ≡ true

module _ (m : Mstdlib) (l : CliLib) (o : ConnOpts) (tlsctx : Option ℕ) (rnd : ℕ → List ℕ) where
  module _ (ql : QueueLaws m) (il : IdMapLaws m) where
    -- The connection becomes another one.
    changed-Open :
        (p : ℕ) (events rest : List Entry) (s s' : Track) (c' : Conn) (n : ℕ)
        → Open m o p events s
        → Reach m c'
        → c'.destroy ≡ false
        → c'.in_use ≡ true
        → Reported c' rest
        → s'.conns ≡ put s.conns p (some c')
        → s'.num_txns p ≡ some n
        → s'.num_txns ≡ put s.num_txns p (some n)
        → s'.next ≡ s.next
        → s'.track_conns ≡ s.track_conns
        → s'.timers ≡ s.timers
        → s'.fault ≡ s.fault
        → s'.over ≡ s.over
        → Open m o p rest s'
    changed-Open p events rest s s' c' n h r alive busy reported conns named num_txns unused
          track_conns timers fault over =
        record {
          others =
              Changed-Others m o p s s' (known_below m o (some p) p s h.conn h.others h.there)
                (record {
                  conn = some c';
                  data_of = some n;
                  conns = conns;
                  num_txns = num_txns;
                  listed = λ n' e. h.others.tracked p h.txns h.named;
                  next = unused;
                  track_conns = track_conns;
                  timers = timers;
                  fault = fault;
                })
                h.others;
          going = over ∙ h.going;
          conn = c';
          there = ap (λ (f : ℕ → Option Conn). f p) conns ∙ put_same s.conns p (some c');
          reach = r;
          alive = alive;
          busy = busy;
          txns = n;
          named = named;
          reported = reported;
        }

    enqueue_on-Open :
        (p : ℕ) (events : List Entry) (s s' : Track) (h : Open m o p events s)
        → enqueue_on m l o tlsctx rnd s p h.conn h.txns ≡ some s'
        → Open m o p events s'
    unfolding enqueue_on
    enqueue_on-Open p events s s' h e =
        let number = (s.txn_enqueued + 1) % 2 ^ 64 in
        let params = texts (request m l o tlsctx rnd number) in
        let ((c', t), made, e') = bind_some (submit m h.conn params) _ e in
        subst (Open m o p events) (some_inj e') (
          let n = (h.txns + 1) % 2 ^ 64 in
          let k = submit-Keeps m ql il h.conn c' t params h.reach made in
          changed-Open p events events s _ c' n h
            (submit-Reach m ql il h.conn c' t params h.reach made) (k.destroy ∙ h.alive)
            (k.in_use ∙ h.busy)
            (Reported-Follows h.conn c' events (Keeps-Follows h.conn c' k) h.reported) refl
            (put_same s.num_txns p (some n)) refl refl refl refl refl refl)

    pub enqueue_tran-Open :
        (p : ℕ) (events : List Entry) (s s' : Track)
        → Open m o p events s
        → enqueue_tran m l o tlsctx rnd s p ≡ some s'
        → Open m o p events s'
    unfolding enqueue_tran
    enqueue_tran-Open p events s s' h e =
        enqueue_on-Open p events s s' h (rw (h.there, enqueue_tran, h.named) at e)

    -- The transaction that is done is deleted; the others that are told are still there.
    deleted-Reported :
        (c : Conn) (trans : Option ℕ) (rest : List Entry)
        → Reach m c
        → Reported c ((trans_done, trans) ∷ rest)
        → let c' = trans_delete m c trans in
          Reach m c' × (c'.in_use ≡ c.in_use) × (c'.destroy ≡ c.destroy) × Reported c' rest
    unfolding trans_delete
    deleted-Reported c none rest r rep = (
      r,
      refl,
      refl,
      λ q some_told. let (once, is) = rep q (omega (arith, some_told)) in (omega (arith, once), is),
    )
    deleted-Reported c (some p) rest r rep =
        let (once, (t, live, done, free, other)) = rep p (ground arith) in
        let last : times p rest ≡ 0 = ground (arith, once) in
        let flags = trans_delete-Flags m ql il c p t live in
        (
          next r (deletes p (t, live, free) other refl),
          flags.0,
          flags.1,
          λ q some_told.
              let apart : p ≢ q =
                λ same. ground (arith, ap (λ (x : ℕ). times x rest) same, last, some_told) in
              let silent : told q (trans_done, some p) ≡ 0 = ground (arith, apart) in
              let (once', (u, at, done', free', other')) =
                rep q (omega (arith, silent, some_told)) in
              let (heap, due) = trans_delete-Apart m ql il c p q t live apart in
              (
                omega (arith, once', silent),
                (u, heap ∙ at, done', due ∙ free', λ e. other' (sym flags.2 ∙ e)),
              ),
        )

    pub on_trans_done-Open :
        (p : ℕ) (trans : Option ℕ) (rest : List Entry) (s s' : Track)
        → o.delay_per_trans_ms ≡ 0
        → Open m o p ((trans_done, trans) ∷ rest) s
        → on_trans_done m l o tlsctx rnd s p trans ≡ some s'
        → Open m o p rest s'
    unfolding on_trans_done
    on_trans_done-Open p trans rest s s' no_delay h e =
        let c' = trans_delete m h.conn trans in
        let (r, busy, alive, rep) = deleted-Reported h.conn trans rest h.reach h.reported in
        let deleted = record s {
          num_transactions = (s.num_transactions + 1) % 2 ^ 64;
          conns = put s.conns p (some c');
        } in
        let same = put_self s.num_txns p (some h.txns) h.named in
        let opened =
          changed-Open p ((trans_done, trans) ∷ rest) rest s deleted c' h.txns h r (alive ∙ h.alive)
            (busy ∙ h.busy) rep refl h.named same refl refl refl refl refl in
        elim (Bool-cases (h.txns == o.trans_per_conn)) [
          | inl last ↦
              let c'' = (disconnect_conn c').0 in
              let ended = record deleted { conns = put s.conns p (some c'') } in
              let is : some ended ≡ some s' = rw (h.there, on_trans_done, h.named, last) at e in
              let (quiet, k0) = conn_disconnect-Quietly c' in
              let k = Same-Keeps c' c'' k0 in
              subst (Open m o p rest) (some_inj is) (
                changed-Open p ((trans_done, trans) ∷ rest) rest s ended c'' h.txns h
                  (next r (disconnects refl)) (k.destroy ∙ alive ∙ h.alive)
                  (k.in_use ∙ busy ∙ h.busy)
                  (Reported-Follows c' c'' rest (Keeps-Follows c' c'' k) rep) refl h.named same refl
                  refl refl refl refl)
          | inr more ↦
              let now : (o.delay_per_trans_ms == 0) ≡ true = ground (arith, no_delay) in
              let is : enqueue_tran m l o tlsctx rnd deleted p ≡ some s' =
                rw (h.there, on_trans_done, h.named, more, now) at e in
              enqueue_tran-Open p rest deleted s' opened is
        ]
