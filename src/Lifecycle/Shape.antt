-- ===== src/Lifecycle/Shape.antt =====
-- What a call or an event is to the transactions: five shapes.
use libmonetra.Base.{
  ℕ, ◌≡◌, ◌≢◌, inl, inr, refl, ◌∙◌, sym, Bool, true, false, List, Option, none, some, arith, ap,
  subst, count,
}
use libmonetra.Conn.{conn_destroy}
use libmonetra.Event.{Handled, Entry, handle, finish}
use libmonetra.Invariant.Create.{
  trans_set_param-Valid, trans_set_timeout-Valid, trans_set_userdata-Valid,
}
use libmonetra.Invariant.Quiet.{conn_connect-IsQuiet, IsQuiet-Valid}
use libmonetra.Invariant.Send.{trans_send-Valid}
use libmonetra.Invariant.{Core, Valid}
use libmonetra.Lifecycle.Creating.{
  Quietly, apply-Quietly, conn_set_tls_cert-Quietly, conn_set_tls_cert_files-Quietly,
  conn_disconnect-Quietly, trans_new-Good,
}
use libmonetra.Lifecycle.Good.{Good, IsLive, Follows, Keeps-Good}
use libmonetra.Invariant.Quiet.{IsQuiet}
use libmonetra.Lifecycle.Handler.{handle-Good}
use libmonetra.Lifecycle.Sending.{
  conn_connect-Keeps, trans_set_param-Keeps, trans_set_timeout-Keeps, trans_set_userdata-Keeps,
  trans_send-Keeps,
}
use libmonetra.Lifecycle.System.{
  Step, deleted, creates, sets_param, sets_timeout, sets_userdata, sends, deletes, fills, reads_csv,
  sets_cert, sets_cert_files, connects, disconnects, changes, event, ends, destroys,
}
use libmonetra.Lifecycle.Running.{
  fill-Keeps, fill-Valid, trans_response_csv-Keeps, trans_response_csv-Valid,
}
use libmonetra.Lifecycle.{Same-Keeps, Keeps}
use libmonetra.Mstdlib.{Mstdlib, QueueLaws, IdMapLaws}
use libmonetra.Trans.{trans_delete}
use libmonetra.Types.{Conn}

-- Nothing is deleted; events are handled; the user deletes; the handler ends; the destruction is
-- asked for. The index is the transaction that the user deletes.
pub data Shape (m : Mstdlib) (c c' : Conn) : Option ℕ → Type 0 where
  kept : Keeps c c' → Good m c' → Shape m c c' none
  handled : Follows (record c { in_use = true }) c' → Good m c' → Shape m c c' none
  removed :
      (p : ℕ)
      → IsLive c p
      → c.pingtxn ≢ some p
      → c' ≡ trans_delete m c (some p)
      → Shape m c c' (some p)
  ended : c.destroy ≡ false → c' ≡ (finish m c).0 → Shape m c c' none
  asked : c.in_use ≡ true → c' ≡ record c { destroy = true } → Shape m c c' none

pub conn_destroy_busy :
    (c : Conn) → c.in_use ≡ true → conn_destroy c ≡ (record c { destroy = true }, false)
unfolding conn_destroy
conn_destroy_busy c busy = rw busy refl

module _ (m : Mstdlib) where
  -- Another value of a flag.
  pub flag-Good : (c c' : Conn) → IsQuiet c c' → Good m c → c'.pingtxn ≡ c.pingtxn → Good m c'
  flag-Good c c' quiet g same = record {
    valid = IsQuiet-Valid m c c' quiet g.valid;
    ping = λ p e.
        let (t, live, due) = g.ping p (sym same ∙ e) in
        (
          t,
          ap (λ (k : Core). k.heap p) quiet.0 ∙ live,
          ap (λ (k : Core). count p k.delay_rm) quiet.0 ∙ due,
        );
  }

  keeps-Shape : (c d c' : Conn) → Good m c → Keeps c d → Valid m d → c' ≡ d → Shape m c c' none
  keeps-Shape c d c' g k v e =
      subst (λ (x : Conn). Shape m c x none) (sym e) (kept k (Keeps-Good m c d k g v))

  quiet-Shape : (c d c' : Conn) → Good m c → Quietly c d → c' ≡ d → Shape m c c' none
  quiet-Shape c d c' g (quiet, same) e =
      keeps-Shape c d c' g (Same-Keeps c d same) (IsQuiet-Valid m c d quiet g.valid) e

  handled-Shape :
      (c c' : Conn) (events : List Entry) (o : Option Handled)
      → (r : Handled) × (o ≡ some r) × Good m r.0 × Follows (record c { in_use = true }) r.0
      → o ≡ some (c', events)
      → Shape m c c' none
  handled-Shape c c' events o (r, e, g, f) h =
      let is : r ≡ (c', events) = ground (arith, e, h) in
      let same : r.0 ≡ c' = ap (λ (x : Handled). x.0) is in
      subst (λ (x : Conn). Shape m c x none) same (handled f g)

  module _ (ql : QueueLaws m) (il : IdMapLaws m) where
    pub Step-Shape : (c c' : Conn) → Good m c → (s : Step m c c') → Shape m c c' (deleted s)
    Step-Shape c c' g (creates p e) = let (h, k) = trans_new-Good m il ql c c' p g e in kept k h
    Step-Shape c c' g (sets_param p key value (t, live, _) e) =
        keeps-Shape c _ c' g (trans_set_param-Keeps m c p t key value live)
          (trans_set_param-Valid m c p t key value live g.valid) e
    Step-Shape c c' g (sets_timeout p secs (t, live, _) e) =
        keeps-Shape c _ c' g (trans_set_timeout-Keeps m c p t secs live)
          (trans_set_timeout-Valid m c p t secs live g.valid) e
    Step-Shape c c' g (sets_userdata p u (t, live, _) e) =
        keeps-Shape c _ c' g (trans_set_userdata-Keeps m c p t u live)
          (trans_set_userdata-Valid m c p t u live g.valid) e
    Step-Shape c c' g (sends p (t, live, _) e) =
        keeps-Shape c _ c' g (trans_send-Keeps m ql c p t live g.valid)
          (trans_send-Valid m ql c p t live g.valid).0 e
    Step-Shape c c' g (deletes p live not_ping e) = removed p live not_ping e
    Step-Shape c c' g (fills p params (t, live, _) e) =
        keeps-Shape c _ c' g (fill-Keeps m c p t params live)
          (fill-Valid m c p t params live g.valid) e
    Step-Shape c c' g (reads_csv p (t, live, _) e) =
        keeps-Shape c _ c' g (trans_response_csv-Keeps m c p t live)
          (trans_response_csv-Valid m c p t live g.valid) e
    Step-Shape c c' g (sets_cert key crt e) =
        quiet-Shape c _ c' g (conn_set_tls_cert-Quietly m c key crt) e
    Step-Shape c c' g (sets_cert_files key crt e) =
        quiet-Shape c _ c' g (conn_set_tls_cert_files-Quietly m c key crt) e
    Step-Shape c c' g (connects e) =
        keeps-Shape c _ c' g (conn_connect-Keeps m c)
          (IsQuiet-Valid m c _ (conn_connect-IsQuiet m c) g.valid) e
    Step-Shape c c' g (disconnects e) = quiet-Shape c _ c' g (conn_disconnect-Quietly c) e
    Step-Shape c c' g (changes setting e) = quiet-Shape c _ c' g (apply-Quietly c setting) e
    Step-Shape c c' g (event kind trans events idle timer e) =
        let b = record c { in_use = true } in
        let h = flag-Good c b (refl, omega arith) g refl in
        elim (handle-Good m ql il b kind trans refl timer h) [
          | inl handles ↦ handled-Shape c c' events (handle m b kind trans) handles e
          | inr out ↦ absurd (ground (arith, out.0, e))
        ]
    Step-Shape c c' g (ends busy alive e) = ended alive e
    Step-Shape c c' g (destroys busy e) =
        asked busy (e ∙ ap (λ (r : Conn × Bool). r.0) (conn_destroy_busy c busy))
