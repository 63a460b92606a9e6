-- ===== src/Lifecycle/Pinging.antt =====
-- The ping: its request, its removal, and the connection that is up behind it.
use libmonetra.Base.{
  ℕ, ◌≡◌, refl, ◌∙◌, true, List, [], ◌∷◌, Option, none, some, arith, ap, subst, sym, count,
  count-append, false, ◌==◌, ◌≢◌, Option-cases, inl, inr,
}
use libmonetra.Event.{Entry, cleanup_ping, add_idle_timer, set_connected}
use libmonetra.Invariant.Connected.{
  Seen, seen, cleanup_ping-seen, cleanup_ping-Valid, add_idle_timer-IsQuiet,
}
use libmonetra.Invariant.Quiet.{IsQuiet-Valid}
use libmonetra.Invariant.Send.{send_messages-Valid}
use libmonetra.Invariant.{Valid}
use libmonetra.Lifecycle.Buffer.{SameInput, send_messages-inbuf}
use libmonetra.Lifecycle.Good.{Good, Follows, Follows-trans, Keeps-Follows}
use libmonetra.Lifecycle.Sending.{send_messages-Keeps}
use libmonetra.Lifecycle.{Grows, Grows-refl, Grows-update, Keeps-trans, Same, Same-Keeps}
use libmonetra.Mstdlib.{Mstdlib, QueueLaws, IdMapLaws}
use libmonetra.Structure.{send_messages}
use libmonetra.Trans.{quiet, trans_delete}
use libmonetra.Types.{Conn, Trans, connected, timer_remove}

module _ (m : Mstdlib) where
  cleanup_ping_gone : (c : Conn) → (cleanup_ping m c).pingtxn ≡ none
  unfolding cleanup_ping
  cleanup_ping_gone c = refl

  -- With no ping there is only the timer to remove.
  cleanup_ping_no_ping : (c : Conn) → c.pingtxn ≡ none → seen m (cleanup_ping m c) ≡ seen m c
  unfolding cleanup_ping trans_delete
  cleanup_ping_no_ping c none_there =
      let killed = record c { timer = none; log = timer_remove c.timer ∷ c.log } in
      subst
        (λ (o : Option ℕ).
          seen m (
            trans_delete m
              (elim o as (λ _. Conn) [
                | none ↦ killed
                | some q ↦ record killed { trans_pending = m.queue_take killed.trans_pending q }
              ])
              o)
          ≡ seen m c)
        (sym none_there) refl

  add_idle_timer-Same : (c : Conn) → Same c (add_idle_timer m c)
  unfolding add_idle_timer
  add_idle_timer-Same c = ground arith

  add_idle_timer-inbuf : (c : Conn) → SameInput c (add_idle_timer m c)
  unfolding add_idle_timer
  add_idle_timer-inbuf c = ground arith

  -- From the fields that `seen` has.
  seen-Valid : (c c' : Conn) → seen m c' ≡ seen m c → Valid m c → Valid m c'
  seen-Valid c c' e v =
      IsQuiet-Valid m c c' (ap (λ (x : Seen m). x.0) e, omega (arith, ap (λ (x : Seen m). x.1) e)) v

  module _ (ql : QueueLaws m) (il : IdMapLaws m) where
    -- What the removal of the ping leaves: no ping, and a transaction that is due at most.
    abbrev pub Removed : Conn → Conn → Type 0
    Removed c c' = Valid m c' × (c'.pingtxn ≡ none) × Follows c c' × SameInput c c'

    unpinged : (c : Conn) (x : ℕ) → (cleanup_ping m c).pingtxn ≢ some x
    unpinged c x e = ground (arith, cleanup_ping_gone c, e)

    count_others : (l : List ℕ) (p x : ℕ) → p ≢ x → count x (m.llist_insert l p) ≡ count x l
    count_others l p x other =
        let not_it : (p == x) ≡ false = ground arith in
        ap (count x) (il.llist_end l p) ∙ ground (arith, count-append x l (p ∷ []), not_it)

    pub cleanup_ping-Removed :
        (c : Conn) → c.in_use ≡ true → Good m c → Removed c (cleanup_ping m c)
    cleanup_ping-Removed c busy g = elim (Option-cases c.pingtxn) [
      | inl gone ↦
          let e = cleanup_ping_no_ping c gone in
          (
            seen-Valid c (cleanup_ping m c) e g.valid,
            cleanup_ping_gone c,
            record {
              grows = λ x.
                  subst (λ (f : ℕ → Option Trans). Grows (c.heap x) (f x))
                    (sym (ap (λ (x : Seen m). x.0.heap) e)) (Grows-refl (c.heap x));
              spares =
                  λ x t live other. (unpinged c x, ap (λ (x' : Seen m). count x x'.0.delay_rm) e);
              in_use = ap (λ (x : Seen m). x.2) e;
              destroy = ap (λ (x : Seen m). x.3) e;
            },
            ap (λ (x : Seen m). x.4) e,
          )
      | inr (p, ping) ↦
          let (t, live, free) = g.ping p ping in
          let e = cleanup_ping-seen m ql il c p t ping live busy in
          let heap = ap (λ (x : Seen m). x.0.heap) e in
          (
            cleanup_ping-Valid m ql il c p t ping live free busy g.valid,
            cleanup_ping_gone c,
            record {
              grows = λ x.
                  subst (λ (f : ℕ → Option Trans). Grows (c.heap x) (f x)) (sym heap)
                    (Grows-update c.heap p x t (quiet m t) live refl (omega arith));
              spares = λ x u there other. (
                unpinged c x,
                ap (λ (x' : Seen m). count x x'.0.delay_rm) e
                    ∙ count_others c.trans_delay_rm p x
                        (λ same. other (ping ∙ ap (λ (y : ℕ). some y) same)),
              );
              in_use = ap (λ (x : Seen m). x.2) e;
              destroy = ap (λ (x : Seen m). x.3) e;
            },
            ap (λ (x : Seen m). x.4) e,
          )
    ]

    pub set_connected-Good :
        (c : Conn) (events : List Entry)
        → c.in_use ≡ true
        → Good m c
        → let c' = (set_connected m c events).0 in Good m c' × Follows c c' × SameInput c c'
    unfolding set_connected
    set_connected-Good c events busy g =
        let (w, gone, follows, same) = cleanup_ping-Removed c busy g in
        let up = record (cleanup_ping m c) { status = connected } in
        let u : Valid m up = record { inv = w.inv; fresh = w.fresh } in
        let sent = send_messages m up in
        let s : Valid m sent = (send_messages-Valid m ql up u).0 in
        let k = send_messages-Keeps m ql up u in
        let a = add_idle_timer-Same sent in
        let l = Same-Keeps sent (add_idle_timer m sent) a in
        let after =
          Keeps-Follows up (add_idle_timer m sent)
            (Keeps-trans up sent (add_idle_timer m sent) k l) in
        let none_left = l.pingtxn ∙ k.pingtxn ∙ gone in
        (
          record {
            valid = IsQuiet-Valid m sent _ (add_idle_timer-IsQuiet m sent).0 s;
            ping = λ p e. absurd (ground (arith, none_left, e));
          },
          Follows-trans c (cleanup_ping m c) (add_idle_timer m sent) follows (record {
            grows = after.grows;
            spares = after.spares;
            in_use = after.in_use;
            destroy = after.destroy;
          }),
          add_idle_timer-inbuf sent ∙ send_messages-inbuf m up ∙ same,
        )

    -- The ping becomes due for deletion, and nothing else does.
    pub set_connected-due :
        (c : Conn) (events : List Entry) (p x : ℕ)
        → c.pingtxn ≡ some p
        → p ≢ x
        → c.in_use ≡ true
        → Good m c
        → count x (set_connected m c events).0.trans_delay_rm ≡ count x c.trans_delay_rm
    unfolding set_connected
    set_connected-due c events p x ping other busy g =
        let (w, _, _, _) = cleanup_ping-Removed c busy g in
        let up = record (cleanup_ping m c) { status = connected } in
        let u : Valid m up = record { inv = w.inv; fresh = w.fresh } in
        let sent = send_messages m up in
        let (t, live, _) = g.ping p ping in
        let e = cleanup_ping-seen m ql il c p t ping live busy in
        ap (count x) (Same-Keeps sent (add_idle_timer m sent) (add_idle_timer-Same sent)).delay_rm
        ∙ ap (count x) (send_messages-Keeps m ql up u).delay_rm
        ∙ ap (λ (s : Seen m). count x s.0.delay_rm) e
        ∙ count_others c.trans_delay_rm p x other
