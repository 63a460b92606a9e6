-- ===== src/Invariant/Connected.antt =====
-- LM_conn_event_set_connected: the ping's answer is there, and the waiting requests are sent.
use libmonetra.Base.{
  ℕ, ◌≤◌, ◌≡◌, refl, ◌∙◌, Bool, true, List, [], ◌∷◌, ◌++◌, some, none, Option, arith, ap, subst,
  sym, if◌then◌else◌, count, count-erase, inl, inr, erase, Bytes,
}
use libmonetra.Event.{Entry, cleanup_ping, add_idle_timer, set_connected}
use libmonetra.Invariant.Delete.{trans_delete-quieted, quieted, Deletes, trans_delete-Valid}
use libmonetra.Invariant.Quiet.{IsQuiet, IsQuiet-Valid}
use libmonetra.Invariant.Send.{send_messages_empties}
use libmonetra.Invariant.{Core, core, queue, tally, Inv, Valid}
use libmonetra.Mstdlib.{Mstdlib, QueueLaws, IdMapLaws}
use libmonetra.Structure.{send_messages}
use libmonetra.Trans.{trans_delete_unlocked, quiet, trans_delete}
use libmonetra.Types.{
  Conn, Trans, TransStatus, status_all, status_new, status_ready, status_pending, status_done,
  connected, conn_connected, update, timer_remove,
}

module _ (m : Mstdlib) where
  pub add_idle_timer-IsQuiet :
      (c : Conn)
      → IsQuiet c (add_idle_timer m c) × ((add_idle_timer m c).trans_ready ≡ c.trans_ready)
  unfolding add_idle_timer
  add_idle_timer-IsQuiet c = ground arith

  -- What LM_trans_delete changes while events are handled.
  abbrev pub noted : Conn → ℕ → Trans → Core
  noted c p t = record (core c) {
    delay_rm = m.llist_insert c.trans_delay_rm p;
    heap = update c.heap p (some (quiet m t));
  }

  -- The fields that the ping's removal is about.
  abbrev pub Seen : Type 0
  Seen = Core × ℕ × Bool × Bool × Bytes

  abbrev pub seen : Conn → Seen
  seen c = (core c, c.next, c.in_use, c.destroy, c.inbuf)

  module _ (ql : QueueLaws m) (il : IdMapLaws m) where
    pub trans_delete-noted :
        (c : Conn) (p : ℕ) (t : Trans)
        → c.heap p ≡ some t
        → c.in_use ≡ true
        → seen (trans_delete m c (some p)) ≡ (noted c p t, c.next, c.in_use, c.destroy, c.inbuf)
    trans_delete-noted c p t live busy =
        let (l, e) = trans_delete-quieted m ql il c p t live in
        let q = quieted m ql il c p t l in
        ap seen e
        ∙ ap
            (λ (b : Bool). seen (
              if b
              then record q { trans_delay_rm = m.llist_insert q.trans_delay_rm p }
              else trans_delete_unlocked m q (some p)))
            busy

    pub cleanup_ping-seen :
        (c : Conn) (p : ℕ) (t : Trans)
        → c.pingtxn ≡ some p
        → c.heap p ≡ some t
        → c.in_use ≡ true
        → seen (cleanup_ping m c) ≡ (
          record (noted c p t) { pending = m.queue_take c.trans_pending p },
          c.next,
          c.in_use,
          c.destroy,
          c.inbuf,
        )
    unfolding cleanup_ping
    cleanup_ping-seen c p t ping live busy =
        let killed = record c { timer = none; log = timer_remove c.timer ∷ c.log } in
        let taken = record killed { trans_pending = m.queue_take c.trans_pending p } in
        subst
          (λ (o : Option ℕ).
            seen (
              trans_delete m
                (elim o as (λ _. Conn) [
                  | none ↦ killed
                  | some q ↦ record killed { trans_pending = m.queue_take killed.trans_pending q }
                ])
                o)
            ≡ seen (trans_delete m taken (some p)))
          (sym ping) refl
        ∙ trans_delete-noted taken p t live busy

    -- A transaction whose deletion is due may be missing from the PENDING queue.
    due-Valid :
        (c : Conn) (p : ℕ)
        → count p c.trans_delay_rm ≡ 1
        → Valid m c
        → Valid m (record c { trans_pending = erase p c.trans_pending })
    due-Valid c p due v = record {
      inv = record {
        bounded = bounded_left;
        placed = placed_left;
        delayed = v.inv.delayed;
        ids = v.inv.ids;
        owned = v.inv.owned;
        safe = v.inv.safe;
      };
      fresh = v.fresh;
    }
      where
        left : Conn
        left = record c { trans_pending = erase p c.trans_pending }

        bounded_left :
            (x : ℕ) (s : TransStatus) → count x (queue (core left) s) ≤ tally (c.heap x) s
        bounded_left x status_pending =
            omega (arith, count-erase x p c.trans_pending, v.inv.bounded x status_pending)
        bounded_left x status_all = v.inv.bounded x status_all
        bounded_left x status_new = v.inv.bounded x status_new
        bounded_left x status_ready = v.inv.bounded x status_ready
        bounded_left x status_done = v.inv.bounded x status_done

        placed_left :
            (x : ℕ) (s : TransStatus)
            → count x c.trans_delay_rm ≡ 0
            → count x [] ≡ 0
            → count x (queue (core left) s) ≡ tally (c.heap x) s
        placed_left x status_pending free l = ground (
          arith,
          count-erase x p c.trans_pending,
          v.inv.placed x status_pending free l,
          due,
          free,
        )
        placed_left x status_all free l = v.inv.placed x status_all free l
        placed_left x status_new free l = v.inv.placed x status_new free l
        placed_left x status_ready free l = v.inv.placed x status_ready free l
        placed_left x status_done free l = v.inv.placed x status_done free l

    pub cleanup_ping-Valid :
        (c : Conn) (p : ℕ) (t : Trans)
        → c.pingtxn ≡ some p
        → c.heap p ≡ some t
        → count p c.trans_delay_rm ≡ 0
        → c.in_use ≡ true
        → Valid m c
        → Valid m (cleanup_ping m c)
    cleanup_ping-Valid c p t ping live free busy v =
        let d = trans_delete m c (some p) in
        let (w, deletes) = trans_delete-Valid m ql il c p t live free v in
        let due = noted_once deletes in
        let u = due-Valid d p due w in
        let e = cleanup_ping-seen c p t ping live busy in
        let d_is = trans_delete-noted c p t live busy in
        let pending : erase p d.trans_pending ≡ m.queue_take c.trans_pending p =
          ap (λ (x : Seen). erase p x.0.pending) d_is ∙ sym (ql.take_erase c.trans_pending p) in
        let left : core (record d { trans_pending = erase p d.trans_pending })
            ≡ core (cleanup_ping m c) =
          ap (λ (k : Core). record k { pending = erase p d.trans_pending })
            (ap (λ (x : Seen). x.0) d_is)
          ∙ ap (λ (l : List ℕ). record (noted c p t) { pending = l }) pending
          ∙ sym (ap (λ (x : Seen). x.0) e) in
        let next : (cleanup_ping m c).next ≡ d.next =
          ap (λ (x : Seen). x.1) e ∙ sym (ap (λ (x : Seen). x.1) d_is) in
        record {
          inv = subst (Inv m []) left u.inv;
          fresh = λ x le. sym (ap (λ (k : Core). k.heap x) left) ∙ w.fresh x (omega (arith, next));
        }
      where
        noted_once :
            Deletes m ql il c p (trans_delete m c (some p))
            → count p (trans_delete m c (some p)).trans_delay_rm ≡ 1
        noted_once (inl (idle, _)) = absurd (ground (arith, idle, busy))
        noted_once (inr (_, _, once)) = once

    -- The answer to the ping on a valid connection, while events are handled and the ping is not
    -- deleted: the invariant holds, the connection's event comes last, and no request is left in the
    -- READY queue, if M_queue, M_hash_u64vp and M_llist do what they document.
    pub set_connected-Valid :
        (c : Conn) (p : ℕ) (t : Trans) (events : List Entry)
        → c.pingtxn ≡ some p
        → c.heap p ≡ some t
        → count p c.trans_delay_rm ≡ 0
        → c.in_use ≡ true
        → Valid m c
        → let r = set_connected m c events in
          Valid m r.0 × (r.0.trans_ready ≡ []) × (r.1 ≡ events ++ ((conn_connected, none) ∷ []))
    unfolding set_connected
    set_connected-Valid c p t events ping live free busy v =
        let up = record (cleanup_ping m c) { status = connected } in
        let w = cleanup_ping-Valid c p t ping live free busy v in
        let u : Valid m up = record { inv = w.inv; fresh = w.fresh } in
        let (sent, none_left) = send_messages_empties m ql up u refl in
        let (q, same) = add_idle_timer-IsQuiet (send_messages m up) in
        (IsQuiet-Valid m (send_messages m up) _ q sent, same ∙ none_left, refl)
