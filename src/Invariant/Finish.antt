-- ===== src/Invariant/Finish.antt =====
-- The end of LM_conntrans_event_handler: the delayed deletions, the reconnection, the destruction.
use libmonetra.Base.{
  ℕ, ◌≡◌, refl, ◌∙◌, Bool, true, false, ◌&&◌, not, List, [], ◌∷◌, none, some, arith, ap,
  if◌then◌else◌, ◌==◌, count, is_nil, Option-cases, inl, inr,
}
use libmonetra.Connect.{conn_connect}
use libmonetra.Event.{remove_delayed, finish}
use libmonetra.Invariant.Delete.{remove_delayed-Valid}
use libmonetra.Invariant.Quiet.{IsQuiet, IsQuiet-Valid, conn_connect-IsQuiet}
use libmonetra.Invariant.Whole.{conn_destroy-frees}
use libmonetra.Invariant.{Core, Valid}
use libmonetra.Mstdlib.{Mstdlib, QueueLaws, IdMapLaws}
use libmonetra.Trans.{
  set_queue, queue_of, with_trans, with_trans-live, trans_delete_unlocked, reset_idle_timer,
}
use libmonetra.Types.{
  Conn, TransStatus, status_all, status_new, status_ready, status_pending, status_done,
  disconnected, conn_status_eq,
}

-- The flags of the event handler, and the ping.
abbrev pub Flags : Conn → Conn → Type 0
Flags c c' = (c'.in_use ≡ c.in_use) × (c'.destroy ≡ c.destroy) × (c'.pingtxn ≡ c.pingtxn)

module _ (m : Mstdlib) where
  conn_connect-Flags : (c : Conn) → Flags c (conn_connect m c).0
  unfolding conn_connect
  conn_connect-Flags c = ground arith

  set_queue-Flags : (c : Conn) (s : TransStatus) (q : List ℕ) → Flags c (set_queue c s q)
  set_queue-Flags c status_all q = (refl, refl, refl)
  set_queue-Flags c status_new q = (refl, refl, refl)
  set_queue-Flags c status_ready q = (refl, refl, refl)
  set_queue-Flags c status_pending q = (refl, refl, refl)
  set_queue-Flags c status_done q = (refl, refl, refl)

  reset_idle_timer-Flags : (c : Conn) → Flags c (reset_idle_timer m c)
  unfolding reset_idle_timer
  reset_idle_timer-Flags c = ground arith

  pub trans_delete_unlocked-Flags :
      (c : Conn) (p : ℕ) → Flags c (trans_delete_unlocked m c (some p))
  unfolding trans_delete_unlocked
  trans_delete_unlocked-Flags c p = elim (Option-cases (c.heap p)) [
    | inl dead ↦ rw (dead, with_trans) (refl, refl, refl)
    | inr (t, live) ↦
        let taken = set_queue c t.status (m.queue_take (queue_of c t.status) p) in
        let a = set_queue-Flags c t.status (m.queue_take (queue_of c t.status) p) in
        let b =
          reset_idle_timer-Flags
            (record taken { trans_id_map = m.u64vp_remove taken.trans_id_map t.trans_id }) in
        rw (with_trans-live c p _ live) (b.0 ∙ a.0, b.1 ∙ a.1, b.2 ∙ a.2)
  ]

  remove_delayed-Flags : (ps : List ℕ) (c : Conn) → Flags c (remove_delayed m ps c)
  unfolding remove_delayed
  remove_delayed-Flags [] c = (refl, refl, refl)
  remove_delayed-Flags (p ∷ ps) c =
      let a = trans_delete_unlocked-Flags (record c { trans_delay_rm = ps }) p in
      let b =
        remove_delayed-Flags ps
          (trans_delete_unlocked m (record c { trans_delay_rm = ps }) (some p)) in
      (b.0 ∙ a.0, b.1 ∙ a.1, b.2 ∙ a.2)

  -- The reconnection, if it is asked for.
  reconnect-Quiet :
      (c : Conn) (again : Bool)
      → let c' = if again then (conn_connect m c).0 else c in IsQuiet c c' × Flags c c'
  reconnect-Quiet c true = (conn_connect-IsQuiet m c, conn_connect-Flags c)
  reconnect-Quiet c false = ((refl, omega arith), (refl, refl, refl))

  module _ (ql : QueueLaws m) (il : IdMapLaws m) where
    abbrev cleaned : Conn → Conn
    cleaned c = record (remove_delayed m c.trans_delay_rm c) { in_use = false }

    abbrev reconnected : Conn → Conn
    reconnected c =
        let again =
          conn_status_eq (cleaned c).status disconnected && not (is_nil (cleaned c).trans_ready) in
        if again then (conn_connect m (cleaned c)).0 else cleaned c

    -- What the end of the handler does to each pointer.
    abbrev pub Cleans : Conn → Conn → Type 0
    Cleans c c' =
        ((x : ℕ) → c'.heap x ≡ (if count x c.trans_delay_rm == 0 then c.heap x else none))
        × (c'.pingtxn ≡ c.pingtxn)
        × (c'.destroy ≡ c.destroy)

    reconnected-Cleans : (c : Conn) → Valid m c → Cleans c (reconnected c)
    reconnected-Cleans c v =
        let (_, _, freed) = remove_delayed-Valid m ql il c.trans_delay_rm c refl v in
        let again =
          conn_status_eq (cleaned c).status disconnected && not (is_nil (cleaned c).trans_ready) in
        let (q, f) = reconnect-Quiet (cleaned c) again in
        let flags = remove_delayed-Flags c.trans_delay_rm c in
        (λ x. ap (λ (k : Core). k.heap x) q.0 ∙ freed x, f.2 ∙ flags.2, f.1 ∙ flags.1)

    pub finish-Cleans : (c : Conn) → Valid m c → c.destroy ≡ false → Cleans c (finish m c).0
    unfolding finish
    finish-Cleans c v alive = let cleans = reconnected-Cleans c v in rw (cleans.2 ∙ alive) cleans

    reconnected-Valid :
        (c : Conn)
        → Valid m c
        → Valid m (reconnected c)
          × ((reconnected c).trans_delay_rm ≡ [])
          × ((reconnected c).in_use ≡ false)
          × ((reconnected c).destroy ≡ c.destroy)
    reconnected-Valid c v =
        let (w, none_due, _) = remove_delayed-Valid m ql il c.trans_delay_rm c refl v in
        let again =
          conn_status_eq (cleaned c).status disconnected && not (is_nil (cleaned c).trans_ready) in
        let (q, f) = reconnect-Quiet (cleaned c) again in
        let u : Valid m (cleaned c) = record { inv = w.inv; fresh = w.fresh } in
        (
          IsQuiet-Valid m (cleaned c) (reconnected c) q u,
          ap (λ (k : Core). k.delay_rm) q.0 ∙ none_due,
          f.0,
          f.1 ∙ (remove_delayed-Flags c.trans_delay_rm c).1,
        )

    -- The end of the event handler on a valid connection whose destruction nobody asked for leaves a
    -- valid connection that is not in use, with no deletion due, if M_queue and M_hash_u64vp do what
    -- they document.
    pub finish-Valid :
        (c : Conn)
        → Valid m c
        → c.destroy ≡ false
        → Valid m (finish m c).0
          × ((finish m c).0.trans_delay_rm ≡ [])
          × ((finish m c).0.in_use ≡ false)
          × ((finish m c).1 ≡ false)
    unfolding finish
    finish-Valid c v alive =
        let (w, none_due, idle, same) = reconnected-Valid c v in
        rw (same ∙ alive) (w, none_due, idle, refl)

    -- If a callback asked for the destruction, the end of the event handler on a valid connection
    -- destroys it, and no transaction is left in memory, if M_queue and M_hash_u64vp do what they
    -- document.
    pub finish-frees :
        (c : Conn) (x : ℕ)
        → Valid m c
        → c.destroy ≡ true
        → ((finish m c).1 ≡ true) × ((finish m c).0.heap x ≡ none)
    unfolding finish
    finish-frees c x v asked =
        let (w, none_due, idle, same) = reconnected-Valid c v in
        rw (same ∙ asked) (conn_destroy-frees m (reconnected c) x w none_due idle)
