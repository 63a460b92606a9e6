-- ===== src/Lifecycle/PingRequest.antt =====
-- LM_trans_ping_request: a transaction that is PENDING from the start.
use libmonetra.Base.{
  ℕ, ◌+◌, ◌≡◌, refl, ◌∙◌, false, List, [], ◌∷◌, none, some, arith, ap, count, codes, subst, sym,
  Option-cases, Bool-cases, inl, inr, ◌==◌,
}
use libmonetra.Event.{start_ping}
use libmonetra.Invariant.Create.{draw_id_unused, store-Valid}
use libmonetra.Invariant.Moves.{alloc-Inv, keep-Inv, mark-Inv, put-Inv, unused-IsDetached}
use libmonetra.Invariant.{core, alive, Valid}
use libmonetra.Lifecycle.Good.{
  Good, IsLive, Follows, Follows-trans, Keeps-Follows, Keeps-IsLive, Quiet-Good,
}
use libmonetra.Lifecycle.Sending.{structure-Keeps}
use libmonetra.Lifecycle.{Grows-refl}
use libmonetra.Mstdlib.{Mstdlib, QueueLaws, IdMapLaws}
use libmonetra.Send.{force_pending, write_now, trans_ping_request}
use libmonetra.Structure.{trans_structure}
use libmonetra.Trans.{
  blank, draw_id, get_trans-live, with_trans-live, trans_new_internal, register_id, trans_set_param,
}
use libmonetra.Types.{Conn, Trans, status_pending, update, store, timer_oneshot}

module _ (m : Mstdlib) where
  abbrev pub ping_new : ℕ → Trans
  ping_new id = record (blank m id) {
    request_params = some (m.dict_insert m.dict_create (codes "action") (some (codes "ping")));
  }

  abbrev pub ping_sent : ℕ → Trans
  ping_sent id = record (ping_new id) { status = status_pending }

  -- The connection with the ping's transaction, before its message is written.
  abbrev pub pinging : Conn → ℕ → List ℕ → Conn
  pinging c id rs = record c {
    rnd = rs;
    heap =
        update (update (update c.heap c.next (some (blank m id))) c.next (some (ping_new id)))
          c.next (some (ping_sent id));
    next = c.next + 1;
    trans_pending = m.queue_insert c.trans_pending c.next;
    trans_id_map = m.u64vp_insert c.trans_id_map id c.next;
  }

  abbrev allocated : Conn → ℕ → List ℕ → Conn
  allocated c id rs = record c {
    rnd = rs;
    heap = update c.heap c.next (some (blank m id));
    next = c.next + 1;
  }

  set_param-allocated :
      (c : Conn) (id : ℕ) (rs : List ℕ)
      → (trans_set_param m
          (allocated c id rs)
          (some c.next)
          (some (codes "action"))
          (some (codes "ping"))).0
        ≡ store c.next (ping_new id) (allocated c id rs)
  unfolding trans_set_param
  set_param-allocated c id rs =
      let live : (allocated c id rs).heap c.next ≡ some (blank m id) = ground arith in
      rw (get_trans-live (allocated c id rs) c.next false _ live) refl

  force-allocated :
      (c : Conn) (id : ℕ) (rs : List ℕ)
      → register_id m
          (force_pending m (store c.next (ping_new id) (allocated c id rs)) c.next)
          c.next
        ≡ pinging c id rs
  unfolding register_id force_pending
  force-allocated c id rs =
      let d = store c.next (ping_new id) (allocated c id rs) in
      let e =
        store c.next (ping_sent id)
          (record d { trans_pending = m.queue_insert d.trans_pending c.next }) in
      let new : d.heap c.next ≡ some (ping_new id) = ground arith in
      let sent : e.heap c.next ≡ some (ping_sent id) = ground arith in
      rw (with_trans-live d c.next _ new) (rw (with_trans-live e c.next _ sent) refl)

  ping_request-pinging :
      (c : Conn) (id : ℕ) (rs : List ℕ)
      → draw_id m c.rnd c.trans_id_map ≡ some (id, rs)
      → trans_ping_request m c
        ≡ some (write_now m (trans_structure m (pinging c id rs) c.next), c.next)
  unfolding trans_ping_request trans_new_internal
  ping_request-pinging c id rs h =
      rw (h, trans_ping_request)
        (ap (λ (d : Conn). some (write_now m (trans_structure m d c.next), c.next))
          (ap (λ (d : Conn). register_id m (force_pending m d c.next) c.next)
              (set_param-allocated c id rs)
            ∙ force-allocated c id rs))

  structure-Valid :
      (c : Conn) (p : ℕ) (t : Trans)
      → c.heap p ≡ some t
      → Valid m c
      → Valid m (trans_structure m c p)
  unfolding trans_structure
  structure-Valid c p t live v =
      let w = store-Valid m c p t (record t { request_params = none }) live refl refl v in
      rw (with_trans-live c p _ live) (record { inv = w.inv; fresh = w.fresh })

  module _ (ql : QueueLaws m) (il : IdMapLaws m) where
    pinging-Valid :
        (c : Conn) (id : ℕ) (rs : List ℕ)
        → m.u64vp_get c.trans_id_map id ≡ none
        → Valid m c
        → Valid m (pinging c id rs)
    pinging-Valid c id rs unused v =
        let p = c.next in
        let dead = v.fresh p (omega arith) in
        let apart = unused-IsDetached m (core c) [] p dead v.inv in
        let f1 = update c.heap p (some (blank m id)) in
        let f2 = update f1 p (some (ping_new id)) in
        let k1 = record (core c) { heap = f1; id_map = m.u64vp_insert c.trans_id_map id p } in
        let k2 = record k1 { heap = f2 } in
        let k3 = record k1 { heap = update f2 p (some (ping_sent id)) } in
        let i1 = alloc-Inv m il (core c) p (blank m id) dead unused v.inv in
        let i2 = keep-Inv m k1 (p ∷ []) p (blank m id) (ping_new id) (ground arith) refl refl i1 in
        let i3 = mark-Inv m k2 p (ping_new id) (ping_sent id) (ground arith) refl apart i2 in
        record {
          inv =
              put-Inv m ql k3 p (ping_sent id) status_pending (ground arith) refl (λ e. cc) apart
                i3;
          fresh = λ x le. ground (arith, v.fresh x);
        }

    pinging-Follows : (c : Conn) (id : ℕ) (rs : List ℕ) → Valid m c → Follows c (pinging c id rs)
    pinging-Follows c id rs v = record {
      grows = λ x. elim (Bool-cases (c.next == x)) [
        | inl same ↦
            let dead : c.heap x ≡ none = v.fresh x (ground (arith, same)) in rw (same, dead) tt
        | inr other ↦ rw other (Grows-refl (c.heap x))
      ];
      spares = λ x t live other. (other, refl);
      in_use = refl;
      destroy = refl;
    }

    abbrev pub timed : Conn → Conn
    timed c = record c {
      timer = some c.next;
      next = c.next + 1;
      log = timer_oneshot c.next 5000 ∷ c.log;
    }

    -- The connection once the ping is written.
    abbrev pub pinged : Conn → ℕ → List ℕ → Conn
    pinged c id rs =
        let p = (timed c).next in
        record (write_now m (trans_structure m (pinging (timed c) id rs) p)) { pingtxn = some p }

    pub start_ping-pinged :
        (c : Conn) (id : ℕ) (rs : List ℕ)
        → draw_id m c.rnd c.trans_id_map ≡ some (id, rs)
        → start_ping m c ≡ some (pinged c id rs)
    unfolding start_ping
    start_ping-pinged c id rs d = rw (ping_request-pinging (timed c) id rs d, start_ping) refl

    pub start_ping_drawless :
        (c : Conn) → draw_id m c.rnd c.trans_id_map ≡ none → start_ping m c ≡ none
    unfolding start_ping trans_ping_request trans_new_internal
    start_ping_drawless c d = rw (d, start_ping) refl

    pinged-Good :
        (c : Conn) (id : ℕ) (rs : List ℕ)
        → draw_id m c.rnd c.trans_id_map ≡ some (id, rs)
        → Good m c
        → Good m (pinged c id rs) × Follows c (pinged c id rs)
    unfolding write_now
    pinged-Good c id rs d g =
        let t = timed c in
        let p = t.next in
        let (gt, ft) = Quiet-Good m c t (refl, omega arith) (refl, refl, refl, refl, refl) g in
        let q = pinging t id rs in
        let vq = pinging-Valid t id rs (draw_id_unused m t.rnd t.trans_id_map id rs d) gt.valid in
        let live : q.heap p ≡ some (ping_sent id) = ground arith in
        let w = structure-Valid q p (ping_sent id) live vq in
        let k = structure-Keeps m q p (ping_sent id) live in
        let fq = Follows-trans c t q ft (pinging-Follows t id rs gt.valid) in
        let fw = Follows-trans c q (trans_structure m q p) fq (Keeps-Follows q _ k) in
        let free : count p q.trans_delay_rm ≡ 0 =
          omega (arith, gt.valid.inv.delayed p, ap alive (gt.valid.fresh p (omega arith))) in
        let still = Keeps-IsLive q (trans_structure m q p) p k (ping_sent id, live, free) in
        (
          record {
            valid = record { inv = w.inv; fresh = w.fresh };
            ping = λ x e.
                let same : x ≡ p = ground (arith, e) in
                subst (IsLive (trans_structure m q p)) (sym same) still;
          },
          record {
            grows = fw.grows;
            spares = λ x t there other.
                (λ e. ground (arith, e, there, g.valid.fresh x), (fw.spares x t there other).1);
            in_use = fw.in_use;
            destroy = fw.destroy;
          },
        )

    -- The ping is on its way, if an id is left for it.
    pub start_ping-Good :
        (c c' : Conn) → Good m c → start_ping m c ≡ some c' → Good m c' × Follows c c'
    start_ping-Good c c' g h = elim (Option-cases (draw_id m c.rnd c.trans_id_map)) [
      | inl out ↦ absurd (ground (arith, start_ping_drawless c out, h))
      | inr ((id, rs), d) ↦
          let is : pinged c id rs ≡ c' = ground (arith, start_ping-pinged c id rs d, h) in
          subst (λ (x : Conn). Good m x × Follows c x) is (pinged-Good c id rs d g)
    ]
