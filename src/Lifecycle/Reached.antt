-- ===== src/Lifecycle/Reached.antt =====
-- What holds of every connection that any sequence of calls and events leads to.
use libmonetra.Base.{
  ℕ, ◌≡◌, refl, ◌∙◌, sym, Bool, true, false, [], Option, none, some, arith, ap, subst,
}
use libmonetra.Conn.{conn_destroy}
use libmonetra.Event.{finish}
use libmonetra.Invariant.Finish.{finish-Valid, finish-frees}
use libmonetra.Invariant.Whole.{conn_destroy-frees}
use libmonetra.Invariant.{Valid}
use libmonetra.Lifecycle.Creating.{conn_init-Good}
use libmonetra.Lifecycle.Deleting.{
  trans_delete-Good, trans_delete-Flags, trans_delete_idle, finish-Good,
}
use libmonetra.Lifecycle.Good.{Good, IsLive}
use libmonetra.Lifecycle.System.{Step, Reach, deleted, start, next}
use libmonetra.Mstdlib.{Mstdlib, QueueLaws, IdMapLaws}
use libmonetra.Types.{Conn}
use libmonetra.Lifecycle.Shape.{
  Shape, kept, handled, removed, ended, asked, Step-Shape, flag-Good, conn_destroy_busy,
}

-- A good connection on which nothing is due for deletion between two events.
pub record Sound (m : Mstdlib) (c : Conn) : Type 0 where
  pub good : Good m c
  pub settled : c.in_use ≡ false → c.trans_delay_rm ≡ []

module _ (m : Mstdlib) where
  -- While events are handled, deletions may be due.
  busy-Sound : (c : Conn) → Good m c → c.in_use ≡ true → Sound m c
  busy-Sound c g busy = record { good = g; settled = λ idle. absurd (ground (arith, busy, idle)) }

  module _ (ql : QueueLaws m) (il : IdMapLaws m) where
    pub Shape-Sound : (c c' : Conn) (o : Option ℕ) → Sound m c → Shape m c c' o → Sound m c'
    Shape-Sound c c' none s (kept k g) = record {
      good = g;
      settled = λ idle. k.delay_rm ∙ s.settled (sym k.in_use ∙ idle);
    }
    Shape-Sound c c' none s (handled f g) = busy-Sound c' g f.in_use
    Shape-Sound c c' (some _) s (removed p live not_ping e) = subst (Sound m) (sym e) (record {
      good = trans_delete-Good m ql il c p live not_ping s.good;
      settled = λ idle.
          let (t, there, _) = live in
          let before = sym (trans_delete-Flags m ql il c p t there).0 ∙ idle in
          trans_delete_idle m ql il c p t there before ∙ s.settled before;
    })
    Shape-Sound c c' none s (ended alive e) =
        let (w, none_due, idle, _) = finish-Valid m ql il c s.good.valid alive in
        subst (Sound m) (sym e)
          (record { good = finish-Good m ql il c s.good alive; settled = λ idle. none_due })
    Shape-Sound c c' none s (asked busy e) = subst (Sound m) (sym e) (
        busy-Sound (record c { destroy = true })
          (flag-Good m c (record c { destroy = true }) (refl, omega arith) s.good refl) busy)

    -- Every call and every event keeps a sound connection sound.
    pub Step-Sound : (c c' : Conn) → Sound m c → Step m c c' → Sound m c'
    Step-Sound c c' s step = Shape-Sound c c' (deleted step) s (Step-Shape m ql il c c' s.good step)

    pub Reach-Sound : (c : Conn) → Reach m c → Sound m c
    Reach-Sound c (start {c = _} draws ev callback host port e) =
        let (g, none_due) = conn_init-Good m il c draws ev callback host port e in
        record { good = g; settled = λ idle. none_due }
    Reach-Sound c (next {c = b} r step) = Step-Sound b c (Reach-Sound b r) step

    pub Reach-safe :
        (c : Conn)
        → Reach m c
        → (c.fault ≡ false) × Valid m c × ((p : ℕ) → c.pingtxn ≡ some p → IsLive c p)
    Reach-safe c r = let s = Reach-Sound c r in (s.good.valid.inv.safe, s.good.valid, s.good.ping)

    -- Whatever calls and events a connection has seen, LM_conn_destroy leaks no transaction: outside
    -- the event handler it frees all of them at once, and inside it the handler's end does. A user
    -- passes live transactions only, and does not delete the ping; M_queue, M_hash_u64vp and M_llist
    -- do what they document.
    pub Reach-frees :
        (c : Conn) (x : ℕ)
        → Reach m c
        → let now = conn_destroy c in
          let later = finish m now.0 in
          (c.in_use ≡ false → (now.1 ≡ true) × (now.0.heap x ≡ none))
          × (c.in_use ≡ true → (now.1 ≡ false) × (later.1 ≡ true) × (later.0.heap x ≡ none))
    Reach-frees c x r =
        let s = Reach-Sound c r in
        (
          λ idle. conn_destroy-frees m c x s.good.valid (s.settled idle) idle,
          λ busy.
              let is = conn_destroy_busy c busy in
              let same : (conn_destroy c).0 ≡ record c { destroy = true } =
                ap (λ (r : Conn × Bool). r.0) is in
              let t = Shape-Sound c (conn_destroy c).0 none s (asked busy same) in
              let (gone, freed) =
                finish-frees m ql il (conn_destroy c).0 x t.good.valid
                  (ap (λ (d : Conn). d.destroy) same) in
              (ap (λ (r : Conn × Bool). r.1) is, gone, freed),
        )
