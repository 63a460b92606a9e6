-- ===== src/Legacy/Kept.antt =====
-- The event loop of the old interface (src/monetra_legacy.c) on the events that the system gives it.
use libmonetra.Base.{
  ℕ, ◌≡◌, refl, ◌∙◌, Bool, true, false, List, [], ◌∷◌, Option, none, some, arith, subst,
  Option-cases, Bool-cases, inl, inr,
}
use libmonetra.Event.{Entry, finish, deliver, conntrans_event_handler}
use libmonetra.Invariant.Finish.{finish-Valid, finish-Cleans}
use libmonetra.Legacy.EventLoop.{Batch, World, event_callback, handle_batch}
use libmonetra.Lifecycle.Creating.{Quietly}
use libmonetra.Lifecycle.Good.{Good, IsLive, Follows, Quiet-Good}
use libmonetra.Lifecycle.Handler.{handle-Good}
use libmonetra.Lifecycle.Owned.{IsOwned, Stays, Shape-Stays}
use libmonetra.Lifecycle.Reached.{Sound, Shape-Sound}
use libmonetra.Lifecycle.Shape.{Shape, kept, handled, ended, flag-Good}
use libmonetra.Lifecycle.{Grows-refl, Grows-trans, Same-Keeps, Keeps}
use libmonetra.Mstdlib.{Mstdlib, QueueLaws, IdMapLaws}
use libmonetra.Types.{
  Conn, LmEvent, IoEvent, conn_connected, conn_disconnect, conn_error, trans_done, trans_error,
  trans_noconnect, trans_timeout,
}

-- A sound connection between two events, whose destruction nobody asked for.
pub record Ready (m : Mstdlib) (c : Conn) : Type 0 where
  pub sound : Sound m c
  pub idle : c.in_use ≡ false
  pub alive : c.destroy ≡ false

-- The transactions of the user's stay.
abbrev pub Keeping : Conn → Conn → Type 0
Keeping c c' = (p : ℕ) → IsOwned c p → Stays p c c'

pub Keeping-refl : (c : Conn) → Keeping c c
Keeping-refl c p owned = (owned, Grows-refl (c.heap p))

pub Keeping-trans : (c d e : Conn) → Keeping c d → Keeping d e → Keeping c e
Keeping-trans c d e k l p owned =
    let (owned', grows) = k p owned in
    let (owned'', grows') = l p owned' in
    (owned'', Grows-trans (c.heap p) (d.heap p) (e.heap p) grows grows')

-- The timers that fire are those of the user's transactions.
abbrev pub Timed : Conn → Batch → Type 0
Timed c [] = Unit
Timed c ((kind, none) ∷ events) = Timed c events
Timed c ((kind, some p) ∷ events) = IsOwned c p × Timed c events

abbrev pub AllTimed : Conn → World → Type 0
AllTimed c [] = Unit
AllTimed c (batch ∷ world) = Timed c batch × AllTimed c world

Timed-Keeping : (c d : Conn) (events : Batch) → Keeping c d → Timed c events → Timed d events
Timed-Keeping c d [] k t = tt
Timed-Keeping c d ((kind, none) ∷ events) k t = Timed-Keeping c d events k t
Timed-Keeping c d ((kind, some p) ∷ events) k (owned, t) =
    ((k p owned).0, Timed-Keeping c d events k t)

pub AllTimed-Keeping :
    (c d : Conn) (world : World) → Keeping c d → AllTimed c world → AllTimed d world
AllTimed-Keeping c d [] k t = tt
AllTimed-Keeping c d (batch ∷ world) k (t, ts) =
    (Timed-Keeping c d batch k t, AllTimed-Keeping c d world k ts)

first_timer :
    (c : Conn) (kind : IoEvent) (trans : Option ℕ) (events : Batch)
    → Timed c ((kind, trans) ∷ events)
    → ((p : ℕ) → trans ≡ some p → IsLive c p) × Timed c events
first_timer c kind none events t = (λ p e. absurd (ground arith), t)
first_timer c kind (some q) events (owned, t) =
    (λ p e. subst (IsLive c) (ground (arith, e)) owned.0, t)

event_callback-Quietly :
    (kind : LmEvent) (trans : Option ℕ) (c : Conn) → Quietly c (event_callback kind trans c)
unfolding event_callback
event_callback-Quietly conn_connected trans c = ground arith
event_callback-Quietly conn_disconnect trans c = ground arith
event_callback-Quietly conn_error trans c = ground arith
event_callback-Quietly trans_done trans c = ground arith
event_callback-Quietly trans_error trans c = ground arith
event_callback-Quietly trans_noconnect trans c = ground arith
event_callback-Quietly trans_timeout trans c = ground arith

Quietly-trans : (c d e : Conn) → Quietly c d → Quietly d e → Quietly c e
Quietly-trans c d e ((a, le), (b0, b1, b2, b3, b4)) ((a', le'), (b0', b1', b2', b3', b4')) =
    ((a' ∙ a, omega arith), (b0' ∙ b0, b1' ∙ b1, b2' ∙ b2, b3' ∙ b3, b4' ∙ b4))

module _ (m : Mstdlib) where
  deliver-Quietly : (events : List Entry) (c : Conn) → Quietly c (deliver m event_callback events c)
  unfolding deliver
  deliver-Quietly [] c = ((refl, omega arith), (refl, refl, refl, refl, refl))
  deliver-Quietly ((kind, trans) ∷ events) c =
      let c' = event_callback kind trans c in
      let first = event_callback-Quietly kind trans c in
      elim (Bool-cases c'.destroy) [
        | inl asked ↦ rw (asked, deliver) first
        | inr alive ↦
            rw (alive, deliver)
              (Quietly-trans c c' (deliver m event_callback events c') first
                (deliver-Quietly events c'))
      ]

  module _ (ql : QueueLaws m) (il : IdMapLaws m) where
    abbrev pub Kept : Conn → Conn → Type 0
    Kept c c' = Ready m c' × Keeping c c'

    -- From what the other parts of the interface do.
    pub shape-Kept :
        (c c' : Conn)
        → Ready m c
        → Shape m c c' none
        → c'.in_use ≡ false
        → c'.destroy ≡ false
        → Kept c c'
    shape-Kept c c' r shape idle alive = (
      record { sound = Shape-Sound m ql il c c' none r.sound shape; idle = idle; alive = alive },
      λ p owned. Shape-Stays m ql il p c c' none r.sound.good shape (λ e. cc) owned,
    )

    pub Keeps-Kept : (c c' : Conn) → Ready m c → Keeps c c' → Good m c' → Kept c c'
    Keeps-Kept c c' r k g = shape-Kept c c' r (kept k g) (k.in_use ∙ r.idle) (k.destroy ∙ r.alive)

    pub quiet-Kept : (c c' : Conn) → Ready m c → Quietly c c' → Kept c c'
    quiet-Kept c c' r (quiet, same) =
        Keeps-Kept c c' r (Same-Keeps c c' same) (Quiet-Good m c c' quiet same r.sound.good).0

    -- The handler up to its callbacks, the callbacks, the handler's end.
    handled-Kept :
        (c h : Conn) (events : List Entry)
        → Ready m c
        → Good m h
        → Follows (record c { in_use = true }) h
        → Kept c (finish m (deliver m event_callback events h)).0
    handled-Kept c h events r g f =
        let told = deliver m event_callback events h in
        let (quiet, same) = deliver-Quietly events h in
        let k = Same-Keeps h told same in
        let g' = (Quiet-Good m h told quiet same g).0 in
        let s1 = Shape-Sound m ql il c h none r.sound (handled f g) in
        let s2 = Shape-Sound m ql il h told none s1 (kept k g') in
        let alive : told.destroy ≡ false = k.destroy ∙ f.destroy ∙ r.alive in
        let shape : Shape m told (finish m told).0 none = ended alive refl in
        let (_, _, idle, _) = finish-Valid m ql il told g'.valid alive in
        let (_, _, same_flag) = finish-Cleans m ql il told g'.valid alive in
        (
          record {
            sound = Shape-Sound m ql il told (finish m told).0 none s2 shape;
            idle = idle;
            alive = same_flag ∙ alive;
          },
          Keeping-trans c told (finish m told).0
              (Keeping-trans c h told
                (λ p owned.
                  Shape-Stays m ql il p c h none r.sound.good (handled f g) (λ e. cc) owned)
                (λ p owned. Shape-Stays m ql il p h told none g (kept k g') (λ e. cc) owned))
              (λ p owned.
                Shape-Stays m ql il p told (finish m told).0 none g' shape (λ e. cc) owned),
        )

    event_handler-Kept :
        (c c' : Conn) (gone : Bool) (kind : IoEvent) (trans : Option ℕ)
        → Ready m c
        → ((p : ℕ) → trans ≡ some p → IsLive c p)
        → conntrans_event_handler m event_callback c kind trans ≡ some (c', gone)
        → Kept c c'
    unfolding conntrans_event_handler
    event_handler-Kept c c' gone kind trans r timer e =
        let b = record c { in_use = true } in
        let g = flag-Good m c b (refl, omega arith) r.sound.good refl in
        elim (handle-Good m ql il b kind trans refl timer g) [
          | inl ((h, events), is, g', f) ↦
              let same : (finish m (deliver m event_callback events h)).0 ≡ c' =
                ground (arith, is, e) in
              subst (Kept c) same (handled-Kept c h events r g' f)
          | inr (out, _) ↦ absurd (ground (arith, out, e))
        ]

    pub handle_batch-Kept :
        (events : Batch) (c c' : Conn)
        → Ready m c
        → Timed c events
        → handle_batch m events c ≡ some c'
        → Kept c c'
    unfolding handle_batch
    handle_batch-Kept [] c c' r t e =
        let same : c ≡ c' = ground (arith, e) in subst (Kept c) same (r, Keeping-refl c)
    handle_batch-Kept ((kind, trans) ∷ events) c c' r t e =
        elim (Option-cases (conntrans_event_handler m event_callback c kind trans)) [
          | inl out ↦ absurd (ground (arith, out, e))
          | inr ((d, gone), is) ↦
              let (timer, t') = first_timer c kind trans events t in
              let (r', k) = event_handler-Kept c d gone kind trans r timer is in
              let (r'', k') =
                handle_batch-Kept events d c' r' (Timed-Keeping c d events k t')
                  (ground (arith, is, e)) in
              (r'', Keeping-trans c d c' k k')
        ]
