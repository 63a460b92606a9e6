-- ===== src/Apps/ConnWhole.antt =====
-- apps/monetra_connload/src/monetra_connload.c: the connection load test as a whole.
use libmonetra.Apps.CliOpts.{CliLib, ListLaws}
use libmonetra.Apps.ConnEvents.{create_connection-More}
use libmonetra.Apps.ConnOpts.{ConnOpts}
use libmonetra.Apps.ConnRun.{
  Track, put, no_track, deliver_to, finish_on, conn_event, main_start, trans_delay_cb,
}
use libmonetra.Apps.ConnSafe.{Open, Leaving}
use libmonetra.Apps.ConnState.{
  IsBounded, Idle, Others, Exited, Changed, Changed-Others, put_same, put_self, known_below,
  open_Others, close_Others,
}
use libmonetra.Base.{
  ℕ, ◌≤◌, ◌≡◌, ◌⊎◌, refl, ◌∙◌, sym, ap, subst, true, false, List, [], ◌∷◌, Option, none, some,
  arith, count, bind_some, some_inj, inl, inr,
}
use libmonetra.Event.{Entry, Handled, handle, finish}
use libmonetra.Invariant.Finish.{finish-Valid, finish-frees, finish-Cleans}
use libmonetra.Invariant.{Valid}
use libmonetra.Lifecycle.Good.{Follows}
use libmonetra.Lifecycle.Handler.{handle-Good}
use libmonetra.Lifecycle.Reached.{Reach-Sound, Reach-safe}
use libmonetra.Lifecycle.Shape.{flag-Good}
use libmonetra.Lifecycle.System.{next, event, ends}
use libmonetra.Lifecycle.Told.{handle-Reported}
use libmonetra.Mstdlib.{Mstdlib, QueueLaws, IdMapLaws}
use libmonetra.Types.{Conn, IoEvent}
use libmonetra.Apps.ConnTest.{then_cases, deliver_to-Left}

-- The states of the program: main up to the event loop, then events on its connections, none of which
-- has a timer of a transaction, and its own timers as they expire.
pub data Loading (m : Mstdlib) (l : CliLib) (o : ConnOpts) (tlsctx : Option ℕ) (rnd : ℕ → List ℕ)
    : Track → Type 0 where
  begins : Loading m l o tlsctx rnd (main_start m l o tlsctx rnd)
  handles :
      {s s' : Track} (p : ℕ) (c : Conn) (kind : IoEvent)
      → Loading m l o tlsctx rnd s
      → s.over ≡ false
      → s.conns p ≡ some c
      → conn_event m l o tlsctx rnd s p kind none ≡ some s'
      → Loading m l o tlsctx rnd s'
  expires :
      {s s' : Track} (p : ℕ)
      → Loading m l o tlsctx rnd s
      → s.over ≡ false
      → 1 ≤ count p s.timers
      → trans_delay_cb m l o tlsctx rnd s p ≡ some s'
      → Loading m l o tlsctx rnd s'

module _ (m : Mstdlib) (l : CliLib) (o : ConnOpts) (tlsctx : Option ℕ) (rnd : ℕ → List ℕ) where
  module _ (ql : QueueLaws m) (il : IdMapLaws m) (ll : ListLaws l) where
    -- The end of the event handler.
    finish_on-Open :
        (p : ℕ) (s : Track)
        → Open m o p [] s
        → let s' = finish_on m l o tlsctx rnd s p in Others m o none s' × (s'.over ≡ false)
    unfolding finish_on
    finish_on-Open p s h =
        let v = (Reach-Sound m ql il h.conn h.reach).good.valid in
        let (_, _, idle, stays) = finish-Valid m ql il h.conn v h.alive in
        let (_, _, same) = finish-Cleans m ql il h.conn v h.alive in
        let c' = (finish m h.conn).0 in
        let s1 = record s { conns = put s.conns p (some c') } in
        let below = known_below m o (some p) p s h.conn h.others h.there in
        let changed : Changed p s s1 = record {
          conn = some c';
          data_of = some h.txns;
          conns = refl;
          num_txns = put_self s.num_txns p (some h.txns) h.named;
          listed = λ n e. h.others.tracked p h.txns h.named;
          next = refl;
          track_conns = refl;
          timers = refl;
          fault = refl;
        } in
        let others = Changed-Others m o p s s1 below changed h.others in
        let idle_again : Idle m s1 p c' =
          (next h.reach (ends h.busy h.alive refl), same ∙ h.alive, idle, (h.txns, h.named)) in
        rw (h.there, finish_on, stays)
          (
            close_Others m o p s1
                (λ d at.
                  let here : c' ≡ d = some_inj (sym (put_same s.conns p (some c')) ∙ at) in
                  subst (Idle m s1 p) here idle_again)
                others,
            h.going,
          )

    finish_on-Leaving :
        (p : ℕ) (s : Track)
        → Leaving m o p s
        → let s' = finish_on m l o tlsctx rnd s p in Others m o none s' × (s'.over ≡ false)
    unfolding finish_on
    finish_on-Leaving p s h =
        let v = (Reach-Sound m ql il h.conn h.reach).good.valid in
        let (gone, _) = finish-frees m ql il h.conn p v h.asked in
        let s1 = record s { conns = put s.conns p none } in
        let below = known_below m o (some p) p s h.conn h.others h.there in
        let changed : Changed p s s1 = record {
          conn = none;
          data_of = s.num_txns p;
          conns = refl;
          num_txns = put_self s.num_txns p (s.num_txns p) refl;
          listed = h.others.tracked p;
          next = refl;
          track_conns = refl;
          timers = refl;
          fault = refl;
        } in
        let others = Changed-Others m o p s s1 below changed h.others in
        rw (h.there, finish_on, gone)
          (
            close_Others m o p s1 (λ d at. absurd (ground (arith, put_same s.conns p none, at)))
                others,
            h.going,
          )

    -- The handler of a connection, behind which the program has exited, or all connections are idle.
    handled-Open :
        (p : ℕ) (s : Track) (c d : Conn) (kind : IoEvent) (events : List Entry)
        → Others m o none s
        → s.over ≡ false
        → s.conns p ≡ some c
        → handle m (record c { in_use = true }) kind none ≡ some (d, events)
        → Open m o p events (record s { conns = put s.conns p (some d) })
    handled-Open p s c d kind events h going at e =
        let (r, alive, idle, (n, named)) = h.idle p c (λ e. absurd (ground (arith, e))) at in
        let sound = Reach-Sound m ql il c r in
        let b = record c { in_use = true } in
        let g = flag-Good m c b (refl, omega arith) sound.good refl in
        let settled = sound.settled idle in
        let no_timer = λ (t : ℕ) (e : none ≡ some t). absurd (ground (arith, e)) in
        let s1 = record s { conns = put s.conns p (some d) } in
        let below = known_below m o none p s c h at in
        let follows : Follows b d = elim (handle-Good m ql il b kind none refl no_timer g) [
          | inl (x, is, _, f) ↦
              let same : x ≡ (d, events) = some_inj (sym is ∙ e) in
              subst (λ (y : Handled). Follows b y.0) same f
          | inr (out, _) ↦ absurd (ground (arith, out, e))
        ] in
        let changed : Changed p s s1 = record {
          conn = some d;
          data_of = some n;
          conns = refl;
          num_txns = put_self s.num_txns p (some n) named;
          listed = λ n' e. h.tracked p n named;
          next = refl;
          track_conns = refl;
          timers = refl;
          fault = refl;
        } in
        record {
          others = Changed-Others m o p s s1 below changed (open_Others m o p s h);
          going = going;
          conn = d;
          there = put_same s.conns p (some d);
          reach = next r (event kind none events idle no_timer e);
          alive = follows.destroy ∙ alive;
          busy = follows.in_use;
          txns = n;
          named = named;
          reported = handle-Reported m ql il b d kind none events refl g settled e;
        }

    -- A state between two events.
    abbrev pub Between : Track → Type 0
    Between s = Exited o s ⊎ (Others m o none s × (s.over ≡ false))

    conn_event-Between :
        (p : ℕ) (s s' : Track) (c : Conn) (kind : IoEvent)
        → o.delay_per_trans_ms ≡ 0
        → Others m o none s
        → s.over ≡ false
        → s.conns p ≡ some c
        → conn_event m l o tlsctx rnd s p kind none ≡ some s'
        → Between s'
    unfolding conn_event
    conn_event-Between p s s' c kind no_delay h going at e =
        let ((d, events), handled, e1) =
          bind_some (handle m (record c { in_use = true }) kind none) _
            (rw (at, conn_event) at e) in
        let s1 = record s { conns = put s.conns p (some d) } in
        let opened = handled-Open p s c d kind events h going at handled in
        let (b, told', after) = then_cases (deliver_to m l o tlsctx rnd s1 p events) _ e1 in
        let left = deliver_to-Left m l o tlsctx rnd ql il ll p events s1 b no_delay opened told' in
        elim after [
          | inl (over, same) ↦ elim left [
            | inl exited ↦ inl (subst (Exited o) same exited)
            | inr (inl open') ↦ absurd (ground (arith, over, open'.going))
            | inr (inr leaving) ↦ absurd (ground (arith, over, leaving.going))
          ]
          | inr (on, is) ↦ elim left [
            | inl exited ↦ absurd (ground (arith, exited.0, on))
            | inr (inl open') ↦ subst Between (some_inj is) (inr (finish_on-Open p b open'))
            | inr (inr leaving) ↦ subst Between (some_inj is) (inr (finish_on-Leaving p b leaving))
          ]
        ]

    no_track-Others : Others m o none no_track
    no_track-Others = record {
      idle = λ q c open' at. absurd (ground (arith, at));
      fresh = λ q le. refl;
      tracked = λ q n at. absurd (ground (arith, at));
      bounded = omega arith;
      quiet = refl;
      clean = refl;
    }

    main_start-Between : Between (main_start m l o tlsctx rnd)
    unfolding main_start
    main_start-Between =
        let room : IsBounded o (1 ∷ []) = ground arith in
        elim (create_connection-More m l o tlsctx rnd ql il none no_track no_track-Others refl
          room) [ inl exited ↦ inl exited | inr (others, going, _) ↦ inr (others, going) ]

    Loading-Between :
        (s : Track) → o.delay_per_trans_ms ≡ 0 → Loading m l o tlsctx rnd s → Between s
    Loading-Between s no_delay begins = main_start-Between
    Loading-Between s no_delay (handles {s = before} p c kind run going at e) =
        elim (Loading-Between before no_delay run) [
          | inl exited ↦ absurd (ground (arith, exited.0, going))
          | inr (others, _) ↦ conn_event-Between p before s c kind no_delay others going at e
        ]
    Loading-Between s no_delay (expires {s = before} p run going waits e) =
        elim (Loading-Between before no_delay run) [
          | inl exited ↦ absurd (ground (arith, exited.0, going))
          | inr (others, _) ↦ absurd (omega (arith, waits, ap (count p) others.quiet))
        ]

    -- Without a delay between its requests, the connection load test never reads freed memory, whatever
    -- events the network brings in which order, and at no time has more connections than it was asked
    -- for, or one. M_queue, M_hash_u64vp and M_llist do what they document.
    pub Loading-IsBounded :
        (s : Track)
        → o.delay_per_trans_ms ≡ 0
        → Loading m l o tlsctx rnd s
        → (s.fault ≡ false) × IsBounded o s.track_conns
    Loading-IsBounded s no_delay run = elim (Loading-Between s no_delay run) [
      | inl exited ↦ (exited.1, exited.2)
      | inr (others, _) ↦ (others.clean, others.bounded)
    ]

    -- Each of its connections is in order between two events: the library has read no freed memory on
    -- it either, its transactions are in order, and it has its private data. There is no delay between
    -- the requests, the program has not exited, and M_queue, M_hash_u64vp and M_llist do what they
    -- document.
    pub Loading-Valid :
        (s : Track) (p : ℕ) (c : Conn)
        → o.delay_per_trans_ms ≡ 0
        → Loading m l o tlsctx rnd s
        → s.over ≡ false
        → s.conns p ≡ some c
        → (c.fault ≡ false) × Valid m c × ((n : ℕ) × (s.num_txns p ≡ some n))
    Loading-Valid s p c no_delay run going at = elim (Loading-Between s no_delay run) [
      | inl exited ↦ absurd (ground (arith, exited.0, going))
      | inr (others, _) ↦
          let (r, _, _, named) = others.idle p c (λ e. absurd (ground (arith, e))) at in
          let (safe, valid, _) = Reach-safe m ql il c r in (safe, valid, named)
    ]
