-- ===== src/Apps/ConnTest.antt =====
-- apps/monetra_connload/src/monetra_connload.c: the callback on every event, and the delivery.
use libmonetra.Apps.CliOpts.{CliLib, ListLaws}
use libmonetra.Apps.ConnEvents.{More, create_connection-More, destroy_connection-Leaving}
use libmonetra.Apps.ConnOpts.{ConnOpts}
use libmonetra.Apps.ConnRun.{
  Track, ◌>>>◌, enqueue_tran, destroy_connection, create_connection, conn_callback, deliver_to,
}
use libmonetra.Apps.ConnSafe.{Open, Leaving, enqueue_tran-Open, on_trans_done-Open}
use libmonetra.Apps.ConnState.{IsBounded, Others, Exited, known_below}
use libmonetra.Base.{
  is_some, ap, ℕ, ◌+◌, ◌-◌, ◌%◌, ◌^◌, ◌≡◌, ◌⊎◌, refl, ◌∙◌, subst, true, false, List, [], ◌∷◌,
  Option, none, some, arith, if◌then◌else◌, ltb, length, some_inj, Bool-cases, inl, inr,
}
use libmonetra.Event.{Entry}
use libmonetra.Lifecycle.Reporting.{told}
use libmonetra.Mstdlib.{Mstdlib, QueueLaws, IdMapLaws}
use libmonetra.Types.{
  LmEvent, conn_connected, conn_disconnect, conn_error, trans_done, trans_error, trans_noconnect,
  trans_timeout,
}

-- A chain that returns went on, or is over.
pub then_cases :
    (r : Option Track) (f : Track → Option Track) {s : Track}
    → (r >>> f) ≡ some s
    → (b : Track) × (r ≡ some b)
      × (((b.over ≡ true) × (b ≡ s)) ⊎ ((b.over ≡ false) × (f b ≡ some s)))
then_cases none f e = absurd (ground (arith, e))
then_cases (some b) f e = (
  b,
  refl,
  elim (Bool-cases b.over) [
    | inl over ↦ inl (over, ground (arith, over, e))
    | inr going ↦ inr (going, ground (arith, going, e))
  ],
)

-- What a callback leaves: the end of the program, the connection as it is, or on its way out.
abbrev pub Left : Mstdlib → ConnOpts → ℕ → List Entry → Track → Type 0
Left m o p events s = Exited o s ⊎ (Open m o p events s ⊎ Leaving m o p s)

module _ (m : Mstdlib) (o : ConnOpts) where
  recount-Others :
      (w : Option ℕ) (s : Track) (n : ℕ)
      → Others m o w s
      → Others m o w (record s { num_connections = n })
  recount-Others w s n h = record {
    idle = h.idle;
    fresh = h.fresh;
    tracked = h.tracked;
    bounded = h.bounded;
    quiet = h.quiet;
    clean = h.clean;
  }

  -- An event that ends no transaction.
  silent-Open :
      (p n : ℕ) (e : Entry) (events : List Entry) (s : Track)
      → ((q : ℕ) → told q e ≡ 0)
      → Open m o p (e ∷ events) s
      → Open m o p events (record s { num_connections = n })
  silent-Open p n e events s silent h = record {
    others = recount-Others (some p) s n h.others;
    going = h.going;
    conn = h.conn;
    there = h.there;
    reach = h.reach;
    alive = h.alive;
    busy = h.busy;
    txns = h.txns;
    named = h.named;
    reported = λ q some_told.
        let (once, is) = h.reported q (omega (arith, silent q, some_told)) in
        (omega (arith, silent q, once), is);
  }

module _ (m : Mstdlib) (l : CliLib) (o : ConnOpts) (tlsctx : Option ℕ) (rnd : ℕ → List ℕ) where
  module _ (ql : QueueLaws m) (il : IdMapLaws m) (ll : ListLaws l) where
    More-Open :
        (p : ℕ) (events : List Entry) (s s' : Track)
        → Open m o p events s
        → More m l o tlsctx rnd ql il (some p) s s'
        → Open m o p events s'
    More-Open p events s s' h (others, going, same) =
        let (conns, num_txns) = same p (known_below m o (some p) p s h.conn h.others h.there) in
        record {
          others = others;
          going = going;
          conn = h.conn;
          there = conns ∙ h.there;
          reach = h.reach;
          alive = h.alive;
          busy = h.busy;
          txns = h.txns;
          named = num_txns ∙ h.named;
          reported = h.reported;
        }

    More-Leaving :
        (p : ℕ) (s s' : Track)
        → Leaving m o p s
        → More m l o tlsctx rnd ql il (some p) s s'
        → Leaving m o p s'
    More-Leaving p s s' h (others, going, same) =
        let (conns, _) = same p (known_below m o (some p) p s h.conn h.others h.there) in
        record {
          others = others;
          going = going;
          conn = h.conn;
          there = conns ∙ h.there;
          reach = h.reach;
          asked = h.asked;
        }

    connected-Left :
        (p : ℕ) (events : List Entry) (b : Track)
        → Open m o p events b
        → Left m o p events (
            if ltb (length b.track_conns) o.num_conns
            then create_connection m l o tlsctx rnd b
            else b)
    connected-Left p events b h = elim (Bool-cases (ltb (length b.track_conns) o.num_conns)) [
      | inr full ↦ rw full (inr (inl h))
      | inl more ↦
          let room : IsBounded o (1 ∷ b.track_conns) = ground (arith, more) in
          rw more
            (elim (create_connection-More m l o tlsctx rnd ql il (some p) b h.others h.going room) [
              | inl exited ↦ inl exited
              | inr made ↦
                  inr (inl (More-Open p events b (create_connection m l o tlsctx rnd b) h made))
            ])
    ]

    disconnected-Left :
        (p : ℕ) (events : List Entry) (b : Track)
        → Leaving m o p b
        → IsBounded o (1 ∷ b.track_conns)
        → Left m o p events (create_connection m l o tlsctx rnd b)
    disconnected-Left p events b h room =
        elim (create_connection-More m l o tlsctx rnd ql il (some p) b h.others h.going room) [
          | inl exited ↦ inl exited
          | inr made ↦ inr (inr (More-Leaving p b (create_connection m l o tlsctx rnd b) h made))
        ]

    conn_callback-Left :
        (p : ℕ) (kind : LmEvent) (trans : Option ℕ) (events : List Entry) (s s' : Track)
        → o.delay_per_trans_ms ≡ 0
        → Open m o p ((kind, trans) ∷ events) s
        → conn_callback m l o tlsctx rnd s p kind trans ≡ some s'
        → Left m o p events s'
    unfolding conn_callback
    conn_callback-Left p conn_connected trans events s s' no_delay h e =
        let s1 = record s { num_connections = (s.num_connections + 1) % 2 ^ 64 } in
        let h1 =
          silent-Open m o p s1.num_connections (conn_connected, trans) events s (λ q. refl) h in
        let (b, made, after) = then_cases (enqueue_tran m l o tlsctx rnd s1 p) _ e in
        let h2 = enqueue_tran-Open m l o tlsctx rnd ql il p events s1 b h1 made in
        elim after [
          | inl (over, same) ↦ absurd (ground (arith, over, h2.going))
          | inr (going, is) ↦ subst (Left m o p events) (some_inj is) (connected-Left p events b h2)
        ]
    conn_callback-Left p conn_disconnect trans events s s' no_delay h e =
        let s1 = record s { num_connections = (s.num_connections + (2 ^ 64 - 1)) % 2 ^ 64 } in
        let h1 =
          silent-Open m o p s1.num_connections (conn_disconnect, trans) events s (λ q. refl) h in
        let (b, made, after) = then_cases (destroy_connection m l o tlsctx rnd s1 p) _ e in
        let (h2, room) =
          destroy_connection-Leaving m l o tlsctx rnd ql il ll p events s1 b h1 made in
        elim after [
          | inl (over, same) ↦ absurd (ground (arith, over, h2.going))
          | inr (going, is) ↦
              subst (Left m o p events) (some_inj is) (disconnected-Left p events b h2 room)
        ]
    conn_callback-Left p conn_error trans events s s' no_delay h e =
        let there : is_some (s.num_txns p) ≡ true = ap is_some h.named in
        let is : some (record s { over = true }) ≡ some s' = rw (conn_callback, there) at e in
        subst (Left m o p events) (some_inj is) (inl (refl, h.others.clean, h.others.bounded))
    conn_callback-Left p trans_done trans events s s' no_delay h e =
        inr (inl (on_trans_done-Open m l o tlsctx rnd ql il p trans events s s' no_delay h e))
    conn_callback-Left p trans_error trans events s s' no_delay h e =
        subst (Left m o p events) (some_inj e) (
          inr
            (inl (silent-Open m o p s.num_connections (trans_error, trans) events s (λ q. refl) h)))
    conn_callback-Left p trans_noconnect trans events s s' no_delay h e =
        subst (Left m o p events) (some_inj e) (
          inr (
            inl (
              silent-Open m o p s.num_connections (trans_noconnect, trans) events s (λ q. refl) h)))
    conn_callback-Left p trans_timeout trans events s s' no_delay h e =
        subst (Left m o p events) (some_inj e) (
          inr (
            inl
              (silent-Open m o p s.num_connections (trans_timeout, trans) events s (λ q. refl) h)))

    pub deliver_to-Left :
        (p : ℕ) (events : List Entry) (s s' : Track)
        → o.delay_per_trans_ms ≡ 0
        → Open m o p events s
        → deliver_to m l o tlsctx rnd s p events ≡ some s'
        → Left m o p [] s'
    unfolding deliver_to
    deliver_to-Left p [] s s' no_delay h e = subst (Left m o p []) (some_inj e) (inr (inl h))
    deliver_to-Left p ((kind, trans) ∷ events) s s' no_delay h e =
        let (b, made, after) = then_cases (conn_callback m l o tlsctx rnd s p kind trans) _ e in
        let left = conn_callback-Left p kind trans events s b no_delay h made in
        elim after [
          | inl (over, same) ↦ elim left [
            | inl exited ↦ inl (subst (Exited o) same exited)
            | inr (inl opened) ↦ absurd (ground (arith, over, opened.going))
            | inr (inr leaving) ↦ absurd (ground (arith, over, leaving.going))
          ]
          | inr (going, is) ↦ elim left [
            | inl exited ↦ absurd (ground (arith, exited.0, going))
            | inr (inl opened) ↦
                deliver_to-Left p events b s' no_delay opened
                  (rw (opened.there, opened.alive) at is)
            | inr (inr leaving) ↦
                let same : some b ≡ some s' = rw (leaving.there, leaving.asked) at is in
                subst (Left m o p []) (some_inj same) (inr (inr leaving))
          ]
        ]
