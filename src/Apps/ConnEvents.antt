-- ===== src/Apps/ConnEvents.antt =====
-- apps/monetra_connload/src/monetra_connload.c: connections that are made and destroyed, and the
-- callback on every event.
use libmonetra.Apps.CliOpts.{CliLib, ListLaws}
use libmonetra.Apps.ConnOpts.{ConnOpts}
use libmonetra.Apps.ConnRun.{Track, put, destroy_connection, create_connection}
use libmonetra.Apps.ConnSafe.{Open, Leaving}
use libmonetra.Apps.ConnState.{IsBounded, Idle, Others, Exited, put_same, put_other, known_below}
use libmonetra.Base.{
  ℕ, ◌+◌, ◌≤◌, ◌<◌, ◌≡◌, ◌≢◌, ◌⊎◌, refl, ◌∙◌, sym, ap, subst, Bool, true, false, List, [], ◌∷◌,
  Option, none, some, arith, ◌==◌, length, count, some_inj, Bool-cases, Option-cases, inl, inr,
  length-append, count-append, count-erase, length-erase,
}
use libmonetra.Conn.{conn_init, conn_set_userdata, conn_set_tls_clientctx, conn_destroy}
use libmonetra.Connect.{conn_connect}
use libmonetra.Event.{Entry}
use libmonetra.Lifecycle.Creating.{apply-Quietly, conn_init-Quietly}
use libmonetra.Lifecycle.Sending.{conn_connect-Keeps}
use libmonetra.Lifecycle.Shape.{conn_destroy_busy}
use libmonetra.Lifecycle.System.{
  Reach, start, next, changes, connects, destroys, apply, userdata, tls_clientctx,
}
use libmonetra.Lifecycle.{Same-Keeps, Keeps-trans}
use libmonetra.Mstdlib.{Mstdlib, QueueLaws, IdMapLaws}
use libmonetra.Types.{Conn}

module _ (m : Mstdlib) (l : CliLib) (o : ConnOpts) (tlsctx : Option ℕ) (rnd : ℕ → List ℕ) where
  -- A connection as create_connection leaves it.
  abbrev created_conn : Conn → ℕ → Conn
  created_conn c p =
      (conn_connect m (conn_set_tls_clientctx (conn_set_userdata c (some p)).0 tlsctx).0).0

  module _ (ql : QueueLaws m) (il : IdMapLaws m) where
    created_conn-Idle :
        (p : ℕ) (c : Conn)
        → conn_init (rnd p) (some 1) (some 1) (some o.hostname) o.port ≡ some c
        → let c' = created_conn c p in Reach m c' × (c'.destroy ≡ false) × (c'.in_use ≡ false)
    unfolding apply
    created_conn-Idle p c made =
        let (_, same0) =
          conn_init-Quietly m il c (rnd p) (some 1) (some 1) (some o.hostname) o.port made in
        let c1 = (conn_set_userdata c (some p)).0 in
        let (_, same1) = apply-Quietly c (userdata (some p)) in
        let c2 = (conn_set_tls_clientctx c1 tlsctx).0 in
        let (_, same2) = apply-Quietly c1 (tls_clientctx tlsctx) in
        let k = Keeps-trans c c1 (created_conn c p) (Same-Keeps c c1 same1) (
          Keeps-trans c1 c2 (created_conn c p) (Same-Keeps c1 c2 same2)
            (conn_connect-Keeps m c2)) in
        (
          next
              (next
                (next (start (rnd p) (some 1) (some 1) (some o.hostname) o.port made)
                  (changes (userdata (some p)) refl))
                (changes (tls_clientctx tlsctx) refl))
              (connects refl),
          k.destroy ∙ same0.4,
          k.in_use ∙ same0.3,
        )

    abbrev added : Track → Conn → Track
    added s c = record s {
      next = s.next + 1;
      track_conns = m.llist_insert s.track_conns s.next;
      num_txns = put s.num_txns s.next (some 0);
      conns = put s.conns s.next (some c);
    }

    added-Idle :
        (s : Track) (c d : Conn) (q : ℕ)
        → Reach m c × (c.destroy ≡ false) × (c.in_use ≡ false)
        → (s.next ≢ q → s.conns q ≡ some d → Idle m s q d)
        → put s.conns s.next (some c) q ≡ some d
        → Idle m (added s c) q d
    added-Idle s c d q (r, alive, idle) before at = elim (Bool-cases (s.next == q)) [
      | inl same ↦
          let is : s.next ≡ q = ground (arith, same) in
          let here : c ≡ d =
            some_inj
              (sym (put_same s.conns s.next (some c)) ∙ ap (put s.conns s.next (some c)) is ∙ at) in
          subst (λ (x : Conn). Idle m (added s c) q x) here
            (
              r,
              alive,
              idle,
              (
                0,
                sym (ap (put s.num_txns s.next (some 0)) is) ∙ put_same s.num_txns s.next (some 0),
              ),
            )
      | inr other ↦
          let apart : s.next ≢ q = ground (arith, other) in
          let (r', alive', idle', (n, named)) =
            before apart (sym (put_other s.conns s.next q (some c) apart) ∙ at) in
          (r', alive', idle', (n, put_other s.num_txns s.next q (some 0) apart ∙ named))
    ]

    added-count :
        (s : Track) (q n : ℕ)
        → (s.num_txns q ≡ some n → 1 ≤ count q s.track_conns)
        → put s.num_txns s.next (some 0) q ≡ some n
        → 1 ≤ count q (m.llist_insert s.track_conns s.next)
    added-count s q n before at =
        let end' = il.llist_end s.track_conns s.next in
        let all = ap (count q) end' ∙ count-append q s.track_conns (s.next ∷ []) in
        elim (Bool-cases (s.next == q)) [
          | inl same ↦ ground (arith, all, same)
          | inr other ↦
              let apart : s.next ≢ q = ground (arith, other) in
              let was = before (sym (put_other s.num_txns s.next q (some 0) apart) ∙ at) in
              ground (arith, all, other, was)
        ]

    added-Others :
        (w : Option ℕ) (s : Track) (c : Conn)
        → Others m o w s
        → IsBounded o (1 ∷ s.track_conns)
        → Reach m c × (c.destroy ≡ false) × (c.in_use ≡ false)
        → Others m o w (added s c)
    added-Others w s c h room new = record {
      idle = λ q d other at. added-Idle s c d q new (λ apart. h.idle q d other) at;
      fresh = λ q le.
          put_other s.conns s.next q (some c) (omega (arith, le)) ∙ h.fresh q (omega (arith, le));
      tracked = λ q n at. added-count s q n (h.tracked q n) at;
      bounded =
          let end' = il.llist_end s.track_conns s.next in
          omega (
            arith,
            room,
            ap (λ (xs : List ℕ). length xs) end',
            length-append s.track_conns (s.next ∷ []),
          );
      quiet = h.quiet;
      clean = h.clean;
    }

    -- One connection more: another one is as it was.
    abbrev pub More : Option ℕ → Track → Track → Type 0
    More w s s' =
        Others m o w s'
        × (s'.over ≡ false)
        × ((q : ℕ) → q < s.next → (s'.conns q ≡ s.conns q) × (s'.num_txns q ≡ s.num_txns q))

    pub create_connection-More :
        (w : Option ℕ) (s : Track)
        → Others m o w s
        → s.over ≡ false
        → IsBounded o (1 ∷ s.track_conns)
        → let s' = create_connection m l o tlsctx rnd s in Exited o s' ⊎ More w s s'
    unfolding create_connection
    create_connection-More w s h going room =
        elim (Option-cases (conn_init (rnd s.next) (some 1) (some 1) (some o.hostname) o.port)) [
          | inl refused ↦ rw (refused, create_connection) (inl (refl, h.clean, h.bounded))
          | inr (c, made) ↦
              rw (made, create_connection)
                (inr (
                  added-Others w s (created_conn c s.next) h room (created_conn-Idle s.next c made),
                  going,
                  λ q below. (
                    put_other s.conns s.next q (some (created_conn c s.next))
                        (omega (arith, below)),
                    put_other s.num_txns s.next q (some 0) (omega (arith, below)),
                  ),
                ))
        ]

    -- The connection goes: its place is free, its end is due.
    pub destroy_connection-Leaving :
        (ll : ListLaws l) (p : ℕ) (events : List Entry) (s s' : Track)
        → Open m o p events s
        → destroy_connection m l o tlsctx rnd s p ≡ some s'
        → Leaving m o p s' × IsBounded o (1 ∷ s'.track_conns)
    unfolding destroy_connection
    destroy_connection-Leaving ll p events s s' h e =
        let c' = record h.conn { destroy = true } in
        let s1 = record s {
          track_conns = l.llist_take_node s.track_conns p;
          num_txns = put s.num_txns p none;
          conns = put s.conns p (some c');
        } in
        let is : some s1 ≡ some s' =
          rw (h.there, destroy_connection, h.named, conn_destroy_busy h.conn h.busy) at e in
        let taken = ll.take_node s.track_conns p in
        let listed = h.others.tracked p h.txns h.named in
        let shorter : length s1.track_conns + 1 ≡ length s.track_conns =
          omega
            (arith, ap (λ (xs : List ℕ). length xs) taken, length-erase p s.track_conns listed) in
        let out : c' ≡ (conn_destroy h.conn).0 =
          sym (ap (λ (r : Conn × Bool). r.0) (conn_destroy_busy h.conn h.busy)) in
        let below = known_below m o (some p) p s h.conn h.others h.there in
        subst (λ (x : Track). Leaving m o p x × IsBounded o (1 ∷ x.track_conns)) (some_inj is)
          (
            record {
              others = record {
                idle = λ q d other at.
                    let apart : p ≢ q = λ same. other (ap (λ (x : ℕ). some x) same) in
                    let (r, alive, idle, (n, named)) =
                      h.others.idle q d other (sym (put_other s.conns p q (some c') apart) ∙ at) in
                    (r, alive, idle, (n, put_other s.num_txns p q none apart ∙ named));
                fresh = λ q le.
                    put_other s.conns p q (some c') (omega (arith, le, below))
                    ∙ h.others.fresh q le;
                tracked = λ q n at. elim (Bool-cases (p == q)) [
                  | inl same ↦ absurd (ground (arith, same, at))
                  | inr other ↦
                      let was =
                        h.others.tracked q n
                          (sym (put_other s.num_txns p q none (ground (arith, other))) ∙ at) in
                      ground (arith, was, ap (count q) taken, count-erase q p s.track_conns, other)
                ];
                bounded = omega (arith, shorter, h.others.bounded);
                quiet = h.others.quiet;
                clean = h.others.clean;
              };
              going = h.going;
              conn = c';
              there = put_same s.conns p (some c');
              reach = next h.reach (destroys h.busy out);
              asked = refl;
            },
            omega (arith, shorter, h.others.bounded),
          )
