-- ===== src/Legacy/Waiting.antt =====
-- The wait of M_TransSend (src/monetra_legacy.c) ends: each round takes a call of the event loop.
use libmonetra.Base.{
  ℕ, zero, suc, ◌≤◌, ◌<◌, ◌≡◌, refl, ◌∙◌, sym, Bool, true, false, ◌&&◌, not, List, [], ◌∷◌, none,
  some, arith, ap, Option-cases, Bool-cases, inl, inr, length, negsuc, ◌+◌, count, if◌then◌else◌,
}
use libmonetra.Conn.{conn_trans_count}
use libmonetra.Invariant.{tally}
use libmonetra.Legacy.Blocking.{Gives-some, Monitored, monitor_ex-After}
use libmonetra.Legacy.EventLoop.{
  World, is_done, is_up, nothing_to_do, waiting, event_loop, monitor_ex, await_done,
}
use libmonetra.Legacy.Kept.{Ready, AllTimed}
use libmonetra.Legacy.{Session}
use libmonetra.Lifecycle.Owned.{IsOwned}
use libmonetra.Lifecycle.{rank, Grows-live}
use libmonetra.Mstdlib.{Mstdlib, QueueLaws, IdMapLaws}
use libmonetra.Trans.{trans_status, get_trans-live}
use libmonetra.Types.{
  Conn, Trans, TransStatus, status_all, status_new, status_ready, status_pending, status_done,
  trans_status_eq,
}

count_le_length : (x : ℕ) (q : List ℕ) → count x q ≤ length q
count_le_length x [] = omega arith
count_le_length x (y ∷ q) = ground (arith, count_le_length x q)

status-live :
    (c : Conn) (p : ℕ) (t : Trans)
    → c.heap p ≡ some t
    → trans_status c (some p) ≡ (c, some t.status)
unfolding trans_status
status-live c p t live = get_trans-live c p none _ live

is_done-live :
    (c : Conn) (p : ℕ) (t : Trans)
    → c.heap p ≡ some t
    → is_done c p ≡ trans_status_eq t.status status_done
is_done-live c p t live = rw (status-live c p t live, is_done) refl

waits_for :
    (t : Trans)
    → 2 ≤ rank t.status
    → trans_status_eq t.status status_done ≡ false
    → 1 ≤ tally (some t) status_ready + tally (some t) status_pending
waits_for t sent waits = by_status t.status sent waits
  where
    by_status :
        (s : TransStatus)
        → 2 ≤ rank s
        → trans_status_eq s status_done ≡ false
        → 1
          ≤ (if trans_status_eq s status_ready then 1 else 0)
            + (if trans_status_eq s status_pending then 1 else 0)
    by_status status_all le not_done = absurd (omega arith)
    by_status status_new le not_done = absurd (omega arith)
    by_status status_ready le not_done = omega arith
    by_status status_pending le not_done = omega arith
    by_status status_done le not_done = cc

counted :
    (c : Conn)
    → (conn_trans_count c status_ready ≡ length c.trans_ready)
      × (conn_trans_count c status_pending ≡ length c.trans_pending)
unfolding conn_trans_count
counted c = (omega arith, omega arith)

-- A transaction of the user's that was sent.
abbrev pub IsSent : Conn → ℕ → Type 0
IsSent c p = IsOwned c p × ((t : Trans) → c.heap p ≡ some t → 2 ≤ rank t.status)

-- A call of the event loop does not return, at once or after rounds of the wait that do.
pub data Blocks (m : Mstdlib) (p : ℕ) : Session → World → Type 0 where
  at_once :
      {s : Session} {world : World}
      → is_done s.conn p ≡ false
      → event_loop m world (waiting false (negsuc 0) s.conn) ≡ none
      → Blocks m p s world
  later :
      {s s' : Session} {world world' : World} {up : Bool}
      → is_done s.conn p ≡ false
      → monitor_ex m false s (negsuc 0) world ≡ some (s', world', up)
      → Blocks m p s' world'
      → Blocks m p s world

module _ (m : Mstdlib) where
  -- M_Monitor_ex does not return only where its call of the event loop does not.
  monitor_ex_blocks :
      (s : Session) (world : World)
      → monitor_ex m false s (negsuc 0) world ≡ none
      → event_loop m world (waiting false (negsuc 0) s.conn) ≡ none
  unfolding monitor_ex
  monitor_ex_blocks s world e =
      elim (Option-cases (event_loop m world (waiting false (negsuc 0) s.conn))) [
        | inl out ↦ out
        | inr ((c, rest), is) ↦ elim (Bool-cases (nothing_to_do s)) [
          | inl idle ↦
              let got : some (s, world, true) ≡ none = rw (monitor_ex, idle) at e in
              absurd (ground (arith, got))
          | inr some_left ↦ elim (Bool-cases (is_up s.conn)) [
            | inr down ↦
                let got : some (s, world, false) ≡ none = rw (monitor_ex, some_left, down) at e in
                absurd (ground (arith, got))
            | inl up ↦ elim (Bool-cases (is_up c)) [
              | inl still ↦
                  absurd (ground (arith, (rw (monitor_ex, some_left, up, is, still) at e)))
              | inr gone ↦ absurd (ground (arith, (rw (monitor_ex, some_left, up, is, gone) at e)))
            ]
          ]
        ]
      ]

  -- There is something to wait for.
  busy :
      (s : Session) (p : ℕ)
      → Ready m s.conn
      → IsSent s.conn p
      → is_done s.conn p ≡ false
      → nothing_to_do s ≡ false
  busy s p r (((t, live, free), _), sent) waits =
      let c = s.conn in
      let inv = r.sound.good.valid.inv in
      let some_left = waits_for t (sent t live) (sym (is_done-live c p t live) ∙ waits) in
      let (ready, pending) = counted c in
      ground (
        arith,
        some_left,
        ready,
        pending,
        live,
        inv.placed p status_ready free refl,
        inv.placed p status_pending free refl,
        count_le_length p c.trans_ready,
        count_le_length p c.trans_pending,
      )

  module _ (ql : QueueLaws m) (il : IdMapLaws m) where
    stays-IsSent :
        (s s' : Session) (world world' : World) (up : Bool) (p : ℕ)
        → Monitored m ql il s world (s', world', up)
        → IsSent s.conn p
        → IsSent s'.conn p
    stays-IsSent s s' world world' up p (((_, k), _), _) (owned, sent) =
        let ((t, live, _), _) = owned in
        let (owned', grows) = k p owned in
        (
          owned',
          λ u at.
              let (w, same, _, le) = Grows-live (s.conn.heap p) (s'.conn.heap p) t grows live in
              let is : w ≡ u = ground (arith, same, at) in
              ground (arith, le, sent t live, ap (λ (x : Trans). rank x.status) is),
        )

    -- In the blocking mode the wait of M_TransSend lacks a result only if, after rounds that each
    -- returned, a call of the event loop does not return: the system reports nothing any more, or no id
    -- is left for a new transaction. It does not go round for ever, and one unit of fuel more than the
    -- calls of the event loop is enough. The connection is sound and not in use, the transaction is the
    -- user's and was sent; the timers that fire are of the user's transactions; M_queue, M_hash_u64vp
    -- and M_llist do what they document.
    pub await_done_enough :
        (fuel : ℕ) (s : Session) (p : ℕ) (world : World)
        → length world < fuel
        → Ready m s.conn
        → AllTimed s.conn world
        → IsSent s.conn p
        → await_done m fuel s p world ≡ none
        → Blocks m p s world
    unfolding await_done
    await_done_enough zero s p world le r t sent e = absurd (omega arith)
    await_done_enough (suc fuel) s p world le r t sent e = elim (Bool-cases (is_done s.conn p)) [
      | inl done ↦
          let is : some (s, world, true) ≡ none = rw (await_done, done) at e in
          absurd (ground (arith, is))
      | inr waits ↦ elim (Option-cases (monitor_ex m false s (negsuc 0) world)) [
        | inl out ↦ at_once waits (monitor_ex_blocks s world out)
        | inr ((s', world', up), is) ↦
            let round =
              Gives-some (Monitored m ql il s world) (monitor_ex m false s (negsuc 0) world)
                (s', world', up) is (monitor_ex-After m ql il false s (negsuc 0) world r t) in
            elim (Bool-cases (not up && not (is_done s'.conn p))) [
              | inl lost ↦
                  let ended : some (s', world', false) ≡ none =
                    rw (await_done, waits, is, lost) at e in
                  absurd (ground (arith, ended))
              | inr goes_on ↦
                  let rest : await_done m fuel s' p world' ≡ none =
                    rw (await_done, waits, is, goes_on) at e in
                  elim round.1 [
                    | inl idle ↦ absurd (ground (arith, idle, busy s p r sent waits))
                    | inr (inl (down, same)) ↦
                        let still : is_done s'.conn p ≡ false =
                          ap (λ (c : Conn). is_done c p) same ∙ waits in
                        absurd (ground (arith, down, still, goes_on))
                    | inr (inr less) ↦ later waits is (
                        await_done_enough fuel s' p world' (omega (arith, less)) round.0.0.0
                          round.0.1 (stays-IsSent s s' world world' up p round sent) rest)
                  ]
            ]
      ]
    ]
